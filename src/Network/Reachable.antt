-- ===== src/Network/Reachable.antt =====
-- What the two sides of the tick adjustment know of each other in every reachable state, and what
-- follows for the messages on their way: Client.cpp of the server and Network.cpp of the client.
mod Tests
use amalgam_engine.Prelude.{
  ℕ, ◌^◌, ◌<◌, ◌≡◌, ◌≢◌, ◌⊎◌, inl, inr, refl, sym, ◌∙◌, subst, false, none, some, List, [], ◌∷◌,
  ◌++◌, arith,
}
use amalgam_engine.Prelude.Int.{ℤ}
use amalgam_engine.Network.ServerClient.{
  CircularBuffer, Client, get_tick_adjustment, record_tick_diff, receive_iteration,
}
use amalgam_engine.Network.ClientNetwork.{Network, adjust_if_needed}
use amalgam_engine.Network.Protocol.{
  Header, System, ◌⟶◌, send_batch, deliver_batch, client_tick, send_message, deliver_message,
  diff_recorded, Reach, connected, later, turned, Turn-first,
}
use amalgam_engine.Network.Agreement.{
  next, Agreement, batch_sent, batch_delivered, client_ticked, message_sent, message_heard,
  Ahead-ignores,
}

adjust_accepts :
    (n m : Network) (a : ℤ) (i : ℕ)
    → adjust_if_needed n a i ≡ some m
    → m ≢ n
    → (i ≡ n.adjustment_iteration) × (n.is_applying_tick_adjustment ≡ false)
unfolding adjust_if_needed
adjust_accepts n m a i e changed = grind arith

adjust_aborts :
    (n : Network) (a : ℤ) (i : ℕ) → adjust_if_needed n a i ≡ none → n.adjustment_iteration < i
unfolding adjust_if_needed
adjust_aborts n a i e = grind arith

module _ {H P : Type 0} where
  receives_next :
      (c : Client H P) (i : ℕ)
      → i ≡ next c.latest_adj_iteration
      → (receive_iteration c i).latest_adj_iteration ≡ i
  unfolding receive_iteration
  receives_next c i e = ground arith

  receives_same :
      (c : Client H P) (i : ℕ)
      → i ≡ c.latest_adj_iteration
      → c.latest_adj_iteration < 2 ^ 8
      → (receive_iteration c i).latest_adj_iteration ≡ i
  unfolding receive_iteration
  receives_same c i e small = ground arith

  record_keeps_iteration :
      (buf : CircularBuffer H) (c : Client H P) (d : ℤ)
      → (record_tick_diff buf c d).latest_adj_iteration ≡ c.latest_adj_iteration
  unfolding record_tick_diff
  record_keeps_iteration buf c d = ground arith

module _ {H P : Type 0} where
  -- The messages on their way are received, the oldest first.
  unfoldable pub receive_all : Client H P → List ℕ → Client H P
  receive_all c [] = c
  receive_all c (j ∷ js) = receive_all (receive_iteration c j) js

module _ {H P : Type 0} (buf : CircularBuffer H) where
  abbrev pub IsAgreed : System H P → Type 0
  IsAgreed s = Agreement s.server.latest_adj_iteration s.client s.up s.down

  receive_iteration_hears :
      (c : Client H P) (j : ℕ)
      → (j ≡ c.latest_adj_iteration) ⊎ (j ≡ next c.latest_adj_iteration)
      → c.latest_adj_iteration < 2 ^ 8
      → (receive_iteration c j).latest_adj_iteration ≡ j
  receive_iteration_hears c j (inl e) small = receives_same c j e small
  receive_iteration_hears c j (inr e) small = receives_next c j e

  step-IsAgreed : {s t : System H P} → ◌⟶◌ buf s t → IsAgreed s → IsAgreed t
  unfolding get_tick_adjustment
  step-IsAgreed (send_batch {s}) a = batch_sent _ s.client s.up s.down _ refl a
  step-IsAgreed (deliver_batch {s} {h} {rest} {n} e f) a =
      batch_delivered _ s.client n s.up rest h f (subst (Agreement _ s.client s.up) e a)
  step-IsAgreed (client_tick {s}) a = client_ticked _ s.client s.up s.down a
  step-IsAgreed (send_message {s}) a = message_sent _ s.client s.up s.down a
  step-IsAgreed (deliver_message {s} {i} {rest} e) a =
      let (which, small, after) =
        message_heard _ i s.client rest s.down
          (subst (λ u. Agreement s.server.latest_adj_iteration s.client u s.down) e a) in
      subst (λ k. Agreement k s.client rest s.down)
        (sym (receive_iteration_hears s.server i which small)) after
  step-IsAgreed (diff_recorded {s} d) a =
      subst (λ k. Agreement k s.client s.up s.down) (sym (record_keeps_iteration buf s.server d)) a

  -- Every interleaving of the two sides' steps keeps their agreement: their iterations are equal, or
  -- the client's is the next one; no header or message on its way is of another iteration, except
  -- headers of the iteration before; and the client applies nothing that the server has not heard
  -- the end of.
  pub Reach-IsAgreed : {s : System H P} → Reach buf s → IsAgreed s
  Reach-IsAgreed (connected c n e f g) = inl (record {
    before = 255;
    small = omega (e, arith);
    before_small = omega arith;
    step = e;
    same = f ∙ sym e;
    up_same = tt;
    down_turn = turned tt;
    heard = λ _. tt;
  })
  Reach-IsAgreed (later r st) = step-IsAgreed st (Reach-IsAgreed r)

  -- In every reachable state, an adjustment that the client starts to apply is one that the server
  -- calculated in the iteration that both sides are in, with no other one under way.
  pub accepted_adjustment_current :
      {s : System H P} (n : Network) (h : Header) (rest : List Header)
      → Reach buf s
      → s.down ≡ h ∷ rest
      → adjust_if_needed s.client h.adjustment h.iteration ≡ some n
      → n ≢ s.client
      → (h.iteration ≡ s.server.latest_adj_iteration)
        × (s.client.adjustment_iteration ≡ s.server.latest_adj_iteration)
        × (s.client.is_applying_tick_adjustment ≡ false)
  accepted_adjustment_current {s} n h rest r e f changed =
      let (same, idle) = adjust_accepts s.client n h.adjustment h.iteration f changed in
      elim (subst (Agreement s.server.latest_adj_iteration s.client s.up) e (Reach-IsAgreed r)) [
        | inl t ↦ (same ∙ t.same, t.same, idle)
        | inr a ↦ absurd (changed (Ahead-ignores _ s.client n s.up rest h a f))
      ]

  -- In every reachable state, the client aborts on a header only if the header's iteration is 255 and
  -- its own is 0.
  pub aborts_on_wrap_only :
      {s : System H P} (h : Header) (rest : List Header)
      → Reach buf s
      → s.down ≡ h ∷ rest
      → adjust_if_needed s.client h.adjustment h.iteration ≡ none
      → (h.iteration ≡ 255) × (s.client.adjustment_iteration ≡ 0)
  aborts_on_wrap_only {s} h rest r e f =
      let above = adjust_aborts s.client h.adjustment h.iteration f in
      elim (subst (Agreement s.server.latest_adj_iteration s.client s.up) e (Reach-IsAgreed r)) [
        | inl t ↦ elim (Turn-first (λ g. g.iteration) t.down_turn) [
          | inl (was, others) ↦ (
            omega (arith, t.step, t.before_small, t.same),
            omega (arith, t.step, t.before_small, t.same),
          )
          | inr (now, others) ↦ let same = t.same in absurd (omega arith)
        ]
        | inr a ↦ (
          omega (arith, a.step, a.small, a.down_same.0),
          omega (arith, a.step, a.small, a.down_same.0),
        )
      ]

  -- In every reachable state, a message takes the server to the iteration that the client was in
  -- when it sent the message: the differences that count as fresh are those of messages of the
  -- server's iteration.
  pub message_iteration_heard :
      {s : System H P} (j : ℕ) (rest : List ℕ)
      → Reach buf s
      → s.up ≡ j ∷ rest
      → (receive_iteration s.server j).latest_adj_iteration ≡ j
  message_iteration_heard {s} j rest r e =
      let (which, small, after) =
        message_heard s.server.latest_adj_iteration j s.client rest s.down (
          subst (λ u. Agreement s.server.latest_adj_iteration s.client u s.down) e
            (Reach-IsAgreed r)) in
      receive_iteration_hears s.server j which small

  receive_all_agrees :
      (c : Client H P) (n : Network) (js : List ℕ) (down : List Header)
      → Agreement c.latest_adj_iteration n (js ++ (n.adjustment_iteration ∷ [])) down
      → (receive_all c (js ++ (n.adjustment_iteration ∷ []))).latest_adj_iteration
        ≡ n.adjustment_iteration
  unfolding receive_all
  receive_all_agrees c n [] down a =
      let (which, small, after) = message_heard _ _ n [] down a in
      receive_iteration_hears c n.adjustment_iteration which small
  receive_all_agrees c n (j ∷ js) down a =
      let (which, small, after) =
        message_heard c.latest_adj_iteration j n (js ++ (n.adjustment_iteration ∷ [])) down a in
      receive_all_agrees (receive_iteration c j) n js down (
        subst (λ k. Agreement k n (js ++ (n.adjustment_iteration ∷ [])) down)
          (sym (receive_iteration_hears c j which small)) after)

  -- From every reachable state, once the messages on their way and one more of the client are
  -- received, both sides are in the same iteration.
  pub iterations_meet :
      {s : System H P}
      → Reach buf s
      → (receive_all s.server (s.up ++ (s.client.adjustment_iteration ∷ []))).latest_adj_iteration
        ≡ s.client.adjustment_iteration
  iterations_meet {s} r =
      receive_all_agrees s.server s.client s.up s.down
        (message_sent _ s.client s.up s.down (Reach-IsAgreed r))
