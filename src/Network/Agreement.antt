-- ===== src/Network/Agreement.antt =====
-- What the two sides of the tick adjustment know of each other in every reachable state: Client.cpp
-- of the server and Network.cpp of the client.
use amalgam_engine.Prelude.{
  ℕ, ◌+◌, ◌%◌, ◌^◌, ◌<◌, ◌≡◌, ◌≢◌, ◌⊎◌, inl, inr, refl, sym, ◌∙◌, ap, subst, true, false, some,
  List, [], ◌∷◌, ◌++◌, arith,
}
use amalgam_engine.Prelude.Int.{ℤ}
use amalgam_engine.Network.ClientNetwork.{Network, adjust_if_needed, transfer_tick_adjustment}
use amalgam_engine.Network.Protocol.{
  Header, Every, Turn, turned, Every-append, Turn-append, Turn-first, Every-Turn,
}

abbrev pub next : ℕ → ℕ
next i = (i + 1) % 2 ^ 8

-- What each function does to the iterations.
adjust_keeps_iteration :
    (n m : Network) (a : ℤ) (i : ℕ)
    → adjust_if_needed n a i ≡ some m
    → m.adjustment_iteration ≡ n.adjustment_iteration
unfolding adjust_if_needed
adjust_keeps_iteration n m a i e = grind arith

adjust_ignores :
    (n m : Network) (a : ℤ) (i : ℕ)
    → adjust_if_needed n a i ≡ some m
    → (i ≢ n.adjustment_iteration) ⊎ (n.is_applying_tick_adjustment ≡ true)
    → m ≡ n
unfolding adjust_if_needed
adjust_ignores n m a i e other = grind arith

transfer_cases :
    (n : Network)
    → (((transfer_tick_adjustment n).0.adjustment_iteration ≡ n.adjustment_iteration)
        × ((transfer_tick_adjustment n).0.is_applying_tick_adjustment
            ≡ n.is_applying_tick_adjustment))
      ⊎ ((n.is_applying_tick_adjustment ≡ true)
          × ((transfer_tick_adjustment n).0.adjustment_iteration ≡ next n.adjustment_iteration)
          × ((transfer_tick_adjustment n).0.is_applying_tick_adjustment ≡ false))
unfolding transfer_tick_adjustment
transfer_cases n = ground arith

pub true_not_false : true ≢ false
true_not_false e = cc

-- The server's iteration `i` is the client's; headers of the one before may be on their way.
pub record Together (i : ℕ) (n : Network) (up : List ℕ) (down : List Header) : Type 0 where
  pub before : ℕ
  pub small : i < 2 ^ 8
  pub before_small : before < 2 ^ 8
  pub step : i ≡ next before
  pub same : n.adjustment_iteration ≡ i
  pub up_same : Every (λ j. j) i up
  pub down_turn : Turn (λ h. h.iteration) before i down
  pub heard : n.is_applying_tick_adjustment ≡ true → Every (λ h. h.iteration) i down

-- The client has ended the server's iteration `i`, and the server has not heard of it.
pub record Ahead (i : ℕ) (n : Network) (up : List ℕ) (down : List Header) : Type 0 where
  pub small : i < 2 ^ 8
  pub step : n.adjustment_iteration ≡ next i
  pub waiting : n.is_applying_tick_adjustment ≡ false
  pub up_turn : Turn (λ j. j) i n.adjustment_iteration up
  pub down_same : Every (λ h. h.iteration) i down

abbrev pub Agreement : ℕ → Network → List ℕ → List Header → Type 0
Agreement i n up down = Together i n up down ⊎ Ahead i n up down

pub batch_sent :
    (i : ℕ) (n : Network) (up : List ℕ) (down : List Header) (h : Header)
    → h.iteration ≡ i
    → Agreement i n up down
    → Agreement i n up (down ++ (h ∷ []))
batch_sent i n up down h e (inl t) = inl (record {
  before = t.before;
  small = t.small;
  before_small = t.before_small;
  step = t.step;
  same = t.same;
  up_same = t.up_same;
  down_turn = Turn-append (λ h. h.iteration) t.before i down h t.down_turn e;
  heard = λ a. Every-append (λ h. h.iteration) i down h (t.heard a) e;
})
batch_sent i n up down h e (inr a) = inr (record {
  small = a.small;
  step = a.step;
  waiting = a.waiting;
  up_turn = a.up_turn;
  down_same = Every-append (λ h. h.iteration) i down h a.down_same e;
})

next_ne : (i : ℕ) → i < 2 ^ 8 → i ≢ next i
next_ne i small e = absurd (omega arith)

pub Ahead-ignores :
    (i : ℕ) (n m : Network) (up : List ℕ) (down : List Header) (h : Header)
    → Ahead i n up (h ∷ down)
    → adjust_if_needed n h.adjustment h.iteration ≡ some m
    → m ≡ n
Ahead-ignores i n m up down h a e =
    adjust_ignores n m h.adjustment h.iteration e
      (inl (λ f. next_ne i a.small (sym a.down_same.0 ∙ f ∙ a.step)))

pub batch_delivered :
    (i : ℕ) (n m : Network) (up : List ℕ) (down : List Header) (h : Header)
    → adjust_if_needed n h.adjustment h.iteration ≡ some m
    → Agreement i n up (h ∷ down)
    → Agreement i m up down
batch_delivered i n m up down h e (inl t) = elim (Turn-first (λ h. h.iteration) t.down_turn) [
  | inl (was, rest) ↦
      let same_client =
        adjust_ignores n m h.adjustment h.iteration e
          (inl (λ f. next_ne t.before t.before_small (sym was ∙ f ∙ t.same ∙ t.step))) in
      inl (record {
        before = t.before;
        small = t.small;
        before_small = t.before_small;
        step = t.step;
        same = ap (λ c. c.adjustment_iteration) same_client ∙ t.same;
        up_same = t.up_same;
        down_turn = rest;
        heard = λ a. (t.heard (sym (ap (λ c. c.is_applying_tick_adjustment) same_client) ∙ a)).1;
      })
  | inr (now, rest) ↦ inl (record {
    before = t.before;
    small = t.small;
    before_small = t.before_small;
    step = t.step;
    same = adjust_keeps_iteration n m h.adjustment h.iteration e ∙ t.same;
    up_same = t.up_same;
    down_turn = turned rest;
    heard = λ _. rest;
  })
]
batch_delivered i n m up down h e (inr a) =
    let same_client = Ahead-ignores i n m up down h a e in
    subst (λ c. Agreement i c up down) (sym same_client)
      (inr (record {
        small = a.small;
        step = a.step;
        waiting = a.waiting;
        up_turn = a.up_turn;
        down_same = a.down_same.1;
      }))

pub client_ticked :
    (i : ℕ) (n : Network) (up : List ℕ) (down : List Header)
    → Agreement i n up down
    → Agreement i (transfer_tick_adjustment n).0 up down
client_ticked i n up down (inl t) = elim (transfer_cases n) [
  | inl (it, applying) ↦ inl (record {
    before = t.before;
    small = t.small;
    before_small = t.before_small;
    step = t.step;
    same = it ∙ t.same;
    up_same = t.up_same;
    down_turn = t.down_turn;
    heard = λ a. t.heard (sym applying ∙ a);
  })
  | inr (was, it, off) ↦ inr (record {
    small = t.small;
    step = it ∙ ap next t.same;
    waiting = off;
    up_turn = Every-Turn (λ j. j) i _ up t.up_same;
    down_same = t.heard was;
  })
]
client_ticked i n up down (inr a) = elim (transfer_cases n) [
  | inl (it, applying) ↦ inr (record {
    small = a.small;
    step = it ∙ a.step;
    waiting = applying ∙ a.waiting;
    up_turn = subst (λ j. Turn (λ j. j) i j up) (sym it) a.up_turn;
    down_same = a.down_same;
  })
  | inr (was, it, off) ↦ absurd (true_not_false (sym was ∙ a.waiting))
]

pub message_sent :
    (i : ℕ) (n : Network) (up : List ℕ) (down : List Header)
    → Agreement i n up down
    → Agreement i n (up ++ (n.adjustment_iteration ∷ [])) down
message_sent i n up down (inl t) = inl (record {
  before = t.before;
  small = t.small;
  before_small = t.before_small;
  step = t.step;
  same = t.same;
  up_same = Every-append (λ j. j) i up n.adjustment_iteration t.up_same t.same;
  down_turn = t.down_turn;
  heard = t.heard;
})
message_sent i n up down (inr a) = inr (record {
  small = a.small;
  step = a.step;
  waiting = a.waiting;
  up_turn = Turn-append (λ j. j) i n.adjustment_iteration up n.adjustment_iteration a.up_turn refl;
  down_same = a.down_same;
})

-- A message brings the server to the iteration that it names.
pub message_heard :
    (i j : ℕ) (n : Network) (up : List ℕ) (down : List Header)
    → Agreement i n (j ∷ up) down
    → ((j ≡ i) ⊎ (j ≡ next i)) × (i < 2 ^ 8) × Agreement j n up down
message_heard i j n up down (inl t) = (
  inl t.up_same.0,
  t.small,
  subst (λ k. Agreement k n up down) (sym t.up_same.0)
      (inl (record {
        before = t.before;
        small = t.small;
        before_small = t.before_small;
        step = t.step;
        same = t.same;
        up_same = t.up_same.1;
        down_turn = t.down_turn;
        heard = t.heard;
      })),
)
message_heard i j n up down (inr a) = elim (Turn-first (λ j. j) a.up_turn) [
  | inl (old, rest) ↦ (
    inl old,
    a.small,
    subst (λ k. Agreement k n up down) (sym old)
        (inr (record {
          small = a.small;
          step = a.step;
          waiting = a.waiting;
          up_turn = rest;
          down_same = a.down_same;
        })),
  )
  | inr (new, rest) ↦ (
    inr (new ∙ a.step),
    a.small,
    subst (λ k. Agreement k n up down) (sym new)
        (inl (record {
          before = i;
          small = omega (a.step, arith);
          before_small = a.small;
          step = a.step;
          same = refl;
          up_same = rest;
          down_turn = Every-Turn (λ h. h.iteration) i _ down a.down_same;
          heard = λ on. absurd (true_not_false (sym on ∙ a.waiting));
        })),
  )
]
