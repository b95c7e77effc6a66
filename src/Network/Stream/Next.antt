-- ===== src/Network/Stream/Next.antt =====
-- The next message of a client, as `receiveMessage` of the server's Client.cpp receives it over a
-- connection that delivers what was sent.
use amalgam_engine.Prelude.{
  ℕ, ◌+◌, ◌-◌, ◌%◌, ◌^◌, ◌<◌, ◌≡◌, ◌≢◌, refl, sym, ap, ◌∙◌, subst, inl, inr, Bool, true, false,
  Option, some, [], ◌∷◌, ◌++◌, arith, length, ◌==◌, ==_iff, Bool-cases,
}
use amalgam_engine.Prelude.Map.{Bytes}
use amalgam_engine.Network.{Message}
use amalgam_engine.Network.Peer.{Peer, Socket, receive_bytes_wait}
use amalgam_engine.Network.ServerClient.{Client, receive_iteration}
use amalgam_engine.Network.Agreement.{true_not_false}
use amalgam_engine.Network.ClientSend.{client_header}
use amalgam_engine.Network.Receiving.{
  Receiver, ReceiveResult, success, with_peer, compose_message, start_message, receive_body,
  receive_new, receive_next, receive_message,
}
use amalgam_engine.Network.Stream.{Stream, Leaves, receive_bytes_wait-Leaves}

module _ {H P : Type 0} where
  receive_iteration-peer :
      (c : Client H P) (o : Option P) (i : ℕ)
      → receive_iteration (record c { peer = o }) i ≡ record (receive_iteration c i) { peer = o }
  unfolding receive_iteration
  receive_iteration-peer c o i = elim (Bool-cases (i == (c.latest_adj_iteration + 1) % 2 ^ 8)) [
    | inl next ↦ rw next refl
    | inr other ↦ rw other refl
  ]

length-client_header : (i : ℕ) (m : Message) → length (client_header i m) ≡ 4
unfolding client_header
length-client_header i m = refl

module _ {H S : Type 0} (os : Socket S) (stream : Stream os) where
  -- A server behind a whole message: it has the given client but for the peer, which is connected and
  -- has these bytes left, and it is in the middle of no message.
  pub record Behind (c : Client H (Peer S)) (more : Bytes) (r : Receiver H S) : Type 0 where
    pub peer : Peer S
    pub client_is : r.client ≡ record c { peer = some peer }
    pub is_up : peer.is_connected ≡ true
    pub left : stream.rest peer.socket ≡ more
    pub idle : r.large_receive_buffer ≡ true → r.composition_index ≡ r.message_size

  same_but_peer :
      (c d : Client H (Peer S)) (o o' : Option (Peer S))
      → c ≡ record d { peer = o }
      → ◌≡◌ {A = Client H (Peer S)} (record c { peer = o' }) (record d { peer = o' })
  same_but_peer c d o o' e = ap {B = Client H (Peer S)} (λ x. record x { peer = o' }) e

  Behind-same :
      (c d : Client H (Peer S)) (o : Option (Peer S)) (more : Bytes) (r : Receiver H S)
      → c ≡ record d { peer = o }
      → Behind c more r
      → Behind d more r
  Behind-same c d o more r e b = record {
    peer = b.peer;
    client_is = b.client_is ∙ same_but_peer c d o (some b.peer) e;
    is_up = b.is_up;
    left = b.left;
    idle = b.idle;
  }

  abbrev pub Returns : Client H (Peer S) → Bytes → ℕ → Bytes → Receiver H S × ReceiveResult → Type 0
  Returns c more type payload got =
      (r : Receiver H S) × (got ≡ (r, success type payload)) × Behind c more r

  compose_message-Returns :
      (r : Receiver H S) (payload more : Bytes) (got : Peer S × Option Bytes)
      → Leaves os stream payload more got
      → r.composition_index ≡ 0
      → r.message_size ≡ length payload
      → length payload < 2 ^ 16
      → Returns r.client more r.message_type payload (compose_message r true got)
  unfolding compose_message
  compose_message-Returns r payload more got (q, e, up, behind) start size small =
      let done : ((r.composition_index + length payload) % 2 ^ 16 == r.message_size) ≡ true =
        ground arith in
      (
        record (with_peer r q) {
          composition_index = (r.composition_index + length payload) % 2 ^ 16;
        },
        ap (compose_message r true) e ∙ rw done refl,
        record {
          peer = q;
          client_is = refl;
          is_up = up;
          left = behind;
          idle = λ large. (==_iff _ _).0 done;
        },
      )

  receive_body-Returns :
      (r : Receiver H S) (p : Peer S) (payload more : Bytes)
      → r.client.peer ≡ some p
      → p.is_connected ≡ true
      → stream.rest p.socket ≡ payload ++ more
      → r.message_size ≡ length payload
      → length payload < 2 ^ 16
      → (r.message_size ≢ 0 → r.composition_index ≡ 0)
      → (r.message_size ≡ 0 → r.large_receive_buffer ≡ false)
      → Returns r.client more r.message_type payload (receive_body os r p)
  unfolding receive_body
  receive_body-Returns r p [] more here up e size small index tag_small =
      let tag : (r.message_size == 0) ≡ true = ground arith in
      (
        r,
        rw tag refl,
        record {
          peer = p;
          client_is = ap (λ o. record r.client { peer = o }) here;
          is_up = up;
          left = e;
          idle = λ large. absurd (true_not_false (sym large ∙ tag_small size));
        },
      )
  receive_body-Returns r p (b ∷ payload) more here up e size small index tag_small =
      let full : (r.message_size == 0) ≡ false = ground arith in
      let start = index (omega arith) in
      let count : r.message_size - r.composition_index ≡ length (b ∷ payload) = omega arith in
      let got =
        subst (λ n. Leaves os stream (b ∷ payload) more (receive_bytes_wait os p n)) (sym count)
          (receive_bytes_wait-Leaves os stream p (b ∷ payload) more up e) in
      simp full (compose_message-Returns r (b ∷ payload) more _ got start size small)

  start_message_lem :
      (r : Receiver H S) (i : ℕ) (m : Message)
      → length m.payload < 2 ^ 16
      → ((start_message r (client_header i m)).client ≡ receive_iteration r.client i)
        × ((start_message r (client_header i m)).message_type ≡ m.message_type)
        × ((start_message r (client_header i m)).message_size ≡ length m.payload)
        × ((start_message r (client_header i m)).message_size ≢ 0
            → (start_message r (client_header i m)).composition_index ≡ 0)
        × ((start_message r (client_header i m)).message_size ≡ 0
            → (start_message r (client_header i m)).large_receive_buffer ≡ false)
  unfolding start_message client_header
  start_message_lem r i m small = (refl, refl, omega arith, λ ne. ground arith, λ z. ground arith)

  receive_new-Returns :
      (r : Receiver H S) (p : Peer S) (i : ℕ) (m : Message) (more : Bytes)
      → p.is_connected ≡ true
      → stream.rest p.socket ≡ client_header i m ++ (m.payload ++ more)
      → length m.payload < 2 ^ 16
      → Returns
          (receive_iteration r.client i)
          more
          m.message_type
          m.payload
          (receive_new os r (receive_bytes_wait os p 4))
  unfolding receive_new
  receive_new-Returns r p i m more up e small =
      let (q, got, still_up, behind) =
        receive_bytes_wait-Leaves os stream p (client_header i m) (m.payload ++ more) up e in
      let got_four : receive_bytes_wait os p 4 ≡ (q, some (client_header i m)) =
        subst (λ n. receive_bytes_wait os p n ≡ (q, some (client_header i m)))
          (length-client_header i m) got in
      let s = start_message (with_peer r q) (client_header i m) in
      let (client_e, type_e, size_e, index, tag) = start_message_lem (with_peer r q) i m small in
      let client_of = client_e ∙ receive_iteration-peer r.client (some q) i in
      let (r', e', b) =
        receive_body-Returns s q m.payload more (ap (λ c. c.peer) client_of) still_up behind size_e
          small index tag in
      (
        r',
        ap (receive_new os r) got_four ∙ (e' ∙ ap (λ type. (r', success type m.payload)) type_e),
        Behind-same s.client (receive_iteration r.client i) (some q) more r' client_of b,
      )

  next_message :
      (r : Receiver H S) (large : Bool)
      → (large ≡ true → r.composition_index ≡ r.message_size)
      → large ≡ r.large_receive_buffer
      → (p : Peer S) → r.client.peer ≡ some p
      → (s : Receiver H S) × (receive_message os r ≡ receive_new os s (receive_bytes_wait os p 4))
        × (s.client ≡ r.client)
  unfolding receive_message
  next_message r true done e p here =
      let all : (r.composition_index == r.message_size) ≡ true = (==_iff _ _).1 (done refl) in
      (
        record r { large_receive_buffer = false; pooled = r.pooled + 1 },
        rw (receive_message, here, sym e, all) refl,
        refl,
      )
  next_message r false done e p here =
      (r, rw (receive_message, receive_next, here, sym e) refl, refl)

  -- One call returns the next message that was sent.
  pub receive_message-Returns :
      (c : Client H (Peer S)) (r : Receiver H S) (i : ℕ) (m : Message) (more : Bytes)
      → Behind c (client_header i m ++ (m.payload ++ more)) r
      → length m.payload < 2 ^ 16
      → Returns (receive_iteration c i) more m.message_type m.payload (receive_message os r)
  receive_message-Returns c r i m more b small =
      let (s, e, same) =
        next_message r r.large_receive_buffer b.idle refl b.peer (ap (λ d. d.peer) b.client_is) in
      let (r', e', b') = receive_new-Returns s b.peer i m more b.is_up b.left small in
      let client_of =
        ap (λ d. receive_iteration d i) (same ∙ b.client_is)
        ∙ receive_iteration-peer c (some b.peer) i in
      (r', e ∙ e', Behind-same _ (receive_iteration c i) (some b.peer) more r' client_of b')
