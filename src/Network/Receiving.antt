-- ===== src/Network/Receiving.antt =====
-- `receiveMessage` of Source/ServerLib/Network/Private/Client.cpp, with the pool of large buffers of
-- Source/SharedLib/Network/Public/BufferPool.h.
use amalgam_engine.Prelude.{
  ℕ, ◌+◌, ◌-◌, ◌%◌, ◌^◌, ◌<◌, ◌*◌, ◌⊎◌, ◌≡◌, ◌≢◌, refl, sym, ap, ◌∙◌, inl, inr, Bool, true, false,
  ◌&&◌, not, Option, none, some, [], ◌∷◌, arith, length, get_or, drop, leb, ◌==◌, ==_iff,
  if◌then◌else◌, Bool-cases, Option-cases,
}
use amalgam_engine.Prelude.Map.{Bytes}
use amalgam_engine.Network.{read16}
use amalgam_engine.Network.Peer.{
  Peer, Socket, receive_bytes_wait, Received, receive_bytes_wait-Received,
}
use amalgam_engine.Network.ServerClient.{Client, receive_iteration}
use amalgam_engine.Network.Agreement.{true_not_false}

-- ETHERNET_MTU less the two headers
abbrev pub client_max_small_message_size : ℕ
client_max_small_message_size = 1456

-- A client with the members of a message that is being received: whether it has a large buffer, and
-- the number of buffers in the pool.
pub record Receiver (H S : Type 0) : Type 0 where
  pub client : Client H (Peer S)
  pub large_receive_buffer : Bool
  pub message_type : ℕ
  pub message_size : ℕ
  pub composition_index : ℕ
  pub pooled : ℕ

-- `writes_null` is no result of the source: the bytes are written behind a null pointer.
pub data ReceiveResult : Type 0 where
  disconnected message_not_complete writes_null : ReceiveResult
  success : ℕ → Bytes → ReceiveResult

module _ {H S : Type 0} where
  abbrev pub with_peer : Receiver H S → Peer S → Receiver H S
  with_peer r p = record r { client = record r.client { peer = some p } }

  -- The part behind the wait for the message's bytes, in the buffer or behind the null pointer.
  unfoldable pub compose_message :
      Receiver H S → Bool → Peer S × Option Bytes → Receiver H S × ReceiveResult
  compose_message r has_buffer (q, none) = (with_peer r q, disconnected)
  compose_message r has_buffer (q, some bytes) =
      let s = record (with_peer r q) {
        composition_index = (r.composition_index + length bytes) % 2 ^ 16;
      } in
      if has_buffer
      then if s.composition_index == s.message_size
        then (s, success s.message_type bytes)
        else (s, message_not_complete)
      else (s, writes_null)

  -- The part that starts a new message, from the bytes of both headers. A size is a `Uint16`.
  unfoldable pub start_message : Receiver H S → Bytes → Receiver H S
  unfolding receive_iteration read16
  start_message r headers =
      let size = read16 (drop 2 headers) % 2 ^ 16 in
      record r {
        client = receive_iteration r.client (get_or headers 0 0);
        message_type = get_or headers 1 0;
        message_size = size;
        composition_index = if size == 0 then r.composition_index else 0;
        large_receive_buffer = not (leb size client_max_small_message_size);
        pooled = if leb size client_max_small_message_size then r.pooled else r.pooled - 1;
      }

header_size :
    (headers : Bytes) → read16 (drop 2 headers) ≡ get_or headers 2 0 + 2 ^ 8 * get_or headers 3 0
unfolding read16
header_size [] = refl
header_size (a ∷ []) = refl
header_size (a ∷ b ∷ rest) = refl

some_injective : {A : Type 0} (p q : A) → some p ≡ some q → p ≡ q
some_injective p q e = cc

module _ {S : Type 0} (os : Socket S) where
  waits_lost : (p : Peer S) (n : ℕ) → p.is_connected ≡ false → receive_bytes_wait os p n ≡ (p, none)
  unfolding receive_bytes_wait
  waits_lost p n down = simp down refl

module _ {H S : Type 0} (os : Socket S) where
  -- The part behind the headers of a new message, whose buffer is acquired.
  unfoldable pub receive_body : Receiver H S → Peer S → Receiver H S × ReceiveResult
  unfolding compose_message
  receive_body r p =
      if r.message_size == 0
      then (r, success r.message_type [])
      else compose_message r true (receive_bytes_wait os p (r.message_size - r.composition_index))

  -- The part behind the wait for the headers of a new message.
  unfoldable pub receive_new : Receiver H S → Peer S × Option Bytes → Receiver H S × ReceiveResult
  unfolding start_message receive_body
  receive_new r (q, none) = (with_peer r q, disconnected)
  receive_new r (q, some headers) = receive_body (start_message (with_peer r q) headers) q

  -- The part behind the release of a large buffer that was handed out before.
  unfoldable pub receive_next : Receiver H S → Peer S → Receiver H S × ReceiveResult
  unfolding compose_message receive_new
  receive_next r p =
      if r.large_receive_buffer
      then compose_message r false (receive_bytes_wait os p (r.message_size - r.composition_index))
      else receive_new r (receive_bytes_wait os p 4)

  -- `receiveMessage`
  unfoldable pub receive_message : Receiver H S → Receiver H S × ReceiveResult
  unfolding receive_next
  receive_message r = elim r.client.peer [
    | none ↦ (r, disconnected)
    | some p ↦
        if r.large_receive_buffer && r.composition_index == r.message_size
        then receive_next (record r { large_receive_buffer = false; pooled = r.pooled + 1 }) p
        else receive_next r p
  ]

  -- A large message that is not complete is one whose connection is lost.
  abbrev pub IsReady : Receiver H S → Type 0
  IsReady r =
      (p : Peer S)
      → r.client.peer ≡ some p
      → r.large_receive_buffer ≡ true
      → r.composition_index ≢ r.message_size
      → p.is_connected ≡ false

  -- A ready state is left behind, with nothing or with a whole message of this type and size.
  abbrev Whole : ℕ → ℕ → Receiver H S × ReceiveResult → Type 0
  Whole t n (r, disconnected) = IsReady r
  Whole t n (r, success type bytes) = IsReady r × (type ≡ t) × (length bytes ≡ n)
  Whole t n _ = ⊥

  -- What a call from this peer is to do: it leaves a ready state behind, with nothing or with a message.
  -- The message's type is byte 1 of the first four bytes received, its size is in bytes 2 and 3, the
  -- high one last.
  abbrev pub GoesWell : Peer S → Receiver H S × ReceiveResult → Type 0
  GoesWell p (r, disconnected) = IsReady r
  GoesWell p (r, success type bytes) =
      IsReady r
      × ((q : Peer S) × (headers : Bytes) × (receive_bytes_wait os p 4 ≡ (q, some headers))
          × (type ≡ get_or headers 1 0)
          × (length bytes ≡ (get_or headers 2 0 + 2 ^ 8 * get_or headers 3 0) % 2 ^ 16))
  GoesWell p _ = ⊥

  lost : (r : Receiver H S) (q : Peer S) → q.is_connected ≡ false → IsReady (with_peer r q)
  lost r q down p e large ne = ap (λ x. x.is_connected) (sym (some_injective q p e)) ∙ down

  compose_message-Whole :
      (r : Receiver H S) (got : Peer S × Option Bytes)
      → Received os (r.message_size - r.composition_index) got
      → r.composition_index ≡ 0
      → r.message_size < 2 ^ 16
      → Whole r.message_type r.message_size (compose_message r true got)
  unfolding compose_message
  compose_message-Whole r (q, none) down zero_index small = lost r q down
  compose_message-Whole r (q, some bytes) received zero_index small =
      let whole : length bytes ≡ r.message_size = omega (received.1, arith) in
      let all : (r.composition_index + length bytes) % 2 ^ 16 ≡ r.message_size = omega arith in
      let done : ((r.composition_index + length bytes) % 2 ^ 16 == r.message_size) ≡ true =
        (==_iff _ _).1 all in
      rw done ((λ p e large ne. absurd (ne all)), refl, whole)

  start_message_lem :
      (r : Receiver H S) (headers : Bytes)
      → ((start_message r headers).message_size < 2 ^ 16)
        × ((start_message r headers).message_size ≢ 0
            → (start_message r headers).composition_index ≡ 0)
        × ((start_message r headers).message_size ≡ 0
            → (start_message r headers).large_receive_buffer ≡ false)
  unfolding start_message
  start_message_lem r headers = (omega arith, λ ne. ground arith, λ e. ground arith)

  receive_body-Whole :
      (r : Receiver H S) (p : Peer S)
      → r.message_size < 2 ^ 16
      → (r.message_size ≢ 0 → r.composition_index ≡ 0)
      → (r.message_size ≡ 0 → r.large_receive_buffer ≡ false)
      → Whole r.message_type r.message_size (receive_body r p)
  unfolding receive_body
  receive_body-Whole r p fits index tag_small = elim (Bool-cases (r.message_size == 0)) [
    | inl tag ↦
        let size = (==_iff _ _).0 tag in
        simp tag
          ((λ p e large ne. absurd (true_not_false (sym large ∙ tag_small size))), refl, sym size)
    | inr more ↦
        simp more (
          compose_message-Whole r _ (receive_bytes_wait-Received os p _) (index (ground arith))
            fits)
  ]

  Whole-GoesWell :
      (p q : Peer S) (headers : Bytes) (x : Receiver H S × ReceiveResult)
      → receive_bytes_wait os p 4 ≡ (q, some headers)
      → Whole (get_or headers 1 0) (read16 (drop 2 headers) % 2 ^ 16) x
      → GoesWell p x
  Whole-GoesWell p q headers (r, disconnected) e ready = ready
  Whole-GoesWell p q headers (r, success type bytes) e (ready, t, n) =
      (ready, (q, headers, e, t, n ∙ ap (λ m. m % 2 ^ 16) (header_size headers)))
  Whole-GoesWell p q headers (r, message_not_complete) e never = never
  Whole-GoesWell p q headers (r, writes_null) e never = never

  receive_new-GoesWell :
      (r : Receiver H S) (p : Peer S) (got : Peer S × Option Bytes)
      → receive_bytes_wait os p 4 ≡ got
      → Received os 4 got
      → GoesWell p (receive_new r got)
  unfolding receive_new
  receive_new-GoesWell r p (q, none) e down = lost r q down
  receive_new-GoesWell r p (q, some headers) e received =
      let (fits, index, tag_small) = start_message_lem (with_peer r q) headers in
      Whole-GoesWell p q headers (receive_body (start_message (with_peer r q) headers) q) e (
        unfold start_message in
        receive_body-Whole (start_message (with_peer r q) headers) q fits index tag_small)

  next_from :
      (r : Receiver H S) (p : Peer S) (large : Bool)
      → (large ≡ true → p.is_connected ≡ false)
      → GoesWell p (
          if large
          then compose_message r false
              (receive_bytes_wait os p (r.message_size - r.composition_index))
          else receive_new r (receive_bytes_wait os p 4))
  unfolding compose_message
  next_from r p true down =
      rw (waits_lost os p (r.message_size - r.composition_index) (down refl)) (lost r p (down refl))
  next_from r p false down = receive_new-GoesWell r p _ refl (receive_bytes_wait-Received os p 4)

  receive_next-GoesWell :
      (r : Receiver H S) (p : Peer S)
      → (r.large_receive_buffer ≡ true → p.is_connected ≡ false)
      → GoesWell p (receive_next r p)
  unfolding receive_next
  receive_next-GoesWell r p down = next_from r p r.large_receive_buffer down

  -- A call on a ready state without a peer changes nothing and reports the end of the connection. With
  -- a peer it leaves a ready state, and either reports the end of the connection or returns a whole
  -- message: of the type in byte 1 of the first four bytes that it received, and with as many bytes as
  -- bytes 2 and 3 say. No message is ever left incomplete, and no byte is written behind the null
  -- pointer.
  pub receive_message-GoesWell :
      (r : Receiver H S)
      → IsReady r
      → ((r.client.peer ≡ none) × (receive_message r ≡ (r, disconnected)))
        ⊎ ((p : Peer S) × (r.client.peer ≡ some p) × GoesWell p (receive_message r))
  unfolding receive_message
  receive_message-GoesWell r ready = elim (Option-cases r.client.peer) [
    | inl gone ↦ inl (gone, simp (receive_message, gone))
    | inr (p, here) ↦ inr (p, here, call p here)
  ]
    where
      both :
          r.large_receive_buffer ≡ true
          → r.composition_index ≡ r.message_size
          → (r.large_receive_buffer && r.composition_index == r.message_size) ≡ true
      both large e = ground arith

      call : (p : Peer S) → r.client.peer ≡ some p → GoesWell p (receive_message r)
      call p here =
          elim (Bool-cases (r.large_receive_buffer && r.composition_index == r.message_size)) [
            | inl handed_out ↦
                rw (receive_message, here, handed_out)
                  (receive_next-GoesWell
                    (record r { large_receive_buffer = false; pooled = r.pooled + 1 }) p
                    (λ e. absurd (true_not_false (sym e))))
            | inr other ↦
                rw (receive_message, here, other)
                  (receive_next-GoesWell r p (λ large.
                    ready p here large (λ e. true_not_false (sym (both large e) ∙ other))))
          ]
