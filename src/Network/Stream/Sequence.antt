-- ===== src/Network/Stream/Sequence.antt =====
-- All messages of a client: `serializeAndSend` of the client's Network.h against one call after the
-- other of `receiveMessage` of Source/ServerLib/Network/Private/Client.cpp.
use amalgam_engine.Prelude.{
  ℕ, zero, suc, ◌+◌, ◌≡◌, refl, sym, ap, ◌∙◌, subst, inl, inr, true, false, none, some, List, [],
  ◌∷◌, ◌++◌, map, arith, length, ltb, Bool-cases, if◌then◌else◌,
}
use amalgam_engine.Prelude.Map.{Bytes}
use amalgam_engine.Network.{Message}
use amalgam_engine.Network.Peer.{Peer, Socket}
use amalgam_engine.Network.ServerClient.{Client, receive_iteration}
use amalgam_engine.Network.Batches.{append_assoc}
use amalgam_engine.Network.Reachable.{receive_all}
use amalgam_engine.Network.ClientSend.{client_header, client_frame, client_max_message_size}
use amalgam_engine.Network.Receiving.{Receiver, ReceiveResult, success, receive_message}
use amalgam_engine.Network.Stream.{Stream}
use amalgam_engine.Network.Stream.Next.{Behind, receive_message-Returns}

-- The bytes that a client sends for messages, each with the iteration that it is in.
unfoldable pub stream_of : List (ℕ × Message) → Bytes
unfolding client_frame
stream_of [] = []
stream_of ((i, m) ∷ ms) = elim (client_frame i m) [
  | none ↦ stream_of ms
  | some bytes ↦ bytes ++ stream_of ms
]

-- The messages among them that are not too large.
unfoldable pub accepted : List (ℕ × Message) → List (ℕ × Message)
accepted [] = []
accepted ((i, m) ∷ ms) =
    if ltb client_max_message_size (4 + length m.payload) then accepted ms else (i, m) ∷ accepted ms

abbrev pub result_of : ℕ × Message → ReceiveResult
result_of (i, m) = success m.message_type m.payload

abbrev pub iteration_of : ℕ × Message → ℕ
iteration_of (i, m) = i

stream_of-large :
    (i : ℕ) (m : Message) (ms : List (ℕ × Message))
    → ltb client_max_message_size (4 + length m.payload) ≡ true
    → (accepted ((i, m) ∷ ms) ≡ accepted ms) × (stream_of ((i, m) ∷ ms) ≡ stream_of ms)
unfolding stream_of accepted
stream_of-large i m ms large = (rw large refl, rw (stream_of, client_frame, large) refl)

stream_of-fits :
    (i : ℕ) (m : Message) (ms : List (ℕ × Message)) (more : Bytes)
    → ltb client_max_message_size (4 + length m.payload) ≡ false
    → (accepted ((i, m) ∷ ms) ≡ (i, m) ∷ accepted ms)
      × (stream_of ((i, m) ∷ ms) ++ more
          ≡ client_header i m ++ (m.payload ++ (stream_of ms ++ more)))
unfolding stream_of accepted
stream_of-fits i m ms more fits = (
  rw fits refl,
  ap (λ bs. bs ++ more) sent
      ∙ (append_assoc (client_header i m ++ m.payload) (stream_of ms) more
          ∙ append_assoc (client_header i m) m.payload (stream_of ms ++ more)),
)
  where
    sent : stream_of ((i, m) ∷ ms) ≡ (client_header i m ++ m.payload) ++ stream_of ms
    sent = rw (stream_of, client_frame, fits) refl

module _ {H S : Type 0} (os : Socket S) where
  -- Calls of `receiveMessage`, one after the other. It stands for no loop of the source, which calls
  -- once a round, if the socket is ready, and processes the message before the next round.
  unfoldable pub receive_messages : ℕ → Receiver H S → Receiver H S × List ReceiveResult
  receive_messages zero r = (r, [])
  receive_messages (suc n) r =
      let (after, first) = receive_message os r in
      let (last, others) = receive_messages n after in (last, first ∷ others)

  receive_messages-next :
      (n : ℕ) (r r' : Receiver H S) (first : ReceiveResult)
      → receive_message os r ≡ (r', first)
      → receive_messages (suc n) r ≡ ((receive_messages n r').0, first ∷ (receive_messages n r').1)
  unfolding receive_messages
  receive_messages-next n r r' first e = rw (receive_messages, e) refl

module _ {H S : Type 0} (os : Socket S) (stream : Stream os) where
  -- A list of messages is received, each in its turn.
  abbrev pub ReceivesAll : Client H (Peer S) → Bytes → List (ℕ × Message) → Receiver H S → Type 0
  ReceivesAll c more ms r =
      ((receive_messages os (length ms) r).1 ≡ map result_of ms)
      × Behind os stream (receive_all c (map iteration_of ms)) more
          (receive_messages os (length ms) r).0

  ReceivesAll-next :
      (c : Client H (Peer S)) (more : Bytes) (i : ℕ) (m : Message) (ms : List (ℕ × Message))
      (r r' : Receiver H S)
      → receive_message os r ≡ (r', success m.message_type m.payload)
      → ReceivesAll (receive_iteration c i) more ms r'
      → ReceivesAll c more ((i, m) ∷ ms) r
  unfolding receive_all
  ReceivesAll-next c more i m ms r r' e (results, behind) =
      let next = receive_messages-next os (length ms) r r' (success m.message_type m.payload) e in
      (
        ap (λ p. p.1) next ∙ ap (λ rs. success m.message_type m.payload ∷ rs) results,
        subst
            (λ p.
              Behind os stream (receive_all (receive_iteration c i) (map iteration_of ms)) more p.0)
            (sym next) behind,
      )

  -- The messages that a client sends, of any number and size, in any iterations: over a connection
  -- that delivers the bytes of the stream in their order, in whatever pieces, a server that is in the
  -- middle of no message receives, in as many calls of `receiveMessage` on the client, exactly those that are not too large, whole and in their order. Its
  -- client has heard their iterations, and the connection has the bytes behind them left.
  pub receive_messages-stream_of :
      (c : Client H (Peer S)) (r : Receiver H S) (ms : List (ℕ × Message)) (more : Bytes)
      → Behind os stream c (stream_of ms ++ more) r
      → ReceivesAll c more (accepted ms) r
  unfolding receive_messages stream_of accepted receive_all
  receive_messages-stream_of c r [] more b = (refl, b)
  receive_messages-stream_of c r ((i, m) ∷ ms) more b =
      elim (Bool-cases (ltb client_max_message_size (4 + length m.payload))) [
        | inl large ↦
            let (acc, bytes) = stream_of-large i m ms large in
            subst (λ ns. ReceivesAll c more ns r) (sym acc)
              (receive_messages-stream_of c r ms more
                (subst (λ bs. Behind os stream c (bs ++ more) r) bytes b))
        | inr fits ↦
            let (acc, bytes) = stream_of-fits i m ms more fits in
            let (r', e, behind) =
              receive_message-Returns os stream c r i m (stream_of ms ++ more)
                (subst (λ bs. Behind os stream c bs r) bytes b) (ground arith) in
            subst (λ ns. ReceivesAll c more ns r) (sym acc)
              (ReceivesAll-next c more i m (accepted ms) r r' e
                (receive_messages-stream_of (receive_iteration c i) r' ms more behind))
      ]
