-- ===== src/Network/Sending.antt =====
-- `sendWaitingMessages` of Source/ServerLib/Network/Private/Client.cpp, with `send` of
-- Source/SharedLib/Network/Private/Peer.cpp, against `processBatch` of the client's Network.cpp.
mod Tests
use mathlib.Core.List.{append-nil}
use amalgam_engine.Prelude.{
  ℕ, zero, suc, ◌+◌, ◌-◌, ◌≤◌, ◌<◌, ◌^◌, ◌≡◌, refl, sym, ap, subst, ◌∙◌, ◌⊎◌, inl, inr, Bool, true,
  false, ◌&&◌, none, some, List, [], ◌∷◌, ◌++◌, ◌==◌, arith, length, take, drop, take-append-drop,
  length-drop, map, ltb, Bool-cases, if◌then◌else◌,
}
use amalgam_engine.Prelude.Map.{Bytes}
use amalgam_engine.Network.{NetworkResult, success, disconnected, Message, ethernet_mtu}
use amalgam_engine.Network.Peer.{Peer, Socket, send}
use amalgam_engine.Network.ServerClient.{CircularBuffer, Client, QueuedMessage, get_tick_adjustment}
use amalgam_engine.Network.ServerBatch.{
  Codec, max_batch_size, build_batch, wire_bytes, send_loop, send_waiting_messages,
}
use amalgam_engine.Network.Batches.{Batch, frames, process_batch, append_assoc}
use amalgam_engine.Network.Confirmation.{
  queued, batch_messages, sent_client, build_batch_fits, batch_received,
}

-- What TCP gives on this side: the bytes that a send reports as sent are behind those sent before.
pub record Outgoing {S : Type 0} (os : Socket S) : Type 0 where
  pub sent : S → Bytes
  pub send_appends :
      (s : S) (bytes : Bytes) → sent (os.send s bytes).1 ≡ sent s ++ take (os.send s bytes).0 bytes

take_all : {A : Type 0} (n : ℕ) (xs : List A) → length xs ≤ n → take n xs ≡ xs
take_all zero [] le = refl
take_all zero (x ∷ xs) le = absurd (omega arith)
take_all (suc n) [] le = refl
take_all (suc n) (x ∷ xs) le = ap (λ ys. x ∷ ys) (take_all n xs (omega arith))

module _ {S : Type 0} (os : Socket S) (out : Outgoing os) where
  -- Either all bytes are sent behind those before, or the connection is lost.
  abbrev pub Sends : Bytes → Bytes → Peer S × NetworkResult → Type 0
  Sends before bytes (q, result) =
      ((result ≡ success) × (q.is_connected ≡ true) × (out.sent q.socket ≡ before ++ bytes))
      ⊎ ((result ≡ disconnected) × (q.is_connected ≡ false))

  send-Sends :
      (p : Peer S) (bytes : Bytes)
      → p.is_connected ≡ true
      → Sends (out.sent p.socket) bytes (send os p bytes)
  unfolding send
  send-Sends p bytes up = elim (Bool-cases (ltb (os.send p.socket bytes).0 (length bytes))) [
    | inl less ↦ rw (up, less) (inr (refl, refl))
    | inr all ↦
        let behind =
          out.send_appends p.socket bytes
          ∙ ap (λ b. out.sent p.socket ++ b) (take_all _ bytes (ground arith)) in
        rw (up, all) (inl (refl, refl, behind))
  ]

  module _ (fuel : ℕ) (p : Peer S) (b : ℕ) (bytes : Bytes) where
    abbrev sends_chunk : Peer S × NetworkResult
    sends_chunk = send os p (take ethernet_mtu (b ∷ bytes))

    send_loop_lost :
        sends_chunk.1 ≡ disconnected
        → send_loop os (suc fuel) p (b ∷ bytes) success ≡ (sends_chunk.0, disconnected)
    unfolding send_loop
    send_loop_lost lost = rw (send_loop, lost) refl

    send_loop_sent :
        sends_chunk.1 ≡ success
        → send_loop os (suc fuel) p (b ∷ bytes) success
          ≡ send_loop os fuel sends_chunk.0 (drop ethernet_mtu (b ∷ bytes)) success
    unfolding send_loop
    send_loop_sent well =
        rw (send_loop, well)
          (ap (send_loop os fuel sends_chunk.0 (drop ethernet_mtu (b ∷ bytes))) well)

  send_loop-Sends :
      (fuel : ℕ) (p : Peer S) (bytes : Bytes)
      → length bytes ≤ fuel
      → p.is_connected ≡ true
      → Sends (out.sent p.socket) bytes (send_loop os fuel p bytes success)
  unfolding send_loop
  send_loop-Sends zero p [] le up = inl (refl, up, sym (append-nil _))
  send_loop-Sends zero p (b ∷ bytes) le up = absurd (omega arith)
  send_loop-Sends (suc fuel) p [] le up = inl (refl, up, sym (append-nil _))
  send_loop-Sends (suc fuel) p (b ∷ bytes) le up =
      let chunk = take ethernet_mtu (b ∷ bytes) in
      let later = drop ethernet_mtu (b ∷ bytes) in
      let fewer : length later ≤ fuel = omega (arith, length-drop ethernet_mtu (b ∷ bytes)) in
      elim (send-Sends p chunk up) [
        | inr (lost, down) ↦ rw (send_loop_lost fuel p b bytes lost) (inr (refl, down))
        | inl (well, up', behind) ↦
            let rest = send_loop-Sends fuel (send os p chunk).0 later fewer up' in
            rw (send_loop_sent fuel p b bytes well) (elim rest [
              | inl (fine, still_up, tail) ↦ inl (
                fine,
                still_up,
                tail
                    ∙ ap (λ bs. bs ++ later) behind
                    ∙ append_assoc (out.sent p.socket) chunk later
                    ∙ ap (λ bs. out.sent p.socket ++ bs)
                        (take-append-drop ethernet_mtu (b ∷ bytes)),
              )
              | inr down ↦ inr down
            ])
      ]

module _ {H S : Type 0} (buf : CircularBuffer H) (codec : Codec) (os : Socket S)
    (out : Outgoing os) where
  -- Behind the bytes sent before are those that the client reads as the batch; or the connection is
  -- lost.
  abbrev pub Delivers : Bytes → Bytes → Batch → Client H (Peer S) × NetworkResult → Type 0
  Delivers before stale batch after =
      (q : Peer S) × (after.0.peer ≡ some q)
      × (((after.1 ≡ success)
            × (q.is_connected ≡ true)
            × ((bytes : Bytes) × (out.sent q.socket ≡ before ++ bytes)
                × (process_batch codec bytes stale ≡ some batch)))
          ⊎ ((after.1 ≡ disconnected) × (q.is_connected ≡ false)))

  send_waiting_messages_sends :
      (c d : Client H (Peer S)) (p : Peer S) (batch : Bytes) (count tick : ℕ)
      → c.peer ≡ some p
      → (c.latest_sent_sim_tick == 0 && count == 0) ≡ false
      → build_batch codec c count tick ≡ some (d, batch)
      → send_waiting_messages buf codec os c count tick
        ≡ some (
            let bytes = wire_bytes buf codec d batch in
            let (q, result) = send_loop os (length bytes) p bytes success in
            (record d { peer = some q }, result))
  unfolding send_waiting_messages
  send_waiting_messages_sends c d p batch count tick is_set begun built =
      simp (send_waiting_messages, is_set, begun, built)

  -- A server that has something to send to a connected client either finds the connection lost, and
  -- says so, or has put bytes behind those sent before, from which the client reads the adjustment and
  -- the iteration that the server calculated and the waiting messages in their order, followed by the
  -- confirmation that the server added; if the header and the batch have no more than MAX_BATCH_SIZE
  -- bytes, and the compressed batch no more than that either.
  pub send_waiting_messages-Delivers :
      (c : Client H (Peer S)) (p : Peer S) (ms : List (Message × ℕ)) (rest : List QueuedMessage)
      (tick : ℕ) (stale : Bytes)
      → c.peer ≡ some p
      → p.is_connected ≡ true
      → (c.latest_sent_sim_tick == 0 && length ms == 0) ≡ false
      → c.send_queue ≡ map queued ms ++ rest
      → 4 + length (frames (batch_messages codec c ms rest tick)) ≤ max_batch_size
      → length (codec.compress (frames (batch_messages codec c ms rest tick))) ≤ max_batch_size
      → (after : Client H (Peer S) × NetworkResult) × (send_waiting_messages buf codec os c
            (length ms)
            tick
          ≡ some after)
        × Delivers
            (out.sent p.socket)
            stale
            record {
              adjustment = (get_tick_adjustment buf c).0;
              iteration = (get_tick_adjustment buf c).1;
              messages = batch_messages codec c ms rest tick;
            }
            after
  send_waiting_messages-Delivers c p ms rest tick stale is_set up begun e fits small =
      let d = sent_client codec c ms rest tick in
      let bytes = wire_bytes buf codec d (frames (batch_messages codec c ms rest tick)) in
      let r = send_loop os (length bytes) p bytes success in
      let received = batch_received buf codec c ms rest tick stale fits small in
      (
        (record d { peer = some r.0 }, r.1),
        send_waiting_messages_sends c d p _ (length ms) tick is_set begun
            (build_batch_fits codec c ms rest tick e fits),
        elim (send_loop-Sends os out (length bytes) p bytes (omega arith) up) [
          | inl (fine, still_up, behind) ↦
              (r.0, refl, inl (fine, still_up, (bytes, behind, received)))
          | inr (lost, down) ↦ (r.0, refl, inr (lost, down))
        ],
      )
