-- ===== src/Network/Ticks.antt =====
-- How the client follows the server's ticks: `sendWaitingMessages` of the server's Client.cpp against
-- the handlers of the client's MessageProcessor.cpp.
use amalgam_engine.Prelude.{
  ℕ, some, ◌+◌, ◌-◌, ◌%◌, ◌^◌, ◌≤◌, ◌<◌, ◌≡◌, ◌≢◌, ◌⊎◌, refl, ◌∙◌, not, ◌&&◌, List, [], ◌∷◌, ◌++◌,
  map, length, ltb, ◌==◌, if◌then◌else◌, arith, inl, inr, Bool-cases,
}
use amalgam_engine.Prelude.Map.{Bytes}
use amalgam_engine.Network.{Message}
use amalgam_engine.Network.ServerClient.{CircularBuffer, Client, QueuedMessage}
use amalgam_engine.Network.ServerBatch.{
  Codec, max_batch_size, build_batch, wire_bytes, explicit_confirmation, confirmed_tick_count,
  tick_before,
}
use amalgam_engine.Network.Batches.{Batch, frames, process_batch}
use amalgam_engine.Network.MessageProcessor.{
  process_received_message, process_all, connection_response, movement_update, component_update,
}
use amalgam_engine.Network.Confirmation.{
  messages_of, queued, latest_tick, confirmation, batch_messages, sent_client, build_batch_fits,
  batch_received,
}

-- Every tick that a message is queued for is one that the message carries, and no earlier than the
-- ones before it; no other message carries a tick.
module _ (tick_num : Message → ℕ) where
  abbrev pub IsTicked : Message × ℕ → Type 0
  IsTicked (m, t) =
      ((0 < t)
        × (t ≡ tick_num m)
        × ((m.message_type ≡ connection_response)
            ⊎ ((m.message_type ≡ movement_update) ⊎ (m.message_type ≡ component_update))))
      ⊎ ((t ≡ 0)
          × (m.message_type ≢ explicit_confirmation)
          × (m.message_type ≢ connection_response)
          × (m.message_type ≢ movement_update)
          × (m.message_type ≢ component_update))

  abbrev pub InOrder : ℕ → List (Message × ℕ) → Type 0
  InOrder latest [] = Unit
  InOrder latest (p ∷ ps) =
      IsTicked p × ((p.1 ≡ 0) ⊎ (latest ≤ p.1)) × InOrder (if p.1 == 0 then latest else p.1) ps

  module _ (codec : Codec) where
    process_ticked :
        (latest : ℕ) (p : Message × ℕ)
        → IsTicked p
        → (p.1 ≡ 0) ⊎ (latest ≤ p.1)
        → process_received_message codec tick_num latest p.0 ≡ (if p.1 == 0 then latest else p.1)
    unfolding process_received_message
    process_ticked latest p ticked later = ground arith

    process_all_lem :
        (latest : ℕ) (ms : List (Message × ℕ)) (more : List Message)
        → InOrder latest ms
        → process_all codec tick_num latest (messages_of ms ++ more)
          ≡ process_all codec tick_num (latest_tick latest ms) more
    unfolding process_all latest_tick
    process_all_lem latest [] more h = refl
    process_all_lem latest (p ∷ ps) more h =
        let (ticked, later, rest) = h in
        rw (process_all, latest_tick, process_ticked latest p ticked later)
          (process_all_lem (if p.1 == 0 then latest else p.1) ps more rest)

    confirmed :
        (latest tick : ℕ)
        → 0 < tick
        → tick < 2 ^ 32
        → latest < tick
        → ((latest + confirmed_tick_count latest tick) % 2 ^ 32 ≡ tick - 1)
          × (confirmed_tick_count latest tick ≡ tick - 1 - latest)
    confirmed latest tick up small behind = (omega arith, omega arith)

    process_confirmation :
        (latest tick : ℕ)
        → 0 < tick
        → tick < 2 ^ 32
        → tick ≤ latest + 2 ^ 8
        → latest < tick
        → latest ≢ 0
        → process_all codec tick_num latest (confirmation codec latest tick) ≡ tick - 1
    unfolding process_all process_received_message
    process_confirmation latest tick up small near behind started =
        elim (Bool-cases (not (latest == 0) && ltb latest (tick_before tick))) [
          | inl late ↦
              let (sum, count) = confirmed latest tick up small behind in
              let fits : confirmed_tick_count latest tick % 2 ^ 8
                  ≡ confirmed_tick_count latest tick =
                omega arith in
              rw
                (
                  late,
                  fits,
                  codec.to_buffer_inverse (confirmed_tick_count latest tick) (omega arith),
                )
                sum
          | inr current ↦ rw current (ground arith)
        ]

sent_tick_after :
    (latest tick : ℕ)
    → tick < 2 ^ 32
    → latest < tick
    → latest ≢ 0
    → (if not (latest == 0) && ltb latest (tick_before tick)
        then (latest + confirmed_tick_count latest tick) % 2 ^ 32
        else latest)
      ≡ tick - 1
sent_tick_after latest tick small behind started = ground arith

module _ {H P : Type 0} (buf : CircularBuffer H) (codec : Codec) (tick_num : Message → ℕ) where
  -- If a client knows of the same tick as the server last sent it, then after a batch, which the
  -- client can read, it knows of the tick before the server's current one, and so does the server:
  -- when the messages' ticks are in order and have begun, the last is no more than 256 ticks ago, the
  -- header and the batch have no more than MAX_BATCH_SIZE bytes, and neither has the compressed batch.
  pub ticks_confirmed :
      (c : Client H P) (ms : List (Message × ℕ)) (rest : List QueuedMessage) (tick : ℕ)
      (stale : Bytes)
      → c.send_queue ≡ map queued ms ++ rest
      → 4 + length (frames (batch_messages codec c ms rest tick)) ≤ max_batch_size
      → length (codec.compress (frames (batch_messages codec c ms rest tick))) ≤ max_batch_size
      → InOrder tick_num c.latest_sent_sim_tick ms
      → tick < 2 ^ 32
      → latest_tick c.latest_sent_sim_tick ms ≢ 0
      → latest_tick c.latest_sent_sim_tick ms < tick
      → tick ≤ latest_tick c.latest_sent_sim_tick ms + 2 ^ 8
      → (d : Client H P) × (batch : Bytes) × (received : Batch) × (build_batch codec c
            (length ms)
            tick
          ≡ some (d, batch))
        × (process_batch codec (wire_bytes buf codec d batch) stale ≡ some received)
        × (process_all codec tick_num c.latest_sent_sim_tick received.messages ≡ tick - 1)
        × (d.latest_sent_sim_tick ≡ tick - 1)
  ticks_confirmed c ms rest tick stale e fits size order small started behind near =
      let sent = latest_tick c.latest_sent_sim_tick ms in
      let all = confirmation codec sent tick in
      (
        sent_client codec c ms rest tick,
        frames (batch_messages codec c ms rest tick),
        _,
        build_batch_fits codec c ms rest tick e fits,
        batch_received buf codec c ms rest tick stale fits size,
        process_all_lem tick_num codec c.latest_sent_sim_tick ms all order
            ∙ process_confirmation tick_num codec sent tick (omega arith) small near behind started,
        sent_tick_after sent tick small behind started,
      )
