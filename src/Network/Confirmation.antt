-- ===== src/Network/Confirmation.antt =====
-- What a batch tells the client of the server's ticks: the batches of Client.cpp on the server, as
-- the client's Network.cpp and MessageProcessor.cpp read them.
use mathlib.Core.List.{append-nil}
use amalgam_engine.Prelude.{
  ℕ, ◌+◌, ◌%◌, ◌^◌, ◌≤◌, ◌≡◌, leb, true, some, arith, refl, sym, ap, ◌∙◌, not, ◌&&◌, List, [], ◌∷◌,
  ◌++◌, map, length, ltb, ◌==◌, if◌then◌else◌, inl, inr, Bool-cases,
}
use amalgam_engine.Prelude.Map.{Bytes}
use amalgam_engine.Network.{Message, write16}
use amalgam_engine.Network.ServerClient.{CircularBuffer, Client, QueuedMessage, get_tick_adjustment}
use amalgam_engine.Network.ServerBatch.{
  Codec, frame, copy_waiting, fill_batch, build_batch, max_batch_size, wire_bytes,
  add_explicit_confirmation, explicit_confirmation, confirmed_tick_count, tick_before,
}
use amalgam_engine.Network.Batches.{frames, process_batch, append_assoc}
use amalgam_engine.Network.RoundTrip.{process_batch-wire_bytes}

-- A message as it is queued, with the tick that it is queued for.
abbrev pub queued : Message × ℕ → QueuedMessage
queued p = record { message = frame p.0; tick = p.1 }

abbrev pub messages_of : List (Message × ℕ) → List Message
messages_of ms = map (λ p. p.0) ms

unfoldable pub latest_tick : ℕ → List (Message × ℕ) → ℕ
latest_tick latest [] = latest
latest_tick latest (p ∷ ps) = latest_tick (if p.1 == 0 then latest else p.1) ps

module _ {H P : Type 0} where
  pub copy_waiting_lem :
      (c : Client H P) (ms : List (Message × ℕ)) (rest : List QueuedMessage)
      → c.send_queue ≡ map queued ms ++ rest
      → copy_waiting (length ms) c ≡ (
        record c {
          send_queue = rest;
          latest_sent_sim_tick = latest_tick c.latest_sent_sim_tick ms;
        },
        frames (messages_of ms),
      )
  unfolding copy_waiting latest_tick frames
  copy_waiting_lem c [] rest e = rw (sym e) refl
  copy_waiting_lem c (m ∷ ms) rest e =
      rw
        (
          copy_waiting,
          e,
          copy_waiting_lem
              (record c {
                send_queue = map queued ms ++ rest;
                latest_sent_sim_tick = if m.1 == 0 then c.latest_sent_sim_tick else m.1;
              })
              ms rest refl,
        )
        refl

pub frames-append : (ms ns : List Message) → frames (ms ++ ns) ≡ frames ms ++ frames ns
unfolding frames
frames-append [] ns = refl
frames-append (m ∷ ms) ns =
    ap (λ bs. frame m ++ bs) (frames-append ms ns)
    ∙ sym (append_assoc (frame m) (frames ms) (frames ns))

module _ (codec : Codec) where
  abbrev last_message : ℕ → Message
  last_message n = record { message_type = explicit_confirmation; payload = codec.to_buffer n }

  explicit_confirmation_framed :
      (n : ℕ)
      → explicit_confirmation ∷ write16 1 ++ codec.to_buffer n ≡ frames (last_message n ∷ [])
  unfolding frames frame write16
  explicit_confirmation_framed n =
      rw (codec.to_buffer_length n)
        (sym (append-nil (explicit_confirmation ∷ write16 1 ++ codec.to_buffer n)))

  -- The messages that a batch ends with.
  abbrev pub confirmation : ℕ → ℕ → List Message
  confirmation latest tick =
      if not (latest == 0) && ltb latest (tick_before tick)
      then record {
        message_type = explicit_confirmation;
        payload = codec.to_buffer (confirmed_tick_count latest tick % 2 ^ 8);
      }
        ∷ []
      else []

  module _ {H P : Type 0} (c : Client H P) (ms : List (Message × ℕ)) (rest : List QueuedMessage)
      (tick : ℕ) where
    abbrev pub sent_tick : ℕ
    sent_tick = latest_tick c.latest_sent_sim_tick ms

    pub fill_batch_lem :
        c.send_queue ≡ map queued ms ++ rest
        → fill_batch codec c (length ms) tick ≡ (
          record c {
            send_queue = rest;
            latest_sent_sim_tick =
                if not (sent_tick == 0) && ltb sent_tick (tick_before tick)
                then (sent_tick + confirmed_tick_count sent_tick tick) % 2 ^ 32
                else sent_tick;
          },
          frames (messages_of ms ++ confirmation sent_tick tick),
        )
    unfolding fill_batch add_explicit_confirmation
    fill_batch_lem e =
        elim (Bool-cases (not (sent_tick == 0) && ltb sent_tick (tick_before tick))) [
          | inl behind ↦
              let head =
                explicit_confirmation_framed (confirmed_tick_count sent_tick tick % 2 ^ 8) in
              rw
                (
                  fill_batch,
                  copy_waiting_lem c ms rest e,
                  behind,
                  add_explicit_confirmation,
                  head,
                  frames-append (messages_of ms)
                      (last_message (confirmed_tick_count sent_tick tick % 2 ^ 8) ∷ []),
                )
                refl
          | inr current ↦
              rw (fill_batch, copy_waiting_lem c ms rest e, current, append-nil (messages_of ms))
                refl
        ]

  module _ {H P : Type 0} (c : Client H P) (ms : List (Message × ℕ)) (rest : List QueuedMessage)
      (tick : ℕ) where
    -- The messages of a batch, and the client behind it.
    abbrev pub batch_messages : List Message
    batch_messages = messages_of ms ++ confirmation (sent_tick c ms rest tick) tick

    abbrev pub sent_client : Client H P
    sent_client = record c {
      send_queue = rest;
      latest_sent_sim_tick =
          if not (sent_tick c ms rest tick == 0)
            && ltb (sent_tick c ms rest tick) (tick_before tick)
          then (sent_tick c ms rest tick + confirmed_tick_count (sent_tick c ms rest tick) tick)
            % 2 ^ 32
          else sent_tick c ms rest tick;
    }

    pub build_batch_fits :
        c.send_queue ≡ map queued ms ++ rest
        → 4 + length (frames batch_messages) ≤ max_batch_size
        → build_batch codec c (length ms) tick ≡ some (sent_client, frames batch_messages)
    unfolding build_batch
    build_batch_fits e fits =
        let room : leb (4 + length (frames batch_messages)) max_batch_size ≡ true = ground arith in
        rw (build_batch, fill_batch_lem c ms rest tick e, room) refl

module _ {H P : Type 0} (buf : CircularBuffer H) (codec : Codec) where
  -- A batch reaches the client whole: from the bytes on the wire it reads the adjustment and the
  -- iteration that the server calculated, and the waiting messages in their order, followed by the
  -- confirmation that the server added; if the batch fits the server's buffer, and compressed the
  -- client's.
  pub batch_received :
      (c : Client H P) (ms : List (Message × ℕ)) (rest : List QueuedMessage) (tick : ℕ)
      (stale : Bytes)
      → 4 + length (frames (batch_messages codec c ms rest tick)) ≤ max_batch_size
      → length (codec.compress (frames (batch_messages codec c ms rest tick))) ≤ max_batch_size
      → process_batch codec
          (wire_bytes buf codec
            (sent_client codec c ms rest tick)
            (frames (batch_messages codec c ms rest tick)))
          stale
        ≡ some (record {
          adjustment = (get_tick_adjustment buf c).0;
          iteration = (get_tick_adjustment buf c).1;
          messages = batch_messages codec c ms rest tick;
        })
  unfolding get_tick_adjustment
  batch_received c ms rest tick stale fits small =
      process_batch-wire_bytes buf codec (sent_client codec c ms rest tick)
        (batch_messages codec c ms rest tick) stale (omega arith) small
