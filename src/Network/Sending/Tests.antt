-- ===== src/Network/Sending/Tests.antt =====
-- Runs of a batch from the server to the client, with plain bytes for the codecs and a connection that
-- takes a hundred bytes.
use amalgam_engine.Prelude.{
  leb, if◌then◌else◌, ℕ, zero, suc, ◌-◌, ◌≤◌, ◌≡◌, refl, true, none, some, List, [], ◌∷◌, ◌++◌, inl,
  inr, arith, length, take, get_or, map, min,
}
use amalgam_engine.Prelude.Int.{ℤ}
use amalgam_engine.Prelude.Map.{Bytes}
use amalgam_engine.Network.{Message, NetworkResult, disconnected}
use amalgam_engine.Network.Peer.{Socket, Peer}
use amalgam_engine.Network.ServerClient.{Client, get_tick_adjustment}
use amalgam_engine.Network.ServerBatch.{
  Codec, frame, build_batch, wire_bytes, send_waiting_messages,
}
use amalgam_engine.Network.Batches.{Batch, frames, process_batch}
use amalgam_engine.Network.Confirmation.{queued, latest_tick}
use amalgam_engine.Network.MessageProcessor.{process_all}
use amalgam_engine.Network.Ticks.{InOrder, ticks_confirmed}
use amalgam_engine.Network.Tests.{history, new_client}
use amalgam_engine.Network.Sending.{Outgoing, Delivers, send_waiting_messages-Delivers}

decompress_whole :
    (room : ℕ) (b : Bytes)
    → length b ≤ room
    → (if leb (length b) room then some b else none) ≡ some b
decompress_whole room b fits = ground arith

abbrev plain : Codec
plain = record {
  to_buffer = λ n. n ∷ [];
  from_buffer = λ b. get_or b 0 0;
  to_buffer_length = λ n. refl;
  to_buffer_inverse = λ n lt. refl;
  compress = λ b. b;
  decompress = λ room b. if leb (length b) room then some b else none;
  compress_size = λ b lt. lt;
  compress_inverse = decompress_whole;
}

never_receives : (n : ℕ) (bytes : Bytes) → none ≡ some bytes → length bytes ≤ n
never_receives n bytes e = grind arith

-- A connection that takes a hundred bytes.
abbrev hundred_bytes : Socket Bytes
hundred_bytes = record {
  receive = λ s n. (none, s);
  receive_bounded = λ s n bytes e. never_receives n bytes e;
  send = λ s b. (min (100 - length s) (length b), s ++ take (min (100 - length s) (length b)) b);
}

abbrev hundred_bytes_sent : Outgoing hundred_bytes
hundred_bytes_sent = record { sent = λ s. s; send_appends = λ s b. refl }

-- A movement update of tick 9 and a message without a tick, when the server is about to begin tick 13.
abbrev waiting : List (Message × ℕ)
waiting =
    (record { message_type = 24; payload = 9 ∷ [] }, 9)
    ∷ (record { message_type = 20; payload = 4 ∷ 5 ∷ [] }, 0)
    ∷ []

abbrev sending : Client (List ℤ) ℕ
sending = record new_client { send_queue = map queued waiting; latest_sent_sim_tick = 7 }

abbrev received : List Message
received =
    record { message_type = 24; payload = 9 ∷ [] }
    ∷ record { message_type = 20; payload = 4 ∷ 5 ∷ [] }
    ∷ record { message_type = 18; payload = 3 ∷ [] }
    ∷ []

abbrev connected : Client (List ℤ) (Peer Bytes)
connected = record {
  peer = some (record { socket = []; is_connected = true });
  send_queue = map queued waiting;
  latest_sent_sim_tick = 7;
  tick_diff_history = [];
  num_fresh_diffs = 0;
  latest_adj_iteration = 0;
}

ones : ℕ → Bytes
ones zero = []
ones (suc n) = 1 ∷ ones n

abbrev full : Client (List ℤ) (Peer Bytes)
full = record connected { peer = some (record { socket = ones 99; is_connected = true }) }

-- A connection with room for one byte only is lost.
lost :
    (after : Client (List ℤ) (Peer Bytes)) × (send_waiting_messages history plain hundred_bytes full
        2 13
      ≡ some (after, disconnected))
unfolding send_waiting_messages ones frame
lost = (_, refl)

queue_is : sending.send_queue ≡ map queued waiting ++ []
unfolding frame
queue_is = refl

sent_tick_is : latest_tick 7 waiting ≡ 9
unfolding latest_tick
sent_tick_is = refl

send_waiting_messages-Delivers_example :
    (after : Client (List ℤ) (Peer Bytes) × NetworkResult) × (send_waiting_messages history plain
        hundred_bytes connected 2 13
      ≡ some after)
    × Delivers history plain hundred_bytes hundred_bytes_sent []
        (8 ∷ [])
        record {
          adjustment = (get_tick_adjustment history connected).0;
          iteration = 0;
          messages = received;
        }
        after
unfolding latest_tick frame frames build_batch get_tick_adjustment
send_waiting_messages-Delivers_example =
    send_waiting_messages-Delivers history plain hundred_bytes hundred_bytes_sent connected
      (record { socket = []; is_connected = true }) waiting [] 13 (8 ∷ []) refl refl refl queue_is
      (omega arith) (omega arith)

abbrev first_byte : Message → ℕ
first_byte m = get_or m.payload 0 0

waiting-InOrder : InOrder first_byte 7 waiting
waiting-InOrder = (
  inl (omega arith, refl, inr (inl refl)),
  inr (omega arith),
  (
    inr (
      refl,
      (λ e. absurd (omega arith)),
      (λ e. absurd (omega arith)),
      (λ e. absurd (omega arith)),
      (λ e. absurd (omega arith)),
    ),
    inl refl,
    tt,
  ),
)

ticks_confirmed_example :
    (d : Client (List ℤ) ℕ) × (batch : Bytes) × (read : Batch) × (build_batch plain sending 2 13
      ≡ some (d, batch))
    × (process_batch plain (wire_bytes history plain d batch) (8 ∷ []) ≡ some read)
    × (process_all plain first_byte 7 read.messages ≡ 12)
    × (d.latest_sent_sim_tick ≡ 12)
unfolding latest_tick frame frames
ticks_confirmed_example =
    ticks_confirmed history plain first_byte sending waiting [] 13 (8 ∷ []) queue_is (omega arith)
      (omega arith) waiting-InOrder (omega arith) (λ e. absurd (omega arith)) (omega arith)
      (omega arith)
