-- ===== src/Network/Stream/Tests.antt =====
-- Runs of the receiving of messages, over a connection that delivers its bytes in pieces of three.
use amalgam_engine.Prelude.{
  ℕ, ◌≤◌, ◌<◌, ◌≡◌, refl, sym, Option, none, some, ◌⊎◌, true, false, List, [], ◌∷◌, ◌++◌, arith,
  length, length-take, take, drop, min, take-append-drop,
}
use amalgam_engine.Prelude.Map.{Bytes}
use amalgam_engine.Network.{Message}
use amalgam_engine.Network.Peer.{Peer, Socket, send, receive_bytes_wait}
use amalgam_engine.Network.ServerClient.{Client}
use amalgam_engine.Network.ClientNetwork.{start}
use amalgam_engine.Network.ClientSend.{Sender, send_heartbeat_if_necessary, serialize_and_send}
use amalgam_engine.Network.Agreement.{true_not_false}
use amalgam_engine.Network.Receiving.{
  Receiver, receive_message, success, disconnected, GoesWell, receive_message-GoesWell,
}
use amalgam_engine.Network.Stream.{Stream}
use amalgam_engine.Network.Stream.Sequence.{
  stream_of, accepted, receive_messages, ReceivesAll, receive_messages-stream_of,
}

abbrev receive_piece : Bytes → ℕ → Option Bytes × Bytes
receive_piece s n = (some (take (min n 3) s), drop (min n 3) s)

receive_piece_bounded :
    (s : Bytes) (n : ℕ) (bytes : Bytes) → (receive_piece s n).0 ≡ some bytes → length bytes ≤ n
receive_piece_bounded s n bytes e = grind (arith, length-take (min n 3) s)

abbrev pieces : Socket Bytes
pieces = record {
  receive = receive_piece;
  receive_bounded = receive_piece_bounded;
  send = λ s b. (length b, s);
}

receive_piece_next :
    (s : Bytes) (n : ℕ)
    → 0 < n
    → 0 < length s
    → (b : Bytes) × ((receive_piece s n).0 ≡ some b)
      × (0 < length b)
      × (s ≡ b ++ (receive_piece s n).1)
receive_piece_next s n p q = (
  take (min n 3) s,
  refl,
  omega (arith, length-take (min n 3) s),
  sym (take-append-drop (min n 3) s),
)

abbrev stream : Stream pieces
stream = record { rest = λ s. s; receive_next_bytes = receive_piece_next }

abbrev sent : List (ℕ × Message)
sent =
    (0, record { message_type = 1; payload = [] })
    ∷ (1, record { message_type = 2; payload = 7 ∷ 8 ∷ 9 ∷ [] })
    ∷ []

abbrev connected : Peer Bytes
connected = record {
  socket = 0 ∷ 1 ∷ 0 ∷ 0 ∷ 1 ∷ 2 ∷ 3 ∷ 0 ∷ 7 ∷ 8 ∷ 9 ∷ 5 ∷ [];
  is_connected = true;
}

abbrev new_client : Client ℕ (Peer Bytes)
new_client = record {
  peer = some connected;
  send_queue = [];
  latest_sent_sim_tick = 0;
  tick_diff_history = 0;
  num_fresh_diffs = 0;
  latest_adj_iteration = 0;
}

abbrev receiver : Receiver ℕ Bytes
receiver = record {
  client = new_client;
  large_receive_buffer = false;
  message_type = 0;
  message_size = 0;
  composition_index = 0;
  pooled = 0;
}

bytes_are : connected.socket ≡ stream_of sent ++ (5 ∷ [])
unfolding stream_of
bytes_are = refl

receive_messages-stream_of_example :
    ReceivesAll pieces stream new_client (5 ∷ []) (accepted sent) receiver
receive_messages-stream_of_example =
    receive_messages-stream_of pieces stream new_client receiver sent (5 ∷ []) (record {
      peer = connected;
      client_is = refl;
      is_up = refl;
      left = bytes_are;
      idle = λ large. absurd (true_not_false (sym large));
    })

three_received :
    (receive_messages pieces 3 receiver).1
    ≡ success 1 [] ∷ success 2 (7 ∷ 8 ∷ 9 ∷ []) ∷ disconnected ∷ []
unfolding receive_messages receive_message receive_bytes_wait
three_received = refl

receive_message-GoesWell_example :
    ((receiver.client.peer ≡ none) × (receive_message pieces receiver ≡ (receiver, disconnected)))
    ⊎ ((p : Peer Bytes) × (receiver.client.peer ≡ some p)
        × GoesWell pieces p (receive_message pieces receiver))
receive_message-GoesWell_example =
    receive_message-GoesWell pieces receiver (λ p e large ne. absurd (true_not_false (sym large)))

abbrev sender : Sender Bytes
sender = record { network = start; server = some connected; messages_sent_since_tick = 0 }

abbrev heartbeat : Message
heartbeat = record { message_type = 1; payload = 4 ∷ [] }

counted : (serialize_and_send pieces sender heartbeat).messages_sent_since_tick ≡ 1
unfolding serialize_and_send send
counted = refl

reset : (send_heartbeat_if_necessary pieces sender heartbeat).messages_sent_since_tick ≡ 0
unfolding send_heartbeat_if_necessary send
reset = refl
