-- ===== src/Network/ClientSend.antt =====
-- `serializeAndSend` of Source/ClientLib/Network/Public/Network.h with `send` and
-- `sendHeartbeatIfNecessary` of Source/ClientLib/Network/Private/Network.cpp. The serialized bytes of
-- a message are given with it, and network statistics are left out.
use amalgam_engine.Prelude.{
  ℕ, ◌+◌, ◌%◌, ◌^◌, Option, none, some, ◌∷◌, ◌++◌, length, ltb, ◌==◌, if◌then◌else◌,
}
use amalgam_engine.Prelude.Map.{Bytes}
use amalgam_engine.Network.{Message, NetworkResult, success, write16}
use amalgam_engine.Network.ClientNetwork.{Network}
use amalgam_engine.Network.Peer.{Peer, Socket, send}

abbrev pub client_max_message_size : ℕ
client_max_message_size = 65535

-- The client header and the message header.
unfoldable pub client_header : ℕ → Message → Bytes
unfolding write16
client_header iteration m = iteration ∷ m.message_type ∷ write16 (length m.payload % 2 ^ 16)

-- The part of `serializeAndSend` that builds the message; `none` is the return for one that is too
-- large.
unfoldable pub client_frame : ℕ → Message → Option Bytes
unfolding client_header
client_frame iteration m =
    if ltb client_max_message_size (4 + length m.payload)
    then none
    else some (client_header iteration m ++ m.payload)

-- The members of the client's `Network` that sending uses.
pub record Sender (S : Type 0) : Type 0 where
  pub network : Network
  pub server : Option (Peer S)
  pub messages_sent_since_tick : ℕ

module _ {S : Type 0} (os : Socket S) where
  -- The part of `send` behind the check for a connection.
  unfoldable pub count_sent : Sender S → Peer S × NetworkResult → Sender S
  count_sent s (p, success) = record s {
    server = some p;
    messages_sent_since_tick = (s.messages_sent_since_tick + 1) % 2 ^ 32;
  }
  count_sent s (p, _) = record s { server = some p }

  -- `serializeAndSend`
  unfoldable pub serialize_and_send : Sender S → Message → Sender S
  unfolding client_frame count_sent
  serialize_and_send s m = elim (client_frame s.network.adjustment_iteration m) [
    | none ↦ s
    | some bytes ↦ elim s.server [
      | none ↦ s
      | some p ↦ if p.is_connected then count_sent s (send os p bytes) else s
    ]
  ]

  -- `sendHeartbeatIfNecessary`, with the Heartbeat message of the current tick
  unfoldable pub send_heartbeat_if_necessary : Sender S → Message → Sender S
  unfolding serialize_and_send
  send_heartbeat_if_necessary s heartbeat =
      let sent = serialize_and_send s heartbeat in
      record (if s.messages_sent_since_tick == 0 then sent else s) { messages_sent_since_tick = 0 }
