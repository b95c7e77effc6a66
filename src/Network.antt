-- ===== src/Network.antt =====
-- Source/SharedLib/Network/Public/NetworkDefs.h and the reads and writes of 16-bit numbers of
-- Source/SharedLib/Utility/Private/ByteTools.cpp. A byte buffer is the list of its bytes.
pub mod Peer
pub mod ServerClient
pub mod ClientNetwork
pub mod Adjustment
pub mod Window
pub mod Freshness
pub mod Protocol
pub mod Agreement
pub mod Reachable
pub mod MessageProcessor
pub mod Confirmation
pub mod Ticks
pub mod ServerBatch
pub mod Batches
pub mod RoundTrip
pub mod Receiving
pub mod Sending
pub mod ClientSend
pub mod Stream
mod Tests
use amalgam_engine.Prelude.{ℕ, ◌+◌, ◌*◌, ◌/◌, ◌%◌, List, [], ◌∷◌, get_or}
use amalgam_engine.Prelude.Map.{Bytes}

abbrev pub ethernet_mtu : ℕ
ethernet_mtu = 1460

pub data NetworkResult : Type 0 where
  not_set success disconnected message_not_complete : NetworkResult

-- `write16`: little endian
unfoldable pub write16 : ℕ → Bytes
write16 value = value % 256 ∷ value / 256 % 256 ∷ []

-- `read16`, from the start of a buffer
unfoldable pub read16 : Bytes → ℕ
read16 buffer = get_or buffer 0 0 + 256 * get_or buffer 1 0

-- The message that `Network::serialize` of the server frames: its type and its serialized bytes.
pub record Message : Type 0 where
  pub message_type : ℕ
  pub payload : Bytes
