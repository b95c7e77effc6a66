-- ===== src/Network/ServerBatch.antt =====
-- The batches that the server sends to a client, Source/ServerLib/Network/Private/Client.cpp and
-- `serialize` of Source/ServerLib/Network/Public/Network.h. bitsery and lz4 are parameters. The
-- queue's `size_approx` may miss messages that are pushed meanwhile, so the count is a parameter, too.
use amalgam_engine.Prelude.{
  ℕ, zero, suc, ◌+◌, ◌-◌, ◌*◌, ◌%◌, ◌^◌, ◌<◌, ◌≡◌, Bool, true, false, ◌&&◌, not, none, some, [],
  ◌∷◌, ◌++◌, ◌≤◌, Option, length, take, drop, ltb, leb, ◌==◌, if◌then◌else◌,
}
use amalgam_engine.Prelude.Int.{ℤ, pos_part, neg_part}
use amalgam_engine.Prelude.Map.{Bytes}
use amalgam_engine.Network.{NetworkResult, success, disconnected, Message, write16, ethernet_mtu}
use amalgam_engine.Network.Peer.{Peer, Socket, send}
use amalgam_engine.Network.ServerClient.{CircularBuffer, Client, get_tick_adjustment}

-- The serialized ExplicitConfirmation, and lz4's compression: it decompresses into a buffer with room
-- for a number of bytes, and `none` is an error.
pub record Codec : Type 0 where
  pub to_buffer : ℕ → Bytes
  pub from_buffer : Bytes → ℕ
  pub to_buffer_length : (n : ℕ) → length (to_buffer n) ≡ 1
  pub to_buffer_inverse : (n : ℕ) → n < 2 ^ 8 → from_buffer (to_buffer n) ≡ n
  pub compress : Bytes → Bytes
  pub decompress : ℕ → Bytes → Option Bytes
  pub compress_size : (bytes : Bytes) → 0 < length bytes → 0 < length (compress bytes)
  pub compress_inverse :
      (room : ℕ) (bytes : Bytes)
      → length bytes ≤ room
      → decompress room (compress bytes) ≡ some bytes

-- `SharedConfig::MAX_BATCH_SIZE`
abbrev pub max_batch_size : ℕ
max_batch_size = 20000

abbrev pub explicit_confirmation : ℕ
explicit_confirmation = 18

-- `serialize`: the message header before the serialized bytes
unfoldable pub frame : Message → Bytes
unfolding write16
frame m = m.message_type ∷ write16 (length m.payload % 2 ^ 16) ++ m.payload

module _ {H P : Type 0} where
  -- The loop that copies the waiting messages into the buffer.
  unfoldable pub copy_waiting : ℕ → Client H P → Client H P × Bytes
  copy_waiting zero c = (c, [])
  copy_waiting (suc n) c = elim c.send_queue [
    | [] ↦ (c, [])
    | m ∷ rest ↦
        let latest = if m.tick == 0 then c.latest_sent_sim_tick else m.tick in
        let (d, bytes) =
          copy_waiting n (record c { send_queue = rest; latest_sent_sim_tick = latest }) in
        (d, m.message ++ bytes)
  ]

-- `currentTick - 1`
abbrev pub tick_before : ℕ → ℕ
tick_before tick = (tick + 2 ^ 32 - 1) % 2 ^ 32

-- `confirmedTickCount`, which is a `Uint32` difference
abbrev pub confirmed_tick_count : ℕ → ℕ → ℕ
confirmed_tick_count latest tick = (tick_before tick + 2 ^ 32 - latest) % 2 ^ 32

module _ {H P : Type 0} (codec : Codec) where
  -- `addExplicitConfirmation`
  unfoldable pub add_explicit_confirmation : Client H P → ℕ → Client H P × Bytes
  unfolding write16
  add_explicit_confirmation c tick =
      let count = confirmed_tick_count c.latest_sent_sim_tick tick in
      (
        record c { latest_sent_sim_tick = (c.latest_sent_sim_tick + count) % 2 ^ 32 },
        explicit_confirmation ∷ write16 1 ++ codec.to_buffer (count % 2 ^ 8),
      )

  -- What `sendWaitingMessages` copies behind the place of the header, up to the confirmation.
  unfoldable pub fill_batch : Client H P → ℕ → ℕ → Client H P × Bytes
  unfolding copy_waiting add_explicit_confirmation
  fill_batch c count tick =
      let (d, bytes) = copy_waiting count c in
      let (e, confirmation) = add_explicit_confirmation d tick in
      if not (d.latest_sent_sim_tick == 0) && ltb d.latest_sent_sim_tick (tick_before tick)
      then (e, bytes ++ confirmation)
      else (d, bytes)

  -- The batch of `sendWaitingMessages`. `none`: bytes are written behind the end of `batchBuffer`,
  -- which has MAX_BATCH_SIZE bytes for the header and the batch. The index only grows, so of the
  -- assertions the last decides.
  unfoldable pub build_batch : Client H P → ℕ → ℕ → Option (Client H P × Bytes)
  unfolding fill_batch
  build_batch c count tick =
      let filled = fill_batch c count tick in
      if leb (4 + length filled.1) max_batch_size then some filled else none

-- A cast to `Uint8`.
abbrev pub to_uint8 : ℤ → ℕ
to_uint8 z = (pos_part z + 255 * neg_part z) % 2 ^ 8

module _ {H P : Type 0} (buf : CircularBuffer H) (codec : Codec) where
  -- `fillHeader`
  unfoldable pub fill_header : Client H P → ℕ → Bool → Bytes
  unfolding write16 get_tick_adjustment
  fill_header c batch_size is_compressed =
      let (adjustment, iteration) = get_tick_adjustment buf c in
      to_uint8 adjustment
      ∷ iteration
      ∷ write16 (if is_compressed then batch_size % 2 ^ 15 + 2 ^ 15 else batch_size % 2 ^ 16)

  -- The header and the batch, which is compressed if it is large.
  unfoldable pub wire_bytes : Client H P → Bytes → Bytes
  unfolding fill_header
  wire_bytes c batch =
      if ltb 50 (length batch)
      then fill_header c (length (codec.compress batch)) true ++ codec.compress batch
      else fill_header c (length batch) false ++ batch

-- The loop that sends. Each round sends a byte at least, so as many rounds as there are bytes are
-- enough.
module _ {S : Type 0} (os : Socket S) where
  unfoldable pub send_loop : ℕ → Peer S → Bytes → NetworkResult → Peer S × NetworkResult
  unfolding send
  send_loop zero p bytes result = (p, result)
  send_loop (suc fuel) p [] result = (p, result)
  send_loop (suc fuel) p (b ∷ bytes) result =
      let (q, sent) = send os p (take ethernet_mtu (b ∷ bytes)) in
      let rest = send_loop fuel q (drop ethernet_mtu (b ∷ bytes)) sent in
      elim sent [ disconnected ↦ (q, disconnected) | _ ↦ rest ]

module _ {H S : Type 0} (buf : CircularBuffer H) (codec : Codec) (os : Socket S) where
  -- `sendWaitingMessages`; `none` as in `build_batch`
  unfoldable pub send_waiting_messages :
      Client H (Peer S) → ℕ → ℕ → Option (Client H (Peer S) × NetworkResult)
  unfolding build_batch wire_bytes send_loop
  send_waiting_messages c count tick = elim c.peer [
    | none ↦ some (c, disconnected)
    | some p ↦
        if c.latest_sent_sim_tick == 0 && count == 0
        then some (c, success)
        else elim (build_batch codec c count tick) [
          | none ↦ none
          | some (d, batch) ↦
              let bytes = wire_bytes buf codec d batch in
              let (q, result) = send_loop os (length bytes) p bytes success in
              some (record d { peer = some q }, result)
        ]
  ]
