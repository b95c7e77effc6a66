-- ===== src/Network/MessageProcessor.antt =====
-- Source/ClientLib/Network/Private/MessageProcessor.cpp: how the client follows the server's ticks.
-- The deserialized tick number of a message is a parameter; the events that are pushed are left out.
use amalgam_engine.Prelude.{ℕ, ◌+◌, ◌%◌, ◌^◌, ◌||◌, List, [], ◌∷◌, ltb, ◌==◌, if◌then◌else◌}
use amalgam_engine.Network.{Message}
use amalgam_engine.Network.ServerBatch.{Codec, explicit_confirmation}

abbrev pub connection_response : ℕ
connection_response = 19

abbrev pub movement_update : ℕ
movement_update = 24

abbrev pub component_update : ℕ
component_update = 25

module _ (codec : Codec) (tick_num : Message → ℕ) where
  -- `handleExplicitConfirmation`, `handleConnectionResponse`, `handleMovementUpdate` and
  -- `handleComponentUpdate`, of `lastReceivedTick`
  unfoldable pub process_received_message : ℕ → Message → ℕ
  process_received_message last m =
      if m.message_type == explicit_confirmation
      then (last + codec.from_buffer m.payload) % 2 ^ 32
      else if m.message_type == connection_response
      then tick_num m
      else if m.message_type == movement_update || m.message_type == component_update
      then if ltb last (tick_num m) then tick_num m else last
      else last

  unfoldable pub process_all : ℕ → List Message → ℕ
  unfolding process_received_message
  process_all last [] = last
  process_all last (m ∷ ms) = process_all (process_received_message last m) ms
