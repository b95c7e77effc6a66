-- ===== src/InventoryHelper.antt =====
-- Source/ServerLib/Simulation/Private/InventoryHelper.cpp. The registry and the network are
-- third-party or I/O: an entity is its two components that the code looks up, and what is sent is a
-- list of messages with their receivers.
pub mod Slots
pub mod Rounds
pub mod Removal
mod Tests
use amalgam_engine.Prelude.{
  ℕ, zero, suc, ◌+◌, ◌-◌, ◌%◌, ◌^◌, Bool, true, false, ◌&&◌, List, [], ◌∷◌, ◌++◌, Option, none,
  some, ltb, leb, ◌==◌, if◌then◌else◌, length, min,
}
use amalgam_engine.Prelude.Map.{Bytes}
use amalgam_engine.ItemData.{Item, ItemData, get_item, get_item_by_string, get_item_version}
use amalgam_engine.Inventory.{
  Inventory, slot_at, get_item_count, init, add_item as inventory_add_item,
  remove_item as inventory_remove_item,
}

pub record Entity : Type 0 where
  pub inventory : Option Inventory
  pub client : Option ℕ

pub data AddResult : Type 0 where
  success inventory_full item_not_found : AddResult

pub data RemoveResult : Type 0 where
  success invalid_slot_index insufficient_item_count inventory_not_found item_not_found :
      RemoveResult

pub data Message : Type 0 where
  inventory_add_item_message : ℕ → ℕ → ℕ → ℕ → Message
  inventory_remove_item_message : ℕ → ℕ → Message
  add_failure : AddResult → Message
  remove_failure : RemoveResult → Message

-- `if (client) network.serializeAndSend(client->netID, message);`
abbrev pub send : Option ℕ → Message → List (ℕ × Message)
send none m = []
send (some net_id) m = (net_id, m) ∷ []

abbrev pub default_inventory_size : ℕ
default_inventory_size = 20

-- `registry.get_or_emplace<Inventory>`
abbrev pub or_emplace : Option Inventory → Inventory
or_emplace none = init default_inventory_size
or_emplace (some v) = v

abbrev pub send_failure : Bool → Option ℕ → Message → List (ℕ × Message)
send_failure true client m = send client m
send_failure false client m = []

-- `addItem(entity, itemID, count, sendFailureMessage)`
unfoldable pub add_item : Entity → ItemData → ℕ → ℕ → Bool → Entity × AddResult × List (ℕ × Message)
add_item e d id count report =
    let v = or_emplace e.inventory in
    elim (get_item d id) [
      | none ↦ (
        record e { inventory = some v },
        AddResult.item_not_found,
        send_failure report e.client (add_failure AddResult.item_not_found),
      )
      | some item ↦
          let r = inventory_add_item v id count item.max_stack_size in
          if r.1
          then (
            record e { inventory = some r.0 },
            AddResult.success,
            send e.client
                (inventory_add_item_message id count item.max_stack_size (get_item_version d id)),
          )
          else (
            record e { inventory = some r.0 },
            AddResult.inventory_full,
            send_failure report e.client (add_failure AddResult.inventory_full),
          )
    ]

-- `addItem(entity, stringID, count, sendFailureMessage)`: the flag is not handed on, so the call has
-- its default.
unfoldable pub add_item_by_id :
    Entity → ItemData → Bytes → ℕ → Bool → Entity × AddResult × List (ℕ × Message)
unfolding add_item
add_item_by_id e d string_id count report = elim (get_item_by_string d string_id) [
  | none ↦ (
    e,
    AddResult.item_not_found,
    send_failure report e.client (add_failure AddResult.item_not_found),
  )
  | some item ↦ add_item e d item.numeric_id count true
]

-- `removeItem(entity, slotIndex, count, sendFailureMessage)`
unfoldable pub remove_item : Entity → ℕ → ℕ → Bool → Entity × RemoveResult × List (ℕ × Message)
remove_item e slot count report = elim e.inventory [
  | none ↦ (
    e,
    RemoveResult.inventory_not_found,
    send_failure report e.client (remove_failure RemoveResult.inventory_not_found),
  )
  | some v ↦
      let r = inventory_remove_item v slot count in
      if r.1
      then (
        record e { inventory = some r.0 },
        RemoveResult.success,
        send e.client (inventory_remove_item_message slot count),
      )
      else (
        e,
        RemoveResult.invalid_slot_index,
        send_failure report e.client (remove_failure RemoveResult.invalid_slot_index),
      )
]

-- `std::clamp<Uint8>(static_cast<Uint8>(remainingCount), 0, slot.count)`
abbrev pub amount_to_remove : ℕ → ℕ → ℕ
amount_to_remove remaining count = min (remaining % 2 ^ 8) count

-- The loop of `removeItem(entity, itemID, count, ...)`: the rounds left, the slot index, what remains
-- to be removed. A valid inventory has fewer than 256 slots, so the `Uint8` index does not wrap.
unfoldable pub remove_loop : ℕ → Option ℕ → ℕ → ℕ → ℕ → Inventory → Inventory × List (ℕ × Message)
remove_loop id client zero i remaining v = (v, [])
remove_loop id client (suc k) i remaining v =
    let skip = remove_loop id client k (i + 1) remaining v in
    let amount = amount_to_remove remaining (slot_at v i).count in
    let w = (inventory_remove_item v i amount).0 in
    let update = send client (inventory_remove_item_message i amount) in
    let rest = remove_loop id client k (i + 1) (remaining - amount) w in
    if (slot_at v i).id == id
    then if remaining - amount == 0 then (w, update) else (rest.0, update ++ rest.1)
    else skip

-- The failure result of the same method: the conditions are those of the source, in its order.
abbrev pub removal_failure : Option Item → Option Inventory → RemoveResult
removal_failure (some item) (some v) = RemoveResult.insufficient_item_count
removal_failure none (some v) = RemoveResult.inventory_not_found
removal_failure item none = RemoveResult.item_not_found

unfoldable pub remove_found :
    Entity → Item → Inventory → ℕ → Bool → Entity × RemoveResult × List (ℕ × Message)
unfolding remove_loop
remove_found e item v count report =
    if leb count (get_item_count v item.numeric_id)
    then (let r = remove_loop item.numeric_id e.client (length v.slots) 0 count v in
        (record e { inventory = some r.0 }, RemoveResult.success, r.1))
    else (
      e,
      RemoveResult.insufficient_item_count,
      send_failure report e.client (remove_failure RemoveResult.insufficient_item_count),
    )

-- `removeItem(entity, itemID, count, sendFailureMessage)`
unfoldable pub remove_item_by_id :
    Entity → ItemData → Bytes → ℕ → Bool → Entity × RemoveResult × List (ℕ × Message)
unfolding remove_found
remove_item_by_id e d string_id count report = elim (get_item_by_string d string_id) [
  | none ↦ (
    e,
    removal_failure none e.inventory,
    send_failure report e.client (remove_failure (removal_failure none e.inventory)),
  )
  | some item ↦ elim e.inventory [
    | none ↦ (
      e,
      RemoveResult.item_not_found,
      send_failure report e.client (remove_failure RemoveResult.item_not_found),
    )
    | some v ↦ remove_found e item v count report
  ]
]

-- `getItemCount`
unfoldable pub get_item_count_by_id : Entity → ItemData → Bytes → ℕ
get_item_count_by_id e d string_id = elim (get_item_by_string d string_id) [
  | none ↦ 0
  | some item ↦ elim e.inventory [ none ↦ 0 | some v ↦ get_item_count v item.numeric_id ]
]

-- `hasItem`
unfoldable pub has_item : Entity → ItemData → Bytes → Bool
has_item e d string_id = elim (get_item_by_string d string_id) [
  | none ↦ false
  | some item ↦ elim e.inventory [
    | none ↦ false
    | some v ↦ leb 1 (get_item_count v item.numeric_id)
  ]
]
