-- ===== src/Inventory.antt =====
-- Source/SharedLib/Simulation/Private/Components/Inventory.cpp. `Uint8` wraps at 2^8 and `Uint16` at
-- 2^16; a method that changes the inventory returns the new one beside its result.
pub mod Stacks
pub mod Adding
pub mod Removing
pub mod Swap
pub mod Combine
mod Tests
use amalgam_engine.Prelude.{
  ℕ, zero, suc, ◌+◌, ◌-◌, ◌%◌, ◌^◌, Bool, true, false, not, ◌&&◌, ◌||◌, List, [], ◌∷◌, ◌++◌, Option,
  none, some, ltb, leb, ◌==◌, if◌then◌else◌, length, get_or, set, take, replicate,
}
use amalgam_engine.ItemData.{
  ItemCombination, Item, ItemData, null_item_id, get_item as get_item_data,
}

pub record ItemSlot : Type 0 where
  pub id : ℕ
  pub count : ℕ

pub record Inventory : Type 0 where
  pub size : ℕ
  pub slots : List ItemSlot

abbrev pub empty_slot : ItemSlot
empty_slot = record { id = null_item_id; count = 0 }

unfoldable pub init : ℕ → Inventory
init size = record { size = size; slots = replicate size empty_slot }

-- `slots[i]`, at an index that `slotIndexIsValid` has passed.
abbrev pub slot_at : Inventory → ℕ → ItemSlot
slot_at v i = get_or v.slots i empty_slot

unfoldable pub slot_index_is_valid : Inventory → ℕ → Bool
slot_index_is_valid v i = ltb i v.size && ltb i (length v.slots)

-- The first loop of `addItem`: an existing stack with room.
unfoldable pub add_to_stack : ℕ → ℕ → ℕ → List ItemSlot → Option (List ItemSlot)
add_to_stack item count limit [] = none
add_to_stack item count limit (s ∷ ss) =
    let combined = (s.count + count) % 2 ^ 16 in
    if s.id == item && leb combined limit
    then some (record s { count = combined % 2 ^ 8 } ∷ ss)
    else elim (add_to_stack item count limit ss) [ none ↦ none | some r ↦ some (s ∷ r) ]

-- The second loop of `addItem`: an empty slot.
unfoldable pub fill_empty : ℕ → ℕ → List ItemSlot → Option (List ItemSlot)
fill_empty item count [] = none
fill_empty item count (s ∷ ss) =
    if s.id == null_item_id
    then some (record { id = item; count = count } ∷ ss)
    else elim (fill_empty item count ss) [ none ↦ none | some r ↦ some (s ∷ r) ]

-- `addItem`
unfoldable pub add_item : Inventory → ℕ → ℕ → ℕ → Inventory × Bool
unfolding add_to_stack fill_empty
add_item v item count limit = elim (add_to_stack item count limit v.slots) [
  | some r ↦ (record v { slots = r }, true)
  | none ↦ elim (fill_empty item count v.slots) [
    | some r ↦ (record v { slots = r }, true)
    | none ↦ (v, false)
  ]
]

-- `itemSlot.count -= count;`, and the slot is emptied at 0.
unfoldable pub reduce_slot : ItemSlot → ℕ → ItemSlot
reduce_slot s count =
    let left = (s.count + 2 ^ 8 - count) % 2 ^ 8 in
    if left == 0 then empty_slot else record s { count = left }

-- `reduceItemCount`
unfoldable pub reduce_item_count : Inventory → ℕ → ℕ → Inventory
unfolding reduce_slot
reduce_item_count v i count = record v { slots = set v.slots i (reduce_slot (slot_at v i) count) }

-- `removeItem`
unfoldable pub remove_item : Inventory → ℕ → ℕ → Inventory × Bool
unfolding slot_index_is_valid reduce_item_count
remove_item v i count =
    if not (slot_index_is_valid v i) || (slot_at v i).count == 0
    then (v, false)
    else (reduce_item_count v i count, true)

-- `moveItem`: `temp = dest; dest = source; source = temp;`
unfoldable pub move_item : Inventory → ℕ → ℕ → Inventory × Bool
unfolding slot_index_is_valid
move_item v source dest =
    if not (slot_index_is_valid v source) || not (slot_index_is_valid v dest)
    then (v, false)
    else (let temp = slot_at v dest in
        let moved = set v.slots dest (slot_at v source) in
        (record v { slots = set moved source temp }, true))

any_slot : ℕ → List ItemSlot → Bool
any_slot item [] = false
any_slot item (s ∷ ss) = if s.id == item && ltb 0 s.count then true else any_slot item ss

-- `contains`
unfoldable pub contains : Inventory → ℕ → Bool
unfolding any_slot
contains v item = any_slot item v.slots

-- `getItemID`
unfoldable pub get_item_id : Inventory → ℕ → ℕ
unfolding slot_index_is_valid
get_item_id v i =
    if not (slot_index_is_valid v i) || (slot_at v i).count == 0
    then null_item_id
    else (slot_at v i).id

-- The sum of `getItemCount`; it cannot reach 2^64, so it is left unreduced.
unfoldable pub count_in : ℕ → List ItemSlot → ℕ
count_in item [] = 0
count_in item (s ∷ ss) = (if s.id == item then s.count else 0) + count_in item ss

-- `getItemCount`
unfoldable pub get_item_count : Inventory → ℕ → ℕ
unfolding count_in
get_item_count v item = count_in item v.slots

-- `getItem`
unfoldable pub get_item : Inventory → ℕ → ItemData → Option Item
unfolding get_item_id
get_item v i d = let id = get_item_id v i in if id == null_item_id then none else get_item_data d id

-- The search of an item's combinations.
unfoldable pub find_combination : ℕ → List ItemCombination → Option ItemCombination
find_combination other [] = none
find_combination other (c ∷ cs) =
    if c.other_item_id == other then some c else find_combination other cs

-- "Try to find a matching combination in either item's list."
unfoldable pub matching_combination : Item → Item → ℕ → ℕ → Option ItemCombination
unfolding find_combination
matching_combination source target source_id target_id =
    elim (find_combination target_id source.item_combinations) [
      | some c ↦ some c
      | none ↦ find_combination source_id target.item_combinations
    ]

-- Both slots are valid and hold something.
unfoldable pub can_combine : Inventory → ℕ → ℕ → Bool
unfolding slot_index_is_valid
can_combine v source target = not (
    not (slot_index_is_valid v source)
    || (not (slot_index_is_valid v target)
        || ((slot_at v source).count == 0 || (slot_at v target).count == 0)))

-- The overload of `combineItems` for the client, which is given the result.
unfoldable pub combine_items_client : Inventory → ℕ → ℕ → ℕ → ℕ → Inventory
unfolding can_combine reduce_item_count add_item
combine_items_client v source target result limit =
    if can_combine v source target
    then (add_item (reduce_item_count (reduce_item_count v source 1) target 1) result 1 limit).0
    else v

-- `undefined`: the result item does not exist, and its null pointer is dereferenced.
pub data Combined : Type 0 where
  nothing : Combined
  combined : ItemCombination → Inventory → Combined
  undefined : Combined

-- `combineItems` of the server.
unfoldable pub combine_items : Inventory → ℕ → ℕ → ItemData → Combined
unfolding can_combine matching_combination reduce_item_count add_item
combine_items v source target d =
    if can_combine v source target
    then elim (get_item_data d (slot_at v source).id) [
      | none ↦ nothing
      | some a ↦ elim (get_item_data d (slot_at v target).id) [
        | none ↦ nothing
        | some b ↦ elim (matching_combination a b (slot_at v source).id (slot_at v target).id) [
          | none ↦ nothing
          | some c ↦
              let reduced = reduce_item_count (reduce_item_count v source 1) target 1 in
              elim (get_item_data d c.result_item_id) [
                | none ↦ undefined
                | some r ↦ combined c (add_item reduced r.numeric_id 1 r.max_stack_size).0
              ]
        ]
      ]
    ]
    else nothing

-- `resize`: both the size and the vector.
unfoldable pub resize : Inventory → ℕ → Inventory
resize v n = record {
  size = n;
  slots = take n v.slots ++ replicate (n - length v.slots) empty_slot;
}

filled : List ItemSlot → ℕ → ℕ
filled [] n = n
filled (s ∷ ss) n = filled ss (if s.id == null_item_id then n else (n + 1) % 2 ^ 8)

-- `getFilledSlotCount`, whose counter is a `Uint8`.
unfoldable pub get_filled_slot_count : Inventory → ℕ
unfolding filled
get_filled_slot_count v = filled v.slots 0
