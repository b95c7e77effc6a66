-- ===== src/Inventory/Tests.antt =====
-- Instances of the theorems on inventories.
use amalgam_engine.Prelude.{
  ℕ, ◌+◌, ◌^◌, ◌<◌, ◌≡◌, ◌≢◌, refl, false, ◌&&◌, [], ◌∷◌, none, some, arith, ◌==◌, if◌then◌else◌,
}
use amalgam_engine.Prelude.Map.{lookup, insert, list_beq, nat_eq, bytes_eq}
use amalgam_engine.ItemData.{
  Item, ItemData, ItemCombination, null_item_id, init as init_data, get_item as get_item_data,
  load_item,
}
use amalgam_engine.ItemData.Lookup
use amalgam_engine.ItemData.Reload.{load_item-IsValid}
use amalgam_engine.Inventory.{
  Inventory, slot_at, add_item, remove_item, reduce_item_count, combine_items, combine_items_client,
  combined, get_item_count,
}
use amalgam_engine.Inventory.Stacks.{SlotOk, IsValid}
use amalgam_engine.Inventory.Adding.{Adds, add_item-Adds}
use amalgam_engine.Inventory.Removing.{Removes, remove_item-Removes}
use amalgam_engine.Inventory.Combine.{combine_items_replicates, combine_items_client_counts}

-- Three of item 7, and one of item 8.
abbrev two_items : Inventory
two_items = record {
  size = 2;
  slots = record { id = 7; count = 3 } ∷ record { id = 8; count = 1 } ∷ [];
}

filled_slot :
    (id count : ℕ)
    → 0 < id
    → (0 < count) × (count < 2 ^ 8)
    → SlotOk (record { id = id; count = count })
filled_slot id count a b = record {
  byte = omega arith;
  null_empty = λ e. absurd (omega arith);
  empty_null = λ e. absurd (omega arith);
}

two_items-IsValid : IsValid two_items
two_items-IsValid = record {
  sized = refl;
  small = omega arith;
  slots_ok = (
    filled_slot 7 3 (omega arith) (omega arith, omega arith),
    (filled_slot 8 1 (omega arith) (omega arith, omega arith), tt),
  );
}

add_item-Adds_example : Adds two_items 7 2 (add_item two_items 7 2 5)
add_item-Adds_example =
    add_item-Adds two_items 7 2 5 two_items-IsValid (λ e. absurd (omega arith)) (omega arith)
      (omega arith) (omega arith)

full_for_nine : (add_item two_items 9 1 5).1 ≡ false
unfolding add_item
full_for_nine = refl

remove_item-Removes_example : Removes two_items 0 2 (remove_item two_items 0 2)
remove_item-Removes_example =
    remove_item-Removes two_items 0 2 two_items-IsValid (omega arith) (omega arith) (omega arith)

combine_items_client_counts_example :
    let reduced = reduce_item_count (reduce_item_count two_items 0 1) 1 1 in
    let added = (add_item reduced 9 1 5).1 in
    let w = combine_items_client two_items 0 1 9 5 in
    IsValid w
    × ((j : ℕ)
        → j ≢ null_item_id
        → get_item_count w j
            + (if (slot_at two_items 0).id == j then 1 else 0)
            + (if (slot_at two_items 1).id == j then 1 else 0)
          ≡ get_item_count two_items j + (if added && j == 9 then 1 else 0))
combine_items_client_counts_example =
    combine_items_client_counts two_items 0 1 9 5 two_items-IsValid (λ e. absurd (omega arith))
      (omega arith) (omega arith) (omega arith) (omega arith) (λ e. absurd (omega arith))
      (omega arith)

-- Items 7, 8 and 9, of which the first combines with the second to the third.
abbrev knife_on_log : ItemCombination
knife_on_log = record { other_item_id = 8; result_item_id = 9; description = [] }

abbrev plain : ℕ → Item
plain n = record {
  display_name = [];
  string_id = n ∷ [];
  numeric_id = n;
  icon_id = 0;
  max_stack_size = 5;
  description = [];
  supported_interactions = [];
  properties = [];
  item_combinations = [];
}

abbrev knife : Item
knife = record (plain 7) { item_combinations = knife_on_log ∷ [] }

abbrev with_knife : ItemData
with_knife = load_item init_data knife 0 []

abbrev with_log : ItemData
with_log = load_item with_knife (plain 8) 0 []

abbrev workshop : ItemData
workshop = load_item with_log (plain 9) 0 []

knife_ids_free :
    (get_item_data init_data 7 ≡ none) × (lookup (7 ∷ []) init_data.item_string_map ≡ none)
unfolding get_item_data init_data lookup
knife_ids_free = (refl, refl)

log_ids_free :
    (get_item_data with_knife 8 ≡ none) × (lookup (8 ∷ []) with_knife.item_string_map ≡ none)
unfolding get_item_data init_data lookup load_item insert list_beq
log_ids_free = (refl, refl)

result_ids_free :
    (get_item_data with_log 9 ≡ none) × (lookup (9 ∷ []) with_log.item_string_map ≡ none)
unfolding get_item_data init_data lookup load_item insert list_beq
result_ids_free = (refl, refl)

workshop-IsValid : Lookup.IsValid workshop
workshop-IsValid =
    load_item-IsValid with_log (plain 9) 0 []
      (load_item-IsValid with_knife (plain 8) 0 []
        (load_item-IsValid init_data knife 0 [] Lookup.init-IsValid knife_ids_free.0
          knife_ids_free.1 (omega arith))
        log_ids_free.0 log_ids_free.1 (omega arith))
      result_ids_free.0 result_ids_free.1 (omega arith)

knife_combines : (w : Inventory) × (combine_items two_items 0 1 workshop ≡ combined knife_on_log w)
unfolding combine_items get_item_data init_data lookup load_item add_item reduce_item_count insert
    list_beq
knife_combines = (_, refl)

combine_items_replicates_example :
    (r : Item) × (get_item_data workshop 9 ≡ some r)
    × (knife_combines.0 ≡ combine_items_client two_items 0 1 9 r.max_stack_size)
combine_items_replicates_example =
    combine_items_replicates two_items (knife_combines.0) 0 1 workshop knife_on_log workshop-IsValid
      (knife_combines.1)
