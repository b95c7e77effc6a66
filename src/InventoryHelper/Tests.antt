-- ===== src/InventoryHelper/Tests.antt =====
-- Instances of the theorems on removing items across slots.
use amalgam_engine.Prelude.{◌≤◌, ◌≡◌, ◌≢◌, refl, true, [], ◌∷◌, some, arith}
use amalgam_engine.Prelude.Map.{Bytes, lookup, insert, list_beq, nat_eq, bytes_eq}
use amalgam_engine.ItemData.{Item, ItemData, init, load_item, get_item_by_string}
use amalgam_engine.Inventory.{Inventory, get_item_count}
use amalgam_engine.Inventory.Stacks.{SlotOk, IsValid}
use amalgam_engine.InventoryHelper.{Entity, RemoveResult, remove_item_by_id}
use amalgam_engine.InventoryHelper.Slots.{Removed}
use amalgam_engine.InventoryHelper.Removal.{remove_item_by_id-Removed}

abbrev coin_id : Bytes
coin_id = b'c' ∷ b'o' ∷ b'i' ∷ b'n' ∷ []

abbrev coin : Item
coin = record {
  display_name = coin_id;
  string_id = coin_id;
  numeric_id = 6;
  icon_id = 0;
  max_stack_size = 200;
  description = [];
  supported_interactions = [];
  properties = [];
  item_combinations = [];
}

abbrev mint : ItemData
mint = load_item init coin 0 []

coin_exists : get_item_by_string mint coin_id ≡ some coin
unfolding get_item_by_string load_item init lookup insert list_beq
coin_exists = refl

-- 256 coins in two stacks.
abbrev purse : Inventory
purse = record {
  size = 2;
  slots = record { id = 6; count = 128 } ∷ record { id = 6; count = 128 } ∷ [];
}

stack-SlotOk : SlotOk (record { id = 6; count = 128 })
stack-SlotOk = record {
  byte = omega arith;
  null_empty = λ e. absurd (omega arith);
  empty_null = λ e. absurd (omega arith);
}

purse-IsValid : IsValid purse
purse-IsValid = record {
  sized = refl;
  small = omega arith;
  slots_ok = (stack-SlotOk, (stack-SlotOk, tt));
}

purse_count : get_item_count purse 6 ≡ 256
unfolding get_item_count
purse_count = refl

abbrev owner : Entity
owner = record { inventory = some purse; client = some 1 }

coin_ne_null : coin.numeric_id ≢ 0
coin_ne_null e = absurd (omega arith)

enough_for_200 : 200 ≤ get_item_count purse 6
enough_for_200 = omega (arith, purse_count)

enough_for_256 : 256 ≤ get_item_count purse 6
enough_for_256 = omega (arith, purse_count)

remove_item_by_id-Removed_example :
    ((remove_item_by_id owner mint coin_id 200 true).1 ≡ RemoveResult.success)
    × ((w : Inventory) × ((remove_item_by_id owner mint coin_id 200 true).0.inventory ≡ some w)
        × Removed purse w 6 200)
remove_item_by_id-Removed_example =
    remove_item_by_id-Removed owner mint coin_id 200 true coin purse coin_exists refl purse-IsValid
      coin_ne_null enough_for_200 (omega arith)
