-- ===== src/ItemData/Tests.antt =====
-- Instances of the theorems on the item database.
use amalgam_engine.Prelude.{◌+◌, ◌^◌, ◌<◌, ◌≡◌, refl, [], ◌∷◌, some, arith}
use amalgam_engine.Prelude.Map.{list_beq, lookup, insert, nat_eq, bytes_eq}
use amalgam_engine.StringTools.{derive_string_id}
use amalgam_engine.ItemData.{
  Item, ItemData, init, get_item, work_string_id, new_item_id, store_new_item, create_item,
  update_item,
}
use amalgam_engine.ItemData.Lookup.{IsValid, init-IsValid}
use amalgam_engine.ItemData.Create.{Creates, create_item-Creates}
use amalgam_engine.ItemData.Update.{Updates, update_item-Updates}

-- An item named "Oak Log" that has no IDs yet.
abbrev oak_log : Item
oak_log = record {
  display_name = b'O' ∷ b'a' ∷ b'k' ∷ b' ' ∷ b'L' ∷ b'o' ∷ b'g' ∷ [];
  string_id = [];
  numeric_id = 0;
  icon_id = 0;
  max_stack_size = 5;
  description = [];
  supported_interactions = [];
  properties = [];
  item_combinations = [];
}

abbrev stocked : ItemData
stocked = store_new_item init oak_log []

oak_log_created : create_item init oak_log [] ≡ some stocked
unfolding create_item init lookup store_new_item work_string_id derive_string_id list_beq
oak_log_created = refl

oak_log_id_fits : new_item_id init oak_log + 1 < 2 ^ 16
unfolding new_item_id init
oak_log_id_fits = omega arith

create_item-Creates_example : Creates init stocked oak_log
create_item-Creates_example =
    create_item-Creates init oak_log [] init-IsValid oak_log_id_fits oak_log_created

stocked-IsValid : IsValid stocked
stocked-IsValid = create_item-Creates_example.valid

-- Its ID is taken now.
abbrev second_log : Item
second_log = record oak_log { numeric_id = 1 }

-- The item under a new display name, from which its string ID follows.
abbrev elm_log : Item
elm_log = record second_log { display_name = b'E' ∷ b'l' ∷ b'm' ∷ b' ' ∷ b'L' ∷ b'o' ∷ b'g' ∷ [] }

elm_log_updated : (e : ItemData) × (update_item stocked elm_log [] ≡ some e)
unfolding update_item store_new_item work_string_id derive_string_id new_item_id init lookup insert
    list_beq
elm_log_updated = (_, refl)

update_item-Updates_example :
    (item : Item) × (get_item stocked 1 ≡ some item)
    × Updates stocked (elm_log_updated.0) elm_log item
update_item-Updates_example =
    update_item-Updates stocked elm_log [] stocked-IsValid (elm_log_updated.1)
