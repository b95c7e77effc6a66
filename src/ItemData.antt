-- ===== src/ItemData.antt =====
-- Source/SharedLib/Simulation/Private/ItemData/Item.cpp and ItemDataBase.cpp, and
-- Source/ServerLib/Simulation/Private/ItemData/ItemData.cpp. A pointer into `itemMap` is the key that
-- it points to (the map never erases an element). IDs and versions are 16 bit wide. What is published
-- on a signal is appended to a list.
pub mod Lookup
pub mod Create
pub mod Rename
pub mod Update
pub mod Reload
mod Tests
use amalgam_engine.Prelude.{
  ℕ, zero, suc, ◌+◌, ◌%◌, ◌^◌, Bool, true, false, ◌||◌, List, [], ◌∷◌, ◌++◌, Option, none, some,
  ltb, leb, ◌==◌, if◌then◌else◌, length,
}
use amalgam_engine.Prelude.Map.{Bytes, list_beq, lookup, insert, erase, nat_eq, bytes_eq}
use amalgam_engine.StringTools.{derive_string_id}

pub record ItemCombination : Type 0 where
  pub other_item_id : ℕ
  pub result_item_id : ℕ
  pub description : Bytes

-- Interaction types and properties are values that the item only holds.
pub record Item : Type 0 where
  pub display_name : Bytes
  pub string_id : Bytes
  pub numeric_id : ℕ
  pub icon_id : ℕ
  pub max_stack_size : ℕ
  pub description : Bytes
  pub supported_interactions : List ℕ
  pub properties : List Bytes
  pub item_combinations : List ItemCombination

abbrev pub null_item_id : ℕ
null_item_id = 0

abbrev pub max_display_name_length : ℕ
max_display_name_length = 50

abbrev pub max_string_id_length : ℕ
max_string_id_length = 20

abbrev pub max_entity_interactions : ℕ
max_entity_interactions = 64

-- `EngineItemInteractionType`
abbrev pub use_on : ℕ
use_on = 1

abbrev pub destroy : ℕ
destroy = 2

abbrev pub examine : ℕ
examine = 3

-- `std::ranges::find(list, x) != list.end()`
unfoldable pub contains : ℕ → List ℕ → Bool
contains x [] = false
contains x (y ∷ ys) = if y == x then true else contains x ys

pub add_interaction : Item → ℕ → Item × Bool
add_interaction i t =
    if length i.supported_interactions == max_entity_interactions
    then (i, false)
    else if contains t i.supported_interactions
    then (i, false)
    else (record i { supported_interactions = i.supported_interactions ++ t ∷ [] }, true)

unfoldable pub supports_interaction : Item → ℕ → Bool
supports_interaction i t =
    if t == use_on || (t == destroy || t == examine)
    then true
    else contains t i.supported_interactions

pub get_interaction_list : Item → List ℕ
get_interaction_list i = i.supported_interactions ++ use_on ∷ destroy ∷ examine ∷ []

pub get_default_interaction : Item → ℕ
get_default_interaction i = elim i.supported_interactions [ [] ↦ use_on | t ∷ ts ↦ t ]

pub get_interaction_count : Item → ℕ
get_interaction_count i = length i.supported_interactions + 3

-- `ItemDataBase` with the init scripts of the server's `ItemData`.
pub record ItemData : Type 0 where
  pub item_map : List (ℕ × Item)
  pub item_string_map : List (Bytes × ℕ)
  pub item_version_map : List (ℕ × ℕ)
  pub item_init_script_map : List (ℕ × Bytes)
  pub next_item_id : ℕ
  pub created : List ℕ
  pub updated : List ℕ

unfoldable pub init : ItemData
init = record {
  item_map = [];
  item_string_map = [];
  item_version_map = [];
  item_init_script_map = [];
  next_item_id = null_item_id + 1;
  created = [];
  updated = [];
}

-- `getItem(ItemID)`
unfoldable pub get_item : ItemData → ℕ → Option Item
get_item d id = lookup id d.item_map

-- `getItem(std::string_view)`: the stored pointer is dereferenced.
unfoldable pub get_item_by_string : ItemData → Bytes → Option Item
get_item_by_string d s = elim (lookup s d.item_string_map) [
  | none ↦ none
  | some id ↦ lookup id d.item_map
]

-- `getItemVersion`
unfoldable pub get_item_version : ItemData → ℕ → ℕ
get_item_version d id = elim (lookup id d.item_version_map) [ none ↦ 0 | some v ↦ v ]

-- `getItemInitScript`, whose default is the empty script.
unfoldable pub get_item_init_script : ItemData → ℕ → Bytes
get_item_init_script d id = elim (lookup id d.item_init_script_map) [ none ↦ [] | some s ↦ s ]

-- "Always update nextItemID to be 1 greater than the highest ID."
unfoldable pub next_id_after : ItemData → ℕ → ℕ
next_id_after d id = if leb d.next_item_id id then (id + 1) % 2 ^ 16 else d.next_item_id

-- `ItemDataBase::loadItem`
unfoldable pub load_item_base : ItemData → Item → ℕ → ItemData
unfolding next_id_after
load_item_base d ref version =
    let id = ref.numeric_id in
    let e = record d {
      item_map = insert id ref d.item_map;
      item_version_map = insert id version d.item_version_map;
      item_string_map = insert ref.string_id id d.item_string_map;
      next_item_id = next_id_after d id;
    } in
    elim (lookup id d.item_map) [
      | some old ↦ record e { updated = e.updated ++ id ∷ [] }
      | none ↦ record e { created = e.created ++ id ∷ [] }
    ]

-- `ItemData::loadItem`
unfoldable pub load_item : ItemData → Item → ℕ → Bytes → ItemData
unfolding load_item_base
load_item d ref version script =
    let e = load_item_base d ref version in
    record e { item_init_script_map = insert ref.numeric_id script e.item_init_script_map }

-- "If no string ID was given, derive it from displayName."
unfoldable pub work_string_id : Item → Bytes
work_string_id ref =
    if list_beq ref.string_id [] then derive_string_id ref.display_name else ref.string_id

-- "If referenceItem doesn't have a desired ID, use the next sequential ID."
unfoldable pub new_item_id : ItemData → Item → ℕ
new_item_id d ref = if ref.numeric_id == null_item_id then d.next_item_id else ref.numeric_id

-- The part of `createItem` behind its checks.
unfoldable pub store_new_item : ItemData → Item → Bytes → ItemData
unfolding work_string_id new_item_id next_id_after
store_new_item d ref script =
    let id = new_item_id d ref in
    let s = work_string_id ref in
    record d {
      item_map = insert id (record ref { string_id = s; numeric_id = id }) d.item_map;
      item_string_map = insert s id d.item_string_map;
      item_version_map = insert id 0 d.item_version_map;
      item_init_script_map = insert id script d.item_init_script_map;
      next_item_id = next_id_after d id;
      created = d.created ++ id ∷ [];
    }

-- `createItem`: `none` is the returned null pointer, which leaves the maps as they were.
unfoldable pub create_item : ItemData → Item → Bytes → Option ItemData
unfolding work_string_id store_new_item
create_item d ref script = elim (lookup ref.numeric_id d.item_map) [
  | some taken ↦ none
  | none ↦
      if ltb max_display_name_length (length ref.display_name)
      then none
      else if ltb max_string_id_length (length (work_string_id ref))
      then none
      else elim (lookup (work_string_id ref) d.item_string_map) [
        | some taken ↦ none
        | none ↦ some (store_new_item d ref script)
      ]
]

-- The part of `updateItem` behind its checks, with the string map as the checks left it.
unfoldable pub store_item : ItemData → List (Bytes × ℕ) → Item → Bytes → ItemData
unfolding work_string_id get_item_version
store_item d strings ref script =
    let id = ref.numeric_id in
    record d {
      item_map = insert id (record ref { string_id = work_string_id ref }) d.item_map;
      item_string_map = strings;
      item_init_script_map = insert id script d.item_init_script_map;
      item_version_map = insert id ((get_item_version d id + 1) % 2 ^ 16) d.item_version_map;
      updated = d.updated ++ id ∷ [];
    }

-- `updateItem`
unfoldable pub update_item : ItemData → Item → Bytes → Option ItemData
unfolding work_string_id store_item
update_item d ref script = elim (lookup ref.numeric_id d.item_map) [
  | none ↦ none
  | some item ↦
      if ltb max_display_name_length (length ref.display_name)
      then none
      else if ltb max_string_id_length (length (work_string_id ref))
      then none
      else if list_beq (work_string_id ref) item.string_id
      then some (store_item d d.item_string_map ref script)
      else elim (lookup (work_string_id ref) d.item_string_map) [
        | some taken ↦ none
        | none ↦ some (
            store_item d
              (erase item.string_id (insert (work_string_id ref) ref.numeric_id d.item_string_map))
              ref script)
      ]
]
