-- ===== src/ItemData/Create.antt =====
-- `ItemData::createItem`.
use amalgam_engine.Prelude.{
  ℕ, ◌+◌, ◌^◌, ◌≤◌, ◌<◌, ◌≡◌, ◌≢◌, refl, subst, inl, inr, ◌⊎◌, none, some, arith, ◌==◌, length,
  Bool-cases, Option-cases,
}
use amalgam_engine.Prelude.Map.{
  Bytes, lookup, nat_eq, bytes_eq, lookup-insert_self, lookup-insert_ne,
}
use amalgam_engine.ItemData.{
  Item, ItemData, null_item_id, max_display_name_length, max_string_id_length, get_item,
  get_item_by_string, get_item_version, next_id_after, work_string_id, new_item_id, store_new_item,
  create_item,
}
use amalgam_engine.ItemData.Lookup.{
  IsValid, stored_keyed, stored_below, stored_complete, stored_sound,
}

-- The item that `createItem` stores.
abbrev pub created_item : ItemData → Item → Item
created_item d ref = record ref { string_id = work_string_id ref; numeric_id = new_item_id d ref }

-- The checks of `createItem`, read off a success.
pub create_item_checks :
    (d : ItemData) (ref : Item) (script : Bytes) {e : ItemData}
    → create_item d ref script ≡ some e
    → (lookup ref.numeric_id d.item_map ≡ none)
      × (length ref.display_name ≤ max_display_name_length)
      × (length (work_string_id ref) ≤ max_string_id_length)
      × (lookup (work_string_id ref) d.item_string_map ≡ none)
      × (store_new_item d ref script ≡ e)
unfolding create_item
create_item_checks d ref script h = ground arith

new_item_id-free :
    (d : ItemData) (ref : Item)
    → IsValid d
    → lookup ref.numeric_id d.item_map ≡ none
    → lookup (new_item_id d ref) d.item_map ≡ none
unfolding new_item_id
new_item_id-free d ref v h = elim (Bool-cases (ref.numeric_id == null_item_id)) [
  | inl unset ↦ rw unset (next_free (Option-cases (lookup d.next_item_id d.item_map)))
  | inr given ↦ rw given h
]
  where
    next_free :
        (lookup d.next_item_id d.item_map ≡ none)
          ⊎ ((i : Item) × (lookup d.next_item_id d.item_map ≡ some i))
        → lookup d.next_item_id d.item_map ≡ none
    next_free (inl e) = e
    next_free (inr (i, e)) = absurd (let b = v.below d.next_item_id i e in omega arith)

pub next_id_after_bound :
    (d : ItemData) (id : ℕ)
    → id + 1 < 2 ^ 16
    → (d.next_item_id ≤ next_id_after d id) × (id < next_id_after d id)
unfolding next_id_after
next_id_after_bound d id h = ground arith

-- What creating an item achieves.
pub record Creates (d e : ItemData) (ref : Item) : Type 0 where
  pub valid : IsValid e
  pub by_id : get_item e (new_item_id d ref) ≡ some (created_item d ref)
  pub by_string : get_item_by_string e (work_string_id ref) ≡ some (created_item d ref)
  pub version : get_item_version e (new_item_id d ref) ≡ 0
  pub others : (k : ℕ) → new_item_id d ref ≢ k → get_item e k ≡ get_item d k
  pub was_free : get_item d (new_item_id d ref) ≡ none

-- When `createItem` succeeds on a valid database and the new ID is not the last 16-bit number, the
-- ID was free, the item is found under its numeric and its string ID at version 0, no other item
-- changes, and the database stays valid.
pub create_item-Creates :
    (d : ItemData) (ref : Item) (script : Bytes) {e : ItemData}
    → IsValid d
    → new_item_id d ref + 1 < 2 ^ 16
    → create_item d ref script ≡ some e
    → Creates d e ref
unfolding get_item get_item_by_string get_item_version
create_item-Creates d ref script {e} v fits h =
    let (numeric, _, _, string_free, eq) = create_item_checks d ref script h in
    subst (λ t. Creates d t ref) eq (stored (new_item_id-free d ref v numeric) string_free)
  where
    stored :
        lookup (new_item_id d ref) d.item_map ≡ none
        → lookup (work_string_id ref) d.item_string_map ≡ none
        → Creates d (store_new_item d ref script) ref
    stored id_free string_free =
        let id = new_item_id d ref in
        let i = created_item d ref in
        let next = next_id_after d id in
        let b = next_id_after_bound d id fits in
        record {
          valid =
              unfold store_new_item in
              (record {
                keyed = stored_keyed d v id i next refl id_free string_free b;
                below = stored_below d v id i next refl id_free string_free b;
                sound = stored_sound d v id i next refl id_free string_free b;
                complete = stored_complete d v id i next refl id_free string_free b;
              });
          by_id = unfold store_new_item in lookup-insert_self id i d.item_map;
          by_string =
              unfold store_new_item in
              rw (get_item_by_string, lookup-insert_self (work_string_id ref) id d.item_string_map)
                (lookup-insert_self id i d.item_map);
          version =
              unfold store_new_item in
              rw (get_item_version, lookup-insert_self id 0 d.item_version_map);
          others = λ k ne. unfold store_new_item in lookup-insert_ne id k i d.item_map ne;
          was_free = id_free;
        }

-- `createItem` stores nothing under a numeric or string ID that is taken, under a display name of
-- more than 50 bytes, or under a string ID of more than 20.
pub create_item_refused :
    (d : ItemData) (ref : Item) (script : Bytes)
    → (((i : Item) × (get_item d ref.numeric_id ≡ some i))
        ⊎ ((k : ℕ) × (lookup (work_string_id ref) d.item_string_map ≡ some k)))
      ⊎ ((max_display_name_length < length ref.display_name)
          ⊎ (max_string_id_length < length (work_string_id ref)))
    → create_item d ref script ≡ none
unfolding create_item get_item
create_item_refused d ref script h = ground arith
