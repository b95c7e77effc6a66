-- ===== src/ItemData/Reload.antt =====
-- `loadItem`, which the server calls for saved items and the client for each definition it receives.
use amalgam_engine.Prelude.{
  ℕ, ◌+◌, ◌^◌, ◌<◌, ◌≡◌, ◌≢◌, refl, sym, ◌∙◌, ap, subst, ◌++◌, [], ◌∷◌, none, some, arith,
}
use amalgam_engine.Prelude.Map.{
  Bytes, lookup, insert, nat_eq, bytes_eq, lookup-insert_self, lookup-insert_ne,
}
use amalgam_engine.ItemData.{
  Item, ItemData, get_item, get_item_by_string, next_id_after, load_item_base, load_item,
}
use amalgam_engine.ItemData.Create.{next_id_after_bound}
use amalgam_engine.ItemData.Lookup.{
  IsValid, some-eq, stored_keyed, stored_below, stored_complete, stored_sound,
}

-- Loading an item whose two IDs are new keeps the database valid, if the ID is not the last number.
pub load_item-IsValid :
    (d : ItemData) (ref : Item) (version : ℕ) (script : Bytes)
    → IsValid d
    → get_item d ref.numeric_id ≡ none
    → lookup ref.string_id d.item_string_map ≡ none
    → ref.numeric_id + 1 < 2 ^ 16
    → IsValid (load_item d ref version script)
unfolding load_item get_item
load_item-IsValid d ref version script v id_free string_free fits =
    let id = ref.numeric_id in
    let b = next_id_after_bound d id fits in
    subst IsValid loaded (record {
      keyed = stored_keyed d v id ref _ refl id_free string_free b;
      below = stored_below d v id ref _ refl id_free string_free b;
      sound = stored_sound d v id ref _ refl id_free string_free b;
      complete = stored_complete d v id ref _ refl id_free string_free b;
    })
  where
    first_load : ItemData
    first_load = record {
      item_map = insert ref.numeric_id ref d.item_map;
      item_string_map = insert ref.string_id ref.numeric_id d.item_string_map;
      item_version_map = insert ref.numeric_id version d.item_version_map;
      item_init_script_map = insert ref.numeric_id script d.item_init_script_map;
      next_item_id = next_id_after d ref.numeric_id;
      created = d.created ++ ref.numeric_id ∷ [];
      updated = d.updated;
    }

    loaded : first_load ≡ load_item d ref version script
    loaded = ground arith

-- Loading a definition of an item that is already there under another string ID leaves the old
-- string ID in the index: it still leads to the item, which does not bear it any more, so a valid
-- database becomes invalid.
pub load_item_stale :
    (d : ItemData) (ref old : Item) (version : ℕ)
    → IsValid d
    → get_item d ref.numeric_id ≡ some old
    → old.string_id ≢ ref.string_id
    → (get_item_by_string (load_item_base d ref version) old.string_id ≡ some ref)
      × ¬ IsValid (load_item_base d ref version)
unfolding load_item_base get_item get_item_by_string
load_item_stale d ref old version v present ne =
    subst (λ e. (get_item_by_string e old.string_id ≡ some ref) × ¬ IsValid e) reloaded
      (stale, λ w. broken w.sound)
  where
    again : ItemData
    again = record {
      item_map = insert ref.numeric_id ref d.item_map;
      item_string_map = insert ref.string_id ref.numeric_id d.item_string_map;
      item_version_map = insert ref.numeric_id version d.item_version_map;
      item_init_script_map = d.item_init_script_map;
      next_item_id = next_id_after d ref.numeric_id;
      created = d.created;
      updated = d.updated ++ ref.numeric_id ∷ [];
    }

    reloaded : again ≡ load_item_base d ref version
    reloaded = ground arith

    index :
        lookup old.string_id (insert ref.string_id ref.numeric_id d.item_string_map)
        ≡ some ref.numeric_id
    index =
        lookup-insert_ne ref.string_id old.string_id ref.numeric_id d.item_string_map
          (λ q. ne (sym q))
        ∙ v.complete ref.numeric_id old present

    stale : get_item_by_string again old.string_id ≡ some ref
    stale = rw (get_item_by_string, index) (lookup-insert_self ref.numeric_id ref d.item_map)

    broken :
        ((s : Bytes) (k : ℕ)
          → lookup s (insert ref.string_id ref.numeric_id d.item_string_map) ≡ some k
          → (i : Item) × (lookup k (insert ref.numeric_id ref d.item_map) ≡ some i)
            × (i.string_id ≡ s))
        → ⊥
    broken sound =
        let (j, f, q) = sound old.string_id ref.numeric_id index in
        ne (
          sym q
          ∙ ap (λ (x : Item). x.string_id)
              (some-eq (sym f ∙ lookup-insert_self ref.numeric_id ref d.item_map)))
