-- ===== src/ItemData/Update.antt =====
-- `ItemData::updateItem`.
use amalgam_engine.Prelude.{
  ℕ, ◌+◌, ◌%◌, ◌^◌, ◌≡◌, ◌≢◌, refl, ap, sym, ◌∙◌, subst, inl, inr, true, false, List, none, some,
  arith, Option-cases,
}
use amalgam_engine.Prelude.Map.{
  Bytes, list_beq, lookup, insert, erase, nat_eq, bytes_eq, lookup-insert_self, lookup-insert_ne,
  lookup-erase_self, lookup-erase_ne, beq_cases,
}
use amalgam_engine.ItemData.{
  Item, ItemData, get_item, get_item_by_string, get_item_version, work_string_id, store_item,
  update_item,
}
use amalgam_engine.ItemData.Lookup.{IsValid, some-eq}
use amalgam_engine.ItemData.Rename.{
  updated_item, Renamed, store_item-IsValid, get_item-store_item, get_item_by_string-store_item,
  old_string_gone, others-store_item, version-store_item,
}

-- What a successful update achieves.
pub record Updates (d e : ItemData) (ref item : Item) : Type 0 where
  pub valid : IsValid e
  pub by_id : get_item e ref.numeric_id ≡ some (updated_item ref)
  pub by_string : get_item_by_string e (work_string_id ref) ≡ some (updated_item ref)
  pub old_string : item.string_id ≢ work_string_id ref → get_item_by_string e item.string_id ≡ none
  pub version : get_item_version e ref.numeric_id ≡ (get_item_version d ref.numeric_id + 1) % 2 ^ 16
  pub others : (k : ℕ) → ref.numeric_id ≢ k → get_item e k ≡ get_item d k

store_item-Updates :
    (d : ItemData) (v : IsValid d) (ref item : Item) (script : Bytes) (strings' : List (Bytes × ℕ))
    → lookup ref.numeric_id d.item_map ≡ some item
    → Renamed d.item_string_map strings' item.string_id (work_string_id ref) ref.numeric_id
    → Updates d (store_item d strings' ref script) ref item
store_item-Updates d v ref item script strings' p r = record {
  valid = store_item-IsValid d v ref item script strings' p r;
  by_id = get_item-store_item d v ref item script strings' p r;
  by_string = get_item_by_string-store_item d v ref item script strings' p r;
  old_string = old_string_gone d v ref item script strings' p r;
  version = version-store_item d v ref item script strings' p r;
  others = others-store_item d v ref item script strings' p r;
}

-- The string ID stays.
Renamed-same :
    (d : ItemData) (v : IsValid d) (id : ℕ) (item : Item) (new : Bytes)
    → lookup id d.item_map ≡ some item
    → new ≡ item.string_id
    → Renamed d.item_string_map d.item_string_map item.string_id new id
Renamed-same d v id item new p q = record {
  now = ap (λ s. lookup s d.item_string_map) q ∙ v.complete id item p;
  kept = λ s a b. refl;
  gone = λ ne. absurd (ne (sym q));
  free = λ s k h ne e.
      ne (some-eq (sym h ∙ ap (λ t. lookup t d.item_string_map) (e ∙ q) ∙ v.complete id item p));
}

-- The string ID changes to one that was free.
Renamed-new :
    (strings : List (Bytes × ℕ)) (id : ℕ) (old new : Bytes)
    → new ≢ old
    → lookup new strings ≡ none
    → Renamed strings (erase old (insert new id strings)) old new id
Renamed-new strings id old new ne none_yet = record {
  now =
      lookup-erase_ne old new (insert new id strings) (λ q. ne (sym q))
      ∙ lookup-insert_self new id strings;
  kept = λ s a b.
      lookup-erase_ne old s (insert new id strings) (λ q. a (sym q))
      ∙ lookup-insert_ne new s id strings (λ q. b (sym q));
  gone = λ q. lookup-erase_self old (insert new id strings);
  free = λ s k h z e. contra s k h e;
}
  where
    contra : (s : Bytes) (k : ℕ) → lookup s strings ≡ some k → s ≡ new → ⊥
    contra s k h e = let b = ap (λ t. lookup t strings) e in cc (b, h, none_yet)

-- When `updateItem` succeeds on a valid database, the item was there; it is found with the new
-- content under its numeric ID and its new string ID, a string ID that it gave up leads nowhere, its
-- version is one more modulo 2^16, no other item changes, and the database stays valid.
pub update_item-Updates :
    (d : ItemData) (ref : Item) (script : Bytes) {e : ItemData}
    → IsValid d
    → update_item d ref script ≡ some e
    → (item : Item) × (get_item d ref.numeric_id ≡ some item) × Updates d e ref item
unfolding get_item
update_item-Updates d ref script {e} v h = elim (Option-cases (lookup ref.numeric_id d.item_map)) [
  | inl missing ↦ absurd (not_missing missing h)
  | inr (item, p) ↦ (item, p, present item p)
]
  where
    not_missing : lookup ref.numeric_id d.item_map ≡ none → update_item d ref script ≡ some e → ⊥
    not_missing m q = unfold update_item in ground arith

    present : (item : Item) → lookup ref.numeric_id d.item_map ≡ some item → Updates d e ref item
    present item p = elim (beq_cases (work_string_id ref) item.string_id) [
      | inl same ↦
          subst (λ t. Updates d t ref item) (kept item p same.0)
            (store_item-Updates d v ref item script d.item_string_map p
              (Renamed-same d v ref.numeric_id item (work_string_id ref) p same.1))
      | inr new ↦
          let w = renamed item p new.0 in
          subst (λ t. Updates d t ref item) w.1
            (store_item-Updates d v ref item script _ p (
              Renamed-new d.item_string_map ref.numeric_id item.string_id (work_string_id ref) new.1
                w.0))
    ]
      where
        kept :
            (item : Item)
            → lookup ref.numeric_id d.item_map ≡ some item
            → list_beq (work_string_id ref) item.string_id ≡ true
            → store_item d d.item_string_map ref script ≡ e
        kept item p b = unfold update_item in ground arith

        renamed :
            (item : Item)
            → lookup ref.numeric_id d.item_map ≡ some item
            → list_beq (work_string_id ref) item.string_id ≡ false
            → (lookup (work_string_id ref) d.item_string_map ≡ none)
              × (store_item d
                    (erase item.string_id
                      (insert (work_string_id ref) ref.numeric_id d.item_string_map))
                    ref
                    script
                  ≡ e)
        renamed item p b = unfold update_item in ground arith
