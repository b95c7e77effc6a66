-- ===== src/ItemData/Rename.antt =====
-- Storing an item that is there already, under a new string ID or the old one.
use native.Mathlib.Decide.{ℕ_discrete}
use amalgam_engine.Prelude.{
  ℕ, ◌+◌, ◌%◌, ◌^◌, ◌<◌, ◌≡◌, ◌≢◌, ap, sym, ◌∙◌, subst, inl, inr, ◌⊎◌, List, none, some, arith,
}
use amalgam_engine.Prelude.Map.{
  Bytes, lookup, insert, nat_eq, bytes_eq, lookup-insert_self, lookup-insert_ne, beq_cases,
}
use amalgam_engine.ItemData.{
  Item, ItemData, get_item, get_item_by_string, get_item_version, work_string_id, store_item,
}
use amalgam_engine.ItemData.Lookup.{IsValid, some-eq}

-- The item that `updateItem` stores.
abbrev pub updated_item : Item → Item
updated_item ref = record ref { string_id = work_string_id ref }

-- How the string index relates to the one before, when item `id` goes from one string ID to another.
pub record Renamed (strings strings' : List (Bytes × ℕ)) (old new : Bytes) (id : ℕ) : Type 0 where
  pub now : lookup new strings' ≡ some id
  pub kept : (s : Bytes) → s ≢ old → s ≢ new → lookup s strings' ≡ lookup s strings
  pub gone : old ≢ new → lookup old strings' ≡ none
  pub free : (s : Bytes) (k : ℕ) → lookup s strings ≡ some k → k ≢ id → s ≢ new

module _ (d : ItemData) (v : IsValid d) (ref item : Item) (script : Bytes)
    (strings' : List (Bytes × ℕ)) (present : lookup ref.numeric_id d.item_map ≡ some item)
    (r : Renamed d.item_string_map strings' item.string_id
      (work_string_id ref)
      ref.numeric_id) where
  found :
      (k : ℕ) (j : Item)
      → lookup k (insert ref.numeric_id (updated_item ref) d.item_map) ≡ some j
      → ((k ≡ ref.numeric_id) × (j ≡ updated_item ref))
        ⊎ ((ref.numeric_id ≢ k) × (lookup k d.item_map ≡ some j))
  found k j h = elim (ℕ_discrete ref.numeric_id k) [
    | yes same ↦ inl (
      sym same,
      some-eq (
          sym (
            subst (λ t. lookup t (insert ref.numeric_id (updated_item ref) d.item_map) ≡ some j)
              (sym same) h)
          ∙ lookup-insert_self ref.numeric_id (updated_item ref) d.item_map),
    )
    | no other ↦
        inr (other, sym (lookup-insert_ne ref.numeric_id k (updated_item ref) d.item_map other) ∙ h)
  ]

  -- No other item bears the old string ID.
  not_old :
      (k : ℕ) (j : Item)
      → lookup k d.item_map ≡ some j
      → ref.numeric_id ≢ k
      → j.string_id ≢ item.string_id
  not_old k j h ne q =
      let a = v.complete k j h in
      let b = v.complete ref.numeric_id item present in
      ne (some-eq (sym b ∙ ap (λ s. lookup s d.item_string_map) (sym q) ∙ a))

  update-keyed :
      (k : ℕ) (j : Item)
      → lookup k (insert ref.numeric_id (updated_item ref) d.item_map) ≡ some j
      → j.numeric_id ≡ k
  update-keyed k j h = elim (found k j h) [
    | inl p ↦ ap (λ (x : Item). x.numeric_id) (p.1) ∙ sym (p.0)
    | inr p ↦ v.keyed k j p.1
  ]

  update-below :
      (k : ℕ) (j : Item)
      → lookup k (insert ref.numeric_id (updated_item ref) d.item_map) ≡ some j
      → k < d.next_item_id
  update-below k j h = elim (found k j h) [
    | inl p ↦ let b = v.below ref.numeric_id item present in omega arith
    | inr p ↦ v.below k j p.1
  ]

  update_complete :
      (k : ℕ) (j : Item)
      → lookup k (insert ref.numeric_id (updated_item ref) d.item_map) ≡ some j
      → lookup j.string_id strings' ≡ some k
  update_complete k j h = elim (found k j h) [
    | inl p ↦ ap (λ (x : Item). lookup x.string_id strings') (p.1) ∙ r.now ∙ ap some (sym (p.0))
    | inr p ↦
        let c = v.complete k j p.1 in
        r.kept j.string_id (not_old k j p.1 p.0) (r.free j.string_id k c (λ q. p.0 (sym q))) ∙ c
  ]

  update_sound :
      (s : Bytes) (k : ℕ)
      → lookup s strings' ≡ some k
      → (j : Item) × (lookup k (insert ref.numeric_id (updated_item ref) d.item_map) ≡ some j)
        × (j.string_id ≡ s)
  update_sound s k h = elim (beq_cases (work_string_id ref) s) [
    | inl p ↦ (
      updated_item ref,
      subst
          (λ t.
            lookup t (insert ref.numeric_id (updated_item ref) d.item_map)
            ≡ some (updated_item ref))
          (some-eq (sym r.now ∙ ap (λ t. lookup t strings') (p.1) ∙ h))
          (lookup-insert_self ref.numeric_id (updated_item ref) d.item_map),
      p.1,
    )
    | inr p ↦ elim (beq_cases item.string_id s) [
      | inl q ↦
          absurd (contra (r.gone (λ z. p.1 (sym z ∙ q.1))) (ap (λ t. lookup t strings') (q.1) ∙ h))
      | inr q ↦ keep (sym (r.kept s (λ z. q.1 (sym z)) (λ z. p.1 (sym z))) ∙ h) (λ z. q.1 z)
    ]
  ]
    where
      contra : lookup item.string_id strings' ≡ none → lookup item.string_id strings' ≡ some k → ⊥
      contra a b = cc

      keep :
          lookup s d.item_string_map ≡ some k
          → item.string_id ≢ s
          → (j : Item) × (lookup k (insert ref.numeric_id (updated_item ref) d.item_map) ≡ some j)
            × (j.string_id ≡ s)
      keep g ne =
          let (j, f, q) = v.sound s k g in
          (j, lookup-insert_ne ref.numeric_id k (updated_item ref) d.item_map (apart j f q) ∙ f, q)
        where
          apart : (j : Item) → lookup k d.item_map ≡ some j → j.string_id ≡ s → ref.numeric_id ≢ k
          apart j f q w = ne (
              ap (λ (x : Item). x.string_id)
                (some-eq (sym present ∙ ap (λ t. lookup t d.item_map) w ∙ f))
              ∙ q)

  pub store_item-IsValid : IsValid (store_item d strings' ref script)
  unfolding store_item
  store_item-IsValid = record {
    keyed = update-keyed;
    below = update-below;
    sound = update_sound;
    complete = update_complete;
  }

  pub get_item-store_item :
      get_item (store_item d strings' ref script) ref.numeric_id ≡ some (updated_item ref)
  unfolding get_item store_item
  get_item-store_item = lookup-insert_self ref.numeric_id (updated_item ref) d.item_map

  pub get_item_by_string-store_item :
      get_item_by_string (store_item d strings' ref script) (work_string_id ref)
      ≡ some (updated_item ref)
  unfolding get_item_by_string store_item
  get_item_by_string-store_item =
      rw (get_item_by_string, r.now)
        (lookup-insert_self ref.numeric_id (updated_item ref) d.item_map)

  pub old_string_gone :
      item.string_id ≢ work_string_id ref
      → get_item_by_string (store_item d strings' ref script) item.string_id ≡ none
  unfolding get_item_by_string store_item
  old_string_gone ne = rw (get_item_by_string, r.gone ne)

  pub others-store_item :
      (k : ℕ) → ref.numeric_id ≢ k → get_item (store_item d strings' ref script) k ≡ get_item d k
  unfolding get_item store_item
  others-store_item k ne = lookup-insert_ne ref.numeric_id k (updated_item ref) d.item_map ne

  pub version-store_item :
      get_item_version (store_item d strings' ref script) ref.numeric_id
      ≡ (get_item_version d ref.numeric_id + 1) % 2 ^ 16
  unfolding store_item
  version-store_item =
      unfold get_item_version in
      rw (
        get_item_version,
        lookup-insert_self ref.numeric_id ((get_item_version d ref.numeric_id + 1) % 2 ^ 16)
            d.item_version_map,
      )
