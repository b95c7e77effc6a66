-- ===== src/ItemData/Lookup.antt =====
-- The two indices of the item database, by numeric and by string ID, agree.
use native.Mathlib.Decide.{ℕ_discrete}
use amalgam_engine.Prelude.{
  ℕ, ◌≤◌, ◌<◌, ◌≡◌, ◌≢◌, ap, sym, ◌∙◌, subst, inl, inr, ◌⊎◌, List, none, some, arith,
}
use amalgam_engine.Prelude.Map.{
  Bytes, lookup, insert, nat_eq, bytes_eq, lookup-insert_self, lookup-insert_ne, beq_cases,
}
use amalgam_engine.ItemData.{Item, ItemData, init}

-- Each item is stored under its own ID, which is below the next one; each string ID leads to an item
-- that bears it, and each item is found under its string ID.
pub record IsValid (d : ItemData) : Type 0 where
  pub keyed : (k : ℕ) (i : Item) → lookup k d.item_map ≡ some i → i.numeric_id ≡ k
  pub below : (k : ℕ) (i : Item) → lookup k d.item_map ≡ some i → k < d.next_item_id
  pub sound :
      (s : Bytes) (k : ℕ)
      → lookup s d.item_string_map ≡ some k
      → (i : Item) × (lookup k d.item_map ≡ some i) × (i.string_id ≡ s)
  pub complete :
      (k : ℕ) (i : Item)
      → lookup k d.item_map ≡ some i
      → lookup i.string_id d.item_string_map ≡ some k

pub init-IsValid : IsValid init
unfolding init lookup
init-IsValid = record {
  keyed = λ k i e. cc;
  below = λ k i e. cc;
  sound = λ s k e. cc;
  complete = λ k i e. cc;
}

pub some-eq {ℓ} : {A : Type ℓ} {a b : A} → some a ≡ some b → a ≡ b
some-eq e = cc

-- Storing an item under an ID and a string ID that are both free.
module _ (d : ItemData) (v : IsValid d) (id : ℕ) (i : Item) (next : ℕ) (numeric : i.numeric_id ≡ id)
    (id_free : lookup id d.item_map ≡ none)
    (string_free : lookup i.string_id d.item_string_map ≡ none)
    (bound : (d.next_item_id ≤ next) × (id < next)) where
  abbrev pub items' : List (ℕ × Item)
  items' = insert id i d.item_map

  abbrev pub strings' : List (Bytes × ℕ)
  strings' = insert i.string_id id d.item_string_map

  -- What a lookup in the new item map finds.
  pub found :
      (k : ℕ) (j : Item)
      → lookup k items' ≡ some j
      → ((k ≡ id) × (j ≡ i)) ⊎ ((id ≢ k) × (lookup k d.item_map ≡ some j))
  found k j e = elim (ℕ_discrete id k) [
    | yes same ↦ inl (
      sym same,
      some-eq (
          sym (subst (λ t. lookup t items' ≡ some j) (sym same) e)
          ∙ lookup-insert_self id i d.item_map),
    )
    | no other ↦ inr (other, sym (lookup-insert_ne id k i d.item_map other) ∙ e)
  ]

  pub string_ne : (k : ℕ) (j : Item) → lookup k d.item_map ≡ some j → i.string_id ≢ j.string_id
  string_ne k j e q =
      let a = v.complete k j e in
      let b = subst (λ t. lookup t d.item_string_map ≡ none) q string_free in cc (a, b)

  pub stored_keyed : (k : ℕ) (j : Item) → lookup k items' ≡ some j → j.numeric_id ≡ k
  stored_keyed k j e = elim (found k j e) [
    | inl p ↦ ap (λ (x : Item). x.numeric_id) (p.1) ∙ numeric ∙ sym (p.0)
    | inr p ↦ v.keyed k j p.1
  ]

  pub stored_below : (k : ℕ) (j : Item) → lookup k items' ≡ some j → k < next
  stored_below k j e = elim (found k j e) [
    | inl p ↦ omega arith
    | inr p ↦ let h = v.below k j p.1 in omega arith
  ]

  pub stored_complete :
      (k : ℕ) (j : Item) → lookup k items' ≡ some j → lookup j.string_id strings' ≡ some k
  stored_complete k j e = elim (found k j e) [
    | inl p ↦
        ap (λ (x : Item). lookup x.string_id strings') (p.1)
        ∙ lookup-insert_self i.string_id id d.item_string_map
        ∙ ap some (sym (p.0))
    | inr p ↦
        lookup-insert_ne i.string_id j.string_id id d.item_string_map (string_ne k j p.1)
        ∙ v.complete k j p.1
  ]

  pub stored_sound :
      (s : Bytes) (k : ℕ)
      → lookup s strings' ≡ some k
      → (j : Item) × (lookup k items' ≡ some j) × (j.string_id ≡ s)
  stored_sound s k e = elim (beq_cases i.string_id s) [
    | inl p ↦ (
      i,
      subst (λ t. lookup t items' ≡ some i) (hit p.1) (lookup-insert_self id i d.item_map),
      p.1,
    )
    | inr p ↦
        old p.1 (v.sound s k (sym (lookup-insert_ne i.string_id s id d.item_string_map p.1) ∙ e))
  ]
    where
      hit : i.string_id ≡ s → id ≡ k
      hit q = some-eq (
          sym (lookup-insert_self i.string_id id d.item_string_map)
          ∙ ap (λ t. lookup t strings') q
          ∙ e)

      old :
          i.string_id ≢ s
          → (j : Item) × (lookup k d.item_map ≡ some j) × (j.string_id ≡ s)
          → (j : Item) × (lookup k items' ≡ some j) × (j.string_id ≡ s)
      old ne (j, f, q) = (j, lookup-insert_ne id k i d.item_map (apart f) ∙ f, q)
        where
          apart : lookup k d.item_map ≡ some j → id ≢ k
          apart g w = let b = subst (λ t. lookup t d.item_map ≡ none) w id_free in cc (g, b)
