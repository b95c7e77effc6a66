-- ===== src/Inventory/Adding.antt =====
-- What `addItem` does to the number of each item.
use amalgam_engine.Prelude.{
  ℕ, ◌+◌, ◌^◌, ◌≤◌, ◌<◌, ◌≡◌, ◌≢◌, refl, sym, ◌∙◌, subst, inl, inr, Bool, true, false, ◌&&◌, List,
  [], ◌∷◌, none, some, ◌==◌, if◌then◌else◌, arith, Option-cases,
}
use amalgam_engine.ItemData.{null_item_id}
use amalgam_engine.Inventory.{
  ItemSlot, Inventory, add_to_stack, fill_empty, add_item, get_item_count,
}
use amalgam_engine.Inventory.Stacks.{
  SlotsOk, IsValid, Stored, add_to_stack-Stored, fill_empty-Stored,
}

-- What `addItem` promises.
pub record Adds (v : Inventory) (item count : ℕ) (r : Inventory × Bool) : Type 0 where
  pub valid : IsValid r.0
  pub same_size : r.0.size ≡ v.size
  pub counts :
      (j : ℕ)
      → j ≢ null_item_id
      → get_item_count r.0 j ≡ get_item_count v j + (if r.1 && j == item then count else 0)
  pub unchanged : r.1 ≡ false → r.0 ≡ v

-- Adding a positive number of a real item to a valid inventory keeps it valid. On success the number
-- of that item grows by exactly as many and no other number changes; on failure nothing changes.
pub add_item-Adds :
    (v : Inventory) (item count limit : ℕ)
    → IsValid v
    → item ≢ null_item_id
    → 0 < count
    → count < 2 ^ 8
    → limit < 2 ^ 8
    → Adds v item count (add_item v item count limit)
unfolding add_item get_item_count
add_item-Adds v item count limit w real positive byte limit_byte =
    elim (Option-cases (add_to_stack item count limit v.slots)) [
      | inr (r, e) ↦ subst (Adds v item count) (first r e) (
          stored r (
            add_to_stack-Stored item count limit real positive byte limit_byte v.slots w.slots_ok
              e))
      | inl e ↦ elim (Option-cases (fill_empty item count v.slots)) [
        | inr (r, f) ↦ subst (Adds v item count) (second e r f) (
            stored r (
              fill_empty-Stored item count limit real positive byte limit_byte v.slots w.slots_ok
                f))
        | inl f ↦ subst (Adds v item count) (neither e f) (record {
          valid = w;
          same_size = refl;
          counts = λ j ne. omega arith;
          unchanged = λ q. refl;
        })
      ]
    ]
  where
    first :
        (r : List ItemSlot)
        → add_to_stack item count limit v.slots ≡ some r
        → ◌≡◌ {A = Inventory × Bool} (record v { slots = r }, true) (add_item v item count limit)
    first r e = ground arith

    second :
        add_to_stack item count limit v.slots ≡ none
        → (r : List ItemSlot) → fill_empty item count v.slots ≡ some r
        → ◌≡◌ {A = Inventory × Bool} (record v { slots = r }, true) (add_item v item count limit)
    second e r f = ground arith

    neither :
        add_to_stack item count limit v.slots ≡ none
        → fill_empty item count v.slots ≡ none
        → ◌≡◌ {A = Inventory × Bool} (v, false) (add_item v item count limit)
    neither e f = ground arith

    stored :
        (r : List ItemSlot)
        → Stored v.slots r item count
        → Adds v item count (record v { slots = r }, true)
    stored r s = record {
      valid = record { sized = w.sized ∙ sym s.same_length; small = w.small; slots_ok = s.ok };
      same_size = refl;
      counts = s.counts;
      unchanged = λ q. absurd (cc);
    }

-- A stack of the item with room for more of it.
abbrev pub HasRoom : ℕ → ℕ → ℕ → ItemSlot → Type 0
HasRoom item count limit s = (s.id ≡ item) × (s.count + count ≤ limit)

abbrev pub NoPlace : ℕ → ℕ → ℕ → List ItemSlot → Type 0
NoPlace item count limit [] = Unit {0}
NoPlace item count limit (s ∷ ss) =
    (s.id ≢ null_item_id) × ¬ HasRoom item count limit s × NoPlace item count limit ss

NoStack : ℕ → ℕ → ℕ → List ItemSlot → Type 0
NoStack item count limit [] = Unit {0}
NoStack item count limit (s ∷ ss) = ¬ HasRoom item count limit s × NoStack item count limit ss

add_to_stack-none :
    (item count limit : ℕ) (ss : List ItemSlot)
    → SlotsOk ss
    → count < 2 ^ 8
    → add_to_stack item count limit ss ≡ none
    → NoStack item count limit ss
unfolding add_to_stack NoStack
add_to_stack-none item count limit [] h b e = tt
add_to_stack-none item count limit (s ∷ ss) (h, hs) b e =
    (λ room. full h.byte room.0 room.1, add_to_stack-none item count limit ss hs b rest)
  where
    rest : add_to_stack item count limit ss ≡ none
    rest = ground arith

    full : s.count < 2 ^ 8 → s.id ≡ item → s.count + count ≤ limit → ⊥
    full sb q r = ground arith

fill_empty-none :
    (item count limit : ℕ) (ss : List ItemSlot)
    → fill_empty item count ss ≡ none
    → NoStack item count limit ss
    → NoPlace item count limit ss
unfolding fill_empty NoStack
fill_empty-none item count limit [] e n = tt
fill_empty-none item count limit (s ∷ ss) e (a, n) =
    (λ z. taken z, a, fill_empty-none item count limit ss rest n)
  where
    rest : fill_empty item count ss ≡ none
    rest = ground arith

    taken : s.id ≡ null_item_id → ⊥
    taken z = ground arith

-- `addItem` fails on a valid inventory only when there is no place: no slot is empty, and no stack
-- of the item has room for that many more.
pub add_item_full :
    (v : Inventory) (item count limit : ℕ)
    → IsValid v
    → count < 2 ^ 8
    → (add_item v item count limit).1 ≡ false
    → NoPlace item count limit v.slots
unfolding add_item
add_item_full v item count limit w b e =
    fill_empty-none item count limit v.slots second
      (add_to_stack-none item count limit v.slots w.slots_ok b first)
  where
    first : add_to_stack item count limit v.slots ≡ none
    first = ground arith

    second : fill_empty item count v.slots ≡ none
    second = ground arith
