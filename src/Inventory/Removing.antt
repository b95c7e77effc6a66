-- ===== src/Inventory/Removing.antt =====
-- What `removeItem` does to the number of each item.
use amalgam_engine.Prelude.{
  ℕ, zero, suc, ◌+◌, ◌-◌, ◌%◌, ◌^◌, ◌≤◌, ◌<◌, ◌≡◌, ◌≢◌, refl, ap, sym, ◌∙◌, inl, inr, Bool, true,
  false, not, ◌&&◌, ◌||◌, List, [], ◌∷◌, ltb, ◌==◌, if◌then◌else◌, length, get_or, set, arith,
  Bool-cases, length-set,
}
use amalgam_engine.ItemData.{null_item_id}
use amalgam_engine.Inventory.{
  ItemSlot, Inventory, empty_slot, slot_at, slot_index_is_valid, reduce_slot, reduce_item_count,
  remove_item, count_in, get_item_count,
}
use amalgam_engine.Inventory.Stacks.{SlotOk, IsValid, SlotsOk-get_or, SlotsOk-set}

-- A write changes the number of an item by what the two slots hold of it.
abbrev pub held : ℕ → ItemSlot → ℕ
held j s = if s.id == j then s.count else 0

pub count_in-set :
    (ss : List ItemSlot) (i : ℕ) (t : ItemSlot) (j : ℕ)
    → i < length ss
    → count_in j (set ss i t) + held j (get_or ss i empty_slot) ≡ count_in j ss + held j t
unfolding count_in
count_in-set [] i t j h = absurd (omega arith)
count_in-set (s ∷ ss) zero t j h = omega arith
count_in-set (s ∷ ss) (suc i) t j h = omega (arith, count_in-set ss i t j (omega arith))

-- What `removeItem` achieves where it succeeds.
pub record Removes (v : Inventory) (i count : ℕ) (r : Inventory × Bool) : Type 0 where
  pub valid : IsValid r.0
  pub success : r.1 ≡ true
  pub counts :
      (j : ℕ)
      → j ≢ null_item_id
      → get_item_count r.0 j + (if (slot_at v i).id == j then count else 0) ≡ get_item_count v j

reduce_slot-SlotOk :
    (s : ItemSlot) (count : ℕ) → SlotOk s → count ≤ s.count → SlotOk (reduce_slot s count)
unfolding reduce_slot
reduce_slot-SlotOk s count h le = elim (Bool-cases ((s.count + 2 ^ 8 - count) % 2 ^ 8 == 0)) [
  | inl gone ↦
      rw gone (record { byte = omega arith; null_empty = λ e. refl; empty_null = λ e. refl })
  | inr more ↦ rw more (record {
    byte = omega arith;
    null_empty = λ e. let z = h.null_empty e in absurd (ground arith);
    empty_null = λ e. absurd (ground arith);
  })
]

held-reduce_slot :
    (s : ItemSlot) (count j : ℕ)
    → SlotOk s
    → count ≤ s.count
    → j ≢ null_item_id
    → held j (reduce_slot s count) + (if s.id == j then count else 0) ≡ held j s
unfolding reduce_slot
held-reduce_slot s count j h le ne = let b = h.byte in ground arith

pub reduce_item_count-IsValid :
    (v : Inventory) (i count : ℕ)
    → IsValid v
    → count ≤ (slot_at v i).count
    → IsValid (reduce_item_count v i count)
unfolding reduce_item_count
reduce_item_count-IsValid v i count w le = record {
  sized = w.sized ∙ sym (length-set v.slots i (reduce_slot (slot_at v i) count));
  small = w.small;
  slots_ok =
      SlotsOk-set v.slots i _ w.slots_ok
        (reduce_slot-SlotOk (slot_at v i) count (SlotsOk-get_or v.slots i w.slots_ok) le);
}

-- Removing at most what a slot holds, from a slot that holds something, succeeds on a valid
-- inventory: the number of the slot's item falls by exactly as many, no other number changes, and
-- the inventory stays valid.
pub remove_item-Removes :
    (v : Inventory) (i count : ℕ)
    → IsValid v
    → i < length v.slots
    → 0 < (slot_at v i).count
    → count ≤ (slot_at v i).count
    → Removes v i count (remove_item v i count)
unfolding remove_item slot_index_is_valid get_item_count
remove_item-Removes v i count w lt some_left le = rw passes (record {
  valid = reduce_item_count-IsValid v i count w le;
  success = refl;
  counts = λ j ne.
      unfold reduce_item_count in
      omega (
        arith,
        count_in-set v.slots i (reduce_slot (slot_at v i) count) j lt,
        held-reduce_slot (slot_at v i) count j (SlotsOk-get_or v.slots i w.slots_ok) le ne,
      );
})
  where
    passes : (not (ltb i v.size && ltb i (length v.slots)) || (slot_at v i).count == 0) ≡ false
    passes = let e = w.sized in ground arith

-- Removing more than a slot holds, but no more than a byte can say, makes the count wrap: the slot
-- keeps its item and ends up with more of it than before.
pub remove_item_wraps :
    (v : Inventory) (i count : ℕ)
    → IsValid v
    → i < length v.slots
    → 0 < (slot_at v i).count
    → (slot_at v i).count < count
    → count < 2 ^ 8
    → ((remove_item v i count).1 ≡ true)
      × ((slot_at (remove_item v i count).0 i).id ≡ (slot_at v i).id)
      × ((slot_at (remove_item v i count).0 i).count ≡ (slot_at v i).count + 2 ^ 8 - count)
unfolding remove_item slot_index_is_valid reduce_item_count reduce_slot
remove_item_wraps v i count w lt some_left more byte =
    rw (passes, wraps)
      (
        refl,
        ap (λ (s : ItemSlot). s.id) (written _),
        ap (λ (s : ItemSlot). s.count) (written _) ∙ unwrapped,
      )
  where
    passes : (not (ltb i v.size && ltb i (length v.slots)) || (slot_at v i).count == 0) ≡ false
    passes = let e = w.sized in ground arith

    wraps : ((slot_at v i).count + 2 ^ 8 - count) % 2 ^ 8 == 0 ≡ false
    wraps = ground arith

    unwrapped : ((slot_at v i).count + 2 ^ 8 - count) % 2 ^ 8 ≡ (slot_at v i).count + 2 ^ 8 - count
    unwrapped = omega arith

    get_or-set :
        (ss : List ItemSlot) (k : ℕ) (t : ItemSlot)
        → k < length ss
        → get_or (set ss k t) k empty_slot ≡ t
    get_or-set [] k t h = absurd (omega arith)
    get_or-set (s ∷ ss) zero t h = refl
    get_or-set (s ∷ ss) (suc k) t h = get_or-set ss k t (omega arith)

    written : (t : ItemSlot) → get_or (set v.slots i t) i empty_slot ≡ t
    written t = get_or-set v.slots i t lt

-- The numbers behind a reduction that the slot can bear.
pub reduce_counts :
    (v : Inventory) (i count j : ℕ)
    → IsValid v
    → i < length v.slots
    → count ≤ (slot_at v i).count
    → j ≢ null_item_id
    → get_item_count (reduce_item_count v i count) j + (if (slot_at v i).id == j then count else 0)
      ≡ get_item_count v j
unfolding reduce_item_count get_item_count
reduce_counts v i count j w lt le ne = omega (
  arith,
  count_in-set v.slots i (reduce_slot (slot_at v i) count) j lt,
  held-reduce_slot (slot_at v i) count j (SlotsOk-get_or v.slots i w.slots_ok) le ne,
)
