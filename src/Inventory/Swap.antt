-- ===== src/Inventory/Swap.antt =====
-- `moveItem`, and the count of filled slots.
use native.Mathlib.Decide.{ℕ_discrete}
use amalgam_engine.Prelude.{
  ℕ, zero, suc, ◌+◌, ◌%◌, ◌^◌, ◌≤◌, ◌<◌, ◌≡◌, ◌≢◌, refl, ap, sym, ◌∙◌, subst, inl, inr, Bool, true,
  List, [], ◌∷◌, ◌==◌, if◌then◌else◌, length, get_or, set, arith, Bool-cases, length-set,
}
use amalgam_engine.ItemData.{null_item_id}
use amalgam_engine.Inventory.{
  ItemSlot, Inventory, empty_slot, slot_at, slot_index_is_valid, move_item, count_in,
  get_item_count, get_filled_slot_count, filled,
}
use amalgam_engine.Inventory.Stacks.{IsValid, SlotsOk-get_or, SlotsOk-set}
use amalgam_engine.Inventory.Removing.{count_in-set, held}

pub slot-set_self :
    (ss : List ItemSlot) (k : ℕ) (t : ItemSlot)
    → k < length ss
    → get_or (set ss k t) k empty_slot ≡ t
slot-set_self [] k t h = absurd (omega arith)
slot-set_self (s ∷ ss) zero t h = refl
slot-set_self (s ∷ ss) (suc k) t h = slot-set_self ss k t (omega arith)

pub slot-set_ne :
    (ss : List ItemSlot) (k j : ℕ) (t : ItemSlot)
    → k ≢ j
    → get_or (set ss k t) j empty_slot ≡ get_or ss j empty_slot
slot-set_ne [] k j t h = refl
slot-set_ne (s ∷ ss) zero zero t h = absurd (h refl)
slot-set_ne (s ∷ ss) zero (suc j) t h = refl
slot-set_ne (s ∷ ss) (suc k) zero t h = refl
slot-set_ne (s ∷ ss) (suc k) (suc j) t h = slot-set_ne ss k j t (λ e. h (ap suc e))

-- The vector behind the swap.
abbrev swapped : List ItemSlot → ℕ → ℕ → List ItemSlot
swapped ss i k = set (set ss k (get_or ss i empty_slot)) i (get_or ss k empty_slot)

slot-swapped :
    (ss : List ItemSlot) (i k j : ℕ)
    → i < length ss
    → k < length ss
    → get_or (swapped ss i k) j empty_slot ≡ (
        if j == i
        then get_or ss k empty_slot
        else (if j == k then get_or ss i empty_slot else get_or ss j empty_slot))
slot-swapped ss i k j a b = elim (ℕ_discrete i j) [
  | yes e ↦
      subst
        (λ n. get_or (swapped ss i k) n empty_slot ≡ (
          if n == i
          then get_or ss k empty_slot
          else (if n == k then get_or ss i empty_slot else get_or ss n empty_slot)))
        e
        (slot-set_self (set ss k (get_or ss i empty_slot)) i (get_or ss k empty_slot)
            (omega (arith, length-set ss k (get_or ss i empty_slot)))
          ∙ hit)
  | no ne ↦
      slot-set_ne (set ss k (get_or ss i empty_slot)) i j (get_or ss k empty_slot) ne ∙ inner ne
]
  where
    hit : get_or ss k empty_slot ≡ (
        if i == i
        then get_or ss k empty_slot
        else (if i == k then get_or ss i empty_slot else get_or ss i empty_slot))
    hit = ground arith

    inner :
        i ≢ j
        → get_or (set ss k (get_or ss i empty_slot)) j empty_slot ≡ (
            if j == i
            then get_or ss k empty_slot
            else (if j == k then get_or ss i empty_slot else get_or ss j empty_slot))
    inner ne = elim (ℕ_discrete k j) [
      | yes e ↦
          let w =
            subst
              (λ n.
                get_or (set ss k (get_or ss i empty_slot)) n empty_slot ≡ get_or ss i empty_slot)
              e (slot-set_self ss k (get_or ss i empty_slot) b) in
          ground arith
      | no other ↦ let w = slot-set_ne ss k j (get_or ss i empty_slot) other in ground arith
    ]

-- What `moveItem` achieves between two valid slots.
pub record Swaps (v : Inventory) (i k : ℕ) (r : Inventory × Bool) : Type 0 where
  pub valid : IsValid r.0
  pub success : r.1 ≡ true
  pub slots :
      (j : ℕ)
      → slot_at r.0 j
        ≡ (if j == i then slot_at v k else (if j == k then slot_at v i else slot_at v j))
  pub counts : (j : ℕ) → get_item_count r.0 j ≡ get_item_count v j

-- Moving between two slots of a valid inventory succeeds: the two slots change places, all others
-- stay, the number of every item stays, and the inventory stays valid.
pub move_item-Swaps :
    (v : Inventory) (i k : ℕ)
    → IsValid v
    → i < length v.slots
    → k < length v.slots
    → Swaps v i k (move_item v i k)
unfolding move_item slot_index_is_valid get_item_count
move_item-Swaps v i k w a b = subst (Swaps v i k) moves (record {
  valid = record {
    sized =
        w.sized
        ∙ sym (length-set v.slots k (slot_at v i))
        ∙ sym (length-set (set v.slots k (slot_at v i)) i (slot_at v k));
    small = w.small;
    slots_ok =
        SlotsOk-set (set v.slots k (slot_at v i)) i (slot_at v k)
          (SlotsOk-set v.slots k (slot_at v i) w.slots_ok (SlotsOk-get_or v.slots i w.slots_ok))
          (SlotsOk-get_or v.slots k w.slots_ok);
  };
  success = refl;
  slots = λ j. slot-swapped v.slots i k j a b;
  counts = counted;
})
  where
    moves :
        ◌≡◌ {A = Inventory × Bool}
          (record v { slots = swapped v.slots i k }, true)
          (move_item v i k)
    moves = let e = w.sized in ground arith

    source_again : get_or (set v.slots k (slot_at v i)) i empty_slot ≡ slot_at v i
    source_again = elim (ℕ_discrete k i) [
      | yes e ↦
          subst (λ n. get_or (set v.slots k (slot_at v i)) n empty_slot ≡ slot_at v i) e
            (slot-set_self v.slots k (slot_at v i) b)
      | no ne ↦ slot-set_ne v.slots k i (slot_at v i) ne
    ]

    counted : (j : ℕ) → count_in j (swapped v.slots i k) ≡ count_in j v.slots
    counted j = omega (
      arith,
      count_in-set v.slots k (slot_at v i) j b,
      count_in-set (set v.slots k (slot_at v i)) i (slot_at v k) j
          (omega (arith, length-set v.slots k (slot_at v i))),
      ap (held j) source_again,
    )

-- How many slots hold an item.
abbrev pub filled_slots : List ItemSlot → ℕ
filled_slots [] = 0
filled_slots (s ∷ ss) = (if s.id == null_item_id then 0 else 1) + filled_slots ss

filled_slots-le : (ss : List ItemSlot) → filled_slots ss ≤ length ss
filled_slots-le [] = omega arith
filled_slots-le (s ∷ ss) = ground (arith, filled_slots-le ss)

filled-eq : (ss : List ItemSlot) (n : ℕ) → n + length ss < 2 ^ 8 → filled ss n ≡ n + filled_slots ss
unfolding filled
filled-eq [] n h = omega arith
filled-eq (s ∷ ss) n h = elim (Bool-cases (s.id == null_item_id)) [
  | inl e ↦ rw (e) (omega (arith, filled-eq ss n (omega arith)))
  | inr e ↦ rw (e) (omega (arith, filled-eq ss ((n + 1) % 2 ^ 8) (omega arith)))
]

-- In a valid inventory the byte counter of `getFilledSlotCount` does not wrap: the result is the
-- number of slots that hold an item.
pub get_filled_slot_count_exact :
    (v : Inventory) → IsValid v → get_filled_slot_count v ≡ filled_slots v.slots
unfolding get_filled_slot_count
get_filled_slot_count_exact v w =
    omega (arith, filled-eq v.slots 0 (omega (arith, w.sized, w.small)))
