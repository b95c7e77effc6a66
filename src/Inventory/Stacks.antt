-- ===== src/Inventory/Stacks.antt =====
-- Adding and removing items: what happens to the number of each item.
use amalgam_engine.Prelude.{
  ℕ, zero, suc, ◌+◌, ◌%◌, ◌^◌, ◌≤◌, ◌<◌, ◌≡◌, ◌≢◌, refl, sym, ◌∙◌, inl, inr, true, false, ◌&&◌,
  List, [], ◌∷◌, none, some, leb, ◌==◌, if◌then◌else◌, length, get_or, set, replicate, arith,
  Bool-cases, Option-cases, length-replicate,
}
use amalgam_engine.ItemData.{null_item_id}
use amalgam_engine.Inventory.{
  ItemSlot, Inventory, empty_slot, init, add_to_stack, fill_empty, count_in,
}

-- A slot counts with a byte, and is empty in both fields or in neither.
pub record SlotOk (s : ItemSlot) : Type 0 where
  pub byte : s.count < 2 ^ 8
  pub null_empty : s.id ≡ null_item_id → s.count ≡ 0
  pub empty_null : s.count ≡ 0 → s.id ≡ null_item_id

abbrev pub SlotsOk : List ItemSlot → Type 0
SlotsOk [] = Unit {0}
SlotsOk (s ∷ ss) = SlotOk s × SlotsOk ss

pub record IsValid (v : Inventory) : Type 0 where
  pub sized : v.size ≡ length v.slots
  pub small : v.size < 2 ^ 8
  pub slots_ok : SlotsOk v.slots

empty_slot-SlotOk : SlotOk empty_slot
empty_slot-SlotOk = record { byte = omega arith; null_empty = λ e. refl; empty_null = λ e. refl }

SlotsOk-replicate : (n : ℕ) → SlotsOk (replicate n empty_slot)
SlotsOk-replicate zero = tt
SlotsOk-replicate (suc n) = (empty_slot-SlotOk, SlotsOk-replicate n)

-- A new inventory is valid.
pub init-IsValid : (n : ℕ) → n < 2 ^ 8 → IsValid (init n)
unfolding init
init-IsValid n h = record {
  sized = sym (length-replicate n empty_slot);
  small = h;
  slots_ok = SlotsOk-replicate n;
}

pub SlotsOk-get_or : (ss : List ItemSlot) (i : ℕ) → SlotsOk ss → SlotOk (get_or ss i empty_slot)
SlotsOk-get_or [] i h = empty_slot-SlotOk
SlotsOk-get_or (s ∷ ss) zero h = h.0
SlotsOk-get_or (s ∷ ss) (suc i) h = SlotsOk-get_or ss i h.1

pub SlotsOk-set :
    (ss : List ItemSlot) (i : ℕ) (t : ItemSlot) → SlotsOk ss → SlotOk t → SlotsOk (set ss i t)
SlotsOk-set [] i t h k = tt
SlotsOk-set (s ∷ ss) zero t h k = (k, h.1)
SlotsOk-set (s ∷ ss) (suc i) t h k = (h.0, SlotsOk-set ss i t h.1 k)

-- What a loop of `addItem` that finds its slot achieves.
pub record Stored (ss r : List ItemSlot) (item count : ℕ) : Type 0 where
  pub same_length : length r ≡ length ss
  pub ok : SlotsOk r
  pub counts :
      (j : ℕ) → j ≢ null_item_id → count_in j r ≡ count_in j ss + (if j == item then count else 0)

module _ (item count limit : ℕ) (real : item ≢ null_item_id) (positive : 0 < count)
    (byte : count < 2 ^ 8) (limit_byte : limit < 2 ^ 8) where
  cons-Stored :
      (s : ItemSlot) (ss r : List ItemSlot)
      → SlotOk s
      → Stored ss r item count
      → Stored (s ∷ ss) (s ∷ r) item count
  unfolding count_in
  cons-Stored s ss r h w = record {
    same_length = omega (arith, w.same_length);
    ok = (h, w.ok);
    counts = λ j ne. omega (arith, w.counts j ne);
  }

  stack_here :
      (s : ItemSlot) (ss : List ItemSlot)
      → SlotsOk (s ∷ ss)
      → s.id ≡ item
      → (s.count + count) % 2 ^ 16 ≤ limit
      → Stored (s ∷ ss) (record s { count = (s.count + count) % 2 ^ 16 % 2 ^ 8 } ∷ ss) item count
  unfolding count_in
  stack_here s ss (h, hs) e le = record {
    same_length = refl;
    ok = (
      record {
        byte = omega arith;
        null_empty = λ z. absurd (real (sym e ∙ z));
        empty_null = λ z. absurd (omega (arith, h.byte));
      },
      hs,
    );
    counts = λ j ne. counted j;
  }
    where
      b : s.count < 2 ^ 8
      b = h.byte

      counted :
          (j : ℕ)
          → (if s.id == j then (s.count + count) % 2 ^ 16 % 2 ^ 8 else 0) + count_in j ss
            ≡ (if s.id == j then s.count else 0) + count_in j ss + (if j == item then count else 0)
      counted j = ground arith

  pub add_to_stack-Stored :
      (ss : List ItemSlot) {r : List ItemSlot}
      → SlotsOk ss
      → add_to_stack item count limit ss ≡ some r
      → Stored ss r item count
  unfolding add_to_stack
  add_to_stack-Stored [] h e = cc
  add_to_stack-Stored (s ∷ ss) {r} (h, hs) e =
      elim (Bool-cases (s.id == item && leb ((s.count + count) % 2 ^ 16) limit)) [
        | inl hit ↦ subst' (head hit) (stack_here s ss (h, hs) (same hit) (fits hit))
        | inr miss ↦ elim (Option-cases (add_to_stack item count limit ss)) [
          | inl gone ↦ absurd (lost miss gone)
          | inr (t, f) ↦ subst' (tail miss t f) (cons-Stored s ss t h (add_to_stack-Stored ss hs f))
        ]
      ]
    where
      subst' :
          {a : List ItemSlot} → a ≡ r → Stored (s ∷ ss) a item count → Stored (s ∷ ss) r item count
      subst' q w = rw q at w

      same : (s.id == item && leb ((s.count + count) % 2 ^ 16) limit) ≡ true → s.id ≡ item
      same b = ground arith

      fits :
          (s.id == item && leb ((s.count + count) % 2 ^ 16) limit) ≡ true
          → (s.count + count) % 2 ^ 16 ≤ limit
      fits b = ground arith

      head :
          (s.id == item && leb ((s.count + count) % 2 ^ 16) limit) ≡ true
          → record s { count = (s.count + count) % 2 ^ 16 % 2 ^ 8 } ∷ ss ≡ r
      head b = ground arith

      lost :
          (s.id == item && leb ((s.count + count) % 2 ^ 16) limit) ≡ false
          → add_to_stack item count limit ss ≡ none
          → ⊥
      lost b g = ground arith

      tail :
          (s.id == item && leb ((s.count + count) % 2 ^ 16) limit) ≡ false
          → (t : List ItemSlot) → add_to_stack item count limit ss ≡ some t
          → s ∷ t ≡ r
      tail b t f = ground arith

  fill_here :
      (s : ItemSlot) (ss : List ItemSlot)
      → SlotsOk ss
      → s.id ≡ null_item_id
      → Stored (s ∷ ss) (record { id = item; count = count } ∷ ss) item count
  unfolding count_in
  fill_here s ss hs e = record {
    same_length = refl;
    ok = (
      record {
        byte = byte;
        null_empty = λ z. absurd (real z);
        empty_null = λ z. absurd (omega arith);
      },
      hs,
    );
    counts = λ j ne. counted j ne;
  }
    where
      counted :
          (j : ℕ)
          → j ≢ null_item_id
          → (if item == j then count else 0) + count_in j ss
            ≡ (if s.id == j then s.count else 0) + count_in j ss + (if j == item then count else 0)
      counted j ne = ground arith

  pub fill_empty-Stored :
      (ss : List ItemSlot) {r : List ItemSlot}
      → SlotsOk ss
      → fill_empty item count ss ≡ some r
      → Stored ss r item count
  unfolding fill_empty
  fill_empty-Stored [] h e = cc
  fill_empty-Stored (s ∷ ss) {r} (h, hs) e = elim (Bool-cases (s.id == null_item_id)) [
    | inl hit ↦ subst' (head hit) (fill_here s ss hs (ground arith))
    | inr miss ↦ elim (Option-cases (fill_empty item count ss)) [
      | inl gone ↦ absurd (lost miss gone)
      | inr (t, f) ↦ subst' (tail miss t f) (cons-Stored s ss t h (fill_empty-Stored ss hs f))
    ]
  ]
    where
      subst' :
          {a : List ItemSlot} → a ≡ r → Stored (s ∷ ss) a item count → Stored (s ∷ ss) r item count
      subst' q w = rw q at w

      head : (s.id == null_item_id) ≡ true → record { id = item; count = count } ∷ ss ≡ r
      head b = ground arith

      lost : (s.id == null_item_id) ≡ false → fill_empty item count ss ≡ none → ⊥
      lost b g = ground arith

      tail :
          (s.id == null_item_id) ≡ false
          → (t : List ItemSlot) → fill_empty item count ss ≡ some t
          → s ∷ t ≡ r
      tail b t f = ground arith
