-- ===== src/IdPool/Fresh.antt =====
-- What the operations of IDPool.cpp do to the set of reserved IDs, and that each keeps the pool valid.
use native.Mathlib.Decide.{ℕ_discrete}
use amalgam_engine.Prelude.{
  ℕ, ◌+◌, ◌-◌, ◌^◌, ◌≤◌, ◌<◌, ◌≡◌, ◌≢◌, refl, sym, subst, ◌∙◌, inl, inr, true, false, arith, length,
  get_or, length-set, Bool-cases, ltb, ◌==◌, if◌then◌else◌,
}
use amalgam_engine.IdPool.{
  Strategy, march_forward, reuse_lowest, IdPool, add32, grow, set_next_march_id, set_next_lowest_id,
  mark, reserve_by, reserve_id,
}
use amalgam_engine.IdPool.Loops.{
  count_reserved, count_reserved-set-true, count_reserved-le, free_exists, free-lt-length,
}
use amalgam_engine.IdPool.Invariant.{
  reserved, NextIsFree, IsValid, grow-Grown, reserved-grow, march_finds, lowest_loop_finds,
  get_or-in_range, get_or-set_self', get_or-set_other,
}

-- What holds between an update of `ids` and the search for the next ID.
pub record Pending (p : IdPool) : Type 0 where
  pub nonempty : 0 < length p.ids
  pub small : length p.ids ≤ 2 ^ 31
  pub counted : p.reserved_id_count ≡ count_reserved p.ids

pub set_next_march_id-IsValid :
    (p : IdPool)
    → Pending p
    → p.strategy ≡ march_forward
    → p.next_march_id < length p.ids
    → IsValid (set_next_march_id p)
unfolding set_next_march_id
set_next_march_id-IsValid p w s lt =
    let g = grow-Grown p w.nonempty w.small w.counted in
    let q = grow p in
    record {
      nonempty = omega (arith, w.nonempty, g.larger);
      counted = g.same_count;
      next =
          subst (λ t. NextIsFree t (set_next_march_id p)) (sym (g.strategy ∙ s))
            (march_finds q.ids q.next_march_id (omega (arith, g.march, w.small)) g.small
              (omega (arith, g.march, g.larger)) g.room);
    }

pub set_next_lowest_id-IsValid :
    (p : IdPool)
    → Pending p
    → p.strategy ≡ reuse_lowest
    → p.next_lowest_id < length p.ids
    → ((i : ℕ) → i < p.next_lowest_id + 1 → reserved p i ≡ true)
    → IsValid (set_next_lowest_id p)
unfolding set_next_lowest_id
set_next_lowest_id-IsValid p w s lt below =
    let g = grow-Grown p w.nonempty w.small w.counted in
    let q = grow p in
    let (j, in_range, free) = free_exists q.ids g.room in
    record {
      nonempty = omega (arith, w.nonempty, g.larger);
      counted = g.same_count;
      next =
          subst (λ t. NextIsFree t (set_next_lowest_id p)) (sym (g.strategy ∙ s))
            (lowest_loop_finds q.ids q.next_lowest_id _ (add32 q.next_lowest_id 1) j g.small
              (above j free) (ends j in_range (above j free)) free
              (λ m h. reserved-grow p m w.small ∙ below m (omega (arith, h, start))));
    }
  where
    start : add32 (grow p).next_lowest_id 1 ≡ p.next_lowest_id + 1
    start = omega (arith, (grow-Grown p w.nonempty w.small w.counted).lowest, w.small)

    above : (j : ℕ) → get_or (grow p).ids j true ≡ false → add32 (grow p).next_lowest_id 1 ≤ j
    above j free = elim (Bool-cases (ltb j (p.next_lowest_id + 1))) [
      | inl lt' ↦
          let t = reserved-grow p j w.small ∙ below j (ground arith) in
          let r = get_or-in_range (grow p).ids j (free-lt-length (grow p).ids j free) in
          cc (t, r, free)
      | inr ge ↦ omega (arith, start, at_least j ge)
    ]
      where
        at_least : (j : ℕ) → ltb j (p.next_lowest_id + 1) ≡ false → p.next_lowest_id + 1 ≤ j
        at_least j h = ground arith

    ends :
        (j : ℕ)
        → j < length (grow p).ids
        → add32 (grow p).next_lowest_id 1 ≤ j
        → j
          < add32 (grow p).next_lowest_id 1
            + (length (grow p).ids - add32 (grow p).next_lowest_id 1)
    ends j a b = omega arith

pub mark-Pending :
    (p : IdPool) (id : ℕ) → Pending p → get_or p.ids id true ≡ false → Pending (mark p id)
unfolding mark
mark-Pending p id w free = ground (
  arith,
  length-set p.ids id true,
  count_reserved-set-true p.ids id,
  count_reserved-le p.ids,
  free-lt-length p.ids id free,
)

pub reserved-mark :
    (p : IdPool) (id i : ℕ)
    → id < length p.ids
    → reserved (mark p id) i ≡ (if i == id then true else reserved p i)
unfolding mark
reserved-mark p id i lt = elim (ℕ_discrete i id) [
  | yes same ↦ rw (same) (get_or-set_self' p.ids id true false lt ∙ hit)
  | no other ↦ get_or-set_other p.ids id i true false (λ e. other (sym e)) ∙ miss other
]
  where
    hit : true ≡ (if id == id then true else reserved p id)
    hit = ground arith

    miss : i ≢ id → reserved p i ≡ (if i == id then true else reserved p i)
    miss h = ground arith

pub reserved-set_next_march_id :
    (p : IdPool) (i : ℕ) → length p.ids ≤ 2 ^ 31 → reserved (set_next_march_id p) i ≡ reserved p i
unfolding set_next_march_id
reserved-set_next_march_id p i small = reserved-grow p i small

pub reserved-set_next_lowest_id :
    (p : IdPool) (i : ℕ) → length p.ids ≤ 2 ^ 31 → reserved (set_next_lowest_id p) i ≡ reserved p i
unfolding set_next_lowest_id
reserved-set_next_lowest_id p i small = reserved-grow p i small

-- The pool with an ID marked, on its way through `setNext...ID`.
pub mark_below :
    (p : IdPool)
    → p.next_lowest_id < length p.ids
    → ((i : ℕ) → i < p.next_lowest_id → reserved p i ≡ true)
    → (i : ℕ) → i < p.next_lowest_id + 1
    → reserved (mark p p.next_lowest_id) i ≡ true
mark_below p lt below i h =
    rw (reserved-mark p p.next_lowest_id i lt) (elim (ℕ_discrete i p.next_lowest_id) [
      | yes same ↦ ground arith
      | no other ↦ let r = below i (omega arith) in ground arith
    ])

pub length-mark : (p : IdPool) (id : ℕ) → length (mark p id).ids ≡ length p.ids
unfolding mark
length-mark p id = length-set p.ids id true

pub strategy-mark : (p : IdPool) (id : ℕ) → (mark p id).strategy ≡ p.strategy
unfolding mark
strategy-mark p id = refl

pub next_march_id-mark : (p : IdPool) (id : ℕ) → (mark p id).next_march_id ≡ p.next_march_id
unfolding mark
next_march_id-mark p id = refl

pub next_lowest_id-mark : (p : IdPool) (id : ℕ) → (mark p id).next_lowest_id ≡ p.next_lowest_id
unfolding mark
next_lowest_id-mark p id = refl

-- What `reserveID` promises of the ID that it returns and of the pool that it leaves.
pub record Reserves (p : IdPool) (r : ℕ × IdPool) : Type 0 where
  pub fresh : reserved p r.0 ≡ false
  pub updated : (i : ℕ) → reserved r.1 i ≡ (if i == r.0 then true else reserved p i)
  pub valid : IsValid r.1

reserve_march :
    (p : IdPool)
    → Pending p
    → p.strategy ≡ march_forward
    → get_or p.ids p.next_march_id true ≡ false
    → Reserves p (reserve_by march_forward p)
unfolding reserve_by
reserve_march p w s free =
    let id = p.next_march_id in
    let lt = free-lt-length p.ids id free in
    record {
      fresh = sym (get_or-in_range p.ids id lt) ∙ free;
      updated = λ i.
          reserved-set_next_march_id (mark p id) i (omega (arith, length-mark p id, w.small))
          ∙ reserved-mark p id i lt;
      valid =
          set_next_march_id-IsValid (mark p id) (mark-Pending p id w free) (strategy-mark p id ∙ s)
            (omega (arith, next_march_id-mark p id, length-mark p id));
    }

reserve_lowest :
    (p : IdPool)
    → Pending p
    → p.strategy ≡ reuse_lowest
    → get_or p.ids p.next_lowest_id true ≡ false
    → ((i : ℕ) → i < p.next_lowest_id → reserved p i ≡ true)
    → Reserves p (reserve_by reuse_lowest p)
unfolding reserve_by
reserve_lowest p w s free below =
    let id = p.next_lowest_id in
    let lt = free-lt-length p.ids id free in
    record {
      fresh = sym (get_or-in_range p.ids id lt) ∙ free;
      updated = λ i.
          reserved-set_next_lowest_id (mark p id) i (omega (arith, length-mark p id, w.small))
          ∙ reserved-mark p id i lt;
      valid =
          set_next_lowest_id-IsValid (mark p id) (mark-Pending p id w free) (strategy-mark p id ∙ s)
            (omega (arith, next_lowest_id-mark p id, length-mark p id))
            (λ i h. mark_below p lt below i (omega (arith, next_lowest_id-mark p id)));
    }

reserve_by_lem :
    (s : Strategy) (p : IdPool)
    → p.strategy ≡ s
    → Pending p
    → NextIsFree s p
    → Reserves p (reserve_by s p)
reserve_by_lem march_forward p e w n = reserve_march p w e n
reserve_by_lem reuse_lowest p e w n = reserve_lowest p w e n.0 n.1

-- In a valid pool of at most 2^31 slots, under either strategy, `reserveID` returns an ID that was
-- not reserved, reserves this ID and no other, frees none, and leaves the pool valid.
pub reserve_id-Reserves :
    (p : IdPool) → IsValid p → length p.ids ≤ 2 ^ 31 → Reserves p (reserve_id p)
unfolding reserve_id
reserve_id-Reserves p v small =
    reserve_by_lem p.strategy p refl
      (record { nonempty = v.nonempty; small = small; counted = v.counted }) v.next
