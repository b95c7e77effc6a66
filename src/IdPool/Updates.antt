-- ===== src/IdPool/Updates.antt =====
-- `markIDAsReserved`, `freeID` and `freeAllIDs` of IDPool.cpp.
use native.Mathlib.Decide.{ℕ_discrete}
use amalgam_engine.Prelude.{
  ℕ, ◌+◌, ◌^◌, ◌≤◌, ◌<◌, ◌≡◌, ◌≢◌, refl, sym, subst, ◌∙◌, inl, inr, Bool, true, false, List, arith,
  length, get_or, Bool-cases, leb, ◌==◌, if◌then◌else◌,
}
use amalgam_engine.IdPool.{
  Strategy, march_forward, reuse_lowest, IdPool, add32, resize, mark, allocate, after_mark,
  mark_id_as_reserved,
}
use amalgam_engine.IdPool.Loops.{free-lt-length, length-resize, count_reserved-resize}
use amalgam_engine.IdPool.Invariant.{
  reserved, NextIsFree, IsValid, get_or-in_range, get_or-set_other, get_or-resize,
}
use amalgam_engine.IdPool.Fresh.{
  Pending, set_next_march_id-IsValid, set_next_lowest_id-IsValid, mark-Pending, reserved-mark,
  reserved-set_next_march_id, reserved-set_next_lowest_id, length-mark, strategy-mark,
  next_march_id-mark, next_lowest_id-mark,
}

-- A free ID in range, under both defaults.
free_in_range :
    (xs : List Bool) (i : ℕ) → i < length xs → get_or xs i false ≡ false → get_or xs i true ≡ false
free_in_range xs i lt e = get_or-in_range xs i lt ∙ e

NextIsFree-resize :
    (s : Strategy) (p : IdPool) (n : ℕ)
    → length p.ids ≤ n
    → NextIsFree s p
    → NextIsFree s (record p { ids = resize p.ids n })
NextIsFree-resize march_forward p n le free =
    let lt = free-lt-length p.ids p.next_march_id free in
    free_in_range (resize p.ids n) p.next_march_id (omega (arith, length-resize p.ids n le)) (
      get_or-resize p.ids n p.next_march_id le
      ∙ sym (get_or-in_range p.ids p.next_march_id lt)
      ∙ free)
NextIsFree-resize reuse_lowest p n le (free, below) =
    let lt = free-lt-length p.ids p.next_lowest_id free in
    (
      free_in_range (resize p.ids n) p.next_lowest_id (omega (arith, length-resize p.ids n le)) (
          get_or-resize p.ids n p.next_lowest_id le
          ∙ sym (get_or-in_range p.ids p.next_lowest_id lt)
          ∙ free),
      λ i h. get_or-resize p.ids n i le ∙ below i h,
    )

-- What `allocate` leaves for the rest of `markIDAsReserved`.
record Allocated (p q : IdPool) (id : ℕ) : Type 0 where
  valid : IsValid q
  room : id < length q.ids
  small : length q.ids ≤ 2 ^ 31
  same : (i : ℕ) → reserved q i ≡ reserved p i
  strategy : q.strategy ≡ p.strategy

allocate-Allocated :
    (p : IdPool) (id : ℕ)
    → IsValid p
    → length p.ids ≤ 2 ^ 31
    → id < 2 ^ 31
    → Allocated p (allocate p id) id
unfolding allocate
allocate-Allocated p id v small lt = elim (Bool-cases (leb (length p.ids) id)) [
  | inl beyond ↦
      let le : length p.ids ≤ add32 id 1 = ground arith in
      rw beyond (record {
        valid = record {
          nonempty = omega (arith, length-resize p.ids (add32 id 1) le, v.nonempty);
          counted = v.counted ∙ sym (count_reserved-resize p.ids (add32 id 1) le);
          next = NextIsFree-resize p.strategy p (add32 id 1) le v.next;
        };
        room = omega (arith, length-resize p.ids (add32 id 1) le);
        small = omega (arith, length-resize p.ids (add32 id 1) le);
        same = λ i. get_or-resize p.ids (add32 id 1) i le;
        strategy = refl;
      })
  | inr within ↦
      rw within (record {
        valid = v;
        room = ground arith;
        small = small;
        same = λ i. refl;
        strategy = refl;
      })
]

-- What marking a free ID in range achieves.
pub record Marks (p q : IdPool) (id : ℕ) : Type 0 where
  pub updated : (i : ℕ) → reserved q i ≡ (if i == id then true else reserved p i)
  pub valid : IsValid q

module _ (p : IdPool) (id : ℕ) (w : Pending p) (room : id < length p.ids)
    (free : reserved p id ≡ false) where
  marked : Pending (mark p id)
  marked = mark-Pending p id w (free_in_range p.ids id room free)

  still_free :
      (j : ℕ) → get_or p.ids j true ≡ false → j ≢ id → get_or (mark p id).ids j true ≡ false
  unfolding mark
  still_free j e ne = get_or-set_other p.ids id j true true (λ q. ne (sym q)) ∙ e

  still_reserved : (j : ℕ) → reserved p j ≡ true → reserved (mark p id) j ≡ true
  still_reserved j e = rw (reserved-mark p id j room) (ground arith)

  mark_march :
      p.strategy ≡ march_forward
      → get_or p.ids p.next_march_id true ≡ false
      → Marks p (after_mark march_forward (mark p id) id) id
  unfolding after_mark
  mark_march s next = elim (Bool-cases (leb (mark p id).next_march_id id)) [
    | inl past ↦ rw past (record {
      updated =
          λ i. reserved-set_next_march_id (mark p id) i marked.small ∙ reserved-mark p id i room;
      valid = set_next_march_id-IsValid (mark p id) marked (strategy-mark p id ∙ s) (
          omega (
            arith,
            next_march_id-mark p id,
            length-mark p id,
            free-lt-length p.ids p.next_march_id next,
          ));
    })
    | inr before ↦ rw before (record {
      updated = λ i. reserved-mark p id i room;
      valid = record {
        nonempty = marked.nonempty;
        counted = marked.counted;
        next =
            subst (λ t. NextIsFree t (mark p id)) (sym (strategy-mark p id ∙ s))
              (rw (next_march_id-mark p id) (still_free p.next_march_id next (later before)));
      };
    })
  ]
    where
      later : leb (mark p id).next_march_id id ≡ false → p.next_march_id ≢ id
      later h = let e = next_march_id-mark p id in ground arith

  mark_lowest :
      p.strategy ≡ reuse_lowest
      → get_or p.ids p.next_lowest_id true ≡ false
      → ((i : ℕ) → i < p.next_lowest_id → reserved p i ≡ true)
      → Marks p (after_mark reuse_lowest (mark p id) id) id
  unfolding after_mark
  mark_lowest s next below = elim (Bool-cases (id == (mark p id).next_lowest_id)) [
    | inl hit ↦ rw hit (record {
      updated =
          λ i. reserved-set_next_lowest_id (mark p id) i marked.small ∙ reserved-mark p id i room;
      valid =
          set_next_lowest_id-IsValid (mark p id) marked (strategy-mark p id ∙ s)
            (omega (
              arith,
              next_lowest_id-mark p id,
              length-mark p id,
              free-lt-length p.ids p.next_lowest_id next,
            ))
            (all_below (same hit));
    })
    | inr miss ↦ rw miss (record {
      updated = λ i. reserved-mark p id i room;
      valid = record {
        nonempty = marked.nonempty;
        counted = marked.counted;
        next =
            subst (λ t. NextIsFree t (mark p id)) (sym (strategy-mark p id ∙ s))
              (
                rw (next_lowest_id-mark p id) (still_free p.next_lowest_id next (other miss)),
                λ i h. still_reserved i (below i (omega (arith, next_lowest_id-mark p id))),
              );
      };
    })
  ]
    where
      same : (id == (mark p id).next_lowest_id) ≡ true → id ≡ p.next_lowest_id
      same h = let e = next_lowest_id-mark p id in ground arith

      other : (id == (mark p id).next_lowest_id) ≡ false → p.next_lowest_id ≢ id
      other h = let e = next_lowest_id-mark p id in ground arith

      all_below :
          id ≡ p.next_lowest_id
          → (i : ℕ) → i < (mark p id).next_lowest_id + 1
          → reserved (mark p id) i ≡ true
      all_below e i h = elim (ℕ_discrete i id) [
        | yes q ↦ rw (reserved-mark p id i room) (ground arith)
        | no q ↦ still_reserved i (below i (omega (arith, next_lowest_id-mark p id)))
      ]

  pub after_mark-Marks :
      (s : Strategy) → p.strategy ≡ s → NextIsFree s p → Marks p (after_mark s (mark p id) id) id
  after_mark-Marks march_forward e n = mark_march e n
  after_mark-Marks reuse_lowest e n = mark_lowest e n.0 n.1

-- Marking an ID below 2^31 that is not reserved reserves this ID and no other, also where the pool
-- has to grow for it, and leaves the pool valid.
pub mark_id_as_reserved-Marks :
    (p : IdPool) (id : ℕ)
    → IsValid p
    → length p.ids ≤ 2 ^ 31
    → id < 2 ^ 31
    → reserved p id ≡ false
    → Marks p (mark_id_as_reserved p id) id
unfolding mark_id_as_reserved
mark_id_as_reserved-Marks p id v small lt free =
    let a = allocate-Allocated p id v small lt in
    let q = allocate p id in
    let w : Pending q = record {
      nonempty = a.valid.nonempty;
      small = a.small;
      counted = a.valid.counted;
    } in
    let m =
      after_mark-Marks q id w a.room (a.same id ∙ free) p.strategy a.strategy
        (subst (λ t. NextIsFree t q) a.strategy a.valid.next) in
    record { updated = λ i. m.updated i ∙ back q a.same i; valid = m.valid }
  where
    back :
        (q : IdPool)
        → ((i : ℕ) → reserved q i ≡ reserved p i)
        → (i : ℕ)
        → (if i == id then true else reserved q i) ≡ (if i == id then true else reserved p i)
    back q same i = rw (same i)
