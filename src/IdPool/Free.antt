-- ===== src/IdPool/Free.antt =====
-- `freeID` and `freeAllIDs` of IDPool.cpp.
use native.Mathlib.Decide.{ℕ_discrete}
use amalgam_engine.Prelude.{
  ℕ, zero, suc, ◌+◌, ◌-◌, ◌%◌, ◌^◌, ◌≤◌, ◌<◌, ◌≡◌, ◌≢◌, refl, sym, subst, ◌∙◌, inl, inr, Bool, true,
  false, List, [], ◌∷◌, none, some, arith, length, get_or, get_elem?, set, replicate, length-set,
  Bool-cases, ltb, ◌==◌, if◌then◌else◌,
}
use amalgam_engine.IdPool.{
  Strategy, march_forward, reuse_lowest, IdPool, done, fatal, undefined, after_free, free_id,
  free_all_ids,
}
use amalgam_engine.IdPool.Loops.{
  count_reserved, count_reserved-set-false, count_reserved-replicate, count_reserved-le,
}
use amalgam_engine.IdPool.Invariant.{
  reserved, NextIsFree, IsValid, get_or-in_range, reserved-lt-length, get_or-set_self',
  get_or-set_other,
}

get_elem?-in_range :
    (xs : List Bool) (i : ℕ) → i < length xs → get_elem? xs i ≡ some (get_or xs i false)
get_elem?-in_range [] i h = absurd (omega arith)
get_elem?-in_range (x ∷ xs) zero h = refl
get_elem?-in_range (x ∷ xs) (suc i) h = get_elem?-in_range xs i (omega arith)

get_elem?-out_of_range : (xs : List Bool) (i : ℕ) → length xs ≤ i → get_elem? xs i ≡ none
get_elem?-out_of_range [] i h = refl
get_elem?-out_of_range (x ∷ xs) zero h = absurd (omega arith)
get_elem?-out_of_range (x ∷ xs) (suc i) h = get_elem?-out_of_range xs i (omega arith)

-- The pool with the entry cleared, before `nextLowestID` is looked at.
abbrev cleared : IdPool → ℕ → IdPool
cleared p id = record p {
  reserved_id_count = (p.reserved_id_count + 2 ^ 64 - 1) % 2 ^ 64;
  ids = set p.ids id false;
}

-- What freeing a reserved ID achieves.
pub record Frees (p q : IdPool) (id : ℕ) : Type 0 where
  pub updated : (i : ℕ) → reserved q i ≡ (if i == id then false else reserved p i)
  pub valid : IsValid q

module _ (p : IdPool) (id : ℕ) (v : IsValid p) (small : length p.ids ≤ 2 ^ 31)
    (taken : reserved p id ≡ true) where
  room : id < length p.ids
  room = reserved-lt-length p.ids id taken

  counted : (cleared p id).reserved_id_count ≡ count_reserved (cleared p id).ids
  counted = omega (
    arith,
    v.counted,
    count_reserved-set-false p.ids id room (get_or-in_range p.ids id room ∙ taken),
    count_reserved-le p.ids,
  )

  nonempty : 0 < length (cleared p id).ids
  nonempty = omega (arith, length-set p.ids id false, room)

  reserved-cleared : (i : ℕ) → reserved (cleared p id) i ≡ (if i == id then false else reserved p i)
  reserved-cleared i = elim (ℕ_discrete i id) [
    | yes same ↦ rw same (get_or-set_self' p.ids id false false room ∙ hit)
    | no other ↦ get_or-set_other p.ids id i false false (λ e. other (sym e)) ∙ miss other
  ]
    where
      hit : false ≡ (if id == id then false else reserved p id)
      hit = ground arith

      miss : i ≢ id → reserved p i ≡ (if i == id then false else reserved p i)
      miss h = ground arith

  -- An ID that was free is free after the update.
  keeps_free : (j : ℕ) → get_or p.ids j true ≡ false → get_or (cleared p id).ids j true ≡ false
  keeps_free j e = elim (ℕ_discrete j id) [
    | yes same ↦ rw same (get_or-set_self' p.ids id false true room)
    | no other ↦ get_or-set_other p.ids id j false true (λ q. other (sym q)) ∙ e
  ]

  keeps_reserved : (j : ℕ) → j ≢ id → reserved p j ≡ true → reserved (cleared p id) j ≡ true
  keeps_reserved j ne e = get_or-set_other p.ids id j false false (λ q. ne (sym q)) ∙ e

  after_free-Frees :
      (s : Strategy) → p.strategy ≡ s → NextIsFree s p → Frees p (after_free s (cleared p id) id) id
  unfolding after_free
  after_free-Frees march_forward e n = record {
    updated = reserved-cleared;
    valid = record {
      nonempty = nonempty;
      counted = counted;
      next = subst (λ t. NextIsFree t (cleared p id)) (sym e) (keeps_free p.next_march_id n);
    };
  }
  after_free-Frees reuse_lowest e (n, below) = elim (Bool-cases (ltb id p.next_lowest_id)) [
    | inl lower ↦ rw lower (record {
      updated = reserved-cleared;
      valid = record {
        nonempty = nonempty;
        counted = counted;
        next =
            subst (λ t. NextIsFree t (record (cleared p id) { next_lowest_id = id })) (sym e)
              (
                get_or-set_self' p.ids id false true room,
                λ i h. keeps_reserved i (omega arith) (below i (under lower i h)),
              );
      };
    })
    | inr higher ↦ rw higher (record {
      updated = reserved-cleared;
      valid = record {
        nonempty = nonempty;
        counted = counted;
        next =
            subst (λ t. NextIsFree t (cleared p id)) (sym e)
              (
                keeps_free p.next_lowest_id n,
                λ i h. keeps_reserved i (apart higher i h) (below i h),
              );
      };
    })
  ]
    where
      under : ltb id p.next_lowest_id ≡ true → (i : ℕ) → i < id → i < p.next_lowest_id
      under t i h = ground arith

      apart : ltb id p.next_lowest_id ≡ false → (i : ℕ) → i < p.next_lowest_id → i ≢ id
      apart f i h = ground arith

-- Freeing a reserved ID of a valid pool of at most 2^31 slots succeeds: it frees this ID and no
-- other, and leaves the pool valid.
pub free_id-Frees :
    (p : IdPool) (id : ℕ)
    → IsValid p
    → length p.ids ≤ 2 ^ 31
    → reserved p id ≡ true
    → (q : IdPool) × (free_id p id ≡ done q) × Frees p q id
unfolding free_id
free_id-Frees p id v small taken =
    let lt = room p id v small taken in
    (
      after_free p.strategy (cleared p id) id,
      rw (get_elem?-in_range p.ids id lt, taken) (in_bounds lt),
      after_free-Frees p id v small taken p.strategy refl v.next,
    )
  where
    in_bounds :
        id < length p.ids
        → (if ltb (length p.ids) id then fatal else done (after_free p.strategy (cleared p id) id))
          ≡ done (after_free p.strategy (cleared p id) id)
    in_bounds lt = ground arith

-- Freeing any ID that is not reserved never returns a pool: it aborts, save at the one ID that is
-- the number of slots, where the bounds check passes and the read is past the end of the vector.
pub free_id_refused :
    (p : IdPool) (id : ℕ)
    → reserved p id ≡ false
    → free_id p id ≡ (if id == length p.ids then undefined else fatal)
unfolding free_id
free_id_refused p id e = elim (Bool-cases (ltb id (length p.ids))) [
  | inl within ↦ let at = get_elem?-in_range p.ids id (ground arith) in rw (at, e) (ground arith)
  | inr beyond ↦ let at = get_elem?-out_of_range p.ids id (ground arith) in rw at (ground arith)
]

-- `freeAllIDs` frees every ID, but keeps the count and the next IDs: after it, a valid pool in which
-- an ID was reserved is not valid any more.
pub free_all_ids_stale :
    (p : IdPool) (id : ℕ)
    → IsValid p
    → reserved p id ≡ true
    → ((i : ℕ) → reserved (free_all_ids p) i ≡ false) × ¬ IsValid (free_all_ids p)
unfolding free_all_ids
free_all_ids_stale p id v taken = (cleared_all (length p.ids), stale)
  where
    cleared_all : (n i : ℕ) → get_or (replicate n false) i false ≡ false
    cleared_all zero i = refl
    cleared_all (suc n) zero = refl
    cleared_all (suc n) (suc i) = cleared_all n i

    some_reserved : (xs : List Bool) (i : ℕ) → get_or xs i false ≡ true → 0 < count_reserved xs
    some_reserved [] i e = cc
    some_reserved (true ∷ xs) i e = omega arith
    some_reserved (false ∷ xs) zero e = cc
    some_reserved (false ∷ xs) (suc i) e = some_reserved xs i e

    stale : ¬ IsValid (free_all_ids p)
    stale w = omega (
      arith,
      w.counted,
      v.counted,
      count_reserved-replicate (length p.ids),
      some_reserved p.ids id taken,
    )
