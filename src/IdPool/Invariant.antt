-- ===== src/IdPool/Invariant.antt =====
-- The well-formedness of an ID pool, and that each operation of IDPool.cpp keeps it.
use native.Mathlib.Nat.{mod-eq_of_lt, mod-lt}
use native.Mathlib.Decide.{ℕ_discrete}
use amalgam_engine.Prelude.{
  ℕ, zero, suc, ◌+◌, ◌-◌, ◌*◌, ◌%◌, ◌^◌, ◌≤◌, ◌<◌, ◌≡◌, ◌≢◌, refl, ap, sym, ◌∙◌, inl, inr, Bool,
  true, false, List, [], ◌∷◌, ◌++◌, arith, length, get_or, set, replicate, Bool-cases,
}
use amalgam_engine.IdPool.{
  Strategy, march_forward, reuse_lowest, IdPool, add32, add64, resize, grow, march_index,
  march_loop, lowest_loop,
}
use amalgam_engine.IdPool.Loops.{
  count_reserved, count_reserved-le, free_exists, free-lt-length, resize_up, length-resize,
  count_reserved-resize, march_loop_free, march_reaches,
}

-- The abstract view: the set of reserved IDs.
abbrev pub reserved : IdPool → ℕ → Bool
reserved p i = get_or p.ids i false

-- The next ID that the pool's strategy will hand out is free; under `reuse_lowest` it is the lowest.
abbrev pub NextIsFree : Strategy → IdPool → Type 0
NextIsFree march_forward p = get_or p.ids p.next_march_id true ≡ false
NextIsFree reuse_lowest p =
    (get_or p.ids p.next_lowest_id true ≡ false)
    × ((i : ℕ) → i < p.next_lowest_id → reserved p i ≡ true)

pub record IsValid (p : IdPool) : Type 0 where
  pub nonempty : 0 < length p.ids
  pub counted : p.reserved_id_count ≡ count_reserved p.ids
  pub next : NextIsFree p.strategy p

pub get_or-in_range :
    (xs : List Bool) (i : ℕ) → i < length xs → get_or xs i true ≡ get_or xs i false
get_or-in_range [] i h = absurd (omega arith)
get_or-in_range (x ∷ xs) zero h = refl
get_or-in_range (x ∷ xs) (suc i) h = get_or-in_range xs i (omega arith)

pub get_or-out_of_range : (xs : List Bool) (i : ℕ) (d : Bool) → length xs ≤ i → get_or xs i d ≡ d
get_or-out_of_range [] i d h = refl
get_or-out_of_range (x ∷ xs) zero d h = absurd (omega arith)
get_or-out_of_range (x ∷ xs) (suc i) d h = get_or-out_of_range xs i d (omega arith)

pub reserved-lt-length : (xs : List Bool) (i : ℕ) → get_or xs i false ≡ true → i < length xs
reserved-lt-length [] i e = cc
reserved-lt-length (x ∷ xs) zero e = omega arith
reserved-lt-length (x ∷ xs) (suc i) e = omega (arith, reserved-lt-length xs i e)

pub get_or-set_self' :
    (xs : List Bool) (i : ℕ) (v d : Bool) → i < length xs → get_or (set xs i v) i d ≡ v
get_or-set_self' [] i v d h = absurd (omega arith)
get_or-set_self' (x ∷ xs) zero v d h = refl
get_or-set_self' (x ∷ xs) (suc i) v d h = get_or-set_self' xs i v d (omega arith)

pub get_or-set_other :
    (xs : List Bool) (i j : ℕ) (v d : Bool) → i ≢ j → get_or (set xs i v) j d ≡ get_or xs j d
get_or-set_other [] i j v d h = refl
get_or-set_other (x ∷ xs) zero zero v d h = absurd (h refl)
get_or-set_other (x ∷ xs) zero (suc j) v d h = refl
get_or-set_other (x ∷ xs) (suc i) zero v d h = refl
get_or-set_other (x ∷ xs) (suc i) (suc j) v d h = get_or-set_other xs i j v d (λ e. h (ap suc e))

-- New IDs are free, so growing does not change the reserved set.
pub get_or-resize :
    (xs : List Bool) (n i : ℕ) → length xs ≤ n → get_or (resize xs n) i false ≡ get_or xs i false
get_or-resize xs n i h = rw (resize_up xs n h) (pad xs (n - length xs) i)
  where
    pad-nil : (m i : ℕ) → get_or (replicate m false) i false ≡ false
    pad-nil zero i = refl
    pad-nil (suc m) zero = refl
    pad-nil (suc m) (suc i) = pad-nil m i

    pad : (ys : List Bool) (m i : ℕ) → get_or (ys ++ replicate m false) i false ≡ get_or ys i false
    pad [] m i = pad-nil m i
    pad (y ∷ ys) m zero = refl
    pad (y ∷ ys) m (suc i) = pad ys m i

-- A free slot behind `grow`.
pub record Grown (p r : IdPool) : Type 0 where
  pub room : count_reserved r.ids < length r.ids
  pub larger : length p.ids ≤ length r.ids
  pub small : length r.ids ≤ 2 ^ 32
  pub same_count : r.reserved_id_count ≡ count_reserved r.ids
  pub march : r.next_march_id ≡ p.next_march_id
  pub lowest : r.next_lowest_id ≡ p.next_lowest_id
  pub strategy : r.strategy ≡ p.strategy

pub grow-Grown :
    (p : IdPool)
    → 0 < length p.ids
    → length p.ids ≤ 2 ^ 31
    → p.reserved_id_count ≡ count_reserved p.ids
    → Grown p (grow p)
unfolding grow
grow-Grown p pos small e = ground (
  arith,
  count_reserved-le p.ids,
  length-resize p.ids (length p.ids * 2 % 2 ^ 64),
  count_reserved-resize p.ids (length p.ids * 2 % 2 ^ 64),
)

pub reserved-grow :
    (p : IdPool) (i : ℕ) → length p.ids ≤ 2 ^ 31 → reserved (grow p) i ≡ reserved p i
unfolding grow
reserved-grow p i small = ground (arith, get_or-resize p.ids (length p.ids * 2 % 2 ^ 64) i)

march_loop_next :
    (ids : List Bool) (next k i : ℕ)
    → 0 < length ids
    → length ids ≤ 2 ^ 32
    → get_or ids next true ≡ false
    → get_or ids (march_loop ids next k i) true ≡ false
unfolding march_loop
march_loop_next ids next zero i pos small e = e
march_loop_next ids next (suc k) i pos small e =
    elim (Bool-cases (get_or ids (march_index ids next i) true)) [
      | inl taken ↦ rw taken (march_loop_next ids next k (i + 1) pos small e)
      | inr free ↦ rw (free, mod-eq_of_lt {n = march_index ids next i} {m = 2 ^ 32} in_range) free
    ]
  where
    in_range : march_index ids next i < 2 ^ 32
    in_range = omega (arith, mod-lt (add64 (add32 next 1) i) pos)

-- The march ends on a free ID as soon as there is one.
pub march_finds :
    (ids : List Bool) (next : ℕ)
    → next < 2 ^ 31
    → length ids ≤ 2 ^ 32
    → next < length ids
    → count_reserved ids < length ids
    → get_or ids (march_loop ids next (length ids - 1) 0) true ≡ false
march_finds ids next small big lt room =
    let (j, in_range, free) = free_exists ids room in
    elim (ℕ_discrete j next) [
      | yes same ↦ march_loop_next ids next (length ids - 1) 0 (omega arith) big (rw same at free)
      | no other ↦
          let (i, fits, at) = march_reaches ids next j small big lt in_range other in
          march_loop_free ids next (length ids - 1) 0 i (omega arith) big (omega arith)
            (omega arith) (rw (← at) at free)
    ]

-- The search from below ends on the lowest free ID.
pub lowest_loop_finds :
    (ids : List Bool) (next k i j : ℕ)
    → length ids ≤ 2 ^ 32
    → i ≤ j
    → j < i + k
    → get_or ids j true ≡ false
    → ((m : ℕ) → m < i → get_or ids m false ≡ true)
    → (get_or ids (lowest_loop ids next k i) true ≡ false)
      × ((m : ℕ) → m < lowest_loop ids next k i → get_or ids m false ≡ true)
unfolding lowest_loop
lowest_loop_finds ids next zero i j small lo hi free below = absurd (omega arith)
lowest_loop_finds ids next (suc k) i j small lo hi free below =
    elim (Bool-cases (get_or ids i true)) [
      | inl taken ↦ rw taken (
          lowest_loop_finds ids next k (i + 1) j small (strict taken) (omega arith) free
            (extend taken))
      | inr here ↦ rw (here, mod-eq_of_lt {n = i} {m = 2 ^ 32} (in_range here)) (here, below)
    ]
  where
    in_range : get_or ids i true ≡ false → i < 2 ^ 32
    in_range here = omega (arith, free-lt-length ids i here)

    apart : get_or ids i true ≡ true → i ≢ j
    apart taken eq = let t : get_or ids j true ≡ true = rw (← eq) taken in cc (t, free)

    strict : get_or ids i true ≡ true → i + 1 ≤ j
    strict taken = omega (arith, apart taken)

    extend : get_or ids i true ≡ true → (m : ℕ) → m < i + 1 → get_or ids m false ≡ true
    extend taken m lt = elim (ℕ_discrete m i) [
      | yes same ↦ rw same (
          sym (get_or-in_range ids i (omega (arith, free-lt-length ids j free, strict taken)))
          ∙ taken)
      | no other ↦ below m (omega arith)
    ]
