-- ===== src/IdPool/Loops.antt =====
-- The two searches of IDPool.cpp, and the count of reserved IDs that they rely on.
use native.Mathlib.Nat.{mod-eq_of_lt, mod-eq-sub-mod, mod-lt}
use amalgam_engine.Prelude.{
  ℕ, zero, suc, ◌+◌, ◌-◌, ◌^◌, ◌≤◌, ◌<◌, ◌≡◌, ◌≢◌, refl, ap, inl, inr, Bool, true, false, List, [],
  ◌∷◌, ◌++◌, arith, length, get_or, set, take, replicate, length-append, length-replicate,
  Bool-cases, ltb,
}
use amalgam_engine.IdPool.{add32, add64, resize, march_index, march_loop}

-- How many IDs are reserved.
abbrev pub count_reserved : List Bool → ℕ
count_reserved [] = 0
count_reserved (true ∷ xs) = suc (count_reserved xs)
count_reserved (false ∷ xs) = count_reserved xs

pub count_reserved-le : (xs : List Bool) → count_reserved xs ≤ length xs
count_reserved-le [] = omega arith
count_reserved-le (true ∷ xs) = omega (arith, count_reserved-le xs)
count_reserved-le (false ∷ xs) = omega (arith, count_reserved-le xs)

pub count_reserved-append :
    (xs ys : List Bool) → count_reserved (xs ++ ys) ≡ count_reserved xs + count_reserved ys
count_reserved-append [] ys = omega arith
count_reserved-append (true ∷ xs) ys = omega (arith, count_reserved-append xs ys)
count_reserved-append (false ∷ xs) ys = omega (arith, count_reserved-append xs ys)

pub count_reserved-replicate : (n : ℕ) → count_reserved (replicate n false) ≡ 0
count_reserved-replicate zero = refl
count_reserved-replicate (suc n) = count_reserved-replicate n

pub count_reserved-set-true :
    (xs : List Bool) (i : ℕ)
    → i < length xs
    → get_or xs i true ≡ false
    → count_reserved (set xs i true) ≡ count_reserved xs + 1
count_reserved-set-true [] i h e = absurd (omega arith)
count_reserved-set-true (x ∷ xs) zero h e = ground arith
count_reserved-set-true (true ∷ xs) (suc i) h e =
    omega (arith, count_reserved-set-true xs i (omega arith) e)
count_reserved-set-true (false ∷ xs) (suc i) h e = count_reserved-set-true xs i (omega arith) e

pub count_reserved-set-false :
    (xs : List Bool) (i : ℕ)
    → i < length xs
    → get_or xs i true ≡ true
    → count_reserved (set xs i false) + 1 ≡ count_reserved xs
count_reserved-set-false [] i h e = absurd (omega arith)
count_reserved-set-false (x ∷ xs) zero h e = ground arith
count_reserved-set-false (true ∷ xs) (suc i) h e =
    omega (arith, count_reserved-set-false xs i (omega arith) e)
count_reserved-set-false (false ∷ xs) (suc i) h e = count_reserved-set-false xs i (omega arith) e

-- While not all IDs are reserved, one is free.
pub free_exists :
    (xs : List Bool)
    → count_reserved xs < length xs
    → (j : ℕ) × (j < length xs) × (get_or xs j true ≡ false)
free_exists [] h = absurd (omega arith)
free_exists (false ∷ xs) h = (0, omega arith, refl)
free_exists (true ∷ xs) h = let (j, lt, e) = free_exists xs (omega arith) in (suc j, omega arith, e)

pub free-lt-length : (xs : List Bool) (i : ℕ) → get_or xs i true ≡ false → i < length xs
free-lt-length [] i e = cc
free-lt-length (x ∷ xs) zero e = omega arith
free-lt-length (x ∷ xs) (suc i) e = omega (arith, free-lt-length xs i e)

-- Growing keeps the entries, and adds free ones.
pub take_all {ℓ} : {A : Type ℓ} (xs : List A) (n : ℕ) → length xs ≤ n → take n xs ≡ xs
take_all [] zero h = refl
take_all [] (suc n) h = refl
take_all (x ∷ xs) zero h = absurd (omega arith)
take_all (x ∷ xs) (suc n) h = ap (◌∷◌ x) (take_all xs n (omega arith))

pub resize_up :
    (xs : List Bool) (n : ℕ) → length xs ≤ n → resize xs n ≡ xs ++ replicate (n - length xs) false
unfolding resize
resize_up xs n h = rw (take_all xs n h)

pub length-resize : (xs : List Bool) (n : ℕ) → length xs ≤ n → length (resize xs n) ≡ n
length-resize xs n h = rw (resize_up xs n h) (
    omega (
      arith,
      length-append xs (replicate (n - length xs) false),
      length-replicate (n - length xs) false,
    ))

pub count_reserved-resize :
    (xs : List Bool) (n : ℕ) → length xs ≤ n → count_reserved (resize xs n) ≡ count_reserved xs
count_reserved-resize xs n h = rw (resize_up xs n h) (
    omega (
      arith,
      count_reserved-append xs (replicate (n - length xs) false),
      count_reserved-replicate (n - length xs),
    ))

pub get_or-append_left {ℓ} :
    {A : Type ℓ} (xs ys : List A) (i : ℕ) (d : A)
    → i < length xs
    → get_or (xs ++ ys) i d ≡ get_or xs i d
get_or-append_left [] ys i d h = absurd (omega arith)
get_or-append_left (x ∷ xs) ys zero d h = refl
get_or-append_left (x ∷ xs) ys (suc i) d h = get_or-append_left xs ys i d (omega arith)

pub get_or-append_free :
    (xs : List Bool) (n i : ℕ)
    → length xs ≤ i
    → i < length xs + n
    → get_or (xs ++ replicate n false) i true ≡ false
get_or-append_free [] zero i a b = absurd (omega arith)
get_or-append_free [] (suc n) zero a b = refl
get_or-append_free [] (suc n) (suc i) a b = get_or-append_free [] n i (omega arith) (omega arith)
get_or-append_free (x ∷ xs) n zero a b = absurd (omega arith)
get_or-append_free (x ∷ xs) n (suc i) a b = get_or-append_free xs n i (omega arith) (omega arith)

-- If some round of the march meets a free ID, its result is free.
pub march_loop_free :
    (ids : List Bool) (next k i j : ℕ)
    → 0 < length ids
    → length ids ≤ 2 ^ 32
    → i ≤ j
    → j < i + k
    → get_or ids (march_index ids next j) true ≡ false
    → get_or ids (march_loop ids next k i) true ≡ false
unfolding march_loop
march_loop_free ids next zero i j pos small lo hi e = absurd (omega arith)
march_loop_free ids next (suc k) i j pos small lo hi e =
    elim (Bool-cases (get_or ids (march_index ids next i) true)) [
      | inl taken ↦
          rw taken (march_loop_free ids next k (i + 1) j pos small (strict taken) (omega arith) e)
      | inr free ↦ rw (free, mod-eq_of_lt {n = march_index ids next i} {m = 2 ^ 32} in_range) free
    ]
  where
    in_range : march_index ids next i < 2 ^ 32
    in_range = omega (arith, mod-lt (add64 (add32 next 1) i) pos)

    apart : get_or ids (march_index ids next i) true ≡ true → i ≢ j
    apart taken eq = false-ne-true (sym' e (subst' eq taken))
      where
        subst' :
            i ≡ j
            → get_or ids (march_index ids next i) true ≡ true
            → get_or ids (march_index ids next j) true ≡ true
        subst' q t = rw q at t

        sym' :
            get_or ids (march_index ids next j) true ≡ false
            → get_or ids (march_index ids next j) true ≡ true
            → ◌≡◌ {A = Bool} false true
        sym' p q = cc

        false-ne-true : ◌≡◌ {A = Bool} false true → ⊥
        false-ne-true p = cc

    strict : get_or ids (march_index ids next i) true ≡ true → i + 1 ≤ j
    strict taken = omega (arith, apart taken)

-- Every other ID is visited by the march.
pub march_reaches :
    (ids : List Bool) (next j : ℕ)
    → next < 2 ^ 31
    → length ids ≤ 2 ^ 32
    → next < length ids
    → j < length ids
    → j ≢ next
    → (i : ℕ) × (i < length ids - 1) × (march_index ids next i ≡ j)
march_reaches ids next j small big a b h = elim (Bool-cases (ltb next j)) [
  | inl lt ↦ (j - next - 1, ground arith, direct (ground arith))
  | inr ge ↦ (j + length ids - next - 1, ground arith, wrapped (ground arith))
]
  where
    direct : next < j → march_index ids next (j - next - 1) ≡ j
    direct lt =
        let e : add64 (add32 next 1) (j - next - 1) ≡ j = omega arith in rw e (mod-eq_of_lt b)

    wrapped : j < next → march_index ids next (j + length ids - next - 1) ≡ j
    wrapped lt =
        let e : add64 (add32 next 1) (j + length ids - next - 1) ≡ j + length ids = omega arith in
        rw (e, mod-eq-sub-mod {n = j + length ids} {m = length ids} (omega arith))
          (let f : j + length ids - length ids ≡ j = omega arith in rw f (mod-eq_of_lt b))
