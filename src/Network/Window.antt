-- ===== src/Network/Window.antt =====
-- The tick differences that the server holds of a client, Source/ServerLib/Network/Private/Client.cpp:
-- the circular buffer and the count of fresh differences against the list of those differences.
use amalgam_engine.Prelude.{
  ℕ, zero, suc, ◌+◌, ◌≤◌, ◌<◌, ◌≡◌, refl, ap, ◌∙◌, Bool, true, false, ◌&&◌, ◌||◌, List, [], ◌∷◌,
  arith, ltb, min, length, take, length-take, get_or, if◌then◌else◌,
}
use amalgam_engine.Prelude.Int.{ℤ, pos, ◌+ℤ◌, ◌-ℤ◌, ltb_ℤ, +ℤ_parts, eq_of_parts}
use amalgam_engine.Network.ServerClient.{
  CircularBuffer, to_sint8, trunc_quotient, sum_fresh, truncated_average, calc_adjustment,
  is_acceptable, tickdiff_target, tickdiff_history_length,
}
use amalgam_engine.Network.Adjustment.{gated}

total : List ℤ → ℤ
total [] = pos 0
total (d ∷ ds) = d +ℤ total ds

-- The adjustment that a list of differences, newest first, asks for.
unfoldable pub wanted_adjustment : List ℤ → ℤ
unfolding total trunc_quotient to_sint8
wanted_adjustment (d ∷ before ∷ third ∷ ds) =
    let average =
      trunc_quotient (total (d ∷ before ∷ third ∷ ds)) (length (d ∷ before ∷ third ∷ ds)) in
    if is_acceptable d || (is_acceptable average || (ltb_ℤ d tickdiff_target && ltb_ℤ before d))
    then pos 0
    else to_sint8 (tickdiff_target -ℤ average)
wanted_adjustment _ = pos 0

+ℤ-comm : (a b : ℤ) → a +ℤ b ≡ b +ℤ a
+ℤ-comm a b = eq_of_parts _ _ (omega (+ℤ_parts a b, +ℤ_parts b a, arith))

+ℤ-assoc : (a b c : ℤ) → a +ℤ (b +ℤ c) ≡ a +ℤ b +ℤ c
+ℤ-assoc a b c =
    eq_of_parts _ _
      (omega (+ℤ_parts a b, +ℤ_parts b c, +ℤ_parts a (b +ℤ c), +ℤ_parts (a +ℤ b) c, arith))

total-take :
    (n : ℕ) (ds : List ℤ)
    → n < length ds
    → total (take (suc n) ds) ≡ total (take n ds) +ℤ get_or ds n (pos 0)
unfolding total
total-take n [] lt = absurd (omega arith)
total-take zero (d ∷ ds) lt = +ℤ-comm d (pos 0)
total-take (suc n) (d ∷ ds) lt =
    rw (total-take n ds (omega arith)) (+ℤ-assoc d (total (take n ds)) _)

take_of_nil : {A : Type 0} (j k : ℕ) → take {A = A} j [] ≡ take k []
take_of_nil zero zero = refl
take_of_nil zero (suc k) = refl
take_of_nil (suc j) zero = refl
take_of_nil (suc j) (suc k) = refl

take-min : {A : Type 0} (k : ℕ) (xs : List A) → take (min k (length xs)) xs ≡ take k xs
take-min k [] = take_of_nil (min k 0) k
take-min zero (x ∷ xs) =
    let e : min 0 (suc (length xs)) ≡ 0 = omega arith in ap (λ j. take j (x ∷ xs)) e
take-min (suc k) (x ∷ xs) =
    let e : min (suc k) (suc (length xs)) ≡ suc (min k (length xs)) = omega arith in
    rw (e, take-min k xs) refl

gated_or : (b c d : Bool) (x : ℤ) → gated false b c d x ≡ (if b || (c || d) then pos 0 else x)
gated_or true c d x = refl
gated_or false true d x = refl
gated_or false false true x = refl
gated_or false false false x = refl

module _ {H : Type 0} (buf : CircularBuffer H) where
  -- The buffer holds the newest of the fresh differences.
  pub record IsFresh (h : H) (n : ℕ) (ds : List ℤ) : Type 0 where
    pub counted : n ≡ min tickdiff_history_length (length ds)
    pub held : (i : ℕ) → i < n → buf.at h i ≡ get_or ds i (pos 0)

  pub push-IsFresh :
      (h : H) (n : ℕ) (ds : List ℤ) (d : ℤ)
      → IsFresh h n ds
      → to_sint8 d ≡ d
      → IsFresh
          (buf.push h (to_sint8 d))
          (if ltb n tickdiff_history_length then n + 1 else n)
          (d ∷ ds)
  push-IsFresh h n ds d f fits = record { counted = ground (arith, f.counted); held = held_after }
    where
      held_after :
          (i : ℕ)
          → i < (if ltb n tickdiff_history_length then n + 1 else n)
          → buf.at (buf.push h (to_sint8 d)) i ≡ get_or (d ∷ ds) i (pos 0)
      held_after zero lt = rw fits (buf.at_pushed h d)
      held_after (suc j) lt =
          let below : suc j < tickdiff_history_length = ground (arith, f.counted) in
          buf.at_moved h (to_sint8 d) j below ∙ f.held j (ground (arith, f.counted))

  sum_fresh_lem :
      (h : H) (ds : List ℤ) (n : ℕ)
      → n ≤ length ds
      → ((i : ℕ) → i < n → buf.at h i ≡ get_or ds i (pos 0))
      → sum_fresh buf h n ≡ total (take n ds)
  unfolding sum_fresh total
  sum_fresh_lem h ds zero le held = refl
  sum_fresh_lem h ds (suc n) le held =
      rw
        (
          sum_fresh_lem h ds n (omega arith) (λ i lt. held i (omega arith)),
          held n (omega arith),
          total-take n ds (omega arith),
        )
        refl

  IsFresh-truncated_average :
      (h : H) (n : ℕ) (ds : List ℤ)
      → IsFresh h n ds
      → truncated_average buf h n
        ≡ trunc_quotient
            (total (take tickdiff_history_length ds))
            (length (take tickdiff_history_length ds))
  unfolding truncated_average
  IsFresh-truncated_average h n ds f =
      let sums = sum_fresh_lem h ds n (omega (arith, f.counted)) f.held in
      rw
        (
          sums,
          length-take tickdiff_history_length ds,
          f.counted,
          take-min tickdiff_history_length ds,
        )
        refl

  pub IsFresh-wanted_adjustment :
      (h : H) (n : ℕ) (ds : List ℤ)
      → IsFresh h n ds
      → calc_adjustment buf h n ≡ wanted_adjustment (take tickdiff_history_length ds)
  unfolding calc_adjustment wanted_adjustment
  IsFresh-wanted_adjustment h n [] f = rw f.counted refl
  IsFresh-wanted_adjustment h n (a ∷ []) f = rw f.counted refl
  IsFresh-wanted_adjustment h n (a ∷ b ∷ []) f = rw f.counted refl
  IsFresh-wanted_adjustment h n (a ∷ b ∷ c ∷ ds) f =
      let three : ltb n 3 ≡ false = ground (arith, f.counted) in
      let latest = f.held 0 (ground (arith, f.counted)) in
      let before = f.held 1 (ground (arith, f.counted)) in
      let first = take tickdiff_history_length (a ∷ b ∷ c ∷ ds) in
      let avg = trunc_quotient (total first) (length first) in
      let average = IsFresh-truncated_average h n (a ∷ b ∷ c ∷ ds) f in
      rw (calc_adjustment, three, latest, before, average)
        (gated_or (is_acceptable a) (is_acceptable avg) (ltb_ℤ a tickdiff_target && ltb_ℤ b a)
          (to_sint8 (tickdiff_target -ℤ avg)))

  pub none-IsFresh : (h : H) → IsFresh h 0 []
  none-IsFresh h = record { counted = omega arith; held = λ i lt. absurd (omega arith) }
