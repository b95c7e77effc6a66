-- ===== src/Network/Adjustment.antt =====
-- The adjustment that the server calculates, Source/ServerLib/Network/Private/Client.cpp.
use amalgam_engine.Prelude.{
  ℕ, zero, suc, ◌+◌, ◌*◌, ◌≤◌, ◌<◌, ◌≡◌, ◌≢◌, refl, Bool, true, false, arith, ltb, if◌then◌else◌,
}
use amalgam_engine.Prelude.Int.{
  ℤ, pos, negsuc, pos_part, neg_part, ◌+ℤ◌, ◌-ℤ◌, ◌≤ℤ◌, +ℤ_parts, -ℤ_parts, eq_of_parts,
}
use amalgam_engine.Network.ServerClient.{
  CircularBuffer, to_sint8, trunc_quotient, sum_fresh, truncated_average, calc_adjustment,
  is_acceptable, tickdiff_target, min_fresh_diffs,
}
use native.Mathlib.Nat.{div-le_of_le-mul}

pub to_sint8_fits : (z : ℤ) → negsuc 127 ≤ℤ z → z ≤ℤ pos 127 → to_sint8 z ≡ z
unfolding to_sint8
to_sint8_fits (pos a) low high = ground arith
to_sint8_fits (negsuc a) low high = ground arith

trunc_quotient_bounds :
    (z : ℤ) (n low high : ℕ)
    → 0 < n
    → neg_part z ≤ n * low
    → pos_part z ≤ n * high
    → (neg_part (trunc_quotient z n) ≤ low) × (pos_part (trunc_quotient z n) ≤ high)
unfolding trunc_quotient
trunc_quotient_bounds (pos a) n low high p h g = (omega arith, div-le_of_le-mul n g)
trunc_quotient_bounds (negsuc a) n low high p h g =
    let q = div-le_of_le-mul n h in (ground arith, ground arith)

sub_add_cancel : (a b : ℤ) → a -ℤ b +ℤ b ≡ a
sub_add_cancel a b = eq_of_parts _ _ (omega (+ℤ_parts (a -ℤ b) b, -ℤ_parts a b, arith))

-- What passes four tests that each give no adjustment.
abbrev pub gated : Bool → Bool → Bool → Bool → ℤ → ℤ
gated a b c d x =
    if a then pos 0 else if b then pos 0 else if c then pos 0 else if d then pos 0 else x

pub gated_open :
    (a b c d : Bool) (x : ℤ)
    → gated a b c d x ≢ pos 0
    → (a ≡ false) × (b ≡ false) × (c ≡ false) × (gated a b c d x ≡ x)
gated_open true b c d x ne = absurd (ne refl)
gated_open false true c d x ne = absurd (ne refl)
gated_open false false true d x ne = absurd (ne refl)
gated_open false false false true x ne = absurd (ne refl)
gated_open false false false false x ne = (refl, refl, refl, refl)

add_parts :
    (a b : ℤ)
    → (neg_part (a +ℤ b) ≤ neg_part a + neg_part b) × (pos_part (a +ℤ b) ≤ pos_part a + pos_part b)
unfolding ◌+ℤ◌
add_parts a b = ground arith

module _ {H : Type 0} (buf : CircularBuffer H) where
  -- The first differences lie between -125 and 120.
  abbrev pub IsInRange : H → ℕ → Type 0
  IsInRange h n = (i : ℕ) → i < n → (negsuc 124 ≤ℤ buf.at h i) × (buf.at h i ≤ℤ pos 120)

  sum_fresh_bounds :
      (h : H) (n : ℕ)
      → IsInRange h n
      → (neg_part (sum_fresh buf h n) ≤ n * 125) × (pos_part (sum_fresh buf h n) ≤ n * 120)
  unfolding sum_fresh
  sum_fresh_bounds h zero r = (omega arith, omega arith)
  sum_fresh_bounds h (suc n) r =
      let rest = sum_fresh_bounds h n (λ i lt. r i (omega arith)) in
      let next = r n (omega arith) in ground (arith, add_parts (sum_fresh buf h n) (buf.at h n))

  truncated_average_bounds :
      (h : H) (n : ℕ)
      → 0 < n
      → IsInRange h n
      → (neg_part (truncated_average buf h n) ≤ 125) × (pos_part (truncated_average buf h n) ≤ 120)
  unfolding truncated_average
  truncated_average_bounds h n p r =
      let s = sum_fresh_bounds h n r in
      trunc_quotient_bounds (sum_fresh buf h n) n 125 120 p s.0 s.1

  -- With differences from -125 up, an adjustment that the server asks for comes from three fresh
  -- differences at least, answers a latest difference and an average outside the acceptable bounds,
  -- and moves that average exactly onto the target.
  pub calc_adjustment_reaches_target :
      (h : H) (n : ℕ)
      → IsInRange h n
      → calc_adjustment buf h n ≢ pos 0
      → (min_fresh_diffs ≤ n)
        × (is_acceptable (buf.at h 0) ≡ false)
        × (is_acceptable (truncated_average buf h n) ≡ false)
        × (calc_adjustment buf h n +ℤ truncated_average buf h n ≡ tickdiff_target)
  unfolding calc_adjustment
  calc_adjustment_reaches_target h n r ne =
      let avg = truncated_average buf h n in
      let (enough, latest, outside, e) =
        gated_open (ltb n min_fresh_diffs) (is_acceptable (buf.at h 0)) (is_acceptable avg) _
          (to_sint8 (tickdiff_target -ℤ avg)) ne in
      let bounds = truncated_average_bounds h n (ground arith) r in
      let fits =
        to_sint8_fits (tickdiff_target -ℤ avg) (omega (bounds, -ℤ_parts tickdiff_target avg, arith))
          (omega (bounds, -ℤ_parts tickdiff_target avg, arith)) in
      (ground arith, latest, outside, rw (e, fits) (sub_add_cancel tickdiff_target avg))
