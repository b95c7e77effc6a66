-- ===== src/EntityLocator/Axes.antt =====
-- The loops of `getEntitiesBroad` over the axes, Source/SharedLib/Simulation/Private/EntityLocator.cpp.
use amalgam_engine.Prelude.{
  ℕ, zero, suc, ◌+◌, ◌≡◌, refl, ◌∙◌, Bool, true, false, Option, none, some, List, [], ◌∷◌, ◌++◌,
  arith, if◌then◌else◌,
}
use amalgam_engine.Prelude.Int.{ℤ, pos, negsuc, pos_part, ◌+ℤ◌, +ℤ_parts}
use amalgam_engine.Prelude.Map.{nat_eq}
use amalgam_engine.DiscreteExtent.{DiscretePosition, DiscreteExtent, contains, in_axis}
use amalgam_engine.EntityLocator.{eq_ℤ, scan}
use amalgam_engine.EntityLocator.Held.{count, at_cell}

pub count-append : (e : ℕ) (xs ys : List ℕ) → count e (xs ++ ys) ≡ count e xs + count e ys
unfolding count
count-append e [] ys = omega arith
count-append e (x ∷ xs) ys = ground (arith, count-append e xs ys)

-- A search that succeeds, and finds each entity so often.
abbrev pub Finds : Option (List ℕ) → (ℕ → ℕ) → Type 0
Finds result often = (found : List ℕ) × (result ≡ some found) × ((e : ℕ) → count e found ≡ often e)

-- One axis: at the coordinate where an entity is, its rows hold it so often.
abbrev pub on_axis : ℤ → ℤ → ℕ → ℕ
on_axis i at often = if eq_ℤ i at then often else 0

in_axis-next :
    (i at : ℤ) (n often : ℕ)
    → on_axis i at often + (if in_axis (i +ℤ pos 1) (pos n) at then often else 0)
      ≡ (if in_axis i (pos (suc n)) at then often else 0)
unfolding in_axis
in_axis-next i at n often =
    ground (arith, +ℤ_parts i (pos 1), +ℤ_parts (i +ℤ pos 1) (pos n), +ℤ_parts i (pos (suc n)))

in_axis-none : (i at : ℤ) → in_axis i (pos 0) at ≡ false
unfolding in_axis
in_axis-none i at = ground (arith, +ℤ_parts i (pos 0))

in_axis-first : (i : ℤ) (n : ℕ) → in_axis i (pos (suc n)) i ≡ true
unfolding in_axis
in_axis-first i n = ground (arith, +ℤ_parts i (pos (suc n)))

in_axis-later :
    (i t : ℤ) (n : ℕ) → in_axis (i +ℤ pos 1) (pos n) t ≡ true → in_axis i (pos (suc n)) t ≡ true
unfolding in_axis
in_axis-later i t n h =
    ground (arith, +ℤ_parts i (pos 1), +ℤ_parts (i +ℤ pos 1) (pos n), +ℤ_parts i (pos (suc n)))

-- As many rounds as the axis is long.
pub in_axis-rounds : (i length t : ℤ) → in_axis i (pos (pos_part length)) t ≡ in_axis i length t
unfolding in_axis
in_axis-rounds i (pos n) t = refl
in_axis-rounds i (negsuc n) t = ground (arith, +ℤ_parts i (pos 0), +ℤ_parts i (negsuc n))

pub scan-Finds :
    (body : ℤ → Option (List ℕ)) (at : ℕ → ℤ) (often : ℕ → ℕ) (i : ℤ) (n : ℕ)
    → ((t : ℤ) → in_axis i (pos n) t ≡ true → Finds (body t) (λ e. on_axis t (at e) (often e)))
    → Finds (scan body i n) (λ e. if in_axis i (pos n) (at e) then often e else 0)
unfolding scan count
scan-Finds body at often i zero rows = ([], refl, λ e. rw (in_axis-none i (at e)) refl)
scan-Finds body at often i (suc n) rows =
    let (found, first, here) = rows i (in_axis-first i n) in
    let (others, rest, there) =
      scan-Finds body at often (i +ℤ pos 1) n (λ t h. rows t (in_axis-later i t n h)) in
    (
      found ++ others,
      rw (scan, first, rest) refl,
      λ e. count-append e found others ∙ (rw (here e, there e) (in_axis-next i (at e) n (often e))),
    )

pub Finds-same :
    (result : Option (List ℕ)) (often often' : ℕ → ℕ)
    → ((e : ℕ) → often e ≡ often' e)
    → Finds result often
    → Finds result often'
Finds-same result often often' same (found, is, counts) = (found, is, λ e. counts e ∙ same e)

-- A coordinate of an entity, and whether it is tracked.
abbrev pub coordinate : (DiscretePosition → ℤ) → Option DiscretePosition → ℤ
coordinate f none = pos 0
coordinate f (some p) = f p

abbrev pub tracked : Option DiscretePosition → ℕ
tracked none = 0
tracked (some p) = 1

pub at_cell-axes :
    (o : Option DiscretePosition) (c : DiscretePosition)
    → at_cell o c
      ≡ on_axis c.x (coordinate (λ p. p.x) o) (
          on_axis c.y (coordinate (λ p. p.y) o) (on_axis c.z (coordinate (λ p. p.z) o) (tracked o)))
at_cell-axes none c = ground arith
at_cell-axes (some p) c = ground arith

pub on_axis-if :
    (b : Bool) (i at : ℤ) (often : ℕ)
    → (if b then on_axis i at often else 0) ≡ on_axis i at (if b then often else 0)
on_axis-if true i at often = refl
on_axis-if false i at often = ground arith

-- An entity is in an extent of cells.
abbrev pub within : DiscreteExtent → Option DiscretePosition → ℕ
within extent none = 0
within extent (some p) = if contains extent p then 1 else 0

pub within-axes :
    (extent : DiscreteExtent) (o : Option DiscretePosition)
    → (if in_axis extent.z (pos (pos_part extent.z_length)) (coordinate (λ p. p.z) o)
        then if in_axis extent.y (pos (pos_part extent.y_length)) (coordinate (λ p. p.y) o)
          then if in_axis extent.x (pos (pos_part extent.x_length)) (coordinate (λ p. p.x) o)
            then tracked o
            else 0
          else 0
        else 0)
      ≡ within extent o
unfolding contains
within-axes extent none = ground arith
within-axes extent (some p) =
    rw
      (
        in_axis-rounds extent.x extent.x_length p.x,
        in_axis-rounds extent.y extent.y_length p.y,
        in_axis-rounds extent.z extent.z_length p.z,
      )
      (ground arith)
