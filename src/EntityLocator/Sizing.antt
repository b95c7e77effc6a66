-- ===== src/EntityLocator/Sizing.antt =====
-- `setGridSize` of Source/SharedLib/Simulation/Private/EntityLocator.cpp on a new locator.
use amalgam_engine.Prelude.{
  ℕ, zero, suc, ◌+◌, ◌-◌, ◌≡◌, ◌≢◌, refl, ap, ◌∙◌, none, some, List, [], arith, length, get_or,
  replicate, length-replicate,
}
use amalgam_engine.Prelude.Map.{lookup, nat_eq}
use amalgam_engine.DiscreteExtent.{DiscretePosition, DiscreteExtent, max_position}
use amalgam_engine.EntityLocator.{EntityLocator, linearize_cell_index, set_grid_size, resize}
use amalgam_engine.EntityLocator.Cells.{linearize_cell_index-max}
use amalgam_engine.EntityLocator.Held.{count, Holds, IsValid}

none-some : (d : DiscretePosition) → none ≢ some d
none-some d h = cc

get_or-empty : (n i : ℕ) → get_or (replicate {A = List ℕ} n []) i [] ≡ []
get_or-empty zero i = refl
get_or-empty (suc n) zero = refl
get_or-empty (suc n) (suc i) = get_or-empty n i

resize_empty : (n : ℕ) → resize [] n ≡ replicate n []
resize_empty zero = refl
resize_empty (suc n) = let e : suc n - 0 ≡ suc n = omega arith in ap (λ k. replicate k []) e

-- A new locator, whose grid has been sized.
abbrev pub sized : DiscreteExtent → EntityLocator
sized extent =
    set_grid_size (record { grid_cell_extent = extent; entity_grid = []; entity_map = [] }) extent

module _ (extent : DiscreteExtent) where
  abbrev cells : ℕ
  cells = linearize_cell_index extent (max_position extent) + 1

  length-sized : length (resize [] cells) ≡ cells
  length-sized = ap length (resize_empty cells) ∙ length-replicate cells []

  empty-Holds : Holds extent (resize [] cells) (λ e. none)
  unfolding count
  empty-Holds e c h =
      ap (λ g. count e (get_or g (linearize_cell_index extent c) [])) (resize_empty cells)
      ∙ ap (count e) (get_or-empty cells (linearize_cell_index extent c))

  pub sized-IsValid : IsValid (sized extent)
  unfolding set_grid_size lookup
  sized-IsValid = record {
    in_grid = λ c h. omega (arith, length-sized, linearize_cell_index-max extent c h);
    placed = λ e c h. absurd (none-some c h);
    held = empty-Holds;
  }

  pub sized-extent : (sized extent).grid_cell_extent ≡ extent
  unfolding set_grid_size
  sized-extent = refl

  pub sized-lookup : (e : ℕ) → lookup e (sized extent).entity_map ≡ none
  unfolding set_grid_size lookup
  sized-lookup e = refl
