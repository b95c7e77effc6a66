-- ===== src/EntityLocator/Queries.antt =====
-- What getEntities of Source/SharedLib/Simulation/Private/EntityLocator.cpp finds.
use amalgam_engine.Prelude.{
  ℕ, ◌≡◌, refl, sym, ap, ◌∙◌, Bool, true, Option, none, some, List, [], ◌∷◌, arith, get_elem?,
  get_or, if◌then◌else◌,
}
use amalgam_engine.Prelude.Int.{ℤ, pos, pos_part}
use amalgam_engine.Prelude.Map.{lookup, nat_eq}
use amalgam_engine.DiscreteExtent.{
  DiscretePosition, DiscreteExtent, contains, in_axis, intersect_with,
}
use amalgam_engine.DiscreteExtent.Sets.{contains-intersect_with}
use amalgam_engine.EntityLocator.{
  EntityLocator, linearize_cell_index, scan, get_entities_broad, keep, get_entities,
}
use amalgam_engine.EntityLocator.Cells.{and_true}
use amalgam_engine.EntityLocator.Held.{count, IsValid, get_elem?-get_or}
use amalgam_engine.EntityLocator.Axes.{
  Finds, Finds-same, on_axis, scan-Finds, in_axis-rounds, at_cell-axes, on_axis-if, coordinate,
  tracked, within, within-axes,
}

count-keep :
    (is_inside : ℕ → Bool) (e : ℕ) (xs : List ℕ)
    → count e (keep is_inside xs) ≡ (if is_inside e then count e xs else 0)
unfolding count keep
count-keep is_inside e [] = ground arith
count-keep is_inside e (x ∷ xs) = ground (arith, count-keep is_inside e xs)

module _ (l : EntityLocator) (v : IsValid l) (clipped : DiscreteExtent)
    (inside : (c : DiscretePosition)
      → contains clipped c ≡ true
      → contains l.grid_cell_extent c ≡ true) where
  abbrev at : (DiscretePosition → ℤ) → ℕ → ℤ
  at f e = coordinate f (lookup e l.entity_map)

  abbrev InX : ℤ → Type 0
  InX t = in_axis clipped.x (pos (pos_part clipped.x_length)) t ≡ true

  abbrev InY : ℤ → Type 0
  InY t = in_axis clipped.y (pos (pos_part clipped.y_length)) t ≡ true

  abbrev InZ : ℤ → Type 0
  InZ t = in_axis clipped.z (pos (pos_part clipped.z_length)) t ≡ true

  cell-Finds :
      (x y z : ℤ)
      → InX x
      → InY y
      → InZ z
      → Finds
          (get_elem? l.entity_grid
            (linearize_cell_index l.grid_cell_extent (record { x = x; y = y; z = z })))
          (λ e. on_axis x (at (λ p. p.x) e) (
            on_axis y
              (at (λ p. p.y) e)
              (on_axis z (at (λ p. p.z) e) (tracked (lookup e l.entity_map)))))
  unfolding contains
  cell-Finds x y z hx hy hz =
      let c : DiscretePosition = record { x = x; y = y; z = z } in
      let hc : contains clipped c ≡ true =
        rw
          (
            contains,
            sym (in_axis-rounds clipped.x clipped.x_length x) ∙ hx,
            sym (in_axis-rounds clipped.y clipped.y_length y) ∙ hy,
            sym (in_axis-rounds clipped.z clipped.z_length z) ∙ hz,
          )
          refl in
      let here = inside c hc in
      (
        get_or l.entity_grid (linearize_cell_index l.grid_cell_extent c) [],
        get_elem?-get_or l.entity_grid _ [] (v.in_grid c here),
        λ e. v.held e c here ∙ at_cell-axes (lookup e l.entity_map) c,
      )

  abbrev in_x : ℕ → Bool
  in_x e = in_axis clipped.x (pos (pos_part clipped.x_length)) (at (λ p. p.x) e)

  abbrev in_y : ℕ → Bool
  in_y e = in_axis clipped.y (pos (pos_part clipped.y_length)) (at (λ p. p.y) e)

  abbrev cell_at : ℤ → ℤ → ℤ → Option (List ℕ)
  cell_at z y x =
      get_elem? l.entity_grid
        (linearize_cell_index l.grid_cell_extent (record { x = x; y = y; z = z }))

  abbrev row : ℤ → ℤ → Option (List ℕ)
  row z y = scan (cell_at z y) clipped.x (pos_part clipped.x_length)

  abbrev plane : ℤ → Option (List ℕ)
  plane z = scan (row z) clipped.y (pos_part clipped.y_length)

  row-Finds :
      (y z : ℤ)
      → InY y
      → InZ z
      → Finds (row z y) (λ e.
        on_axis y
          (at (λ p. p.y) e)
          (if in_x e then on_axis z (at (λ p. p.z) e) (tracked (lookup e l.entity_map)) else 0))
  row-Finds y z hy hz =
      let often : ℕ → ℕ = λ e. on_axis z (at (λ p. p.z) e) (tracked (lookup e l.entity_map)) in
      Finds-same _ _ _ (λ e. on_axis-if (in_x e) y (at (λ p. p.y) e) (often e))
        (scan-Finds (cell_at z y) (at (λ p. p.x)) (λ e. on_axis y (at (λ p. p.y) e) (often e))
          clipped.x (pos_part clipped.x_length) (λ x hx. cell-Finds x y z hx hy hz))

  plane-Finds :
      (z : ℤ)
      → InZ z
      → Finds (plane z) (λ e.
        on_axis z
          (at (λ p. p.z) e)
          (if in_y e then if in_x e then tracked (lookup e l.entity_map) else 0 else 0))
  plane-Finds z hz =
      let once : ℕ → ℕ = λ e. tracked (lookup e l.entity_map) in
      Finds-same _ _ _
        (λ e.
          ap (λ k. if in_y e then k else 0) (on_axis-if (in_x e) z (at (λ p. p.z) e) (once e))
          ∙ on_axis-if (in_y e) z (at (λ p. p.z) e) (if in_x e then once e else 0))
        (scan-Finds (row z) (at (λ p. p.y))
          (λ e. if in_x e then on_axis z (at (λ p. p.z) e) (once e) else 0) clipped.y
          (pos_part clipped.y_length) (λ y hy. row-Finds y z hy hz))

  pub clipped-Finds :
      Finds
        (scan plane clipped.z (pos_part clipped.z_length))
        (λ e. within clipped (lookup e l.entity_map))
  clipped-Finds =
      Finds-same _ _ _ (λ e. within-axes clipped (lookup e l.entity_map))
        (scan-Finds plane (at (λ p. p.z))
          (λ e. if in_y e then if in_x e then tracked (lookup e l.entity_map) else 0 else 0)
          clipped.z (pos_part clipped.z_length) (λ z hz. plane-Finds z hz))

within-clipped :
    (extent grid : DiscreteExtent) (o : Option DiscretePosition)
    → ((c : DiscretePosition) → o ≡ some c → contains grid c ≡ true)
    → within (intersect_with extent grid) o ≡ within extent o
within-clipped extent grid none placed = refl
within-clipped extent grid (some p) placed =
    rw (contains-intersect_with extent grid p, placed p refl) (ground arith)

module _ (l : EntityLocator) (extent : DiscreteExtent) where
  get_entities_broad-Finds :
      IsValid l → Finds (get_entities_broad l extent) (λ e. within extent (lookup e l.entity_map))
  unfolding get_entities_broad
  get_entities_broad-Finds v =
      Finds-same _ _ _
        (λ e.
          within-clipped extent l.grid_cell_extent (lookup e l.entity_map) (λ c h. v.placed e c h))
        (clipped-Finds l v (intersect_with extent l.grid_cell_extent) (λ c h.
          (and_true (contains extent c) (contains l.grid_cell_extent c)
            (sym (contains-intersect_with extent l.grid_cell_extent c) ∙ h)).1))

  -- What is found on a valid locator: no cell is read that is not there, and each entity that is
  -- tracked in the extent and passes the test of the narrow phase is found once, and no other.
  pub get_entities-Finds :
      (is_inside : ℕ → Bool)
      → IsValid l
      → Finds
          (get_entities l extent is_inside)
          (λ e. if is_inside e then within extent (lookup e l.entity_map) else 0)
  unfolding get_entities
  get_entities-Finds is_inside v =
      let (found, is, counts) = get_entities_broad-Finds v in
      (
        keep is_inside found,
        rw (get_entities, is) refl,
        λ e. count-keep is_inside e found ∙ ap (λ k. if is_inside e then k else 0) (counts e),
      )
