-- ===== src/EntityLocator/Tracking.antt =====
-- The operations that move entities: setGridSize, updateEntity and removeEntity of
-- Source/SharedLib/Simulation/Private/EntityLocator.cpp.
use amalgam_engine.Prelude.{
  ℕ, ◌≡◌, refl, sym, ap, subst, ◌∙◌, ◌⊎◌, inl, inr, Bool, true, false, Option, none, some, [], ◌∷◌,
  ◌++◌, ◌==◌, ==_iff, arith, get_elem?, get_or, set, Bool-cases, Option-cases, if◌then◌else◌,
}
use amalgam_engine.Prelude.Map.{lookup, insert, erase, nat_eq}
use amalgam_engine.DiscreteExtent.{DiscretePosition, contains}
use amalgam_engine.EntityLocator.{
  EntityLocator, linearize_cell_index, position_eq, erase_first, add_to_cell,
  clear_entity_from_cell, update_entity, remove_entity,
}
use amalgam_engine.EntityLocator.Held.{
  at_cell, Holds, Fits, set-Fits, add-Holds, erase-Holds, get_elem?-get_or, position_eq_sound,
  Changed, insert-Changed, erase-Changed, IsValid,
}

-- An entity is tracked at a cell now, and all others as they were.
pub record Moved (l : EntityLocator) (e : ℕ) (o : Option DiscretePosition) (l' : EntityLocator)
    : Type 0 where
  pub valid : IsValid l'
  pub same_extent : l'.grid_cell_extent ≡ l.grid_cell_extent
  pub tracked : Changed (λ f. lookup f l.entity_map) (λ f. lookup f l'.entity_map) e o

choice :
    (b : Bool) (o p : Option DiscretePosition) (d : DiscretePosition)
    → (if b then o else p) ≡ some d
    → ((b ≡ true) × (o ≡ some d)) ⊎ ((b ≡ false) × (p ≡ some d))
choice true o p d h = inl (refl, h)
choice false o p d h = inr (refl, h)

some_injective : (c d : DiscretePosition) → some c ≡ some d → c ≡ d
some_injective c d h = cc

module _ (w : ℕ → Option DiscretePosition) (e : ℕ) where
  unchanged : (o : Option DiscretePosition) → w e ≡ o → Changed w w e o
  unchanged o h f = elim (Bool-cases (e == f)) [
    | inl same ↦ rw same (subst (λ x. w x ≡ o) ((==_iff e f).0 same) h)
    | inr other ↦ rw other refl
  ]

  abbrev without : ℕ → Option DiscretePosition
  without f = if e == f then none else w f

  without_self : without e ≡ none
  without_self = let same : (e == e) ≡ true = ground arith in rw same refl

  without-Changed : (o : Option DiscretePosition) → w e ≡ o → Changed without w e o
  without-Changed o h f = elim (Bool-cases (e == f)) [
    | inl same ↦ rw same (subst (λ x. w x ≡ o) ((==_iff e f).0 same) h)
    | inr other ↦ rw other refl
  ]

  without-some : (f : ℕ) (d : DiscretePosition) → without f ≡ some d → w f ≡ some d
  without-some f d h = elim (choice (e == f) none (w f) d h) [
    | inl (_, absent) ↦ cc
    | inr (_, there) ↦ there
  ]

Changed-placed :
    (P : DiscretePosition → Type 0) (before after : ℕ → Option DiscretePosition) (e : ℕ)
    (c : DiscretePosition)
    → Changed before after e (some c)
    → P c
    → ((f : ℕ) (d : DiscretePosition) → before f ≡ some d → P d)
    → (f : ℕ) (d : DiscretePosition) → after f ≡ some d
    → P d
Changed-placed P before after e c step here placed f d h =
    elim (choice (e == f) (some c) (before f) d (sym (step f) ∙ h)) [
      | inl (_, same) ↦ subst P (some_injective c d same) here
      | inr (_, there) ↦ placed f d there
    ]

module _ (l : EntityLocator) (e : ℕ) where
  abbrev lookups : ℕ → Option DiscretePosition
  lookups f = lookup f l.entity_map

  cell_there :
      (c : DiscretePosition)
      → Fits l.grid_cell_extent l.entity_grid
      → contains l.grid_cell_extent c ≡ true
      → get_elem? l.entity_grid (linearize_cell_index l.grid_cell_extent c)
        ≡ some (get_or l.entity_grid (linearize_cell_index l.grid_cell_extent c) [])
  cell_there c fits h = get_elem?-get_or l.entity_grid _ [] (fits c h)

  add_to_cell-Moved :
      (c : DiscretePosition) (o : Option DiscretePosition) (before : ℕ → Option DiscretePosition)
      → Fits l.grid_cell_extent l.entity_grid
      → contains l.grid_cell_extent c ≡ true
      → Holds l.grid_cell_extent l.entity_grid before
      → before e ≡ none
      → Changed before lookups e o
      → ((f : ℕ) (d : DiscretePosition) → before f ≡ some d → contains l.grid_cell_extent d ≡ true)
      → (l' : EntityLocator) × (add_to_cell l e c ≡ some (l', true)) × Moved l e (some c) l'
  unfolding add_to_cell
  add_to_cell-Moved c o before fits hc holds absent step placed =
      let index = linearize_cell_index l.grid_cell_extent c in
      let step' = insert-Changed l.entity_map e c before o step in
      (
        record l {
          entity_grid = set l.entity_grid index (get_or l.entity_grid index [] ++ (e ∷ []));
          entity_map = insert e c l.entity_map;
        },
        rw (add_to_cell, cell_there c fits hc) refl,
        record {
          valid = record {
            in_grid = set-Fits l.grid_cell_extent l.entity_grid index _ fits;
            placed =
                Changed-placed (λ d. contains l.grid_cell_extent d ≡ true) before _ e c step' hc
                  placed;
            held =
                add-Holds l.grid_cell_extent l.entity_grid before _ e c fits hc holds absent step';
          };
          same_extent = refl;
          tracked =
              insert-Changed l.entity_map e c lookups (lookups e)
                (unchanged lookups e (lookups e) refl);
        },
      )

  abbrev cleared : DiscretePosition → EntityLocator
  cleared c =
      let index = linearize_cell_index l.grid_cell_extent c in
      record l {
        entity_grid = set l.entity_grid index (erase_first e (get_or l.entity_grid index []));
      }

  clear_entity_from_cell_lem :
      (c : DiscretePosition)
      → IsValid l
      → lookup e l.entity_map ≡ some c
      → (clear_entity_from_cell l e c ≡ some (cleared c))
        × Fits l.grid_cell_extent (cleared c).entity_grid
        × Holds l.grid_cell_extent (cleared c).entity_grid (without lookups e)
  unfolding clear_entity_from_cell
  clear_entity_from_cell_lem c v there =
      let hc = v.placed e c there in
      (
        rw (clear_entity_from_cell, cell_there c v.in_grid hc) refl,
        set-Fits l.grid_cell_extent l.entity_grid _ _ v.in_grid,
        erase-Holds l.grid_cell_extent l.entity_grid lookups (without lookups e) e c v.in_grid hc
            v.held there (λ f. refl),
      )

  already_there :
      (c : DiscretePosition) → IsValid l → lookup e l.entity_map ≡ some c → Moved l e (some c) l
  already_there c v there = record {
    valid = v;
    same_extent = refl;
    tracked = unchanged lookups e (some c) there;
  }

module _ (l : EntityLocator) (e : ℕ) where
  -- The part of `updateEntity` for an entity that is in another cell.
  move-Moved :
      (old c : DiscretePosition)
      → IsValid l
      → lookup e l.entity_map ≡ some old
      → contains l.grid_cell_extent c ≡ true
      → (l' : EntityLocator) × (add_to_cell (cleared l e old) e c ≡ some (l', true))
        × Moved l e (some c) l'
  move-Moved old c v there within =
      let (_, fits, holds) = clear_entity_from_cell_lem l e old v there in
      let w = lookups l e in
      let (l', added, moved) =
        add_to_cell-Moved (cleared l e old) e c (some old) (without w e) fits within holds
          (without_self w e) (without-Changed w e (some old) there)
          (λ f d h. v.placed f d (without-some w e f d h)) in
      (
        l',
        added,
        record { valid = moved.valid; same_extent = moved.same_extent; tracked = moved.tracked },
      )

  -- `updateEntity` of an entity whose position is in a cell of the grid, on a valid locator, reads no
  -- cell that is not there and succeeds: the entity is tracked at that cell, wherever it was before,
  -- every other entity is as it was, and the locator stays valid. Outside the grid it fails and
  -- changes nothing.
  pub update_entity-Moved :
      (c : DiscretePosition)
      → IsValid l
      → ((contains l.grid_cell_extent c ≡ true)
          × (l' : EntityLocator) × (update_entity l e c ≡ some (l', true))
          × Moved l e (some c) l')
        ⊎ ((contains l.grid_cell_extent c ≡ false) × (update_entity l e c ≡ some (l, false)))
  unfolding update_entity
  update_entity-Moved c v = elim (Bool-cases (contains l.grid_cell_extent c)) [
    | inr out ↦ inr (out, rw out refl)
    | inl within ↦ elim (Option-cases (lookup e l.entity_map)) [
      | inl absent ↦
          let (l', added, moved) =
            add_to_cell-Moved l e c none (lookups l e) v.in_grid within v.held absent
              (unchanged (lookups l e) e none absent) v.placed in
          inl (within, l', rw (within, absent) added, moved)
      | inr (old, there) ↦ elim (Bool-cases (position_eq c old)) [
        | inl same ↦
            let e' = position_eq_sound c old same in
            inl (
              within,
              l,
              rw (within, there, same) refl,
              already_there l e c v (there ∙ ap some (sym e')),
            )
        | inr other ↦
            let (l', added, moved) = move-Moved old c v there within in
            let (cleared_is, _, _) = clear_entity_from_cell_lem l e old v there in
            inl (within, l', rw (within, there, other, cleared_is) added, moved)
      ]
    ]
  ]

  -- `removeEntity` on a valid locator reads no cell that is not there: the entity is tracked no more,
  -- every other entity is as it was, and the locator stays valid.
  pub remove_entity-Moved :
      IsValid l → (l' : EntityLocator) × (remove_entity l e ≡ some l') × Moved l e none l'
  unfolding remove_entity
  remove_entity-Moved v = elim (Option-cases (lookup e l.entity_map)) [
    | inl absent ↦ (
      l,
      rw (remove_entity, absent) refl,
      record { valid = v; same_extent = refl; tracked = unchanged (lookups l e) e none absent },
    )
    | inr (c, there) ↦
        let (cleared_is, fits, holds) = clear_entity_from_cell_lem l e c v there in
        let gone = erase-Changed l.entity_map e in
        (
          record (cleared l e c) { entity_map = erase e l.entity_map },
          rw (remove_entity, there, cleared_is) refl,
          record {
            valid = record {
              in_grid = fits;
              placed = λ f d h. v.placed f d (without-some (lookups l e) e f d (sym (gone f) ∙ h));
              held = λ f d hd. holds f d hd ∙ ap (λ o. at_cell o d) (sym (gone f));
            };
            same_extent = refl;
            tracked = gone;
          },
        )
  ]
