-- ===== src/EntityLocator/Tests.antt =====
-- Runs of the entity locator on a small grid around the origin.
use amalgam_engine.Prelude.{
  ◌≡◌, ◌⊎◌, refl, true, false, none, some, List, [], ◌∷◌, not, ◌==◌, if◌then◌else◌,
}
use amalgam_engine.Prelude.Int.{pos, negsuc, ◌+ℤ◌, ◌-ℤ◌}
use amalgam_engine.Prelude.Map.{lookup, insert, erase}
use amalgam_engine.DiscreteExtent.{DiscretePosition, DiscreteExtent, contains, intersect_with}
use amalgam_engine.EntityLocator.{
  EntityLocator, update_entity, remove_entity, get_entities, get_entities_broad, keep, scan,
  linearize_cell_index, set_grid_size, erase_first, clear_entity_from_cell, add_to_cell,
}
use amalgam_engine.EntityLocator.Tracking.{Moved, update_entity-Moved}
use amalgam_engine.EntityLocator.Sizing.{sized, sized-IsValid}
use amalgam_engine.EntityLocator.Axes.{Finds, within}
use amalgam_engine.EntityLocator.History.{
  Call, moved, removed, call, run, where_after, run-get_entities,
}

abbrev grid : DiscreteExtent
grid = record {
  x = negsuc 0;
  y = negsuc 0;
  z = pos 0;
  x_length = pos 3;
  y_length = pos 2;
  z_length = pos 2;
}

abbrev area : DiscreteExtent
area = record grid { x = pos 0; x_length = pos 9 }

abbrev west : DiscretePosition
west = record { x = negsuc 0; y = pos 0; z = pos 1 }

abbrev east : DiscretePosition
east = record { x = pos 1; y = negsuc 0; z = pos 0 }

abbrev outside : DiscretePosition
outside = record { x = pos 2; y = pos 0; z = pos 0 }

-- Entity 7 moves from the West to the East, 8 stays in the West, 9 leaves the grid and stays where it
-- was, and 5 is removed.
abbrev calls : List Call
calls =
    moved 7 west
    ∷ moved 8 west
    ∷ moved 9 east
    ∷ moved 5 east
    ∷ moved 7 east
    ∷ moved 9 outside
    ∷ removed 5
    ∷ []

abbrev last : EntityLocator
last = record {
  grid_cell_extent = grid;
  entity_grid = [] ∷ [] ∷ (9 ∷ 7 ∷ []) ∷ [] ∷ [] ∷ [] ∷ [] ∷ [] ∷ [] ∷ (8 ∷ []) ∷ [] ∷ [] ∷ [];
  entity_map = (7, east) ∷ (8, west) ∷ (9, east) ∷ [];
}

called : run (sized grid) calls ≡ some last
unfolding run call update_entity remove_entity set_grid_size linearize_cell_index contains
    erase_first lookup insert erase ◌+ℤ◌ ◌-ℤ◌ clear_entity_from_cell add_to_cell
called = refl

found : get_entities last area (λ e. not (e == 9)) ≡ some (7 ∷ [])
unfolding get_entities get_entities_broad keep scan intersect_with linearize_cell_index ◌+ℤ◌ ◌-ℤ◌
found = refl

run-get_entities_example :
    (l : EntityLocator) × (run (sized grid) calls ≡ some l)
    × Finds
        (get_entities l area (λ e. not (e == 9)))
        (λ e. if not (e == 9) then within area (where_after grid (λ f. none) calls e) else 0)
run-get_entities_example = run-get_entities grid area (λ e. not (e == 9)) calls

update_entity-Moved_example :
    ((contains (sized grid).grid_cell_extent west ≡ true)
      × (l' : EntityLocator) × (update_entity (sized grid) 7 west ≡ some (l', true))
      × Moved (sized grid) 7 (some west) l')
    ⊎ ((contains (sized grid).grid_cell_extent west ≡ false)
        × (update_entity (sized grid) 7 west ≡ some (sized grid, false)))
update_entity-Moved_example = update_entity-Moved (sized grid) 7 west (sized-IsValid grid)
