-- ===== src/EntityLocator.antt =====
-- Source/SharedLib/Simulation/Private/EntityLocator.cpp and Public/EntityLocator.h: the grid of cells
-- that says which entities are in a part of the world. An entity is its number. The cell of a
-- position and the cells that a cylinder or a box covers are floating-point arithmetic and given, as
-- is the test of an entity's position in the narrow phase. `none` is an access behind the grid's end.
pub mod Cells
pub mod Held
pub mod Tracking
pub mod Sizing
pub mod Axes
pub mod Queries
pub mod History
mod Tests
use amalgam_engine.Prelude.{
  ℕ, zero, suc, ◌+◌, ◌-◌, ◌*◌, ◌^◌, Bool, true, false, ◌&&◌, Option, none, some, List, [], ◌∷◌,
  ◌++◌, ◌==◌, length, get_elem?, set, take, replicate, if◌then◌else◌,
}
use amalgam_engine.Prelude.Int.{ℤ, pos, negsuc, pos_part, ◌+ℤ◌, ◌-ℤ◌, leb_ℤ}
use amalgam_engine.Prelude.Map.{lookup, insert, erase, nat_eq}
use amalgam_engine.DiscreteExtent.{
  DiscretePosition, DiscreteExtent, max_position, intersect_with, contains,
}

-- A product of `int`s.
abbrev pub neg_of : ℕ → ℤ
neg_of zero = pos 0
neg_of (suc n) = negsuc n

infixl 70 ◌*ℤ◌
abbrev pub ◌*ℤ◌ : ℤ → ℤ → ℤ
pos a *ℤ pos b = pos (a * b)
pos a *ℤ negsuc b = neg_of (a * suc b)
negsuc a *ℤ pos b = neg_of (suc a * b)
negsuc a *ℤ negsuc b = pos (suc a * suc b)

-- An `int` as a `std::size_t`.
abbrev pub to_size_t : ℤ → ℕ
to_size_t (pos n) = n
to_size_t (negsuc n) = 2 ^ 64 - suc n

abbrev pub eq_ℤ : ℤ → ℤ → Bool
eq_ℤ a b = leb_ℤ a b && leb_ℤ b a

-- `operator==` of a position
abbrev pub position_eq : DiscretePosition → DiscretePosition → Bool
position_eq p q = eq_ℤ p.x q.x && (eq_ℤ p.y q.y && eq_ℤ p.z q.z)

pub record EntityLocator : Type 0 where
  pub grid_cell_extent : DiscreteExtent
  pub entity_grid : List (List ℕ)
  pub entity_map : List (ℕ × DiscretePosition)

-- `linearizeCellIndex`
unfoldable pub linearize_cell_index : DiscreteExtent → DiscretePosition → ℕ
linearize_cell_index e p =
    to_size_t
      (e.x_length *ℤ e.y_length *ℤ (p.z -ℤ e.z) +ℤ e.x_length *ℤ (p.y -ℤ e.y) +ℤ (p.x -ℤ e.x))

-- `std::vector::resize`
abbrev pub resize : List (List ℕ) → ℕ → List (List ℕ)
resize grid n = take n grid ++ replicate (n - length grid) []

-- `setGridSize`, with the cells that cover the map
unfoldable pub set_grid_size : EntityLocator → DiscreteExtent → EntityLocator
set_grid_size l extent = record l {
  grid_cell_extent = extent;
  entity_grid = resize l.entity_grid (linearize_cell_index extent (max_position extent) + 1);
}

-- The first of the entities that is this one is erased.
unfoldable pub erase_first : ℕ → List ℕ → List ℕ
erase_first e [] = []
erase_first e (x ∷ xs) = if x == e then xs else x ∷ erase_first e xs

-- `clearEntityFromCell`
unfoldable pub clear_entity_from_cell : EntityLocator → ℕ → DiscretePosition → Option EntityLocator
clear_entity_from_cell l e c =
    let index = linearize_cell_index l.grid_cell_extent c in
    elim (get_elem? l.entity_grid index) [
      | none ↦ none
      | some cell ↦ some (record l { entity_grid = set l.entity_grid index (erase_first e cell) })
    ]

-- The part of `updateEntity` that adds the entity to a cell.
unfoldable pub add_to_cell : EntityLocator → ℕ → DiscretePosition → Option (EntityLocator × Bool)
add_to_cell l e c =
    let index = linearize_cell_index l.grid_cell_extent c in
    elim (get_elem? l.entity_grid index) [
      | none ↦ none
      | some cell ↦ some (
        record l {
          entity_grid = set l.entity_grid index (cell ++ (e ∷ []));
          entity_map = insert e c l.entity_map;
        },
        true,
      )
    ]

-- `updateEntity`, with the cell of the entity's position
unfoldable pub update_entity : EntityLocator → ℕ → DiscretePosition → Option (EntityLocator × Bool)
unfolding clear_entity_from_cell add_to_cell
update_entity l e c =
    if contains l.grid_cell_extent c
    then elim (lookup e l.entity_map) [
      | none ↦ add_to_cell l e c
      | some old ↦
          if position_eq c old then some (l, true) else elim (clear_entity_from_cell l e old) [
            | none ↦ none
            | some cleared ↦ add_to_cell cleared e c
          ]
    ]
    else some (l, false)

-- `removeEntity`
unfoldable pub remove_entity : EntityLocator → ℕ → Option EntityLocator
unfolding clear_entity_from_cell
remove_entity l e = elim (lookup e l.entity_map) [
  | none ↦ some l
  | some c ↦ elim (clear_entity_from_cell l e c) [
    | none ↦ none
    | some cleared ↦ some (record cleared { entity_map = erase e cleared.entity_map })
  ]
]

-- A loop of `getEntitiesBroad` over one axis, whose body appends to the result.
unfoldable pub scan : (ℤ → Option (List ℕ)) → ℤ → ℕ → Option (List ℕ)
scan body i zero = some []
scan body i (suc rounds) = elim (body i) [
  | none ↦ none
  | some found ↦ elim (scan body (i +ℤ pos 1) rounds) [
    | none ↦ none
    | some rest ↦ some (found ++ rest)
  ]
]

-- `getEntitiesBroad`, of all overloads, with the cells that the given shape covers. A loop from `x` to
-- `xMax()` has as many rounds as the extent is long.
unfoldable pub get_entities_broad : EntityLocator → DiscreteExtent → Option (List ℕ)
get_entities_broad l extent =
    let clipped = intersect_with extent l.grid_cell_extent in
    scan
      (λ z.
        scan
          (λ y.
            scan
              (λ x.
                get_elem? l.entity_grid
                  (linearize_cell_index l.grid_cell_extent (record { x = x; y = y; z = z })))
              clipped.x (pos_part clipped.x_length))
          clipped.y (pos_part clipped.y_length))
      clipped.z (pos_part clipped.z_length)

-- `std::erase_if` of what is not inside
unfoldable pub keep : (ℕ → Bool) → List ℕ → List ℕ
keep is_inside [] = []
keep is_inside (e ∷ es) = if is_inside e then e ∷ keep is_inside es else keep is_inside es

-- `getEntities`, of all overloads
unfoldable pub get_entities : EntityLocator → DiscreteExtent → (ℕ → Bool) → Option (List ℕ)
get_entities l extent is_inside = elim (get_entities_broad l extent) [
  | none ↦ none
  | some found ↦ some (keep is_inside found)
]
