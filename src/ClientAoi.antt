-- ===== src/ClientAoi.antt =====
-- Source/ServerLib/Simulation/Private/ClientAOISystem.cpp, for one client: an entity is a number, and
-- the entity locator's answer an argument. A `registry.get` of a missing component is undefined
-- behaviour, and gives `none`. `std::sort` and `std::set_difference` are written out.
pub mod Differences
pub mod Tracking
pub mod Replication
mod Tests
use amalgam_engine.Prelude.{
  ℕ, Bool, true, false, ◌&&◌, List, [], ◌∷◌, ◌++◌, Option, none, some, ltb, ◌==◌, if◌then◌else◌,
}
use amalgam_engine.Prelude.Map.{lookup, insert, nat_eq}

-- `std::sort`
unfoldable pub insert_sorted : ℕ → List ℕ → List ℕ
insert_sorted e [] = e ∷ []
insert_sorted e (x ∷ xs) = if ltb x e then x ∷ insert_sorted e xs else e ∷ x ∷ xs

unfoldable pub sort : List ℕ → List ℕ
unfolding insert_sorted
sort [] = []
sort (x ∷ xs) = insert_sorted x (sort xs)

-- `std::set_difference` of sorted lists: the second is passed up to the element at hand.
unfoldable pub skip_below : ℕ → List ℕ → List ℕ
skip_below x [] = []
skip_below x (y ∷ ys) = if ltb y x then skip_below x ys else y ∷ ys

unfoldable pub set_difference : List ℕ → List ℕ → List ℕ
unfolding skip_below
set_difference [] ys = []
set_difference (x ∷ xs) ys = elim (skip_below x ys) [
  | [] ↦ x ∷ set_difference xs []
  | z ∷ zs ↦
      let both = set_difference xs zs in
      let first = x ∷ set_difference xs (z ∷ zs) in if z == x then both else first
]

-- `std::erase`
unfoldable pub erase_index : ℕ → List ℕ → List ℕ
erase_index i [] = []
erase_index i (j ∷ l) = if j == i then erase_index i l else j ∷ erase_index i l

-- An entity's ID, its position, and its components.
pub record EntityData (Vec Component : Type 0) : Type 0 where
  pub entity : ℕ
  pub position : Vec
  pub components : List Component

pub data AoiMessage (Vec Component : Type 0) : Type 0 where
  entity_delete : ℕ → ℕ → AoiMessage Vec Component
  entity_init : ℕ → List (EntityData Vec Component) → AoiMessage Vec Component

pub record Registry (Vec Component : Type 0) : Type 0 where
  -- the `InRangeInitComponentList` components
  pub type_indices : List (ℕ × List ℕ)
  -- an entity's component of a type index
  pub component : ℕ → ℕ → Option Component
  pub position : ℕ → Vec

pub record ClientSimData : Type 0 where
  pub net_id : ℕ
  pub entities_in_aoi : List ℕ

module _ {Vec Component : Type 0} where
  -- A component is constructed, and `onComponentConstructed` is called.
  unfoldable pub construct : Registry Vec Component → ℕ → ℕ → Component → Registry Vec Component
  construct r e i v = record r {
    type_indices =
        insert e (elim (lookup e r.type_indices) [ none ↦ i ∷ [] | some l ↦ l ++ i ∷ [] ])
          r.type_indices;
    component = λ a b. if a == e && b == i then some v else r.component a b;
  }

  -- A component is destroyed, and `onComponentDestroyed` is called.
  unfoldable pub destroy : Registry Vec Component → ℕ → ℕ → Registry Vec Component
  unfolding erase_index
  destroy r e i = record r {
    type_indices = elim (lookup e r.type_indices) [
      | none ↦ r.type_indices
      | some l ↦ insert e (erase_index i l) r.type_indices
    ];
    component = λ a b. if a == e && b == i then none else r.component a b;
  }

  -- `addComponentsToVector`
  unfoldable pub get_components : Registry Vec Component → ℕ → List ℕ → Option (List Component)
  get_components r e [] = some []
  get_components r e (i ∷ is) = elim (r.component e i) [
    | none ↦ none
    | some v ↦ elim (get_components r e is) [ none ↦ none | some vs ↦ some (v ∷ vs) ]
  ]

  -- The loop of `processEntitiesThatEntered`.
  unfoldable pub entered_data :
      Registry Vec Component → List ℕ → Option (List (EntityData Vec Component))
  unfolding get_components
  entered_data r [] = some []
  entered_data r (e ∷ es) = elim (lookup e r.type_indices) [
    | none ↦ none
    | some l ↦ elim (get_components r e l) [
      | none ↦ none
      | some vs ↦ elim (entered_data r es) [
        | none ↦ none
        | some ds ↦ some (record { entity = e; position = r.position e; components = vs } ∷ ds)
      ]
    ]
  ]

  -- `processEntitiesThatLeft`
  pub left_messages : ℕ → List ℕ → List (AoiMessage Vec Component)
  left_messages tick [] = []
  left_messages tick (e ∷ es) = entity_delete tick e ∷ left_messages tick es

  -- The body of the loop of `updateAOILists`: the client and the messages to it.
  unfoldable pub update_aoi_list :
      Registry Vec Component
      → ℕ
      → ClientSimData
      → List ℕ
      → Option (ClientSimData × List (AoiMessage Vec Component))
  unfolding sort set_difference entered_data left_messages
  update_aoi_list r tick client located =
      let current = sort located in
      let left = left_messages tick (set_difference client.entities_in_aoi current) in
      let updated = record client { entities_in_aoi = current } in
      elim (set_difference current client.entities_in_aoi) [
        | [] ↦ some (updated, left)
        | e ∷ es ↦ elim (entered_data r (e ∷ es)) [
          | none ↦ none
          | some ds ↦ some (updated, left ++ entity_init tick ds ∷ [])
        ]
      ]
