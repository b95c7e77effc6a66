-- ===== src/CastHelper.antt =====
-- Source/ServerLib/Simulation/Private/CastHelper.cpp. The registry's components that the code only
-- reads, the collision locator, the map, the project's validation and the floating-point numbers are
-- parameters (`World`); the components that it changes are the state. `none` is `entt::null`.
pub mod Checks
pub mod Casts
pub mod Effects
mod Tests
use amalgam_engine.Prelude.{
  ℕ, Bool, true, false, not, ◌&&◌, ◌||◌, List, [], ◌∷◌, Option, none, some, ◌==◌, if◌then◌else◌,
}
use amalgam_engine.Prelude.Map.{lookup, insert, nat_eq}
use amalgam_engine.CastCooldown.{CastCooldown, is_cast_on_cooldown}
use amalgam_engine.ItemData.{Item, ItemData, supports_interaction}
use amalgam_engine.Inventory.{Inventory, get_item}

pub data CastFailureType : Type 0 where
  no_failure invalid_castable already_casting on_cooldown out_of_range line_of_sight :
      CastFailureType
  invalid_item interaction_not_supported invalid_caster_entity invalid_target_entity :
      CastFailureType
  invalid_target_position project_validation_failed movement : CastFailureType

pub data TargetType : Type 0 where
  self entity self_or_entity circle : TargetType

-- The fields of `Castable` that the casting code reads. A castable ID, a variant of three `Uint8`
-- enums, is the number 256 * (its alternative) + (its value); of the lists of effects only the length
-- counts.
pub record Castable (Float : Type 0) : Type 0 where
  pub castable_id : ℕ
  pub target_type : TargetType
  pub range : Float
  pub radius : Float
  pub cast_time : Float
  pub cooldown_time : Float
  pub triggers_gcd : Bool
  pub is_tick_synchronized : Bool
  pub casting_graphic_type : ℕ
  pub cast_complete_graphic_type : ℕ
  pub cast_complete_visual_effects : ℕ
  pub cast_complete_av_entities : ℕ

pub record World (Float Vec : Type 0) : Type 0 where
  pub times : Float → Float → Float
  pub gt : Float → Float → Bool
  pub is_zero : Float → Bool
  pub is_positive : Float → Bool
  -- `static_cast<Uint32>(seconds / SharedConfig::SIM_TICK_TIMESTEP_S)`
  pub ticks : Float → ℕ
  pub squared_distance : Vec → Vec → Float
  pub ne : Vec → Vec → Bool
  pub valid : ℕ → Bool
  pub position : ℕ → Vec
  pub previous_position : ℕ → Option Vec
  pub top_of_collision : ℕ → Option Vec
  -- from, to, the entity to exclude: whether anything is hit
  pub raycast_any : Vec → Vec → Option ℕ → Bool
  -- the map's extent contains the castable's target cylinder at this position
  pub map_contains_target : Castable Float → Vec → Bool
  pub validate_cast : ℕ → Castable Float → Bool
  pub current_tick : ℕ

pub record CastInfo (Float Vec : Type 0) : Type 0 where
  pub castable : Castable Float
  pub caster_entity : ℕ
  pub item : Option ℕ
  pub target_entity : Option ℕ
  pub target_position : Vec
  pub client_id : ℕ

pub record CastState (Float Vec : Type 0) : Type 0 where
  pub cast_info : CastInfo Float Vec
  pub end_tick : ℕ

-- The `CastState` and `CastCooldown` components of the registry.
pub record CastRegistry (Float Vec : Type 0) : Type 0 where
  pub cast_states : List (ℕ × CastState Float Vec)
  pub cooldowns : List (ℕ × CastCooldown)

-- The parameters of a request, with what the code looks up for it first.
pub record CastParams (Float Vec : Type 0) : Type 0 where
  pub castable : Option (Castable Float)
  pub caster_entity : ℕ
  pub target_entity : Option ℕ
  pub target_position : Vec
  pub client_id : ℕ

-- `inventory.getItem(params.slotIndex, itemData)`, by its ID, and `item->supportsInteraction(...)`.
unfoldable pub found_item : Inventory → ItemData → ℕ → ℕ → Option (ℕ × Bool)
found_item v d slot_index interaction = elim (get_item v slot_index d) [
  | none ↦ none
  | some item ↦ some (item.numeric_id, supports_interaction item interaction)
]

module _ {Float Vec : Type 0} (w : World Float Vec) where
  -- `registry.valid(entity)`
  unfoldable pub valid_entity : Option ℕ → Bool
  valid_entity none = false
  valid_entity (some e) = w.valid e

  -- `Vector3 point{fallback}; if (collision) point = collision->worldBounds.getTopCenterPoint();`
  unfoldable pub sight_point : Option ℕ → Vec → Vec
  sight_point none fallback = fallback
  sight_point (some e) fallback = elim (w.top_of_collision e) [ none ↦ fallback | some v ↦ v ]

  -- `isInLineOfSight(casterEntity, targetEntity, casterPosition, targetPosition)`
  unfoldable pub is_in_line_of_sight : ℕ → Option ℕ → Vec → Vec → Bool
  unfolding sight_point
  is_in_line_of_sight caster target from to =
      not (w.raycast_any (sight_point (some caster) from) (sight_point target to) target)

  -- `isInLineOfSight(casterEntity, casterPosition, targetPosition)`
  unfoldable pub is_position_in_line_of_sight : ℕ → Vec → Vec → Bool
  unfolding sight_point
  is_position_in_line_of_sight caster from to =
      not (w.raycast_any (sight_point (some caster) from) to none)

  -- "If this isn't an instant cast, check that the caster isn't moving."
  unfoldable pub is_moving : Castable Float → ℕ → Bool
  is_moving c caster =
      if w.is_zero c.cast_time
      then false
      else elim (w.previous_position caster) [ none ↦ false | some p ↦ w.ne (w.position caster) p ]

  -- The distance to a target entity, and the line of sight to it.
  unfoldable pub check_target_entity : Castable Float → ℕ → ℕ → Vec → CastFailureType
  unfolding is_in_line_of_sight
  check_target_entity c caster target target_position =
      if w.gt (w.squared_distance (w.position caster) (w.position target)) (w.times c.range c.range)
      then out_of_range
      else if not (is_in_line_of_sight caster (some target) (w.position caster) target_position)
      then line_of_sight
      else no_failure

  -- The target circle: the squared distance is compared with the range itself.
  unfoldable pub check_target_circle : Castable Float → ℕ → Vec → CastFailureType
  unfolding is_position_in_line_of_sight
  check_target_circle c caster target_position =
      if not (w.map_contains_target c target_position)
      then invalid_target_position
      else if w.gt (w.squared_distance (w.position caster) target_position) c.range
      then out_of_range
      else if not (is_position_in_line_of_sight caster (w.position caster) target_position)
      then line_of_sight
      else no_failure

  -- Which of the two a castable uses; an entity that is to be valid here has been checked before.
  unfoldable pub check_target : TargetType → Castable Float → ℕ → Option ℕ → Vec → CastFailureType
  unfolding check_target_entity check_target_circle
  check_target entity c caster (some t) p = check_target_entity c caster t p
  check_target entity c caster none p = invalid_target_entity
  check_target self_or_entity c caster (some t) p = check_target_entity c caster t p
  check_target self_or_entity c caster none p = no_failure
  check_target circle c caster t p = check_target_circle c caster p
  check_target self c caster t p = no_failure

  abbrev pub needs_entity : TargetType → Bool
  needs_entity entity = true
  needs_entity self = false
  needs_entity self_or_entity = false
  needs_entity circle = false

  abbrev pub is_some : Option ℕ → Bool
  is_some none = false
  is_some (some e) = true

  -- The checks behind the cooldown.
  unfoldable pub check_request : Castable Float → ℕ → Option ℕ → Vec → CastFailureType
  unfolding valid_entity check_target
  check_request c caster target target_position =
      if (is_some target || needs_entity c.target_type) && not (valid_entity target)
      then invalid_target_entity
      else elim (check_target c.target_type c caster target target_position) [
        | no_failure ↦ if w.validate_cast caster c then no_failure else project_validation_failed
        | failure ↦ failure
      ]

  -- `performSharedChecks`: asking for the cooldown updates the caster's component.
  unfoldable pub perform_shared_checks :
      CastRegistry Float Vec
      → Castable Float
      → ℕ
      → Option ℕ
      → Vec
      → CastRegistry Float Vec × CastFailureType
  unfolding is_moving check_request
  perform_shared_checks r c caster target target_position =
      if not (w.valid caster)
      then (r, invalid_caster_entity)
      else if is_moving c caster
      then (r, movement)
      else elim (lookup caster r.cast_states) [
        | some state ↦ (r, already_casting)
        | none ↦ elim (lookup caster r.cooldowns) [
          | none ↦ (r, check_request c caster target target_position)
          | some cd ↦
              let answer = is_cast_on_cooldown cd c.castable_id w.current_tick in
              let updated = record r { cooldowns = insert caster answer.0 r.cooldowns } in
              if answer.1
              then (updated, on_cooldown)
              else (updated, check_request c caster target target_position)
        ]
      ]

  -- `registry.emplace<CastState>(...)`
  unfoldable pub start_cast :
      CastRegistry Float Vec
      → Castable Float
      → CastParams Float Vec
      → Option ℕ
      → CastRegistry Float Vec
  start_cast r c p item = record r {
    cast_states =
        insert p.caster_entity
          (record {
            cast_info = record {
              castable = c;
              caster_entity = p.caster_entity;
              item = item;
              target_entity = p.target_entity;
              target_position = p.target_position;
              client_id = p.client_id;
            };
            end_tick = 0;
          })
          r.cast_states;
  }

  -- What the cast functions do with the result of the shared checks.
  unfoldable pub finish_untargeted :
      CastRegistry Float Vec × CastFailureType
      → Castable Float
      → CastParams Float Vec
      → Option ℕ
      → CastRegistry Float Vec × CastFailureType
  unfolding start_cast
  finish_untargeted (r, no_failure) c p item = (start_cast r c p item, no_failure)
  finish_untargeted (r, failure) c p item = (r, failure)

  -- "entity interactions require a target entity"
  unfoldable pub finish_targeted :
      CastRegistry Float Vec × CastFailureType
      → Castable Float
      → CastParams Float Vec
      → CastRegistry Float Vec × CastFailureType
  unfolding start_cast
  finish_targeted (r, no_failure) c p =
      if is_some p.target_entity
      then (start_cast r c p none, no_failure)
      else (r, invalid_target_entity)
  finish_targeted (r, failure) c p = (r, failure)

  -- The part of `castItemInteraction` behind the search for the item: the item's ID with whether it
  -- supports the interaction.
  unfoldable pub cast_found_item :
      CastRegistry Float Vec
      → Option (ℕ × Bool)
      → CastParams Float Vec
      → CastRegistry Float Vec × CastFailureType
  unfolding perform_shared_checks finish_untargeted
  cast_found_item r slot p = elim slot [
    | none ↦ (r, invalid_item)
    | some (item, supported) ↦
        if not supported then (r, interaction_not_supported) else elim p.castable [
          | none ↦ (r, invalid_castable)
          | some c ↦
              finish_untargeted
                (perform_shared_checks r c p.caster_entity p.target_entity p.target_position) c p
                (some item)
        ]
  ]

  -- `castItemInteraction`, with the caster's inventory.
  unfoldable pub cast_item_interaction :
      CastRegistry Float Vec
      → Inventory
      → ItemData
      → ℕ
      → ℕ
      → CastParams Float Vec
      → CastRegistry Float Vec × CastFailureType
  unfolding cast_found_item
  cast_item_interaction r v d slot_index interaction p =
      cast_found_item r (found_item v d slot_index interaction) p

  -- `castEntityInteraction`: whether the target has an `Interaction`, and whether that supports it.
  unfoldable pub cast_entity_interaction :
      CastRegistry Float Vec
      → Option Bool
      → CastParams Float Vec
      → CastRegistry Float Vec × CastFailureType
  unfolding perform_shared_checks finish_targeted
  cast_entity_interaction r interaction p = elim p.castable [
    | none ↦ (r, invalid_castable)
    | some c ↦ elim interaction [
      | some false ↦ (r, interaction_not_supported)
      | some true ↦
          finish_targeted
            (perform_shared_checks r c p.caster_entity p.target_entity p.target_position) c p
      | none ↦
          finish_targeted
            (perform_shared_checks r c p.caster_entity p.target_entity p.target_position) c p
    ]
  ]

  -- `castSpell`
  unfoldable pub cast_spell :
      CastRegistry Float Vec → CastParams Float Vec → CastRegistry Float Vec × CastFailureType
  unfolding perform_shared_checks finish_targeted
  cast_spell r p = elim p.castable [
    | none ↦ (r, invalid_castable)
    | some c ↦
        finish_targeted
          (perform_shared_checks r c p.caster_entity p.target_entity p.target_position) c p
  ]
