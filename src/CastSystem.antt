-- ===== src/CastSystem.antt =====
-- Source/ServerLib/Simulation/Private/CastSystem.cpp. A tick's queue of requests and what the rest of
-- the server answers in that tick are arguments (`Scene`); the components that the code changes, the
-- messages that it sends and the casts that it hands to a registered handler are the state. A
-- `registry.get` of a missing component is undefined behaviour, and gives `none`.
pub mod Requests
pub mod Lifecycle
pub mod Frame
pub mod Busy
pub mod Updates
pub mod Cooldowns
pub mod Completion
pub mod Ticks
mod Tests
use amalgam_engine.Prelude.{
  ℕ, zero, suc, ◌+◌, ◌/◌, ◌%◌, ◌^◌, Bool, true, false, not, ◌&&◌, ◌||◌, List, [], ◌∷◌, ◌++◌, Option,
  none, some, ltb, ◌==◌, if◌then◌else◌, map,
}
use amalgam_engine.Prelude.Map.{lookup, insert, erase, nat_eq}
use amalgam_engine.ItemData.{ItemData}
use amalgam_engine.Inventory.{Inventory}
use amalgam_engine.EventSorter.{
  ValidityResult, too_low, valid, too_high, EventSorter, get_current_queue, drain, advance, push,
}
use amalgam_engine.CastCooldown.{Cooldown, CastCooldown}
use amalgam_engine.CastHelper.{
  CastFailureType, no_failure, movement, TargetType, self, entity, self_or_entity, circle, Castable,
  World, CastInfo, CastState, CastRegistry, CastParams, valid_entity, is_in_line_of_sight,
  is_position_in_line_of_sight, cast_item_interaction, cast_entity_interaction, cast_spell,
}

pub record CastRequest (Vec : Type 0) : Type 0 where
  pub tick_num : ℕ
  pub castable_id : ℕ
  pub slot_index : ℕ
  pub target_entity : Option ℕ
  pub target_position : Vec
  pub net_id : ℕ

pub data CastMessage (Vec : Type 0) : Type 0 where
  cast_started : ℕ → ℕ → Option ℕ → Vec → CastMessage Vec
  cast_failed : ℕ → ℕ → CastFailureType → CastMessage Vec
  cast_cooldown_init : CastCooldown → CastMessage Vec

pub record Scene (Float Vec : Type 0) : Type 0 where
  pub world : World Float Vec
  pub castables : ℕ → Option (Castable Float)
  -- `world.getClientEntity(netID)`
  pub client_entity : ℕ → Option ℕ
  pub inventory : ℕ → Inventory
  pub item_data : ItemData
  -- the entity's `Interaction` component
  pub interaction : ℕ → Option (ℕ → Bool)
  -- the net ID of an entity's `ClientSimData`
  pub client : ℕ → Option ℕ
  -- the client's AOI list, or the locator's answer for an entity that is not a client's
  pub entities_in_range : ℕ → List ℕ
  -- whether a callback is registered for the castable
  pub has_handler : ℕ → Bool

pub record Casting (Float Vec : Type 0) : Type 0 where
  pub registry : CastRegistry Float Vec
  pub sent : List (ℕ × CastMessage Vec)
  pub handled : List (CastInfo Float Vec)

pub record CastSystem (Float Vec : Type 0) : Type 0 where
  pub casting : Casting Float Vec
  pub cast_request_sorter : EventSorter (CastRequest Vec)

-- The alternatives of a castable ID, and the value that it holds.
abbrev pub alternative : ℕ → ℕ
alternative id = id / 2 ^ 8

abbrev pub enum_value : ℕ → ℕ
enum_value id = id % 2 ^ 8

-- `SharedConfig::CAST_GLOBAL_COOLDOWN_TICKS` at 30 ticks per second.
abbrev pub cast_global_cooldown_ticks : ℕ
cast_global_cooldown_ticks = 30

module _ {Float Vec : Type 0} (sc : Scene Float Vec) where
  -- `Castable::hasVisuals`
  abbrev pub has_visuals : Castable Float → Bool
  has_visuals c =
      not (c.casting_graphic_type == 0)
      || (not (c.cast_complete_graphic_type == 0)
          || (not (c.cast_complete_visual_effects == 0) || not (c.cast_complete_av_entities == 0)))

  -- The loop of `sendCastStarted` and `sendCastFailed` over the entities in range.
  pub send_to_others : ℕ → CastMessage Vec → List ℕ → List (ℕ × CastMessage Vec)
  send_to_others caster m [] = []
  send_to_others caster m (e ∷ es) =
      let rest = send_to_others caster m es in
      if e == caster
      then rest
      else elim (sc.client e) [ none ↦ rest | some net_id ↦ (net_id, m) ∷ rest ]

  -- A message to all nearby clients, if the castable has any visuals.
  unfoldable pub announce :
      Casting Float Vec → CastInfo Float Vec → CastMessage Vec → Casting Float Vec
  announce s info m =
      if has_visuals info.castable
      then record s {
        sent =
            s.sent ++ send_to_others info.caster_entity m (sc.entities_in_range info.caster_entity);
      }
      else s

  -- `registry.get_or_emplace<CastCooldown>(entity, currentTick)`
  unfoldable pub get_or_emplace_cooldown : CastRegistry Float Vec → ℕ → CastCooldown
  get_or_emplace_cooldown r e = elim (lookup e r.cooldowns) [
    | none ↦ record {
      last_update_tick = sc.world.current_tick;
      gcd_ticks_remaining = 0;
      cooldowns = [];
    }
    | some cd ↦ cd
  ]

  -- "If this castable has a cooldown, track it."
  unfoldable pub track_cooldown :
      CastRegistry Float Vec → CastInfo Float Vec → Option (CastRegistry Float Vec)
  track_cooldown r info =
      if sc.world.is_positive info.castable.cooldown_time
      then elim (lookup info.caster_entity r.cooldowns) [
        | none ↦ none
        | some cd ↦
            let added : Cooldown = record {
              castable_id = info.castable.castable_id;
              ticks_remaining = sc.world.ticks info.castable.cooldown_time;
            } in
            some (record r {
              cooldowns =
                  insert info.caster_entity (record cd { cooldowns = cd.cooldowns ++ added ∷ [] })
                    r.cooldowns;
            })
      ]
      else some r

  -- `handleCast`: the callbacks are the project's, and are only recorded.
  unfoldable pub handle_cast :
      List (CastInfo Float Vec) → CastInfo Float Vec → List (CastInfo Float Vec)
  handle_cast handled info =
      if sc.has_handler info.castable.castable_id then handled ++ info ∷ [] else handled

  -- `finishCast`
  unfoldable pub finish_cast : Casting Float Vec → CastState Float Vec → Option (Casting Float Vec)
  unfolding track_cooldown handle_cast
  finish_cast s st = elim (track_cooldown s.registry st.cast_info) [
    | none ↦ none
    | some r ↦ some (record s {
      registry = record r { cast_states = erase st.cast_info.caster_entity r.cast_states };
      handled = handle_cast s.handled st.cast_info;
    })
  ]

  -- `cancelCast`
  unfoldable pub cancel_cast : Casting Float Vec → CastState Float Vec → Option (Casting Float Vec)
  unfolding announce
  cancel_cast s st =
      let info = st.cast_info in
      elim (lookup info.caster_entity s.registry.cooldowns) [
        | none ↦ none
        | some cd ↦
            some
              (record (announce s info
                (cast_failed info.caster_entity info.castable.castable_id movement)) {
                  registry = record {
                    cast_states = erase info.caster_entity s.registry.cast_states;
                    cooldowns =
                        insert info.caster_entity (record cd { gcd_ticks_remaining = 0 })
                          s.registry.cooldowns;
                  };
                })
      ]

  -- "If this cast triggers the GCD, track it."
  unfoldable pub track_gcd : CastRegistry Float Vec → CastInfo Float Vec → CastRegistry Float Vec
  unfolding get_or_emplace_cooldown
  track_gcd r info =
      let cd = get_or_emplace_cooldown r info.caster_entity in
      record r {
        cooldowns =
            insert info.caster_entity
              (if info.castable.triggers_gcd
                then record cd { gcd_ticks_remaining = cast_global_cooldown_ticks }
                else cd)
              r.cooldowns;
      }

  -- `startCast`, for the state of an entity.
  unfoldable pub start_cast :
      Casting Float Vec → ℕ → CastState Float Vec → Option (Casting Float Vec)
  unfolding announce track_gcd finish_cast
  start_cast s e st =
      let info = st.cast_info in
      let announced = announce s info (
        cast_started info.caster_entity info.castable.castable_id info.target_entity
          info.target_position) in
      let tracked = track_gcd s.registry info in
      if sc.world.is_zero info.castable.cast_time
      then finish_cast (record announced { registry = tracked }) st
      else some (record announced {
        registry = record tracked {
          cast_states =
              insert e
                (record st {
                  end_tick =
                      (sc.world.current_tick + sc.world.ticks info.castable.cast_time) % 2 ^ 32;
                })
                tracked.cast_states;
        };
      })

  -- `castIsValid`; an entity that the castable targets is there by then.
  unfoldable pub target_is_valid : TargetType → CastInfo Float Vec → Option ℕ → Vec → Bool
  unfolding is_in_line_of_sight is_position_in_line_of_sight
  target_is_valid entity info none p = false
  target_is_valid entity info (some t) p =
      let w = sc.world in
      w.valid t
      && (not (
            w.gt (w.squared_distance p (w.position t))
              (w.times info.castable.range info.castable.range))
          && is_in_line_of_sight w info.caster_entity (some t) p (w.position t))
  target_is_valid self_or_entity info none p = true
  target_is_valid self_or_entity info (some t) p =
      let w = sc.world in
      w.valid t
      && (not (
            w.gt (w.squared_distance p (w.position t))
              (w.times info.castable.range info.castable.range))
          && is_in_line_of_sight w info.caster_entity (some t) p (w.position t))
  target_is_valid circle info t p =
      let w = sc.world in
      w.map_contains_target info.castable info.target_position
      && (not (w.gt (w.squared_distance p info.target_position) info.castable.range)
          && is_position_in_line_of_sight w info.caster_entity p info.target_position)
  target_is_valid self info t p = true

  unfoldable pub cast_is_valid : CastInfo Float Vec → Vec → Bool
  unfolding target_is_valid
  cast_is_valid info p = target_is_valid info.castable.target_type info info.target_entity p

  -- "If the entity has moved, cancel the cast."
  unfoldable pub has_moved : ℕ → Bool
  has_moved e = elim (sc.world.previous_position e) [
    | none ↦ false
    | some p ↦ sc.world.ne (sc.world.position e) p
  ]

  -- The body of the loop of `updateCasts`.
  unfoldable pub update_state :
      Casting Float Vec → ℕ → CastState Float Vec → Option (Casting Float Vec)
  unfolding start_cast cancel_cast finish_cast has_moved cast_is_valid
  update_state s e st =
      if st.end_tick == 0
      then start_cast s e st
      else if has_moved e
      then cancel_cast s st
      else if sc.world.current_tick == st.end_tick
      then if not (cast_is_valid st.cast_info (sc.world.position e))
        then cancel_cast s st
        else finish_cast s st
      else some s

  unfoldable pub update_cast : Casting Float Vec → ℕ → Option (Casting Float Vec)
  unfolding update_state
  update_cast s e = elim (lookup e s.registry.cast_states) [
    | none ↦ some s
    | some st ↦ update_state s e st
  ]

  -- The loop, over the entities that are casting when it begins.
  unfoldable pub update_entities : Casting Float Vec → List ℕ → Option (Casting Float Vec)
  update_entities s [] = some s
  update_entities s (e ∷ es) = elim (update_cast s e) [
    | none ↦ none
    | some t ↦ update_entities t es
  ]

  -- `updateCasts`
  unfoldable pub update_casts : Casting Float Vec → Option (Casting Float Vec)
  unfolding update_entities
  update_casts s =
      update_entities s (map (λ (p : ℕ × CastState Float Vec). p.0) s.registry.cast_states)

  -- "Try to perform the cast."
  unfoldable pub try_cast :
      CastRegistry Float Vec → CastRequest Vec → ℕ → CastRegistry Float Vec × CastFailureType
  try_cast r q caster =
      let p : CastParams Float Vec = record {
        castable = sc.castables q.castable_id;
        caster_entity = caster;
        target_entity = q.target_entity;
        target_position = q.target_position;
        client_id = q.net_id;
      } in
      let type = enum_value q.castable_id in
      if alternative q.castable_id == 0
      then cast_item_interaction sc.world r (sc.inventory caster) sc.item_data q.slot_index type p
      else if alternative q.castable_id == 1
      then cast_entity_interaction sc.world r
          (elim q.target_entity [
            | none ↦ none
            | some t ↦ elim (sc.interaction t) [ none ↦ none | some f ↦ some (f type) ]
          ])
          p
      else if alternative q.castable_id == 2
      then cast_spell sc.world r p
      else (r, no_failure)

  -- "If the cast failed, send the failure to the caster."
  unfoldable pub report_cast :
      Casting Float Vec
      → CastRequest Vec
      → ℕ
      → CastRegistry Float Vec × CastFailureType
      → Casting Float Vec
  report_cast s q caster (r, no_failure) = record s { registry = r }
  report_cast s q caster (r, failure) = record s {
    registry = r;
    sent = s.sent ++ (q.net_id, cast_failed caster q.castable_id failure) ∷ [];
  }

  -- `processCastRequest`
  unfoldable pub process_cast_request : Casting Float Vec → CastRequest Vec → Casting Float Vec
  unfolding try_cast report_cast
  process_cast_request s q = elim (sc.client_entity q.net_id) [
    | none ↦ s
    | some caster ↦ report_cast s q caster (try_cast s.registry q caster)
  ]

  unfoldable pub process_all : Casting Float Vec → List (CastRequest Vec) → Casting Float Vec
  process_all s [] = s
  process_all s (q ∷ qs) = process_all (process_cast_request s q) qs

  -- One request of the queue: dropped, sorted, or processed at once.
  unfoldable pub sort_request : CastSystem Float Vec → CastRequest Vec → CastSystem Float Vec
  sort_request s q = elim (sc.castables q.castable_id) [
    | none ↦ s
    | some c ↦
        if c.is_tick_synchronized
        then (let pushed = push s.cast_request_sorter q q.tick_num in
            let t : CastSystem Float Vec = record s { cast_request_sorter = pushed.0 } in
            elim pushed.1 [
              | valid ↦ t
              | too_low ↦ record t { casting = process_cast_request s.casting q }
              | too_high ↦ record t { casting = process_cast_request s.casting q }
            ])
        else record s { casting = process_cast_request s.casting q }
  ]

  unfoldable pub sort_requests :
      CastSystem Float Vec → List (CastRequest Vec) → CastSystem Float Vec
  sort_requests s [] = s
  sort_requests s (q ∷ qs) = sort_requests (sort_request s q) qs

  -- `processCastRequests`
  unfoldable pub process_cast_requests :
      CastSystem Float Vec → List (CastRequest Vec) → CastSystem Float Vec
  unfolding sort_requests process_all get_current_queue drain advance
  process_cast_requests s qs =
      let t = sort_requests s qs in
      record {
        casting = process_all t.casting (get_current_queue t.cast_request_sorter);
        cast_request_sorter = advance (drain t.cast_request_sorter);
      }

  -- `processCasts`
  unfoldable pub process_casts :
      CastSystem Float Vec → List (CastRequest Vec) → Option (CastSystem Float Vec)
  unfolding process_cast_requests update_casts
  process_casts s qs =
      let t = process_cast_requests s qs in
      elim (update_casts t.casting) [ none ↦ none | some c ↦ some (record t { casting = c }) ]

  -- `sendCastCooldownInits`, over the observed entities.
  pub cooldown_inits : CastRegistry Float Vec → List ℕ → List (ℕ × CastMessage Vec)
  cooldown_inits r [] = []
  cooldown_inits r (e ∷ es) =
      let rest = cooldown_inits r es in
      elim (sc.client e) [
        | none ↦ rest
        | some net_id ↦ elim (lookup e r.cooldowns) [
          | none ↦ rest
          | some cd ↦ (net_id, cast_cooldown_init cd) ∷ rest
        ]
      ]

  unfoldable pub send_cast_cooldown_inits : Casting Float Vec → List ℕ → Casting Float Vec
  unfolding cooldown_inits
  send_cast_cooldown_inits s observed = record s {
    sent = s.sent ++ cooldown_inits s.registry observed;
  }
