-- ===== src/CastSystem/Tests.antt =====
-- Instances of the theorems on the cast system, in a world on a line of natural numbers.
use amalgam_engine.Prelude.{
  ◌%◌, ◌^◌, ℕ, ◌+◌, ◌*◌, ◌-◌, ◌<◌, ◌≤◌, ◌≡◌, refl, ◌⊎◌, true, false, not, List, [], ◌∷◌, ◌++◌, none,
  some, arith, ltb, leb, ◌==◌, if◌then◌else◌, replicate,
}
use amalgam_engine.Prelude.Map.{lookup, nat_eq}
use amalgam_engine.ItemData.{init}
use amalgam_engine.EventSorter.Agenda.{IsValid as IsValidSorter, agenda}
use amalgam_engine.CastCooldown.{CastCooldown, tick_diff, is_cast_on_cooldown}
use amalgam_engine.CastCooldown.Elapsed.{OnCooldown}
use amalgam_engine.CastHelper.{entity, Castable, CastState}
use amalgam_engine.CastSystem.{
  CastRequest, Scene, Casting, CastSystem, has_moved, cast_is_valid, finish_cast, process_all,
  process_cast_requests, process_casts,
}
use amalgam_engine.CastSystem.Lifecycle.{IsValid}
use amalgam_engine.CastSystem.Updates.{process_casts-IsValid}
use amalgam_engine.CastSystem.Requests.{at_once, waits_for, keep, process_cast_requests_refines}
use amalgam_engine.CastSystem.Cooldowns.{finish_cast_cooldown}
use amalgam_engine.CastSystem.Completion.{IsDone}
use amalgam_engine.CastSystem.Ticks.{StandsStill, run_ticks, run_ticks_completes, run_ticks_stuck}

abbrev bolt : Castable ℕ
bolt = record {
  castable_id = 513;
  target_type = entity;
  range = 3;
  radius = 0;
  cast_time = 2;
  cooldown_time = 9;
  triggers_gcd = true;
  is_tick_synchronized = true;
  casting_graphic_type = 1;
  cast_complete_graphic_type = 0;
  cast_complete_visual_effects = 0;
  cast_complete_av_entities = 0;
}

-- Entities 0 to 9 stand on a line, the clients' entities among them.
abbrev scene : ℕ → Scene ℕ ℕ
scene m = record {
  world = record {
    times = λ a b. a * b;
    gt = λ a b. ltb b a;
    is_zero = λ a. a == 0;
    is_positive = λ a. ltb 0 a;
    ticks = λ a. a * 30;
    squared_distance = λ a b. ((a - b) + (b - a)) * ((a - b) + (b - a));
    ne = λ a b. not (a == b);
    valid = λ e. ltb e 10;
    position = λ e. e;
    previous_position = λ e. some e;
    top_of_collision = λ e. none;
    raycast_any = λ a b e. false;
    map_contains_target = λ c p. leb p 10;
    validate_cast = λ e c. true;
    current_tick = m % 2 ^ 32;
  };
  castables = λ id. if id == 513 then some bolt else none;
  client_entity = λ n. if ltb n 10 then some n else none;
  inventory = λ e. record { size = 0; slots = [] };
  item_data = init;
  interaction = λ e. none;
  client = λ e. some e;
  entities_in_range = λ e. 2 ∷ 3 ∷ [];
  has_handler = λ id. true;
}

-- At entity 4, from the client of entity 2.
abbrev request : ℕ → CastRequest ℕ
request tick = record {
  tick_num = tick;
  castable_id = 513;
  slot_index = 0;
  target_entity = some 4;
  target_position = 4;
  net_id = 2;
}

abbrev cast_at : ℕ → CastState ℕ ℕ
cast_at tick = record {
  cast_info = record {
    castable = bolt;
    caster_entity = 2;
    item = none;
    target_entity = some 4;
    target_position = 4;
    client_id = 2;
  };
  end_tick = tick;
}

abbrev ready : CastCooldown
ready = record { last_update_tick = 5; gcd_ticks_remaining = 0; cooldowns = [] }

abbrev casting_until : ℕ → CastSystem ℕ ℕ
casting_until tick = record {
  casting = record {
    registry = record { cast_states = (2, cast_at tick) ∷ []; cooldowns = (2, ready) ∷ [] };
    sent = [];
    handled = [];
  };
  cast_request_sorter = record { queue_buffer = replicate 10 []; current_tick = 5 };
}

casting_until-IsValid : (tick : ℕ) → IsValid (casting_until tick).casting.registry
unfolding lookup
casting_until-IsValid tick = record {
  owned = λ e st h. ground arith;
  tracked = λ e st h ne. (ready, ground arith);
}

casting_until-IsValidSorter : (tick : ℕ) → IsValidSorter (casting_until tick).cast_request_sorter
casting_until-IsValidSorter tick = record { sized = refl; no_wrap = omega arith }

scene-StandsStill : StandsStill scene (λ m. []) 2
unfolding has_moved
scene-StandsStill = record { ticking = λ m. refl; still = λ m. refl }

found : lookup 2 (casting_until 9).casting.registry.cast_states ≡ some (cast_at 9)
unfolding lookup
found = refl

cooldown_found : lookup 2 (casting_until 9).casting.registry.cooldowns ≡ some ready
unfolding lookup
cooldown_found = refl

still_valid : cast_is_valid (scene 9) (cast_at 9).cast_info 2 ≡ true
unfolding cast_is_valid
still_valid = refl

process_casts-IsValid_example :
    (t : CastSystem ℕ ℕ) × (process_casts (scene 5) (casting_until 9) (request 5 ∷ []) ≡ some t)
    × IsValid t.casting.registry
process_casts-IsValid_example =
    process_casts-IsValid (scene 5) (casting_until 9) (request 5 ∷ []) (casting_until-IsValid 9)

abbrev mixed : List (CastRequest ℕ)
mixed = request 7 ∷ request 5 ∷ request 40 ∷ request 3 ∷ []

process_cast_requests_refines_example :
    ((process_cast_requests (scene 5) (casting_until 9) mixed).casting
      ≡ process_all (scene 5) (casting_until 9).casting (
          keep (scene 5) (at_once (scene 5) 5) mixed
          ++ (agenda (casting_until 9).cast_request_sorter 5
              ++ keep (scene 5) (waits_for (scene 5) 5 5) mixed)))
    × ((u : ℕ)
        → agenda (process_cast_requests (scene 5) (casting_until 9) mixed).cast_request_sorter u ≡ (
            if u == 5
            then []
            else agenda (casting_until 9).cast_request_sorter u
              ++ keep (scene 5) (waits_for (scene 5) 5 u) mixed))
process_cast_requests_refines_example =
    process_cast_requests_refines (scene 5) (casting_until 9) mixed 5
      (casting_until-IsValidSorter 9) refl (omega arith)

run_ticks_completes_example :
    (t : CastSystem ℕ ℕ) × (run_ticks scene (λ m. []) 4 6 (casting_until 9) ≡ some t)
    × IsValid t.casting.registry
    × IsDone 2 (cast_at 9).cast_info t.casting
run_ticks_completes_example =
    run_ticks_completes scene (λ m. []) 3 6 2 (cast_at 9) (casting_until 9)
      (casting_until-IsValid 9) found scene-StandsStill refl (omega arith) (omega arith) still_valid
      refl

run_ticks_stuck_example :
    (t : CastSystem ℕ ℕ) × (run_ticks scene (λ m. []) 1000 10 (casting_until 9) ≡ some t)
    × (lookup 2 t.casting.registry.cast_states ≡ some (cast_at 9))
run_ticks_stuck_example =
    run_ticks_stuck scene (λ m. []) 1000 10 2 (cast_at 9) (casting_until 9)
      (casting_until-IsValid 9) found scene-StandsStill (omega arith) (omega arith) (omega arith)

finish_cast_cooldown_example :
    (t : Casting ℕ ℕ) × (longer : CastCooldown) × (finish_cast
        (scene 65)
        (casting_until 9).casting
        (cast_at 9)
      ≡ some t)
    × (lookup 2 t.registry.cooldowns ≡ some longer)
    × (longer
        ≡ record ready { cooldowns = record { castable_id = 513; ticks_remaining = 270 } ∷ [] })
    × ((u k : ℕ)
        → 0 ≤ tick_diff ready u
        → (((is_cast_on_cooldown longer k u).1 ≡ true)
            → OnCooldown k (tick_diff ready u) [] ⊎ ((513 ≡ k) × (tick_diff ready u < 270)))
          × (OnCooldown k (tick_diff ready u) [] ⊎ ((513 ≡ k) × (tick_diff ready u < 270))
              → (is_cast_on_cooldown longer k u).1 ≡ true))
finish_cast_cooldown_example =
    finish_cast_cooldown (scene 65) (casting_until 9).casting (cast_at 9) ready cooldown_found refl
