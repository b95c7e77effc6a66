-- ===== src/CastHelper/Tests.antt =====
-- Instances of the theorems on casting, in a world whose numbers and positions are natural numbers.
use amalgam_engine.Prelude.{
  ◌∷◌, ℕ, ◌+◌, ◌*◌, ◌-◌, ◌≡◌, refl, true, false, not, [], none, some, ltb, ◌==◌, leb,
}
use amalgam_engine.Prelude.Map.{insert, bytes_eq, lookup, nat_eq}
use amalgam_engine.ItemData.{
  Item, ItemData, get_item as get_item_data, init, load_item, supports_interaction, contains,
}
use amalgam_engine.Inventory.{Inventory, get_item}
use amalgam_engine.CastHelper.{
  found_item, no_failure, entity, Castable, World, CastRegistry, CastParams, is_some, cast_spell,
  cast_item_interaction,
}
use amalgam_engine.CastHelper.Checks.{Starts}
use amalgam_engine.CastHelper.Casts.{cast_spell_sound, cast_item_interaction_sound}

-- Entities 0 to 9 stand on a line; the square of the distance is measured along it.
abbrev line : World ℕ ℕ
line = record {
  times = λ a b. a * b;
  gt = λ a b. ltb b a;
  is_zero = λ a. a == 0;
  is_positive = λ a. ltb 0 a;
  ticks = λ a. a * 30;
  squared_distance = λ a b. ((a - b) + (b - a)) * ((a - b) + (b - a));
  ne = λ a b. not (a == b);
  valid = λ e. ltb e 10;
  position = λ e. e;
  previous_position = λ e. some e;
  top_of_collision = λ e. none;
  raycast_any = λ a b e. false;
  map_contains_target = λ c p. leb p 10;
  validate_cast = λ e c. true;
  current_tick = 5;
}

abbrev bolt : Castable ℕ
bolt = record {
  castable_id = 1;
  target_type = entity;
  range = 3;
  radius = 0;
  cast_time = 2;
  cooldown_time = 9;
  triggers_gcd = true;
  is_tick_synchronized = true;
  casting_graphic_type = 1;
  cast_complete_graphic_type = 0;
  cast_complete_visual_effects = 0;
  cast_complete_av_entities = 0;
}

abbrev idle : CastRegistry ℕ ℕ
idle = record { cast_states = []; cooldowns = [] }

abbrev at_four : CastParams ℕ ℕ
at_four = record {
  castable = some bolt;
  caster_entity = 2;
  target_entity = some 4;
  target_position = 4;
  client_id = 11;
}

bolt_starts : (cast_spell line idle at_four).1 ≡ no_failure
unfolding cast_spell lookup
bolt_starts = refl

cast_spell_sound_example :
    (is_some line at_four.target_entity ≡ true)
    × ((c : Castable ℕ) × Starts line idle (cast_spell line idle at_four).0 at_four none c)
cast_spell_sound_example = cast_spell_sound line idle at_four bolt_starts

-- A torch in the first slot.
abbrev torch : Item
torch = record {
  display_name = [];
  string_id = [];
  numeric_id = 3;
  icon_id = 0;
  max_stack_size = 1;
  description = [];
  supported_interactions = 60 ∷ [];
  properties = [];
  item_combinations = [];
}

abbrev torches : ItemData
torches = load_item init torch 0 []

abbrev pocket : Inventory
pocket = record { size = 1; slots = record { id = 3; count = 1 } ∷ [] }

item_starts : (cast_item_interaction line idle pocket torches 0 60 at_four).1 ≡ no_failure
unfolding cast_item_interaction lookup get_item load_item init insert supports_interaction contains
    found_item get_item_data
item_starts = refl

cast_item_interaction_sound_example :
    (item : Item) × (get_item pocket 0 torches ≡ some item)
    × (supports_interaction item 60 ≡ true)
    × ((c : Castable ℕ) × Starts line idle
          (cast_item_interaction line idle pocket torches 0 60 at_four).0
          at_four
          (some item.numeric_id)
          c)
cast_item_interaction_sound_example =
    cast_item_interaction_sound line idle pocket torches 0 60 at_four item_starts

-- Out of range.
abbrev at_nine : CastParams ℕ ℕ
at_nine = record at_four { target_entity = some 9; target_position = 9 }
