-- ===== src/CastCooldown/Tests.antt =====
-- Instances of the theorems on cast cooldowns.
use amalgam_engine.Prelude.{◌≡◌, true, [], ◌∷◌, arith}
use amalgam_engine.CastCooldown.{CastCooldown, tick_diff, update, is_cast_on_cooldown}
use amalgam_engine.CastCooldown.Elapsed.{OnCooldown, is_cast_on_cooldown_exact}

-- At tick 100: 20 ticks of global cooldown, 30 of castable 1 and 90 of castable 2.
abbrev after_cast : CastCooldown
after_cast = record {
  last_update_tick = 100;
  gcd_ticks_remaining = 20;
  cooldowns =
      record { castable_id = 1; ticks_remaining = 30 }
      ∷ record { castable_id = 2; ticks_remaining = 90 }
      ∷ [];
}

is_cast_on_cooldown_exact_example :
    ((is_cast_on_cooldown after_cast 2 150).0 ≡ update after_cast 150)
    × (((is_cast_on_cooldown after_cast 2 150).1 ≡ true)
        → OnCooldown 2 (tick_diff after_cast 150) after_cast.cooldowns)
    × (OnCooldown 2 (tick_diff after_cast 150) after_cast.cooldowns
        → (is_cast_on_cooldown after_cast 2 150).1 ≡ true)
is_cast_on_cooldown_exact_example = is_cast_on_cooldown_exact after_cast 2 150 (omega arith)
