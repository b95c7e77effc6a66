-- ===== src/CastCooldown.antt =====
-- Source/SharedLib/Simulation/Private/Components/CastCooldown.cpp. Ticks are `Uint32`; the loops with
-- the erase-remove idiom keep the entries that have not run out, in order.
pub mod Elapsed
mod Tests
use amalgam_engine.Prelude.{
  ℕ, ◌+◌, ◌-◌, ◌%◌, ◌^◌, Bool, true, false, ◌||◌, List, [], ◌∷◌, ltb, leb, ◌==◌, if◌then◌else◌,
}

pub record Cooldown : Type 0 where
  pub castable_id : ℕ
  pub ticks_remaining : ℕ

pub record CastCooldown : Type 0 where
  pub last_update_tick : ℕ
  pub gcd_ticks_remaining : ℕ
  pub cooldowns : List Cooldown

-- `Uint32 tickDiff{newTick - lastUpdateTick}`
abbrev pub tick_diff : CastCooldown → ℕ → ℕ
tick_diff c tick = (tick + 2 ^ 32 - c.last_update_tick) % 2 ^ 32

-- The loop that updates the times and drops expired cooldowns.
unfoldable pub elapse : ℕ → List Cooldown → List Cooldown
elapse diff [] = []
elapse diff (c ∷ cs) =
    if ltb diff c.ticks_remaining
    then record c { ticks_remaining = c.ticks_remaining - diff } ∷ elapse diff cs
    else elapse diff cs

-- `castableFound` at the end of the same loop.
unfoldable pub found_in : ℕ → ℕ → List Cooldown → Bool
found_in id diff [] = false
found_in id diff (c ∷ cs) =
    if ltb diff c.ticks_remaining
    then c.castable_id == id || found_in id diff cs
    else found_in id diff cs

-- `update`
unfoldable pub update : CastCooldown → ℕ → CastCooldown
unfolding elapse
update c tick = record {
  last_update_tick = tick;
  gcd_ticks_remaining =
      if leb c.gcd_ticks_remaining (tick_diff c tick)
      then 0
      else c.gcd_ticks_remaining - tick_diff c tick;
  cooldowns = elapse (tick_diff c tick) c.cooldowns;
}

-- The part of `isCastOnCooldown` behind the GCD, which is 0 by then.
unfoldable pub check_cooldowns : CastCooldown → ℕ → ℕ → CastCooldown × Bool
unfolding elapse found_in
check_cooldowns c id tick = (
  record {
    last_update_tick = tick;
    gcd_ticks_remaining = 0;
    cooldowns = elapse (tick_diff c tick) c.cooldowns;
  },
  found_in id (tick_diff c tick) c.cooldowns,
)

-- `isCastOnCooldown`
unfoldable pub is_cast_on_cooldown : CastCooldown → ℕ → ℕ → CastCooldown × Bool
unfolding check_cooldowns
is_cast_on_cooldown c id tick =
    if ltb 0 c.gcd_ticks_remaining
    then if leb c.gcd_ticks_remaining (tick_diff c tick)
      then check_cooldowns c id tick
      else (record c { gcd_ticks_remaining = c.gcd_ticks_remaining - tick_diff c tick }, true)
    else check_cooldowns c id tick

-- `initAfterLoad`
unfoldable pub init_after_load : CastCooldown → ℕ → ℕ → CastCooldown
unfolding update
init_after_load c last_saved_tick current_tick = record (update c last_saved_tick) {
  last_update_tick = current_tick;
}
