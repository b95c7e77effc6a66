-- ===== src/CastCooldown/Elapsed.antt =====
-- Cooldowns run down by the time that has passed, however often they are looked at; the exception is
-- the global cooldown in `isCastOnCooldown`.
use amalgam_engine.Prelude.{
  ℕ, ◌+◌, ◌-◌, ◌%◌, ◌^◌, ◌≤◌, ◌<◌, ◌≡◌, refl, ap, ◌∙◌, sym, inl, inr, ◌⊎◌, true, ◌&&◌, ◌*◌, List,
  [], ◌∷◌, ltb, ◌==◌, arith, Bool-cases,
}
use amalgam_engine.CastCooldown.{
  Cooldown, CastCooldown, tick_diff, elapse, found_in, update, is_cast_on_cooldown, init_after_load,
}

elapse_compose : (a b : ℕ) (cs : List Cooldown) → elapse b (elapse a cs) ≡ elapse (a + b) cs
unfolding elapse
elapse_compose a b [] = refl
elapse_compose a b (c ∷ cs) = ground (arith, elapse_compose a b cs)

-- Updating at a tick in between changes nothing: two updates in the order of their ticks are the
-- later one alone.
pub update_compose :
    (c : CastCooldown) (s t : ℕ)
    → c.last_update_tick ≤ s
    → s ≤ t
    → t < 2 ^ 32
    → update (update c s) t ≡ update c t
unfolding update
update_compose c s t a b lt =
    let d1 : tick_diff c s ≡ s - c.last_update_tick = omega arith in
    let d2 : tick_diff c t ≡ t - c.last_update_tick = omega arith in
    let d3 : (t + 2 ^ 32 - s) % 2 ^ 32 ≡ t - s = omega arith in
    let sum : s - c.last_update_tick + (t - s) ≡ t - c.last_update_tick = omega arith in
    let list =
      elapse_compose (s - c.last_update_tick) (t - s) c.cooldowns
      ∙ ap (λ n. elapse n c.cooldowns) sum in
    rw (d1, d2, d3) (ground arith)

-- Some cooldown of the castable has more ticks left than have passed.
abbrev pub OnCooldown : ℕ → ℕ → List Cooldown → Type 0
OnCooldown id diff [] = ⊥
OnCooldown id diff (c ∷ cs) =
    ((c.castable_id ≡ id) × (diff < c.ticks_remaining)) ⊎ OnCooldown id diff cs

found_in_iff :
    (id diff : ℕ) (cs : List Cooldown)
    → ((found_in id diff cs ≡ true) → OnCooldown id diff cs)
      × (OnCooldown id diff cs → found_in id diff cs ≡ true)
unfolding found_in
found_in_iff id diff [] = ((λ e. cc), λ h. absurd h)
found_in_iff id diff (c ∷ cs) =
    let (f, g) = found_in_iff id diff cs in (λ e. forth f e, λ h. back g h)
  where
    forth :
        (found_in id diff cs ≡ true → OnCooldown id diff cs)
        → found_in id diff (c ∷ cs) ≡ true
        → ((c.castable_id ≡ id) × (diff < c.ticks_remaining)) ⊎ OnCooldown id diff cs
    forth f e = elim (Bool-cases (ltb diff c.ticks_remaining && c.castable_id == id)) [
      | inl hit ↦ inl (ground arith, ground arith)
      | inr miss ↦ inr (f (ground arith))
    ]

    back :
        (OnCooldown id diff cs → found_in id diff cs ≡ true)
        → ((c.castable_id ≡ id) × (diff < c.ticks_remaining)) ⊎ OnCooldown id diff cs
        → found_in id diff (c ∷ cs) ≡ true
    back g (inl (e, lt)) = ground arith
    back g (inr h) = let r = g h in ground arith

-- When no global cooldown outlasts the time that has passed, `isCastOnCooldown` leaves the component
-- as `update` does, and it returns true exactly when a cooldown of this castable does outlast it.
pub is_cast_on_cooldown_exact :
    (c : CastCooldown) (id tick : ℕ)
    → c.gcd_ticks_remaining ≤ tick_diff c tick
    → ((is_cast_on_cooldown c id tick).0 ≡ update c tick)
      × (((is_cast_on_cooldown c id tick).1 ≡ true) → OnCooldown id (tick_diff c tick) c.cooldowns)
      × (OnCooldown id (tick_diff c tick) c.cooldowns → (is_cast_on_cooldown c id tick).1 ≡ true)
unfolding is_cast_on_cooldown update
is_cast_on_cooldown_exact c id tick h =
    let (f, g) = found_in_iff id (tick_diff c tick) c.cooldowns in
    (ground arith, λ e. f (answer ∙ e), λ w. sym answer ∙ g w)
  where
    answer : found_in id (tick_diff c tick) c.cooldowns ≡ (is_cast_on_cooldown c id tick).1
    answer = ground arith

-- While the global cooldown lasts, `isCastOnCooldown` takes the time since the last update off it
-- but does not record that it did: asked twice at one tick, it takes the same time off twice.
pub is_cast_on_cooldown_twice :
    (c : CastCooldown) (id tick : ℕ)
    → tick_diff c tick + tick_diff c tick < c.gcd_ticks_remaining
    → let again = is_cast_on_cooldown (is_cast_on_cooldown c id tick).0 id tick in
      (again.1 ≡ true)
      × (again.0.gcd_ticks_remaining ≡ c.gcd_ticks_remaining - 2 * tick_diff c tick)
      × ((update c tick).gcd_ticks_remaining ≡ c.gcd_ticks_remaining - tick_diff c tick)
unfolding is_cast_on_cooldown update
is_cast_on_cooldown_twice c id tick h = ground arith

-- A component that is saved and loaded has run down by the time up to the save, and goes on counting
-- from the tick of the load.
pub init_after_load_resumes :
    (c : CastCooldown) (saved current t : ℕ)
    → c.last_update_tick ≤ saved
    → current ≤ t
    → saved + (t - current) < 2 ^ 32
    → t < 2 ^ 32
    → (update (init_after_load c saved current) t).cooldowns
      ≡ (update c (saved + (t - current))).cooldowns
unfolding update init_after_load
init_after_load_resumes c saved current t a b lt lt' =
    let d1 : tick_diff c saved ≡ saved - c.last_update_tick = omega arith in
    let d2 : tick_diff c (saved + (t - current)) ≡ saved + (t - current) - c.last_update_tick =
      omega arith in
    let d3 : (t + 2 ^ 32 - current) % 2 ^ 32 ≡ t - current = omega arith in
    let sum : saved - c.last_update_tick + (t - current)
        ≡ saved + (t - current) - c.last_update_tick =
      omega arith in
    rw (d1, d2, d3)
      (elapse_compose (saved - c.last_update_tick) (t - current) c.cooldowns
        ∙ ap (λ n. elapse n c.cooldowns) sum)
