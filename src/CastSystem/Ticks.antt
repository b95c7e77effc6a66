-- ===== src/CastSystem/Ticks.antt =====
-- Over the ticks of the simulation, a cast of an entity that stands still comes to its end.
use amalgam_engine.Prelude.{
  ℕ, zero, suc, ◌+◌, ◌%◌, ◌^◌, ◌≤◌, ◌<◌, ◌≡◌, refl, sym, ap, ◌∙◌, subst, true, false, List, Option,
  none, some, arith,
}
use amalgam_engine.Prelude.Map.{lookup, nat_eq}
use amalgam_engine.CastHelper.{CastState}
use amalgam_engine.CastSystem.{
  CastRequest, Scene, CastSystem, has_moved, cast_is_valid, process_casts,
}
use amalgam_engine.CastSystem.Lifecycle.{IsValid}
use amalgam_engine.CastSystem.Completion.{IsDone, waiting_tick, due_tick}

module _ {Float Vec : Type 0} (sc : ℕ → Scene Float Vec) (qs : ℕ → List (CastRequest Vec)) where
  -- `k` ticks of the simulation, the first of them tick `n`.
  unfoldable pub run_ticks : ℕ → ℕ → CastSystem Float Vec → Option (CastSystem Float Vec)
  run_ticks zero n s = some s
  run_ticks (suc k) n s = elim (process_casts (sc n) s (qs n)) [
    | none ↦ none
    | some t ↦ run_ticks k (suc n) t
  ]

  -- In tick m the simulation's counter, a `Uint32`, is m with its wrap-around, and entity e stands where
  -- it was.
  pub record StandsStill (e : ℕ) : Type 0 where
    pub ticking : (m : ℕ) → (sc m).world.current_tick ≡ m % 2 ^ 32
    pub still : (m : ℕ) → has_moved (sc m) e ≡ false

  -- A started cast that ends in tick n + k, with the wrap-around of the counter, and k < 2^32. From
  -- tick n on its caster stands still, whatever is requested; in the last tick the cast is still valid
  -- and its castable has a handler. Then no tick reads a missing component, and behind tick n + k the
  -- handler has been called with the cast and the caster has no cast under way.
  pub run_ticks_completes :
      (k n e : ℕ) (st : CastState Float Vec) (s : CastSystem Float Vec)
      → IsValid s.casting.registry
      → lookup e s.casting.registry.cast_states ≡ some st
      → StandsStill e
      → st.end_tick ≡ (n + k) % 2 ^ 32
      → 0 < st.end_tick
      → k < 2 ^ 32
      → cast_is_valid (sc (n + k)) st.cast_info ((sc (n + k)).world.position e) ≡ true
      → (sc (n + k)).has_handler st.cast_info.castable.castable_id ≡ true
      → (t : CastSystem Float Vec) × (run_ticks (suc k) n s ≡ some t)
        × IsValid t.casting.registry
        × IsDone e st.cast_info t.casting
  unfolding run_ticks
  run_ticks_completes zero n e st s v h stands ends begun near fine handler =
      let now : n + 0 ≡ n = omega arith in
      let (t, q, w, d) = due_tick (sc n) e st s (qs n) v h (
        (omega arith, stands.still n),
        stands.ticking n ∙ sym (ends ∙ ap (λ m. m % 2 ^ 32) now),
        subst (λ m. cast_is_valid (sc m) st.cast_info ((sc m).world.position e) ≡ true) now fine,
        subst (λ m. (sc m).has_handler st.cast_info.castable.castable_id ≡ true) now handler,
      ) in
      (t, rw (run_ticks, q) refl, w, d)
  run_ticks_completes (suc k) n e st s v h stands ends begun near fine handler =
      let later : n + suc k ≡ suc n + k = omega arith in
      let (t, q, w, g) =
        waiting_tick (sc n) e st s (qs n) v h (omega arith, stands.still n)
          (let at = stands.ticking n in omega (arith, ends, at)) in
      let (u, qu, wu, d) =
        run_ticks_completes k (suc n) e st t w g stands (ends ∙ ap (λ m. m % 2 ^ 32) later) begun
          (omega arith)
          (subst (λ m. cast_is_valid (sc m) st.cast_info ((sc m).world.position e) ≡ true) later
            fine)
          (subst (λ m. (sc m).has_handler st.cast_info.castable.castable_id ≡ true) later
            handler) in
      (u, rw (run_ticks, q) qu, wu, d)

  -- A cast whose end tick has passed is not completed while its caster stands still, until the counter
  -- wraps around and comes to the end tick again: from tick n on it is under way after any number of
  -- ticks k with n + k <= its end tick + 2^32.
  pub run_ticks_stuck :
      (k n e : ℕ) (st : CastState Float Vec) (s : CastSystem Float Vec)
      → IsValid s.casting.registry
      → lookup e s.casting.registry.cast_states ≡ some st
      → StandsStill e
      → 0 < st.end_tick
      → st.end_tick < n
      → n + k ≤ st.end_tick + 2 ^ 32
      → (t : CastSystem Float Vec) × (run_ticks k n s ≡ some t)
        × (lookup e t.casting.registry.cast_states ≡ some st)
  unfolding run_ticks
  run_ticks_stuck zero n e st s v h stands begun past soon = (s, refl, h)
  run_ticks_stuck (suc k) n e st s v h stands begun past soon =
      let (t, q, w, g) =
        waiting_tick (sc n) e st s (qs n) v h (omega arith, stands.still n)
          (let at = stands.ticking n in omega (arith, at)) in
      let (u, qu, gu) =
        run_ticks_stuck k (suc n) e st t w g stands begun (omega arith) (omega arith) in
      (u, rw (run_ticks, q) qu, gu)
