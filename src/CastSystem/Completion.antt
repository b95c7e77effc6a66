-- ===== src/CastSystem/Completion.antt =====
-- One tick of a cast whose caster stands still: it is under way, or it comes to its end.
use mathlib.Core.List.{append_assoc}
use amalgam_engine.Prelude.{
  ℕ, ◌≡◌, ◌≢◌, refl, ap, sym, ◌∙◌, subst, inl, inr, true, false, List, [], ◌∷◌, ◌++◌, none, some,
  arith, ◌==◌, map,
}
use amalgam_engine.Prelude.Map.{lookup, erase, nat_eq, beq_cases, lookup-erase_self}
use amalgam_engine.CastHelper.{CastInfo, CastState}
use amalgam_engine.CastSystem.{
  CastRequest, Scene, Casting, CastSystem, has_moved, cast_is_valid, handle_cast, update_state,
  update_cast, update_entities, update_casts, process_cast_requests, process_casts,
}
use amalgam_engine.CastSystem.Lifecycle.{IsValid, HasCooldown, process_cast_requests-IsValid}
use amalgam_engine.CastSystem.Frame.{Only}
use amalgam_engine.CastSystem.Updates.{finished, finish_cast-some, update_cast-some}
use amalgam_engine.CastSystem.Busy.{process_cast_requests-Busy}

module _ {Float Vec : Type 0} where
  -- The cast has been handed to its handler.
  abbrev pub IsHandled : CastInfo Float Vec → List (CastInfo Float Vec) → Type 0
  IsHandled info h =
      (xs : List (CastInfo Float Vec)) × (ys : List (CastInfo Float Vec)) × (h ≡ xs ++ info ∷ ys)

  -- It is over: its entity is free for another, and the handler has been called.
  pub record IsDone (e : ℕ) (info : CastInfo Float Vec) (s : Casting Float Vec) : Type 0 where
    pub free : lookup e s.registry.cast_states ≡ none
    pub handled : IsHandled info s.handled

  IsDone-Only :
      (e k : ℕ) (info : CastInfo Float Vec) (s t : Casting Float Vec)
      → k ≢ e
      → Only k s t
      → IsDone e info s
      → IsDone e info t
  IsDone-Only e k info s t ne o d =
      let (xs, ys, at) = d.handled in
      let (new, grown) = o.more in
      record {
        free = o.others e ne ∙ d.free;
        handled = (xs, ys ++ new, grown ∙ ap (λ h. h ++ new) at ∙ append_assoc xs (info ∷ ys) new);
      }

module _ {Float Vec : Type 0} (sc : Scene Float Vec) (e : ℕ) (st : CastState Float Vec) where
  -- A started cast whose caster has not moved.
  abbrev pub Stands : Type 0
  Stands = (st.end_tick ≢ 0) × (has_moved sc e ≡ false)

  idle_cast :
      (s : Casting Float Vec) → lookup e s.registry.cast_states ≡ none → update_cast sc s e ≡ some s
  unfolding update_cast
  idle_cast s free = rw (update_cast, free) refl

  waiting_cast :
      (s : Casting Float Vec)
      → lookup e s.registry.cast_states ≡ some st
      → Stands
      → sc.world.current_tick ≢ st.end_tick
      → update_cast sc s e ≡ some s
  unfolding update_cast update_state
  waiting_cast s h (running, still) early =
      let no_end : (sc.world.current_tick == st.end_tick) ≡ false = ground arith in
      let begun : (st.end_tick == 0) ≡ false = ground arith in
      rw (update_cast, h, update_state, begun, still, no_end) refl

  waiting_entities :
      (s : Casting Float Vec) (es : List ℕ)
      → IsValid s.registry
      → lookup e s.registry.cast_states ≡ some st
      → Stands
      → sc.world.current_tick ≢ st.end_tick
      → (t : Casting Float Vec) × (update_entities sc s es ≡ some t)
        × IsValid t.registry
        × (lookup e t.registry.cast_states ≡ some st)
  unfolding update_entities
  waiting_entities s [] v h stands early = (s, refl, v, h)
  waiting_entities s (k ∷ es) v h stands early = elim (beq_cases k e) [
    | inl p ↦
        let (t, q, w, g) = waiting_entities s es v h stands early in
        (t, rw (update_entities, p.1, waiting_cast s h stands early) q, w, g)
    | inr p ↦
        let (u, qu, wu, o) = update_cast-some sc s k v in
        let (t, q, w, g) = waiting_entities u es wu (o.others e (p.1) ∙ h) stands early in
        (t, rw (update_entities, qu) q, w, g)
  ]

  finished_entities :
      (s : Casting Float Vec) (es : List ℕ)
      → IsValid s.registry
      → IsDone e st.cast_info s
      → (t : Casting Float Vec) × (update_entities sc s es ≡ some t)
        × IsValid t.registry
        × IsDone e st.cast_info t
  unfolding update_entities
  finished_entities s [] v d = (s, refl, v, d)
  finished_entities s (k ∷ es) v d = elim (beq_cases k e) [
    | inl p ↦
        let (t, q, w, g) = finished_entities s es v d in
        (t, rw (update_entities, p.1, idle_cast s d.free) q, w, g)
    | inr p ↦
        let (u, qu, wu, o) = update_cast-some sc s k v in
        let (t, q, w, g) = finished_entities u es wu (IsDone-Only e k st.cast_info s u (p.1) o d) in
        (t, rw (update_entities, qu) q, w, g)
  ]

  -- The tick in which the cast is due.
  abbrev pub Due : Type 0
  Due =
      Stands
      × (sc.world.current_tick ≡ st.end_tick)
      × (cast_is_valid sc st.cast_info (sc.world.position e) ≡ true)
      × (sc.has_handler st.cast_info.castable.castable_id ≡ true)

  due_cast :
      (s : Casting Float Vec)
      → IsValid s.registry
      → lookup e s.registry.cast_states ≡ some st
      → Due
      → (t : Casting Float Vec) × (update_cast sc s e ≡ some t)
        × IsValid t.registry
        × IsDone e st.cast_info t
  unfolding update_cast update_state handle_cast
  due_cast s v h ((running, still), now, fine, handler) =
      let own = v.owned e st h in
      let (r, same, q, w, _) =
        finish_cast-some sc s st v
          (subst (HasCooldown s.registry) (sym own) (v.tracked e st h running)) in
      let begun : (st.end_tick == 0) ≡ false = ground arith in
      let at_end : (sc.world.current_tick == st.end_tick) ≡ true = ground arith in
      (
        finished sc s r st.cast_info,
        rw (update_cast, h, update_state, begun, still, at_end, fine) q,
        w,
        record {
          free = ap (λ k. lookup e (erase k r.cast_states)) own ∙ lookup-erase_self e r.cast_states;
          handled = (s.handled, [], rw (handle_cast, handler) refl);
        },
      )

  due_entities :
      (s : Casting Float Vec) (m : List (ℕ × CastState Float Vec))
      → IsValid s.registry
      → lookup e s.registry.cast_states ≡ some st
      → Due
      → lookup e m ≡ some st
      → (t : Casting Float Vec) × (update_entities sc s
            (map (λ (p : ℕ × CastState Float Vec). p.0) m)
          ≡ some t)
        × IsValid t.registry
        × IsDone e st.cast_info t
  unfolding update_entities lookup
  due_entities s [] v h due listed = absurd (cc listed)
  due_entities s ((k, x) ∷ m) v h due listed = elim (beq_cases k e) [
    | inl p ↦
        let (u, qu, wu, d) = due_cast s v h due in
        let (t, q, w, g) =
          finished_entities u (map (λ (p : ℕ × CastState Float Vec). p.0) m) wu d in
        (t, rw (update_entities, p.1, qu) q, w, g)
    | inr p ↦
        let (u, qu, wu, o) = update_cast-some sc s k v in
        let (t, q, w, g) =
          due_entities u m wu (o.others e (p.1) ∙ h) due (ground (arith, p.0, listed)) in
        (t, rw (update_entities, qu) q, w, g)
  ]

  -- One tick in which the cast is under way, and the one in which it is due.
  pub waiting_tick :
      (s : CastSystem Float Vec) (qs : List (CastRequest Vec))
      → IsValid s.casting.registry
      → lookup e s.casting.registry.cast_states ≡ some st
      → Stands
      → sc.world.current_tick ≢ st.end_tick
      → (t : CastSystem Float Vec) × (process_casts sc s qs ≡ some t)
        × IsValid t.casting.registry
        × (lookup e t.casting.registry.cast_states ≡ some st)
  unfolding process_casts update_casts
  waiting_tick s qs v h stands early =
      let r = process_cast_requests sc s qs in
      let (busy, _) = process_cast_requests-Busy sc e st s.casting.handled s qs (h, refl) in
      let (c, q, w, g) =
        waiting_entities r.casting
          (map (λ (p : ℕ × CastState Float Vec). p.0) r.casting.registry.cast_states)
          (process_cast_requests-IsValid sc s qs v) busy stands early in
      (record r { casting = c }, rw (process_casts, update_casts, q) refl, w, g)

  pub due_tick :
      (s : CastSystem Float Vec) (qs : List (CastRequest Vec))
      → IsValid s.casting.registry
      → lookup e s.casting.registry.cast_states ≡ some st
      → Due
      → (t : CastSystem Float Vec) × (process_casts sc s qs ≡ some t)
        × IsValid t.casting.registry
        × IsDone e st.cast_info t.casting
  unfolding process_casts update_casts
  due_tick s qs v h due =
      let r = process_cast_requests sc s qs in
      let (busy, _) = process_cast_requests-Busy sc e st s.casting.handled s qs (h, refl) in
      let (c, q, w, g) =
        due_entities r.casting r.casting.registry.cast_states
          (process_cast_requests-IsValid sc s qs v) busy due busy in
      (record r { casting = c }, rw (process_casts, update_casts, q) refl, w, g)
