-- ===== src/CastSystem/Updates.antt =====
-- `updateCasts`: starting, cancelling and finishing a cast.
use mathlib.Core.List.{append-nil}
use amalgam_engine.Prelude.{
  ℕ, ◌+◌, ◌%◌, ◌^◌, ◌≡◌, refl, ap, sym, ◌∙◌, subst, inl, inr, List, [], ◌∷◌, ◌++◌, some, arith,
  ◌==◌, map, Bool-cases, Option-cases,
}
use amalgam_engine.Prelude.Map.{lookup, insert, erase, nat_eq, lookup-insert_self}
use amalgam_engine.CastCooldown.{Cooldown, CastCooldown}
use amalgam_engine.CastHelper.{CastInfo, CastState, CastRegistry, movement}
use amalgam_engine.CastHelper.Effects.{Keeps-insert, Keeps-refl}
use amalgam_engine.CastSystem.{
  CastRequest, Scene, Casting, CastSystem, cast_failed, cast_started, announce, track_cooldown,
  handle_cast, finish_cast, cancel_cast, track_gcd, start_cast, has_moved, cast_is_valid,
  update_state, update_cast, update_entities, update_casts, process_cast_requests, process_casts,
}
use amalgam_engine.CastSystem.Frame.{
  Only, Only-refl, Only-erase, Only-insert, handle_cast-more, announce-handled,
}
use amalgam_engine.CastSystem.Lifecycle.{
  HasCooldown, IsValid, IsValid-cooldowns, IsValid-erase, IsValid-insert,
  process_cast_requests-IsValid,
}

module _ {Float Vec : Type 0} (sc : Scene Float Vec) where
  -- The state behind a finished cast, from the registry with its cooldown.
  abbrev pub finished :
      Casting Float Vec → CastRegistry Float Vec → CastInfo Float Vec → Casting Float Vec
  finished s r info = record s {
    registry = record r { cast_states = erase info.caster_entity r.cast_states };
    handled = handle_cast sc s.handled info;
  }

  -- The registry in which the cooldown is tracked.
  pub track_cooldown-some :
      (r : CastRegistry Float Vec) (info : CastInfo Float Vec)
      → IsValid r
      → HasCooldown r info.caster_entity
      → (t : CastRegistry Float Vec) × (track_cooldown sc r info ≡ some t)
        × IsValid t
        × (t.cast_states ≡ r.cast_states)
  unfolding track_cooldown
  track_cooldown-some r info v (cd, e) =
      elim (Bool-cases (sc.world.is_positive info.castable.cooldown_time)) [
        | inr none_needed ↦ (r, ground arith, v, refl)
        | inl needed ↦
            let added : Cooldown = record {
              castable_id = info.castable.castable_id;
              ticks_remaining = sc.world.ticks info.castable.cooldown_time;
            } in
            let longer : CastCooldown = record cd { cooldowns = cd.cooldowns ++ added ∷ [] } in
            let t : CastRegistry Float Vec = record r {
              cooldowns = insert info.caster_entity longer r.cooldowns;
            } in
            (
              t,
              ground arith,
              IsValid-cooldowns r t v refl
                  (Keeps-insert sc.world r t info.caster_entity longer refl),
              refl,
            )
      ]

  pub finish_cast-some :
      (s : Casting Float Vec) (st : CastState Float Vec)
      → IsValid s.registry
      → HasCooldown s.registry st.cast_info.caster_entity
      → (r : CastRegistry Float Vec) × (r.cast_states ≡ s.registry.cast_states)
        × (finish_cast sc s st ≡ some (finished s r st.cast_info))
        × IsValid (finished s r st.cast_info).registry
        × Only st.cast_info.caster_entity s (finished s r st.cast_info)
  unfolding finish_cast
  finish_cast-some s st v c =
      let (r, e, w, same) = track_cooldown-some s.registry st.cast_info v c in
      let k = st.cast_info.caster_entity in
      (
        r,
        same,
        rw (finish_cast, e),
        IsValid-erase r k w,
        Only-erase k s (finished s r st.cast_info) (ap (erase k) same)
            (handle_cast-more sc s.handled st.cast_info),
      )

  pub cancel_cast-some :
      (s : Casting Float Vec) (st : CastState Float Vec)
      → IsValid s.registry
      → HasCooldown s.registry st.cast_info.caster_entity
      → (t : Casting Float Vec) × (cancel_cast sc s st ≡ some t)
        × IsValid t.registry
        × Only st.cast_info.caster_entity s t
  unfolding cancel_cast
  cancel_cast-some s st v (cd, e) =
      let info = st.cast_info in
      let r : CastRegistry Float Vec = record {
        cast_states = erase info.caster_entity s.registry.cast_states;
        cooldowns =
            insert info.caster_entity (record cd { gcd_ticks_remaining = 0 }) s.registry.cooldowns;
      } in
      let message = cast_failed info.caster_entity info.castable.castable_id movement in
      let t : Casting Float Vec = record (announce sc s info message) { registry = r } in
      (
        t,
        rw (cancel_cast, e),
        IsValid-cooldowns
            (record s.registry { cast_states = erase info.caster_entity s.registry.cast_states }) r
            (IsValid-erase s.registry info.caster_entity v) refl
            (Keeps-insert sc.world s.registry r info.caster_entity _ refl),
        Only-erase info.caster_entity s t refl
            ([], announce-handled sc s info message ∙ sym (append-nil s.handled)),
      )

  -- Behind `get_or_emplace` the caster has a cooldown component.
  pub track_gcd-IsValid :
      (r : CastRegistry Float Vec) (info : CastInfo Float Vec)
      → IsValid r
      → IsValid (track_gcd sc r info) × HasCooldown (track_gcd sc r info) info.caster_entity
  unfolding track_gcd
  track_gcd-IsValid r info v = (
    IsValid-cooldowns r (track_gcd sc r info) v refl
        (Keeps-insert sc.world r (track_gcd sc r info) info.caster_entity _ refl),
    (_, lookup-insert_self info.caster_entity _ r.cooldowns),
  )

  -- What `startCast` leaves of a cast that is not instant.
  abbrev pub started : CastState Float Vec → CastState Float Vec
  started st = record st {
    end_tick = (sc.world.current_tick + sc.world.ticks st.cast_info.castable.cast_time) % 2 ^ 32;
  }

  abbrev pub start_announced : Casting Float Vec → CastInfo Float Vec → Casting Float Vec
  start_announced s info =
      record (announce sc s info (
        cast_started info.caster_entity info.castable.castable_id info.target_entity
          info.target_position)) { registry = track_gcd sc s.registry info }

  start_cast-some :
      (s : Casting Float Vec) (e : ℕ) (st : CastState Float Vec)
      → IsValid s.registry
      → st.cast_info.caster_entity ≡ e
      → (t : Casting Float Vec) × (start_cast sc s e st ≡ some t) × IsValid t.registry × Only e s t
  unfolding start_cast
  start_cast-some s e st v own =
      let info = st.cast_info in
      let quiet = announce-handled sc s info (
        cast_started info.caster_entity info.castable.castable_id info.target_entity
          info.target_position) in
      let (w, cooldown) = track_gcd-IsValid s.registry info v in
      elim (Bool-cases (sc.world.is_zero info.castable.cast_time)) [
        | inl instant ↦
            let (r, same, done, x, _) = finish_cast-some (start_announced s info) st w cooldown in
            let t = finished (start_announced s info) r info in
            let (new, grown) = handle_cast-more sc (start_announced s info).handled info in
            (
              t,
              rw (start_cast, instant) done,
              x,
              Only-erase e s t (ap (λ k. erase k r.cast_states) own ∙ ap (erase e) same)
                  (new, grown ∙ ap (λ h. h ++ new) quiet),
            )
        | inr timed ↦
            let g = track_gcd sc s.registry info in
            let r : CastRegistry Float Vec = record g {
              cast_states = insert e (started st) g.cast_states;
            } in
            let t : Casting Float Vec = record (start_announced s info) { registry = r } in
            (
              t,
              rw (start_cast, timed),
              IsValid-insert g r e (started st) w refl (Keeps-refl sc.world g) own
                  (λ ne. subst (HasCooldown g) own cooldown),
              Only-insert e (started st) s t refl quiet,
            )
      ]

  update_state-some :
      (s : Casting Float Vec) (e : ℕ) (st : CastState Float Vec)
      → IsValid s.registry
      → lookup e s.registry.cast_states ≡ some st
      → (t : Casting Float Vec) × (update_state sc s e st ≡ some t)
        × IsValid t.registry
        × Only e s t
  unfolding update_state
  update_state-some s e st v h = elim (Bool-cases (st.end_tick == 0)) [
    | inl unstarted ↦
        let (t, q, w, o) = start_cast-some s e st v (v.owned e st h) in
        (t, rw (update_state, unstarted) q, w, o)
    | inr running ↦
        let cooldown =
          subst (HasCooldown s.registry) (sym (v.owned e st h)) (v.tracked e st h (ground arith)) in
        let (c, cq, cw, co) = cancel_cast-some s st v cooldown in
        let (r, _, fq, fw, fo) = finish_cast-some s st v cooldown in
        let mine = λ (t : Casting Float Vec). subst (λ k. Only k s t) (v.owned e st h) in
        elim (Bool-cases (has_moved sc e)) [
          | inl moved ↦ (c, rw (update_state, running, moved) cq, cw, mine c co)
          | inr still ↦ elim (Bool-cases (sc.world.current_tick == st.end_tick)) [
            | inr early ↦ (s, rw (update_state, running, still, early) refl, v, Only-refl e s)
            | inl due ↦ elim (Bool-cases (cast_is_valid sc st.cast_info (sc.world.position e))) [
              | inr broken ↦ (c, rw (update_state, running, still, due, broken) cq, cw, mine c co)
              | inl fine ↦ (
                finished s r st.cast_info,
                rw (update_state, running, still, due, fine) fq,
                fw,
                mine (finished s r st.cast_info) fo,
              )
            ]
          ]
        ]
  ]

  pub update_cast-some :
      (s : Casting Float Vec) (e : ℕ)
      → IsValid s.registry
      → (t : Casting Float Vec) × (update_cast sc s e ≡ some t) × IsValid t.registry × Only e s t
  unfolding update_cast
  update_cast-some s e v = elim (Option-cases (lookup e s.registry.cast_states)) [
    | inl idle ↦ (s, rw (update_cast, idle) refl, v, Only-refl e s)
    | inr (st, h) ↦
        let (t, q, w, o) = update_state-some s e st v h in (t, rw (update_cast, h) q, w, o)
  ]

  pub update_entities-some :
      (s : Casting Float Vec) (es : List ℕ)
      → IsValid s.registry
      → (t : Casting Float Vec) × (update_entities sc s es ≡ some t) × IsValid t.registry
  unfolding update_entities
  update_entities-some s [] v = (s, refl, v)
  update_entities-some s (e ∷ es) v =
      let (t, q, w, _) = update_cast-some s e v in
      let (u, q', x) = update_entities-some t es w in (u, rw (update_entities, q) q', x)

  -- In a tick, whatever the requests, the positions and the world, no read of a missing component
  -- occurs, and every cast stays with its caster, a started one with its caster's cooldowns.
  pub process_casts-IsValid :
      (s : CastSystem Float Vec) (qs : List (CastRequest Vec))
      → IsValid s.casting.registry
      → (t : CastSystem Float Vec) × (process_casts sc s qs ≡ some t) × IsValid t.casting.registry
  unfolding process_casts update_casts
  process_casts-IsValid s qs v =
      let r = process_cast_requests sc s qs in
      let (c, q, w) =
        update_entities-some r.casting
          (map (λ (p : ℕ × CastState Float Vec). p.0) r.casting.registry.cast_states)
          (process_cast_requests-IsValid sc s qs v) in
      (record r { casting = c }, rw (process_casts, update_casts, q) refl, w)
