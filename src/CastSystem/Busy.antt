-- ===== src/CastSystem/Busy.antt =====
-- A cast under way is left alone by the requests of a tick.
use amalgam_engine.Prelude.{
  ℕ, ◌≡◌, ◌≢◌, refl, ap, sym, ◌∙◌, subst, inl, inr, List, [], ◌∷◌, some, Option-cases,
}
use amalgam_engine.Prelude.Map.{lookup, nat_eq, lookup-insert_ne}
use amalgam_engine.EventSorter.{get_current_queue}
use amalgam_engine.CastHelper.{CastFailureType, no_failure, CastInfo, CastState, CastRegistry}
use amalgam_engine.CastHelper.Effects.{Casts, refused, added}
use amalgam_engine.CastSystem.{
  CastRequest, Scene, Casting, CastSystem, try_cast, report_cast, process_cast_request, process_all,
  sort_request, sort_requests, process_cast_requests,
}
use amalgam_engine.CastSystem.Lifecycle.{
  try_cast-Casts, process_cast_request-registry, process_cast_request-none, sort_request-casting,
}

module _ {Float Vec : Type 0} (sc : Scene Float Vec) (e : ℕ) (st : CastState Float Vec) where
  -- The entity has this cast under way, and these casts have been handled.
  abbrev pub Busy : List (CastInfo Float Vec) → Casting Float Vec → Type 0
  Busy h s = (lookup e s.registry.cast_states ≡ some st) × (s.handled ≡ h)

  Casts-Busy :
      (r s : CastRegistry Float Vec) (caster : ℕ)
      → Casts sc.world r s caster
      → lookup e r.cast_states ≡ some st
      → lookup e s.cast_states ≡ some st
  Casts-Busy r s caster (refused same keeps) h = ap (λ m. lookup e m) same ∙ h
  Casts-Busy r s caster (added new idle unstarted own now keeps) h =
      ap (λ m. lookup e m) now ∙ lookup-insert_ne caster e new r.cast_states apart ∙ h
    where
      apart : caster ≢ e
      apart q = let at = ap (λ k. lookup k r.cast_states) q in cc (at, idle, h)

  report_cast-handled :
      (s : Casting Float Vec) (q : CastRequest Vec) (caster : ℕ)
      (x : CastRegistry Float Vec × CastFailureType)
      → (report_cast sc s q caster x).handled ≡ s.handled
  unfolding report_cast
  report_cast-handled s q caster (r, no_failure) = refl
  report_cast-handled s q caster (r, other) = refl

  process_cast_request-handled :
      (s : Casting Float Vec) (q : CastRequest Vec)
      → (process_cast_request sc s q).handled ≡ s.handled
  unfolding process_cast_request
  process_cast_request-handled s q = elim (Option-cases (sc.client_entity q.net_id)) [
    | inl gone ↦ rw (process_cast_request, gone)
    | inr (caster, known) ↦
        rw (process_cast_request, known)
          (report_cast-handled s q caster (try_cast sc s.registry q caster))
  ]

  process_cast_request-Busy :
      (h : List (CastInfo Float Vec)) (s : Casting Float Vec) (q : CastRequest Vec)
      → Busy h s
      → Busy h (process_cast_request sc s q)
  process_cast_request-Busy h s q (under_way, same) = (
    elim (Option-cases (sc.client_entity q.net_id)) [
      | inl gone ↦
          ap (λ (t : Casting Float Vec). lookup e t.registry.cast_states)
            (process_cast_request-none sc s q gone)
          ∙ under_way
      | inr (caster, known) ↦
          ap (λ (r : CastRegistry Float Vec). lookup e r.cast_states)
            (process_cast_request-registry sc s q caster known)
          ∙ Casts-Busy s.registry (try_cast sc s.registry q caster).0 caster
              (try_cast-Casts sc s.registry q caster) under_way
    ],
    process_cast_request-handled s q ∙ same,
  )

  process_all-Busy :
      (h : List (CastInfo Float Vec)) (s : Casting Float Vec) (qs : List (CastRequest Vec))
      → Busy h s
      → Busy h (process_all sc s qs)
  unfolding process_all
  process_all-Busy h s [] b = b
  process_all-Busy h s (q ∷ qs) b =
      process_all-Busy h (process_cast_request sc s q) qs (process_cast_request-Busy h s q b)

  sort_requests-Busy :
      (h : List (CastInfo Float Vec)) (s : CastSystem Float Vec) (qs : List (CastRequest Vec))
      → Busy h s.casting
      → Busy h (sort_requests sc s qs).casting
  unfolding sort_requests
  sort_requests-Busy h s [] b = b
  sort_requests-Busy h s (q ∷ qs) b =
      sort_requests-Busy h (sort_request sc s q) qs (elim (sort_request-casting sc s q) [
        | inl same ↦ subst (Busy h) (sym same) b
        | inr tried ↦ subst (Busy h) (sym tried) (process_cast_request-Busy h s.casting q b)
      ])

  pub process_cast_requests-Busy :
      (h : List (CastInfo Float Vec)) (s : CastSystem Float Vec) (qs : List (CastRequest Vec))
      → Busy h s.casting
      → Busy h (process_cast_requests sc s qs).casting
  unfolding process_cast_requests
  process_cast_requests-Busy h s qs b =
      process_all-Busy h (sort_requests sc s qs).casting
        (get_current_queue (sort_requests sc s qs).cast_request_sorter)
        (sort_requests-Busy h s qs b)
