-- ===== src/CastSystem/Lifecycle.antt =====
-- The life of a cast: every cast under way belongs to its entity and finds that entity's cooldowns.
use amalgam_engine.Prelude.{
  ℕ, ◌≡◌, ◌≢◌, refl, ap, sym, ◌∙◌, subst, inl, inr, ◌⊎◌, List, [], ◌∷◌, none, some, arith, ◌==◌,
  Bool-cases, Option-cases,
}
use amalgam_engine.Prelude.Map.{
  lookup, insert, erase, nat_eq, lookup-insert_self, lookup-insert_ne, lookup-erase_self,
  lookup-erase_ne, beq_cases,
}
use amalgam_engine.EventSorter.{ValidityResult, too_low, valid, too_high, push, get_current_queue}
use amalgam_engine.CastCooldown.{CastCooldown}
use amalgam_engine.CastHelper.{CastFailureType, no_failure, CastState, CastRegistry}
use amalgam_engine.CastHelper.Effects.{
  Casts, refused, added, Keeps-refl, cast_spell-Casts, cast_entity_interaction-Casts,
  cast_item_interaction-Casts,
}
use amalgam_engine.CastSystem.{
  CastRequest, Scene, Casting, CastSystem, try_cast, report_cast, process_cast_request, process_all,
  sort_request, sort_requests, process_cast_requests, alternative,
}

some-eq : {A : Type 0} {a b : A} → some a ≡ some b → a ≡ b
some-eq e = cc

module _ {Float Vec : Type 0} where
  abbrev pub HasCooldown : CastRegistry Float Vec → ℕ → Type 0
  HasCooldown r e = (cd : CastCooldown) × (lookup e r.cooldowns ≡ some cd)

  -- Each cast stands under its caster, and a started one's caster has a cooldown component.
  pub record IsValid (r : CastRegistry Float Vec) : Type 0 where
    pub owned :
        (e : ℕ) (st : CastState Float Vec)
        → lookup e r.cast_states ≡ some st
        → st.cast_info.caster_entity ≡ e
    pub tracked :
        (e : ℕ) (st : CastState Float Vec)
        → lookup e r.cast_states ≡ some st
        → st.end_tick ≢ 0
        → HasCooldown r e

  -- The ways in which the code changes the two components.
  pub IsValid-cooldowns :
      (r s : CastRegistry Float Vec)
      → IsValid r
      → s.cast_states ≡ r.cast_states
      → ((e : ℕ) (cd : CastCooldown) → lookup e r.cooldowns ≡ some cd → HasCooldown s e)
      → IsValid s
  IsValid-cooldowns r s v same keeps = record {
    owned = λ e st h. v.owned e st (at e ∙ h);
    tracked = λ e st h ne. let (cd, found) = v.tracked e st (at e ∙ h) ne in keeps e cd found;
  }
    where
      at : (e : ℕ) → lookup e r.cast_states ≡ lookup e s.cast_states
      at e = sym (ap (λ m. lookup e m) same)

  pub IsValid-erase :
      (r : CastRegistry Float Vec) (k : ℕ)
      → IsValid r
      → IsValid (record r { cast_states = erase k r.cast_states })
  IsValid-erase r k v = record {
    owned = λ e st h. v.owned e st (was e st h);
    tracked = λ e st h ne. v.tracked e st (was e st h) ne;
  }
    where
      was :
          (e : ℕ) (st : CastState Float Vec)
          → lookup e (erase k r.cast_states) ≡ some st
          → lookup e r.cast_states ≡ some st
      was e st h = elim (beq_cases k e) [
        | inl p ↦ absurd (
            let gone =
              subst (λ j. lookup j (erase k r.cast_states) ≡ none) (p.1)
                (lookup-erase_self k r.cast_states) in
            cc (gone, h))
        | inr p ↦ sym (lookup-erase_ne k e r.cast_states (p.1)) ∙ h
      ]

  pub IsValid-insert :
      (r s : CastRegistry Float Vec) (k : ℕ) (st : CastState Float Vec)
      → IsValid r
      → s.cast_states ≡ insert k st r.cast_states
      → ((e : ℕ) (cd : CastCooldown) → lookup e r.cooldowns ≡ some cd → HasCooldown s e)
      → st.cast_info.caster_entity ≡ k
      → (st.end_tick ≢ 0 → HasCooldown s k)
      → IsValid s
  IsValid-insert r s k st v now keeps own track = record {
    owned = λ e u h. elim (found e u h) [
      | inl p ↦ ap (λ (x : CastState Float Vec). x.cast_info.caster_entity) (sym (p.1)) ∙ own ∙ p.0
      | inr old ↦ v.owned e u old
    ];
    tracked = λ e u h ne. elim (found e u h) [
      | inl p ↦
          subst (HasCooldown s) (p.0)
            (track (λ z. ne (ap (λ (x : CastState Float Vec). x.end_tick) (sym (p.1)) ∙ z)))
      | inr old ↦ let (cd, q) = v.tracked e u old ne in keeps e cd q
    ];
  }
    where
      found :
          (e : ℕ) (u : CastState Float Vec)
          → lookup e s.cast_states ≡ some u
          → ((k ≡ e) × (st ≡ u)) ⊎ (lookup e r.cast_states ≡ some u)
      found e u h = elim (beq_cases k e) [
        | inl p ↦ inl (
          p.1,
          some-eq (
              sym (lookup-insert_self k st r.cast_states)
              ∙ ap (λ m. lookup k m) (sym now)
              ∙ ap (λ j. lookup j s.cast_states) (p.1)
              ∙ h),
        )
        | inr p ↦
            inr (
              sym (lookup-insert_ne k e st r.cast_states (p.1))
              ∙ ap (λ m. lookup e m) (sym now)
              ∙ h)
      ]

module _ {Float Vec : Type 0} (sc : Scene Float Vec) where
  Casts-IsValid :
      (r s : CastRegistry Float Vec) (caster : ℕ)
      → IsValid r
      → Casts sc.world r s caster
      → IsValid s
  Casts-IsValid r s caster v (refused same keeps) = IsValid-cooldowns r s v same keeps
  Casts-IsValid r s caster v (added st idle unstarted own now keeps) =
      IsValid-insert r s caster st v now keeps own (λ ne. absurd (ne unstarted))

  -- Whatever the request asks for, at most one unstarted cast is added, for an idle caster.
  pub try_cast-Casts :
      (r : CastRegistry Float Vec) (q : CastRequest Vec) (caster : ℕ)
      → Casts sc.world r (try_cast sc r q caster).0 caster
  unfolding try_cast
  try_cast-Casts r q caster = elim (Bool-cases (alternative q.castable_id == 0)) [
    | inl item ↦ rw item (cast_item_interaction-Casts sc.world r _ _ _ _ _)
    | inr a ↦ elim (Bool-cases (alternative q.castable_id == 1)) [
      | inl entity ↦ rw (a, entity) (cast_entity_interaction-Casts sc.world r _ _)
      | inr b ↦ elim (Bool-cases (alternative q.castable_id == 2)) [
        | inl spell ↦ rw (a, b, spell) (cast_spell-Casts sc.world r _)
        | inr c ↦ rw (a, b, c) (refused refl (Keeps-refl sc.world r))
      ]
    ]
  ]

  report_cast-registry :
      (s : Casting Float Vec) (q : CastRequest Vec) (caster : ℕ)
      (x : CastRegistry Float Vec × CastFailureType)
      → (report_cast sc s q caster x).registry ≡ x.0
  unfolding report_cast
  report_cast-registry s q caster (r, no_failure) = refl
  report_cast-registry s q caster (r, other) = refl

  -- A request of a known client is tried for its entity.
  pub process_cast_request-registry :
      (s : Casting Float Vec) (q : CastRequest Vec) (caster : ℕ)
      → sc.client_entity q.net_id ≡ some caster
      → (process_cast_request sc s q).registry ≡ (try_cast sc s.registry q caster).0
  unfolding process_cast_request
  process_cast_request-registry s q caster e =
      rw (process_cast_request, e)
        (report_cast-registry s q caster (try_cast sc s.registry q caster))

  pub process_cast_request-none :
      (s : Casting Float Vec) (q : CastRequest Vec)
      → sc.client_entity q.net_id ≡ none
      → process_cast_request sc s q ≡ s
  unfolding process_cast_request
  process_cast_request-none s q e = rw (process_cast_request, e)

  process_cast_request-IsValid :
      (s : Casting Float Vec) (q : CastRequest Vec)
      → IsValid s.registry
      → IsValid (process_cast_request sc s q).registry
  process_cast_request-IsValid s q v = elim (Option-cases (sc.client_entity q.net_id)) [
    | inl gone ↦
        subst (λ (t : Casting Float Vec). IsValid t.registry)
          (sym (process_cast_request-none s q gone)) v
    | inr (caster, e) ↦ subst IsValid (sym (process_cast_request-registry s q caster e)) (
        Casts-IsValid s.registry (try_cast sc s.registry q caster).0 caster v
          (try_cast-Casts s.registry q caster))
  ]

  process_all-IsValid :
      (s : Casting Float Vec) (qs : List (CastRequest Vec))
      → IsValid s.registry
      → IsValid (process_all sc s qs).registry
  unfolding process_all
  process_all-IsValid s [] v = v
  process_all-IsValid s (q ∷ qs) v =
      process_all-IsValid (process_cast_request sc s q) qs (process_cast_request-IsValid s q v)

  -- A request of the queue leaves the casting state as it is, or is processed.
  pub sort_request-casting :
      (s : CastSystem Float Vec) (q : CastRequest Vec)
      → ((sort_request sc s q).casting ≡ s.casting)
        ⊎ ((sort_request sc s q).casting ≡ process_cast_request sc s.casting q)
  unfolding sort_request
  sort_request-casting s q = elim (Option-cases (sc.castables q.castable_id)) [
    | inl unknown ↦ inl (ground arith)
    | inr (c, e) ↦ elim (Bool-cases c.is_tick_synchronized) [
      | inr unsynced ↦ inr (ground arith)
      | inl synced ↦ elim (result (push s.cast_request_sorter q q.tick_num).1) [
        | inl on_time ↦ inl (ground arith)
        | inr (inl low) ↦ inr (ground arith)
        | inr (inr high) ↦ inr (ground arith)
      ]
    ]
  ]
    where
      result : (r : ValidityResult) → (r ≡ valid) ⊎ ((r ≡ too_low) ⊎ (r ≡ too_high))
      result valid = inl refl
      result too_low = inr (inl refl)
      result too_high = inr (inr refl)

  sort_requests-IsValid :
      (s : CastSystem Float Vec) (qs : List (CastRequest Vec))
      → IsValid s.casting.registry
      → IsValid (sort_requests sc s qs).casting.registry
  unfolding sort_requests
  sort_requests-IsValid s [] v = v
  sort_requests-IsValid s (q ∷ qs) v =
      sort_requests-IsValid (sort_request sc s q) qs (elim (sort_request-casting s q) [
        | inl same ↦ subst (λ (c : Casting Float Vec). IsValid c.registry) (sym same) v
        | inr tried ↦
            subst (λ (c : Casting Float Vec). IsValid c.registry) (sym tried)
              (process_cast_request-IsValid s.casting q v)
      ])

  pub process_cast_requests-IsValid :
      (s : CastSystem Float Vec) (qs : List (CastRequest Vec))
      → IsValid s.casting.registry
      → IsValid (process_cast_requests sc s qs).casting.registry
  unfolding process_cast_requests
  process_cast_requests-IsValid s qs v =
      process_all-IsValid (sort_requests sc s qs).casting
        (get_current_queue (sort_requests sc s qs).cast_request_sorter)
        (sort_requests-IsValid s qs v)
