-- ===== src/CastHelper/Effects.antt =====
-- What a cast function changes in the registry, whether it succeeds or not.
use amalgam_engine.Prelude.{
  ℕ, ◌≡◌, ◌≢◌, refl, ap, ◌∙◌, subst, inl, inr, ◌⊎◌, Bool, true, false, Option, none, some, arith,
  Bool-cases, Option-cases,
}
use amalgam_engine.Prelude.Map.{
  lookup, insert, nat_eq, lookup-insert_self, lookup-insert_ne, beq_cases,
}
use amalgam_engine.ItemData.{ItemData}
use amalgam_engine.Inventory.{Inventory}
use amalgam_engine.CastCooldown.{CastCooldown, is_cast_on_cooldown}
use amalgam_engine.CastHelper.{
  CastFailureType, no_failure, Castable, World, CastState, CastRegistry, CastParams, is_some,
  found_item, perform_shared_checks, start_cast, finish_untargeted, finish_targeted,
  cast_found_item, cast_item_interaction, cast_entity_interaction, cast_spell, is_moving,
}
use amalgam_engine.CastHelper.Checks.{started_state, shared_checks_sound, shared_checks_states}

module _ {Float Vec : Type 0} (w : World Float Vec) where
  -- No entity loses its cooldown component.
  abbrev pub Keeps : CastRegistry Float Vec → CastRegistry Float Vec → Type 0
  Keeps r s =
      (e : ℕ) (cd : CastCooldown)
      → lookup e r.cooldowns ≡ some cd
      → (cd' : CastCooldown) × (lookup e s.cooldowns ≡ some cd')

  -- At most one cast is added, for an entity that has none, and it is unstarted.
  pub data Casts (r s : CastRegistry Float Vec) (caster : ℕ) : Type 0 where
    refused : s.cast_states ≡ r.cast_states → Keeps r s → Casts r s caster
    added :
        (st : CastState Float Vec)
        → lookup caster r.cast_states ≡ none
        → st.end_tick ≡ 0
        → st.cast_info.caster_entity ≡ caster
        → s.cast_states ≡ insert caster st r.cast_states
        → Keeps r s
        → Casts r s caster

  pub Keeps-refl : (r : CastRegistry Float Vec) → Keeps r r
  Keeps-refl r e cd h = (cd, h)

  pub Keeps-insert :
      (r s : CastRegistry Float Vec) (k : ℕ) (v : CastCooldown)
      → s.cooldowns ≡ insert k v r.cooldowns
      → Keeps r s
  Keeps-insert r s k v q e cd h = elim (beq_cases k e) [
    | inl p ↦ (
      v,
      q' e
          ∙ subst (λ j. lookup j (insert k v r.cooldowns) ≡ some v) (p.1)
              (lookup-insert_self k v r.cooldowns),
    )
    | inr p ↦ (cd, q' e ∙ lookup-insert_ne k e v r.cooldowns (p.1) ∙ h)
  ]
    where
      q' : (j : ℕ) → lookup j s.cooldowns ≡ lookup j (insert k v r.cooldowns)
      q' j = ap (λ m. lookup j m) q

  shared_checks_cooldowns :
      (r : CastRegistry Float Vec) (c : Castable Float) (caster : ℕ) (target : Option ℕ) (p : Vec)
      → ((perform_shared_checks w r c caster target p).0.cooldowns ≡ r.cooldowns)
        ⊎ ((cd : CastCooldown) × ((perform_shared_checks w r c caster target p).0.cooldowns
              ≡ insert caster cd r.cooldowns))
  unfolding perform_shared_checks
  shared_checks_cooldowns r c caster target p = elim (Bool-cases (w.valid caster)) [
    | inr gone ↦ inl (ground arith)
    | inl there ↦ elim (Bool-cases (is_moving w c caster)) [
      | inl moves ↦ inl (ground arith)
      | inr stands ↦ elim (Option-cases (lookup caster r.cast_states)) [
        | inr busy ↦ inl (ground arith)
        | inl idle ↦ elim (Option-cases (lookup caster r.cooldowns)) [
          | inl new ↦ inl (ground arith)
          | inr (cd, e) ↦
              inr ((is_cast_on_cooldown cd c.castable_id w.current_tick).0, ground arith)
        ]
      ]
    ]
  ]

  shared_checks-Keeps :
      (r : CastRegistry Float Vec) (c : Castable Float) (caster : ℕ) (target : Option ℕ) (p : Vec)
      → Keeps r (perform_shared_checks w r c caster target p).0
  shared_checks-Keeps r c caster target p =
      let s = (perform_shared_checks w r c caster target p).0 in
      elim (shared_checks_cooldowns r c caster target p) [
        | inl same ↦ (λ e cd h. (cd, ap (λ m. lookup e m) same ∙ h))
        | inr (cd, q) ↦ Keeps-insert r s caster cd q
      ]

  finish_targeted-Casts :
      (r : CastRegistry Float Vec) (x : CastRegistry Float Vec × CastFailureType)
      (c : Castable Float) (p : CastParams Float Vec)
      → x.0.cast_states ≡ r.cast_states
      → Keeps r x.0
      → (x.1 ≡ no_failure → lookup p.caster_entity r.cast_states ≡ none)
      → Casts r (finish_targeted w x c p).0 p.caster_entity
  unfolding finish_targeted start_cast
  finish_targeted-Casts r (s, no_failure) c p same keeps idle =
      elim (Bool-cases (is_some w p.target_entity)) [
        | inl targeted ↦ rw targeted (
            added (started_state w c p none) (idle refl) refl refl
              (ap (λ m. insert p.caster_entity (started_state w c p none) m) same) keeps)
        | inr untargeted ↦ rw untargeted (refused same keeps)
      ]
  finish_targeted-Casts r (s, other) c p same keeps idle = refused same keeps

  finish_untargeted-Casts :
      (r : CastRegistry Float Vec) (x : CastRegistry Float Vec × CastFailureType)
      (c : Castable Float) (p : CastParams Float Vec) (item : Option ℕ)
      → x.0.cast_states ≡ r.cast_states
      → Keeps r x.0
      → (x.1 ≡ no_failure → lookup p.caster_entity r.cast_states ≡ none)
      → Casts r (finish_untargeted w x c p item).0 p.caster_entity
  unfolding finish_untargeted start_cast
  finish_untargeted-Casts r (s, no_failure) c p item same keeps idle =
      added (started_state w c p item) (idle refl) refl refl
        (ap (λ m. insert p.caster_entity (started_state w c p item) m) same) keeps
  finish_untargeted-Casts r (s, other) c p item same keeps idle = refused same keeps

  -- The two ends behind the shared checks.
  module _ (r : CastRegistry Float Vec) (c : Castable Float) (p : CastParams Float Vec) where
    abbrev checked : CastRegistry Float Vec × CastFailureType
    checked = perform_shared_checks w r c p.caster_entity p.target_entity p.target_position

    checked_idle : checked.1 ≡ no_failure → lookup p.caster_entity r.cast_states ≡ none
    checked_idle h =
        (shared_checks_sound w r c p.caster_entity p.target_entity p.target_position h).not_casting

    targeted-Casts : Casts r (finish_targeted w checked c p).0 p.caster_entity
    targeted-Casts =
        finish_targeted-Casts r checked c p
          (shared_checks_states w r c p.caster_entity p.target_entity p.target_position)
          (shared_checks-Keeps r c p.caster_entity p.target_entity p.target_position) checked_idle

    untargeted-Casts :
        (item : Option ℕ) → Casts r (finish_untargeted w checked c p item).0 p.caster_entity
    untargeted-Casts item =
        finish_untargeted-Casts r checked c p item
          (shared_checks_states w r c p.caster_entity p.target_entity p.target_position)
          (shared_checks-Keeps r c p.caster_entity p.target_entity p.target_position) checked_idle

  at :
      (r : CastRegistry Float Vec) (caster : ℕ) (x y : CastRegistry Float Vec × CastFailureType)
      → x ≡ y
      → Casts r x.0 caster
      → Casts r y.0 caster
  at r caster x y q h =
      subst (λ (t : CastRegistry Float Vec × CastFailureType). Casts r t.0 caster) q h

  pub cast_spell-Casts :
      (r : CastRegistry Float Vec) (p : CastParams Float Vec)
      → Casts r (cast_spell w r p).0 p.caster_entity
  unfolding cast_spell
  cast_spell-Casts r p = elim (Option-cases p.castable) [
    | inl missing ↦
        at r p.caster_entity (r, CastFailureType.invalid_castable) (cast_spell w r p) (ground arith)
          (refused refl (Keeps-refl r))
    | inr (c, e) ↦
        at r p.caster_entity (finish_targeted w (checked r c p) c p) (cast_spell w r p)
          (ground arith) (targeted-Casts r c p)
  ]

  pub cast_entity_interaction-Casts :
      (r : CastRegistry Float Vec) (interaction : Option Bool) (p : CastParams Float Vec)
      → Casts r (cast_entity_interaction w r interaction p).0 p.caster_entity
  unfolding cast_entity_interaction
  cast_entity_interaction-Casts r interaction p = elim (Option-cases p.castable) [
    | inl missing ↦
        at r p.caster_entity (r, CastFailureType.invalid_castable)
          (cast_entity_interaction w r interaction p) (ground arith) (refused refl (Keeps-refl r))
    | inr (c, e) ↦ elim (refusal interaction) [
      | inl no_support ↦
          at r p.caster_entity (r, CastFailureType.interaction_not_supported)
            (cast_entity_interaction w r interaction p) (ground arith) (refused refl (Keeps-refl r))
      | inr supported ↦
          at r p.caster_entity (finish_targeted w (checked r c p) c p)
            (cast_entity_interaction w r interaction p) (ground arith) (targeted-Casts r c p)
    ]
  ]
    where
      refusal : (o : Option Bool) → (o ≡ some false) ⊎ (o ≢ some false)
      refusal none = inr (λ q. cc)
      refusal (some true) = inr (λ q. cc)
      refusal (some false) = inl refl

  cast_found_item-Casts :
      (r : CastRegistry Float Vec) (slot : Option (ℕ × Bool)) (p : CastParams Float Vec)
      → Casts r (cast_found_item w r slot p).0 p.caster_entity
  unfolding cast_found_item
  cast_found_item-Casts r none p = refused refl (Keeps-refl r)
  cast_found_item-Casts r (some (item, false)) p = refused refl (Keeps-refl r)
  cast_found_item-Casts r (some (item, true)) p = elim (Option-cases p.castable) [
    | inl missing ↦
        at r p.caster_entity (r, CastFailureType.invalid_castable)
          (cast_found_item w r (some (item, true)) p) (ground arith) (refused refl (Keeps-refl r))
    | inr (c, e) ↦
        at r p.caster_entity (finish_untargeted w (checked r c p) c p (some item))
          (cast_found_item w r (some (item, true)) p) (ground arith)
          (untargeted-Casts r c p (some item))
  ]

  pub cast_item_interaction-Casts :
      (r : CastRegistry Float Vec) (v : Inventory) (d : ItemData) (i t : ℕ)
      (p : CastParams Float Vec)
      → Casts r (cast_item_interaction w r v d i t p).0 p.caster_entity
  unfolding cast_item_interaction
  cast_item_interaction-Casts r v d i t p = cast_found_item-Casts r (found_item v d i t) p
