-- ===== src/CastHelper/Casts.antt =====
-- When a cast starts, and what a refused one leaves behind.
use amalgam_engine.Prelude.{
  ℕ, ◌≡◌, ◌≢◌, refl, ap, sym, ◌∙◌, subst, inl, inr, Bool, true, false, Option, none, some, arith,
  Bool-cases, Option-cases,
}
use amalgam_engine.Prelude.Map.{lookup, nat_eq}
use amalgam_engine.ItemData.{Item, ItemData, supports_interaction}
use amalgam_engine.Inventory.{Inventory, get_item}
use amalgam_engine.CastHelper.{
  found_item, cast_found_item, CastFailureType, no_failure, Castable, World, CastRegistry,
  CastParams, is_some, perform_shared_checks, finish_untargeted, finish_targeted,
  cast_item_interaction, cast_entity_interaction, cast_spell,
}
use amalgam_engine.CastHelper.Checks.{
  Starts, shared_checks_sound, shared_checks_states, finish_targeted_sound, finish_untargeted_sound,
  lookup-start_cast, finish_targeted_keeps,
}

module _ {Float Vec : Type 0} (w : World Float Vec) where
  -- `castSpell` succeeds only with a castable that exists, a target entity, and all shared checks
  -- passed: the caster exists, stands still if the cast takes time, is not casting and is off cooldown;
  -- the target entity exists; a target entity that the castable aims at is within its range and in the
  -- line of sight, a target circle is on the map, its squared distance is not above the range, and it
  -- is in the line of sight; and the project's validation passed. Then the cast is stored for the
  -- caster.
  pub cast_spell_sound :
      (r : CastRegistry Float Vec) (p : CastParams Float Vec)
      → (cast_spell w r p).1 ≡ no_failure
      → (is_some w p.target_entity ≡ true)
        × ((c : Castable Float) × Starts w r (cast_spell w r p).0 p none c)
  cast_spell_sound r p h = elim (Option-cases p.castable) [
    | inl missing ↦ absurd (refused missing)
    | inr (c, e) ↦
        let x = perform_shared_checks w r c p.caster_entity p.target_entity p.target_position in
        let same = runs c e in
        let f =
          finish_targeted_sound w x c p
            (sym (ap (λ (t : CastRegistry Float Vec × CastFailureType). t.1) same) ∙ h) in
        (
          f.1,
          (
            c,
            record {
              castable_exists = e;
              allowed =
                  shared_checks_sound w r c p.caster_entity p.target_entity p.target_position f.0;
              stored =
                  ap
                    (λ (t : CastRegistry Float Vec × CastFailureType).
                      lookup p.caster_entity t.0.cast_states)
                    same
                  ∙ ap (λ (t : CastRegistry Float Vec). lookup p.caster_entity t.cast_states) f.2
                  ∙ lookup-start_cast w x.0 c p none;
            },
          ),
        )
  ]
    where
      refused : p.castable ≡ none → ⊥
      refused m = unfold cast_spell in ground arith

      runs :
          (c : Castable Float)
          → p.castable ≡ some c
          → cast_spell w r p
            ≡ finish_targeted w
                (perform_shared_checks w r c p.caster_entity p.target_entity p.target_position)
                c
                p
      runs c e = unfold cast_spell in rw e

  cast_found_item_sound :
      (r : CastRegistry Float Vec) (slot : Option (ℕ × Bool)) (p : CastParams Float Vec)
      → (cast_found_item w r slot p).1 ≡ no_failure
      → (item : ℕ) × (slot ≡ some (item, true))
        × ((c : Castable Float) × Starts w r (cast_found_item w r slot p).0 p (some item) c)
  cast_found_item_sound r none p h = absurd (unfold cast_found_item in cc)
  cast_found_item_sound r (some (item, false)) p h = absurd (unfold cast_found_item in cc)
  cast_found_item_sound r (some (item, true)) p h = (item, refl, started)
    where
      refused : p.castable ≡ none → ⊥
      refused m = unfold cast_found_item in ground arith

      runs :
          (c : Castable Float)
          → p.castable ≡ some c
          → cast_found_item w r (some (item, true)) p
            ≡ finish_untargeted w
                (perform_shared_checks w r c p.caster_entity p.target_entity p.target_position)
                c
                p
                (some item)
      runs c e = unfold cast_found_item in ground arith

      started :
          (c : Castable Float) × Starts w r
            (cast_found_item w r (some (item, true)) p).0
            p
            (some item)
            c
      started = elim (Option-cases p.castable) [
        | inl missing ↦ absurd (refused missing)
        | inr (c, e) ↦
            let x = perform_shared_checks w r c p.caster_entity p.target_entity p.target_position in
            let same = runs c e in
            let f =
              finish_untargeted_sound w x c p (some item)
                (sym (ap (λ (t : CastRegistry Float Vec × CastFailureType). t.1) same) ∙ h) in
            (
              c,
              record {
                castable_exists = e;
                allowed =
                    shared_checks_sound w r c p.caster_entity p.target_entity p.target_position f.0;
                stored =
                    ap
                      (λ (t : CastRegistry Float Vec × CastFailureType).
                        lookup p.caster_entity t.0.cast_states)
                      same
                    ∙ ap (λ (t : CastRegistry Float Vec). lookup p.caster_entity t.cast_states) f.1
                    ∙ lookup-start_cast w x.0 c p (some item);
              },
            )
      ]

  found_item_lem :
      (v : Inventory) (d : ItemData) (i t k : ℕ)
      → found_item v d i t ≡ some (k, true)
      → (item : Item) × (get_item v i d ≡ some item)
        × (supports_interaction item t ≡ true)
        × (item.numeric_id ≡ k)
  unfolding found_item
  found_item_lem v d i t k h = elim (Option-cases (get_item v i d)) [
    | inl missing ↦ absurd (ground arith)
    | inr (item, e) ↦ (item, e, ground arith, ground arith)
  ]

  -- `castItemInteraction` succeeds only for a slot with an item that the database has and that
  -- supports the interaction, with a castable that exists and all shared checks passed; then the cast
  -- is stored with the item.
  pub cast_item_interaction_sound :
      (r : CastRegistry Float Vec) (v : Inventory) (d : ItemData) (i t : ℕ)
      (p : CastParams Float Vec)
      → (cast_item_interaction w r v d i t p).1 ≡ no_failure
      → (item : Item) × (get_item v i d ≡ some item)
        × (supports_interaction item t ≡ true)
        × ((c : Castable Float) × Starts w r
              (cast_item_interaction w r v d i t p).0
              p
              (some item.numeric_id)
              c)
  unfolding cast_item_interaction
  cast_item_interaction_sound r v d i t p h =
      let (k, found, (c, started)) = cast_found_item_sound r (found_item v d i t) p h in
      let (item, e, supported, id) = found_item_lem v d i t k found in
      (
        item,
        e,
        supported,
        (
          c,
          subst (λ j. Starts w r (cast_found_item w r (found_item v d i t) p).0 p (some j) c)
              (sym id) started,
        ),
      )

  -- A refused entity interaction or spell starts no cast: the cast states are as before.
  pub refused_cast_keeps_states :
      (r : CastRegistry Float Vec) (interaction : Option Bool) (p : CastParams Float Vec)
      → ((cast_entity_interaction w r interaction p).1 ≢ no_failure
          → (cast_entity_interaction w r interaction p).0.cast_states ≡ r.cast_states)
        × ((cast_spell w r p).1 ≢ no_failure → (cast_spell w r p).0.cast_states ≡ r.cast_states)
  refused_cast_keeps_states r interaction p = elim (Option-cases p.castable) [
    | inl missing ↦ (λ h. entity_none missing, λ h. spell_none missing)
    | inr (c, e) ↦ (λ h. entity_some c e h, λ h. spell_some c e h)
  ]
    where
      entity_none :
          p.castable ≡ none
          → (cast_entity_interaction w r interaction p).0.cast_states ≡ r.cast_states
      entity_none m = unfold cast_entity_interaction in rw m

      spell_none : p.castable ≡ none → (cast_spell w r p).0.cast_states ≡ r.cast_states
      spell_none m = unfold cast_spell in rw m

      keeps :
          (c : Castable Float) (x : CastRegistry Float Vec × CastFailureType)
          → finish_targeted w
              (perform_shared_checks w r c p.caster_entity p.target_entity p.target_position)
              c
              p
            ≡ x
          → x.1 ≢ no_failure
          → x.0.cast_states ≡ r.cast_states
      keeps c x q h =
          let s = perform_shared_checks w r c p.caster_entity p.target_entity p.target_position in
          let f =
            finish_targeted_keeps w s c p
              (λ z. h (sym (ap (λ (t : CastRegistry Float Vec × CastFailureType). t.1) q) ∙ z)) in
          sym (ap (λ (t : CastRegistry Float Vec × CastFailureType). t.0.cast_states) q)
          ∙ ap (λ (t : CastRegistry Float Vec). t.cast_states) f
          ∙ shared_checks_states w r c p.caster_entity p.target_entity p.target_position

      spell_some :
          (c : Castable Float)
          → p.castable ≡ some c
          → (cast_spell w r p).1 ≢ no_failure
          → (cast_spell w r p).0.cast_states ≡ r.cast_states
      spell_some c e h = keeps c (cast_spell w r p) (unfold cast_spell in rw e) h

      entity_some :
          (c : Castable Float)
          → p.castable ≡ some c
          → (cast_entity_interaction w r interaction p).1 ≢ no_failure
          → (cast_entity_interaction w r interaction p).0.cast_states ≡ r.cast_states
      entity_some c e h = elim (Bool-cases (refuses interaction)) [
        | inl no' ↦ unfold cast_entity_interaction in ground arith
        | inr go_on ↦
            keeps c (cast_entity_interaction w r interaction p)
              (unfold cast_entity_interaction in ground arith) h
      ]
        where
          refuses : Option Bool → Bool
          refuses (some false) = true
          refuses (some true) = false
          refuses none = false

  -- A spell that is cast without a target entity never starts, whatever its castable targets: also
  -- not one that targets a circle on the ground or the caster.
  pub cast_spell_untargeted :
      (r : CastRegistry Float Vec) (p : CastParams Float Vec)
      → p.target_entity ≡ none
      → (cast_spell w r p).1 ≢ no_failure
  cast_spell_untargeted r p n h =
      let (some_target, _) = cast_spell_sound r p h in
      absurd (contra (ap (is_some w) n) some_target)
    where
      contra : is_some w p.target_entity ≡ false → is_some w p.target_entity ≡ true → ⊥
      contra a b = cc
