-- ===== src/CastHelper/Checks.antt =====
-- What the shared checks guarantee, and what follows a passed or a failed one.
use amalgam_engine.Prelude.{ℕ, ◌≡◌, ◌≢◌, true, false, Option, none, some, arith}
use amalgam_engine.Prelude.Map.{lookup, nat_eq, lookup-insert_self}
use amalgam_engine.CastCooldown.{CastCooldown, is_cast_on_cooldown}
use amalgam_engine.CastHelper.{
  CastFailureType, no_failure, TargetType, self, entity, self_or_entity, circle, Castable, World,
  CastState, CastRegistry, CastParams, is_moving, valid_entity, sight_point, is_in_line_of_sight,
  is_position_in_line_of_sight, check_target_entity, check_target_circle, check_target, is_some,
  check_request, perform_shared_checks, start_cast, finish_untargeted, finish_targeted,
}

module _ {Float Vec : Type 0} (w : World Float Vec) where
  -- Nothing is hit between the caster and the target, which is seen at its collision's top.
  abbrev Sees : ℕ → Option ℕ → Vec → Type 0
  Sees caster target p =
      w.raycast_any (sight_point w (some caster) (w.position caster)) (sight_point w target p)
        target
      ≡ false

  -- The target of a castable is near and in sight: the entity, or the circle on the map.
  abbrev pub ReachesTarget : TargetType → Castable Float → ℕ → Option ℕ → Vec → Type 0
  ReachesTarget entity c caster none p = ⊥
  ReachesTarget entity c caster (some e) p =
      (w.gt (w.squared_distance (w.position caster) (w.position e)) (w.times c.range c.range)
        ≡ false)
      × Sees caster (some e) p
  ReachesTarget self_or_entity c caster none p = Unit
  ReachesTarget self_or_entity c caster (some e) p =
      (w.gt (w.squared_distance (w.position caster) (w.position e)) (w.times c.range c.range)
        ≡ false)
      × Sees caster (some e) p
  ReachesTarget circle c caster target p =
      (w.map_contains_target c p ≡ true)
      × (w.gt (w.squared_distance (w.position caster) p) c.range ≡ false)
      × Sees caster none p
  ReachesTarget self c caster target p = Unit

  -- The conditions of a request that passes.
  pub record MayCast (r : CastRegistry Float Vec) (c : Castable Float) (caster : ℕ)
      (target : Option ℕ) (p : Vec) : Type 0 where
    pub caster_exists : w.valid caster ≡ true
    pub standing :
        (v : Vec)
        → w.is_zero c.cast_time ≡ false
        → w.previous_position caster ≡ some v
        → w.ne (w.position caster) v ≡ false
    pub not_casting : lookup caster r.cast_states ≡ none
    pub ready :
        (cd : CastCooldown)
        → lookup caster r.cooldowns ≡ some cd
        → (is_cast_on_cooldown cd c.castable_id w.current_tick).1 ≡ false
    pub target_exists : (e : ℕ) → target ≡ some e → w.valid e ≡ true
    pub reaches : ReachesTarget c.target_type c caster target p
    pub validated : w.validate_cast caster c ≡ true

  not_moving :
      (c : Castable Float) (caster : ℕ) (v : Vec)
      → is_moving w c caster ≡ false
      → w.is_zero c.cast_time ≡ false
      → w.previous_position caster ≡ some v
      → w.ne (w.position caster) v ≡ false
  unfolding is_moving
  not_moving c caster v h timed e = ground arith

  check_target_sound :
      (t : TargetType) (c : Castable Float) (caster : ℕ) (target : Option ℕ) (p : Vec)
      → check_target w t c caster target p ≡ no_failure
      → ReachesTarget t c caster target p
  unfolding check_target check_target_entity check_target_circle is_in_line_of_sight
      is_position_in_line_of_sight
  check_target_sound entity c caster none p h = absurd (ground arith)
  check_target_sound entity c caster (some e) p h = (ground arith, ground arith)
  check_target_sound self_or_entity c caster none p h = tt
  check_target_sound self_or_entity c caster (some e) p h = (ground arith, ground arith)
  check_target_sound circle c caster target p h = (ground arith, ground arith, ground arith)
  check_target_sound self c caster target p h = tt

  target_valid :
      (c : Castable Float) (caster e : ℕ) (target : Option ℕ) (p : Vec)
      → check_request w c caster target p ≡ no_failure
      → target ≡ some e
      → w.valid e ≡ true
  unfolding check_request valid_entity
  target_valid c caster e target p h is_target = ground arith

  request_sound :
      (c : Castable Float) (caster : ℕ) (target : Option ℕ) (p : Vec)
      → check_request w c caster target p ≡ no_failure
      → (check_target w c.target_type c caster target p ≡ no_failure)
        × (w.validate_cast caster c ≡ true)
  unfolding check_request
  request_sound c caster target p h = (ground arith, ground arith)

  passed_checks :
      (r : CastRegistry Float Vec) (c : Castable Float) (caster : ℕ) (target : Option ℕ) (p : Vec)
      → (perform_shared_checks w r c caster target p).1 ≡ no_failure
      → (is_moving w c caster ≡ false) × (check_request w c caster target p ≡ no_failure)
  unfolding perform_shared_checks
  passed_checks r c caster target p h = (ground arith, ground arith)

  pub shared_checks_sound :
      (r : CastRegistry Float Vec) (c : Castable Float) (caster : ℕ) (target : Option ℕ) (p : Vec)
      → (perform_shared_checks w r c caster target p).1 ≡ no_failure
      → MayCast r c caster target p
  unfolding perform_shared_checks
  shared_checks_sound r c caster target p h =
      let (standing, request) = passed_checks r c caster target p h in
      let (reached, validated) = request_sound c caster target p request in
      record {
        caster_exists = ground arith;
        standing = λ v timed e. not_moving c caster v standing timed e;
        not_casting = ground arith;
        ready = λ cd e. ground arith;
        target_exists = λ e is_target. target_valid c caster e target p request is_target;
        reaches = check_target_sound c.target_type c caster target p reached;
        validated = validated;
      }

  pub shared_checks_states :
      (r : CastRegistry Float Vec) (c : Castable Float) (caster : ℕ) (target : Option ℕ) (p : Vec)
      → (perform_shared_checks w r c caster target p).0.cast_states ≡ r.cast_states
  unfolding perform_shared_checks
  shared_checks_states r c caster target p = ground arith

  pub finish_targeted_sound :
      (x : CastRegistry Float Vec × CastFailureType) (c : Castable Float) (p : CastParams Float Vec)
      → (finish_targeted w x c p).1 ≡ no_failure
      → (x.1 ≡ no_failure)
        × (is_some w p.target_entity ≡ true)
        × ((finish_targeted w x c p).0 ≡ start_cast w x.0 c p none)
  unfolding finish_targeted
  finish_targeted_sound x c p h = ground arith

  pub finish_untargeted_sound :
      (x : CastRegistry Float Vec × CastFailureType) (c : Castable Float) (p : CastParams Float Vec)
      (item : Option ℕ)
      → (finish_untargeted w x c p item).1 ≡ no_failure
      → (x.1 ≡ no_failure) × ((finish_untargeted w x c p item).0 ≡ start_cast w x.0 c p item)
  unfolding finish_untargeted
  finish_untargeted_sound x c p item h = ground arith

  -- What is stored for a cast.
  abbrev pub started_state : Castable Float → CastParams Float Vec → Option ℕ → CastState Float Vec
  started_state c p item = record {
    cast_info = record {
      castable = c;
      caster_entity = p.caster_entity;
      item = item;
      target_entity = p.target_entity;
      target_position = p.target_position;
      client_id = p.client_id;
    };
    end_tick = 0;
  }

  pub lookup-start_cast :
      (r : CastRegistry Float Vec) (c : Castable Float) (p : CastParams Float Vec) (item : Option ℕ)
      → lookup p.caster_entity (start_cast w r c p item).cast_states ≡ some (started_state c p item)
  unfolding start_cast
  lookup-start_cast r c p item =
      lookup-insert_self p.caster_entity (started_state c p item) r.cast_states

  -- A started cast: every check passed for an existing castable, and the caster's state holds it.
  pub record Starts (r s : CastRegistry Float Vec) (p : CastParams Float Vec) (item : Option ℕ)
      (c : Castable Float) : Type 0 where
    pub castable_exists : p.castable ≡ some c
    pub allowed : MayCast r c p.caster_entity p.target_entity p.target_position
    pub stored : lookup p.caster_entity s.cast_states ≡ some (started_state c p item)

  pub finish_targeted_keeps :
      (x : CastRegistry Float Vec × CastFailureType) (c : Castable Float) (p : CastParams Float Vec)
      → (finish_targeted w x c p).1 ≢ no_failure
      → (finish_targeted w x c p).0 ≡ x.0
  unfolding finish_targeted
  finish_targeted_keeps x c p h = ground arith
