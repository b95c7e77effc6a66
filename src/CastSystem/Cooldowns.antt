-- ===== src/CastSystem/Cooldowns.antt =====
-- The cooldown of a completed cast.
use amalgam_engine.Prelude.{ℕ, ◌<◌, ◌≤◌, ◌≡◌, refl, inl, inr, ◌⊎◌, true, List, [], ◌∷◌, ◌++◌, some}
use amalgam_engine.Prelude.Map.{lookup, insert, nat_eq, lookup-insert_self}
use amalgam_engine.CastCooldown.{Cooldown, CastCooldown, tick_diff, is_cast_on_cooldown}
use amalgam_engine.CastCooldown.Elapsed.{OnCooldown, is_cast_on_cooldown_exact}
use amalgam_engine.CastHelper.{CastState, CastRegistry}
use amalgam_engine.CastSystem.Updates.{finished}
use amalgam_engine.CastSystem.{Scene, Casting, track_cooldown, finish_cast}

OnCooldown-append :
    (id diff : ℕ) (cs ds : List Cooldown)
    → (OnCooldown id diff (cs ++ ds) → OnCooldown id diff cs ⊎ OnCooldown id diff ds)
      × (OnCooldown id diff cs ⊎ OnCooldown id diff ds → OnCooldown id diff (cs ++ ds))
OnCooldown-append id diff [] ds = (λ h. inr h, λ h. elim h [ inl never ↦ absurd never | inr d ↦ d ])
OnCooldown-append id diff (c ∷ cs) ds =
    let (f, g) = OnCooldown-append id diff cs ds in
    (
      λ h. elim h [
        | inl here ↦ inl (inl here)
        | inr there ↦ elim (f there) [ inl a ↦ inl (inr a) | inr b ↦ inr b ]
      ],
      λ h. elim h [
        | inl a ↦ elim a [ inl here ↦ inl here | inr there ↦ inr (g (inl there)) ]
        | inr b ↦ inr (g (inr b))
      ],
    )

module _ {Float Vec : Type 0} (sc : Scene Float Vec) where
  -- A cast that is finished has its cooldown tracked behind the caster's others, and nothing else of the
  -- component changes. From then on `isCastOnCooldown` measures it, like them, from the component's
  -- last update: at tick u, when no global cooldown lasts, any castable is on cooldown exactly if it
  -- was before, or if it is the one that was cast and the time from that update, and not from the end
  -- of the cast, is shorter than the cooldown.
  pub finish_cast_cooldown :
      (s : Casting Float Vec) (st : CastState Float Vec) (cd : CastCooldown)
      → lookup st.cast_info.caster_entity s.registry.cooldowns ≡ some cd
      → sc.world.is_positive st.cast_info.castable.cooldown_time ≡ true
      → (t : Casting Float Vec) × (longer : CastCooldown) × (finish_cast sc s st ≡ some t)
        × (lookup st.cast_info.caster_entity t.registry.cooldowns ≡ some longer)
        × (longer ≡ record cd {
          cooldowns =
              cd.cooldowns
              ++ record {
                castable_id = st.cast_info.castable.castable_id;
                ticks_remaining = sc.world.ticks st.cast_info.castable.cooldown_time;
              }
                ∷ [];
        })
        × ((u k : ℕ)
            → cd.gcd_ticks_remaining ≤ tick_diff cd u
            → let lasts = tick_diff cd u < sc.world.ticks st.cast_info.castable.cooldown_time in
              (((is_cast_on_cooldown longer k u).1 ≡ true)
                → OnCooldown k (tick_diff cd u) cd.cooldowns
                  ⊎ ((st.cast_info.castable.castable_id ≡ k) × lasts))
              × (OnCooldown k (tick_diff cd u) cd.cooldowns
                    ⊎ ((st.cast_info.castable.castable_id ≡ k) × lasts)
                  → (is_cast_on_cooldown longer k u).1 ≡ true))
  unfolding finish_cast track_cooldown
  finish_cast_cooldown s st cd h positive =
      let info = st.cast_info in
      let added : Cooldown = record {
        castable_id = info.castable.castable_id;
        ticks_remaining = sc.world.ticks info.castable.cooldown_time;
      } in
      let longer : CastCooldown = record cd { cooldowns = cd.cooldowns ++ added ∷ [] } in
      let r : CastRegistry Float Vec = record s.registry {
        cooldowns = insert info.caster_entity longer s.registry.cooldowns;
      } in
      (
        finished sc s r info,
        longer,
        rw (finish_cast, track_cooldown, positive, h) refl,
        lookup-insert_self info.caster_entity longer s.registry.cooldowns,
        refl,
        λ u k low.
            let (_, f, g) = is_cast_on_cooldown_exact longer k u low in
            let (a, b) = OnCooldown-append k (tick_diff cd u) cd.cooldowns (added ∷ []) in
            (
              λ q. elim (a (f q)) [
                | inl before ↦ inl before
                | inr new ↦ elim new [ inl p ↦ inr p | inr never ↦ absurd never ]
              ],
              λ w. g (b (elim w [ inl before ↦ inl before | inr p ↦ inr (inl p) ])),
            ),
      )
