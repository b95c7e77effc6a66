-- ===== src/EntityLocator/History.antt =====
-- The entity locator against its abstract view, a map from entities to cells:
-- Source/SharedLib/Simulation/Private/EntityLocator.cpp.
use amalgam_engine.Prelude.{
  ℕ, ◌≡◌, refl, sym, ap, subst, ◌∙◌, inl, inr, Bool, true, false, Option, none, some, List, [], ◌∷◌,
  ◌==◌, if◌then◌else◌,
}
use amalgam_engine.Prelude.Map.{lookup, nat_eq}
use amalgam_engine.DiscreteExtent.{DiscretePosition, DiscreteExtent, contains}
use amalgam_engine.EntityLocator.{EntityLocator, update_entity, remove_entity, get_entities}
use amalgam_engine.EntityLocator.Held.{IsValid}
use amalgam_engine.EntityLocator.Tracking.{Moved, update_entity-Moved, remove_entity-Moved}
use amalgam_engine.EntityLocator.Sizing.{sized, sized-IsValid, sized-extent, sized-lookup}
use amalgam_engine.EntityLocator.Axes.{Finds, within}
use amalgam_engine.EntityLocator.Queries.{get_entities-Finds}

-- A call of `updateEntity`, with the cell of the position, or of `removeEntity`.
pub data Call : Type 0 where
  moved : ℕ → DiscretePosition → Call
  removed : ℕ → Call

unfoldable pub call : EntityLocator → Call → Option EntityLocator
call l (moved e c) = elim (update_entity l e c) [ none ↦ none | some (l', done) ↦ some l' ]
call l (removed e) = remove_entity l e

unfoldable pub run : EntityLocator → List Call → Option EntityLocator
run l [] = some l
run l (c ∷ cs) = elim (call l c) [ none ↦ none | some l' ↦ run l' cs ]

-- Where the entities are behind a call, and behind a list of calls.
abbrev Where : Type 0
Where = ℕ → Option DiscretePosition

abbrev pub where_next : DiscreteExtent → Where → Call → Where
where_next extent w (moved e c) f =
    if contains extent c then if e == f then some c else w f else w f
where_next extent w (removed e) f = if e == f then none else w f

unfoldable pub where_after : DiscreteExtent → Where → List Call → Where
where_after extent w [] = w
where_after extent w (c ∷ cs) = where_after extent (where_next extent w c) cs

-- A valid locator of this extent whose entities are there.
record Follows (extent : DiscreteExtent) (w : Where) (l : EntityLocator) : Type 0 where
  valid : IsValid l
  is_extent : l.grid_cell_extent ≡ extent
  tracked : (f : ℕ) → lookup f l.entity_map ≡ w f

module _ (extent : DiscreteExtent) (w : Where) (l : EntityLocator)
    (follows : Follows extent w l) where
  Moved-Follows :
      (e : ℕ) (o : Option DiscretePosition) (l' : EntityLocator) (w' : Where)
      → Moved l e o l'
      → ((f : ℕ) → w' f ≡ (if e == f then o else w f))
      → Follows extent w' l'
  Moved-Follows e o l' w' m step = record {
    valid = m.valid;
    is_extent = m.same_extent ∙ follows.is_extent;
    tracked =
        λ f. m.tracked f ∙ (ap (λ x. if e == f then o else x) (follows.tracked f) ∙ sym (step f));
  }

  call-Follows :
      (c : Call)
      → (l' : EntityLocator) × (call l c ≡ some l') × Follows extent (where_next extent w c) l'
  unfolding call
  call-Follows (moved e c) = elim (update_entity-Moved l e c follows.valid) [
    | inl (here, l', is, m) ↦
        let here' = subst (λ x. contains x c ≡ true) follows.is_extent here in
        (
          l',
          rw (call, is) refl,
          Moved-Follows e (some c) l' (where_next extent w (moved e c)) m (λ f. rw here' refl),
        )
    | inr (out, is) ↦
        let out' = subst (λ x. contains x c ≡ false) follows.is_extent out in
        (
          l,
          rw (call, is) refl,
          record {
            valid = follows.valid;
            is_extent = follows.is_extent;
            tracked = λ f. rw out' (follows.tracked f);
          },
        )
  ]
  call-Follows (removed e) =
      let (l', is, m) = remove_entity-Moved l e follows.valid in
      (l', is, Moved-Follows e none l' (where_next extent w (removed e)) m (λ f. refl))

run-Follows :
    (extent : DiscreteExtent) (w : Where) (l : EntityLocator) (cs : List Call)
    → Follows extent w l
    → (l' : EntityLocator) × (run l cs ≡ some l') × Follows extent (where_after extent w cs) l'
unfolding run where_after
run-Follows extent w l [] follows = (l, refl, follows)
run-Follows extent w l (c ∷ cs) follows =
    let (next, is, f) = call-Follows extent w l follows c in
    let (last, is', g) = run-Follows extent (where_next extent w c) next cs f in
    (last, rw (run, is) is', g)

-- After any calls of `updateEntity` and `removeEntity` on a new locator, with any positions: no call
-- has read a cell that is not there, and `getEntities` finds exactly the entities whose last accepted
-- position, if they have not been removed since, is in a cell of the given extent and that pass the
-- test of the narrow phase, each of them once.
pub run-get_entities :
    (extent area : DiscreteExtent) (is_inside : ℕ → Bool) (cs : List Call)
    → (l : EntityLocator) × (run (sized extent) cs ≡ some l)
      × Finds
          (get_entities l area is_inside)
          (λ e. if is_inside e then within area (where_after extent (λ f. none) cs e) else 0)
run-get_entities extent area is_inside cs =
    let (l, is, follows) =
      run-Follows extent (λ f. none) (sized extent) cs
        (record {
          valid = sized-IsValid extent;
          is_extent = sized-extent extent;
          tracked = sized-lookup extent;
        }) in
    let (found, finds, counts) = get_entities-Finds l area is_inside follows.valid in
    (
      l,
      is,
      (
        found,
        finds,
        λ e. counts e ∙ ap (λ o. if is_inside e then within area o else 0) (follows.tracked e),
      ),
    )
