-- ===== src/ClientAoi/Tracking.antt =====
-- The list of type indices of an entity is that of its components, so that no read of one fails.
use amalgam_engine.Prelude.{
  ℕ, ◌+◌, ◌<◌, ◌≡◌, refl, ap, sym, ◌∙◌, subst, inl, inr, ◌&&◌, List, [], ◌∷◌, ◌++◌, Option, none,
  some, ◌==◌, if◌then◌else◌, arith, Bool-cases, Option-cases, map,
}
use amalgam_engine.Prelude.Map.{
  lookup, insert, nat_eq, beq_cases, lookup-insert_self, lookup-insert_ne,
}
use amalgam_engine.ClientAoi.{
  Registry, EntityData, construct, erase_index, destroy, get_components, entered_data,
}
use amalgam_engine.ClientAoi.Differences.{occurs}

pub occurs-append : (e : ℕ) (xs ys : List ℕ) → occurs e (xs ++ ys) ≡ occurs e xs + occurs e ys
occurs-append e [] ys = omega arith
occurs-append e (x ∷ xs) ys = omega (arith, occurs-append e xs ys)

pub occurs-erase_index :
    (e i : ℕ) (xs : List ℕ) → occurs e (erase_index i xs) ≡ (if e == i then 0 else occurs e xs)
unfolding erase_index
occurs-erase_index e i [] = ground arith
occurs-erase_index e i (x ∷ xs) = ground (arith, occurs-erase_index e i xs)

abbrev listed : Option (List ℕ) → List ℕ
listed none = []
listed (some l) = l

listed-insert :
    (e a : ℕ) (l : List ℕ) (m : List (ℕ × List ℕ))
    → listed (lookup a (insert e l m)) ≡ (if e == a then l else listed (lookup a m))
listed-insert e a l m = elim (beq_cases e a) [
  | inl p ↦
      rw (p.0)
        (ap listed (subst (λ k. lookup k (insert e l m) ≡ some l) (p.1) (lookup-insert_self e l m)))
  | inr p ↦ rw (p.0) (ap listed (lookup-insert_ne e a l m (p.1)))
]

pushed :
    (i : ℕ) (o : Option (List ℕ))
    → (elim o [ none ↦ i ∷ [] | some l ↦ l ++ i ∷ [] ]) ≡ listed o ++ i ∷ []
pushed i none = refl
pushed i (some l) = refl

abbrev pub present : {Component : Type 0} → Option Component → ℕ
present none = 0
present (some v) = 1

module _ {Vec Component : Type 0} where
  -- The type indices that are listed for an entity are those of its components, each once.
  pub record IsTracked (r : Registry Vec Component) : Type 0 where
    pub indices :
        (e i : ℕ) → occurs i (listed (lookup e r.type_indices)) ≡ present (r.component e i)

  construct-occurs :
      (r : Registry Vec Component) (e i a b : ℕ) (v : Component)
      → occurs b (listed (lookup a (construct r e i v).type_indices))
        ≡ occurs b (listed (lookup a r.type_indices)) + (if a == e && b == i then 1 else 0)
  unfolding construct
  construct-occurs r e i a b v =
      let grown = pushed i (lookup e r.type_indices) in
      elim (beq_cases e a) [
        | inl p ↦
            subst
              (λ k.
                occurs b (listed (lookup k (construct r e i v).type_indices))
                ≡ occurs b (listed (lookup k r.type_indices)) + (if k == e && b == i then 1 else 0))
              (p.1)
              (ap (occurs b) (ap listed (lookup-insert_self e _ r.type_indices) ∙ grown)
                ∙ occurs-append b (listed (lookup e r.type_indices)) (i ∷ [])
                ∙ ground arith)
        | inr p ↦
            ap (λ o. occurs b (listed o)) (lookup-insert_ne e a _ r.type_indices (p.1))
            ∙ ground (arith, p.1)
      ]

  -- The type indices that are listed for an entity are those of its components, each once. This stays
  -- so when a component is constructed that the entity does not have.
  pub construct-IsTracked :
      (r : Registry Vec Component) (e i : ℕ) (v : Component)
      → IsTracked r
      → r.component e i ≡ none
      → IsTracked (construct r e i v)
  unfolding construct
  construct-IsTracked r e i v t free = record {
    indices = λ a b. construct-occurs r e i a b v ∙ elim (Bool-cases (a == e && b == i)) [
      | inl hit ↦
          let at_e : a ≡ e = ground arith in
          let at_i : b ≡ i = ground arith in rw (hit, t.indices a b, at_e, at_i, free) refl
      | inr miss ↦ rw (miss, t.indices a b) (omega arith)
    ];
  }

  destroy-occurs :
      (r : Registry Vec Component) (e i a b : ℕ)
      → occurs b (listed (lookup a (destroy r e i).type_indices))
        ≡ (if a == e && b == i then 0 else occurs b (listed (lookup a r.type_indices)))
  unfolding destroy
  destroy-occurs r e i a b = elim (Option-cases (lookup e r.type_indices)) [
    | inl missing ↦
        rw (destroy, missing)
          (elim (beq_cases e a) [
            | inl p ↦ rw (sym (p.1), missing) (ground arith)
            | inr p ↦ ground (arith, p.1)
          ])
    | inr (l, found) ↦
        rw (destroy, found)
          (ap (occurs b) (listed-insert e a (erase_index i l) r.type_indices)
            ∙ elim (beq_cases e a) [
              | inl p ↦
                  rw (sym (p.1), found) (let erased = occurs-erase_index b i l in ground arith)
              | inr p ↦ ground (arith, p.1)
            ])
  ]

  -- So does destroying one, whether the entity has it or not.
  pub destroy-IsTracked :
      (r : Registry Vec Component) (e i : ℕ) → IsTracked r → IsTracked (destroy r e i)
  unfolding destroy
  destroy-IsTracked r e i t = record {
    indices = λ a b. destroy-occurs r e i a b ∙ elim (Bool-cases (a == e && b == i)) [
      | inl hit ↦ rw hit refl
      | inr miss ↦ rw miss (t.indices a b)
    ];
  }

  -- Every listed component can be read.
  get_components-some :
      (r : Registry Vec Component) (e : ℕ) (l : List ℕ)
      → ((i : ℕ) → 0 < occurs i l → (v : Component) × (r.component e i ≡ some v))
      → (vs : List Component) × (get_components r e l ≡ some vs)
  unfolding get_components
  get_components-some r e [] h = ([], refl)
  get_components-some r e (i ∷ l) h =
      let (v, q) = h i (ground arith) in
      let (vs, qs) = get_components-some r e l (λ j m. h j (omega arith)) in
      (v ∷ vs, rw (get_components, q, qs) refl)

  tracked_some :
      (r : Registry Vec Component) (e i : ℕ) (l : List ℕ)
      → IsTracked r
      → lookup e r.type_indices ≡ some l
      → 0 < occurs i l
      → (v : Component) × (r.component e i ≡ some v)
  tracked_some r e i l t h m = elim (Option-cases (r.component e i)) [
    | inr found ↦ found
    | inl missing ↦ absurd (
        let n = t.indices e i in
        let zero_times : occurs i l ≡ 0 = rw (h, missing) at n in omega (arith, zero_times))
  ]

  pub entered_data-some :
      (r : Registry Vec Component) (es : List ℕ)
      → IsTracked r
      → ((e : ℕ) → 0 < occurs e es → (l : List ℕ) × (lookup e r.type_indices ≡ some l))
      → (ds : List (EntityData Vec Component)) × (entered_data r es ≡ some ds)
        × (map (λ (d : EntityData Vec Component). d.entity) ds ≡ es)
  unfolding entered_data
  entered_data-some r [] t h = ([], refl, refl)
  entered_data-some r (e ∷ es) t h =
      let (l, q) = h e (ground arith) in
      let (vs, qv) = get_components-some r e l (λ i m. tracked_some r e i l t q m) in
      let (ds, qs, names) = entered_data-some r es t (λ d m. h d (omega arith)) in
      (
        record { entity = e; position = r.position e; components = vs } ∷ ds,
        rw (entered_data, q, qv, qs) refl,
        ap (λ ns. e ∷ ns) names,
      )
