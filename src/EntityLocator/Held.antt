-- ===== src/EntityLocator/Held.antt =====
-- What the cells of the entity locator hold, Source/SharedLib/Simulation/Private/EntityLocator.cpp.
use amalgam_engine.Prelude.{
  ℕ, zero, suc, ◌+◌, ◌-◌, ◌<◌, ◌≡◌, ◌≢◌, refl, sym, ap, subst, ◌∙◌, ◌⊎◌, inl, inr, Bool, true,
  false, Option, none, some, List, [], ◌∷◌, ◌++◌, ◌==◌, ==_iff, arith, length, get_elem?, get_or,
  get_or-set_self, get_or-set_ne, length-set, set, Bool-cases, if◌then◌else◌,
}
use amalgam_engine.Prelude.Int.{eq_of_parts}
use amalgam_engine.Prelude.Map.{
  lookup, insert, erase, nat_eq, lookup-insert_self, lookup-insert_ne, lookup-erase_self,
  lookup-erase_ne,
}
use amalgam_engine.DiscreteExtent.{DiscretePosition, DiscreteExtent, contains}
use amalgam_engine.EntityLocator.{EntityLocator, linearize_cell_index, position_eq, erase_first}
use amalgam_engine.EntityLocator.Cells.{linearize_cell_index_injective, position_path}

unfoldable pub count : ℕ → List ℕ → ℕ
count e [] = 0
count e (x ∷ xs) = if x == e then suc (count e xs) else count e xs

-- How often an entity that is at this cell, or at none, belongs into a cell.
abbrev pub at_cell : Option DiscretePosition → DiscretePosition → ℕ
at_cell none c = 0
at_cell (some p) c = if position_eq p c then 1 else 0

pub position_eq_refl : (p : DiscretePosition) → position_eq p p ≡ true
position_eq_refl p = ground arith

pub position_eq_sound : (p q : DiscretePosition) → position_eq p q ≡ true → p ≡ q
position_eq_sound p q h =
    position_path p q (eq_of_parts p.x q.x (ground arith)) (eq_of_parts p.y q.y (ground arith))
      (eq_of_parts p.z q.z (ground arith))

position_ne : (p q : DiscretePosition) → p ≢ q → position_eq p q ≡ false
position_ne p q ne = elim (Bool-cases (position_eq p q)) [
  | inl same ↦ absurd (ne (position_eq_sound p q same))
  | inr other ↦ other
]

count-append_one :
    (f e : ℕ) (xs : List ℕ) → count f (xs ++ (e ∷ [])) ≡ count f xs + (if e == f then 1 else 0)
unfolding count
count-append_one f e [] = ground arith
count-append_one f e (x ∷ xs) = ground (arith, count-append_one f e xs)

count-erase_first :
    (f e : ℕ) (xs : List ℕ)
    → count f (erase_first e xs) ≡ (if e == f then count f xs - 1 else count f xs)
unfolding count erase_first
count-erase_first f e [] = ground arith
count-erase_first f e (x ∷ xs) = ground (arith, count-erase_first f e xs)

pub get_elem?-get_or :
    {A : Type 0} (xs : List A) (i : ℕ) (d : A)
    → i < length xs
    → get_elem? xs i ≡ some (get_or xs i d)
get_elem?-get_or [] i d lt = absurd (omega arith)
get_elem?-get_or (x ∷ xs) zero d lt = refl
get_elem?-get_or (x ∷ xs) (suc i) d lt = get_elem?-get_or xs i d (omega arith)

added_here :
    (o : Option DiscretePosition) (b : Bool) (c : DiscretePosition)
    → (b ≡ true → o ≡ none)
    → at_cell o c + (if b then 1 else 0) ≡ at_cell (if b then some c else o) c
added_here o true c absent = rw (absent refl, position_eq_refl c) (omega arith)
added_here o false c absent = omega arith

added_other :
    (o : Option DiscretePosition) (b : Bool) (c d : DiscretePosition)
    → (b ≡ true → o ≡ none)
    → c ≢ d
    → at_cell o d ≡ at_cell (if b then some c else o) d
added_other o true c d absent ne = rw (absent refl, position_ne c d ne) refl
added_other o false c d absent ne = refl

removed_here :
    (o : Option DiscretePosition) (b : Bool) (c : DiscretePosition)
    → (b ≡ true → o ≡ some c)
    → (if b then at_cell o c - 1 else at_cell o c) ≡ at_cell (if b then none else o) c
removed_here o true c there = rw (there refl, position_eq_refl c) (omega arith)
removed_here o false c there = refl

removed_other :
    (o : Option DiscretePosition) (b : Bool) (c d : DiscretePosition)
    → (b ≡ true → o ≡ some c)
    → c ≢ d
    → at_cell o d ≡ at_cell (if b then none else o) d
removed_other o true c d there ne = rw (there refl, position_ne c d ne) refl
removed_other o false c d there ne = refl

-- A map from entities to cells with one entity changed.
abbrev pub Changed :
    (before after : ℕ → Option DiscretePosition) (e : ℕ) → Option DiscretePosition → Type 0
Changed before after e o = (f : ℕ) → after f ≡ (if e == f then o else before f)

module _ (extent : DiscreteExtent) where
  abbrev pub place : DiscretePosition → ℕ
  place = linearize_cell_index extent

  -- The cells of the grid hold the entities that are there, each once.
  abbrev pub Holds : List (List ℕ) → (ℕ → Option DiscretePosition) → Type 0
  Holds grid cell_of =
      (e : ℕ) (c : DiscretePosition)
      → contains extent c ≡ true
      → count e (get_or grid (place c) []) ≡ at_cell (cell_of e) c

  abbrev pub Fits : List (List ℕ) → Type 0
  Fits grid = (c : DiscretePosition) → contains extent c ≡ true → place c < length grid

  pub set-Fits : (grid : List (List ℕ)) (i : ℕ) (cell : List ℕ) → Fits grid → Fits (set grid i cell)
  set-Fits grid i cell fits c h = subst (λ n. place c < n) (sym (length-set grid i cell)) (fits c h)

  -- A cell that is written holds what is written, and no other cell changes.
  written :
      (grid : List (List ℕ)) (c d : DiscretePosition) (cell : List ℕ)
      → Fits grid
      → contains extent c ≡ true
      → contains extent d ≡ true
      → ((c ≡ d) × (get_or (set grid (place c) cell) (place d) [] ≡ cell))
        ⊎ ((c ≢ d) × (get_or (set grid (place c) cell) (place d) [] ≡ get_or grid (place d) []))
  written grid c d cell fits hc hd = elim (Bool-cases (place c == place d)) [
    | inl same ↦
        let e = linearize_cell_index_injective extent c d hc hd ((==_iff _ _).0 same) in
        inl (
          e,
          subst (λ x. get_or (set grid (place c) cell) (place x) [] ≡ cell) e
              (get_or-set_self grid (place c) cell [] (fits c hc)),
        )
    | inr other ↦
        let ne : place c ≢ place d = ground arith in
        inr ((λ e. ne (ap place e)), get_or-set_ne grid (place c) (place d) cell [] ne)
  ]

  module _ (grid : List (List ℕ)) (before after : ℕ → Option DiscretePosition) (e : ℕ)
      (c : DiscretePosition) (fits : Fits grid) (hc : contains extent c ≡ true)
      (holds : Holds grid before) where
    at_first : (o : Option DiscretePosition) (f : ℕ) → before e ≡ o → (e == f) ≡ true → before f ≡ o
    at_first o f h same = subst (λ x. before x ≡ o) ((==_iff e f).0 same) h

    pub add-Holds :
        before e ≡ none
        → Changed before after e (some c)
        → Holds (set grid (place c) (get_or grid (place c) [] ++ (e ∷ []))) after
    add-Holds absent step f d hd =
        elim (written grid c d (get_or grid (place c) [] ++ (e ∷ [])) fits hc hd) [
          | inl (same, now) ↦
              rw (now, step f, count-append_one f e (get_or grid (place c) []), holds f c hc)
                (subst
                  (λ x.
                    at_cell (before f) c + (if e == f then 1 else 0)
                    ≡ at_cell (if e == f then some c else before f) x)
                  same (added_here (before f) (e == f) c (at_first none f absent)))
          | inr (other, now) ↦
              rw (now, step f, holds f d hd)
                (added_other (before f) (e == f) c d (at_first none f absent) other)
        ]

    pub erase-Holds :
        before e ≡ some c
        → Changed before after e none
        → Holds (set grid (place c) (erase_first e (get_or grid (place c) []))) after
    erase-Holds there step f d hd =
        elim (written grid c d (erase_first e (get_or grid (place c) [])) fits hc hd) [
          | inl (same, now) ↦
              rw (now, step f, count-erase_first f e (get_or grid (place c) []), holds f c hc)
                (subst
                  (λ x.
                    (if e == f then at_cell (before f) c - 1 else at_cell (before f) c)
                    ≡ at_cell (if e == f then none else before f) x)
                  same (removed_here (before f) (e == f) c (at_first (some c) f there)))
          | inr (other, now) ↦
              rw (now, step f, holds f d hd)
                (removed_other (before f) (e == f) c d (at_first (some c) f there) other)
        ]

module _ (m : List (ℕ × DiscretePosition)) (e : ℕ) where
  pub insert-Changed :
      (c : DiscretePosition) (before : ℕ → Option DiscretePosition) (o : Option DiscretePosition)
      → Changed before (λ f. lookup f m) e o
      → Changed before (λ f. lookup f (insert e c m)) e (some c)
  insert-Changed c before o step f = elim (Bool-cases (e == f)) [
    | inl same ↦ rw same (
        subst (λ x. lookup x (insert e c m) ≡ some c) ((==_iff e f).0 same)
          (lookup-insert_self e c m))
    | inr other ↦
        let ne : e ≢ f = ground arith in
        rw other (lookup-insert_ne e f c m ne ∙ (step f ∙ rw other refl))
  ]

  pub erase-Changed : Changed (λ f. lookup f m) (λ f. lookup f (erase e m)) e none
  erase-Changed f = elim (Bool-cases (e == f)) [
    | inl same ↦
        rw same
          (subst (λ x. lookup x (erase e m) ≡ none) ((==_iff e f).0 same) (lookup-erase_self e m))
    | inr other ↦ let ne : e ≢ f = ground arith in rw other (lookup-erase_ne e f m ne)
  ]

-- The grid has a place for each of its cells, an entity is tracked at a cell of the grid, and each
-- cell holds exactly the entities that are tracked there, each once.
pub record IsValid (l : EntityLocator) : Type 0 where
  pub in_grid : Fits l.grid_cell_extent l.entity_grid
  pub placed :
      (e : ℕ) (c : DiscretePosition)
      → lookup e l.entity_map ≡ some c
      → contains l.grid_cell_extent c ≡ true
  pub held : Holds l.grid_cell_extent l.entity_grid (λ e. lookup e l.entity_map)
