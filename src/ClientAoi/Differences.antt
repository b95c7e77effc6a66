-- ===== src/ClientAoi/Differences.antt =====
-- Sorting keeps how often each entity occurs, and the difference of two sorted lists is that of their
-- numbers of occurrences.
use amalgam_engine.Prelude.{
  ℕ, ◌+◌, ◌-◌, ◌≤◌, ◌<◌, ◌≡◌, refl, ap, ◌∙◌, inl, inr, List, [], ◌∷◌, ltb, ◌==◌, if◌then◌else◌,
  arith, Bool-cases,
}
use amalgam_engine.ClientAoi.{insert_sorted, sort, skip_below, set_difference}

abbrev pub occurs : ℕ → List ℕ → ℕ
occurs e [] = 0
occurs e (x ∷ xs) = (if x == e then 1 else 0) + occurs e xs

abbrev pub AllFrom : ℕ → List ℕ → Type 0
AllFrom n [] = Unit {0}
AllFrom n (x ∷ xs) = (n ≤ x) × AllFrom n xs

abbrev pub IsSorted : List ℕ → Type 0
IsSorted [] = Unit {0}
IsSorted (x ∷ xs) = AllFrom x xs × IsSorted xs

AllFrom-weaken : (m n : ℕ) (xs : List ℕ) → m ≤ n → AllFrom n xs → AllFrom m xs
AllFrom-weaken m n [] h a = tt
AllFrom-weaken m n (x ∷ xs) h (b, a) = (omega arith, AllFrom-weaken m n xs h a)

occurs_none : (e n : ℕ) (xs : List ℕ) → AllFrom n xs → e < n → occurs e xs ≡ 0
occurs_none e n [] a h = refl
occurs_none e n (x ∷ xs) (b, a) h = ground (arith, occurs_none e n xs a h)

insert_sorted-AllFrom :
    (n e : ℕ) (xs : List ℕ) → n ≤ e → AllFrom n xs → AllFrom n (insert_sorted e xs)
unfolding insert_sorted
insert_sorted-AllFrom n e [] h a = (h, tt)
insert_sorted-AllFrom n e (x ∷ xs) h (b, a) = elim (Bool-cases (ltb x e)) [
  | inl smaller ↦ rw smaller (b, insert_sorted-AllFrom n e xs h a)
  | inr larger ↦ rw larger (h, (b, a))
]

insert_sorted-IsSorted : (e : ℕ) (xs : List ℕ) → IsSorted xs → IsSorted (insert_sorted e xs)
unfolding insert_sorted
insert_sorted-IsSorted e [] s = (tt, tt)
insert_sorted-IsSorted e (x ∷ xs) (a, s) = elim (Bool-cases (ltb x e)) [
  | inl smaller ↦
      rw smaller (insert_sorted-AllFrom x e xs (ground arith) a, insert_sorted-IsSorted e xs s)
  | inr larger ↦
      let above : e ≤ x = ground arith in rw larger ((above, AllFrom-weaken e x xs above a), (a, s))
]

occurs-insert_sorted : (d e : ℕ) (xs : List ℕ) → occurs d (insert_sorted e xs) ≡ occurs d (e ∷ xs)
unfolding insert_sorted
occurs-insert_sorted d e [] = refl
occurs-insert_sorted d e (x ∷ xs) = ground (arith, occurs-insert_sorted d e xs)

pub sort_lem : (xs : List ℕ) → IsSorted (sort xs) × ((e : ℕ) → occurs e (sort xs) ≡ occurs e xs)
unfolding sort
sort_lem [] = (tt, λ e. refl)
sort_lem (x ∷ xs) =
    let (s, o) = sort_lem xs in
    (
      insert_sorted-IsSorted x (sort xs) s,
      λ e. occurs-insert_sorted e x (sort xs) ∙ ap (λ n. (if x == e then 1 else 0) + n) (o e),
    )

skip_below_lem :
    (x : ℕ) (ys : List ℕ)
    → IsSorted ys
    → IsSorted (skip_below x ys)
      × AllFrom x (skip_below x ys)
      × ((e : ℕ) → x ≤ e → occurs e (skip_below x ys) ≡ occurs e ys)
unfolding skip_below
skip_below_lem x [] s = (tt, tt, λ e h. refl)
skip_below_lem x (y ∷ ys) (a, s) = elim (Bool-cases (ltb y x)) [
  | inl below ↦
      let (t, f, o) = skip_below_lem x ys s in rw below (t, f, λ e h. ground (arith, o e h))
  | inr from ↦
      let above : x ≤ y = ground arith in
      rw from ((a, s), (above, AllFrom-weaken x y ys above a), λ e h. refl)
]

-- One element of the first list, by what is left of the second.
set_difference_step :
    (x : ℕ) (xs ys zs : List ℕ) (e : ℕ)
    → skip_below x ys ≡ zs
    → AllFrom x xs
    → IsSorted zs
    → AllFrom x zs
    → (x ≤ e → occurs e zs ≡ occurs e ys)
    → ((ws : List ℕ) → IsSorted ws → occurs e (set_difference xs ws) ≡ occurs e xs - occurs e ws)
    → occurs e (set_difference (x ∷ xs) ys) ≡ occurs e (x ∷ xs) - occurs e ys
unfolding set_difference
set_difference_step x xs ys [] e q a u f o ih =
    let rest = ih [] tt in
    let low = occurs_none e x xs a in rw (set_difference, q) (ground (arith, rest, low, o))
set_difference_step x xs ys (z ∷ zs) e q a (b, u) (g, f) o ih = elim (Bool-cases (z == x)) [
  | inl same ↦
      let rest = ih zs u in
      let low = occurs_none e x xs a in rw (set_difference, q, same) (ground (arith, rest, low, o))
  | inr larger ↦
      let rest = ih (z ∷ zs) (b, u) in
      let low = occurs_none e x xs a in
      let high = occurs_none e z zs b in
      rw (set_difference, q, larger) (ground (arith, rest, low, high, o))
]

-- For each entity, however often it occurs.
pub occurs-set_difference :
    (xs ys : List ℕ) (e : ℕ)
    → IsSorted xs
    → IsSorted ys
    → occurs e (set_difference xs ys) ≡ occurs e xs - occurs e ys
unfolding set_difference
occurs-set_difference [] ys e s t = omega arith
occurs-set_difference (x ∷ xs) ys e (a, s) t =
    let (u, f, o) = skip_below_lem x ys t in
    set_difference_step x xs ys (skip_below x ys) e refl a u f (o e)
      (λ ws w. occurs-set_difference xs ws e s w)
