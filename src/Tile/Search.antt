-- ===== src/Tile/Search.antt =====
-- Finding layers: on a sorted tile the early end of the loops is no loss.
use amalgam_engine.Prelude.{
  ℕ, suc, ◌+◌, ◌-◌, ◌≡◌, refl, ap, sym, ◌∙◌, inl, inr, Bool, true, false, [], ◌∷◌, Option, none,
  some, ltb, ◌==◌, if◌then◌else◌, take, drop, arith, Bool-cases,
}
use amalgam_engine.Tile.{
  TileLayer, Tile, range_loop, get_layers, find_loop, find_layer, find_layer_of_type, matches_value,
}
use amalgam_engine.Tile.Sorted.{AtLeast, AtLeast-mono, Sorted, IsValid}
use amalgam_engine.Tile.Removal.{OfType}

-- The layers that pass a test, in order.
abbrev pub select : (TileLayer → Bool) → Tile → Tile
select p [] = []
select p (l ∷ ls) = if p l then l ∷ select p ls else select p ls

abbrev pub first : Tile → Option TileLayer
first [] = none
first (l ∷ ls) = some l

abbrev is_type : ℕ → TileLayer → Bool
is_type type l = l.type == type

-- The layers below a type, and those of it.
lower : ℕ → Tile → ℕ
lower type [] = 0
lower type (l ∷ ls) = if ltb l.type type then suc (lower type ls) else lower type ls

equal : ℕ → Tile → ℕ
equal type [] = 0
equal type (l ∷ ls) = if l.type == type then suc (equal type ls) else equal type ls

lower-zero : (type : ℕ) (ls : Tile) → AtLeast type ls → lower type ls ≡ 0
unfolding lower
lower-zero type [] a = refl
lower-zero type (l ∷ ls) a = let h = a.0 in ground (arith, lower-zero type ls a.1)

equal-zero : (type : ℕ) (ls : Tile) → AtLeast (type + 1) ls → equal type ls ≡ 0
unfolding equal
equal-zero type [] a = refl
equal-zero type (l ∷ ls) a = let h = a.0 in ground (arith, equal-zero type ls a.1)

select-nil : (type : ℕ) (ls : Tile) → AtLeast (type + 1) ls → select (is_type type) ls ≡ []
select-nil type [] a = refl
select-nil type (l ∷ ls) a = let h = a.0 in ground (arith, select-nil type ls a.1)

take-drop-select :
    (type : ℕ) (ls : Tile)
    → Sorted ls
    → take (equal type ls) (drop (lower type ls) ls) ≡ select (is_type type) ls
unfolding lower equal
take-drop-select type [] s = refl
take-drop-select type (l ∷ ls) s =
    let ih = take-drop-select type ls s.1 in
    elim (Bool-cases (ltb l.type type)) [
      | inl below ↦ let ne : (l.type == type) ≡ false = ground arith in rw (below, ne) ih
      | inr above ↦ elim (Bool-cases (l.type == type)) [
        | inl same ↦
            let z = lower-zero type ls (AtLeast-mono type l.type ls (ground arith) s.0) in
            rw (above, same, z) (ap (◌∷◌ l) (rw z at ih))
        | inr past ↦
            let a = AtLeast-mono (type + 1) l.type ls (ground arith) s.0 in
            rw (above, past, equal-zero type ls a, select-nil type ls a)
      ]
    ]

range_loop-above :
    (type : ℕ) (ls : Tile) (i : ℕ) (found : Option (ℕ × ℕ))
    → AtLeast (type + 1) ls
    → range_loop type ls i found ≡ found
unfolding range_loop
range_loop-above type [] i found a = refl
range_loop-above type (l ∷ ls) i found a =
    let h = a.0 in ground (arith, range_loop-above type ls (i + 1) found a.1)

range_loop-inside :
    (type : ℕ) (ls : Tile) (i b : ℕ)
    → AtLeast type ls
    → Sorted ls
    → range_loop type ls i (some (b, i)) ≡ some (b, i + equal type ls)
unfolding range_loop equal
range_loop-inside type [] i b a s = ap (λ n. some (b, n)) (omega arith)
range_loop-inside type (l ∷ ls) i b a s = elim (Bool-cases (l.type == type)) [
  | inl same ↦ rw same (
      range_loop-inside type ls (i + 1) b (AtLeast-mono type l.type ls (ground arith) s.0) s.1
      ∙ ap (λ n. some (b, n)) (omega arith))
  | inr past ↦
      let h = a.0 in
      let above = AtLeast-mono (type + 1) l.type ls (ground arith) s.0 in
      let kept = range_loop-above type ls (i + 1) (some (b, i)) above in
      rw (past, equal-zero type ls above) (ends kept)
]
  where
    ends :
        range_loop type ls (i + 1) (some (b, i)) ≡ some (b, i)
        → (if l.type == type + 1 then some (b, i) else range_loop type ls (i + 1) (some (b, i)))
          ≡ some (b, i + 0)
    ends k =
        let e : i ≡ i + 0 = omega arith in
        (ground arith) ∙ ap {B = Option (ℕ × ℕ)} (λ n. some (b, n)) e

-- What the loop of `getLayers` finds.
abbrev found_range : ℕ → Tile → ℕ → Option (ℕ × ℕ)
found_range type ls i =
    if equal type ls == 0 then none else some (i + lower type ls, i + lower type ls + equal type ls)

range_loop_lem :
    (type : ℕ) (ls : Tile) (i : ℕ) → Sorted ls → range_loop type ls i none ≡ found_range type ls i
unfolding range_loop lower equal
range_loop_lem type [] i s = refl
range_loop_lem type (l ∷ ls) i s =
    let ih = range_loop_lem type ls (i + 1) s.1 in
    elim (Bool-cases (ltb l.type type)) [
      | inl below ↦
          let ne : (l.type == type) ≡ false = ground arith in
          let nn : (l.type == type + 1) ≡ false = ground arith in rw (below, ne, nn) (ih ∙ shift)
      | inr above ↦ elim (Bool-cases (l.type == type)) [
        | inl same ↦
            let a = AtLeast-mono type l.type ls (ground arith) s.0 in
            rw (above, same, lower-zero type ls a)
              (range_loop-inside type ls (i + 1) i a s.1 ∙ start)
        | inr past ↦
            let a = AtLeast-mono (type + 1) l.type ls (ground arith) s.0 in
            let k = range_loop-above type ls (i + 1) none a in
            rw (above, past, equal-zero type ls a) (ground arith)
      ]
    ]
  where
    shift : found_range type ls (i + 1) ≡ (
        if equal type ls == 0
        then none
        else some (i + suc (lower type ls), i + suc (lower type ls) + equal type ls))
    shift = ground arith

    start :
        ◌≡◌ {A = Option (ℕ × ℕ)}
          (some (i, i + 1 + equal type ls))
          (if suc (equal type ls) == 0 then none else some (i + 0, i + 0 + suc (equal type ls)))
    start = ground arith

-- On a valid tile `getLayers` returns all layers of the type, in their order, and no others.
pub get_layers_lem :
    (t : Tile) (type : ℕ) → IsValid t → get_layers t type ≡ select (λ l. l.type == type) t
unfolding get_layers
get_layers_lem t type v = elim (Bool-cases (equal type t == 0)) [
  | inl absent ↦ none_found (range_loop_lem type t 0 v.sorted) absent ∙ nothing (ground arith)
  | inr present ↦
      some_found (range_loop_lem type t 0 v.sorted) present ∙ take-drop-select type t v.sorted
]
  where
    none_found :
        range_loop type t 0 none ≡ found_range type t 0
        → (equal type t == 0) ≡ true
        → get_layers t type ≡ []
    none_found r h = ground arith

    raw :
        range_loop type t 0 none ≡ found_range type t 0
        → (equal type t == 0) ≡ false
        → get_layers t type
          ≡ take (0 + lower type t + equal type t - (0 + lower type t)) (drop (0 + lower type t) t)
    raw r h = ground arith

    some_found :
        range_loop type t 0 none ≡ found_range type t 0
        → (equal type t == 0) ≡ false
        → get_layers t type ≡ take (equal type t) (drop (lower type t) t)
    some_found r h =
        let e : 0 + lower type t + equal type t - (0 + lower type t) ≡ equal type t = omega arith in
        let z : 0 + lower type t ≡ lower type t = omega arith in raw r h ∙ (rw (e, z))

    nothing : equal type t ≡ 0 → [] ≡ select (is_type type) t
    nothing z = sym (ap (λ n. take n (drop (lower type t) t)) z) ∙ take-drop-select type t v.sorted

select-above :
    (p : TileLayer → Bool) (type : ℕ) (ls : Tile)
    → OfType type p
    → AtLeast (type + 1) ls
    → select p ls ≡ []
select-above p type [] o a = refl
select-above p type (l ∷ ls) o a = elim (Bool-cases (p l)) [
  | inl hit ↦ absurd (let e = o l hit in let h = a.0 in omega arith)
  | inr miss ↦ rw miss (select-above p type ls o a.1)
]

find_loop_lem :
    (p : TileLayer → Bool) (type : ℕ) (ls : Tile)
    → OfType type p
    → Sorted ls
    → find_loop p type ls ≡ first (select p ls)
unfolding find_loop
find_loop_lem p type [] o s = refl
find_loop_lem p type (l ∷ ls) o s = elim (Bool-cases (p l)) [
  | inl hit ↦ rw hit
  | inr miss ↦ elim (Bool-cases (l.type == type + 1)) [
    | inl past ↦ rw (
      miss,
      past,
      select-above p type ls o (AtLeast-mono (type + 1) l.type ls (ground arith) s.0),
    )
    | inr go_on ↦ rw (miss, go_on) (find_loop_lem p type ls o s.1)
  ]
]

-- On a valid tile each overload of `findLayer` returns the first layer that meets its condition, and
-- a null pointer only if there is none.
pub find_layer_lem :
    (t : Tile) (type value : ℕ)
    → IsValid t
    → (find_layer t type value ≡ first (select (matches_value type value) t))
      × (find_layer_of_type t type ≡ first (select (λ l. l.type == type) t))
unfolding find_layer find_layer_of_type
find_layer_lem t type value v = (
  find_loop_lem (matches_value type value) type t (λ l h. ground arith) v.sorted,
  find_loop_lem (is_type type) type t (λ l h. ground arith) v.sorted,
)
