-- ===== src/Tile/Removal.antt =====
-- Removing layers: the early end of the loops is no loss on a sorted tile.
use amalgam_engine.Prelude.{
  ℕ, ◌+◌, ◌≡◌, refl, ap, inl, inr, Bool, true, false, ◌&&◌, List, [], ◌∷◌, ◌==◌, if◌then◌else◌,
  length, get_or, arith, Bool-cases,
}
use amalgam_engine.Tile.{
  TileOffset, TileLayer, Tile, remove_loop, remove_layers, remove_layers_of_set,
  remove_layers_of_value, erase_if, clear_layers, clear, matches_all, matches_set, matches_value,
}
use amalgam_engine.Tile.Sorted.{AtLeast, AtLeast-mono, Sorted, count, IsValid}

-- A test that only layers of one type pass.
abbrev pub OfType : ℕ → (TileLayer → Bool) → Type 0
OfType type p = (l : TileLayer) → p l ≡ true → l.type ≡ type

erase_if-above :
    (p : TileLayer → Bool) (type : ℕ) (ls : Tile)
    → OfType type p
    → AtLeast (type + 1) ls
    → erase_if p ls ≡ ls
unfolding erase_if
erase_if-above p type [] o a = refl
erase_if-above p type (l ∷ ls) o a = elim (Bool-cases (p l)) [
  | inl hit ↦ absurd (let e = o l hit in omega arith)
  | inr miss ↦ rw miss (ap (◌∷◌ l) (erase_if-above p type ls o a.1))
]

count-above :
    (p : TileLayer → Bool) (type : ℕ) (ls : Tile)
    → OfType type p
    → AtLeast (type + 1) ls
    → count p ls ≡ 0
count-above p type [] o a = refl
count-above p type (l ∷ ls) o a = elim (Bool-cases (p l)) [
  | inl hit ↦ absurd (let e = o l hit in omega arith)
  | inr miss ↦ rw miss (omega (arith, count-above p type ls o a.1))
]

-- On sorted layers the loop of `removeLayers` erases all matching layers and counts them.
pub remove_loop_lem :
    (p : TileLayer → Bool) (type : ℕ) (ls : Tile)
    → OfType type p
    → Sorted ls
    → remove_loop p type ls ≡ (erase_if p ls, count p ls)
unfolding remove_loop erase_if
remove_loop_lem p type [] o s = refl
remove_loop_lem p type (l ∷ ls) o s =
    let ih = remove_loop_lem p type ls o s.1 in
    elim (Bool-cases (p l)) [
      | inl hit ↦ rw (hit, ih) (ap (λ n. (erase_if p ls, n)) (omega arith))
      | inr miss ↦ elim (Bool-cases (l.type == type + 1)) [
        | inl past ↦
            let above = AtLeast-mono (type + 1) l.type ls (ground arith) s.0 in
            rw (miss, past, erase_if-above p type ls o above, count-above p type ls o above)
              (ap (λ n. (l ∷ ls, n)) (omega arith))
        | inr go_on ↦ rw (miss, go_on, ih) (ap (λ n. (l ∷ erase_if p ls, n)) (omega arith))
      ]
    ]

AtLeast-erase_if :
    (n : ℕ) (p : TileLayer → Bool) (ls : Tile) → AtLeast n ls → AtLeast n (erase_if p ls)
unfolding erase_if
AtLeast-erase_if n p [] a = tt
AtLeast-erase_if n p (l ∷ ls) a = elim (Bool-cases (p l)) [
  | inl hit ↦ rw hit (AtLeast-erase_if n p ls a.1)
  | inr miss ↦ rw miss (a.0, AtLeast-erase_if n p ls a.1)
]

Sorted-erase_if : (p : TileLayer → Bool) (ls : Tile) → Sorted ls → Sorted (erase_if p ls)
unfolding erase_if
Sorted-erase_if p [] s = tt
Sorted-erase_if p (l ∷ ls) s = elim (Bool-cases (p l)) [
  | inl hit ↦ rw hit (Sorted-erase_if p ls s.1)
  | inr miss ↦ rw miss (AtLeast-erase_if l.type p ls s.0, Sorted-erase_if p ls s.1)
]

pub length-erase_if :
    (p : TileLayer → Bool) (ls : Tile) → length (erase_if p ls) + count p ls ≡ length ls
unfolding erase_if
length-erase_if p [] = omega arith
length-erase_if p (l ∷ ls) = ground (arith, length-erase_if p ls)

pub erase_if-IsValid : (p : TileLayer → Bool) (t : Tile) → IsValid t → IsValid (erase_if p t)
erase_if-IsValid p t v = record {
  sorted = Sorted-erase_if p t v.sorted;
  bounded = omega (arith, length-erase_if p t, v.bounded);
}

-- On a valid tile each overload of `removeLayers` erases exactly the layers that meet its condition,
-- returns their number, and leaves the tile valid.
pub remove_layers_lem :
    (t : Tile) (offset : TileOffset) (type set value : ℕ)
    → IsValid t
    → (remove_layers t offset type set value ≡ (
      erase_if (matches_all offset type set value) t,
      count (matches_all offset type set value) t,
    ))
      × (remove_layers_of_set t type set value
          ≡ (erase_if (matches_set type set value) t, count (matches_set type set value) t))
      × (remove_layers_of_value t type value
          ≡ (erase_if (matches_value type value) t, count (matches_value type value) t))
      × IsValid (remove_layers t offset type set value).0
      × IsValid (remove_layers_of_set t type set value).0
      × IsValid (remove_layers_of_value t type value).0
unfolding remove_layers remove_layers_of_set remove_layers_of_value
remove_layers_lem t offset type set value v =
    let e1 =
      remove_loop_lem (matches_all offset type set value) type t (λ l h. ground arith) v.sorted in
    let e2 = remove_loop_lem (matches_set type set value) type t (λ l h. ground arith) v.sorted in
    let e3 = remove_loop_lem (matches_value type value) type t (λ l h. ground arith) v.sorted in
    (
      e1,
      e2,
      e3,
      rw e1 (erase_if-IsValid (matches_all offset type set value) t v),
      rw e2 (erase_if-IsValid (matches_set type set value) t v),
      rw e3 (erase_if-IsValid (matches_value type value) t v),
    )

-- `clearLayers` leaves a valid tile valid, with no layer of a type that is to be cleared and every
-- other layer, and returns the number of layers that it cleared; `clear` leaves none.
pub clear_layers_lem :
    (t : Tile) (types : List Bool) (q : TileLayer → Bool)
    → IsValid t
    → let r = clear_layers t types in
      let cleared : TileLayer → Bool = λ l. get_or types l.type false in
      IsValid r.0
      × (count (λ l. cleared l && q l) r.0 ≡ 0)
      × (count (λ l. if cleared l then false else q l) r.0
          ≡ count (λ l. if cleared l then false else q l) t)
      × (r.1 ≡ count cleared t)
      × (clear t ≡ ([], length t))
unfolding clear_layers clear
clear_layers_lem t types q v = (
  erase_if-IsValid _ t v,
  none_left t,
  others t,
  omega (arith, length-erase_if (λ l. get_or types l.type false) t),
  refl,
)
  where
    none_left :
        (ls : Tile)
        → count
            (λ l. get_or types l.type false && q l)
            (erase_if (λ l. get_or types l.type false) ls)
          ≡ 0
    none_left [] = unfold erase_if in refl
    none_left (l ∷ ls) = let ih = none_left ls in unfold erase_if in ground arith

    others :
        (ls : Tile)
        → count
            (λ l. if get_or types l.type false then false else q l)
            (erase_if (λ l. get_or types l.type false) ls)
          ≡ count (λ l. if get_or types l.type false then false else q l) ls
    others [] = unfold erase_if in refl
    others (l ∷ ls) = let ih = others ls in unfold erase_if in ground arith
