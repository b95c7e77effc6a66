-- ===== src/Prelude/Map.antt =====
-- Finite maps as association lists, for `std::unordered_map`, over keys with a Boolean equality.
use amalgam_engine.Prelude.Tests.{◌==◌ as nat_beq, ==_iff, if◌then◌else◌, Bool-cases}
use Prim.Native.Nat.{ℕ}
use mathlib.Core.Path.{◌≡◌, refl}
use mathlib.Core.Logic.{◌≢◌, ◌↔◌, ◌⊎◌, inl, inr}
use mathlib.Core.Bool.{Bool, true, false, ◌&&◌}
use mathlib.Core.Option.{Option, none, some}
use mathlib.Core.List.{List, [], ◌∷◌}
use native.Mathlib.Omega.{arith}

pub record Eq {ℓ} (A : Type ℓ) : Type ℓ where
  pub beq : A → A → Bool
  pub beq_iff : (a b : A) → (beq a b ≡ true) ↔ (a ≡ b)

instance abbrev pub nat_eq : Eq ℕ
nat_eq = record { beq = nat_beq; beq_iff = ==_iff }

module _ {ℓ} {A : Type ℓ} ⦃e : Eq A⦄ where
  pub beq_refl : (a : A) → e.beq a a ≡ true
  beq_refl a = (e.beq_iff a a).1 refl

  -- To split on an equality test and keep what it says.
  pub beq_cases : (a b : A) → ((e.beq a b ≡ true) × (a ≡ b)) ⊎ ((e.beq a b ≡ false) × (a ≢ b))
  beq_cases a b = elim (Bool-cases (e.beq a b)) [
    | inl t ↦ inl (t, (e.beq_iff a b).0 t)
    | inr f ↦ inr (f, λ q. let t = (e.beq_iff a b).1 q in cc (t, f))
  ]

  pub beq_ne : (a b : A) → a ≢ b → e.beq a b ≡ false
  beq_ne a b h = elim (beq_cases a b) [ inl p ↦ absurd (h p.1) | inr p ↦ p.0 ]

  unfoldable pub list_beq : List A → List A → Bool
  list_beq [] [] = true
  list_beq [] (y ∷ ys) = false
  list_beq (x ∷ xs) [] = false
  list_beq (x ∷ xs) (y ∷ ys) = e.beq x y && list_beq xs ys

  pub list_beq_refl : (xs : List A) → list_beq xs xs ≡ true
  unfolding list_beq
  list_beq_refl [] = refl
  list_beq_refl (x ∷ xs) = rw (beq_refl x, list_beq_refl xs)

  pub list_beq_sound : (xs ys : List A) → list_beq xs ys ≡ true → xs ≡ ys
  unfolding list_beq
  list_beq_sound [] [] h = refl
  list_beq_sound [] (y ∷ ys) h = cc
  list_beq_sound (x ∷ xs) [] h = cc
  list_beq_sound (x ∷ xs) (y ∷ ys) h = ground (arith, (e.beq_iff x y).0, list_beq_sound xs ys)

-- Byte strings.
abbrev pub Bytes : Type 0
Bytes = List ℕ

pub bytes_beq_iff : (a b : Bytes) → (list_beq a b ≡ true) ↔ (a ≡ b)
bytes_beq_iff a b = (list_beq_sound a b, λ q. back q)
  where
    back : a ≡ b → list_beq a b ≡ true
    back q = rw q (list_beq_refl b)

instance abbrev pub bytes_eq : Eq Bytes
bytes_eq = record { beq = list_beq; beq_iff = bytes_beq_iff }

module _ {ℓ κ} {K : Type ℓ} {V : Type κ} ⦃e : Eq K⦄ where
  unfoldable pub lookup : K → List (K × V) → Option V
  lookup k [] = none
  lookup k ((j, v) ∷ m) = if e.beq j k then some v else lookup k m

  unfoldable pub insert : K → V → List (K × V) → List (K × V)
  insert k v [] = (k, v) ∷ []
  insert k v ((j, w) ∷ m) = if e.beq j k then (k, v) ∷ m else (j, w) ∷ insert k v m

  unfoldable pub erase : K → List (K × V) → List (K × V)
  erase k [] = []
  erase k ((j, w) ∷ m) = if e.beq j k then erase k m else (j, w) ∷ erase k m

  pub lookup-insert_self : (k : K) (v : V) (m : List (K × V)) → lookup k (insert k v m) ≡ some v
  unfolding lookup insert
  lookup-insert_self k v [] = rw (beq_refl k)
  lookup-insert_self k v ((j, w) ∷ m) = elim (beq_cases j k) [
    | inl p ↦ rw (p.0, lookup) (rw (beq_refl k))
    | inr p ↦ rw (p.0, lookup, p.0) (lookup-insert_self k v m)
  ]

  pub lookup-insert_ne :
      (k j : K) (v : V) (m : List (K × V)) → k ≢ j → lookup j (insert k v m) ≡ lookup j m
  unfolding lookup insert
  lookup-insert_ne k j v [] h = rw (beq_ne k j h)
  lookup-insert_ne k j v ((i, w) ∷ m) h = elim (beq_cases i k) [
    | inl p ↦ rw (p.0, lookup, beq_ne k j h) (rw (beq_ne i j (λ q. h (sub p.1 q))))
    | inr p ↦ ground (arith, p.0, lookup-insert_ne k j v m h)
  ]
    where
      sub : {i : K} → i ≡ k → i ≡ j → k ≡ j
      sub a b = cc

  pub lookup-erase_self : (k : K) (m : List (K × V)) → lookup k (erase k m) ≡ none
  unfolding lookup erase
  lookup-erase_self k [] = refl
  lookup-erase_self k ((j, w) ∷ m) = elim (beq_cases j k) [
    | inl p ↦ rw (p.0) (lookup-erase_self k m)
    | inr p ↦ rw (p.0, lookup, p.0) (lookup-erase_self k m)
  ]

  pub lookup-erase_ne : (k j : K) (m : List (K × V)) → k ≢ j → lookup j (erase k m) ≡ lookup j m
  unfolding lookup erase
  lookup-erase_ne k j [] h = refl
  lookup-erase_ne k j ((i, w) ∷ m) h = elim (beq_cases i k) [
    | inl p ↦ rw (p.0, beq_ne i j (λ q. h (sub p.1 q))) (lookup-erase_ne k j m h)
    | inr p ↦ ground (arith, p.0, lookup-erase_ne k j m h)
  ]
    where
      sub : {i : K} → i ≡ k → i ≡ j → k ≡ j
      sub a b = cc
