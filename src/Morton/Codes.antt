-- ===== src/Morton/Codes.antt =====
-- The codes interleave the bits of a position, and the two tables are inverse to each other.
use native.Mathlib.Decide.{ℕ_discrete}
use amalgam_engine.Prelude.{
  ◌≤◌, inl, inr, false, if◌then◌else◌, Bool-cases, ℕ, zero, suc, ◌+◌, ◌*◌, ◌/◌, ◌%◌, ◌<◌, ◌≡◌, refl,
  Bool, true, ◌&&◌, ltb, ◌==◌, arith, ltb→lt, ==_iff,
}
use amalgam_engine.Morton.{encode16x16, decode16x16}

-- A test for the numbers up to a bound, one by one.
unfoldable holds_up_to : (ℕ → Bool) → ℕ → Bool
holds_up_to test zero = test 0
holds_up_to test (suc bound) = if test (suc bound) then holds_up_to test bound else false

holds_up_to_each :
    (test : ℕ → Bool) (bound n : ℕ) → holds_up_to test bound ≡ true → n ≤ bound → test n ≡ true
unfolding holds_up_to
holds_up_to_each test zero n passed small = let at_zero : n ≡ 0 = omega arith in rw at_zero passed
holds_up_to_each test (suc bound) n passed small = elim (Bool-cases (test (suc bound))) [
  | inr fails ↦ absurd (cc (rw fails at passed))
  | inl holds ↦ elim (ℕ_discrete n (suc bound)) [
    | yes last ↦ rw last holds
    | no before ↦ holds_up_to_each test bound n (rw holds at passed) (omega arith)
  ]
]

-- The bits of x in the even places and those of y in the odd ones.
abbrev pub spread : ℕ → ℕ
spread n = n % 2 + 4 * (n / 2 % 2) + 16 * (n / 4 % 2) + 64 * (n / 8 % 2)

abbrev pub interleave : ℕ → ℕ → ℕ
interleave x y = spread x + 2 * spread y

abbrev agrees : ℕ → ℕ → Bool
agrees x y =
    let code = encode16x16 x y in
    ltb code 256
    && ((decode16x16 code).0 == x && ((decode16x16 code).1 == y && code == interleave x y))

tables : holds_up_to (λ x. holds_up_to (λ y. agrees x y) 15) 15 ≡ true
unfolding holds_up_to encode16x16 decode16x16
tables = refl

-- For x and y below 16, the code of (x, y) is a number below 256 that interleaves their bits, and
-- decoding it gives (x, y).
pub encode16x16_codes :
    (x y : ℕ)
    → x < 16
    → y < 16
    → (encode16x16 x y < 256)
      × (decode16x16 (encode16x16 x y) ≡ (x, y))
      × (encode16x16 x y ≡ interleave x y)
encode16x16_codes x y hx hy =
    let row = holds_up_to_each (λ i. holds_up_to (λ j. agrees i j) 15) 15 x tables (omega arith) in
    let entry = holds_up_to_each (λ j. agrees x j) 15 y row (omega arith) in
    let (below, rest) = split _ _ entry in
    let (fst, rest') = split _ _ rest in
    let (snd, bits) = split _ _ rest' in
    (ltb→lt _ 256 below, pair _ ((==_iff _ x).0 fst) ((==_iff _ y).0 snd), (==_iff _ _).0 bits)
  where
    split : (a b : Bool) → (a && b) ≡ true → (a ≡ true) × (b ≡ true)
    split a b h = (ground arith, ground arith)

    pair : (p : ℕ × ℕ) → p.0 ≡ x → p.1 ≡ y → p ≡ (x, y)
    pair p a b = cc
