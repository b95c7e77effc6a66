-- ===== src/StringTools.antt =====
-- Source/SharedLib/Utility/Private/StringTools.cpp over byte strings, with `std::tolower` of the "C"
-- locale.
mod Tests
use amalgam_engine.Prelude.{
  ℕ, ◌+◌, ◌≤◌, ◌≡◌, refl, Bool, true, false, ◌&&◌, [], ◌∷◌, map, arith, ltb, leb, ◌==◌,
  if◌then◌else◌, length, length-map, take, Bool-cases, inl, inr,
}
use amalgam_engine.Prelude.Map.{Bytes}

abbrev pub tolower : ℕ → ℕ
tolower c = if leb b'A' c && leb c b'Z' then c + 32 else c

-- The character map of `deriveStringID`.
abbrev pub derive_char : ℕ → ℕ
derive_char c = if c == b' ' then b'_' else tolower c

-- `deriveStringID`
unfoldable pub derive_string_id : Bytes → Bytes
derive_string_id = map derive_char

-- A derived string ID has the length of its display name and is its own derived ID: deriving twice
-- changes nothing.
pub derive_string_id_idempotent :
    (s : Bytes)
    → (length (derive_string_id s) ≡ length s)
      × (derive_string_id (derive_string_id s) ≡ derive_string_id s)
unfolding derive_string_id
derive_string_id_idempotent s = (length-map s derive_char, twice s)
  where
    stable : (c : ℕ) → derive_char (derive_char c) ≡ derive_char c
    stable c = ground arith

    twice : (xs : Bytes) → map derive_char (map derive_char xs) ≡ map derive_char xs
    twice [] = refl
    twice (x ∷ xs) = rw (stable x, twice xs)

-- `if (c == '\\') c = '/';`
abbrev pub normalize_slash : ℕ → ℕ
normalize_slash c = if c == b'\\' then b'/' else c

-- The comparison loop of `pathStartsWith`, over the two paths from `index` on.
pub compare_chars : Bytes → Bytes → Bool
compare_chars xs [] = true
compare_chars [] (b ∷ bs) = false
compare_chars (a ∷ xs) (b ∷ ys) =
    if normalize_slash a == normalize_slash b then compare_chars xs ys else false

-- `pathStartsWith`
pub path_starts_with : Bytes → Bytes → Bool
unfolding compare_chars
path_starts_with a b = if ltb (length a) (length b) then false else compare_chars a b

compare_chars-take :
    (a b : Bytes)
    → length b ≤ length a
    → compare_chars a b ≡ true
    → map normalize_slash (take (length b) a) ≡ map normalize_slash b
unfolding compare_chars
compare_chars-take a [] h t = refl
compare_chars-take [] (y ∷ ys) h t = absurd (omega arith)
compare_chars-take (x ∷ xs) (y ∷ ys) h t = ground (arith, compare_chars-take xs ys (omega arith))

compare_chars-append :
    (a b : Bytes)
    → length b ≤ length a
    → map normalize_slash (take (length b) a) ≡ map normalize_slash b
    → compare_chars a b ≡ true
unfolding compare_chars
compare_chars-append a [] h t = refl
compare_chars-append [] (y ∷ ys) h t = absurd (omega arith)
compare_chars-append (x ∷ xs) (y ∷ ys) h t =
    ground (arith, compare_chars-append xs ys (omega arith))

-- `pathStartsWith` holds exactly when the second path is no longer than the first and, with every
-- backslash read as a slash, is its beginning.
pub path_starts_with_iff :
    (a b : Bytes)
    → ((path_starts_with a b ≡ true)
        → (length b ≤ length a) × (map normalize_slash (take (length b) a) ≡ map normalize_slash b))
      × ((length b ≤ length a)
          → map normalize_slash (take (length b) a) ≡ map normalize_slash b
          → path_starts_with a b ≡ true)
unfolding path_starts_with
path_starts_with_iff a b = elim (Bool-cases (ltb (length a) (length b))) [
  | inl longer ↦ rw longer ((λ t. cc), λ h e. absurd (ground arith))
  | inr fits ↦ rw fits (
    λ t. (ground arith, compare_chars-take a b (ground arith) t),
    λ h e. compare_chars-append a b h e,
  )
]
