-- ===== src/StringTools/Tests.antt =====
-- Instances of the theorems on strings.
use amalgam_engine.Prelude.{◌≡◌, refl, true, [], ◌∷◌}
use amalgam_engine.Prelude.Map.{Bytes}
use amalgam_engine.StringTools.{derive_string_id, path_starts_with, compare_chars}

-- "Oak Log"
abbrev oak_log : Bytes
oak_log = b'O' ∷ b'a' ∷ b'k' ∷ b' ' ∷ b'L' ∷ b'o' ∷ b'g' ∷ []

derives_oak_log : derive_string_id oak_log ≡ b'o' ∷ b'a' ∷ b'k' ∷ b'_' ∷ b'l' ∷ b'o' ∷ b'g' ∷ []
unfolding derive_string_id
derives_oak_log = refl

-- "a\b/c" and "a/b"
abbrev long_path : Bytes
long_path = b'a' ∷ b'\\' ∷ b'b' ∷ b'/' ∷ b'c' ∷ []

abbrev short_path : Bytes
short_path = b'a' ∷ b'/' ∷ b'b' ∷ []

starts : path_starts_with long_path short_path ≡ true
unfolding path_starts_with compare_chars
starts = refl
