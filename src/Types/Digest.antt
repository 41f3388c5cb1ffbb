-- ===== src/Types/Digest.antt =====
-- src/types.rs, `DigestAlgorithm`, `Digest` and `validate_digest`.
pub mod RoundTrip
use distribution_rs.Prelude.{
  ℕ, Bool, true, false, not, ◌&&◌, ◌||◌, [], ◌∷◌, ◌++◌, none, some, Result, ok, err, ◌==◌,
  if◌then◌else◌,
}
use distribution_rs.Prelude.Text.{
  Text, codes, len, text_eq, is_ascii_hexdigit, is_ascii_uppercase, contains_char, split_once,
}
use distribution_rs.Types.Error.{
  TypesError, invalid_digest, one_colon, unsupported_algorithm, hex_length, hex_character,
}

pub data DigestAlgorithm : Type 0 where
  sha256 sha512 : DigestAlgorithm

-- `DigestAlgorithm::as_str`, which is its `Display`
abbrev pub as_str : DigestAlgorithm → Text
as_str sha256 = codes "sha256"
as_str sha512 = codes "sha512"

abbrev pub expected_hex_len : DigestAlgorithm → ℕ
expected_hex_len sha256 = 64
expected_hex_len sha512 = 128

pub record Digest : Type 0 where
  pub algorithm : DigestAlgorithm
  pub hex : Text

abbrev pub is_hex_char : ℕ → Bool
is_hex_char ch = is_ascii_hexdigit ch && not (is_ascii_uppercase ch)

-- The loop over `hex.chars()`.
unfoldable pub check_hex_chars : Text → Result TypesError (Unit {0})
check_hex_chars [] = ok tt
check_hex_chars (ch ∷ s) =
    let rest = check_hex_chars s in
    if not (is_ascii_hexdigit ch) || is_ascii_uppercase ch
    then err (invalid_digest (hex_character ch))
    else rest

-- `validate_digest` from the length test on
unfoldable pub validate_hex : DigestAlgorithm → Text → Result TypesError Digest
unfolding len check_hex_chars
validate_hex algorithm hex =
    if not (len hex == expected_hex_len algorithm)
    then err (invalid_digest (hex_length (as_str algorithm) (expected_hex_len algorithm) (len hex)))
    else elim (check_hex_chars hex) [
      | ok _ ↦ ok (record { algorithm = algorithm; hex = hex })
      | err e ↦ err e
    ]

-- `validate_digest` behind the split at the first ':'
unfoldable pub validate_parts : Text → Text → Result TypesError Digest
unfolding validate_hex contains_char text_eq
validate_parts alg_str hex =
    if contains_char b':' hex
    then err (invalid_digest one_colon)
    else if text_eq alg_str (codes "sha256")
    then validate_hex sha256 hex
    else if text_eq alg_str (codes "sha512")
    then validate_hex sha512 hex
    else err (invalid_digest (unsupported_algorithm alg_str))

-- `Digest::try_from`, which `from_str` and `deserialize` call
unfoldable pub validate_digest : Text → Result TypesError Digest
unfolding validate_parts split_once
validate_digest s = elim (split_once b':' s) [
  | none ↦ err (invalid_digest one_colon)
  | some (alg_str, hex) ↦ validate_parts alg_str hex
]

-- `Display`
unfoldable pub to_string : Digest → Text
to_string d = as_str d.algorithm ++ b':' ∷ d.hex
