-- ===== src/Types/RepoName.antt =====
-- src/types.rs, `RepoName` and `validate_repo_name`.
pub mod Grammar
use distribution_rs.Prelude.{
  ℕ, Bool, true, false, not, ◌&&◌, ◌||◌, [], ◌∷◌, Result, ok, err, ltb, ◌==◌, if◌then◌else◌,
}
use distribution_rs.Prelude.Text.{
  Text, len, lead_byte, is_ascii_lowercase, is_ascii_digit, starts_with_char, ends_with_char,
  contains_pair,
}
use distribution_rs.Types.Error.{
  TypesError, invalid_repo_name, empty, at_most, slash_at_end, double_slash, first_character,
  invalid_character,
}

-- `RepoName` wraps its text.
pub record RepoName : Type 0 where
  pub as_str : Text

abbrev pub is_first_byte : ℕ → Bool
is_first_byte b = is_ascii_lowercase b || is_ascii_digit b

-- The test of the loop over `s.chars()`.
unfoldable pub is_name_char : ℕ → Bool
is_name_char ch =
    is_ascii_lowercase ch
    || is_ascii_digit ch
    || ch == b'.'
    || ch == b'_'
    || ch == b'-'
    || ch == b'/'

-- The loop over `s.chars()`.
unfoldable pub check_name_chars : Text → Result TypesError (Unit {0})
unfolding is_name_char
check_name_chars [] = ok tt
check_name_chars (ch ∷ s) =
    let rest = check_name_chars s in
    if not (is_name_char ch) then err (invalid_repo_name (invalid_character ch)) else rest

-- The tests behind the first, on a text with a first character.
unfoldable pub validate_nonempty : ℕ → Text → Result TypesError (Unit {0})
unfolding check_name_chars len starts_with_char ends_with_char contains_pair
validate_nonempty first s =
    if ltb 256 (len s)
    then err (invalid_repo_name (at_most 256))
    else if starts_with_char b'/' s || ends_with_char b'/' s
    then err (invalid_repo_name slash_at_end)
    else if contains_pair b'/' b'/' s
    then err (invalid_repo_name double_slash)
    else if not (is_first_byte (lead_byte first))
    then err (invalid_repo_name first_character)
    else check_name_chars s

unfoldable pub validate_repo_name : Text → Result TypesError (Unit {0})
unfolding validate_nonempty
validate_repo_name [] = err (invalid_repo_name empty)
validate_repo_name (c ∷ s) = validate_nonempty c (c ∷ s)

-- `RepoName::try_from`, which `from_str` and `deserialize` call
unfoldable pub try_from : Text → Result TypesError RepoName
unfolding validate_repo_name
try_from s = elim (validate_repo_name s) [ ok _ ↦ ok (record { as_str = s }) | err e ↦ err e ]

-- `Display`
abbrev pub to_string : RepoName → Text
to_string name = name.as_str
