-- ===== src/Types/TagName.antt =====
-- src/types.rs, `TagName` and `validate_tag_name`.
use distribution_rs.Prelude.{
  ℕ, Bool, true, false, not, ◌||◌, [], ◌∷◌, ◌≡◌, refl, ◌↔◌, ◌≤◌, arith, Result, ok, err, ltb, ◌==◌,
  if◌then◌else◌,
}
use distribution_rs.Prelude.Text.{Text, len, lead_byte, is_ascii_alphanumeric, contains_char}
use distribution_rs.Types.Error.{
  TypesError, invalid_tag_name, empty, at_most, first_character, invalid_character,
}

pub record TagName : Type 0 where
  pub as_str : Text

abbrev pub is_tag_char : ℕ → Bool
is_tag_char ch = is_ascii_alphanumeric ch || ch == b'.' || ch == b'_' || ch == b'-'

-- The loop over `s[1..].chars()`.
unfoldable pub check_tag_chars : Text → Result TypesError (Unit {0})
check_tag_chars [] = ok tt
check_tag_chars (ch ∷ s) =
    let rest = check_tag_chars s in
    if not (is_tag_char ch) then err (invalid_tag_name (invalid_character ch)) else rest

-- The first byte is ASCII where the loop begins, so `s[1..]` drops the first character.
unfoldable pub validate_tag_name : Text → Result TypesError (Unit {0})
unfolding check_tag_chars len
validate_tag_name [] = err (invalid_tag_name empty)
validate_tag_name (c ∷ s) =
    if ltb 128 (len (c ∷ s))
    then err (invalid_tag_name (at_most 128))
    else if not (is_ascii_alphanumeric (lead_byte c))
    then err (invalid_tag_name first_character)
    else check_tag_chars s

-- `TagName::try_from`, which `from_str` and `deserialize` call
unfoldable pub try_from : Text → Result TypesError TagName
unfolding validate_tag_name
try_from s = elim (validate_tag_name s) [ ok _ ↦ ok (record { as_str = s }) | err e ↦ err e ]

-- `Display`
abbrev pub to_string : TagName → Text
to_string tag = tag.as_str

abbrev pub AllTag : Text → Type 0
AllTag [] = Unit
AllTag (c ∷ s) = (is_tag_char c ≡ true) × AllTag s

-- A letter or a digit, then at most 127 letters, digits, dots, underscores and dashes.
pub data IsTagName : Text → Type 0 where
  name :
      {c : ℕ} {s : Text}
      → is_ascii_alphanumeric c ≡ true
      → AllTag s
      → len (c ∷ s) ≤ 128
      → IsTagName (c ∷ s)

check_tag_chars_iff : (s : Text) → (check_tag_chars s ≡ ok tt) ↔ AllTag s
unfolding check_tag_chars
check_tag_chars_iff [] = (λ h. tt, λ h. refl)
check_tag_chars_iff (c ∷ s) =
    (λ h. ground (arith, check_tag_chars_iff s), λ h. ground (arith, check_tag_chars_iff s))

alphanumeric-lead_byte : (c : ℕ) → is_ascii_alphanumeric (lead_byte c) ≡ is_ascii_alphanumeric c
alphanumeric-lead_byte c = ground arith

tag_validate : {s : Text} → IsTagName s → validate_tag_name s ≡ ok tt
unfolding validate_tag_name
tag_validate (name {c} {s} f t l) = ground (arith, alphanumeric-lead_byte c, check_tag_chars_iff s)

validate_tag : (s : Text) → validate_tag_name s ≡ ok tt → IsTagName s
unfolding validate_tag_name
validate_tag [] h = cc
validate_tag (c ∷ s) h =
    name (ground (arith, alphanumeric-lead_byte c)) (ground (arith, check_tag_chars_iff s))
      (ground arith)

-- `validate_tag_name` accepts exactly these names.
pub validate_tag_name_iff : (s : Text) → (validate_tag_name s ≡ ok tt) ↔ IsTagName s
validate_tag_name_iff s = (validate_tag s, tag_validate)

AllTag-no-colon : (s : Text) → AllTag s → contains_char b':' s ≡ false
unfolding contains_char
AllTag-no-colon [] h = refl
AllTag-no-colon (c ∷ s) h = ground (arith, AllTag-no-colon s)

pub IsTagName-no-colon : {s : Text} → IsTagName s → contains_char b':' s ≡ false
unfolding contains_char
IsTagName-no-colon (name {c} {s} f t l) = ground (arith, AllTag-no-colon s)
