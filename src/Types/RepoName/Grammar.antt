-- ===== src/Types/RepoName/Grammar.antt =====
-- The accepted repository names as a grammar: path segments of name characters, none empty,
-- with single slashes between them.
use distribution_rs.Prelude.{
  ℕ, ◌≤◌, Bool, true, false, ◌||◌, [], ◌∷◌, ◌≡◌, ◌↔◌, inl, inr, arith, ok, ◌==◌, Bool-cases,
}
use distribution_rs.Prelude.Text.{
  Text, len, lead_byte, is_ascii_lowercase, is_ascii_digit, ends_with_char, contains_pair,
}
use distribution_rs.Types.RepoName.{
  is_first_byte, check_name_chars, validate_nonempty, validate_repo_name,
}

abbrev pub is_segment_char : ℕ → Bool
is_segment_char c = is_ascii_lowercase c || is_ascii_digit c || c == b'.' || c == b'_' || c == b'-'

-- The text of `c` and `s`: segments with single slashes between them.
pub data IsSegmented : ℕ → Text → Type 0 where
  one : {c : ℕ} → is_segment_char c ≡ true → IsSegmented c []
  more : {c d : ℕ} {s : Text} → is_segment_char c ≡ true → IsSegmented d s → IsSegmented c (d ∷ s)
  slash :
      {c d e : ℕ} {s : Text}
      → is_segment_char c ≡ true
      → d ≡ b'/'
      → IsSegmented e s
      → IsSegmented c (d ∷ e ∷ s)

-- A name: its first character is a lowercase letter or a digit, and it has at most 256 bytes.
pub data IsRepoName : Text → Type 0 where
  name :
      {c : ℕ} {s : Text}
      → is_first_byte c ≡ true
      → IsSegmented c s
      → len (c ∷ s) ≤ 256
      → IsRepoName (c ∷ s)

-- What three of the tests leave of a name.
record Passes (s : Text) : Type 0 where
  chars : check_name_chars s ≡ ok tt
  last : ends_with_char b'/' s ≡ false
  pairs : contains_pair b'/' b'/' s ≡ false

IsSegmented_head : {c : ℕ} {s : Text} → IsSegmented c s → is_segment_char c ≡ true
IsSegmented_head (one h) = h
IsSegmented_head (more h t) = h
IsSegmented_head (slash h e t) = h

first_byte-lead_byte : (c : ℕ) → is_first_byte (lead_byte c) ≡ is_first_byte c
first_byte-lead_byte c = ground arith

IsSegmented-Passes : {c : ℕ} {s : Text} → IsSegmented c s → Passes (c ∷ s)
unfolding check_name_chars ends_with_char contains_pair
IsSegmented-Passes (one h) = ground arith
IsSegmented-Passes (more h t) = ground (arith, IsSegmented-Passes t)
IsSegmented-Passes (slash h e t) = ground (arith, IsSegmented_head t, IsSegmented-Passes t)

Passes-IsSegmented : (c : ℕ) (s : Text) → (c == b'/') ≡ false → Passes (c ∷ s) → IsSegmented c s
unfolding check_name_chars ends_with_char contains_pair
Passes-IsSegmented c [] n r = one (ground arith)
Passes-IsSegmented c (d ∷ []) n r = more (ground arith) (one (ground arith))
Passes-IsSegmented c (d ∷ e ∷ s) n r = elim (Bool-cases (d == b'/')) [
  | inl at ↦
      slash (ground arith) (ground arith) (Passes-IsSegmented e s (ground arith) (ground arith))
  | inr off ↦ more (ground arith) (Passes-IsSegmented d (e ∷ s) off (ground arith))
]

validated :
    (c : ℕ) (s : Text)
    → validate_nonempty c (c ∷ s) ≡ ok tt
    → (is_first_byte c ≡ true) × ((c == b'/') ≡ false) × (len (c ∷ s) ≤ 256) × Passes (c ∷ s)
unfolding validate_nonempty
validated c s h = ground (arith, first_byte-lead_byte c)

validate_grammar : {s : Text} → IsRepoName s → validate_repo_name s ≡ ok tt
unfolding validate_repo_name
validate_grammar (name {c} {s} f t l) = ground (arith, first_byte-lead_byte c, IsSegmented-Passes t)

grammar_validate : (s : Text) → validate_repo_name s ≡ ok tt → IsRepoName s
unfolding validate_repo_name
grammar_validate [] h = cc
grammar_validate (c ∷ s) h =
    let (first, off, short, passes) = validated c s h in
    name first (Passes-IsSegmented c s off passes) short

-- `validate_repo_name` accepts exactly the names of the grammar.
pub validate_repo_name_iff : (s : Text) → (validate_repo_name s ≡ ok tt) ↔ IsRepoName s
validate_repo_name_iff s = (grammar_validate s, validate_grammar)
