-- ===== src/Types/Digest/RoundTrip.antt =====
-- Parsing and printing of digests are inverse to one another.
use distribution_rs.Prelude.{
  true, false, [], ◌∷◌, ◌≡◌, refl, ◌∙◌, inl, inr, arith, ok, Option-cases,
}
use distribution_rs.Prelude.Text.{
  Text, codes, len, text_eq_iff, contains_char, split_once, split_once-eq-some, split_once-append,
}
use distribution_rs.Types.Digest.{
  Digest, DigestAlgorithm, sha256, sha512, as_str, expected_hex_len, is_hex_char, check_hex_chars,
  validate_hex, validate_parts, validate_digest, to_string,
}

-- Only the characters `0-9` and `a-f`.
abbrev pub AllHex : Text → Type 0
AllHex [] = Unit
AllHex (c ∷ s) = ((is_hex_char c) ≡ true) × AllHex s

-- What the private constructor of `Digest` guarantees.
pub record IsValid (d : Digest) : Type 0 where
  pub length_is : len d.hex ≡ expected_hex_len d.algorithm
  pub all_hex : AllHex d.hex

check_hex_chars-AllHex : (s : Text) → check_hex_chars s ≡ ok tt → AllHex s
unfolding check_hex_chars
check_hex_chars-AllHex [] h = tt
check_hex_chars-AllHex (c ∷ s) h = ground (arith, check_hex_chars-AllHex s)

AllHex-check_hex_chars : (s : Text) → AllHex s → check_hex_chars s ≡ ok tt
unfolding check_hex_chars
AllHex-check_hex_chars [] h = refl
AllHex-check_hex_chars (c ∷ s) h = ground (arith, AllHex-check_hex_chars s)

AllHex-no-colon : (s : Text) → AllHex s → contains_char b':' s ≡ false
unfolding contains_char
AllHex-no-colon [] h = refl
AllHex-no-colon (c ∷ s) h = ground (arith, AllHex-no-colon s)

validate_hex_sound :
    (a : DigestAlgorithm) (hex : Text) (d : Digest)
    → validate_hex a hex ≡ ok d
    → IsValid d × (d.algorithm ≡ a) × (d.hex ≡ hex)
unfolding validate_hex
validate_hex_sound a hex d h = ground (arith, check_hex_chars-AllHex hex)

validate_hex-IsValid : (d : Digest) → IsValid d → validate_hex d.algorithm d.hex ≡ ok d
unfolding validate_hex
validate_hex-IsValid d v = ground (arith, AllHex-check_hex_chars d.hex)

pub as_str-no-colon : (a : DigestAlgorithm) → contains_char b':' (as_str a) ≡ false
unfolding contains_char
as_str-no-colon sha256 = refl
as_str-no-colon sha512 = refl

validate_parts-as_str :
    (a : DigestAlgorithm) (hex : Text)
    → contains_char b':' hex ≡ false
    → validate_parts (as_str a) hex ≡ validate_hex a hex
unfolding validate_parts
validate_parts-as_str sha256 hex h = rw h
validate_parts-as_str sha512 hex h = rw h

validate_parts_sound :
    (alg hex : Text) (d : Digest)
    → validate_parts alg hex ≡ ok d
    → IsValid d × (as_str d.algorithm ≡ alg) × (d.hex ≡ hex)
unfolding validate_parts
validate_parts_sound alg hex d h = ground (
  arith,
  text_eq_iff alg (codes "sha256"),
  text_eq_iff alg (codes "sha512"),
  validate_hex_sound sha256 hex d,
  validate_hex_sound sha512 hex d,
)

-- A digest that was printed is read back.
pub validate_digest-to_string : (d : Digest) → IsValid d → validate_digest (to_string d) ≡ ok d
unfolding validate_digest to_string
validate_digest-to_string d v =
    rw
      (
        split_once-append b':' (as_str d.algorithm) d.hex (as_str-no-colon d.algorithm),
        validate_digest,
      )
      (validate_parts-as_str d.algorithm d.hex (AllHex-no-colon d.hex v.all_hex)
        ∙ validate_hex-IsValid d v)

-- What is accepted is printed as it was written, and is valid.
pub to_string-validate_digest :
    (s : Text) (d : Digest) → validate_digest s ≡ ok d → (to_string d ≡ s) × IsValid d
unfolding validate_digest to_string
to_string-validate_digest s d h = elim (Option-cases (split_once b':' s)) [
  | inl e ↦ ground arith
  | inr ((alg, hex), e) ↦
      ground (arith, validate_parts_sound alg hex d, split_once-eq-some b':' s alg hex e)
]
