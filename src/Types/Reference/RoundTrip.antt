-- ===== src/Types/Reference/RoundTrip.antt =====
-- Parsing and printing of references are inverse to one another: no tag is taken for a digest.
use distribution_rs.Prelude.{◌≡◌, refl, inl, inr, arith, ok, Result-cases, true, ◌||◌}
use distribution_rs.Prelude.Text.{Text, codes, text_eq, split_once-none, split_once-append}
use distribution_rs.Types.Digest.{as_str, sha256, sha512, DigestAlgorithm}
use distribution_rs.Types.Digest.RoundTrip.{
  to_string-validate_digest, validate_digest-to_string, as_str-no-colon,
}
use distribution_rs.Types.Digest.RoundTrip
use distribution_rs.Types.TagName
use distribution_rs.Types.TagName.{
  TagName, IsTagName, validate_tag_name, validate_tag_name_iff, IsTagName-no-colon,
}
use distribution_rs.Types.Reference.{Reference, tag, digest, try_from, to_string}

-- What the private fields of `TagName` and `Digest` guarantee.
abbrev pub IsValid : Reference → Type 0
IsValid (tag t) = IsTagName t.as_str
IsValid (digest d) = RoundTrip.IsValid d

tag_try_from : (t : TagName) → IsTagName t.as_str → TagName.try_from t.as_str ≡ ok t
unfolding TagName.try_from
tag_try_from t v = ground (arith, validate_tag_name_iff t.as_str)

known_algorithm :
    (a : DigestAlgorithm)
    → (text_eq (as_str a) (codes "sha256") || text_eq (as_str a) (codes "sha512")) ≡ true
unfolding text_eq
known_algorithm sha256 = refl
known_algorithm sha512 = refl

tag_try_from_sound :
    (s : Text) (t : TagName) → TagName.try_from s ≡ ok t → (t.as_str ≡ s) × IsTagName t.as_str
unfolding TagName.try_from
tag_try_from_sound s t h = elim (Result-cases (validate_tag_name s)) [
  | inl (_, e) ↦
      let same : t.as_str ≡ s = ground arith in
      (same, rw same ((validate_tag_name_iff s).0 (ground arith)))
  | inr (_, e) ↦ ground arith
]

-- A valid reference that was printed is read back.
pub try_from-to_string : (r : Reference) → IsValid r → try_from (to_string r) ≡ ok r
unfolding try_from to_string
try_from-to_string (tag t) v =
    ground (arith, split_once-none b':' t.as_str, IsTagName-no-colon v, tag_try_from t v)
try_from-to_string (digest d) v = ground (
  arith,
  split_once-append b':' (as_str d.algorithm) d.hex (as_str-no-colon d.algorithm),
  known_algorithm d.algorithm,
  validate_digest-to_string d v,
)

-- What is accepted is printed as it was written, and is valid.
pub to_string-try_from :
    (s : Text) (r : Reference) → try_from s ≡ ok r → (to_string r ≡ s) × IsValid r
unfolding try_from to_string
to_string-try_from s (tag t) h = ground (arith, tag_try_from_sound s t)
to_string-try_from s (digest d) h = ground (arith, to_string-validate_digest s d)
