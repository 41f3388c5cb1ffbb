-- ===== src/Types/Reference.antt =====
-- src/types.rs, `Reference`: a tag, or a digest.
pub mod RoundTrip
use distribution_rs.Prelude.{◌||◌, none, some, Result, ok, err, if◌then◌else◌}
use distribution_rs.Prelude.Text.{Text, codes, text_eq, split_once}
use distribution_rs.Types.Error.{TypesError, invalid_reference}
use distribution_rs.Types.Digest
use distribution_rs.Types.Digest.{Digest, validate_digest}
use distribution_rs.Types.TagName
use distribution_rs.Types.TagName.{TagName}

pub data Reference : Type 0 where
  tag : TagName → Reference
  digest : Digest → Reference

-- `Digest::try_from(s)`, mapped into references
abbrev as_digest : Text → Result TypesError Reference
as_digest s = elim (validate_digest s) [ ok d ↦ ok (digest d) | err e ↦ err (invalid_reference e) ]

-- `TagName::try_from(s)`, mapped into references
abbrev as_tag : Text → Result TypesError Reference
as_tag s = elim (TagName.try_from s) [ ok t ↦ ok (tag t) | err e ↦ err (invalid_reference e) ]

-- `Reference::try_from`, which `from_str` and `deserialize` call
unfoldable pub try_from : Text → Result TypesError Reference
unfolding split_once text_eq TagName.try_from validate_digest
try_from s = elim (split_once b':' s) [
  | none ↦ as_tag s
  | some (alg, _) ↦
      if text_eq alg (codes "sha256") || text_eq alg (codes "sha512") then as_digest s else as_tag s
]

-- `Display`
unfoldable pub to_string : Reference → Text
unfolding Digest.to_string
to_string (tag t) = TagName.to_string t
to_string (digest d) = Digest.to_string d
