-- ===== src/Api/Routes.antt =====
-- src/api/mod.rs: which resource a path below `/v2/` names.
pub mod Segments
use mathlib.Core.Option
use distribution_rs.Prelude.{
  ℕ, Bool, true, false, Option, none, some, [], ◌∷◌, Result, ok, err, if◌then◌else◌,
}
use distribution_rs.Prelude.Text.{Text, codes, text_eq, strip_prefix}
use distribution_rs.Error.{
  OciError, new, detailed, text, name_invalid, manifest_unknown, blob_upload_unknown,
  digest_invalid,
}
use distribution_rs.Types.Digest
use distribution_rs.Types.Digest.{Digest}
use distribution_rs.Types.Error.{TypesError}
use distribution_rs.Types.Ids.{Uuids, UploadId, upload_id}
use distribution_rs.Types.Reference
use distribution_rs.Types.Reference.{Reference}
use distribution_rs.Types.RepoName
use distribution_rs.Types.RepoName.{RepoName}

abbrev pub kept_or : ℕ → Option (Text × Text) → Option Text → Option (Text × Text)
kept_or c (some (before, after)) here = some (c ∷ before, after)
kept_or c none (some after) = some ([], after)
kept_or c none none = none

-- The text before and behind the last occurrence of a needle, by `rfind`.
unfoldable pub split_last : Text → Text → Option (Text × Text)
unfolding strip_prefix
split_last needle [] = none
split_last needle (c ∷ s) = kept_or c (split_last needle s) (strip_prefix needle (c ∷ s))

abbrev pub both_parts : Option (Text × Text) → Option (Text × Text)
both_parts none = none
both_parts (some ([], after)) = none
both_parts (some (b ∷ before, [])) = none
both_parts (some (b ∷ before, a ∷ after)) = some (b ∷ before, a ∷ after)

-- `split_last_segment`
unfoldable pub split_last_segment : Text → Text → Option (Text × Text)
unfolding split_last
split_last_segment path needle = both_parts (split_last needle path)

-- `str::strip_suffix`
unfoldable pub strip_suffix : Text → Text → Option Text
unfolding text_eq
strip_suffix suffix [] = if text_eq suffix [] then some [] else none
strip_suffix suffix (c ∷ s) =
    let rest = strip_suffix suffix s in
    if text_eq suffix (c ∷ s) then some [] else Option.map (◌∷◌ c) rest

-- The resources, in the order in which `v2_fallback` looks for them.
pub data Route : Type 0 where
  manifest : RepoName → Reference → Route
  upload : RepoName → UploadId → Route
  uploads : RepoName → Route
  blob : RepoName → Digest → Route
  tags : RepoName → Route
  referrers : RepoName → Digest → Route
  catalog : Route

abbrev Found : Type 0
Found = Result {0, 0} OciError Route

abbrev named : Text → (RepoName → Found) → Result {0, 0} TypesError RepoName → Found
named name_str f (err _) = err (detailed name_invalid (text name_str))
named name_str f (ok name) = f name

-- A name that cannot be parsed is the first error.
abbrev with_name : Text → (RepoName → Found) → Found
with_name name_str f = named name_str f (RepoName.try_from name_str)

abbrev manifest_at : Text → RepoName → Result {0, 0} TypesError Reference → Found
manifest_at s name (ok reference) = ok (manifest name reference)
manifest_at s name (err _) = err (detailed manifest_unknown (text s))

abbrev upload_at : RepoName → Result {0, 0} TypesError UploadId → Found
upload_at name (ok id) = ok (upload name id)
upload_at name (err _) = err (new blob_upload_unknown)

abbrev digest_at :
    (RepoName → Digest → Route) → Text → RepoName → Result {0, 0} TypesError Digest → Found
digest_at route s name (ok d) = ok (route name d)
digest_at route s name (err _) = err (detailed digest_invalid (text s))

abbrev or_else : Option Text → Option Text → Option Text
or_else none o = o
or_else (some x) o = some x

module _ (uuids : Uuids) where
  -- From the resource that is tried next on; `none` is the answer 404.
  abbrev from_catalog : Text → Option Found
  from_catalog rest = if text_eq rest (codes "_catalog") then some (ok catalog) else none

  abbrev from_referrers : Text → Option (Text × Text) → Option Found
  from_referrers rest (some (n, d)) =
      some (with_name n λ name. digest_at referrers d name (Digest.validate_digest d))
  from_referrers rest none = from_catalog rest

  abbrev from_tags : Text → Option Text → Option Found
  from_tags rest (some n) = some (with_name n λ name. ok (tags name))
  from_tags rest none = from_referrers rest (split_last_segment rest (codes "/referrers/"))

  abbrev from_blobs : Text → Option (Text × Text) → Option Found
  from_blobs rest (some (n, d)) =
      some (with_name n λ name. digest_at blob d name (Digest.validate_digest d))
  from_blobs rest none = from_tags rest (strip_suffix (codes "/tags/list") rest)

  abbrev from_uploads : Text → Option Text → Option Found
  from_uploads rest (some n) = some (with_name n λ name. ok (uploads name))
  from_uploads rest none = from_blobs rest (split_last_segment rest (codes "/blobs/"))

  abbrev from_upload : Text → Option (Text × Text) → Option Found
  from_upload rest (some (n, id)) = some (with_name n λ name. upload_at name (upload_id uuids id))
  from_upload rest none = from_uploads rest (
      or_else (strip_suffix (codes "/blobs/uploads/") rest)
        (strip_suffix (codes "/blobs/uploads") rest))

  abbrev from_manifests : Text → Option (Text × Text) → Option Found
  from_manifests rest (some (n, r)) =
      some (with_name n λ name. manifest_at r name (Reference.try_from r))
  from_manifests rest none = from_upload rest (split_last_segment rest (codes "/blobs/uploads/"))

  -- The tests of `v2_fallback` on the path behind `/v2/`, which come before those on the method.
  unfoldable pub route : Text → Option Found
  unfolding split_last_segment strip_suffix text_eq RepoName.try_from Reference.try_from
      Digest.validate_digest upload_id
  route rest = from_manifests rest (split_last_segment rest (codes "/manifests/"))
