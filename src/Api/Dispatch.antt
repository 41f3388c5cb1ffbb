-- ===== src/Api/Dispatch.antt =====
-- src/api/mod.rs, `v2_fallback`: the handler of a resource, by the method, with the parameters of
-- the query.
use mathlib.Core.Option
use distribution_rs.Prelude.{ℕ, Option, none, some, Result, ok, err, to_option}
use distribution_rs.Prelude.Text.{Text, codes, strip_prefix}
use distribution_rs.Api.Admin.{AdminAnswer}
use distribution_rs.Api.Blobs
use distribution_rs.Api.Blobs.{BlobAnswer}
use distribution_rs.Api.Lists
use distribution_rs.Api.Lists.{TagList, Page, ReferrersAnswer}
use distribution_rs.Api.Manifests
use distribution_rs.Api.Manifests.{ManifestAnswer}
use distribution_rs.Api.Ranges.{parse_u64}
use distribution_rs.Api.Requests.{HttpRequest, Draws, Web, parse_query_param}
use distribution_rs.Api.Routes
use distribution_rs.Api.Routes.{Route, manifest, upload, uploads, blob, tags, referrers, catalog}
use distribution_rs.Api.Uploads
use distribution_rs.Api.Uploads.{UploadAnswer}
use distribution_rs.Auth.{Method, get, head, post, put, patch, delete, AuthInfo}
use distribution_rs.Error.{
  RegistryError, OciError, oci, new, detailed, unsupported, digest_invalid, digest_param,
}
use distribution_rs.Registry.{World, Env, Reg}
use distribution_rs.Types.Digest.{Digest, validate_digest}
use distribution_rs.Types.Ids.{TenantId, UploadId}
use distribution_rs.Types.Reference.{Reference, tag, digest}
use distribution_rs.Types.RepoName
use distribution_rs.Types.RepoName.{RepoName}

module _ (env : Env) where
  -- The answer of a handler, its error, or a status without a body.
  pub data Reply : Type 0 where
    of_manifest : ManifestAnswer → Reply
    of_upload : UploadAnswer → Reply
    of_blob : BlobAnswer → Reply
    of_tags : TagList → Reply
    of_referrers : ReferrersAnswer env.json → Reply
    of_catalog : Page → Reply
    of_admin : AdminAnswer → Reply
    failed : RegistryError → Reply
    status : ℕ → Reply

  abbrev pub reply_of : {A : Type 0} → (A → Reply) → Result RegistryError A → Reply
  reply_of f (ok a) = f a
  reply_of f (err e) = failed e

  -- `.await.into_response()` of a handler
  abbrev pub answered : {A : Type 0} → (A → Reply) → Reg A → World → Reply × World
  answered f m w = let (r, w') = m w in (reply_of f r, w')

  abbrev pub at_once : Reply → World → Reply × World
  at_once r w = (r, w)

  abbrev pub method_not_allowed : World → Reply × World
  method_not_allowed = at_once (status 405)

  module _ (web : Web) (draws : Draws) (tenant : TenantId) (req : HttpRequest) where
    abbrev pub param : Text → Option Text
    param key = parse_query_param web req.query key

    -- `parse_query_param(…).and_then(|s| s.parse::<Digest>().ok())`
    abbrev pub digest_from : Text → Option Digest
    digest_from key = Option.bind (param key) λ s. to_option (validate_digest s)

    abbrev pub repo_from : Option RepoName
    repo_from = Option.bind (param (codes "from")) λ s. to_option (RepoName.try_from s)

    abbrev pub page_size : Option ℕ
    page_size = Option.bind (param (codes "n")) parse_u64

    -- Only a digest can be deleted.
    abbrev pub deleted_manifest : RepoName → Reference → World → Reply × World
    deleted_manifest name (tag _) = at_once (failed (oci (new unsupported)))
    deleted_manifest name (digest d) =
        answered of_manifest (Manifests.delete_manifest env tenant name d)

    unfoldable pub manifest_reply : RepoName → Reference → Method → World → Reply × World
    manifest_reply name reference get =
        answered of_manifest (Manifests.get_manifest env tenant name draws.now reference)
    manifest_reply name reference head =
        answered of_manifest (Manifests.head_manifest env tenant name reference)
    manifest_reply name reference put =
        answered of_manifest (Manifests.put_manifest env tenant name web draws reference req)
    manifest_reply name reference delete = deleted_manifest name reference
    manifest_reply name reference _ = method_not_allowed

    -- A PUT needs a digest.
    abbrev pub completed_upload : RepoName → UploadId → Option Digest → World → Reply × World
    completed_upload name id none = at_once (failed (oci (detailed digest_invalid digest_param)))
    completed_upload name id (some d) =
        answered of_upload (Uploads.complete_upload env tenant name id draws.now d req.body)

    unfoldable pub upload_reply : RepoName → UploadId → Method → World → Reply × World
    upload_reply name id get = answered of_upload (Uploads.get_upload env tenant name id)
    upload_reply name id patch =
        answered of_upload
          (Uploads.patch_upload env tenant name id draws.now req.content_range req.body)
    upload_reply name id put = completed_upload name id (digest_from (codes "digest"))
    upload_reply name id delete = answered of_upload (Uploads.cancel_upload env tenant name id)
    upload_reply name id _ = method_not_allowed

    unfoldable pub uploads_reply : RepoName → Method → World → Reply × World
    uploads_reply name post = answered of_upload (
        Uploads.start_upload env tenant name draws.upload_id draws.uuid draws.now
          (digest_from (codes "digest")) (digest_from (codes "mount")) repo_from req.body)
    uploads_reply name _ = method_not_allowed

    unfoldable pub blob_reply : RepoName → Digest → Method → World → Reply × World
    blob_reply name d get = answered of_blob (Blobs.get_blob env tenant name d req.range)
    blob_reply name d head = answered of_blob (Blobs.head_blob env tenant name d)
    blob_reply name d delete = answered of_blob (Blobs.delete_blob env tenant name d)
    blob_reply name d _ = method_not_allowed

    unfoldable pub tags_reply : RepoName → Method → World → Reply × World
    tags_reply name get =
        answered of_tags (Lists.list_tags env tenant name page_size (param (codes "last")))
    tags_reply name _ = method_not_allowed

    unfoldable pub referrers_reply : RepoName → Digest → Method → World → Reply × World
    referrers_reply name d get =
        answered of_referrers (Lists.get_referrers env tenant name d (param (codes "artifactType")))
    referrers_reply name d _ = method_not_allowed

    unfoldable pub catalog_reply : Method → World → Reply × World
    catalog_reply get =
        answered of_catalog (Lists.list_repositories env tenant page_size (param (codes "last")))
    catalog_reply _ = method_not_allowed

    unfoldable pub route_reply : Route → Method → World → Reply × World
    unfolding manifest_reply upload_reply uploads_reply blob_reply tags_reply referrers_reply
        catalog_reply
    route_reply (manifest name reference) = manifest_reply name reference
    route_reply (upload name id) = upload_reply name id
    route_reply (uploads name) = uploads_reply name
    route_reply (blob name d) = blob_reply name d
    route_reply (tags name) = tags_reply name
    route_reply (referrers name d) = referrers_reply name d
    route_reply catalog = catalog_reply

    -- Behind the tests on the path.
    abbrev pub found_reply : Option (Result {0, 0} OciError Route) → World → Reply × World
    found_reply none = at_once (status 404)
    found_reply (some (err e)) = at_once (failed (oci e))
    found_reply (some (ok route)) = route_reply route req.request.method

    abbrev pub rest_reply : Option Text → World → Reply × World
    rest_reply none = at_once (status 404)
    rest_reply (some rest) = found_reply (Routes.route env.uuids rest)

  -- `info` is that of the middleware.
  unfoldable pub v2_fallback : Web → Draws → AuthInfo → HttpRequest → World → Reply × World
  unfolding route_reply strip_prefix
  v2_fallback web draws info req =
      rest_reply web draws info.tenant req (strip_prefix (codes "/v2/") req.request.path)
