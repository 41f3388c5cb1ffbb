-- ===== src/Tests/Formats.antt =====
-- The theorems on names, digests, references, ranges, routes and the middleware at concrete inputs.
use distribution_rs.Tests.Data.{alpine, latest, body, body_digest}
use distribution_rs.Prelude.{
  ℕ, ◌≤◌, ◌<◌, true, none, some, [], ◌∷◌, ◌++◌, ◌≡◌, map, ◌↔◌, ◌⊎◌, refl, arith, ok,
}
use distribution_rs.Prelude.Text.{Text, codes, text_eq}
use distribution_rs.Api.Ranges.{served_range}
use distribution_rs.Api.Ranges.Bounds.{served_range-Asked, served_range-eq-none, Asked}
use distribution_rs.Api.Routes.{route, manifest}
use distribution_rs.Api.Routes.Segments.{manifests, route-manifest}
use distribution_rs.Auth.{
  AuthConfig, AuthInfo, Credentials, Request, get, put, auth_middleware, extract_auth_info,
}
use distribution_rs.Auth.Gate.{HasBearer, HasBasic, extract_auth_info-authenticated}
use distribution_rs.Auth.Passes.{MayPass, auth_middleware-MayPass}
use distribution_rs.Registry.Code.{registry_code}
use distribution_rs.Error.{
  RegistryError, ErrorEntry, oci, new, name_unknown, blob_unknown, into_response,
}
use distribution_rs.Error.Laws.{into_response-status, IsInternal}
use distribution_rs.Storage.Paths.{blob_path-injective}
use distribution_rs.Tests.ListEngine.{unary, toy_hash, pad}
use distribution_rs.Types.Digest.{validate_digest, to_string}
use distribution_rs.Types.Digest.RoundTrip as DigestRoundTrip
use distribution_rs.Types.Digest.RoundTrip.{validate_digest-to_string, to_string-validate_digest}
use distribution_rs.Types.Reference
use distribution_rs.Types.Reference.{Reference, tag, digest}
use distribution_rs.Types.Reference.RoundTrip as ReferenceRoundTrip
use distribution_rs.Types.RepoName.{validate_repo_name}
use distribution_rs.Types.RepoName.Grammar.{IsRepoName, validate_repo_name_iff}
use distribution_rs.Types.TagName.{IsTagName, validate_tag_name, validate_tag_name_iff}

-- No token is valid, and text in base64 is taken as it is.
abbrev plain : Credentials
plain = record { decode_jwt = λ secret token. none; decode_base64 = λ s. some s }

abbrev locked : AuthConfig
locked = record {
  enabled = true;
  anonymous_pull = true;
  jwt_secret = some (codes "s");
  basic_credentials = codes "a:b" ∷ [];
}

abbrev push : Request
push = record {
  method = put;
  path = codes "/v2/a/blobs/uploads/";
  authorization = some (some (codes "Basic a:b"));
}

abbrev pull : Request
pull = record { method = get; path = codes "/v2/a/tags/list"; authorization = none }

auth_middleware-MayPass_example :
    ((info : AuthInfo) × (auth_middleware plain locked pull ≡ some info))
    ↔ MayPass plain locked pull
auth_middleware-MayPass_example = auth_middleware-MayPass plain locked pull

extract_auth_info-authenticated_example :
    (value : Text) × (push.authorization ≡ some (some value))
    × (HasBearer plain locked value ⊎ HasBasic plain locked value)
unfolding extract_auth_info text_eq
extract_auth_info-authenticated_example = extract_auth_info-authenticated plain locked push refl

served_range-Asked_example :
    (2 ≤ 9) × (9 < 10) × ((i : ℕ) → ((2 ≤ i) × (i ≤ 9)) ↔ (Asked 2 (some 40) i × (i < 10)))
unfolding served_range
served_range-Asked_example = served_range-Asked 2 (some 40) 10 2 9 refl

served_range-eq-none_example : 10 ≤ 12
unfolding served_range
served_range-eq-none_example = served_range-eq-none 10 none 10 12 refl (omega arith)

validate_digest-to_string_example : validate_digest (to_string body_digest) ≡ ok body_digest
unfolding registry_code
validate_digest-to_string_example =
    validate_digest-to_string body_digest
      (record { length_is = refl; all_hex = toy_hash.sha256_hex-AllHex body })

to_string-validate_digest_example :
    (to_string body_digest ≡ codes "sha256:" ++ pad 64 b'a') × DigestRoundTrip.IsValid body_digest
unfolding registry_code
to_string-validate_digest_example =
    to_string-validate_digest (codes "sha256:" ++ pad 64 b'a') body_digest refl

latest_valid : validate_tag_name (codes "latest") ≡ ok tt
unfolding validate_tag_name
latest_valid = refl

try_from-to_string_example : Reference.try_from (Reference.to_string latest) ≡ ok latest
try_from-to_string_example =
    ReferenceRoundTrip.try_from-to_string latest
      ((validate_tag_name_iff (codes "latest")).0 latest_valid)

to_string-try_from_example :
    (Reference.to_string latest ≡ codes "latest") × ReferenceRoundTrip.IsValid latest
unfolding Reference.try_from
to_string-try_from_example = ReferenceRoundTrip.to_string-try_from (codes "latest") latest refl

validate_repo_name_iff_example :
    (validate_repo_name (codes "library/alpine") ≡ ok tt) ↔ IsRepoName (codes "library/alpine")
validate_repo_name_iff_example = validate_repo_name_iff (codes "library/alpine")

validate_tag_name_iff_example :
    (validate_tag_name (codes "v1.0") ≡ ok tt) ↔ IsTagName (codes "v1.0")
validate_tag_name_iff_example = validate_tag_name_iff (codes "v1.0")

blob_path-injective_example : body_digest ≡ body_digest
blob_path-injective_example = blob_path-injective body_digest body_digest refl

abbrev unknown : RegistryError
unknown = oci (new name_unknown)

into_response-status_example :
    (IsInternal unknown
      × ((into_response unknown).status ≡ 500)
      × (map (λ (x : ErrorEntry). x.code) (into_response unknown).errors ≡ blob_unknown ∷ []))
    ⊎ ((¬ IsInternal unknown)
        × (400 ≤ (into_response unknown).status)
        × ((into_response unknown).status < 430))
into_response-status_example = into_response-status unknown

alpine_valid : validate_repo_name alpine.as_str ≡ ok tt
unfolding validate_repo_name
alpine_valid = refl

route-manifest_example :
    route unary (alpine.as_str ++ manifests ++ Reference.to_string latest)
    ≡ some (ok (manifest alpine latest))
route-manifest_example =
    route-manifest unary alpine latest alpine_valid
      ((validate_tag_name_iff (codes "latest")).0 latest_valid)
