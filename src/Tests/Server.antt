-- ===== src/Tests/Server.antt =====
-- A whole server at a concrete world, and the theorems on it.
use distribution_rs.Prelude.{
  ℕ, Bool, true, false, Option, none, some, [], ◌≡◌, ◌≤◌, refl, ap, arith, length, leb,
  if◌then◌else◌,
}
use distribution_rs.Prelude.Text.{codes, text_eq}
use distribution_rs.Api.Dispatch.{of_manifest}
use distribution_rs.Api.Manifests.{created, found}
use distribution_rs.Api.Manifests
use distribution_rs.Api.Routes
use distribution_rs.Api.Dispatch.{v2_fallback}
use distribution_rs.Api.Requests.{parse_query_param, HttpRequest, Draws, Web}
use distribution_rs.Api.Server.{Router, Endpoint, handle, start_gc, fallback}
use distribution_rs.Api.Server.Guarded.{handle-unauthenticated}
use distribution_rs.Auth.{
  AuthConfig, Credentials, Method, Request, get, head, put, post, patch, delete, extension,
  extract_auth_info,
}
use distribution_rs.Registry.Code.{registry_code}
use distribution_rs.Registry.Pulls.{OnlyPulls}
use distribution_rs.Storage.Files.{Bytes, Reader}
use distribution_rs.Tests.Data.{new_world, no_tables, upload, body_digest, body, text_plain}
use distribution_rs.Tests.ListEngine.{env}

abbrev to_bytes : Reader → ℕ → Option Bytes
to_bytes r limit =
    if r.is_broken then none else if leb (length r.bytes) limit then some r.bytes else none

to_bytes_law :
    (r : Reader) (limit : ℕ) (b : Bytes)
    → to_bytes r limit ≡ some b
    → (b ≡ r.bytes) × (length b ≤ limit)
to_bytes_law r limit b h = ground arith

abbrev web : Web
web = record { parse = λ q. []; to_bytes = to_bytes; to_bytes-eq-some = to_bytes_law }

abbrev is_post : Method → Bool
is_post post = true
is_post _ = false

only_post : (m : Method) → is_post m ≡ true → m ≡ post
only_post post h = refl
only_post get h = cc
only_post head h = cc
only_post put h = cc
only_post patch h = cc
only_post delete h = cc
only_post (extension x) h = cc

-- The route of the jobs, with all other paths in the fallback.
abbrev matched : Request → Endpoint × Bool
matched req =
    if text_eq req.path (codes "/api/v1/gc")
    then (start_gc, is_post req.method)
    else (fallback, true)

matched_law : (req : Request) → matched req ≡ (start_gc, true) → req.method ≡ post
matched_law req h = go (text_eq req.path (codes "/api/v1/gc")) req.method h
  where
    go :
        (b : Bool) (m : Method)
        → ◌≡◌ {A = Endpoint × Bool}
            (if b then (start_gc, is_post m) else (fallback, true))
            (start_gc, true)
        → m ≡ post
    go true m h = only_post m (ap (λ x. x.1) h)
    go false m h = let e : fallback ≡ start_gc = ap (λ x. x.0) h in cc

abbrev router : Router
router = record { matched = matched; matched-start_gc = matched_law }

abbrev draws : Draws
draws = record { now = codes "now"; uuid = codes "u"; upload_id = upload; job_id = codes "job" }

-- No token is valid, and text in base64 is taken as it is.
abbrev plain : Credentials
plain = record { decode_jwt = λ secret token. none; decode_base64 = λ s. some s }

abbrev open_to_all : AuthConfig
open_to_all = record {
  enabled = false;
  anonymous_pull = true;
  jwt_secret = none;
  basic_credentials = [];
}

abbrev locked : AuthConfig
locked = record open_to_all { enabled = true }

abbrev at_latest : Method → HttpRequest
at_latest method = record {
  request = record {
    method = method;
    path = codes "/v2/library/alpine/manifests/latest";
    authorization = none;
  };
  query = [];
  range = none;
  content_range = none;
  content_type = some text_plain;
  body = record { bytes = body; is_broken = false };
}

-- What a PUT stored, a GET returns.
put_get :
    let w = (handle env web draws plain open_to_all router (at_latest put) new_world).1 in
    (handle env web draws plain open_to_all router (at_latest get) w).0
    ≡ of_manifest (found text_plain 2 body_digest body)
unfolding registry_code handle Routes.route v2_fallback Manifests.get_manifest
    Manifests.put_manifest parse_query_param
put_get = refl

handle-unauthenticated_example :
    let w' = (handle env web draws plain locked router (at_latest get) new_world).1 in
    OnlyPulls no_tables w'.db.tables × (w'.fs.files ≡ [])
unfolding extract_auth_info
handle-unauthenticated_example =
    handle-unauthenticated env web draws plain locked router (at_latest get) new_world refl refl
