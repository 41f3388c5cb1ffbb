-- ===== src/Api/Requests.antt =====
-- What the handlers of src/api read of a request, and what they take from axum and
-- form_urlencoded.
use distribution_rs.Prelude.{ℕ, ◌≤◌, Option, none, some, List, [], ◌∷◌, ◌≡◌, length, if◌then◌else◌}
use distribution_rs.Prelude.Text.{Text, text_eq}
use distribution_rs.Auth.{Request}
use distribution_rs.Storage.Files.{Bytes, Reader}
use distribution_rs.Types.Ids.{UploadId}

-- A request. A header is there where its value is visible ASCII; a `Content-Range` that is not
-- counts as empty. The query is empty where the URI has none.
pub record HttpRequest : Type 0 where
  pub request : Request
  pub query : Text
  pub range : Option Text
  pub content_range : Option Text
  pub content_type : Option Text
  pub body : Reader

-- The time, the random names and the random ids that a request draws.
pub record Draws : Type 0 where
  pub now : Text
  pub uuid : Text
  pub upload_id : UploadId
  pub job_id : Text

-- `form_urlencoded::parse`, and `axum::body::to_bytes`, which fails where the body breaks off or is
-- longer than the limit.
pub record Web : Type 0 where
  pub parse : Text → List (Text × Text)
  pub to_bytes : Reader → ℕ → Option Bytes
  pub to_bytes-eq-some :
      (r : Reader) (limit : ℕ) (b : Bytes)
      → to_bytes r limit ≡ some b
      → (b ≡ r.bytes) × (length b ≤ limit)

-- The value of the first pair with the key.
abbrev pub value_of : Text → List (Text × Text) → Option Text
value_of key [] = none
value_of key ((k, v) ∷ pairs) =
    let rest = value_of key pairs in if text_eq k key then some v else rest

-- `parse_query_param`
unfoldable pub parse_query_param : Web → Text → Text → Option Text
unfolding text_eq
parse_query_param web query key = value_of key (web.parse query)
