-- ===== src/Error.antt =====
-- src/error.rs: the error codes of the distribution API and the answers that they become.
pub mod Laws
use distribution_rs.Prelude.{ℕ, Option, none, some, List, [], ◌∷◌}
use distribution_rs.Prelude.Text.{Text}
use distribution_rs.Types.Digest.{Digest}
use distribution_rs.Types.Error.{TypesError}
use Prim.Native.String.{String}

pub data ErrorCode : Type 0 where
  blob_unknown blob_upload_invalid blob_upload_unknown digest_invalid : ErrorCode
  manifest_blob_unknown manifest_invalid manifest_unknown : ErrorCode
  name_invalid name_unknown size_invalid : ErrorCode
  unauthorized denied unsupported too_many_requests : ErrorCode

-- The numbers of the `StatusCode` constants.
unfoldable pub status_code : ErrorCode → ℕ
status_code blob_unknown = 404
status_code blob_upload_unknown = 404
status_code manifest_blob_unknown = 404
status_code manifest_unknown = 404
status_code name_unknown = 404
status_code digest_invalid = 400
status_code manifest_invalid = 400
status_code name_invalid = 400
status_code size_invalid = 400
status_code blob_upload_invalid = 416
status_code unauthorized = 401
status_code denied = 403
status_code unsupported = 405
status_code too_many_requests = 429

unfoldable pub message : ErrorCode → String
message blob_unknown = "blob unknown to registry"
message blob_upload_invalid = "blob upload invalid"
message blob_upload_unknown = "blob upload unknown to registry"
message digest_invalid = "provided digest did not match uploaded content"
message manifest_blob_unknown = "manifest references a manifest or blob unknown to registry"
message manifest_invalid = "manifest invalid"
message manifest_unknown = "manifest unknown to registry"
message name_invalid = "invalid repository name"
message name_unknown = "repository name not known to registry"
message size_invalid = "provided length did not match content length"
message unauthorized = "authentication required"
message denied = "requested access to the resource is denied"
message unsupported = "the operation is unsupported"
message too_many_requests = "too many requests"

unfoldable pub as_str : ErrorCode → String
as_str blob_unknown = "BLOB_UNKNOWN"
as_str blob_upload_invalid = "BLOB_UPLOAD_INVALID"
as_str blob_upload_unknown = "BLOB_UPLOAD_UNKNOWN"
as_str digest_invalid = "DIGEST_INVALID"
as_str manifest_blob_unknown = "MANIFEST_BLOB_UNKNOWN"
as_str manifest_invalid = "MANIFEST_INVALID"
as_str manifest_unknown = "MANIFEST_UNKNOWN"
as_str name_invalid = "NAME_INVALID"
as_str name_unknown = "NAME_UNKNOWN"
as_str size_invalid = "SIZE_INVALID"
as_str unauthorized = "UNAUTHORIZED"
as_str denied = "DENIED"
as_str unsupported = "UNSUPPORTED"
as_str too_many_requests = "TOOMANYREQUESTS"

-- The JSON string of `detail`: a text of the request, or a message with the values that it shows.
pub data Detail : Type 0 where
  text : Text → Detail
  types_error : TypesError → Detail
  -- "body digest {digest} does not match reference {expected}"
  body_digest : Digest → Digest → Detail
  -- "computed {computed}, expected {digest}"
  computed : Digest → Digest → Detail
  -- "expected offset {}, got {offset}"
  offset : ℕ → ℕ → Detail
  -- "invalid Content-Range: {range_str}"
  content_range : Text → Detail
  -- "missing or invalid digest query param"
  digest_param : Detail
  -- the text of an error of `serde_json`, and of one of `axum::body::to_bytes`
  json_error body_error : Detail

pub record OciError : Type 0 where
  pub code : ErrorCode
  pub shown : String
  pub detail : Option Detail

-- `OciError::new`, `with_message` and `with_detail`
unfoldable pub new : ErrorCode → OciError
unfolding message
new code = record { code = code; shown = message code; detail = none }

unfoldable pub with_message : OciError → String → OciError
with_message e m = record e { shown = m }

unfoldable pub with_detail : OciError → Detail → OciError
with_detail e d = record e { detail = some d }

-- The constructors `OciError::digest_invalid(detail)`, …, which add a detail to a code.
unfoldable pub detailed : ErrorCode → Detail → OciError
unfolding new with_detail
detailed code d = with_detail (new code) d

-- Why a call of the file system failed.
pub data IoError : Type 0 where
  not_found other : IoError

-- `anyhow::Error`: a cause with the context that the storage adds.
pub data StorageError : Type 0 where
  context : String → IoError → StorageError
  bare : IoError → StorageError
  digest_error : TypesError → StorageError

-- `sea_orm::DbErr`
pub data DbErr : Type 0 where
  db_err : DbErr

pub data RegistryError : Type 0 where
  oci : OciError → RegistryError
  storage : StorageError → RegistryError
  database : DbErr → RegistryError

pub record ErrorEntry : Type 0 where
  pub code : ErrorCode
  pub shown : String
  pub detail : Option Detail

-- The status and the entries of `ErrorResponse`.
pub record ErrorAnswer : Type 0 where
  pub status : ℕ
  pub errors : List ErrorEntry

-- `OciError::into_response`
unfoldable pub oci_into_response : OciError → ErrorAnswer
unfolding status_code
oci_into_response e = record {
  status = status_code e.code;
  errors = record { code = e.code; shown = e.shown; detail = e.detail } ∷ [];
}

abbrev internal : ErrorAnswer
internal = record {
  status = 500;
  errors = record { code = blob_unknown; shown = "internal server error"; detail = none } ∷ [];
}

-- `RegistryError::into_response`
unfoldable pub into_response : RegistryError → ErrorAnswer
unfolding oci_into_response
into_response (oci e) = oci_into_response e
into_response (storage _) = internal
into_response (database _) = internal
