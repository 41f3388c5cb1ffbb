-- ===== src/Auth.antt =====
-- src/auth/middleware.rs: who a request comes from, and whether it goes on.
pub mod Gate
pub mod Passes
use distribution_rs.Prelude.{
  ℕ, Bool, true, false, not, ◌&&◌, ◌||◌, Option, none, some, List, [], ◌∷◌, Result, ok, err, any,
  if◌then◌else◌,
}
use distribution_rs.Prelude.Text.{Text, codes, text_eq, strip_prefix}
use distribution_rs.Types.Ids.{TenantId, default_tenant, tenant_id}
use distribution_rs.Types.Error.{TypesError}

-- `AuthConfig` of src/config.rs
pub record AuthConfig : Type 0 where
  pub enabled : Bool
  pub anonymous_pull : Bool
  pub jwt_secret : Option Text
  pub basic_credentials : List Text

-- `AuthInfo`
pub record AuthInfo : Type 0 where
  pub tenant : TenantId
  pub authenticated : Bool

-- What `jsonwebtoken` makes of a secret and a token: the `tenant_id` of the claims if the token is
-- valid. `base64` with `String::from_utf8`: the text that is encoded.
pub record Credentials : Type 0 where
  pub decode_jwt : Text → Text → Option (Option Text)
  pub decode_base64 : Text → Option Text

pub data Method : Type 0 where
  get head post put patch delete : Method
  extension : Text → Method

-- What the middleware reads of a request. A header whose value is no visible ASCII is `some none`.
pub record Request : Type 0 where
  pub method : Method
  pub path : Text
  pub authorization : Option (Option Text)

-- `AuthInfo::anonymous`
abbrev pub anonymous : AuthInfo
anonymous = record { tenant = default_tenant; authenticated = false }

abbrev pub as_default : AuthInfo
as_default = record { tenant = default_tenant; authenticated = true }

-- `.and_then(|t| t.parse().ok()).unwrap_or_else(default_tenant)`
abbrev pub parsed_or_default : Result {0, 0} TypesError TenantId → TenantId
parsed_or_default (ok t) = t
parsed_or_default (err _) = default_tenant

abbrev pub claimed : Option Text → TenantId
claimed none = default_tenant
claimed (some t) = parsed_or_default (tenant_id t)

-- An invalid token leaves the request anonymous.
abbrev pub decoded : Option (Option Text) → AuthInfo
decoded none = anonymous
decoded (some t) = record { tenant = claimed t; authenticated = true }

abbrev pub is_read : Method → Bool
is_read get = true
is_read head = true
is_read _ = false

abbrev pub is_some : Option Text → Bool
is_some none = false
is_some (some _) = true

-- `path.starts_with("/v2/")`
abbrev pub is_data_plane : Text → Bool
is_data_plane path = is_some (strip_prefix (codes "/v2/") path)

module _ (c : Credentials) where
  abbrev pub bearer_with : Option Text → Text → AuthInfo
  bearer_with none token = as_default
  bearer_with (some secret) token = decoded (c.decode_jwt secret token)

  unfoldable pub validate_bearer : AuthConfig → Text → AuthInfo
  validate_bearer config token = bearer_with config.jwt_secret token

  abbrev pub is_credential : AuthConfig → Text → Bool
  is_credential config x = any (λ k. text_eq k x) config.basic_credentials

  abbrev pub is_empty : List Text → Bool
  is_empty [] = true
  is_empty (_ ∷ _) = false

  abbrev pub basic_with : AuthConfig → Option Text → AuthInfo
  basic_with config none = anonymous
  basic_with config (some x) =
      if is_empty config.basic_credentials
      then as_default
      else if is_credential config x
      then as_default
      else anonymous

  unfoldable pub validate_basic : AuthConfig → Text → AuthInfo
  unfolding text_eq
  validate_basic config encoded = basic_with config (c.decode_base64 encoded)

  abbrev pub non_empty : (Text → AuthInfo) → Text → AuthInfo
  non_empty f [] = anonymous
  non_empty f (x ∷ s) = f (x ∷ s)

  abbrev pub from_basic : AuthConfig → Option Text → AuthInfo
  from_basic config none = anonymous
  from_basic config (some credentials) = non_empty (validate_basic config) credentials

  abbrev pub from_bearer : AuthConfig → Text → Option Text → AuthInfo
  from_bearer config value (some token) = non_empty (validate_bearer config) token
  from_bearer config value none = from_basic config (strip_prefix (codes "Basic ") value)

  unfoldable pub extract_auth_info : AuthConfig → Request → AuthInfo
  unfolding strip_prefix validate_bearer validate_basic
  extract_auth_info config req = elim req.authorization [
    | none ↦ anonymous
    | some none ↦ anonymous
    | some (some value) ↦ from_bearer config value (strip_prefix (codes "Bearer ") value)
  ]

  -- `none` is the answer 401; else the request goes on with the info.
  unfoldable pub auth_middleware : AuthConfig → Request → Option AuthInfo
  unfolding extract_auth_info strip_prefix
  auth_middleware config req =
      let auth_info = extract_auth_info config req in
      if config.enabled
        && not auth_info.authenticated
        && not (config.anonymous_pull && is_read req.method && is_data_plane req.path)
      then none
      else some auth_info
