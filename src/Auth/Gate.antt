-- ===== src/Auth/Gate.antt =====
-- What the middleware lets through.
use distribution_rs.Prelude.{
  Bool, true, false, not, ◌&&◌, Option, none, some, [], ◌∷◌, ◌≡◌, ◌≢◌, ◌↔◌, ◌⊎◌, inl, inr, refl,
  sym, arith, any, Option-cases, if◌then◌else◌,
}
use distribution_rs.Prelude.Text.{Text, codes, text_eq, strip_prefix}
use distribution_rs.Auth
use distribution_rs.Auth.{
  validate_bearer, validate_basic, AuthConfig, AuthInfo, Credentials, Method, Request,
  auth_middleware, extract_auth_info, is_read, is_data_plane,
}

-- What the middleware tests.
abbrev pub Open : Credentials → AuthConfig → Request → Type 0
Open c config req =
    (config.enabled ≡ false)
    ⊎ ((extract_auth_info c config req).authenticated ≡ true)
    ⊎ ((config.anonymous_pull ≡ true)
        × (is_read req.method ≡ true)
        × (is_data_plane req.path ≡ true))

-- A request goes on, with the info that was extracted, just where one of the tests passes.
pub auth_middleware_iff :
    (c : Credentials) (config : AuthConfig) (req : Request) (info : AuthInfo)
    → (auth_middleware c config req ≡ some info)
      ↔ ((info ≡ extract_auth_info c config req) × Open c config req)
unfolding auth_middleware extract_auth_info
auth_middleware_iff c config req info =
    go (extract_auth_info c config req) config.enabled config.anonymous_pull (is_read req.method)
      (is_data_plane req.path)
  where
    go :
        (x : AuthInfo) (e a r d : Bool)
        → ((if e && not x.authenticated && not (a && r && d) then none else some x) ≡ some info) ↔ (
            (info ≡ x)
            × ((e ≡ false) ⊎ (x.authenticated ≡ true) ⊎ ((a ≡ true) × (r ≡ true) × (d ≡ true))))
    go x e a r d = ground arith

-- The request has a bearer token that is accepted: any that is not empty where no secret is
-- configured, else one that the secret decodes.
abbrev pub HasBearer : Credentials → AuthConfig → Text → Type 0
HasBearer c config value =
    (token : Text) × (strip_prefix (codes "Bearer ") value ≡ some token)
    × (token ≢ [])
    × ((config.jwt_secret ≡ none)
        ⊎ ((secret : Text) × (claims : Option Text) × (config.jwt_secret ≡ some secret)
            × (c.decode_jwt secret token ≡ some claims)))

-- The request has basic credentials that are accepted: any that decode where none are configured,
-- else one of those.
abbrev pub HasBasic : Credentials → AuthConfig → Text → Type 0
HasBasic c config value =
    (encoded : Text) × (x : Text) × (strip_prefix (codes "Basic ") value ≡ some encoded)
    × (encoded ≢ [])
    × (c.decode_base64 encoded ≡ some x)
    × ((config.basic_credentials ≡ []) ⊎ (any (λ k. text_eq k x) config.basic_credentials ≡ true))

module _ (c : Credentials) (config : AuthConfig) where
  bearer_sound :
      (token : Text)
      → (validate_bearer c config token).authenticated ≡ true
      → (config.jwt_secret ≡ none)
        ⊎ ((secret : Text) × (claims : Option Text) × (config.jwt_secret ≡ some secret)
            × (c.decode_jwt secret token ≡ some claims))
  unfolding validate_bearer
  bearer_sound token h = go config.jwt_secret refl h
    where
      go :
          (o : Option Text)
          → o ≡ config.jwt_secret
          → (Auth.bearer_with c o token).authenticated ≡ true
          → (config.jwt_secret ≡ none)
            ⊎ ((secret : Text) × (claims : Option Text) × (config.jwt_secret ≡ some secret)
                × (c.decode_jwt secret token ≡ some claims))
      go none e h = inl (sym e)
      go (some secret) e h = elim (Option-cases (c.decode_jwt secret token)) [
        | inl bad ↦ ground arith
        | inr (claims, good) ↦ inr (secret, claims, sym e, good)
      ]

  basic_sound :
      (encoded : Text)
      → (validate_basic c config encoded).authenticated ≡ true
      → (x : Text) × (c.decode_base64 encoded ≡ some x)
        × ((config.basic_credentials ≡ [])
            ⊎ (any (λ k. text_eq k x) config.basic_credentials ≡ true))
  unfolding validate_basic
  basic_sound encoded h = ground arith

  -- Who is authenticated has shown a bearer token or basic credentials that are accepted.
  pub extract_auth_info-authenticated :
      (req : Request)
      → (extract_auth_info c config req).authenticated ≡ true
      → (value : Text) × (req.authorization ≡ some (some value))
        × (HasBearer c config value ⊎ HasBasic c config value)
  unfolding extract_auth_info
  extract_auth_info-authenticated req h = go req.authorization h
    where
      basic :
          (value : Text) (o : Option Text)
          → strip_prefix (codes "Basic ") value ≡ o
          → (Auth.from_basic c config o).authenticated ≡ true
          → HasBasic c config value
      basic value none e h = ground arith
      basic value (some []) e h = ground arith
      basic value (some (k ∷ t)) e h =
          let (x, decoded, accepted) = basic_sound (k ∷ t) h in
          (k ∷ t, x, e, (λ bad. cc), decoded, accepted)

      either :
          (value : Text) (o : Option Text)
          → strip_prefix (codes "Bearer ") value ≡ o
          → (Auth.from_bearer c config value o).authenticated ≡ true
          → HasBearer c config value ⊎ HasBasic c config value
      either value (some []) e h = ground arith
      either value (some (k ∷ t)) e h = inl (k ∷ t, e, (λ bad. cc), bearer_sound (k ∷ t) h)
      either value none e h = inr (basic value _ refl h)

      go :
          (o : Option (Option Text))
          → (extract_auth_info c config (record req { authorization = o })).authenticated ≡ true
          → (value : Text) × (o ≡ some (some value))
            × (HasBearer c config value ⊎ HasBasic c config value)
      go none h = ground arith
      go (some none) h = ground arith
      go (some (some value)) h = (value, refl, either value _ refl h)
