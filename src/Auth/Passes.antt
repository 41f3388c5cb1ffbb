-- ===== src/Auth/Passes.antt =====
-- Who passes the middleware, by the header, the method and the path of the request.
use distribution_rs.Prelude.{
  true, false, Option, none, some, [], ◌∷◌, ◌++◌, ◌≡◌, ◌≢◌, ◌↔◌, ◌⊎◌, inl, inr, refl, sym, subst,
  arith, any, Option-cases,
}
use distribution_rs.Prelude.Text.{Text, codes, text_eq, strip_prefix}
use distribution_rs.Auth
use distribution_rs.Auth.{
  validate_bearer, validate_basic, AuthConfig, AuthInfo, Credentials, Method, get, head, Request,
  auth_middleware, extract_auth_info, is_read, is_data_plane,
}
use distribution_rs.Auth.Gate.{
  Open, HasBearer, HasBasic, auth_middleware_iff, extract_auth_info-authenticated,
}

-- The header has credentials that are accepted.
abbrev pub HasAccepted : Credentials → AuthConfig → Option (Option Text) → Type 0
HasAccepted c config header =
    (value : Text) × (header ≡ some (some value))
    × (HasBearer c config value ⊎ HasBasic c config value)

-- Who may pass: all where the authentication is off, who shows credentials that are accepted, and,
-- where anonymous pulls are on, a GET or HEAD of a path that begins with `/v2/`.
abbrev pub MayPass : Credentials → AuthConfig → Request → Type 0
MayPass c config req =
    (config.enabled ≡ false)
    ⊎ HasAccepted c config req.authorization
    ⊎ ((config.anonymous_pull ≡ true)
        × ((req.method ≡ get) ⊎ (req.method ≡ head))
        × ((rest : Text) × (req.path ≡ codes "/v2/" ++ rest)))

strip_prefix_iff : (p s r : Text) → (strip_prefix p s ≡ some r) ↔ (s ≡ p ++ r)
unfolding strip_prefix
strip_prefix_iff [] s r = ((λ h. cc), λ h. cc)
strip_prefix_iff (a ∷ p) [] r = ground arith
strip_prefix_iff (a ∷ p) (b ∷ s) r = ground (arith, strip_prefix_iff p s r)

is_read_iff : (m : Method) → (is_read m ≡ true) ↔ ((m ≡ get) ⊎ (m ≡ head))
is_read_iff m = ground arith

is_data_plane_iff :
    (path : Text) → (is_data_plane path ≡ true) ↔ ((rest : Text) × (path ≡ codes "/v2/" ++ rest))
is_data_plane_iff path = (
  λ h. elim (Option-cases (strip_prefix (codes "/v2/") path)) [
    | inl missing ↦ cc
    | inr (rest, e) ↦ (rest, (strip_prefix_iff (codes "/v2/") path rest).0 e)
  ],
  λ (rest, e). let found = (strip_prefix_iff (codes "/v2/") path rest).1 e in rw found,
)

-- Basic credentials are no bearer token.
no_bearer :
    (value encoded : Text)
    → strip_prefix (codes "Basic ") value ≡ some encoded
    → strip_prefix (codes "Bearer ") value ≡ none
unfolding strip_prefix
no_bearer value encoded e =
    subst (λ v. strip_prefix (codes "Bearer ") v ≡ none)
      (sym ((strip_prefix_iff (codes "Basic ") value encoded).0 e)) refl

module _ (c : Credentials) (config : AuthConfig) where
  bearer_complete :
      (token : Text)
      → token ≢ []
      → (config.jwt_secret ≡ none)
        ⊎ ((secret : Text) × (claims : Option Text) × (config.jwt_secret ≡ some secret)
            × (c.decode_jwt secret token ≡ some claims))
      → (Auth.non_empty c (validate_bearer c config) token).authenticated ≡ true
  unfolding validate_bearer
  bearer_complete [] some_ accepted = absurd (some_ refl)
  bearer_complete (k ∷ t) some_ (inl open_) = rw open_
  bearer_complete (k ∷ t) some_ (inr (secret, claims, e, decoded)) = ground arith

  basic_complete :
      (encoded x : Text)
      → encoded ≢ []
      → c.decode_base64 encoded ≡ some x
      → (config.basic_credentials ≡ []) ⊎ (any (λ k. text_eq k x) config.basic_credentials ≡ true)
      → (Auth.non_empty c (validate_basic c config) encoded).authenticated ≡ true
  unfolding validate_basic
  basic_complete [] x some_ decoded accepted = absurd (some_ refl)
  basic_complete (k ∷ t) x some_ decoded (inl open_) = ground arith
  basic_complete (k ∷ t) x some_ decoded (inr listed) = ground arith

  accepted_complete :
      (value : Text)
      → HasBearer c config value ⊎ HasBasic c config value
      → (Auth.from_bearer c config value (strip_prefix (codes "Bearer ") value)).authenticated
        ≡ true
  accepted_complete value (inl (token, e, some_, accepted)) =
      subst (λ o. (Auth.from_bearer c config value o).authenticated ≡ true) (sym e)
        (bearer_complete token some_ accepted)
  accepted_complete value (inr (encoded, x, e, some_, decoded, accepted)) =
      subst (λ o. (Auth.from_bearer c config value o).authenticated ≡ true)
        (sym (no_bearer value encoded e))
        (subst (λ o. (Auth.from_basic c config o).authenticated ≡ true) (sym e)
          (basic_complete encoded x some_ decoded accepted))

  extract_complete :
      (req : Request)
      → HasAccepted c config req.authorization
      → (extract_auth_info c config req).authenticated ≡ true
  unfolding extract_auth_info
  extract_complete req (value, shown, accepted) =
      subst
        (λ o. (extract_auth_info c config (record req { authorization = o })).authenticated ≡ true)
        (sym shown) (accepted_complete value accepted)

-- The middleware lets just those requests pass that may.
pub auth_middleware-MayPass :
    (c : Credentials) (config : AuthConfig) (req : Request)
    → ((info : AuthInfo) × (auth_middleware c config req ≡ some info)) ↔ MayPass c config req
auth_middleware-MayPass c config req = (passed, may)
  where
    passed : ((info : AuthInfo) × (auth_middleware c config req ≡ some info)) → MayPass c config req
    passed (info, e) = elim ((auth_middleware_iff c config req info).0 e).1 [
      | inl off ↦ inl off
      | inr (inl known) ↦ inr (inl (extract_auth_info-authenticated c config req known))
      | inr (inr (pulls, reads, below)) ↦
          inr (inr (pulls, (is_read_iff req.method).0 reads, (is_data_plane_iff req.path).0 below))
    ]

    passes : Open c config req → (info : AuthInfo) × (auth_middleware c config req ≡ some info)
    passes open_ =
        (extract_auth_info c config req, (auth_middleware_iff c config req _).1 (refl, open_))

    may : MayPass c config req → (info : AuthInfo) × (auth_middleware c config req ≡ some info)
    may (inl off) = passes (inl off)
    may (inr (inl shown)) = passes (inr (inl (extract_complete c config req shown)))
    may (inr (inr (pulls, reads, below))) =
        passes (
          inr (inr (pulls, (is_read_iff req.method).1 reads, (is_data_plane_iff req.path).1 below)))
