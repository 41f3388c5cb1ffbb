-- ===== src/Api/Server.antt =====
-- src/api/mod.rs, `router`: the endpoints, which of them the middleware guards, and what a request
-- does.
pub mod Reads
pub mod Guarded
use distribution_rs.Prelude.{Bool, true, false, Option, none, some, ◌≡◌}
use distribution_rs.Prelude.Text.{Text}
use distribution_rs.Api.Admin
use distribution_rs.Api.Admin.{version, info, healthy}
use distribution_rs.Api.Dispatch.{Reply, of_admin, status, answered, at_once, v2_fallback}
use distribution_rs.Api.Requests.{HttpRequest, Draws, Web}
use distribution_rs.Auth.{
  Credentials, AuthConfig, AuthInfo, Method, Request, get, head, post, auth_middleware,
}
use distribution_rs.Registry.{World, Env}
use distribution_rs.Types.Ids.{default_tenant}

-- The handlers of the router; `fallback` has all paths that no route matches.
pub data Endpoint : Type 0 where
  healthz readyz get_info start_gc version_check fallback : Endpoint
  get_gc_job : Text → Endpoint

-- The layers: the routes of the health are merged without the middleware.
abbrev pub is_guarded : Endpoint → Bool
is_guarded healthz = false
is_guarded readyz = false
is_guarded get_info = true
is_guarded start_gc = true
is_guarded version_check = true
is_guarded fallback = true
is_guarded (get_gc_job _) = true

-- The matching of `axum::Router`: the endpoint of a path, and whether its methods have that of the
-- request. A route of `get` takes HEAD too, and one of `post` only POST.
pub record Router : Type 0 where
  pub matched : Request → Endpoint × Bool
  pub matched-start_gc : (req : Request) → matched req ≡ (start_gc, true) → req.method ≡ post

module _ (env : Env) (web : Web) (draws : Draws) where
  unfoldable pub endpoint_reply : Endpoint → AuthInfo → HttpRequest → World → Reply env × World
  endpoint_reply healthz auth_info req = at_once env (of_admin healthy)
  endpoint_reply readyz auth_info req = answered env of_admin Admin.readyz
  endpoint_reply get_info auth_info req = at_once env (of_admin info)
  endpoint_reply start_gc auth_info req = answered env of_admin (Admin.start_gc env draws)
  endpoint_reply version_check auth_info req = at_once env (of_admin version)
  endpoint_reply (get_gc_job job_id) auth_info req =
      answered env of_admin (Admin.get_gc_job env job_id)
  endpoint_reply fallback auth_info req = v2_fallback env web draws auth_info req

  -- A path whose route has other methods is answered with 405.
  abbrev pub allowed : Bool → Endpoint → AuthInfo → HttpRequest → World → Reply env × World
  allowed true e auth_info req = endpoint_reply e auth_info req
  allowed false e auth_info req = at_once env (status 405)

  -- Behind the middleware: without an info the answer is 401.
  abbrev pub let_through :
      Endpoint → Bool → HttpRequest → Option AuthInfo → World → Reply env × World
  let_through e fits req none = at_once env (status 401)
  let_through e fits req (some auth_info) = allowed fits e auth_info req

  abbrev pub guarded :
      Bool → Credentials → AuthConfig → Endpoint → Bool → HttpRequest → World → Reply env × World
  guarded true c config e fits req = let_through e fits req (auth_middleware c config req.request)
  guarded false c config e fits req =
      allowed fits e (record { tenant = default_tenant; authenticated = false }) req

  -- What a request does.
  unfoldable pub handle :
      Credentials → AuthConfig → Router → HttpRequest → World → Reply env × World
  unfolding endpoint_reply auth_middleware
  handle c config router req =
      let (e, fits) = router.matched req.request in guarded (is_guarded e) c config e fits req
