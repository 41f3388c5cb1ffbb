-- ===== src/Api/Server/Guarded.antt =====
-- What a request can do where the authentication is on and the request is not authenticated.
use distribution_rs.Prelude.{
  ℕ, Bool, true, false, Option, none, some, ◌≡◌, refl, inl, inr, ap, Result, ok, err,
}
use distribution_rs.Prelude.Text.{Text}
use distribution_rs.Api.Admin
use distribution_rs.Api.Dispatch.{
  Reply, answered, of_admin, found_reply, rest_reply, route_reply, manifest_reply, upload_reply,
  uploads_reply, blob_reply, tags_reply, referrers_reply, catalog_reply, v2_fallback,
}
use distribution_rs.Api.Requests.{HttpRequest, Draws, Web}
use distribution_rs.Api.Routes
use distribution_rs.Api.Routes.{Route, manifest, upload, uploads, blob, tags, referrers, catalog}
use distribution_rs.Api.Server.{
  Endpoint, healthz, readyz, get_info, start_gc, version_check, fallback, get_gc_job, Router,
  endpoint_reply, handle, guarded, is_guarded, let_through, allowed,
}
use distribution_rs.Api.Server.Reads.{
  Reads-blob, Reads-head_blob, Reads-manifest, Reads-head, Reads-upload, Reads-tags,
  Reads-referrers, Reads-catalog,
}
use distribution_rs.Auth.{
  Credentials, AuthConfig, AuthInfo, Method, get, head, post, put, patch, delete, extension,
  is_read, auth_middleware, extract_auth_info,
}
use distribution_rs.Auth.Gate.{auth_middleware_iff}
use distribution_rs.Database.{Tables}
use distribution_rs.Database.Rules.{OnTables, OnTables-select}
use distribution_rs.Error.{OciError}
use distribution_rs.Exec.Keeps.{Keeps, keeps_rules}
use distribution_rs.Registry.{World, Env, Reg}
use distribution_rs.Registry.Manifests as RegistryManifests
use distribution_rs.Registry.Pulls.{OnlyPulls, OnlyPulls-refl, OnlyPulls-count_pull}
use distribution_rs.Registry.Rules.{Both-on_db}
use distribution_rs.Registry.Reads.{Unwritten, Reads-get_gc_job}
use distribution_rs.Storage.Files.{Files}
use distribution_rs.Types.Ids.{TenantId}

module _ (env : Env) (P : Tables → Type 0) (fs : Files)
    (count : (i : ℕ) (d now : Text)
      → Keeps (OnTables P) (RegistryManifests.count_pull env i d now)) where
  -- A request that keeps the files and the property of the tables.
  record Quiet (f : World → Reply env × World) : Type 0 where
    from : (w : World) → Unwritten P fs w → Unwritten P fs (f w).1

  Quiet-answered :
      {A : Type 0} (f : A → Reply env) (m : Reg A)
      → Keeps (Unwritten P fs) m
      → Quiet (answered env f m)
  Quiet-answered f m k = record { from = k.at }

  Quiet-at_once : (r : Reply env) → Quiet (λ w. (r, w))
  Quiet-at_once r = record { from = λ w h. h }

  only_reads :
      (f : Method → World → Reply env × World)
      → Quiet (f get)
      → Quiet (f head)
      → (m : Method) → is_read m ≡ true
      → Quiet (f m)
  only_reads f g h get e = g
  only_reads f g h head e = h
  only_reads f g h post e = cc
  only_reads f g h put e = cc
  only_reads f g h patch e = cc
  only_reads f g h delete e = cc
  only_reads f g h (extension x) e = cc

  Quiet-readyz : Quiet (answered env (of_admin) Admin.readyz)
  unfolding Admin.readyz Admin.health_check
  Quiet-readyz =
      Quiet-answered of_admin Admin.readyz
        (search (keeps_rules, Both-on_db, OnTables-select) depth 7)

  module _ (web : Web) (draws : Draws) (tenant : TenantId) (req : HttpRequest) where
    Quiet-route_reply :
        (r : Route) (m : Method)
        → is_read m ≡ true
        → Quiet (route_reply env web draws tenant req r m)
    unfolding route_reply manifest_reply upload_reply uploads_reply blob_reply tags_reply
        referrers_reply catalog_reply
    Quiet-route_reply (manifest n r) m e =
        only_reads (manifest_reply env web draws tenant req n r)
          (Quiet-answered _ _ (Reads-manifest env P fs tenant n count draws.now r))
          (Quiet-answered _ _ (Reads-head env P fs tenant n count r)) m e
    Quiet-route_reply (upload n i) m e =
        only_reads (upload_reply env web draws tenant req n i)
          (Quiet-answered _ _ (Reads-upload env P fs tenant n count i)) (Quiet-at_once _) m e
    Quiet-route_reply (uploads n) m e =
        only_reads (uploads_reply env web draws tenant req n) (Quiet-at_once _) (Quiet-at_once _) m
          e
    Quiet-route_reply (blob n d) m e =
        only_reads (blob_reply env web draws tenant req n d)
          (Quiet-answered _ _ (Reads-blob env P fs tenant n count d req.range))
          (Quiet-answered _ _ (Reads-head_blob env P fs tenant n count d)) m e
    Quiet-route_reply (tags n) m e =
        only_reads (tags_reply env web draws tenant req n)
          (Quiet-answered _ _ (Reads-tags env P fs tenant n count _ _)) (Quiet-at_once _) m e
    Quiet-route_reply (referrers n d) m e =
        only_reads (referrers_reply env web draws tenant req n d)
          (Quiet-answered _ _ (Reads-referrers env P fs tenant n count d _)) (Quiet-at_once _) m e
    Quiet-route_reply catalog m e =
        only_reads (catalog_reply env web draws tenant req)
          (Quiet-answered _ _ (Reads-catalog env P fs tenant _ _)) (Quiet-at_once _) m e

    Quiet-found_reply :
        (o : Option (Result OciError Route))
        → is_read req.request.method ≡ true
        → Quiet (found_reply env web draws tenant req o)
    Quiet-found_reply none e = Quiet-at_once _
    Quiet-found_reply (some (err x)) e = Quiet-at_once _
    Quiet-found_reply (some (ok r)) e = Quiet-route_reply r req.request.method e

    Quiet-rest_reply :
        (o : Option Text)
        → is_read req.request.method ≡ true
        → Quiet (rest_reply env web draws tenant req o)
    Quiet-rest_reply none e = Quiet-at_once _
    Quiet-rest_reply (some rest) e = Quiet-found_reply (Routes.route env.uuids rest) e

  module _ (web : Web) (draws : Draws) (req : HttpRequest) where
    Quiet-v2_fallback :
        (x : AuthInfo) → is_read req.request.method ≡ true → Quiet (v2_fallback env web draws x req)
    unfolding v2_fallback
    Quiet-v2_fallback x e = Quiet-rest_reply web draws x.tenant req _ e

    -- An endpoint behind the middleware, for a request that reads.
    Quiet-allowed :
        (e : Endpoint) (fits : Bool) (x : AuthInfo)
        → is_read req.request.method ≡ true
        → (e ≡ start_gc → fits ≡ true → req.request.method ≡ post)
        → Quiet (allowed env web draws fits e x req)
    unfolding endpoint_reply Admin.get_gc_job
    Quiet-allowed e false x reads no_gc = Quiet-at_once _
    Quiet-allowed healthz true x reads no_gc = Quiet-at_once _
    Quiet-allowed readyz true x reads no_gc = Quiet-readyz
    Quiet-allowed get_info true x reads no_gc = Quiet-at_once _
    Quiet-allowed start_gc true x reads no_gc =
        let e : req.request.method ≡ post = no_gc refl refl in
        let bad : is_read req.request.method ≡ false = ap is_read e in cc
    Quiet-allowed version_check true x reads no_gc = Quiet-at_once _
    Quiet-allowed fallback true x reads no_gc = Quiet-v2_fallback x reads
    Quiet-allowed (get_gc_job id) true x reads no_gc =
        Quiet-answered of_admin (Admin.get_gc_job env id) (search (keeps_rules, Reads-get_gc_job))

    -- The endpoints that the middleware does not guard.
    Quiet-unguarded :
        (e : Endpoint) (fits : Bool) (x : AuthInfo)
        → is_guarded e ≡ false
        → Quiet (allowed env web draws fits e x req)
    unfolding endpoint_reply
    Quiet-unguarded e false x open_ = Quiet-at_once _
    Quiet-unguarded healthz true x open_ = Quiet-at_once _
    Quiet-unguarded readyz true x open_ = Quiet-readyz
    Quiet-unguarded get_info true x open_ = cc
    Quiet-unguarded start_gc true x open_ = cc
    Quiet-unguarded version_check true x open_ = cc
    Quiet-unguarded fallback true x open_ = cc
    Quiet-unguarded (get_gc_job id) true x open_ = cc

    module _ (c : Credentials) (config : AuthConfig) (on : config.enabled ≡ true)
        (unknown : (extract_auth_info c config req.request).authenticated ≡ false) where
      -- What the middleware lets through only reads.
      let_through-reads :
          (x : AuthInfo)
          → auth_middleware c config req.request ≡ some x
          → is_read req.request.method ≡ true
      let_through-reads x e = elim ((auth_middleware_iff c config req.request x).0 e).1 [
        | inl off ↦ cc
        | inr (inl known) ↦ cc
        | inr (inr (_, reads, _)) ↦ reads
      ]

      Quiet-let_through :
          (e : Endpoint) (fits : Bool) (o : Option AuthInfo)
          → auth_middleware c config req.request ≡ o
          → (e ≡ start_gc → fits ≡ true → req.request.method ≡ post)
          → Quiet (let_through env web draws e fits req o)
      Quiet-let_through e fits none passed no_gc = Quiet-at_once _
      Quiet-let_through e fits (some x) passed no_gc =
          Quiet-allowed e fits x (let_through-reads x passed) no_gc

      Quiet-guarded :
          (e : Endpoint) (fits : Bool) (b : Bool)
          → is_guarded e ≡ b
          → (e ≡ start_gc → fits ≡ true → req.request.method ≡ post)
          → Quiet (guarded env web draws b c config e fits req)
      Quiet-guarded e fits true h no_gc = Quiet-let_through e fits _ refl no_gc
      Quiet-guarded e fits false h no_gc = Quiet-unguarded e fits _ h

      Quiet-handle : (router : Router) → Quiet (handle env web draws c config router req)
      unfolding handle
      Quiet-handle router =
          Quiet-guarded (router.matched req.request).0 (router.matched req.request).1 _ refl
            λ e fits. router.matched-start_gc req.request (cc)

-- Where the authentication is on, a request without accepted credentials leaves all files as they
-- are, and all tables but the pull statistics of the tags, whatever it asks for and whatever fails.
pub handle-unauthenticated :
    (env : Env) (web : Web) (draws : Draws) (c : Credentials) (config : AuthConfig)
    (router : Router) (req : HttpRequest) (w : World)
    → config.enabled ≡ true
    → (extract_auth_info c config req.request).authenticated ≡ false
    → let w' = (handle env web draws c config router req w).1 in
      OnlyPulls w.db.tables w'.db.tables × (w'.fs.files ≡ w.fs.files)
handle-unauthenticated env web draws c config router req w on unknown =
    let quiet : Quiet env (OnlyPulls w.db.tables) w.fs.files (OnlyPulls-count_pull env w.db.tables)
        (handle env web draws c config router req) =
      Quiet-handle env (OnlyPulls w.db.tables) w.fs.files (OnlyPulls-count_pull env w.db.tables) web
        draws req c config on unknown router in
    let kept : Unwritten (OnlyPulls w.db.tables) w.fs.files
        (handle env web draws c config router req w).1 =
      quiet.from w (record {
        tables_kept = record { tables_at = OnlyPulls-refl w.db.tables };
        files_kept = record { are = refl };
      }) in
    (kept.tables_kept.tables_at, kept.files_kept.are)
