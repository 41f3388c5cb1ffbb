-- ===== src/Registry/Calls/Closed.antt =====
-- The induction: what each statement of the registry keeps, each call keeps.
use distribution_rs.Prelude.{ℕ, Option, none, some, Result, ok, err}
use distribution_rs.Prelude.Text.{Text}
use distribution_rs.Exec.Keeps.{Keeps, Keeps-bind, Keeps-raise, Keeps-pure, keeps_rules}
use distribution_rs.Database.{Tables, RepoBlobLink, UploadSession, GcJob, transaction, Repository}
use distribution_rs.Database.Rules.{OnTables, OnTables-select, OnTables-transaction}
use distribution_rs.Registry.{Env, compute_digest, computed_digest, Hash}
use distribution_rs.Registry.Blobs
use distribution_rs.Registry.Gc
use distribution_rs.Registry.Manifests
use distribution_rs.Registry.Repositories
use distribution_rs.Registry.Rules.{InDb, InDb-on_db, InDb-on_storage}
use distribution_rs.Registry.Uploads
use distribution_rs.Storage.Files.{Bytes, Reader}
use distribution_rs.Types.Digest.{Digest}
use distribution_rs.Types.Error.{TypesError}
use distribution_rs.Types.Ids.{TenantId}
use distribution_rs.Types.Reference.{Reference}
use distribution_rs.Types.RepoName.{RepoName}

-- `P` is kept by each statement, and by each transaction as a whole.
pub record Closed (env : Env) (P : Tables → Type 0) : Type 0 where
  pub insert_repo :
      (t : TenantId) (n : RepoName) → Keeps (OnTables P) (Repositories.insert_repo env t n)
  pub upsert_link : (l : RepoBlobLink) → Keeps (OnTables P) (Blobs.upsert_link env l)
  pub delete_links : (i : ℕ) (d : Text) → Keeps (OnTables P) (Blobs.delete_links env i d)
  pub count_pull : (i : ℕ) (d now : Text) → Keeps (OnTables P) (Manifests.count_pull env i d now)
  pub record_manifest :
      (now : Text) (i : ℕ) (r : Reference) (d m : Text) (b : Bytes)
      → Keeps (OnTables P) (Manifests.record_manifest env now i r d m b)
  pub delete_rows :
      (i : ℕ) (d : Text) → Keeps (OnTables P) (transaction (Manifests.delete_rows env i d))
  pub insert_session : (s : UploadSession) → Keeps (OnTables P) (Uploads.insert_session env s)
  pub update_session :
      (id : Text) (o : ℕ) (now : Text) → Keeps (OnTables P) (Uploads.update_session env id o now)
  pub delete_session : (id : Text) → Keeps (OnTables P) (Uploads.delete_session env id)
  pub insert_job : (j : GcJob) → Keeps (OnTables P) (Gc.insert_job env j)
  pub update_job : (id : Text) (f : GcJob → GcJob) → Keeps (OnTables P) (Gc.update_job env id f)

pub ruleset base_rules =
    (keeps_rules, InDb-on_db, InDb-on_storage, OnTables-select, OnTables-transaction)

module _ (env : Env) (P : Tables → Type 0) (c : Closed env P) where
  pub Keeps-require_repo :
      (t : TenantId) (n : RepoName) → Keeps (InDb P) (Repositories.require_repo env t n)
  unfolding Repositories.require_repo
  Keeps-require_repo t n = search base_rules

  Keeps-inserted_or_found :
      (t : TenantId) (n : RepoName) (o : Option ℕ)
      → Keeps (InDb P) (Repositories.inserted_or_found env t n o)
  unfolding Repositories.inserted_or_found
  Keeps-inserted_or_found t n (some id) = search base_rules
  Keeps-inserted_or_found t n none = search base_rules

  Keeps-found_or_inserted :
      (t : TenantId) (n : RepoName) (o : Option Repository)
      → Keeps (InDb P) (Repositories.found_or_inserted env t n o)
  unfolding Repositories.found_or_inserted
  Keeps-found_or_inserted t n (some row) = search base_rules
  Keeps-found_or_inserted t n none =
      Keeps-bind _ _ (search (base_rules, c.insert_repo t n)) (Keeps-inserted_or_found t n)

  pub Keeps-ensure_repository :
      (t : TenantId) (n : RepoName) → Keeps (InDb P) (Repositories.ensure_repository env t n)
  unfolding Repositories.ensure_repository
  Keeps-ensure_repository t n = search (base_rules, Keeps-found_or_inserted)

  Keeps-computed_digest : (r : Result TypesError Digest) → Keeps (InDb P) (computed_digest r)
  Keeps-computed_digest (ok d) = search base_rules
  Keeps-computed_digest (err e) = search base_rules

  pub Keeps-compute_digest : (h : Hash) (r : Reader) → Keeps (InDb P) (compute_digest h r)
  unfolding compute_digest
  Keeps-compute_digest h r = search (base_rules, Keeps-computed_digest)

pub ruleset repo_rules =
    (base_rules, Keeps-require_repo, Keeps-ensure_repository, Keeps-compute_digest)
