-- ===== src/Registry/Calls/UploadCalls.antt =====
-- The operations on uploads and on jobs keep what each statement keeps.
use distribution_rs.Prelude.{ℕ, Option, none, some, List, [], ◌∷◌, Result, ok, err}
use distribution_rs.Prelude.Text.{Text}
use distribution_rs.Exec.Keeps.{Keeps, Keeps-bind, Keeps-raise, Keeps-pure}
use distribution_rs.Database.{Tables, UploadSession, GcJob}
use distribution_rs.Database.Rules.{OnTables, OnTables-select, OnTables-transaction}
use distribution_rs.Registry.{Env}
use distribution_rs.Registry.Gc
use distribution_rs.Registry.Rules.{InDb, InDb-on_db}
use distribution_rs.Registry.Uploads
use distribution_rs.Storage.Files.{Reader}
use distribution_rs.Types.Digest.{Digest}
use distribution_rs.Types.Error.{TypesError}
use distribution_rs.Types.Ids.{TenantId, UploadId}
use distribution_rs.Types.RepoName.{RepoName}
use distribution_rs.Registry.Calls.Closed.{Closed, base_rules, repo_rules, Keeps-ensure_repository}

module _ (env : Env) (P : Tables → Type 0) (c : Closed env P) where
  Keeps-require_upload :
      (t : TenantId) (n : RepoName) (i : UploadId)
      → Keeps (InDb P) (Uploads.require_upload env t n i)
  unfolding Uploads.require_upload
  Keeps-require_upload t n i = search repo_rules depth 8

  pub Keeps-start_upload :
      (f : UploadId) (now : Text) (t : TenantId) (n : RepoName)
      → Keeps (InDb P) (Uploads.start_upload env f now t n)
  unfolding Uploads.start_upload
  Keeps-start_upload f now t n =
      Keeps-bind _ _ (Keeps-ensure_repository env P c t n)
        λ i. search (base_rules, c.insert_session) depth 7

  pub Keeps-get_upload_status :
      (t : TenantId) (n : RepoName) (i : UploadId)
      → Keeps (InDb P) (Uploads.get_upload_status env t n i)
  unfolding Uploads.get_upload_status
  Keeps-get_upload_status t n i = search (base_rules, Keeps-require_upload)

  Keeps-write_chunk_at :
      (now : Text) (i : UploadId) (r : Reader) (o : ℕ) (s : UploadSession)
      → Keeps (InDb P) (Uploads.write_chunk_at env now i r o s)
  unfolding Uploads.write_chunk_at
  Keeps-write_chunk_at now i r o s = search (base_rules, c.update_session) depth 8

  pub Keeps-write_upload_chunk :
      (now : Text) (t : TenantId) (n : RepoName) (i : UploadId) (r : Reader) (o : ℕ)
      → Keeps (InDb P) (Uploads.write_upload_chunk env now t n i r o)
  unfolding Uploads.write_upload_chunk
  Keeps-write_upload_chunk now t n i r o =
      search (Keeps-bind, Keeps-require_upload, Keeps-write_chunk_at)

  Keeps-link_and_close :
      (s : UploadSession) (d : Digest) (z : ℕ)
      → Keeps (OnTables P) (Uploads.link_and_close env s d z)
  unfolding Uploads.link_and_close
  Keeps-link_and_close s d z = search (base_rules, c.upsert_link, c.delete_session)

  Keeps-finish_upload :
      (i : UploadId) (d : Digest) (s : UploadSession) (e : Digest)
      → Keeps (InDb P) (Uploads.finish_upload env i d s e)
  unfolding Uploads.finish_upload
  Keeps-finish_upload i d s e = search (base_rules, Keeps-link_and_close) depth 8

  pub Keeps-complete_upload :
      (t : TenantId) (n : RepoName) (i : UploadId) (d : Digest)
      → Keeps (InDb P) (Uploads.complete_upload env t n i d)
  unfolding Uploads.complete_upload
  Keeps-complete_upload t n i d =
      search (repo_rules, Keeps-require_upload, Keeps-finish_upload) depth 8

  pub Keeps-cancel_upload :
      (t : TenantId) (n : RepoName) (i : UploadId)
      → Keeps (InDb P) (Uploads.cancel_upload env t n i)
  unfolding Uploads.cancel_upload
  Keeps-cancel_upload t n i = search (repo_rules, Keeps-require_upload, c.delete_session) depth 8

  Keeps-insert_if_idle :
      (j now : Text) (o : Option GcJob) → Keeps (OnTables P) (Gc.insert_if_idle env j now o)
  unfolding Gc.insert_if_idle
  Keeps-insert_if_idle j now (some _) = Keeps-raise _
  Keeps-insert_if_idle j now none = Keeps-bind _ _ (c.insert_job _) λ _. Keeps-pure j

  pub Keeps-start_gc : (j now : Text) → Keeps (InDb P) (Gc.start_gc env j now)
  unfolding Gc.start_gc
  Keeps-start_gc j now =
      InDb-on_db _
        (OnTables-transaction _ (Keeps-bind _ _ (OnTables-select _) (Keeps-insert_if_idle j now)))

  Keeps-clean_sessions :
      (f : UploadId) (ss : List UploadSession) → Keeps (InDb P) (Gc.clean_sessions env f ss)
  unfolding Gc.clean_sessions
  Keeps-clean_sessions f [] = search base_rules
  Keeps-clean_sessions f (s ∷ ss) =
      Keeps-bind _ _ (search base_rules)
        λ _. Keeps-bind _ _ (InDb-on_db _ (c.delete_session s.id)) λ _. Keeps-clean_sessions f ss

  pub Keeps-run_gc : (f : UploadId) (s k e j : Text) → Keeps (InDb P) (Gc.run_gc env f s k e j)
  unfolding Gc.run_gc
  Keeps-run_gc f s k e j = Keeps-bind _ _ (InDb-on_db _ (c.update_job j _)) λ _.
      Keeps-bind _ _ (search base_rules) λ _.
        Keeps-bind _ _ (search base_rules)
          λ ss. Keeps-bind _ _ (Keeps-clean_sessions f ss) λ _. InDb-on_db _ (c.update_job j _)

  pub Keeps-mark_gc_failed : (now j : Text) → Keeps (InDb P) (Gc.mark_gc_failed env now j)
  unfolding Gc.mark_gc_failed
  Keeps-mark_gc_failed now j = InDb-on_db _ (c.update_job j _)

  pub Keeps-get_gc_job : (j : Text) → Keeps (InDb P) (Gc.get_gc_job env j)
  unfolding Gc.get_gc_job
  Keeps-get_gc_job j = search base_rules

module _ (env : Env) (P : Tables → Type 0) where
  Keeps-aborted : (r : Result TypesError UploadId) → Keeps (InDb P) (Gc.abort_parsed env r)
  unfolding Gc.abort_parsed
  Keeps-aborted (ok i) = search base_rules
  Keeps-aborted (err e) = search base_rules

  Keeps-abort_orphan :
      (s : Text) (o : Option UploadSession) → Keeps (InDb P) (Gc.abort_orphan env s o)
  unfolding Gc.abort_orphan
  Keeps-abort_orphan s (some _) = Keeps-pure tt
  Keeps-abort_orphan s none = Keeps-aborted _

  Keeps-abort_orphans : (ids : List Text) → Keeps (InDb P) (Gc.abort_orphans env ids)
  unfolding Gc.abort_orphans
  Keeps-abort_orphans [] = Keeps-pure tt
  Keeps-abort_orphans (s ∷ ids) =
      Keeps-bind _ _ (search base_rules)
        λ o. Keeps-bind _ _ (Keeps-abort_orphan s o) λ _. Keeps-abort_orphans ids

  pub Keeps-startup_cleanup : Keeps (InDb P) (Gc.startup_cleanup env)
  unfolding Gc.startup_cleanup
  Keeps-startup_cleanup = search (base_rules, Keeps-abort_orphans)
