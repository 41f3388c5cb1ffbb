-- ===== src/Registry/Gc.antt =====
-- src/registry.rs, the garbage collection jobs and the cleanup at the start.
pub mod Jobs
pub mod Startup
pub mod Sessions
pub mod Next
use distribution_rs.Prelude.{
  ℕ, zero, suc, ◌+◌, Bool, true, false, ◌||◌, Option, none, some, List, [], ◌∷◌, Result, ok, err,
  length, if◌then◌else◌,
}
use distribution_rs.Prelude.Text.{Text, text_eq}
use distribution_rs.Error.{RegistryError, oci, new, with_message, denied}
use distribution_rs.Exec.{Exec, pure, raise, attempt, ◌>>=◌, ◌>>◌}
use distribution_rs.Database.{
  GcStatus, pending, running, completed, failed, GcJob, RepoBlobLink, UploadSession, Tables, Sql,
  select, execute, execute_checked, transaction,
}
use distribution_rs.Registry.{Env, Reg, on_db, on_storage}
use distribution_rs.Registry.Uploads.{text_of, find_session, delete_session}
use distribution_rs.Storage.Filesystem
use distribution_rs.Types.Error.{TypesError}
use distribution_rs.Types.Ids.{UploadId, upload_id}

-- `status = "running" OR status = "pending"`
unfoldable pub is_active : GcJob → Bool
is_active job = elim job.status [
  | running ↦ true
  | pending ↦ true
  | completed ↦ false
  | failed ↦ false
]

unfoldable pub is_job : Text → GcJob → Bool
unfolding text_eq
is_job id job = text_eq job.id id

module _ (env : Env) where
  unfoldable pub find_active : Tables → Option GcJob
  unfolding is_active
  find_active t = (env.sql.table GcJob).one is_active t.gc_jobs

  abbrev pub insert_job_unless : GcJob → Tables → Option GcJob → Option Tables
  insert_job_unless job t (some _) = none
  insert_job_unless job t none = some (record t {
    gc_jobs =
        (env.sql.table GcJob).upsert (λ new old. is_job new.id old) (λ _ old. old) job t.gc_jobs;
  })

  -- INSERT: an id that is in use is refused.
  unfoldable pub insert_job : GcJob → Sql Unit
  unfolding is_job
  insert_job job =
      execute_checked
        λ t. insert_job_unless job t ((env.sql.table GcJob).one (is_job job.id) t.gc_jobs)

  -- `start_gc` behind the search for an active job
  unfoldable pub insert_if_idle : Text → Text → Option GcJob → Sql Text
  insert_if_idle job_id now (some _) =
      raise (oci (with_message (new denied) "GC job already running"))
  insert_if_idle job_id now none = do
    insert_job (record {
      id = job_id;
      status = pending;
      started_at = none;
      completed_at = none;
      stats = none;
      created_at = now;
    })
    pure job_id

  -- `job_id` is the text of the UUID that is drawn.
  unfoldable pub start_gc : Text → Text → Reg Text
  start_gc job_id now =
      on_db (transaction do active ← select find_active; insert_if_idle job_id now active)

  -- UPDATE gc_jobs SET … WHERE id
  unfoldable pub update_job : Text → (GcJob → GcJob) → Sql Unit
  unfolding is_job
  update_job id change =
      execute
        (λ t. record t { gc_jobs = (env.sql.table GcJob).update (is_job id) change t.gc_jobs })
        (λ _. tt)

  abbrev pub or_fresh : {E : Type 0} → Result E UploadId → UploadId → UploadId
  or_fresh (ok id) fresh = id
  or_fresh (err _) fresh = fresh

  -- The loop over the expired sessions. `fresh` is drawn where an id cannot be parsed.
  unfoldable pub clean_sessions : UploadId → List UploadSession → Reg Unit
  clean_sessions fresh [] = pure tt
  clean_sessions fresh (session ∷ sessions) = do
    attempt (
        on_storage
          (Filesystem.abort_upload (text_of env (or_fresh (upload_id env.uuids session.id) fresh))))
    on_db (delete_session env session.id)
    clean_sessions fresh sessions

  -- Not updated since the cutoff.
  unfoldable pub expired : Text → Tables → List UploadSession
  expired cutoff t =
      (env.sql.table UploadSession).all (λ s. env.sql.before s.updated_at cutoff) t.uploads

  -- `started`, `cutoff` (24 hours before) and `ended` are read off the clock.
  unfoldable pub run_gc : UploadId → Text → Text → Text → Text → Reg Unit
  run_gc fresh started cutoff ended job_id = do
    on_db (update_job job_id (λ job. record job { status = running; started_at = some started }))
    on_db (select (λ t. (env.sql.table RepoBlobLink).all (λ _. true) t.links))
    sessions ← on_db (select (expired cutoff))
    clean_sessions fresh sessions
    on_db (
        update_job job_id (λ job. record job {
          status = completed;
          completed_at = some ended;
          stats = some (length sessions);
        }))

  unfoldable pub mark_gc_failed : Text → Text → Reg Unit
  mark_gc_failed now job_id =
      on_db (update_job job_id (λ job. record job { status = failed; completed_at = some now }))

  unfoldable pub get_gc_job : Text → Reg (Option GcJob)
  unfolding is_job
  get_gc_job job_id = on_db (select (λ t. (env.sql.table GcJob).one (is_job job_id) t.gc_jobs))

  -- A name that is no UUID is passed over.
  unfoldable pub abort_parsed : Result {0, 0} TypesError UploadId → Reg Unit
  abort_parsed (err _) = pure tt
  abort_parsed (ok uid) = do
    attempt (on_storage (Filesystem.abort_upload (text_of env uid)))
    pure tt

  -- An upload file with no session is removed.
  unfoldable pub abort_orphan : Text → Option UploadSession → Reg Unit
  abort_orphan id_str (some _) = pure tt
  abort_orphan id_str none = abort_parsed (upload_id env.uuids id_str)

  -- The loop over the ids that are in the storage.
  unfoldable pub abort_orphans : List Text → Reg Unit
  abort_orphans [] = pure tt
  abort_orphans (id_str ∷ ids) = do
    session ← on_db (select (find_session env id_str))
    abort_orphan id_str session
    abort_orphans ids

  unfoldable pub startup_cleanup : Reg Unit
  startup_cleanup = do
    on_storage Filesystem.cleanup_tmp
    ids ← on_storage Filesystem.list_upload_ids
    abort_orphans ids
