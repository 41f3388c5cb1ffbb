-- ===== src/Api/Admin.antt =====
-- src/api/admin.rs and src/api/v2.rs, and `healthz` and `readyz` of src/api/mod.rs.
pub mod Task
use distribution_rs.Prelude.{Bool, true, false, Option, none, some, Result, ok, err}
use distribution_rs.Prelude.Text.{Text}
use distribution_rs.Api.Requests.{Draws}
use distribution_rs.Error.{RegistryError, ErrorCode, oci, storage, database, denied}
use distribution_rs.Exec.{pure, raise, attempt, ◌>>=◌, ◌>>◌}
use distribution_rs.Database.{GcJob, select}
use distribution_rs.Registry.{Env, Reg, on_db}
use distribution_rs.Registry.Gc
use distribution_rs.Types.Ids.{UploadId}

-- `info` and `version` are constant; `not_found` is 404 and `conflict` 409.
pub data AdminAnswer : Type 0 where
  version info healthy : AdminAnswer
  accepted : Text → AdminAnswer
  conflict not_found unavailable : AdminAnswer
  job : GcJob → AdminAnswer

abbrev pub is_denied : ErrorCode → Bool
is_denied denied = true
is_denied _ = false

-- A refusal because a job is active is the answer 409.
abbrev pub refused : RegistryError → Reg AdminAnswer
refused (oci e) = elim (is_denied e.code) [ true ↦ pure conflict | false ↦ raise (oci e) ]
refused (storage e) = raise (storage e)
refused (database e) = raise (database e)

abbrev pub gc_started : Result {0, 0} RegistryError Text → Reg AdminAnswer
gc_started (ok id) = pure (accepted id)
gc_started (err e) = refused e

abbrev pub job_answer : Option GcJob → AdminAnswer
job_answer none = not_found
job_answer (some j) = job j

-- `Registry::health_check`
unfoldable pub health_check : Reg Unit
health_check = on_db (select (λ _. tt))

abbrev pub ready : Result {0, 0} RegistryError Unit → AdminAnswer
ready (ok _) = healthy
ready (err _) = unavailable

unfoldable pub readyz : Reg AdminAnswer
unfolding health_check
readyz = do result ← attempt health_check; pure (ready result)

module _ (env : Env) where
  -- Where it is `accepted`, `gc_task` runs after it.
  unfoldable pub start_gc : Draws → Reg AdminAnswer
  start_gc draws = do started ← attempt (Gc.start_gc env draws.job_id draws.now); gc_started started

  abbrev pub marked : Text → Text → Result {0, 0} RegistryError Unit → Reg Unit
  marked now jid (ok _) = pure tt
  marked now jid (err _) = do attempt (Gc.mark_gc_failed env now jid); pure tt

  -- The task that `start_gc` spawns. The times are read off the clock as in `run_gc`, and `now`
  -- where the job failed.
  unfoldable pub gc_task : UploadId → Text → Text → Text → Text → Text → Reg Unit
  gc_task fresh started cutoff ended now jid = do
    result ← attempt (Gc.run_gc env fresh started cutoff ended jid)
    marked now jid result

  unfoldable pub get_gc_job : Text → Reg AdminAnswer
  get_gc_job job_id = do found ← Gc.get_gc_job env job_id; pure (job_answer found)
