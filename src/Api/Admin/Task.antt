-- ===== src/Api/Admin/Task.antt =====
-- src/api/admin.rs: the task that `start_gc` spawns ends its job, so that the next one can start.
use distribution_rs.Prelude.{[], ◌≡◌, refl, ap, ◌∙◌, ok}
use distribution_rs.Prelude.Text.{Text}
use distribution_rs.Api.Admin.{gc_task, marked}
use distribution_rs.Exec.{attempt, pure, bind-ok}
use distribution_rs.Registry.{World, Env}
use distribution_rs.Registry.Gc
use distribution_rs.Registry.Gc.Next.{OthersEnded, run_gc-next}
use distribution_rs.Types.Ids.{UploadId}

module _ (env : Env) where
  task-run :
      (fresh : UploadId) (started cutoff finish later id : Text) (w : World)
      → (Gc.run_gc env fresh started cutoff finish id w).0 ≡ ok tt
      → (gc_task env fresh started cutoff finish later id w).1
        ≡ (Gc.run_gc env fresh started cutoff finish id w).1
  unfolding gc_task attempt pure
  task-run fresh started cutoff finish later id w returned =
      ap (λ x. x.1)
        (bind-ok (attempt (Gc.run_gc env fresh started cutoff finish id)) (marked env later id) w
          (Gc.run_gc env fresh started cutoff finish id w).1
          (Gc.run_gc env fresh started cutoff finish id w).0 refl)
      ∙ ap (λ r. (marked env later id r (Gc.run_gc env fresh started cutoff finish id w).1).1)
          returned

  -- Where no statement fails, the other jobs have ended and the id of the next one is new: behind
  -- the task of a job, whatever calls of the file system fail in it, `start_gc` starts the next job.
  pub gc_task-next :
      (fresh : UploadId) (started cutoff finish later id next now : Text) (w : World)
      → w.db.faults ≡ []
      → OthersEnded env id next w.db.tables
      → (Gc.start_gc env next now (gc_task env fresh started cutoff finish later id w).1).0
        ≡ ok next
  gc_task-next fresh started cutoff finish later id next now w healthy others =
      let (returned, next_starts) =
        run_gc-next env fresh started cutoff finish id next now w healthy others in
      ap (λ x. (Gc.start_gc env next now x).0)
        (task-run fresh started cutoff finish later id w returned)
      ∙ next_starts
