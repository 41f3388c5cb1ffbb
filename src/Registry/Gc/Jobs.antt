-- ===== src/Registry/Gc/Jobs.antt =====
-- src/registry.rs: when `start_gc` starts a job.
use distribution_rs.Prelude.{
  false, Option, none, some, ◌≡◌, refl, sym, ap, ok, In, subst, ◌⊎◌, inl, inr, arith,
}
use distribution_rs.Prelude.Text.{Text}
use distribution_rs.Exec.Ensures.{Ensures, Ensures-bind, Ensures-pure, Ensures-raise}
use distribution_rs.Database.{GcJob, GcStatus, pending, running, completed, failed, Tables}
use distribution_rs.Database.Rules.{OnTables, Ensures-select, Ensures-transaction}
use distribution_rs.Registry.{World, Env}
use distribution_rs.Registry.Calls.UploadCalls.{Keeps-startup_cleanup}
use distribution_rs.Registry.Gc.{is_active, find_active, insert_if_idle, start_gc, startup_cleanup}
use distribution_rs.Registry.Rules.{Ensures-on_db}

-- The job is neither running nor pending.
abbrev pub HasEnded : GcJob → Type 0
HasEnded job = (job.status ≡ completed) ⊎ (job.status ≡ failed)

-- Every job has ended.
unfoldable pub Idle : Tables → Type 0
Idle t = (job : GcJob) → In job t.gc_jobs → HasEnded job

inactive_HasEnded : (job : GcJob) → is_active job ≡ false → HasEnded job
unfolding is_active
inactive_HasEnded job h = go job.status refl h
  where
    go :
        (s : GcStatus)
        → job.status ≡ s
        → is_active (record job { status = s }) ≡ false
        → HasEnded job
    go pending e h = ground arith
    go running e h = ground arith
    go completed e h = inl e
    go failed e h = inr e

module _ (env : Env) where
  Ensures-insert_if_idle :
      (j now : Text) (t : Tables) (o : Option GcJob)
      → o ≡ find_active env t
      → Ensures
          (OnTables (λ _. Unit {0}))
          (insert_if_idle env j now o)
          (λ id. OnTables (λ _. (id ≡ j) × Idle t))
  unfolding insert_if_idle find_active Idle
  Ensures-insert_if_idle j now t (some _) e = Ensures-raise _
  Ensures-insert_if_idle j now t none e =
      Ensures-bind {Q = λ _. OnTables (λ _. Unit {0})}
        (record { at = λ s h a r. record { tables_at = tt } })
        λ _. Ensures-pure j λ s h. record {
          tables_at = (
            refl,
            λ job at.
                inactive_HasEnded job
                  ((env.sql.table GcJob).one_complete is_active t.gc_jobs (sym e) job at),
          );
        }

  -- `start_gc` returns the id of the new job, and only where no job was running or pending.
  pub start_gc-Idle :
      (j now : Text) (w : World) (id : Text)
      → (start_gc env j now w).0 ≡ ok id
      → (id ≡ j) × Idle w.db.tables
  unfolding start_gc
  start_gc-Idle j now w id e =
      ((Ensures-on_db {P = λ x. x ≡ w.db.tables} {Q = λ i _. (i ≡ j) × Idle w.db.tables} (
          Ensures-transaction _ (
            Ensures-bind {Q = λ o. OnTables (λ _. o ≡ find_active env w.db.tables)}
              (Ensures-select _ λ t h. ap (find_active env) h)
              λ o. record {
                at = λ s h a r.
                    (Ensures-insert_if_idle j now w.db.tables o h.tables_at).at s
                      (record { tables_at = tt }) a r;
              }))).at
        w (record { db_at = refl }) id e).db_at

  -- Where a job is running or pending, as one is that the end of the process cut off, `start_gc`
  -- behind the cleanup at the start returns no job.
  pub start_gc-startup_cleanup :
      (w : World) (job : GcJob)
      → In job w.db.tables.gc_jobs
      → ¬ HasEnded job
      → (j now id : Text) → ¬ ((start_gc env j now (startup_cleanup env w).1).0 ≡ ok id)
  unfolding Idle
  start_gc-startup_cleanup w job at active j now id e =
      let (_, idle) = start_gc-Idle j now (startup_cleanup env w).1 id e in
      let same =
        ((Keeps-startup_cleanup env (λ t. t ≡ w.db.tables)).at w (record { db_at = refl })).db_at in
      active (idle job (subst (λ (t : Tables). In job t.gc_jobs) (sym same) at))
