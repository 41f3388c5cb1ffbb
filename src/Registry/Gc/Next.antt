-- ===== src/Registry/Gc/Next.antt =====
-- src/registry.rs and src/api/admin.rs: a garbage collection ends, and the next one can start.
use distribution_rs.Prelude.{
  false, none, List, [], ◌∷◌, ◌≡◌, ◌≢◌, refl, sym, ap, ◌∙◌, subst, ◌⊎◌, inl, inr, ok, In,
  Option-cases,
}
use distribution_rs.Prelude.Text.{Text, text_eq_iff}
use distribution_rs.Exec.{pure, ◌>>=◌, bind-ok}
use distribution_rs.Exec.Keeps.{Keeps, Keeps-bind, Keeps-attempt, Keeps-pure}
use distribution_rs.Exec.Reaches.{Reaches-bind, Reaches-pure}
use distribution_rs.Database.{
  Tables, Db, GcJob, UploadSession, completed, pending, select, execute_checked, transaction,
  next_fault, checked, closed,
}
use distribution_rs.Database.Rules.{OnTables, OnTables-select, OnTables-execute}
use distribution_rs.Registry.{World, Env, on_db}
use distribution_rs.Registry.Faults.{Total, Total-select, Total-execute, Total-attempt}
use distribution_rs.Registry.Gc
use distribution_rs.Registry.Gc.{is_active, is_job, find_active}
use distribution_rs.Registry.Gc.Jobs.{HasEnded}
use distribution_rs.Registry.Gc.Sessions.{run_gc-sessions}
use distribution_rs.Registry.Rules.{InDb, InDb-on_db, InDb-on_storage}
use distribution_rs.Registry.Uploads
use distribution_rs.Storage.Files.{Fs}
use distribution_rs.Types.Ids.{UploadId}

module _ (env : Env) where
  Total-clean_sessions :
      (fresh : UploadId) (ss : List UploadSession) → Total (Gc.clean_sessions env fresh ss)
  unfolding Gc.clean_sessions Uploads.delete_session
  Total-clean_sessions fresh [] = Reaches-pure tt λ w h. h
  Total-clean_sessions fresh (s ∷ ss) =
      Reaches-bind (Total-attempt _)
        λ _. Reaches-bind (Total-execute _ _) λ _. Total-clean_sessions fresh ss

  Total-run_gc :
      (fresh : UploadId) (started cutoff ended id : Text)
      → Total (Gc.run_gc env fresh started cutoff ended id)
  unfolding Gc.run_gc Gc.update_job
  Total-run_gc fresh started cutoff ended id = Reaches-bind (Total-execute _ _) λ _.
      Reaches-bind (Total-select _) λ _.
        Reaches-bind (Total-select _)
          λ sessions. Reaches-bind (Total-clean_sessions fresh sessions) λ _. Total-execute _ _

  module _ (id next : Text) where
    -- The other jobs have ended, and the id of the next one is not in use.
    abbrev pub OthersEnded : Tables → Type 0
    OthersEnded t = (j : GcJob) → In j t.gc_jobs → ((j.id ≡ id) ⊎ HasEnded j) × (j.id ≢ next)

    Keeps-update_job :
        (f : GcJob → GcJob)
        → ((j : GcJob) → (f j).id ≡ j.id)
        → Keeps (OnTables OthersEnded) (Gc.update_job env id f)
    unfolding Gc.update_job is_job
    Keeps-update_job f same = OnTables-execute _ _ λ t h j at.
        elim (((env.sql.table GcJob).update_iff _ _ t.gc_jobs j).0 at) [
          | inl (old, _) ↦ h j old
          | inr (s, at', hit, e) ↦
              let is : j.id ≡ s.id = ap (λ (z : GcJob). z.id) e ∙ same s in
              (inl (is ∙ (text_eq_iff s.id id).0 hit), λ bad. (h s at').1 (sym is ∙ bad))
        ]

    Keeps-delete_session : (s : Text) → Keeps (OnTables OthersEnded) (Uploads.delete_session env s)
    unfolding Uploads.delete_session
    Keeps-delete_session s = OnTables-execute _ _ λ t h. h

    Keeps-clean_sessions :
        (fresh : UploadId) (ss : List UploadSession)
        → Keeps (InDb OthersEnded) (Gc.clean_sessions env fresh ss)
    unfolding Gc.clean_sessions
    Keeps-clean_sessions fresh [] = Keeps-pure tt
    Keeps-clean_sessions fresh (s ∷ ss) = Keeps-bind _ _ (Keeps-attempt _ (InDb-on_storage _)) λ _.
        Keeps-bind _ _ (InDb-on_db _ (Keeps-delete_session s.id)) λ _. Keeps-clean_sessions fresh ss

    Keeps-run_gc :
        (fresh : UploadId) (started cutoff ended : Text)
        → Keeps (InDb OthersEnded) (Gc.run_gc env fresh started cutoff ended id)
    unfolding Gc.run_gc
    Keeps-run_gc fresh started cutoff ended =
        Keeps-bind _ _ (InDb-on_db _ (Keeps-update_job _ λ j. refl)) λ _.
          Keeps-bind _ _ (InDb-on_db _ (OnTables-select _)) λ _.
            Keeps-bind _ _ (InDb-on_db _ (OnTables-select _)) λ sessions.
              Keeps-bind _ _ (Keeps-clean_sessions fresh sessions)
                λ _. InDb-on_db _ (Keeps-update_job _ λ j. refl)

  -- The tables let the job start.
  abbrev Startable : Text → Tables → Type 0
  Startable next t =
      (find_active env t ≡ none) × ((env.sql.table GcJob).one (is_job next) t.gc_jobs ≡ none)

  abbrev at_rest : Tables → Db
  at_rest t = record { tables = t; faults = [] }

  abbrev new_job : Text → Text → GcJob
  new_job next now = record {
    id = next;
    status = pending;
    started_at = none;
    completed_at = none;
    stats = none;
    created_at = now;
  }

  inserted :
      (next now : Text) (t : Tables)
      → (env.sql.table GcJob).one (is_job next) t.gc_jobs ≡ none
      → Gc.insert_job env (new_job next now) (at_rest t)
        ≡ checked (at_rest t) (Gc.insert_job_unless env (new_job next now) t none)
  unfolding Gc.insert_job execute_checked next_fault
  inserted next now t unused =
      ap (λ o. checked (at_rest t) (Gc.insert_job_unless env (new_job next now) t o)) unused

  starts :
      (next now : Text) (t : Tables) (files : Fs)
      → Startable next t
      → (Gc.start_gc env next now (record { db = at_rest t; fs = files })).0 ≡ ok next
  unfolding Gc.start_gc on_db transaction select next_fault Gc.insert_if_idle pure ◌>>=◌ is_job
  starts next now t files (idle, unused) =
      ap
        (λ o.
          (closed t (Gc.insert_if_idle env next now o (at_rest t)).0
            (Gc.insert_if_idle env next now o (at_rest t)).1).0)
        idle
      ∙ ap (λ x. (closed t x.0 x.1).0)
          (bind-ok (Gc.insert_job env (new_job next now)) (λ _. pure next) (at_rest t) _ tt
            (inserted next now t unused))

  HasEnded-inactive : (j : GcJob) → HasEnded j → is_active j ≡ false
  unfolding is_active
  HasEnded-inactive j (inl e) = rw e
  HasEnded-inactive j (inr e) = rw e

  ended :
      (id next : Text) (t : Tables)
      → OthersEnded id next t
      → ((j : GcJob) → In j t.gc_jobs → j.id ≡ id → j.status ≡ completed)
      → Startable next t
  unfolding find_active is_job
  ended id next t others done = (
    elim (Option-cases ((env.sql.table GcJob).one is_active t.gc_jobs)) [
      | inl e ↦ e
      | inr (j, e) ↦
          let (at, active) = (env.sql.table GcJob).one_sound _ t.gc_jobs j e in
          let over : HasEnded j = elim (others j at).0 [
            | inl mine ↦ inl (done j at mine)
            | inr other ↦ other
          ] in
          let inactive : is_active j ≡ false = HasEnded-inactive j over in cc
    ],
    elim (Option-cases ((env.sql.table GcJob).one (is_job next) t.gc_jobs)) [
      | inl e ↦ e
      | inr (j, e) ↦
          let (at, same) = (env.sql.table GcJob).one_sound _ t.gc_jobs j e in
          elim ((others j at).1 ((text_eq_iff j.id next).0 same)) [ ]
    ],
  )

  -- A run returns, and the next job starts behind it.
  pub run_gc-next :
      (fresh : UploadId) (started cutoff finish id next now : Text) (w : World)
      → w.db.faults ≡ []
      → OthersEnded id next w.db.tables
      → let (r, w') = Gc.run_gc env fresh started cutoff finish id w in
        (r ≡ ok tt) × ((Gc.start_gc env next now w').0 ≡ ok next)
  run_gc-next fresh started cutoff finish id next now w healthy others =
      elim ((Total-run_gc fresh started cutoff finish id).at w healthy) [
        | inl (_, returned, still) ↦
            let w' : World = (Gc.run_gc env fresh started cutoff finish id w).1 in
            let others' : OthersEnded id next w'.db.tables =
              ((Keeps-run_gc id next fresh started cutoff finish).at w
                (record { db_at = others })).db_at in
            let done = (run_gc-sessions env fresh started cutoff finish id w returned).1 in
            (
              returned,
              subst
                  (λ f.
                    (Gc.start_gc env next now
                      (record { db = record { tables = w'.db.tables; faults = f }; fs = w'.fs })).0
                    ≡ ok next)
                  (sym still)
                  (starts next now w'.db.tables w'.fs (ended id next w'.db.tables others' done)),
            )
        | inr (_, _, bad) ↦ elim bad [ ]
      ]
