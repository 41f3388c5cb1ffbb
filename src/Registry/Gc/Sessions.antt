-- ===== src/Registry/Gc/Sessions.antt =====
-- src/registry.rs: which sessions `run_gc` leaves, and what becomes of its job.
use distribution_rs.Prelude.{
  true, false, List, [], ◌∷◌, ◌≡◌, ◌≢◌, ◌↔◌, refl, sym, ap, ◌∙◌, subst, ok, inl, inr, In, here,
  there, Bool-cases, In-cons, length, some,
}
use distribution_rs.Prelude.Text.{Text, text_eq, text_eq_iff}
use distribution_rs.Exec.{◌>>◌}
use distribution_rs.Exec.Ensures.{
  Ensures, Ensures-bind, Ensures-pure, Ensures-Keeps, Ensures-weaken,
}
use distribution_rs.Exec.Keeps.{Keeps-attempt}
use distribution_rs.Database.{Tables, UploadSession, GcJob, completed, select}
use distribution_rs.Database.Rules.{OnTables, Ensures-select, Ensures-execute, OnTables-select}
use distribution_rs.Registry.{World, Env, on_db}
use distribution_rs.Registry.Gc
use distribution_rs.Registry.Gc.{is_job}
use distribution_rs.Registry.Rules.{InDb, InDb-on_db, InDb-on_storage, Ensures-on_db}
use distribution_rs.Registry.Uploads
use distribution_rs.Types.Ids.{UploadId}

-- The sessions are those of `Us`.
abbrev SessionsAre : (UploadSession → Type 0) → Tables → Type 0
SessionsAre Us t = (s : UploadSession) → In s t.uploads ↔ Us s

-- No session of the list has the id.
abbrev pub Spared : List UploadSession → UploadSession → Type 0
Spared ss s = (x : UploadSession) → In x ss → x.id ≢ s.id

Spared-cons :
    (x s : UploadSession) (ss : List UploadSession) → x.id ≢ s.id → Spared ss s → Spared (x ∷ ss) s
Spared-cons x s ss other spared y at = elim (In-cons at) [
  | inl e ↦ λ same. other (sym (ap (λ (z : UploadSession). z.id) e) ∙ same)
  | inr deep ↦ spared y deep
]

differ_iff : (a b : Text) → (text_eq a b ≡ false) ↔ (b ≢ a)
differ_iff a b = (
  λ miss same. let hit : text_eq a b ≡ true = (text_eq_iff a b).1 (sym same) in cc,
  λ other. elim (Bool-cases (text_eq a b)) [
    | inl hit ↦ elim (other (sym ((text_eq_iff a b).0 hit))) [ ]
    | inr miss ↦ miss
  ],
)

module _ (env : Env) where
  Ensures-delete_session :
      (Us : UploadSession → Type 0) (x : UploadSession)
      → Ensures
          (OnTables (SessionsAre Us))
          (Uploads.delete_session env x.id)
          (λ _. OnTables (SessionsAre (λ s. Us s × (x.id ≢ s.id))))
  unfolding Uploads.delete_session Uploads.is_session
  Ensures-delete_session Us x = Ensures-execute _ _ λ t h s. (
    λ at.
        let (old, miss) = ((env.sql.table UploadSession).delete_iff _ t.uploads s).0 at in
        ((h s).0 old, (differ_iff s.id x.id).0 miss),
    λ (mine, other).
        ((env.sql.table UploadSession).delete_iff _ t.uploads s).1
          ((h s).1 mine, (differ_iff s.id x.id).1 other),
  )

  -- Behind the loop, the sessions with the ids of the list are gone, and no others.
  Ensures-clean_sessions :
      (fresh : UploadId) (Us : UploadSession → Type 0) (ss : List UploadSession)
      → Ensures
          (InDb (SessionsAre Us))
          (Gc.clean_sessions env fresh ss)
          (λ _. InDb (SessionsAre (λ s. Us s × Spared ss s)))
  unfolding Gc.clean_sessions
  Ensures-clean_sessions fresh Us [] = Ensures-pure tt λ w h. record {
    db_at = λ s. (λ at. ((h.db_at s).0 at, λ x bad. elim bad [ ]), λ (mine, _). (h.db_at s).1 mine);
  }
  Ensures-clean_sessions fresh Us (x ∷ ss) =
      Ensures-bind (Ensures-Keeps (Keeps-attempt _ (InDb-on_storage _))) λ _.
        Ensures-bind (Ensures-on_db (Ensures-delete_session Us x)) λ _.
          Ensures-weaken (Ensures-clean_sessions fresh (λ s. Us s × (x.id ≢ s.id)) ss) (λ w h. h)
            λ _ w h. record {
              db_at = λ s. (
                λ at.
                    let ((mine, other), spared) = (h.db_at s).0 at in
                    (mine, Spared-cons x s ss other spared),
                λ (mine, spared).
                    (h.db_at s).1 ((mine, spared x here), λ y at. spared y (there at)),
              );
            }

  module _ (us : List UploadSession) (cutoff : Text) where
    -- No session with the id has expired.
    abbrev pub Fresh : UploadSession → Type 0
    Fresh s =
        (x : UploadSession) → In x us → env.sql.before x.updated_at cutoff ≡ true → x.id ≢ s.id

    abbrev Cleaned : Tables → Type 0
    Cleaned = SessionsAre (λ s. In s us × Fresh s)

    Ensures-update_job :
        (Us : UploadSession → Type 0) (id : Text) (f : GcJob → GcJob)
        → Ensures
            (OnTables (SessionsAre Us))
            (Gc.update_job env id f)
            (λ _. OnTables (SessionsAre Us))
    unfolding Gc.update_job
    Ensures-update_job Us id f = Ensures-execute _ _ λ t h. h

    -- The jobs with the id have ended well.
    abbrev pub Completed : Text → Tables → Type 0
    Completed id t = (j : GcJob) → In j t.gc_jobs → j.id ≡ id → j.status ≡ completed

    Ensures-complete_job :
        (id : Text) (f : GcJob → GcJob)
        → ((j : GcJob) → ((f j).status ≡ completed) × ((f j).id ≡ j.id))
        → Ensures
            (OnTables Cleaned)
            (Gc.update_job env id f)
            (λ _. OnTables (λ t. Cleaned t × Completed id t))
    unfolding Gc.update_job is_job
    Ensures-complete_job id f ends = Ensures-execute _ _ λ t h. (
      h,
      λ j at same. elim (((env.sql.table GcJob).update_iff _ _ t.gc_jobs j).0 at) [
        | inl (_, miss) ↦ elim ((differ_iff j.id id).0 miss (sym same)) [ ]
        | inr (s, _, _, e) ↦ ap (λ (z : GcJob). z.status) e ∙ (ends s).0
      ],
    )

  -- The rows that the search for the expired sessions returns.
  abbrev expired_of : Text → List UploadSession → List UploadSession
  expired_of cutoff = (env.sql.table UploadSession).all (λ s. env.sql.before s.updated_at cutoff)

  expired-Spared :
      (cutoff : Text) (us : List UploadSession) (s : UploadSession)
      → Spared (expired_of cutoff us) s ↔ Fresh us cutoff s
  expired-Spared cutoff us s = (
    λ spared x at old. spared x (((env.sql.table UploadSession).all_iff _ us x).1 (at, old)),
    λ kept x at.
        let (at', old) = ((env.sql.table UploadSession).all_iff _ us x).0 at in kept x at' old,
  )

  module _ (fresh : UploadId) (started cutoff ended job_id : Text) (us : List UploadSession) where
    abbrev Unchanged : Tables → Type 0
    Unchanged t = t.uploads ≡ us

    abbrev Done : Tables → Type 0
    Done t = Cleaned us cutoff t × Completed us cutoff job_id t

    abbrev finished : List UploadSession → GcJob → GcJob
    finished sessions job = record job {
      status = completed;
      completed_at = some ended;
      stats = some (length sessions);
    }

    Ensures-Cleaned :
        (sessions : List UploadSession)
        → sessions ≡ expired_of cutoff us
        → Ensures
            (InDb Unchanged)
            (Gc.clean_sessions env fresh sessions)
            (λ _. InDb (Cleaned us cutoff))
    Ensures-Cleaned sessions e =
        Ensures-weaken (Ensures-clean_sessions fresh (λ s. In s us) sessions)
          (λ w h. record { db_at = λ s. (subst (In s) h.db_at, subst (In s) (sym h.db_at)) })
          λ _ w h. record {
            db_at = λ s. (
              λ at.
                  let (mine, spared) = (h.db_at s).0 at in
                  (mine, (expired-Spared cutoff us s).0 (subst (λ ss. Spared ss s) e spared)),
              λ (mine, kept).
                  (h.db_at s).1
                    (mine, subst (λ ss. Spared ss s) (sym e) ((expired-Spared cutoff us s).1 kept)),
            );
          }

    Ensures-end :
        (sessions : List UploadSession)
        → Ensures
            (InDb (λ t. Unchanged t × (sessions ≡ expired_of cutoff us)))
            (do
              Gc.clean_sessions env fresh sessions
              on_db (Gc.update_job env job_id (finished sessions)))
            (λ _. InDb Done)
    Ensures-end sessions = record {
      at = λ w h a r.
          (Ensures-bind (Ensures-Cleaned sessions h.db_at.1) λ _.
              Ensures-on_db
                (Ensures-complete_job us cutoff job_id (finished sessions) λ j. (refl, refl))).at
            w (record { db_at = h.db_at.0 }) a r;
    }

    Ensures-begin :
        (f : GcJob → GcJob)
        → Ensures (InDb Unchanged) (on_db (Gc.update_job env job_id f)) (λ _. InDb Unchanged)
    unfolding Gc.update_job
    Ensures-begin f = Ensures-on_db (Ensures-execute _ _ λ t h. h)

    Ensures-expired :
        Ensures
          (InDb Unchanged)
          (on_db (select (Gc.expired env cutoff)))
          (λ sessions. InDb (λ t. Unchanged t × (sessions ≡ expired_of cutoff us)))
    unfolding Gc.expired
    Ensures-expired = Ensures-on_db (Ensures-select _ λ t h. (h, ap (expired_of cutoff) h))

    Ensures-run_gc :
        Ensures (InDb Unchanged) (Gc.run_gc env fresh started cutoff ended job_id) (λ _. InDb Done)
    unfolding Gc.run_gc
    Ensures-run_gc = Ensures-bind (Ensures-begin _) λ _.
        Ensures-bind (Ensures-Keeps (InDb-on_db _ (OnTables-select _)))
          λ _. Ensures-bind Ensures-expired Ensures-end

  -- A `run_gc` that returns leaves just the upload sessions with whose id no session was last
  -- updated before the cutoff, and the jobs with its id are completed.
  pub run_gc-sessions :
      (fresh : UploadId) (started cutoff ended job_id : Text) (w : World)
      → (Gc.run_gc env fresh started cutoff ended job_id w).0 ≡ ok tt
      → let t' = (Gc.run_gc env fresh started cutoff ended job_id w).1.db.tables in
        ((s : UploadSession)
          → In s t'.uploads ↔ (In s w.db.tables.uploads × Fresh w.db.tables.uploads cutoff s))
        × ((j : GcJob) → In j t'.gc_jobs → j.id ≡ job_id → j.status ≡ completed)
  run_gc-sessions fresh started cutoff ended job_id w e =
      ((Ensures-run_gc fresh started cutoff ended job_id w.db.tables.uploads).at w
        (record { db_at = refl }) tt e).db_at
