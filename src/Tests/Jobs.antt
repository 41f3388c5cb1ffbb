-- ===== src/Tests/Jobs.antt =====
-- The theorems on garbage collection at concrete worlds.
use distribution_rs.Prelude.{none, [], ◌∷◌, ◌≡◌, ◌↔◌, inl, refl, ok, In, here, there}
use distribution_rs.Prelude.Text.{codes}
use distribution_rs.Api.Admin.{gc_task}
use distribution_rs.Api.Admin.Task.{gc_task-next}
use distribution_rs.Database.{GcJob, UploadSession, pending, completed}
use distribution_rs.Registry.{World}
use distribution_rs.Registry.Code.{registry_code}
use distribution_rs.Registry.Gc
use distribution_rs.Registry.Gc.Next.{OthersEnded}
use distribution_rs.Registry.Gc.Sessions.{run_gc-sessions, Fresh}
use distribution_rs.Tests.Data.{no_tables, upload, session, uploading}
use distribution_rs.Tests.ListEngine.{env}

abbrev waiting_job : GcJob
waiting_job = record {
  id = codes "job";
  status = pending;
  started_at = none;
  completed_at = none;
  stats = none;
  created_at = codes "t";
}

-- A job is pending, and an upload has expired before "u".
abbrev waiting : World
waiting = record uploading {
  db = record {
    tables = record no_tables { uploads = session ∷ []; gc_jobs = waiting_job ∷ [] };
    faults = [];
  };
}

session_removed :
    (Gc.run_gc env upload
      (codes "v")
      (codes "u")
      (codes "w")
      (codes "job")
      waiting).1.db.tables.uploads
    ≡ []
unfolding registry_code
session_removed = refl

run_gc-sessions_example :
    let t' =
      (Gc.run_gc env upload
        (codes "v")
        (codes "u")
        (codes "w")
        (codes "job")
        waiting).1.db.tables in
    ((s : UploadSession)
      → In s t'.uploads ↔ (In s (session ∷ []) × Fresh env (session ∷ []) (codes "u") s))
    × ((j : GcJob) → In j t'.gc_jobs → j.id ≡ codes "job" → j.status ≡ completed)
unfolding registry_code
run_gc-sessions_example =
    run_gc-sessions env upload (codes "v") (codes "u") (codes "w") (codes "job") waiting refl

only_job : OthersEnded env (codes "job") (codes "next") waiting.db.tables
only_job _ here = (inl refl, λ bad. cc)
only_job j (there at) = elim at [ ]

gc_task-next_example :
    (Gc.start_gc env
      (codes "next")
      (codes "z")
      (gc_task env upload
        (codes "v")
        (codes "u")
        (codes "w")
        (codes "x")
        (codes "job")
        waiting).1).0
    ≡ ok (codes "next")
gc_task-next_example =
    gc_task-next env upload (codes "v") (codes "u") (codes "w") (codes "x") (codes "job")
      (codes "next") (codes "z") waiting refl only_job
