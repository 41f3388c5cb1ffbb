-- ===== src/Registry/Chunks.antt =====
-- src/registry.rs: `write_upload_chunk` and the offset of its session.
use distribution_rs.Prelude.{
  ℕ, some, ◌≡◌, ◌≢◌, refl, sym, subst, ◌∙◌, ok, ◌==◌, ==_iff, Bool-cases, inl, inr, some-injective,
}
use distribution_rs.Prelude.Text.{Text}
use distribution_rs.Exec.{raise}
use distribution_rs.Exec.Ensures.{Ensures-bind, Ensures-if, Ensures-raise}
use distribution_rs.Exec.Keeps.{Keeps, Keeps-bind_at, keeps_rules}
use distribution_rs.Database.{Tables, UploadSession}
use distribution_rs.Registry.{World, Env}
use distribution_rs.Registry.Lookups.{Exactly, HasRepo, Ensures-require_upload}
use distribution_rs.Registry.Repositories.{require_repo}
use distribution_rs.Registry.Rules.{InFs, InFs-on_db, InDb-on_db}
use distribution_rs.Database.Rules.{OnTables-select}
use distribution_rs.Registry.Uploads.{
  find_session, require_upload, write_chunk_at, write_upload_chunk, text_of, wrong_offset,
}
use distribution_rs.Storage.Files.{Reader, Fs}
use distribution_rs.Types.Ids.{TenantId, UploadId}
use distribution_rs.Types.RepoName.{RepoName}

-- The tables have a session of the repository at the offset.
abbrev pub AtOffset : Env → TenantId → RepoName → UploadId → ℕ → Tables → Type 0
AtOffset env tenant name id off t =
    (s : UploadSession) × (find_session env (text_of env id) t ≡ some s)
    × (s.offset ≡ off)
    × HasRepo env tenant name t s.repo_id

module _ (env : Env) (tenant : TenantId) (name : RepoName) (id : UploadId) where
  -- Tables and files are as they were.
  abbrev Same : World → World → Type 0
  Same w w' = (w'.db.tables ≡ w.db.tables) × (w'.fs ≡ w.fs)

  Keeps-tables : (t : Tables) → Keeps (Exactly t) (require_upload env tenant name id)
  unfolding require_upload require_repo
  Keeps-tables t = search (keeps_rules, InDb-on_db, OnTables-select) depth 9

  Keeps-files : (s : Fs) → Keeps (InFs (λ x. x ≡ s)) (require_upload env tenant name id)
  unfolding require_upload require_repo
  Keeps-files s = search (keeps_rules, InFs-on_db) depth 9

  require_upload-Same : (w : World) → Same w (require_upload env tenant name id w).1
  require_upload-Same w = (
    ((Keeps-tables w.db.tables).at w (record { db_at = refl })).db_at,
    ((Keeps-files w.fs).at w (record { fs_at = refl })).fs_at,
  )

  write_chunk_at-refused :
      (now : Text) (r : Reader) (off : ℕ) (s : UploadSession)
      → s.offset ≢ off
      → write_chunk_at env now id r off s ≡ raise (wrong_offset s.offset off)
  unfolding write_chunk_at
  write_chunk_at-refused now r off s miss = elim (Bool-cases (s.offset == off)) [
    | inl hit ↦ absurd (miss ((==_iff _ _).0 hit))
    | inr no_hit ↦ rw no_hit
  ]

  module _ (now : Text) (r : Reader) (off : ℕ) (w : World) where
    -- A chunk that returns was for the offset of its session, which belongs to the repository.
    pub write_upload_chunk-offset :
        (n : ℕ)
        → (write_upload_chunk env now tenant name id r off w).0 ≡ ok n
        → AtOffset env tenant name id off w.db.tables
    unfolding write_upload_chunk write_chunk_at
    write_upload_chunk-offset n e =
        (Ensures-bind {R = λ _ _. AtOffset env tenant name id off w.db.tables}
            (Ensures-require_upload env tenant name w.db.tables id)
            λ s.
              Ensures-if (s.offset == off)
                (λ hit. record {
                  at = λ w' h a x.
                      let (_, found, has) = h.db_at in (s, found, (==_iff _ _).0 hit, has);
                })
                (λ _. Ensures-raise _)).at
          w (record { db_at = refl }) n e

    -- A chunk for another offset than that of its session changes neither tables nor files.
    pub write_upload_chunk-refused :
        (s : UploadSession)
        → find_session env (text_of env id) w.db.tables ≡ some s
        → s.offset ≢ off
        → let w' = (write_upload_chunk env now tenant name id r off w).1 in
          (w'.db.tables ≡ w.db.tables) × (w'.fs ≡ w.fs)
    unfolding write_upload_chunk raise
    write_upload_chunk-refused s found miss =
        Keeps-bind_at (Same w) (require_upload env tenant name id) (write_chunk_at env now id r off)
          w (require_upload-Same w)
          λ s' e.
            let (_, found', _) =
              ((Ensures-require_upload env tenant name w.db.tables id).at w
                (record { db_at = refl }) s' e).db_at in
            subst (λ m. Same w (m (require_upload env tenant name id w).1).1)
              (sym (
                write_chunk_at-refused now r off s' (
                  subst (λ (x : UploadSession). x.offset ≢ off)
                    (some-injective (sym found ∙ found')) miss)))
              (require_upload-Same w)
