-- ===== src/Registry/Tags/Whole.antt =====
-- No call of the registry leaves a dangling tag, and a manifest that is deleted is gone.
use distribution_rs.Prelude.{ℕ, true, false, ◌&&◌, some, List, ◌≡◌, refl, ok, In, subst, sym, ◌==◌}
use distribution_rs.Prelude.Text.{Text, text_eq, key_iff}
use distribution_rs.Exec.Ensures.{Ensures, Ensures-bind, Ensures-if, Ensures-pure, Ensures-raise}
use distribution_rs.Database.{Tables, Manifest, Tag, Repository}
use distribution_rs.Database.Rules.{OnTables, Ensures-execute, Ensures-transaction}
use distribution_rs.Registry.{World, Env}
use distribution_rs.Registry.Calls.{Call, run_all}
use distribution_rs.Registry.Calls.Keep.{run_all-keeps}
use distribution_rs.Registry.Manifests
use distribution_rs.Registry.Manifests.{is_manifest, points_to, delete_manifest}
use distribution_rs.Registry.Repositories.{find_repo}
use distribution_rs.Registry.Rules.{InDb, Ensures-on_db}
use distribution_rs.Registry.Lookups.{Ensures-require_repo}
use distribution_rs.Registry.Tags.{HasManifest, NoDangling, NoTagTo}
use distribution_rs.Registry.Tags.Rows
use distribution_rs.Registry.Tags.Statements.{tags_closed}
use distribution_rs.Types.Digest
use distribution_rs.Types.Digest.{Digest}
use distribution_rs.Types.Ids.{TenantId}
use distribution_rs.Types.RepoName.{RepoName}

-- If each tag points to a manifest of its repository, then so does each tag behind any calls, in
-- any order, whatever statements and file operations fail in them.
pub run_all-NoDangling :
    (env : Env) (calls : List Call) (w : World)
    → NoDangling w.db.tables
    → NoDangling (run_all env calls w).db.tables
run_all-NoDangling env calls w h =
    (run_all-keeps env NoDangling (tags_closed env) calls w (record { db_at = h })).db_at

-- The repository has no manifest row and no tag for the digest.
unfoldable pub Gone : ℕ → Text → Tables → Type 0
unfolding HasManifest
Gone i d t =
    (¬ HasManifest i d t) × ((g : Tag) → In g t.tags → ¬ ((g.repo_id ≡ i) × (g.digest ≡ d)))

Gone-tests :
    (i : ℕ) (d : Text) (t : Tables)
    → ((m : Manifest) → In m t.manifests → is_manifest i d m ≡ false)
    → NoTagTo i d t
    → Gone i d t
unfolding Gone is_manifest NoTagTo points_to
Gone-tests i d t rows tags = (
  (λ (m, at, same_repo, same_digest).
      let hit : ((m.repo_id == i) && text_eq m.digest d) ≡ true =
        (key_iff m.repo_id i m.digest d).1 (same_repo, same_digest) in
      let miss : ((m.repo_id == i) && text_eq m.digest d) ≡ false = rows m at in cc),
  λ g at same.
      let hit : ((g.repo_id == i) && text_eq g.digest d) ≡ true =
        (key_iff g.repo_id i g.digest d).1 same in
      let miss : ((g.repo_id == i) && text_eq g.digest d) ≡ false = tags g at in cc,
)

-- The tables hold the repository under the id, and then what was deleted is gone.
abbrev pub GoneFrom : Env → TenantId → RepoName → Text → Tables → Tables → Type 0
GoneFrom env tenant name d t t' =
    (r : Repository) × (find_repo env tenant name t ≡ some r) × Gone r.id d t'

module _ (env : Env) where
  Ensures-delete_rows :
      (i : ℕ) (d : Text)
      → Ensures
          (OnTables (λ _. Unit {0}))
          (Manifests.delete_rows env i d)
          (λ _. OnTables (Gone i d))
  unfolding Manifests.delete_rows Manifests.delete_tags Manifests.delete_referrers
      Manifests.delete_manifests NoTagTo
  Ensures-delete_rows i d =
      Ensures-bind
        (Ensures-execute {Q = λ _. NoTagTo i d} _ _ λ t h. Rows.NoTagTo-deleted env i d t)
        λ _. Ensures-bind (Ensures-execute {Q = λ _. NoTagTo i d} _ _ λ t h. h) λ _.
          Ensures-bind
            (Ensures-execute {Q = λ _. Gone i d} _ _ λ t h.
              Gone-tests i d
                (record t {
                  manifests = (env.sql.table Manifest).delete (is_manifest i d) t.manifests;
                })
                (λ m at. (((env.sql.table Manifest).delete_iff _ t.manifests m).0 at).1) h)
            λ n.
              Ensures-if (n == 0)
                (λ _.
                  Ensures-bind {Q = λ _ _. Unit {0}} (record { at = λ s h a e. tt })
                    (λ _. Ensures-raise _))
                (λ _. Ensures-pure tt (λ s h. h))

  -- A `delete_manifest` that returns found the repository, and left neither a manifest row nor a
  -- tag of it for the digest.
  pub delete_manifest-gone :
      (tenant : TenantId) (name : RepoName) (d : Digest) (w : World)
      → (delete_manifest env tenant name d w).0 ≡ ok tt
      → GoneFrom env tenant name
          (Digest.to_string d)
          w.db.tables
          (delete_manifest env tenant name d w).1.db.tables
  unfolding delete_manifest
  delete_manifest-gone tenant name d w e =
      ((Ensures-bind {R = λ _. InDb (GoneFrom env tenant name (Digest.to_string d) w.db.tables)}
          (Ensures-require_repo env tenant name w.db.tables)
          λ i. record {
            at = λ s h _ e'.
                let (r, found, own) = h.db_at.1 in
                record {
                  db_at = (
                    r,
                    found,
                    subst (λ k. Gone k (Digest.to_string d) _) (sym own)
                        ((Ensures-on_db
                            (Ensures-transaction _ (Ensures-delete_rows i (Digest.to_string d)))).at
                          s (record { db_at = tt }) tt e').db_at,
                  );
                };
          }).at
        w (record { db_at = refl }) tt e).db_at
