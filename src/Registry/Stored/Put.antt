-- ===== src/Registry/Stored/Put.antt =====
-- src/registry.rs: what holds where `put_manifest` by a tag returns.
use distribution_rs.Prelude.{ℕ, Option, none, some, ◌≡◌, refl, sym, subst}
use distribution_rs.Prelude.Text.{Text}
use distribution_rs.Exec.{pure, ◌>>=◌, ◌>>◌}
use distribution_rs.Exec.Ensures.{Ensures, Ensures-bind, Ensures-Keeps, Ensures-pure}
use distribution_rs.Exec.Keeps.{Keeps, Keeps-pure}
use distribution_rs.Database.{Tables}
use distribution_rs.Database.Rules.{
  OnTables, OnTables-select, OnTables-execute, Ensures-execute, Ensures-transaction,
}
use distribution_rs.Registry.{Env, World, Reg, on_db, on_storage, digest_of}
use distribution_rs.Registry.Calls.Validation.{Keeps-validate_manifest_references}
use distribution_rs.Registry.Integrity.{parsed_digest_lem}
use distribution_rs.Registry.Manifests
use distribution_rs.Registry.Manifests.{find_tag, find_manifest}
use distribution_rs.Registry.Repositories.{find_repo, same_repo, new_repo}
use distribution_rs.Registry.Repositories
use distribution_rs.Registry.Rules.{Both, Both-on_db, Ensures-Both-on_db, Ensures-Both-on_storage}
use distribution_rs.Registry.Stored.{TagIs, ManifestIs, ManifestIs-upserted, TagIs-upserted}
use distribution_rs.Registry.Stored.Bytes.{Ensures-put_manifest_bytes}
use distribution_rs.Storage.Files.{Bytes}
use distribution_rs.Storage.Filesystem
use distribution_rs.Storage.Frame.{Holds}
use distribution_rs.Storage.Paths.{manifest_path}
use distribution_rs.Types.Digest
use distribution_rs.Types.Digest.{Digest}
use distribution_rs.Types.Ids.{TenantId}
use distribution_rs.Types.Reference.{tag}
use distribution_rs.Types.RepoName.{RepoName}
use distribution_rs.Types.TagName.{TagName}
use distribution_rs.Registry.Stored.Repo.{Repo, Ensures-ensure_repository}

module _ (env : Env) (tenant : TenantId) (name : RepoName) where
  module _ (i : ℕ) (g : TagName) (d m : Text) where
    -- The tag of the repository points to the manifest with the media type.
    abbrev pub Recorded : Tables → Type 0
    Recorded t = Repo env tenant name i t × ManifestIs env i d m t × TagIs env i g.as_str d t

    Ensures-upsert_manifest :
        (n : ℕ)
        → Ensures
            (OnTables (Repo env tenant name i))
            (Manifests.upsert_manifest env
              (record { repo_id = i; digest = d; media_type = m; size = n }))
            (λ _. OnTables (λ t. Repo env tenant name i t × ManifestIs env i d m t))
    unfolding Manifests.upsert_manifest find_repo
    Ensures-upsert_manifest n = Ensures-execute _ _ λ t h. (
      h,
      ManifestIs-upserted env (record { repo_id = i; digest = d; media_type = m; size = n }) t,
    )

    Ensures-upsert_reference :
        (now : Text)
        → Ensures
            (OnTables (λ t. Repo env tenant name i t × ManifestIs env i d m t))
            (Manifests.upsert_reference env i (tag g) d now)
            (λ _. OnTables Recorded)
    unfolding Manifests.upsert_reference Manifests.upsert_tag find_repo find_manifest
    Ensures-upsert_reference now = Ensures-execute _ _ λ t h. (
      h.0,
      h.1,
      TagIs-upserted env
          (record {
            repo_id = i;
            name = g.as_str;
            digest = d;
            updated_at = now;
            last_pulled_at = none;
            pull_count = 0;
          })
          t,
    )

    Keeps-track_referrer :
        (b : Bytes) (s : Option Text)
        → Keeps (OnTables Recorded) (Manifests.track_referrer env i d m b s)
    unfolding Manifests.track_referrer Manifests.upsert_referrer find_repo find_manifest find_tag
    Keeps-track_referrer b none = Keeps-pure tt
    Keeps-track_referrer b (some x) = OnTables-execute _ _ λ t h. h

    Ensures-record_manifest :
        (now : Text) (b : Bytes)
        → Ensures
            (OnTables (Repo env tenant name i))
            (Manifests.record_manifest env now i (tag g) d m b)
            (λ _. OnTables Recorded)
    unfolding Manifests.record_manifest
    Ensures-record_manifest now b = Ensures-transaction _ (
        Ensures-bind (Ensures-upsert_manifest _) λ _.
          Ensures-bind (Ensures-upsert_reference now) λ _. Ensures-Keeps (Keeps-track_referrer b _))

  module _ (uuid now : Text) (g : TagName) (m : Text) (b : Bytes) (v : Option Bytes)
      (known : (x : Bytes) → v ≡ some x → x ≡ b) where
    abbrev pub d : Digest
    d = digest_of env.hash b

    abbrev pub Before : World → Type 0
    Before = Both (λ _. Unit {0}) (Holds (manifest_path d) v)

    -- The rows and the file of the manifest.
    abbrev pub Behind : Digest × Option Text → World → Type 0
    Behind r w =
        (r.0 ≡ d)
        × ((i : ℕ) × Both (Recorded i g (Digest.to_string d) m) (Holds (manifest_path d) (some b))
              w)

    -- `put_manifest` behind the digest of the body.
    abbrev rest : Digest → Reg (Digest × Option Text)
    rest x = do
      Manifests.check_reference env (tag g) x
      repo_id ← Repositories.ensure_repository env tenant name
      Manifests.validate_manifest_references env repo_id b m
      on_storage (Filesystem.put_manifest_bytes uuid x b)
      on_db (Manifests.record_manifest env now repo_id (tag g) (Digest.to_string x) m b)
      pure (x, Manifests.subject_digest env b)

    Ensures-rest : Ensures Before (rest d) Behind
    unfolding Manifests.check_reference
    Ensures-rest = Ensures-bind (Ensures-pure tt λ w h. h) λ _.
        Ensures-bind
          (Ensures-ensure_repository env tenant name (Holds (manifest_path d) v) (λ _. Unit {0}))
          λ i.
            Ensures-bind
              (Ensures-Keeps (
                Keeps-validate_manifest_references env
                  (Both (Repo env tenant name i) (Holds (manifest_path d) v))
                  (λ A f. Both-on_db _ (OnTables-select f)) i b m))
              λ _.
                Ensures-bind (Ensures-Both-on_storage (Ensures-put_manifest_bytes uuid d b v known))
                  λ _.
                    Ensures-bind
                      (Ensures-Both-on_db
                        (Ensures-record_manifest i g (Digest.to_string d) m now b))
                      λ _. Ensures-pure _ λ w h. (refl, (i, h))

    -- Where it returns, the rows and the file of the manifest are there.
    pub Ensures-put_manifest :
        Ensures Before (Manifests.put_manifest env uuid now tenant name (tag g) m b) Behind
    unfolding Manifests.put_manifest
    Ensures-put_manifest =
        subst (λ x. Ensures Before (Manifests.body_parsed env x >>= rest) Behind)
          (sym (parsed_digest_lem env.hash b))
          (Ensures-bind {Q = λ x w. (x ≡ d) × Before w} (Ensures-pure d λ w h. (refl, h)) λ x.
            record {
              at = λ w (e, h) a r.
                  (subst (λ y. Ensures Before (rest y) Behind) (sym e) Ensures-rest).at w h a r;
            })
