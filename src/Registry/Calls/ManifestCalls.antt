-- ===== src/Registry/Calls/ManifestCalls.antt =====
-- The operations on manifests keep what each statement keeps.
use distribution_rs.Prelude.{ℕ, Result, ok, err}
use distribution_rs.Prelude.Text.{Text}
use distribution_rs.Exec.Keeps.{Keeps, Keeps-bind, Keeps-pure}
use distribution_rs.Database.{Tables}
use distribution_rs.Database.{select}
use distribution_rs.Registry.{Env, on_db}
use distribution_rs.Registry.Manifests
use distribution_rs.Registry.Rules.{Keeps-parsed, InDb, InDb-on_db}
use distribution_rs.Storage.Files.{Bytes}
use distribution_rs.Types.Digest.{Digest, validate_digest}
use distribution_rs.Types.Error.{TypesError}
use distribution_rs.Types.Ids.{TenantId}
use distribution_rs.Types.Reference.{Reference, tag, digest}
use distribution_rs.Types.RepoName.{RepoName}
use distribution_rs.Registry.Calls.Validation.{Keeps-validate_manifest_references}
use distribution_rs.Registry.Calls.Closed.{
  Closed, base_rules, repo_rules, Keeps-require_repo, Keeps-ensure_repository,
}

module _ (env : Env) (P : Tables → Type 0) (c : Closed env P) where
  Keeps-resolve_digest : (i : ℕ) (r : Reference) → Keeps (InDb P) (Manifests.resolve_digest env i r)
  unfolding Manifests.resolve_digest
  Keeps-resolve_digest i (digest d) = search base_rules
  Keeps-resolve_digest i (tag t) =
      Keeps-bind _ _ (search base_rules) λ row.
        Keeps-bind _ _ (search base_rules) λ found. Keeps-parsed (validate_digest found.digest)

  queries : (A : Type 0) (f : Tables → A) → Keeps (InDb P) (on_db (select f))
  queries A f = search base_rules

  Keeps-require_manifest :
      (t : TenantId) (n : RepoName) (r : Reference)
      → Keeps (InDb P) (Manifests.require_manifest env t n r)
  unfolding Manifests.require_manifest
  Keeps-require_manifest t n r = search (repo_rules, Keeps-resolve_digest) depth 8

  pub Keeps-get_manifest :
      (now : Text) (t : TenantId) (n : RepoName) (r : Reference)
      → Keeps (InDb P) (Manifests.get_manifest env now t n r)
  unfolding Manifests.get_manifest
  Keeps-get_manifest now t n r =
      Keeps-bind _ _ (Keeps-require_manifest t n r)
        λ found. Keeps-bind _ _ (search base_rules) λ b. search (base_rules, c.count_pull)

  pub Keeps-head_manifest :
      (t : TenantId) (n : RepoName) (r : Reference)
      → Keeps (InDb P) (Manifests.head_manifest env t n r)
  unfolding Manifests.head_manifest
  Keeps-head_manifest t n r = search (base_rules, Keeps-require_manifest)

  Keeps-body_parsed : (r : Result TypesError Digest) → Keeps (InDb P) (Manifests.body_parsed env r)
  Keeps-body_parsed (ok d) = search base_rules
  Keeps-body_parsed (err e) = search base_rules

  Keeps-check_reference :
      (r : Reference) (d : Digest) → Keeps (InDb P) (Manifests.check_reference env r d)
  unfolding Manifests.check_reference
  Keeps-check_reference (tag t) d = search base_rules
  Keeps-check_reference (digest e) d = search base_rules

  pub Keeps-put_manifest :
      (u now : Text) (t : TenantId) (n : RepoName) (r : Reference) (m : Text) (b : Bytes)
      → Keeps (InDb P) (Manifests.put_manifest env u now t n r m b)
  unfolding Manifests.put_manifest
  Keeps-put_manifest u now t n r m b = Keeps-bind _ _ (Keeps-body_parsed _) λ d.
      Keeps-bind _ _ (Keeps-check_reference r d) λ _.
        Keeps-bind _ _ (Keeps-ensure_repository env P c t n) λ i.
          Keeps-bind _ _ (Keeps-validate_manifest_references env (InDb P) queries i b m) λ _.
            Keeps-bind _ _ (search base_rules)
              λ _. Keeps-bind _ _ (InDb-on_db _ (c.record_manifest now i r _ m b)) λ _. Keeps-pure _

  pub Keeps-delete_manifest :
      (t : TenantId) (n : RepoName) (d : Digest)
      → Keeps (InDb P) (Manifests.delete_manifest env t n d)
  unfolding Manifests.delete_manifest
  Keeps-delete_manifest t n d =
      Keeps-bind _ _ (Keeps-require_repo env P c t n) λ i. InDb-on_db _ (c.delete_rows i _)
