-- ===== src/Registry/Calls/BlobCalls.antt =====
-- The operations on blobs keep what each statement keeps.
use distribution_rs.Prelude.{ℕ, Option, none, some, Result, ok, err}
use distribution_rs.Prelude.Text.{Text}
use distribution_rs.Exec.Keeps.{Keeps, Keeps-bind}
use distribution_rs.Database.{Tables, RepoBlobLink}
use distribution_rs.Error.{RegistryError}
use distribution_rs.Registry.{Env}
use distribution_rs.Registry.Blobs
use distribution_rs.Registry.Rules.{InDb}
use distribution_rs.Storage.Files.{Reader}
use distribution_rs.Types.Digest.{Digest}
use distribution_rs.Types.Ids.{TenantId}
use distribution_rs.Types.RepoName.{RepoName}
use distribution_rs.Registry.Calls.Closed.{
  Closed, base_rules, repo_rules, Keeps-ensure_repository, Keeps-compute_digest,
}

module _ (env : Env) (P : Tables → Type 0) (c : Closed env P) where
  Keeps-link_exists :
      (d : Digest) (r : Result RegistryError ℕ) → Keeps (InDb P) (Blobs.link_exists env d r)
  unfolding Blobs.link_exists
  Keeps-link_exists d (ok i) = search base_rules
  Keeps-link_exists d (err e) = search base_rules

  pub Keeps-blob_exists :
      (t : TenantId) (n : RepoName) (d : Digest) → Keeps (InDb P) (Blobs.blob_exists env t n d)
  unfolding Blobs.blob_exists
  Keeps-blob_exists t n d = search (repo_rules, Keeps-link_exists)

  Keeps-require_link :
      (t : TenantId) (n : RepoName) (d : Digest) → Keeps (InDb P) (Blobs.require_link env t n d)
  unfolding Blobs.require_link
  Keeps-require_link t n d = search repo_rules

  pub Keeps-get_blob :
      (t : TenantId) (n : RepoName) (d : Digest) → Keeps (InDb P) (Blobs.get_blob env t n d)
  unfolding Blobs.get_blob
  Keeps-get_blob t n d = search (repo_rules, Keeps-require_link)

  pub Keeps-get_blob_range :
      (t : TenantId) (n : RepoName) (d : Digest) (o l : ℕ)
      → Keeps (InDb P) (Blobs.get_blob_range env t n d o l)
  unfolding Blobs.get_blob_range
  Keeps-get_blob_range t n d o l = search (repo_rules, Keeps-require_link)

  pub Keeps-blob_head :
      (t : TenantId) (n : RepoName) (d : Digest) → Keeps (InDb P) (Blobs.blob_head env t n d)
  unfolding Blobs.blob_head
  Keeps-blob_head t n d = search (repo_rules, Keeps-require_link)

  Keeps-mount_link :
      (t : TenantId) (n : RepoName) (d : Digest) (o : Option RepoBlobLink)
      → Keeps (InDb P) (Blobs.mount_link env t n d o)
  unfolding Blobs.mount_link
  Keeps-mount_link t n d none = search base_rules
  Keeps-mount_link t n d (some l) =
      Keeps-bind _ _ (Keeps-ensure_repository env P c t n) λ i. search (base_rules, c.upsert_link)

  Keeps-mount_from :
      (t : TenantId) (n : RepoName) (d : Digest) (r : Result RegistryError ℕ)
      → Keeps (InDb P) (Blobs.mount_from env t n d r)
  unfolding Blobs.mount_from
  Keeps-mount_from t n d (ok i) = Keeps-bind _ _ (search base_rules) (Keeps-mount_link t n d)
  Keeps-mount_from t n d (err e) = search base_rules

  pub Keeps-mount_blob :
      (t : TenantId) (n f : RepoName) (d : Digest) → Keeps (InDb P) (Blobs.mount_blob env t n f d)
  unfolding Blobs.mount_blob
  Keeps-mount_blob t n f d = search (repo_rules, Keeps-mount_from)

  pub Keeps-delete_blob :
      (t : TenantId) (n : RepoName) (d : Digest) → Keeps (InDb P) (Blobs.delete_blob env t n d)
  unfolding Blobs.delete_blob
  Keeps-delete_blob t n d = search (repo_rules, c.delete_links) depth 7

  Keeps-link_or_delete : (i : ℕ) (d e : Digest) → Keeps (InDb P) (Blobs.link_or_delete env i d e)
  unfolding Blobs.link_or_delete
  Keeps-link_or_delete i d e = search (base_rules, c.upsert_link) depth 7

  pub Keeps-monolithic_upload :
      (u : Text) (t : TenantId) (n : RepoName) (d : Digest) (r : Reader)
      → Keeps (InDb P) (Blobs.monolithic_upload env u t n d r)
  unfolding Blobs.monolithic_upload
  Keeps-monolithic_upload u t n d r =
      search (repo_rules, Keeps-compute_digest, Keeps-link_or_delete) depth 8
