-- ===== src/Registry/Reads.antt =====
-- The operations of the registry that only read: they keep all files, and what counting a pull keeps
-- of the tables.
use distribution_rs.Prelude.{ℕ, Option, Result, ok, err}
use distribution_rs.Prelude.Text.{Text}
use distribution_rs.Database.{Tables}
use distribution_rs.Database.Rules.{OnTables, OnTables-select}
use distribution_rs.Error.{RegistryError}
use distribution_rs.Exec.Keeps.{Keeps, Keeps-bind, keeps_rules}
use distribution_rs.Registry.{World, Env}
use distribution_rs.Registry.Blobs
use distribution_rs.Registry.Gc
use distribution_rs.Registry.Lists
use distribution_rs.Registry.Manifests
use distribution_rs.Registry.Repositories
use distribution_rs.Registry.Rules.{Keeps-parsed, Both, Both-on_db, Both-on_storage}
use distribution_rs.Registry.Uploads
use distribution_rs.Storage.Files.{Files}
use distribution_rs.Storage.Reads.{
  AllFiles, AllFiles-get_blob, AllFiles-get_blob_range, AllFiles-get_manifest_bytes,
}
use distribution_rs.Types.Digest.{Digest, validate_digest}
use distribution_rs.Types.Ids.{TenantId, UploadId}
use distribution_rs.Types.Reference.{Reference, tag, digest}
use distribution_rs.Types.RepoName.{RepoName}

-- A property of the tables, and the files.
abbrev pub Unwritten : (Tables → Type 0) → Files → World → Type 0
Unwritten P fs = Both P (AllFiles fs)

pub ruleset read_rules = (
  keeps_rules, Both-on_db, Both-on_storage, OnTables-select, AllFiles-get_blob,
  AllFiles-get_blob_range, AllFiles-get_manifest_bytes,
)

module _ (env : Env) (P : Tables → Type 0) (fs : Files) where
  Reads-require_repo :
      (t : TenantId) (n : RepoName) → Keeps (Unwritten P fs) (Repositories.require_repo env t n)
  unfolding Repositories.require_repo
  Reads-require_repo t n = search read_rules

  Reads-require_link :
      (t : TenantId) (n : RepoName) (d : Digest)
      → Keeps (Unwritten P fs) (Blobs.require_link env t n d)
  unfolding Blobs.require_link
  Reads-require_link t n d = search (read_rules, Reads-require_repo)

  pub Reads-get_blob :
      (t : TenantId) (n : RepoName) (d : Digest) → Keeps (Unwritten P fs) (Blobs.get_blob env t n d)
  unfolding Blobs.get_blob
  Reads-get_blob t n d = search (read_rules, Reads-require_link)

  pub Reads-get_blob_range :
      (t : TenantId) (n : RepoName) (d : Digest) (o l : ℕ)
      → Keeps (Unwritten P fs) (Blobs.get_blob_range env t n d o l)
  unfolding Blobs.get_blob_range
  Reads-get_blob_range t n d o l = search (read_rules, Reads-require_link)

  pub Reads-blob_head :
      (t : TenantId) (n : RepoName) (d : Digest)
      → Keeps (Unwritten P fs) (Blobs.blob_head env t n d)
  unfolding Blobs.blob_head
  Reads-blob_head t n d = search (read_rules, Reads-require_link)

  Reads-resolve_digest :
      (i : ℕ) (r : Reference) → Keeps (Unwritten P fs) (Manifests.resolve_digest env i r)
  unfolding Manifests.resolve_digest
  Reads-resolve_digest i (digest d) = search read_rules
  Reads-resolve_digest i (tag t) =
      Keeps-bind _ _ (search read_rules) λ row.
        Keeps-bind _ _ (search read_rules) λ found. Keeps-parsed (validate_digest found.digest)

  pub Reads-require_manifest :
      (t : TenantId) (n : RepoName) (r : Reference)
      → Keeps (Unwritten P fs) (Manifests.require_manifest env t n r)
  unfolding Manifests.require_manifest
  Reads-require_manifest t n r =
      search (read_rules, Reads-require_repo, Reads-resolve_digest) depth 8

  pub Reads-get_manifest :
      ((i : ℕ) (d now : Text) → Keeps (OnTables P) (Manifests.count_pull env i d now))
      → (now : Text) (t : TenantId) (n : RepoName) (r : Reference)
      → Keeps (Unwritten P fs) (Manifests.get_manifest env now t n r)
  unfolding Manifests.get_manifest
  Reads-get_manifest k now t n r =
      Keeps-bind _ _ (Reads-require_manifest t n r)
        λ found. Keeps-bind _ _ (search read_rules) λ b. search (read_rules, k)

  pub Reads-head_manifest :
      (t : TenantId) (n : RepoName) (r : Reference)
      → Keeps (Unwritten P fs) (Manifests.head_manifest env t n r)
  unfolding Manifests.head_manifest
  Reads-head_manifest t n r = search (read_rules, Reads-require_manifest)

  pub Reads-get_upload_status :
      (t : TenantId) (n : RepoName) (i : UploadId)
      → Keeps (Unwritten P fs) (Uploads.get_upload_status env t n i)
  unfolding Uploads.get_upload_status Uploads.require_upload
  Reads-get_upload_status t n i =
      Keeps-bind _ _ (Keeps-bind _ _ (Reads-require_repo t n) λ r. search read_rules)
        λ s. search read_rules

  pub Reads-list_tags :
      (t : TenantId) (n : RepoName) (k : Option ℕ) (l : Option Text)
      → Keeps (Unwritten P fs) (Lists.list_tags env t n k l)
  unfolding Lists.list_tags
  Reads-list_tags t n k l = search (read_rules, Reads-require_repo)

  Reads-referrers_in :
      (d : Text) (a : Option Text) (r : Result RegistryError ℕ)
      → Keeps (Unwritten P fs) (Lists.referrers_in env d a r)
  unfolding Lists.referrers_in
  Reads-referrers_in d a (ok i) = search read_rules
  Reads-referrers_in d a (err e) = search read_rules

  pub Reads-list_referrers :
      (t : TenantId) (n : RepoName) (d : Digest) (a : Option Text)
      → Keeps (Unwritten P fs) (Lists.list_referrers env t n d a)
  unfolding Lists.list_referrers
  Reads-list_referrers t n d a = search (read_rules, Reads-require_repo, Reads-referrers_in)

  pub Reads-list_repositories :
      (t : TenantId) (k : Option ℕ) (l : Option Text)
      → Keeps (Unwritten P fs) (Lists.list_repositories env t k l)
  unfolding Lists.list_repositories
  Reads-list_repositories t k l = search read_rules

  pub Reads-get_gc_job : (id : Text) → Keeps (Unwritten P fs) (Gc.get_gc_job env id)
  unfolding Gc.get_gc_job
  Reads-get_gc_job id = search read_rules
