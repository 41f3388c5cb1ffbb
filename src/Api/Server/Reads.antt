-- ===== src/Api/Server/Reads.antt =====
-- The handlers of GET and HEAD only read, but for the statistics of pulls.
use distribution_rs.Prelude.{ℕ, Option, none, some}
use distribution_rs.Prelude.Text.{Text}
use distribution_rs.Api.Blobs
use distribution_rs.Api.Lists
use distribution_rs.Api.Manifests
use distribution_rs.Api.Uploads
use distribution_rs.Database.{Tables}
use distribution_rs.Database.Rules.{OnTables}
use distribution_rs.Exec.Keeps.{Keeps, Keeps-bind, keeps_rules}
use distribution_rs.Registry.{Env}
use distribution_rs.Registry.Manifests as RegistryManifests
use distribution_rs.Registry.Reads.{
  Unwritten, Reads-get_blob, Reads-get_blob_range, Reads-blob_head, Reads-get_manifest,
  Reads-head_manifest, Reads-get_upload_status, Reads-list_tags, Reads-list_referrers,
  Reads-list_repositories,
}
use distribution_rs.Storage.Files.{Files}
use distribution_rs.Types.Digest.{Digest}
use distribution_rs.Types.Ids.{TenantId, UploadId}
use distribution_rs.Types.Reference.{Reference}
use distribution_rs.Types.RepoName.{RepoName}

module _ (env : Env) (P : Tables → Type 0) (fs : Files) (tenant : TenantId) (name : RepoName)
    (count : (i : ℕ) (d now : Text)
      → Keeps (OnTables P) (RegistryManifests.count_pull env i d now)) where
  Reads-serve_range :
      (d : Digest) (total : ℕ) (o : Option (ℕ × ℕ))
      → Keeps (Unwritten P fs) (Blobs.serve_range env tenant name d total o)
  unfolding Blobs.serve_range
  Reads-serve_range d total none = search keeps_rules
  Reads-serve_range d total (some (a, b)) = search (keeps_rules, Reads-get_blob_range)

  Reads-get_parsed :
      (d : Digest) (o : Option (ℕ × Option ℕ))
      → Keeps (Unwritten P fs) (Blobs.get_parsed env tenant name d o)
  unfolding Blobs.get_parsed
  Reads-get_parsed d none = search (keeps_rules, Reads-get_blob)
  Reads-get_parsed d (some (a, b)) = search (keeps_rules, Reads-blob_head, Reads-serve_range)

  pub Reads-blob :
      (d : Digest) (range : Option Text)
      → Keeps (Unwritten P fs) (Blobs.get_blob env tenant name d range)
  unfolding Blobs.get_blob
  Reads-blob d range = Reads-get_parsed d _

  pub Reads-head_blob : (d : Digest) → Keeps (Unwritten P fs) (Blobs.head_blob env tenant name d)
  unfolding Blobs.head_blob
  Reads-head_blob d = search (keeps_rules, Reads-blob_head)

  pub Reads-manifest :
      (now : Text) (r : Reference)
      → Keeps (Unwritten P fs) (Manifests.get_manifest env tenant name now r)
  unfolding Manifests.get_manifest
  Reads-manifest now r =
      Keeps-bind _ _ (Reads-get_manifest env P fs count now tenant name r) λ x. search keeps_rules

  pub Reads-head :
      (r : Reference) → Keeps (Unwritten P fs) (Manifests.head_manifest env tenant name r)
  unfolding Manifests.head_manifest
  Reads-head r = search (keeps_rules, Reads-head_manifest)

  pub Reads-upload :
      (id : UploadId) → Keeps (Unwritten P fs) (Uploads.get_upload env tenant name id)
  unfolding Uploads.get_upload
  Reads-upload id = search (keeps_rules, Reads-get_upload_status)

  pub Reads-tags :
      (n : Option ℕ) (last : Option Text)
      → Keeps (Unwritten P fs) (Lists.list_tags env tenant name n last)
  unfolding Lists.list_tags
  Reads-tags n last = search (keeps_rules, Reads-list_tags)

  pub Reads-referrers :
      (d : Digest) (a : Option Text)
      → Keeps (Unwritten P fs) (Lists.get_referrers env tenant name d a)
  unfolding Lists.get_referrers
  Reads-referrers d a = search (keeps_rules, Reads-list_referrers)

module _ (env : Env) (P : Tables → Type 0) (fs : Files) (tenant : TenantId) where
  pub Reads-catalog :
      (n : Option ℕ) (last : Option Text)
      → Keeps (Unwritten P fs) (Lists.list_repositories env tenant n last)
  unfolding Lists.list_repositories
  Reads-catalog n last = search (keeps_rules, Reads-list_repositories)
