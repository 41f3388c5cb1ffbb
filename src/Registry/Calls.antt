-- ===== src/Registry/Calls.antt =====
-- The operations of `Registry` as one type of calls, and the induction over what they do to the
-- tables: a property that each statement keeps is kept by every call, whatever fails.
pub mod Closed
pub mod BlobCalls
pub mod ManifestCalls
pub mod UploadCalls
pub mod ListCalls
pub mod Validation
pub mod Keep
use distribution_rs.Prelude.{ℕ, Option, none, some, List, [], ◌∷◌}
use distribution_rs.Prelude.Text.{Text}
use distribution_rs.Registry.{World, Env}
use distribution_rs.Registry.Blobs
use distribution_rs.Registry.Gc
use distribution_rs.Registry.Lists
use distribution_rs.Registry.Manifests
use distribution_rs.Registry.Repositories
use distribution_rs.Registry.Uploads
use distribution_rs.Storage.Files.{Bytes, Reader}
use distribution_rs.Types.Digest.{Digest}
use distribution_rs.Types.Ids.{TenantId, UploadId}
use distribution_rs.Types.Reference.{Reference}
use distribution_rs.Types.RepoName.{RepoName}

-- The public operations that reach the database, with the times and the random ids that they draw.
pub data Call : Type 0 where
  startup_cleanup : Call
  ensure_repository : TenantId → RepoName → Call
  blob_exists get_blob blob_head delete_blob : TenantId → RepoName → Digest → Call
  get_blob_range : TenantId → RepoName → Digest → ℕ → ℕ → Call
  mount_blob : TenantId → RepoName → RepoName → Digest → Call
  monolithic_upload : Text → TenantId → RepoName → Digest → Reader → Call
  get_manifest : Text → TenantId → RepoName → Reference → Call
  head_manifest : TenantId → RepoName → Reference → Call
  put_manifest : Text → Text → TenantId → RepoName → Reference → Text → Bytes → Call
  delete_manifest : TenantId → RepoName → Digest → Call
  start_upload : UploadId → Text → TenantId → RepoName → Call
  get_upload_status : TenantId → RepoName → UploadId → Call
  write_upload_chunk : Text → TenantId → RepoName → UploadId → Reader → ℕ → Call
  complete_upload : TenantId → RepoName → UploadId → Digest → Call
  cancel_upload : TenantId → RepoName → UploadId → Call
  start_gc : Text → Text → Call
  run_gc : UploadId → Text → Text → Text → Text → Call
  mark_gc_failed : Text → Text → Call
  get_gc_job : Text → Call
  list_tags : TenantId → RepoName → Option ℕ → Option Text → Call
  list_repositories : TenantId → Option ℕ → Option Text → Call
  list_referrers : TenantId → RepoName → Digest → Option Text → Call

module _ (env : Env) where
  -- The world behind a call, whether it returns or fails.
  unfoldable pub run : Call → World → World
  run startup_cleanup w = (Gc.startup_cleanup env w).1
  run (ensure_repository t n) w = (Repositories.ensure_repository env t n w).1
  run (blob_exists t n d) w = (Blobs.blob_exists env t n d w).1
  run (get_blob t n d) w = (Blobs.get_blob env t n d w).1
  run (blob_head t n d) w = (Blobs.blob_head env t n d w).1
  run (delete_blob t n d) w = (Blobs.delete_blob env t n d w).1
  run (get_blob_range t n d o l) w = (Blobs.get_blob_range env t n d o l w).1
  run (mount_blob t n f d) w = (Blobs.mount_blob env t n f d w).1
  run (monolithic_upload u t n d r) w = (Blobs.monolithic_upload env u t n d r w).1
  run (get_manifest now t n r) w = (Manifests.get_manifest env now t n r w).1
  run (head_manifest t n r) w = (Manifests.head_manifest env t n r w).1
  run (put_manifest u now t n r m b) w = (Manifests.put_manifest env u now t n r m b w).1
  run (delete_manifest t n d) w = (Manifests.delete_manifest env t n d w).1
  run (start_upload f now t n) w = (Uploads.start_upload env f now t n w).1
  run (get_upload_status t n i) w = (Uploads.get_upload_status env t n i w).1
  run (write_upload_chunk now t n i r o) w = (Uploads.write_upload_chunk env now t n i r o w).1
  run (complete_upload t n i d) w = (Uploads.complete_upload env t n i d w).1
  run (cancel_upload t n i) w = (Uploads.cancel_upload env t n i w).1
  run (start_gc j now) w = (Gc.start_gc env j now w).1
  run (run_gc f s c e j) w = (Gc.run_gc env f s c e j w).1
  run (mark_gc_failed now j) w = (Gc.mark_gc_failed env now j w).1
  run (get_gc_job j) w = (Gc.get_gc_job env j w).1
  run (list_tags t n k l) w = (Lists.list_tags env t n k l w).1
  run (list_repositories t k l) w = (Lists.list_repositories env t k l w).1
  run (list_referrers t n d a) w = (Lists.list_referrers env t n d a w).1

  -- One call after the other.
  unfoldable pub run_all : List Call → World → World
  run_all [] w = w
  run_all (c ∷ cs) w = run_all cs (run c w)
