-- ===== src/Api/Uploads.antt =====
-- src/api/upload.rs: the handlers of uploads.
pub mod Content
use distribution_rs.Prelude.{ℕ, Bool, true, false, Option, none, some, ◌++◌, if◌then◌else◌}
use mathlib.Core.Option
use distribution_rs.Prelude.Text.{Text, codes}
use distribution_rs.Error.{RegistryError, oci, detailed, content_range, blob_upload_invalid}
use distribution_rs.Exec.{Exec, pure, from_option, ◌>>=◌, ◌>>◌}
use distribution_rs.Api.Ranges.{parse_content_range_start, range_header}
use distribution_rs.Registry.{Env, Reg}
use distribution_rs.Registry.Blobs
use distribution_rs.Registry.Uploads
use distribution_rs.Storage.Files.{Reader}
use distribution_rs.Types.Digest.{Digest}
use distribution_rs.Types.Ids.{TenantId, UploadId}
use distribution_rs.Types.RepoName.{RepoName}

-- The answers with what their headers are printed from: the location of a blob, or of an upload
-- with its range.
pub data UploadAnswer : Type 0 where
  created : RepoName → Digest → UploadAnswer
  accepted : RepoName → UploadId → ℕ × ℕ → UploadAnswer
  no_content : UploadAnswer
  status : RepoName → UploadId → ℕ × ℕ → UploadAnswer

module _ (env : Env) (tenant : TenantId) (name : RepoName) where
  -- Behind the mount: one request, or a session.
  unfoldable pub begin_upload : UploadId → Text → Text → Option Digest → Reader → Reg UploadAnswer
  begin_upload fresh uuid now (some digest) body = do
    Blobs.monolithic_upload env uuid tenant name digest body
    pure (created name digest)
  begin_upload fresh uuid now none body = do
    upload_id ← Uploads.start_upload env fresh now tenant name
    pure (accepted name upload_id (0, 0))

  -- A mount needs both the digest and the source.
  unfoldable pub start_upload :
      UploadId
      → Text
      → Text
      → Option Digest
      → Option Digest
      → Option RepoName
      → Reader
      → Reg UploadAnswer
  start_upload fresh uuid now digest (some mount_digest) (some from) body = do
    mounted ← Blobs.mount_blob env tenant name from mount_digest
    if mounted then pure (created name mount_digest) else begin_upload fresh uuid now digest body
  start_upload fresh uuid now digest (some mount_digest) none body =
      begin_upload fresh uuid now digest body
  start_upload fresh uuid now digest none from body = begin_upload fresh uuid now digest body

  module _ (upload_id : UploadId) where
    unfoldable pub get_upload : Reg UploadAnswer
    unfolding range_header
    get_upload = do
      next_offset ← Uploads.get_upload_status env tenant name upload_id
      pure (status name upload_id (range_header next_offset))

    -- The start of `Content-Range`, whose value counts as empty where it is no visible ASCII, or
    -- else the offset of the session.
    unfoldable pub chunk_offset : Option Text → Reg ℕ
    unfolding parse_content_range_start
    chunk_offset (some range_str) =
        from_option (parse_content_range_start range_str)
          (oci (detailed blob_upload_invalid (content_range range_str)))
    chunk_offset none = Uploads.get_upload_status env tenant name upload_id

    unfoldable pub patch_upload : Text → Option Text → Reader → Reg UploadAnswer
    unfolding range_header
    patch_upload now header body = do
      offset ← chunk_offset header
      new_offset ← Uploads.write_upload_chunk env now tenant name upload_id body offset
      pure (accepted name upload_id (range_header new_offset))

    -- The body is the last chunk.
    unfoldable pub complete_upload : Text → Digest → Reader → Reg UploadAnswer
    complete_upload now digest body = do
      offset ← Uploads.get_upload_status env tenant name upload_id
      Uploads.write_upload_chunk env now tenant name upload_id body offset
      Uploads.complete_upload env tenant name upload_id digest
      pure (created name digest)

    unfoldable pub cancel_upload : Reg UploadAnswer
    cancel_upload = do Uploads.cancel_upload env tenant name upload_id; pure no_content
