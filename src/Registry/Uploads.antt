-- ===== src/Registry/Uploads.antt =====
-- src/registry.rs, the upload sessions.
use distribution_rs.Prelude.{ℕ, Bool, Option, none, some, ◌==◌, if◌then◌else◌}
use distribution_rs.Prelude.Text.{Text, text_eq}
use distribution_rs.Error.{
  RegistryError, oci, new, detailed, offset, blob_upload_unknown, blob_upload_invalid,
}
use distribution_rs.Exec.{pure, raise, from_option, ◌>>=◌, ◌>>◌}
use distribution_rs.Database.{
  UploadSession, Tables, Sql, select, execute, execute_checked, transaction,
}
use distribution_rs.Registry.{Env, Reg, on_db, on_storage, as_i64, compute_digest, digest_eq}
use distribution_rs.Registry.Blobs.{upsert_link, mismatch}
use distribution_rs.Registry.Repositories.{ensure_repository, require_repo}
use distribution_rs.Storage.Files.{Reader}
use distribution_rs.Storage.Filesystem
use distribution_rs.Types.Digest.{Digest, to_string}
use distribution_rs.Types.Ids.{TenantId, UploadId, upload_id_to_string}
use distribution_rs.Types.RepoName.{RepoName}

unfoldable pub is_session : Text → UploadSession → Bool
unfolding text_eq
is_session id s = text_eq s.id id

-- `OciError::blob_upload_unknown()`
abbrev pub unknown_upload : RegistryError
unknown_upload = oci (new blob_upload_unknown)

-- `OciError::blob_upload_invalid(…)` for an offset
abbrev pub wrong_offset : ℕ → ℕ → RegistryError
wrong_offset expected got = oci (detailed blob_upload_invalid (offset expected got))

module _ (env : Env) where
  unfoldable pub find_session : Text → Tables → Option UploadSession
  unfolding is_session
  find_session id t = (env.sql.table UploadSession).one (is_session id) t.uploads

  abbrev pub insert_unless : UploadSession → Tables → Option UploadSession → Option Tables
  insert_unless s t (some _) = none
  insert_unless s t none = some (record t {
    uploads =
        (env.sql.table UploadSession).upsert (λ new old. is_session new.id old) (λ _ old. old) s
          t.uploads;
  })

  -- INSERT: an id that is in use is refused.
  unfoldable pub insert_session : UploadSession → Sql Unit
  unfolding is_session find_session
  insert_session s = execute_checked (λ t. insert_unless s t (find_session s.id t))

  abbrev pub update_if : Text → ℕ → Text → Tables → Option UploadSession → Option Tables
  update_if id off now t none = none
  update_if id off now t (some _) = some (record t {
    uploads =
        (env.sql.table UploadSession).update (is_session id)
          (λ s. record s { offset = off; updated_at = now }) t.uploads;
  })

  -- UPDATE by id: `sea_orm` reports an update of no row as an error.
  unfoldable pub update_session : Text → ℕ → Text → Sql Unit
  unfolding is_session find_session
  update_session id off now = execute_checked (λ t. update_if id off now t (find_session id t))

  unfoldable pub delete_session : Text → Sql Unit
  unfolding is_session
  delete_session id =
      execute
        (λ t. record t { uploads = (env.sql.table UploadSession).delete (is_session id) t.uploads })
        (λ _. tt)

  abbrev pub text_of : UploadId → Text
  text_of = upload_id_to_string env.uuids

  -- `fresh` is the UUID that `UploadId::new` draws.
  unfoldable pub start_upload : UploadId → Text → TenantId → RepoName → Reg UploadId
  start_upload fresh now tenant name = do
    repo_id ← ensure_repository env tenant name
    on_storage (Filesystem.create_upload (text_of fresh))
    on_db (
        insert_session (record {
          id = text_of fresh;
          repo_id = repo_id;
          offset = 0;
          created_at = now;
          updated_at = now;
        }))
    pure fresh

  -- A session of another repository is unknown.
  unfoldable pub require_upload : TenantId → RepoName → UploadId → Reg UploadSession
  require_upload tenant name id = do
    repo_id ← require_repo env tenant name
    row ← on_db (select (find_session (text_of id)))
    session ← from_option row unknown_upload
    if session.repo_id == repo_id then pure session else raise unknown_upload

  unfoldable pub get_upload_status : TenantId → RepoName → UploadId → Reg ℕ
  get_upload_status tenant name id = do session ← require_upload tenant name id; pure session.offset

  -- `write_upload_chunk` behind the session
  unfoldable pub write_chunk_at : Text → UploadId → Reader → ℕ → UploadSession → Reg ℕ
  write_chunk_at now id data_ off session =
      if session.offset == off
      then (do
        new_offset ← on_storage (Filesystem.write_upload_chunk (text_of id) data_ off)
        on_db (update_session session.id (as_i64 new_offset) now)
        pure new_offset)
      else raise (wrong_offset session.offset off)

  unfoldable pub write_upload_chunk : Text → TenantId → RepoName → UploadId → Reader → ℕ → Reg ℕ
  write_upload_chunk now tenant name id data_ off = do
    session ← require_upload tenant name id
    write_chunk_at now id data_ off session

  -- The transaction of `complete_upload`.
  unfoldable pub link_and_close : UploadSession → Digest → ℕ → Sql Unit
  link_and_close session digest size = transaction do
    upsert_link env
        (record { repo_id = session.repo_id; digest = to_string digest; size = as_i64 size })
    delete_session session.id

  -- `complete_upload` behind the computation of the digest
  unfoldable pub finish_upload : UploadId → Digest → UploadSession → Digest → Reg Unit
  finish_upload id digest session found =
      if digest_eq found digest
      then (do
        on_storage (Filesystem.complete_upload (text_of id) digest)
        size ← on_storage (Filesystem.blob_size digest)
        on_db (link_and_close session digest size))
      else raise (mismatch env found digest)

  unfoldable pub complete_upload : TenantId → RepoName → UploadId → Digest → Reg Unit
  complete_upload tenant name id digest = do
    session ← require_upload tenant name id
    reader ← on_storage (Filesystem.get_upload_reader (text_of id))
    found ← compute_digest env.hash reader
    finish_upload id digest session found

  unfoldable pub cancel_upload : TenantId → RepoName → UploadId → Reg Unit
  cancel_upload tenant name id = do
    session ← require_upload tenant name id
    on_db (delete_session session.id)
    on_storage (Filesystem.abort_upload (text_of id))
