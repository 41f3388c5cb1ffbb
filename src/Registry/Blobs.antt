-- ===== src/Registry/Blobs.antt =====
-- src/registry.rs, the operations on blobs.
use distribution_rs.Prelude.{
  ℕ, Bool, true, false, ◌&&◌, Option, none, some, Result, ok, err, ◌==◌, if◌then◌else◌,
}
use distribution_rs.Prelude.Text.{Text, text_eq}
use distribution_rs.Error.{
  RegistryError, oci, new, detailed, computed, blob_unknown, digest_invalid,
}
use distribution_rs.Exec.{pure, raise, from_option, attempt, ◌>>=◌, ◌>>◌}
use distribution_rs.Database.{RepoBlobLink, Tables, Sql, select, execute}
use distribution_rs.Registry.{Env, Reg, on_db, on_storage, as_i64, compute_digest, digest_eq}
use distribution_rs.Registry.Repositories.{ensure_repository, require_repo}
use distribution_rs.Storage.Files.{Reader}
use distribution_rs.Storage.Filesystem
use distribution_rs.Types.Digest.{Digest, to_string}
use distribution_rs.Types.Ids.{TenantId}
use distribution_rs.Types.RepoName.{RepoName}

-- `OciError::blob_unknown()`
abbrev pub unknown_blob : RegistryError
unknown_blob = oci (new blob_unknown)

-- The filter on repository and digest.
unfoldable pub is_link : ℕ → Text → RepoBlobLink → Bool
unfolding text_eq
is_link repo_id digest l = (l.repo_id == repo_id) && text_eq l.digest digest

-- The primary key.
unfoldable pub same_link : RepoBlobLink → RepoBlobLink → Bool
unfolding text_eq
same_link l m = (m.repo_id == l.repo_id) && text_eq m.digest l.digest

module _ (env : Env) where
  unfoldable pub find_link : ℕ → Text → Tables → Option RepoBlobLink
  unfolding is_link
  find_link repo_id digest t = (env.sql.table RepoBlobLink).one (is_link repo_id digest) t.links

  -- INSERT … ON CONFLICT (repo_id, digest) DO UPDATE SET size
  unfoldable pub upsert_link : RepoBlobLink → Sql Unit
  unfolding same_link
  upsert_link link =
      execute
        (λ t. record t {
          links =
              (env.sql.table RepoBlobLink).upsert same_link
                (λ new old. record old { size = new.size }) link t.links;
        })
        (λ _. tt)

  unfoldable pub link_exists : Digest → Result RegistryError ℕ → Reg Bool
  link_exists digest (err _) = pure false
  link_exists digest (ok repo_id) = do
    link ← on_db (select (find_link repo_id (to_string digest)))
    pure (elim link [ some _ ↦ true | none ↦ false ])

  -- A repository that cannot be found, for whatever reason, has no blob.
  unfoldable pub blob_exists : TenantId → RepoName → Digest → Reg Bool
  blob_exists tenant name digest = do
    repo ← attempt (require_repo env tenant name)
    link_exists digest repo

  -- The link of a blob in a repository, or the error for a blob that is unknown there.
  unfoldable pub require_link : TenantId → RepoName → Digest → Reg RepoBlobLink
  require_link tenant name digest = do
    repo_id ← require_repo env tenant name
    link ← on_db (select (find_link repo_id (to_string digest)))
    from_option link unknown_blob

  -- The reader and the size.
  unfoldable pub get_blob : TenantId → RepoName → Digest → Reg (Reader × ℕ)
  get_blob tenant name digest = do
    link ← require_link tenant name digest
    reader ← on_storage (Filesystem.get_blob digest)
    pure (reader, link.size)

  unfoldable pub get_blob_range : TenantId → RepoName → Digest → ℕ → ℕ → Reg Reader
  get_blob_range tenant name digest offset length = do
    require_link tenant name digest
    on_storage (Filesystem.get_blob_range digest offset length)

  unfoldable pub blob_head : TenantId → RepoName → Digest → Reg ℕ
  blob_head tenant name digest = do link ← require_link tenant name digest; pure link.size

  -- `mount_blob` behind the search for the link in the source
  unfoldable pub mount_link : TenantId → RepoName → Digest → Option RepoBlobLink → Reg Bool
  mount_link tenant to_name digest none = pure false
  mount_link tenant to_name digest (some source) = do
    dest ← ensure_repository env tenant to_name
    on_db (upsert_link (record { repo_id = dest; digest = to_string digest; size = source.size }))
    pure true

  unfoldable pub mount_from : TenantId → RepoName → Digest → Result RegistryError ℕ → Reg Bool
  mount_from tenant to_name digest (err _) = pure false
  mount_from tenant to_name digest (ok source_repo_id) = do
    link ← on_db (select (find_link source_repo_id (to_string digest)))
    mount_link tenant to_name digest link

  unfoldable pub mount_blob : TenantId → RepoName → RepoName → Digest → Reg Bool
  mount_blob tenant to_name from_name digest = do
    source ← attempt (require_repo env tenant from_name)
    mount_from tenant to_name digest source

  -- DELETE … WHERE repo_id AND digest; reports the rows affected
  unfoldable pub delete_links : ℕ → Text → Sql ℕ
  unfolding is_link
  delete_links repo_id digest =
      execute
        (λ t. record t {
          links = (env.sql.table RepoBlobLink).delete (is_link repo_id digest) t.links;
        })
        (λ t. (env.sql.table RepoBlobLink).affected (is_link repo_id digest) t.links)

  unfoldable pub delete_blob : TenantId → RepoName → Digest → Reg Unit
  delete_blob tenant name digest = do
    repo_id ← require_repo env tenant name
    rows_affected ← on_db (delete_links repo_id (to_string digest))
    if rows_affected == 0 then raise unknown_blob else pure tt

  -- A digest that does not match ends the upload.
  abbrev pub mismatch : Digest → Digest → RegistryError
  mismatch found digest = oci (detailed digest_invalid (computed found digest))

  -- `monolithic_upload` behind the computation of the digest
  unfoldable pub link_or_delete : ℕ → Digest → Digest → Reg Unit
  link_or_delete repo_id digest found =
      if digest_eq found digest
      then (do
        size ← on_storage (Filesystem.blob_size digest)
        on_db (
            upsert_link
              (record { repo_id = repo_id; digest = to_string digest; size = as_i64 size })))
      else (do attempt (on_storage (Filesystem.delete_blob digest)); raise (mismatch found digest))

  -- `uuid` names the temporary file.
  unfoldable pub monolithic_upload : Text → TenantId → RepoName → Digest → Reader → Reg Unit
  monolithic_upload uuid tenant name digest data_ = do
    repo_id ← ensure_repository env tenant name
    on_storage (Filesystem.put_blob uuid digest data_)
    reader ← on_storage (Filesystem.get_blob digest)
    found ← compute_digest env.hash reader
    link_or_delete repo_id digest found
