-- ===== src/Registry/Manifests.antt =====
-- src/registry.rs, the operations on manifests and tags.
use mathlib.Core.Option
use distribution_rs.Prelude.{
  ℕ, ◌+◌, Bool, ◌&&◌, ◌||◌, Option, none, some, List, [], ◌∷◌, Result, ok, err, length, ◌==◌,
  if◌then◌else◌,
}
use distribution_rs.Prelude.Text.{Text, codes, text_eq}
use distribution_rs.Error.{
  RegistryError, oci, detailed, text, types_error, body_digest, json_error, manifest_unknown,
  manifest_invalid, manifest_blob_unknown, digest_invalid,
}
use distribution_rs.Exec.{pure, raise, from_option, ◌>>=◌, ◌>>◌}
use distribution_rs.Database.{
  Manifest, Tag, Referrer, Tables, Sql, select, execute, transaction, rollback,
}
use distribution_rs.Registry.{Env, Reg, on_db, on_storage, as_i64, parsed_digest, digest_eq}
use distribution_rs.Registry.Blobs.{find_link}
use distribution_rs.Registry.Repositories.{ensure_repository, require_repo}
use distribution_rs.Storage.Files.{Bytes}
use distribution_rs.Storage.Filesystem
use distribution_rs.Types.Digest
use distribution_rs.Types.Digest.{Digest, validate_digest}
use distribution_rs.Types.Error.{TypesError}
use distribution_rs.Types.Ids.{TenantId}
use distribution_rs.Types.Reference
use distribution_rs.Types.Reference.{Reference, tag, digest}
use distribution_rs.Types.RepoName.{RepoName}

unfoldable pub is_manifest : ℕ → Text → Manifest → Bool
unfolding text_eq
is_manifest repo_id d m = (m.repo_id == repo_id) && text_eq m.digest d

unfoldable pub same_manifest : Manifest → Manifest → Bool
unfolding text_eq
same_manifest new old = (old.repo_id == new.repo_id) && text_eq old.digest new.digest

unfoldable pub is_tag : ℕ → Text → Tag → Bool
unfolding text_eq
is_tag repo_id name t = (t.repo_id == repo_id) && text_eq t.name name

unfoldable pub same_tag : Tag → Tag → Bool
unfolding text_eq
same_tag new old = (old.repo_id == new.repo_id) && text_eq old.name new.name

-- The tags of a repository that point to a digest.
unfoldable pub points_to : ℕ → Text → Tag → Bool
unfolding text_eq
points_to repo_id d t = (t.repo_id == repo_id) && text_eq t.digest d

unfoldable pub refers_from : ℕ → Text → Referrer → Bool
unfolding text_eq
refers_from repo_id d r = (r.repo_id == repo_id) && text_eq r.referrer_digest d

unfoldable pub same_referrer : Referrer → Referrer → Bool
unfolding text_eq
same_referrer new old =
    (old.repo_id == new.repo_id)
    && text_eq old.subject_digest new.subject_digest
    && text_eq old.referrer_digest new.referrer_digest

-- `OciError::manifest_unknown(detail)`
abbrev pub unknown_manifest : Text → RegistryError
unknown_manifest reference = oci (detailed manifest_unknown (text reference))

-- `OciError::manifest_blob_unknown(digest)`
abbrev pub unknown_part : Text → RegistryError
unknown_part d = oci (detailed manifest_blob_unknown (text d))

module _ (env : Env) where
  unfoldable pub find_manifest : ℕ → Text → Tables → Option Manifest
  unfolding is_manifest
  find_manifest repo_id d t = (env.sql.table Manifest).one (is_manifest repo_id d) t.manifests

  unfoldable pub find_tag : ℕ → Text → Tables → Option Tag
  unfolding is_tag
  find_tag repo_id name t = (env.sql.table Tag).one (is_tag repo_id name) t.tags

  -- `resolve_digest`
  unfoldable pub resolve_digest : ℕ → Reference → Reg Digest
  resolve_digest repo_id (digest d) = pure d
  resolve_digest repo_id (tag t) = do
    row ← on_db (select (find_tag repo_id t.as_str))
    found ← from_option row (unknown_manifest t.as_str)
    elim (validate_digest found.digest) [
      | ok d ↦ pure d
      | err e ↦ raise (oci (detailed manifest_unknown (types_error e)))
    ]

  -- A digest of the manifest that must be linked in the repository.
  unfoldable pub require_part : ℕ → Text → Reg Unit
  require_part repo_id d = do
    link ← on_db (select (find_link env repo_id d))
    elim link [ none ↦ raise (unknown_part d) | some _ ↦ pure tt ]

  unfoldable pub require_parts : ℕ → List Text → Reg Unit
  require_parts repo_id [] = pure tt
  require_parts repo_id (d ∷ ds) = do require_part repo_id d; require_parts repo_id ds

  -- A manifest of an index that must be there.
  unfoldable pub require_manifests : ℕ → List Text → Reg Unit
  require_manifests repo_id [] = pure tt
  require_manifests repo_id (d ∷ ds) = do
    row ← on_db (select (find_manifest repo_id d))
    elim row [ none ↦ raise (unknown_part d) | some _ ↦ require_manifests repo_id ds ]

  abbrev pub invalid_manifest : RegistryError
  invalid_manifest = oci (detailed manifest_invalid json_error)

  -- `validate_manifest_references`
  unfoldable pub validate_manifest_references : ℕ → Bytes → Text → Reg Unit
  unfolding text_eq
  validate_manifest_references repo_id data_ media_type =
      if text_eq media_type (codes "application/vnd.oci.image.manifest.v1+json")
        || text_eq media_type (codes "application/vnd.docker.distribution.manifest.v2+json")
      then (do
        m ← from_option (env.json.image_manifest data_) invalid_manifest
        require_parts repo_id (m.config ∷ m.layers))
      else if text_eq media_type (codes "application/vnd.oci.image.index.v1+json")
          || text_eq media_type (codes "application/vnd.docker.distribution.manifest.list.v2+json")
      then (do
        ds ← from_option (env.json.image_index data_) invalid_manifest
        require_manifests repo_id ds)
      else pure tt

  -- The row of the manifest that a reference names, with its digest.
  unfoldable pub require_manifest : TenantId → RepoName → Reference → Reg (ℕ × Digest × Manifest)
  require_manifest tenant name reference = do
    repo_id ← require_repo env tenant name
    d ← resolve_digest repo_id reference
    row ← on_db (select (find_manifest repo_id (Digest.to_string d)))
    found ← from_option row (unknown_manifest (Reference.to_string reference))
    pure (repo_id, d, found)

  -- UPDATE tags SET last_pulled_at, pull_count + 1; `pull_count` is an `i32` column
  unfoldable pub count_pull : ℕ → Text → Text → Sql Unit
  unfolding points_to
  count_pull repo_id d now =
      execute
        (λ t. record t {
          tags =
              (env.sql.table Tag).update (points_to repo_id d)
                (λ r. record r { last_pulled_at = some now; pull_count = r.pull_count + 1 }) t.tags;
        })
        (λ _. tt)

  -- The bytes, the media type and the digest.
  unfoldable pub get_manifest : Text → TenantId → RepoName → Reference → Reg (Bytes × Text × Digest)
  get_manifest now tenant name reference = do
    found ← require_manifest tenant name reference
    bytes ← on_storage (Filesystem.get_manifest_bytes found.1)
    on_db (count_pull found.0 (Digest.to_string found.1) now)
    pure (bytes, found.2.media_type, found.1)

  -- The media type, the digest and the size.
  unfoldable pub head_manifest : TenantId → RepoName → Reference → Reg (Text × Digest × ℕ)
  head_manifest tenant name reference = do
    found ← require_manifest tenant name reference
    pure (found.2.media_type, found.1, found.2.size)

  -- INSERT … ON CONFLICT (repo_id, digest) DO UPDATE SET media_type, size
  unfoldable pub upsert_manifest : Manifest → Sql Unit
  unfolding same_manifest
  upsert_manifest m =
      execute
        (λ t. record t {
          manifests =
              (env.sql.table Manifest).upsert same_manifest
                (λ new old. record old { media_type = new.media_type; size = new.size }) m
                t.manifests;
        })
        (λ _. tt)

  -- INSERT … ON CONFLICT (repo_id, name) DO UPDATE SET digest, updated_at
  unfoldable pub upsert_tag : Tag → Sql Unit
  unfolding same_tag
  upsert_tag r =
      execute
        (λ t. record t {
          tags =
              (env.sql.table Tag).upsert same_tag
                (λ new old. record old { digest = new.digest; updated_at = new.updated_at }) r
                t.tags;
        })
        (λ _. tt)

  unfoldable pub upsert_referrer : Referrer → Sql Unit
  unfolding same_referrer
  upsert_referrer r =
      execute
        (λ t. record t {
          referrers =
              (env.sql.table Referrer).upsert same_referrer
                (λ new old. record old {
                  artifact_type = new.artifact_type;
                  media_type = new.media_type;
                  size = new.size;
                  annotations = new.annotations;
                })
                r t.referrers;
        })
        (λ _. tt)

  -- A tag is written only where the reference is a tag.
  unfoldable pub upsert_reference : ℕ → Reference → Text → Text → Sql Unit
  upsert_reference repo_id (digest _) d now = pure tt
  upsert_reference repo_id (tag t) d now = upsert_tag (record {
    repo_id = repo_id;
    name = t.as_str;
    digest = d;
    updated_at = now;
    last_pulled_at = none;
    pull_count = 0;
  })

  -- `manifest_value`, and its fields that the code reads
  module _ (data_ : Bytes) where
    open env.json use {Value, from_slice, null, get, as_str, to_text}

    abbrev or_null : Option Value → Value
    or_null none = null
    or_null (some v) = v

    abbrev manifest_value : Value
    manifest_value = or_null (from_slice data_)

    abbrev field_text : Text → Value → Option Text
    field_text key v = Option.bind (get key v) as_str

    unfoldable pub subject_digest : Option Text
    subject_digest =
        Option.bind (get (codes "subject") manifest_value) (field_text (codes "digest"))

    abbrev or_else : Option Text → Option Text → Option Text
    or_else none o = o
    or_else (some x) o = some x

    unfoldable pub artifact_type : Option Text
    artifact_type =
        or_else (field_text (codes "artifactType") manifest_value)
          (Option.bind (get (codes "config") manifest_value) (field_text (codes "mediaType")))

    unfoldable pub annotations : Option Text
    annotations = Option.map to_text (get (codes "annotations") manifest_value)

  -- A referrer is recorded only where the manifest has a subject.
  unfoldable pub track_referrer : ℕ → Text → Text → Bytes → Option Text → Sql Unit
  track_referrer repo_id d media_type data_ none = pure tt
  track_referrer repo_id d media_type data_ (some subject) = upsert_referrer (record {
    repo_id = repo_id;
    subject_digest = subject;
    referrer_digest = d;
    artifact_type = artifact_type data_;
    media_type = media_type;
    size = as_i64 (length data_);
    annotations = annotations data_;
  })

  -- The transaction of `put_manifest`.
  unfoldable pub record_manifest : Text → ℕ → Reference → Text → Text → Bytes → Sql Unit
  record_manifest now repo_id reference d media_type data_ = transaction do
    upsert_manifest (record {
      repo_id = repo_id;
      digest = d;
      media_type = media_type;
      size = as_i64 (length data_);
    })
    upsert_reference repo_id reference d now
    track_referrer repo_id d media_type data_ (subject_digest data_)

  -- A digest as the reference must be that of the body.
  unfoldable pub check_reference : Reference → Digest → Reg Unit
  check_reference (tag _) d = pure tt
  check_reference (digest expected) d =
      if digest_eq expected d
      then pure tt
      else raise (oci (detailed digest_invalid (body_digest d expected)))

  -- `digest_str.parse()` with the error of `put_manifest`
  abbrev pub body_parsed : Result {0, 0} TypesError Digest → Reg Digest
  body_parsed (ok d) = pure d
  body_parsed (err e) = raise (oci (detailed digest_invalid (types_error e)))

  -- The digest of the body, and the subject that its manifest names.
  unfoldable pub put_manifest :
      Text → Text → TenantId → RepoName → Reference → Text → Bytes → Reg (Digest × Option Text)
  put_manifest uuid now tenant name reference media_type data_ = do
    d ← body_parsed (parsed_digest env.hash data_)
    check_reference reference d
    repo_id ← ensure_repository env tenant name
    validate_manifest_references repo_id data_ media_type
    on_storage (Filesystem.put_manifest_bytes uuid d data_)
    on_db (record_manifest now repo_id reference (Digest.to_string d) media_type data_)
    pure (d, subject_digest data_)

  unfoldable pub delete_tags : ℕ → Text → Sql Unit
  unfolding points_to
  delete_tags repo_id d =
      execute (λ t. record t { tags = (env.sql.table Tag).delete (points_to repo_id d) t.tags })
        (λ _. tt)

  unfoldable pub delete_referrers : ℕ → Text → Sql Unit
  unfolding refers_from
  delete_referrers repo_id d =
      execute
        (λ t. record t {
          referrers = (env.sql.table Referrer).delete (refers_from repo_id d) t.referrers;
        })
        (λ _. tt)

  unfoldable pub delete_manifests : ℕ → Text → Sql ℕ
  unfolding is_manifest
  delete_manifests repo_id d =
      execute
        (λ t. record t {
          manifests = (env.sql.table Manifest).delete (is_manifest repo_id d) t.manifests;
        })
        (λ t. (env.sql.table Manifest).affected (is_manifest repo_id d) t.manifests)

  -- The explicit rollback may fail too, and then its error is the answer.
  unfoldable pub delete_rows : ℕ → Text → Sql Unit
  delete_rows repo_id d = do
    delete_tags repo_id d
    delete_referrers repo_id d
    rows_affected ← delete_manifests repo_id d
    if rows_affected == 0 then (rollback >> raise (unknown_manifest d)) else pure tt

  unfoldable pub delete_manifest : TenantId → RepoName → Digest → Reg Unit
  delete_manifest tenant name d = do
    repo_id ← require_repo env tenant name
    on_db (transaction (delete_rows repo_id (Digest.to_string d)))
