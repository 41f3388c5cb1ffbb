-- ===== src/Storage/Frame.antt =====
-- What an operation of the storage leaves alone: a rule for each call of the file system, and the
-- operations by those rules. Each holds on every outcome, failures at any call included.
use Prim.Native.String.{String}
use distribution_rs.Prelude.{
  ℕ, Bool, true, false, Option, none, some, List, [], ◌∷◌, ◌≡◌, arith, Result, ok, err,
}
use distribution_rs.Prelude.Text.{Text}
use distribution_rs.Error.{IoError, not_found, other}
use distribution_rs.Exec.{◌>>=◌}
use distribution_rs.Exec.Keeps.{Keeps, Keeps-bind, keeps_rules}
use distribution_rs.Types.Digest.{Digest}
use distribution_rs.Storage.Files.{
  FilePath, Bytes, Reader, Fs, path_eq, read, remove, read-write, read-remove, next_fault, call,
  exists, metadata_is_ok, metadata_len, open_file, file_bytes, create, put_at, copied, copy, moved,
  rename, remove_file, read_dir,
}
use distribution_rs.Storage.Paths.{blob_path, upload_path, tmp_path}
use distribution_rs.Storage.Filesystem

-- The file at `q` is as it was.
pub record Holds (q : FilePath) (v : Option Bytes) (s : Fs) : Type 0 where
  pub content : read q s.files ≡ v

module _ (q : FilePath) (v : Option Bytes) where
  pub Holds-next_fault : Keeps (Holds q v) next_fault
  unfolding next_fault
  Holds-next_fault = record { at = λ s h. ground arith }

  pub Holds-call : Keeps (Holds q v) call
  unfolding call ◌>>=◌
  Holds-call = record { at = λ s h. ground arith }

  pub Holds-exists : (p : FilePath) → Keeps (Holds q v) (exists p)
  unfolding exists ◌>>=◌
  Holds-exists p = record { at = λ s h. ground arith }

  pub Holds-metadata_is_ok : (p : FilePath) → Keeps (Holds q v) (metadata_is_ok p)
  unfolding metadata_is_ok
  Holds-metadata_is_ok p = record { at = λ s h. ground arith }

  pub Holds-metadata_len : (p : FilePath) → Keeps (Holds q v) (metadata_len p)
  unfolding metadata_len
  Holds-metadata_len p = record { at = λ s h. ground arith }

  pub Holds-open_file : (p : FilePath) → Keeps (Holds q v) (open_file p)
  unfolding open_file
  Holds-open_file p = record { at = λ s h. ground arith }

  pub Holds-file_bytes : (p : FilePath) → Keeps (Holds q v) (file_bytes p)
  unfolding file_bytes
  Holds-file_bytes p = record { at = λ s h. ground arith }

  pub Holds-read_dir : (d : Text) → Keeps (Holds q v) (read_dir d)
  unfolding read_dir
  Holds-read_dir d = record { at = λ s h. ground arith }

  module _ (p : FilePath) (off : path_eq p q ≡ false) where
    pub Holds-create : Keeps (Holds q v) (create p)
    unfolding create
    Holds-create = record { at = λ s h. ground (arith, read-write p q [] s.files) }

    pub Holds-put_at : (o : ℕ) (d : Bytes) → Keeps (Holds q v) (put_at p o d)
    unfolding put_at
    Holds-put_at o d = record { at = λ s h. record { content = rw (read-write, off) h.content } }

    pub Holds-copied : (o : ℕ) (r : Reader) (f : Option ℕ) → Keeps (Holds q v) (copied p o r f)
    Holds-copied o r none = search (keeps_rules, Holds-put_at)
    Holds-copied o r (some k) = search (keeps_rules, Holds-put_at)

    pub Holds-copy : (o : ℕ) (r : Reader) → Keeps (Holds q v) (copy p o r)
    unfolding copy
    Holds-copy o r = search (keeps_rules, Holds-next_fault, Holds-copied)

    pub Holds-remove_file : Keeps (Holds q v) (remove_file p)
    unfolding remove_file
    Holds-remove_file = record { at = λ s h. ground (arith, read-remove p q s.files) }

    pub Holds-moved :
        (r : FilePath) (b : Option Bytes) → path_eq r q ≡ false → Keeps (Holds q v) (moved p r b)
    unfolding moved
    Holds-moved r none e = record { at = λ s h. h }
    Holds-moved r (some b) e = record {
      at = λ s h. ground (arith, read-write r q b (remove p s.files), read-remove p q s.files);
    }

    pub Holds-rename : (r : FilePath) → path_eq r q ≡ false → Keeps (Holds q v) (rename p r)
    unfolding rename
    Holds-rename r e = search (keeps_rules, Holds-call, Holds-moved)

pub ruleset call_rules = (
  keeps_rules, Holds-next_fault, Holds-call, Holds-exists, Holds-metadata_is_ok, Holds-metadata_len,
  Holds-open_file, Holds-file_bytes, Holds-read_dir, Holds-create, Holds-copy, Holds-remove_file,
  Holds-rename,
)

module _ (q : FilePath) (v : Option Bytes) where
  pub Holds-fill_tmp :
      (p : FilePath) (r : Reader)
      → path_eq p q ≡ false
      → Keeps (Holds q v) (Filesystem.fill_tmp p r)
  unfolding Filesystem.fill_tmp Filesystem.ensure_parent_dir
  Holds-fill_tmp p r off = search call_rules

  pub Holds-ensure_parent_dir : Keeps (Holds q v) Filesystem.ensure_parent_dir
  unfolding Filesystem.ensure_parent_dir
  Holds-ensure_parent_dir = search call_rules

  Holds-settle :
      (p t : FilePath) (present : Bool)
      → path_eq p q ≡ false
      → path_eq t q ≡ false
      → Keeps (Holds q v) (Filesystem.settle p t present)
  unfolding Filesystem.settle
  Holds-settle p t true off off' = search call_rules
  Holds-settle p t false off off' = search call_rules

  pub Holds-publish :
      (p t : FilePath)
      → path_eq p q ≡ false
      → path_eq t q ≡ false
      → Keeps (Holds q v) (Filesystem.publish p t)
  unfolding Filesystem.publish
  Holds-publish p t off off' = search (call_rules, Holds-settle)

  Holds-put_absent :
      (uuid : Text) (d : Digest) (r : Reader) (present : Bool)
      → path_eq (tmp_path uuid) q ≡ false
      → path_eq (blob_path d) q ≡ false
      → Keeps (Holds q v) (Filesystem.put_absent uuid d r present)
  unfolding Filesystem.put_absent Filesystem.ensure_parent_dir
  Holds-put_absent uuid d r true off off' = search keeps_rules
  Holds-put_absent uuid d r false off off' =
      search (call_rules, Holds-fill_tmp, Holds-publish) depth 7

  -- Storing a blob changes no file but the temporary one and the blob's.
  pub Holds-put_blob :
      (uuid : Text) (d : Digest) (r : Reader)
      → path_eq (tmp_path uuid) q ≡ false
      → path_eq (blob_path d) q ≡ false
      → Keeps (Holds q v) (Filesystem.put_blob uuid d r)
  unfolding Filesystem.put_blob
  Holds-put_blob uuid d r off off' = search (call_rules, Holds-put_absent)

  -- Writing a file atomically changes no file but the temporary one and the target.
  pub Holds-atomic_write :
      (uuid : Text) (t : FilePath) (b : Bytes)
      → path_eq (tmp_path uuid) q ≡ false
      → path_eq t q ≡ false
      → Keeps (Holds q v) (Filesystem.atomic_write uuid t b)
  unfolding Filesystem.atomic_write Filesystem.ensure_parent_dir
  Holds-atomic_write uuid t b off off' = search (call_rules, Holds-fill_tmp, Holds-publish) depth 9

  Holds-or_deleted :
      (c : String) (r : Result IoError Unit) → Keeps (Holds q v) (Filesystem.or_deleted c r)
  unfolding Filesystem.or_deleted
  Holds-or_deleted c (ok _) = search keeps_rules
  Holds-or_deleted c (err not_found) = search keeps_rules
  Holds-or_deleted c (err other) = search keeps_rules

  -- Deleting a file changes no other.
  pub Holds-delete_file :
      (c : String) (p : FilePath)
      → path_eq p q ≡ false
      → Keeps (Holds q v) (Filesystem.delete_file c p)
  unfolding Filesystem.delete_file
  Holds-delete_file c p off = search (call_rules, Holds-or_deleted) depth 7

  pub Holds-read_open : (c : String) (p : FilePath) → Keeps (Holds q v) (Filesystem.read_open c p)
  unfolding Filesystem.read_open
  Holds-read_open c p = search call_rules depth 8

  pub Holds-blob_size : (d : Digest) → Keeps (Holds q v) (Filesystem.blob_size d)
  unfolding Filesystem.blob_size
  Holds-blob_size d = search call_rules

  pub Holds-get_manifest_bytes : (d : Digest) → Keeps (Holds q v) (Filesystem.get_manifest_bytes d)
  unfolding Filesystem.get_manifest_bytes
  Holds-get_manifest_bytes d = search call_rules

  pub Holds-get_blob_range :
      (d : Digest) (o n : ℕ) → Keeps (Holds q v) (Filesystem.get_blob_range d o n)
  unfolding Filesystem.get_blob_range
  Holds-get_blob_range d o n = search (call_rules, Holds-read_open) depth 8

  -- The operations on an upload change no file but the upload's, and on completion the blob's.
  pub Holds-create_upload :
      (id : Text)
      → path_eq (upload_path id) q ≡ false
      → Keeps (Holds q v) (Filesystem.create_upload id)
  unfolding Filesystem.create_upload Filesystem.ensure_parent_dir
  Holds-create_upload id off = search call_rules depth 7

  pub Holds-write_upload_chunk :
      (id : Text) (r : Reader) (o : ℕ)
      → path_eq (upload_path id) q ≡ false
      → Keeps (Holds q v) (Filesystem.write_upload_chunk id r o)
  unfolding Filesystem.write_upload_chunk
  Holds-write_upload_chunk id r o off = search call_rules depth 8

  pub Holds-complete_upload :
      (id : Text) (d : Digest)
      → path_eq (upload_path id) q ≡ false
      → path_eq (blob_path d) q ≡ false
      → Keeps (Holds q v) (Filesystem.complete_upload id d)
  unfolding Filesystem.complete_upload Filesystem.ensure_parent_dir
  Holds-complete_upload id d off off' = search call_rules depth 9

  Holds-collect_ids : (names : List Text) → Keeps (Holds q v) (Filesystem.collect_ids names)
  unfolding Filesystem.collect_ids
  Holds-collect_ids [] = search call_rules
  Holds-collect_ids (n ∷ names) =
      Keeps-bind _ _ (search call_rules)
        λ _. Keeps-bind _ _ (Holds-collect_ids names) λ ids. search keeps_rules

  pub Holds-list_upload_ids : Keeps (Holds q v) Filesystem.list_upload_ids
  unfolding Filesystem.list_upload_ids
  Holds-list_upload_ids = search (call_rules, Holds-collect_ids) depth 7
