-- ===== src/Storage/Filesystem.antt =====
-- src/storage/filesystem.rs, `FilesystemStorage` as the implementation of the `Storage` trait.
-- The text of a fresh UUID for a temporary file is an argument, as is the text of an upload's id.
use Prim.Native.String.{String}
use distribution_rs.Prelude.{
  ℕ, ◌+◌, ◌%◌, ◌^◌, Bool, true, false, Option, none, some, List, [], ◌∷◌, Result, ok, err, take,
  drop,
}
use distribution_rs.Prelude.Text.{Text, codes}
use distribution_rs.Error.{IoError, not_found, other, StorageError, context, bare}
use distribution_rs.Exec.{Exec, pure, raise, gets, attempt, map_err, ◌>>=◌, ◌>>◌}
use distribution_rs.Types.Digest.{Digest}
use distribution_rs.Storage.Files.{
  FilePath, Bytes, Reader, Fs, next_fault, call, metadata_is_ok, metadata_len, open_file,
  file_bytes, create, copy, rename, remove_file, read_dir,
}
use distribution_rs.Storage.Paths.{blob_path, manifest_path, upload_path, tmp_path}

abbrev pub Store : Type 0 → Type 0
Store A = Exec Fs StorageError A

-- `with_context`
abbrev with_context : {A : Type 0} → String → Exec Fs IoError A → Store A
with_context s m = map_err (context s) m

-- `FilesystemStorage::new`: one `create_dir_all` for each directory.
unfoldable pub new : Store Unit
new = do
  with_context "creating blobs directory" call
  with_context "creating manifests directory" call
  with_context "creating uploads directory" call
  with_context "creating tmp directory" call

unfoldable pub ensure_parent_dir : Store Unit
ensure_parent_dir = with_context "creating parent directory" call

-- The buffer of `write_all` as a reader.
abbrev buffer : Bytes → Reader
buffer b = record { bytes = b; is_broken = false }

-- A reader over an open file, which may fail after some bytes.
abbrev pub cut : Bytes → Option ℕ → Reader
cut b none = record { bytes = b; is_broken = false }
cut b (some k) = record { bytes = take k b; is_broken = true }

unfoldable pub read_open : String → FilePath → Store Reader
read_open s p = do
  with_context s (open_file p)
  b ← with_context s (file_bytes p)
  f ← with_context s next_fault
  pure (cut b f)

-- The temporary file is dropped where the target is present, and becomes the target otherwise.
unfoldable pub settle : FilePath → FilePath → Bool → Store Unit
settle tmp target true = do attempt (map_err bare (remove_file tmp)); pure tt
settle tmp target false = with_context "renaming temp file" (rename tmp target)

-- From the test for the target to the rename.
unfoldable pub publish : FilePath → FilePath → Store Unit
publish tmp target = do present ← map_err bare (metadata_is_ok target); settle tmp target present

-- A temporary file with the bytes of a reader, synced and closed. The texts of the contexts stand
-- for those of both writers.
unfoldable pub fill_tmp : FilePath → Reader → Store Unit
fill_tmp tmp data_ = do
  ensure_parent_dir
  with_context "creating temp file" (create tmp)
  with_context "writing temp file" (copy tmp 0 data_)
  with_context "fsync temp file" call

unfoldable pub atomic_write : Text → FilePath → Bytes → Store Unit
atomic_write uuid target b = do
  fill_tmp (tmp_path uuid) (buffer b)
  ensure_parent_dir
  publish (tmp_path uuid) target

unfoldable pub blob_exists : Digest → Store Bool
blob_exists d = map_err bare (metadata_is_ok (blob_path d))

unfoldable pub get_blob : Digest → Store Reader
get_blob d = read_open "opening blob" (blob_path d)

-- `seek` to the offset, then `take(length)`
unfoldable pub get_blob_range : Digest → ℕ → ℕ → Store Reader
get_blob_range d offset length = do
  r ← read_open "opening blob" (blob_path d)
  with_context "seeking blob" call
  pure (record r { bytes = take length (drop offset r.bytes) })

-- Nothing is written for a blob that is present.
unfoldable pub put_absent : Text → Digest → Reader → Bool → Store Unit
put_absent uuid d data_ true = pure tt
put_absent uuid d data_ false = do
  fill_tmp (tmp_path uuid) data_
  ensure_parent_dir
  publish (tmp_path uuid) (blob_path d)

unfoldable pub put_blob : Text → Digest → Reader → Store Unit
put_blob uuid d data_ = do
  present ← map_err bare (metadata_is_ok (blob_path d))
  put_absent uuid d data_ present

-- A file that is not there counts as deleted.
unfoldable pub or_deleted : String → Result {0, 0} IoError (Unit {0}) → Store Unit
or_deleted s (ok _) = pure tt
or_deleted s (err not_found) = pure tt
or_deleted s (err other) = raise (context s other)

unfoldable pub delete_file : String → FilePath → Store Unit
delete_file s p = do r ← map_err bare (attempt (remove_file p)); or_deleted s r

unfoldable pub delete_blob : Digest → Store Unit
delete_blob d = delete_file "deleting blob" (blob_path d)

unfoldable pub blob_size : Digest → Store ℕ
blob_size d = with_context "stat blob" (metadata_len (blob_path d))

unfoldable pub get_manifest_bytes : Digest → Store Bytes
get_manifest_bytes d =
    with_context "reading manifest" do open_file (manifest_path d); file_bytes (manifest_path d)

unfoldable pub put_manifest_bytes : Text → Digest → Bytes → Store Unit
put_manifest_bytes uuid d b = atomic_write uuid (manifest_path d) b

unfoldable pub delete_manifest_bytes : Digest → Store Unit
delete_manifest_bytes d = delete_file "deleting manifest" (manifest_path d)

unfoldable pub create_upload : Text → Store Unit
create_upload id = do
  ensure_parent_dir
  with_context "creating upload file" (create (upload_path id))

-- Returns the next write offset, a `u64`.
unfoldable pub write_upload_chunk : Text → Reader → ℕ → Store ℕ
write_upload_chunk id data_ offset = do
  with_context "opening upload file" (open_file (upload_path id))
  with_context "seeking upload" call
  written ← with_context "writing upload chunk" (copy (upload_path id) offset data_)
  pure ((offset + written) % 2 ^ 64)

unfoldable pub get_upload_reader : Text → Store Reader
get_upload_reader id = read_open "opening upload file" (upload_path id)

unfoldable pub complete_upload : Text → Digest → Store Unit
complete_upload id d = do
  ensure_parent_dir
  with_context "opening upload file for fsync" (open_file (upload_path id))
  with_context "fsync upload file" call
  with_context "renaming upload to blob" (rename (upload_path id) (blob_path d))

unfoldable pub abort_upload : Text → Store Unit
abort_upload id = delete_file "aborting upload" (upload_path id)

-- The loop over `next_entry`.
unfoldable pub collect_ids : List Text → Store (List Text)
collect_ids [] = do map_err bare call; pure []
collect_ids (name ∷ names) = do map_err bare call; ids ← collect_ids names; pure (name ∷ ids)

unfoldable pub list_upload_ids : Store (List Text)
list_upload_ids = do
  names ← with_context "reading uploads dir" (read_dir (codes "uploads"))
  collect_ids names

abbrev count_removed : Result {0, 0} IoError (Unit {0}) → ℕ
count_removed (ok _) = 1
count_removed (err _) = 0

-- The loop over `next_entry`: a file that cannot be removed is passed over.
unfoldable pub clean_names : List Text → Store ℕ
clean_names [] = do map_err bare call; pure 0
clean_names (name ∷ names) = do
  map_err bare call
  r ← map_err bare (attempt (remove_file (tmp_path name)))
  removed ← clean_names names
  pure (count_removed r + removed)

unfoldable pub cleanup_tmp : Store ℕ
cleanup_tmp = do names ← with_context "reading tmp dir" (read_dir (codes "tmp")); clean_names names

-- Naming this opens all of the storage.
unfoldable pub storage_code : ℕ
unfolding next_fault call metadata_is_ok metadata_len open_file file_bytes create copy rename
    remove_file read_dir pure raise gets attempt map_err ◌>>=◌ new ensure_parent_dir read_open
    settle publish fill_tmp atomic_write blob_exists get_blob get_blob_range put_absent put_blob
    or_deleted delete_file delete_blob blob_size get_manifest_bytes put_manifest_bytes
    delete_manifest_bytes create_upload write_upload_chunk get_upload_reader complete_upload
    abort_upload collect_ids list_upload_ids clean_names cleanup_tmp blob_path manifest_path
    upload_path tmp_path
storage_code = 0
