-- ===== src/Storage/Atomic.antt =====
-- Blobs and manifests appear whole or not at all, whichever call fails.
use distribution_rs.Prelude.{Bool, true, false, Option, some, ◌≡◌, ◌⊎◌, inl, inr, refl}
use distribution_rs.Prelude.Text.{Text, text_eq}
use distribution_rs.Error.{bare}
use distribution_rs.Exec.{pure, map_err, ◌>>◌}
use distribution_rs.Exec.Keeps.{Keeps-bind_at}
use distribution_rs.Types.Digest.{Digest}
use distribution_rs.Storage.Files.{FilePath, Bytes, Reader, Fs, path_eq, read, metadata_is_ok}
use distribution_rs.Storage.Paths.{blob_path, manifest_path, tmp_path}
use distribution_rs.Storage.Filesystem
use distribution_rs.Storage.Frame.{
  Holds, Holds-fill_tmp, Holds-ensure_parent_dir, Holds-metadata_is_ok,
}
use distribution_rs.Storage.Blobs.{OldOrWhole, fill_tmp-Ensures, publish-OldOrWhole}

-- The three steps that end both writers.
write_whole : FilePath → FilePath → Reader → Filesystem.Store Unit
write_whole tmp target r = do
  Filesystem.fill_tmp tmp r
  Filesystem.ensure_parent_dir
  Filesystem.publish tmp target

module _ (tmp target : FilePath) (off : path_eq tmp target ≡ false) (v : Option Bytes)
    (r : Reader) where
  write_whole-OldOrWhole :
      (s : Fs) → Holds target v s → OldOrWhole target v r (write_whole tmp target r s).1
  unfolding write_whole
  write_whole-OldOrWhole s hv =
      let hv' = (Holds-fill_tmp target v tmp r off).at s hv in
      let hv'' = (Holds-ensure_parent_dir target v).at _ hv' in
      Keeps-bind_at (OldOrWhole target v r) (Filesystem.fill_tmp tmp r)
        (λ _. Filesystem.ensure_parent_dir >> Filesystem.publish tmp target) s (inl hv'.content)
        λ a filled.
          let (ht', ended) = (fill_tmp-Ensures tmp r).at s tt a filled in
          let ht'' = (Holds-ensure_parent_dir tmp (some r.bytes)).at _ ht' in
          Keeps-bind_at (OldOrWhole target v r) Filesystem.ensure_parent_dir
            (λ _. Filesystem.publish tmp target) _ (inl hv''.content)
            λ _ _. publish-OldOrWhole tmp target off v r ended _ ht'' hv''

-- A path of a temporary file is no path of a blob or a manifest.
tmp-blob : (u : Text) (d : Digest) → path_eq (tmp_path u) (blob_path d) ≡ false
unfolding path_eq text_eq tmp_path blob_path
tmp-blob u d = refl

pub tmp-manifest : (u : Text) (d : Digest) → path_eq (tmp_path u) (manifest_path d) ≡ false
unfolding path_eq text_eq tmp_path manifest_path
tmp-manifest u d = refl

put_absent-OldOrWhole :
    (uuid : Text) (d : Digest) (r : Reader) (v : Option Bytes) (present : Bool) (s : Fs)
    → Holds (blob_path d) v s
    → OldOrWhole (blob_path d) v r (Filesystem.put_absent uuid d r present s).1
unfolding Filesystem.put_absent write_whole pure
put_absent-OldOrWhole uuid d r v true s h = inl h.content
put_absent-OldOrWhole uuid d r v false s h =
    write_whole-OldOrWhole (tmp_path uuid) (blob_path d) (tmp-blob uuid d) v r s h

-- Whatever fails, and whether the call returns or not, behind `put_blob` the blob's file is as it
-- was or holds all that the reader delivered before it ended: a broken reader publishes nothing.
pub put_blob_atomic :
    (uuid : Text) (d : Digest) (r : Reader) (s : Fs)
    → OldOrWhole (blob_path d) (read (blob_path d) s.files) r (Filesystem.put_blob uuid d r s).1
unfolding Filesystem.put_blob map_err
put_blob_atomic uuid d r s =
    let v = read (blob_path d) s.files in
    let h = (Holds-metadata_is_ok (blob_path d) v (blob_path d)).at s (record { content = refl }) in
    Keeps-bind_at (OldOrWhole (blob_path d) v r) (map_err bare (metadata_is_ok (blob_path d)))
      (Filesystem.put_absent uuid d r) s (inl h.content)
      λ present _. put_absent-OldOrWhole uuid d r v present _ h

-- Whatever fails, and whether the call returns or not, behind `put_manifest_bytes` the manifest's
-- file is as it was or holds the whole of the bytes.
pub put_manifest_bytes_atomic :
    (uuid : Text) (d : Digest) (b : Bytes) (s : Fs)
    → let s' = (Filesystem.put_manifest_bytes uuid d b s).1 in
      (read (manifest_path d) s'.files ≡ read (manifest_path d) s.files)
      ⊎ (read (manifest_path d) s'.files ≡ some b)
unfolding Filesystem.put_manifest_bytes Filesystem.atomic_write write_whole
put_manifest_bytes_atomic uuid d b s =
    elim (write_whole-OldOrWhole (tmp_path uuid) (manifest_path d) (tmp-manifest uuid d) _
      (record { bytes = b; is_broken = false }) s (record { content = refl })) [
        | inl same ↦ inl same
        | inr whole ↦ inr whole.0
      ]
