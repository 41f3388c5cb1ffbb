-- ===== src/Registry/Stored/Bytes.antt =====
-- src/storage/filesystem.rs: the file of a manifest behind `put_manifest_bytes`, where no other
-- bytes stood there.
use distribution_rs.Prelude.{
  Bool, true, false, Option, none, some, ◌≡◌, refl, sym, ap, ◌∙◌, arith, ok, Option-cases, inl, inr,
}
use distribution_rs.Prelude.Text.{Text}
use distribution_rs.Exec.{◌>>=◌, pure, attempt}
use distribution_rs.Exec.Ensures.{Ensures, Ensures-bind, Ensures-map_err, Ensures-weaken}
use distribution_rs.Exec.Keeps.{Keeps-bind, Keeps-attempt, Keeps-map_err, Keeps-pure}
use distribution_rs.Registry.Integrity.{Ensures-rename}
use distribution_rs.Storage.Atomic.{tmp-manifest}
use distribution_rs.Storage.Blobs.{fill_tmp-Ensures}
use distribution_rs.Storage.Files.{
  FilePath, Bytes, Fs, path_eq, read, metadata_is_ok, next_fault, call, exists,
}
use distribution_rs.Storage.Filesystem
use distribution_rs.Storage.Frame.{
  Holds, Holds-fill_tmp, Holds-ensure_parent_dir, Holds-metadata_is_ok, Holds-remove_file,
}
use distribution_rs.Storage.Paths.{manifest_path, tmp_path}
use distribution_rs.Types.Digest.{Digest}

-- Each of two properties of what a state keeps.
abbrev Two : FilePath → Option Bytes → FilePath → Option Bytes → Fs → Type 0
Two p v q u s = Holds p v s × Holds q u s

-- Where there is no file, its metadata are not read.
absent : (p : FilePath) (s : Fs) → read p s.files ≡ none → (metadata_is_ok p s).0 ≡ ok false
unfolding metadata_is_ok call exists next_fault attempt pure ◌>>=◌
absent p s h = ground arith

module _ (p : FilePath) (v : Option Bytes) where
  -- A file whose metadata are read is there.
  Ensures-metadata_is_ok :
      Ensures
        (Holds p v)
        (metadata_is_ok p)
        (λ present s. Holds p v s × (present ≡ true → (b : Bytes) × (v ≡ some b)))
  Ensures-metadata_is_ok = record {
    at = λ s h present e. (
      (Holds-metadata_is_ok p v p).at s h,
      λ found. elim (Option-cases (read p s.files)) [
        | inl missing ↦ let bad : ok present ≡ ok false = sym e ∙ absent p s missing in cc
        | inr (b, there_) ↦ (b, sym h.content ∙ there_)
      ],
    );
  }

module _ (tmp target : FilePath) (off : path_eq tmp target ≡ false) (v : Option Bytes) (b : Bytes)
    (known : (x : Bytes) → v ≡ some x → x ≡ b) where
  Ensures-present :
      Ensures
        (Two tmp (some b) target v)
        (metadata_is_ok target)
        (λ present s. Two tmp (some b) target v s × (present ≡ true → v ≡ some b))
  Ensures-present = record {
    at = λ s h present e.
        let (kept, there_) = (Ensures-metadata_is_ok target v).at s h.1 present e in
        (
          ((Holds-metadata_is_ok tmp (some b) target).at s h.0, kept),
          λ found. let (x, is) = there_ found in is ∙ ap some (known x is),
        );
  }

  Ensures-settle :
      (present : Bool)
      → Ensures
          (λ s. Two tmp (some b) target v s × (present ≡ true → v ≡ some b))
          (Filesystem.settle tmp target present)
          (λ _. Holds target (some b))
  unfolding Filesystem.settle
  Ensures-settle true = record {
    at = λ s h _ e. record {
      content =
          ((Keeps-bind _ _
              (Keeps-attempt _ (Keeps-map_err _ _ (Holds-remove_file target v tmp off)))
              (λ _. Keeps-pure tt)).at
            s h.0.1).content
          ∙ h.1 refl;
    };
  }
  Ensures-settle false =
      Ensures-map_err _
        (Ensures-weaken (Ensures-rename tmp (some b) target) (λ s h. h.0.0) (λ _ s h. h))

  Ensures-publish :
      Ensures
        (Two tmp (some b) target v)
        (Filesystem.publish tmp target)
        (λ _. Holds target (some b))
  unfolding Filesystem.publish
  Ensures-publish = Ensures-bind (Ensures-map_err _ Ensures-present) Ensures-settle

  Ensures-fill_tmp :
      Ensures
        (Holds target v)
        (Filesystem.fill_tmp tmp (record { bytes = b; is_broken = false }))
        (λ _. Two tmp (some b) target v)
  Ensures-fill_tmp = record {
    at = λ s h a e. (
      ((fill_tmp-Ensures tmp (record { bytes = b; is_broken = false })).at s tt a e).0,
      (Holds-fill_tmp target v tmp (record { bytes = b; is_broken = false }) off).at s h,
    );
  }

  Ensures-parent :
      Ensures
        (Two tmp (some b) target v)
        Filesystem.ensure_parent_dir
        (λ _. Two tmp (some b) target v)
  Ensures-parent = record {
    at = λ s h a e. (
      (Holds-ensure_parent_dir tmp (some b)).at s h.0,
      (Holds-ensure_parent_dir target v).at s h.1,
    );
  }

-- Where the file of the manifest holds no other bytes, it holds these once they are put.
pub Ensures-put_manifest_bytes :
    (uuid : Text) (d : Digest) (b : Bytes) (v : Option Bytes)
    → ((x : Bytes) → v ≡ some x → x ≡ b)
    → Ensures
        (Holds (manifest_path d) v)
        (Filesystem.put_manifest_bytes uuid d b)
        (λ _. Holds (manifest_path d) (some b))
unfolding Filesystem.put_manifest_bytes Filesystem.atomic_write
Ensures-put_manifest_bytes uuid d b v known =
    Ensures-bind
      (Ensures-fill_tmp (tmp_path uuid) (manifest_path d) (tmp-manifest uuid d) v b known)
      λ _.
        Ensures-bind
          (Ensures-parent (tmp_path uuid) (manifest_path d) (tmp-manifest uuid d) v b known)
          λ _. Ensures-publish (tmp_path uuid) (manifest_path d) (tmp-manifest uuid d) v b known
