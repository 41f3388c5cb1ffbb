-- ===== src/Storage/Blobs.antt =====
-- What the operations of the storage write, on every outcome.
use distribution_rs.Prelude.{
  ℕ, zero, suc, Bool, true, false, Option, none, some, [], ◌≡◌, ◌⊎◌, inl, refl, arith, length, drop,
}
use distribution_rs.Error.{other, StorageError, bare, context}
use distribution_rs.Exec.{map_err}
use distribution_rs.Exec.Keeps.{Keeps-bind, Keeps-bind_at, Keeps-map_err, Keeps-attempt, Keeps-pure}
use distribution_rs.Exec.Ensures.{
  Ensures, Ensures-bind, Ensures-map_err, Ensures-Keeps, Ensures-pure, Ensures-if, Ensures-raise,
}
use mathlib.Core.List.{append-nil}
use distribution_rs.Storage.Files.{
  FilePath, Bytes, Reader, Fs, path_eq, path_eq_iff, read, read-write, write_at, or_empty,
  metadata_is_ok, create, put_at, copy, copied, rename, remove, call,
}
use distribution_rs.Storage.Filesystem
use distribution_rs.Storage.Frame.{
  Holds, Holds-next_fault, Holds-call, Holds-remove_file, Holds-metadata_is_ok,
}

pub path_eq_refl : (p : FilePath) → path_eq p p ≡ true
path_eq_refl p = (path_eq_iff p p).1 refl

drop-nil : (n : ℕ) → ◌≡◌ {A = Bytes} (drop n []) []
drop-nil zero = refl
drop-nil (suc n) = refl

write_at_nil : (d : Bytes) → write_at 0 d [] ≡ d
unfolding write_at
write_at_nil d = rw drop-nil (append-nil d)

module _ (p : FilePath) where
  Ensures-create : Ensures (λ _. Unit {0}) (create p) (λ _. Holds p (some []))
  unfolding create
  Ensures-create = record {
    at = λ s _ a h. record {
      content = ground (arith, path_eq_refl p, read-write p p [] (call s).1.files);
    };
  }

  module _ (v : Option Bytes) where
    Ensures-put_at :
        (o : ℕ) (d : Bytes)
        → Ensures (Holds p v) (put_at p o d) (λ _. Holds p (some (write_at o d (or_empty v))))
    unfolding put_at
    Ensures-put_at o d = record {
      at = λ s h a e. record { content = rw (read-write, path_eq_refl, h.content) };
    }

    abbrev Copied : ℕ → Reader → ℕ → Fs → Type 0
    Copied o r n s =
        Holds p (some (write_at o r.bytes (or_empty v))) s
        × (r.is_broken ≡ false)
        × (n ≡ length r.bytes)

    Ensures-copied :
        (o : ℕ) (r : Reader) (f : Option ℕ) → Ensures (Holds p v) (copied p o r f) (Copied o r)
    Ensures-copied o r (some k) = Ensures-bind (Ensures-put_at o _) (λ _. Ensures-raise other)
    Ensures-copied o r none = Ensures-bind (Ensures-put_at o r.bytes) (λ _.
        Ensures-if r.is_broken (λ _. Ensures-raise _) (λ e. Ensures-pure _ (λ s h. (h, e, refl))))

    -- A copy that returns has written all that the reader delivers, and the reader ended.
    pub Ensures-copy : (o : ℕ) (r : Reader) → Ensures (Holds p v) (copy p o r) (Copied o r)
    unfolding copy
    Ensures-copy o r = Ensures-bind (Ensures-Keeps (Holds-next_fault p v)) (Ensures-copied o r)

-- A temporary file holds all that the reader delivers once it is filled, and the reader ended.
pub fill_tmp-Ensures :
    (p : FilePath) (r : Reader)
    → Ensures
        (λ _. Unit {0})
        (Filesystem.fill_tmp p r)
        (λ _ s. Holds p (some r.bytes) s × (r.is_broken ≡ false))
unfolding Filesystem.fill_tmp Filesystem.ensure_parent_dir
fill_tmp-Ensures p r = Ensures-bind (Ensures-map_err _ (record { at = λ s h a e. tt })) λ _.
    Ensures-bind (Ensures-map_err _ (Ensures-create p)) λ _.
      Ensures-bind (Ensures-map_err _ (Ensures-copy p (some []) 0 r)) λ n. record {
        at = λ s h a e. (
          rw write_at_nil at (
              (Keeps-map_err {F = StorageError} (context "fsync temp file") call
                  (Holds-call p (some (write_at 0 r.bytes [])))).at
                s h.0),
          h.1,
        );
      }

-- The target of a reader's bytes holds what it held, or else the whole of what the reader
-- delivered before it ended.
abbrev pub OldOrWhole : FilePath → Option Bytes → Reader → Fs → Type 0
OldOrWhole target v r s =
    (read target s.files ≡ v) ⊎ ((read target s.files ≡ some r.bytes) × (r.is_broken ≡ false))

module _ (tmp target : FilePath) (off : path_eq tmp target ≡ false) (v : Option Bytes) (r : Reader)
    (ended : r.is_broken ≡ false) where
  rename_old_or :
      (s : Fs)
      → Holds tmp (some r.bytes) s
      → Holds target v s
      → OldOrWhole target v r (rename tmp target s).1
  unfolding rename
  rename_old_or s ht hv = ground (
    arith,
    ended,
    ht.content,
    hv.content,
    path_eq_refl target,
    read-write target target r.bytes (remove tmp s.files),
  )

  settle-OldOrWhole :
      (present : Bool) (s : Fs)
      → Holds tmp (some r.bytes) s
      → Holds target v s
      → OldOrWhole target v r (Filesystem.settle tmp target present s).1
  unfolding Filesystem.settle map_err
  settle-OldOrWhole true s ht hv =
      inl
        ((Keeps-bind _ _ (Keeps-attempt _ (Keeps-map_err _ _ (Holds-remove_file target v tmp off)))
            (λ _. Keeps-pure tt)).at
          s hv).content
  settle-OldOrWhole false s ht hv = rename_old_or s ht hv

  pub publish-OldOrWhole :
      (s : Fs)
      → Holds tmp (some r.bytes) s
      → Holds target v s
      → OldOrWhole target v r (Filesystem.publish tmp target s).1
  unfolding Filesystem.publish map_err
  publish-OldOrWhole s ht hv =
      let hv' = (Holds-metadata_is_ok target v target).at s hv in
      let ht' = (Holds-metadata_is_ok tmp (some r.bytes) target).at s ht in
      Keeps-bind_at (OldOrWhole target v r) (map_err bare (metadata_is_ok target))
        (Filesystem.settle tmp target) s (inl hv'.content)
        (λ present _. settle-OldOrWhole present _ ht' hv')
