-- ===== src/Storage/Paths.antt =====
-- The paths of src/storage/filesystem.rs, below the root directory: no two contents share one.
use mathlib.Core.Bool.{false≢true}
use distribution_rs.Prelude.{false, [], ◌∷◌, ◌≡◌, refl, sym, take}
use distribution_rs.Prelude.Text.{Text, codes, text_eq, text_eq_iff}
use distribution_rs.Types.Digest.{DigestAlgorithm, sha256, sha512, Digest, as_str}
use distribution_rs.Storage.Files.{FilePath, path_eq}

-- `root_dir.join("blobs").join(algorithm).join(&hex[..2]).join(hex)`
unfoldable pub blob_path : Digest → FilePath
blob_path d = codes "blobs" ∷ as_str d.algorithm ∷ take 2 d.hex ∷ d.hex ∷ []

unfoldable pub manifest_path : Digest → FilePath
manifest_path d = codes "manifests" ∷ as_str d.algorithm ∷ take 2 d.hex ∷ d.hex ∷ []

-- by the text of the upload's UUID
unfoldable pub upload_path : Text → FilePath
upload_path id = codes "uploads" ∷ id ∷ []

-- by the text of a fresh UUID
unfoldable pub tmp_path : Text → FilePath
tmp_path uuid = codes "tmp" ∷ uuid ∷ []

pub algorithms_apart : ¬ (as_str sha256 ≡ as_str sha512)
unfolding text_eq
algorithms_apart h = false≢true ((text_eq_iff (as_str sha256) (as_str sha512)).1 h)

pub as_str-injective : (a b : DigestAlgorithm) → as_str a ≡ as_str b → a ≡ b
as_str-injective sha256 sha256 h = refl
as_str-injective sha512 sha512 h = refl
as_str-injective sha256 sha512 h = absurd (algorithms_apart h)
as_str-injective sha512 sha256 h = absurd (algorithms_apart (sym h))

pub Digest-eq : (d e : Digest) → d.algorithm ≡ e.algorithm → d.hex ≡ e.hex → d ≡ e
Digest-eq d e p q = λ i. record { algorithm = p i; hex = q i }

-- Blobs with one path have one digest.
pub blob_path-injective : (d e : Digest) → blob_path d ≡ blob_path e → d ≡ e
unfolding blob_path
blob_path-injective d e h = Digest-eq d e (as_str-injective d.algorithm e.algorithm (cc)) (cc)

pub manifest_path-injective : (d e : Digest) → manifest_path d ≡ manifest_path e → d ≡ e
unfolding manifest_path
manifest_path-injective d e h = Digest-eq d e (as_str-injective d.algorithm e.algorithm (cc)) (cc)

-- Tests between paths of different kinds.
module _ (d e : Digest) (s t : Text) where
  pub blob-manifest : path_eq (blob_path d) (manifest_path e) ≡ false
  unfolding path_eq text_eq blob_path manifest_path
  blob-manifest = refl

  pub manifest-blob : path_eq (manifest_path d) (blob_path e) ≡ false
  unfolding path_eq text_eq blob_path manifest_path
  manifest-blob = refl

  pub upload-blob : path_eq (upload_path s) (blob_path e) ≡ false
  unfolding path_eq text_eq blob_path upload_path
  upload-blob = refl
