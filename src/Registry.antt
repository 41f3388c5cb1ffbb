-- ===== src/Registry.antt =====
-- src/registry.rs: the state of the registry, what it takes from other crates, and the parts that
-- its operations share.
pub mod Repositories
pub mod Blobs
pub mod Manifests
pub mod Uploads
pub mod Gc
pub mod Rules
pub mod Calls
pub mod Tags
pub mod Code
pub mod Chunks
pub mod Integrity
pub mod Monolithic
pub mod Lookups
pub mod Lists
pub mod Reads
pub mod Pulls
pub mod Faults
pub mod Stored
use distribution_rs.Prelude.{
  ℕ, ◌%◌, ◌^◌, Bool, true, false, ◌&&◌, Option, none, some, List, [], ◌∷◌, ◌++◌, ◌≡◌, Result, ok,
  err, if◌then◌else◌, map,
}
use distribution_rs.Prelude.Text.{Text, codes, len, text_eq}
use distribution_rs.Error.{
  OciError, RegistryError, oci, storage, database, StorageError, bare, other, digest_error, IoError,
}
use distribution_rs.Exec.{Exec, pure, raise, map_err, focus, ◌>>=◌}
use distribution_rs.Database.{Db, Sql}
use distribution_rs.Database.Engine.{Engine}
use distribution_rs.Storage.Files.{Bytes, Reader, Fs}
use distribution_rs.Storage.Filesystem.{Store}
use distribution_rs.Types.Digest
use distribution_rs.Types.Digest.{Digest, sha256, validate_digest}
use distribution_rs.Types.Digest.RoundTrip.{AllHex}
use distribution_rs.Types.Error.{TypesError}
use distribution_rs.Types.Ids.{Uuids}

-- What `oci_spec` reads of an image manifest: the digests of the config and of the layers.
pub record ImageManifest : Type 0 where
  pub config : Text
  pub layers : List Text

-- `serde_json` and `oci_spec`.
pub record Json : Type 1 where
  pub Value : Type 0
  pub from_slice : Bytes → Option Value
  pub from_str : Text → Option Value
  pub null : Value
  pub get : Text → Value → Option Value
  pub as_str : Value → Option Text
  pub to_text : Value → Text
  pub image_manifest : Bytes → Option ImageManifest
  pub image_index : Bytes → Option (List Text)

-- `sha2` with `hex`: the text of a hash is 64 lowercase hexadecimal characters.
pub record Hash : Type 0 where
  pub sha256_hex : Bytes → Text
  pub sha256_hex-len : (b : Bytes) → len (sha256_hex b) ≡ 64
  pub sha256_hex-AllHex : (b : Bytes) → AllHex (sha256_hex b)

-- What the registry takes from other crates.
pub record Env : Type 1 where
  pub sql : Engine
  pub hash : Hash
  pub uuids : Uuids
  pub json : Json

-- `Registry`: the database connection and the storage.
pub record World : Type 0 where
  pub db : Db
  pub fs : Fs

abbrev pub Reg : Type 0 → Type 0
Reg A = Exec World RegistryError A

-- `as i64`, which is stored as the bits of the number and read back by `as u64`
abbrev pub as_i64 : ℕ → ℕ
as_i64 n = n % 2 ^ 64

module _ {A : Type 0} where
  -- A statement on the database.
  unfoldable pub on_db : Sql A → Reg A
  unfolding focus
  on_db = focus (λ (w : World). w.db) (λ db w. record w { db = db })

  -- A call of the storage; `?` makes its error a `RegistryError::Storage`.
  unfoldable pub on_storage : Store A → Reg A
  unfolding focus map_err
  on_storage m = focus (λ (w : World). w.fs) (λ fs w. record w { fs = fs }) (map_err storage m)

-- The digest of some bytes.
unfoldable pub digest_of : Hash → Bytes → Digest
digest_of hash b = record { algorithm = sha256; hex = hash.sha256_hex b }

-- `format!("sha256:{hex}").parse::<Digest>()`
unfoldable pub parsed_digest : Hash → Bytes → Result {0, 0} TypesError Digest
parsed_digest hash b = validate_digest (codes "sha256:" ++ hash.sha256_hex b)

abbrev pub computed_digest : Result {0, 0} TypesError Digest → Reg Digest
computed_digest (ok d) = pure d
computed_digest (err e) = raise (storage (digest_error e))

-- `Registry::compute_digest`: the loop reads all that the reader delivers.
unfoldable pub compute_digest : Hash → Reader → Reg Digest
compute_digest hash r =
    if r.is_broken
    then raise (storage (bare other))
    else computed_digest (parsed_digest hash r.bytes)

-- `==` on digests
unfoldable pub digest_eq : Digest → Digest → Bool
unfolding text_eq
digest_eq d e =
    text_eq (Digest.as_str d.algorithm) (Digest.as_str e.algorithm) && text_eq d.hex e.hex
