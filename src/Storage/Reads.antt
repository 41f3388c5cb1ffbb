-- ===== src/Storage/Reads.antt =====
-- The operations of the storage that only read leave all files as they are.
use Prim.Native.String.{String}
use distribution_rs.Prelude.{ℕ, ◌≡◌, arith}
use distribution_rs.Exec.{◌>>=◌}
use distribution_rs.Exec.Keeps.{Keeps, keeps_rules}
use distribution_rs.Storage.Files.{FilePath, Files, Fs, next_fault, call, open_file, file_bytes}
use distribution_rs.Storage.Filesystem
use distribution_rs.Types.Digest.{Digest}

-- The files are `fs`.
pub record AllFiles (fs : Files) (s : Fs) : Type 0 where
  pub are : s.files ≡ fs

module _ (fs : Files) where
  AllFiles-call : Keeps (AllFiles fs) call
  unfolding call ◌>>=◌ next_fault
  AllFiles-call = record { at = λ s h. ground arith }

  AllFiles-next_fault : Keeps (AllFiles fs) next_fault
  unfolding next_fault
  AllFiles-next_fault = record { at = λ s h. ground arith }

  AllFiles-open_file : (p : FilePath) → Keeps (AllFiles fs) (open_file p)
  unfolding open_file next_fault
  AllFiles-open_file p = record { at = λ s h. ground arith }

  AllFiles-file_bytes : (p : FilePath) → Keeps (AllFiles fs) (file_bytes p)
  unfolding file_bytes next_fault
  AllFiles-file_bytes p = record { at = λ s h. ground arith }

  ruleset reading =
      (keeps_rules, AllFiles-call, AllFiles-next_fault, AllFiles-open_file, AllFiles-file_bytes)

  AllFiles-read_open : (s : String) (p : FilePath) → Keeps (AllFiles fs) (Filesystem.read_open s p)
  unfolding Filesystem.read_open
  AllFiles-read_open s p = search reading depth 7

  pub AllFiles-get_blob : (d : Digest) → Keeps (AllFiles fs) (Filesystem.get_blob d)
  unfolding Filesystem.get_blob
  AllFiles-get_blob d = AllFiles-read_open _ _

  pub AllFiles-get_blob_range :
      (d : Digest) (o l : ℕ) → Keeps (AllFiles fs) (Filesystem.get_blob_range d o l)
  unfolding Filesystem.get_blob_range
  AllFiles-get_blob_range d o l = search (reading, AllFiles-read_open) depth 8

  pub AllFiles-get_manifest_bytes :
      (d : Digest) → Keeps (AllFiles fs) (Filesystem.get_manifest_bytes d)
  unfolding Filesystem.get_manifest_bytes
  AllFiles-get_manifest_bytes d = search reading
