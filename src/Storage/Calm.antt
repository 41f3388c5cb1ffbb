-- ===== src/Storage/Calm.antt =====
-- The reading of a blob where no call of the file system fails.
use Prim.Native.String.{String}
use distribution_rs.Prelude.{ℕ, none, [], ◌≡◌, false, ap, arith}
use distribution_rs.Exec.{◌>>=◌}
use distribution_rs.Exec.Ensures.{
  Ensures, Ensures-bind, Ensures-Keeps, Ensures-map_err, Ensures-pure,
}
use distribution_rs.Exec.Keeps.{Keeps, keeps_rules}
use distribution_rs.Storage.Files.{FilePath, Fs, call, open_file, exists, file_bytes, next_fault}
use distribution_rs.Storage.Filesystem
use distribution_rs.Types.Digest.{Digest}

-- No call fails.
pub record Calm (s : Fs) : Type 0 where
  pub no_faults : s.faults ≡ []

Calm-call : Keeps Calm call
unfolding call next_fault ◌>>=◌
Calm-call = record { at = λ s h. ground arith }

Calm-open_file : (p : FilePath) → Keeps Calm (open_file p)
unfolding open_file exists
Calm-open_file p = record { at = λ s h. ground arith }

Calm-file_bytes : (p : FilePath) → Keeps Calm (file_bytes p)
unfolding file_bytes ◌>>=◌
Calm-file_bytes p = record { at = λ s h. ground arith }

Ensures-no_fault : Ensures Calm next_fault (λ f _. f ≡ none)
unfolding next_fault
Ensures-no_fault = record { at = λ s h f e. ground arith }

-- A reader does not break.
Ensures-unbroken_open :
    (c : String) (p : FilePath)
    → Ensures Calm (Filesystem.read_open c p) (λ r _. r.is_broken ≡ false)
unfolding Filesystem.read_open
Ensures-unbroken_open c p = Ensures-bind (Ensures-Keeps (search (keeps_rules, Calm-open_file))) λ _.
    Ensures-bind (Ensures-Keeps (search (keeps_rules, Calm-file_bytes))) λ b.
      Ensures-bind (Ensures-map_err _ Ensures-no_fault)
        λ f. Ensures-pure _ λ s e. ap (λ x. (Filesystem.cut b x).is_broken) e

pub Ensures-unbroken :
    (d : Digest) (o n : ℕ)
    → Ensures Calm (Filesystem.get_blob_range d o n) (λ r _. r.is_broken ≡ false)
unfolding Filesystem.get_blob_range
Ensures-unbroken d o n = Ensures-bind (Ensures-unbroken_open _ _) λ r.
    Ensures-bind {Q = λ _ _. r.is_broken ≡ false} (record { at = λ s h a e. h })
      λ _. Ensures-pure _ λ s h. h
