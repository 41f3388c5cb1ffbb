-- ===== src/Storage/Files.antt =====
-- The calls of `tokio::fs` that the storage makes, on a map from paths to contents. Directories
-- are made on demand by the code and are not part of the state. `faults` says which of the coming
-- calls fail for a reason outside the program; a failing write has written `some k` bytes.
use distribution_rs.Prelude.{
  ℕ, zero, suc, ◌+◌, ◌-◌, Bool, true, false, ◌&&◌, Option, none, some, List, [], ◌∷◌, ◌++◌, ◌≡◌,
  ◌↔◌, arith, ok, length, take, drop, if◌then◌else◌, is_ok,
}
use distribution_rs.Prelude.Text.{Text, text_eq, text_eq_iff}
use distribution_rs.Error.{IoError, not_found, other}
use distribution_rs.Exec.{Exec, pure, raise, gets, attempt, modify, ◌>>=◌, ◌>>◌}

-- The components of a path below the root directory.
abbrev pub FilePath : Type 0
FilePath = List Text

abbrev pub Bytes : Type 0
Bytes = List ℕ

abbrev pub Files : Type 0
Files = List (FilePath × Bytes)

unfoldable pub path_eq : FilePath → FilePath → Bool
path_eq [] [] = true
path_eq (a ∷ p) (b ∷ q) = text_eq a b && path_eq p q
path_eq _ _ = false

pub path_eq_iff : (p q : FilePath) → (path_eq p q ≡ true) ↔ (p ≡ q)
unfolding path_eq
path_eq_iff (a ∷ p) (b ∷ q) = ground (arith, path_eq_iff p q, text_eq_iff a b)
path_eq_iff _ _ = ground arith

unfoldable pub read : FilePath → Files → Option Bytes
read p [] = none
read p ((q, b) ∷ fs) = if path_eq q p then some b else read p fs

unfoldable pub remove : FilePath → Files → Files
remove p [] = []
remove p ((q, b) ∷ fs) = let rest = remove p fs in if path_eq q p then rest else (q, b) ∷ rest

unfoldable pub write : FilePath → Bytes → Files → Files
unfolding remove
write p b fs = (p, b) ∷ remove p fs

pub read-remove :
    (p q : FilePath) (fs : Files) → read q (remove p fs) ≡ (if path_eq p q then none else read q fs)
unfolding read remove
read-remove p q [] = ground arith
read-remove p q ((r, b) ∷ fs) =
    ground (arith, read-remove p q fs, path_eq_iff r p, path_eq_iff r q, path_eq_iff p q)

pub read-write :
    (p q : FilePath) (b : Bytes) (fs : Files)
    → read q (write p b fs) ≡ (if path_eq p q then some b else read q fs)
unfolding write read
read-write p q b fs = ground (arith, read-remove p q fs)

pub ruleset file_laws = (read-write, read-remove)

abbrev pub zeros : ℕ → Bytes
zeros zero = []
zeros (suc n) = 0 ∷ zeros n

-- A write at a position: what lies before it stays, a gap is filled by zeros, and what lies
-- behind the written bytes stays.
unfoldable pub write_at : ℕ → Bytes → Bytes → Bytes
write_at o d b = take o b ++ (zeros (o - length b) ++ (d ++ drop (o + length d) b))

-- An `AsyncRead`: the bytes that it delivers, and whether it then fails instead of ending.
pub record Reader : Type 0 where
  pub bytes : Bytes
  pub is_broken : Bool

pub record Fs : Type 0 where
  pub files : Files
  pub faults : List (Option ℕ)

-- Whether the next call fails, and after how many bytes if it writes.
unfoldable pub next_fault : Exec Fs IoError (Option ℕ)
next_fault s = elim s.faults [ [] ↦ (ok none, s) | f ∷ rest ↦ (ok f, record s { faults = rest }) ]

abbrev pub fail_on : Option ℕ → Exec Fs IoError Unit
fail_on none = pure tt
fail_on (some _) = raise other

-- A call that has no other effect than to succeed or fail: `create_dir_all`, `seek`, `sync_all`.
unfoldable pub call : Exec Fs IoError Unit
unfolding next_fault ◌>>=◌
call = do f ← next_fault; fail_on f

unfoldable pub exists : FilePath → Exec Fs IoError Unit
unfolding read ◌>>=◌
exists p = do
  found ← gets (λ (s : Fs). read p s.files)
  elim found [ none ↦ raise not_found | some _ ↦ pure tt ]

-- `fs::metadata(p).await.is_ok()`
unfoldable pub metadata_is_ok : FilePath → Exec Fs IoError Bool
unfolding call exists
metadata_is_ok p = do r ← attempt (call >> exists p); pure (is_ok r)

-- `fs::metadata(p).await?.len()`
unfoldable pub metadata_len : FilePath → Exec Fs IoError ℕ
unfolding call read ◌>>=◌
metadata_len p = do
  call
  found ← gets (λ (s : Fs). read p s.files)
  elim found [ none ↦ raise not_found | some b ↦ pure (length b) ]

-- `File::open`, or `OpenOptions::new().write(true).open`
unfoldable pub open_file : FilePath → Exec Fs IoError Unit
unfolding call exists
open_file p = call >> exists p

-- What a reader over an open file delivers.
unfoldable pub file_bytes : FilePath → Exec Fs IoError Bytes
unfolding call read ◌>>=◌
file_bytes p = do
  found ← gets (λ (s : Fs). read p s.files)
  elim found [ none ↦ raise not_found | some b ↦ pure b ]

-- `File::create`, which empties a file that exists
unfoldable pub create : FilePath → Exec Fs IoError Unit
unfolding call write modify ◌>>=◌
create p = do call; modify (λ (s : Fs). record s { files = write p [] s.files })

abbrev pub or_empty : Option Bytes → Bytes
or_empty none = []
or_empty (some b) = b

-- Bytes into an open file, from a position on.
unfoldable pub put_at : FilePath → ℕ → Bytes → Exec Fs IoError Unit
unfolding read write write_at modify
put_at p o d =
    modify
      λ (s : Fs). record s { files = write p (write_at o d (or_empty (read p s.files))) s.files }

abbrev pub copied : FilePath → ℕ → Reader → Option ℕ → Exec Fs IoError ℕ
copied p o r (some k) = put_at p o (take k r.bytes) >> raise other
copied p o r none = do
  put_at p o r.bytes
  if r.is_broken then raise other else pure (length r.bytes)

-- `tokio::io::copy` into an open file at a position, and `write_all` for a reader over a buffer
unfoldable pub copy : FilePath → ℕ → Reader → Exec Fs IoError ℕ
unfolding next_fault put_at ◌>>=◌
copy p o r = do f ← next_fault; copied p o r f

-- the step behind the search for `p`
unfoldable pub moved : FilePath → FilePath → Option Bytes → Exec Fs IoError Unit
unfolding write remove modify raise
moved p q none = raise not_found
moved p q (some b) = modify λ (s : Fs). record s { files = write q b (remove p s.files) }

unfoldable pub rename : FilePath → FilePath → Exec Fs IoError Unit
unfolding call read moved ◌>>=◌
rename p q = do call; found ← gets (λ (s : Fs). read p s.files); moved p q found

unfoldable pub remove_file : FilePath → Exec Fs IoError Unit
unfolding call exists remove
remove_file p = do call; exists p; modify (λ (s : Fs). record s { files = remove p s.files })

-- The names of the files in a directory, from `fs::read_dir`.
unfoldable pub names_in : Text → Files → List Text
unfolding text_eq
names_in d [] = []
names_in d ((e ∷ name ∷ [], b) ∷ fs) =
    let rest = names_in d fs in if text_eq e d then name ∷ rest else rest
names_in d ((_, b) ∷ fs) = names_in d fs

unfoldable pub read_dir : Text → Exec Fs IoError (List Text)
unfolding call names_in ◌>>=◌
read_dir d = do call; gets (λ (s : Fs). names_in d s.files)
