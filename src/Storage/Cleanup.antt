-- ===== src/Storage/Cleanup.antt =====
-- What the cleanup of src/storage/filesystem.rs finds, and what it leaves.
use distribution_rs.Prelude.{
  Bool, true, false, Option, some, List, [], ◌∷◌, ◌≡◌, ◌⊎◌, refl, sym, subst, arith, In, here,
  there, In-cons, inl, inr, Bool-cases, if◌then◌else◌,
}
use distribution_rs.Prelude.Text.{Text, codes, text_eq, text_eq_iff}
use distribution_rs.Exec.{◌>>=◌}
use distribution_rs.Exec.Ensures.{
  Ensures, Ensures-bind, Ensures-Keeps, Ensures-pure, Ensures-gets, Ensures-map_err,
}
use distribution_rs.Exec.Keeps.{Keeps, Keeps-bind, keeps_rules}
use distribution_rs.Storage.Files.{
  FilePath, Bytes, Files, Fs, path_eq, path_eq_iff, read, read-remove, next_fault, call,
  remove_file, names_in, read_dir,
}
use distribution_rs.Storage.Filesystem
use distribution_rs.Storage.Frame.{Holds, Holds-call, Holds-remove_file, Holds-read_dir}
use distribution_rs.Storage.Paths.{tmp_path, upload_path}

-- There is a file at the path.
abbrev pub IsFile : FilePath → Files → Type 0
IsFile p fs = (b : Bytes) × (read p fs ≡ some b)

IsFile-cons : (p q : FilePath) (b : Bytes) (fs : Files) → IsFile p fs → IsFile p ((q, b) ∷ fs)
unfolding read
IsFile-cons p q b fs (c, h) = elim (Bool-cases (path_eq q p)) [
  | inl hit ↦ (b, ground arith)
  | inr miss ↦ (c, ground arith)
]

IsFile-here : (p q : FilePath) (b : Bytes) (fs : Files) → q ≡ p → IsFile p ((q, b) ∷ fs)
unfolding read
IsFile-here p q b fs e = let hit = (path_eq_iff q p).1 e in (b, ground arith)

first_or_rest :
    (c : Bool) {n name : Text} (names : List Text)
    → In name (if c then n ∷ names else names)
    → ((c ≡ true) × (name ≡ n)) ⊎ In name names
first_or_rest true names at = elim (In-cons at) [ inl e ↦ inl (refl, e) | inr deep ↦ inr deep ]
first_or_rest false names at = inr at

-- A name that stands in a directory is that of a file.
names_in-IsFile : (d name : Text) (fs : Files) → In name (names_in d fs) → IsFile (d ∷ name ∷ []) fs
unfolding names_in
names_in-IsFile d name [] at = elim at [ ]
names_in-IsFile d name (([], b) ∷ fs) at = IsFile-cons _ _ b fs (names_in-IsFile d name fs at)
names_in-IsFile d name ((e ∷ [], b) ∷ fs) at = IsFile-cons _ _ b fs (names_in-IsFile d name fs at)
names_in-IsFile d name ((e ∷ n ∷ x ∷ r, b) ∷ fs) at =
    IsFile-cons _ _ b fs (names_in-IsFile d name fs at)
names_in-IsFile d name ((e ∷ n ∷ [], b) ∷ fs) at = elim (first_or_rest (text_eq e d) _ at) [
  | inl (hit, same) ↦ IsFile-here _ _ b fs (let f = (text_eq_iff e d).0 hit in cc)
  | inr deep ↦ IsFile-cons _ _ b fs (names_in-IsFile d name fs deep)
]

-- There are no files but those of `fs`.
pub record NoMore (fs : Files) (s : Fs) : Type 0 where
  pub was : (p : FilePath) → IsFile p s.files → IsFile p fs

call_files : (s : Fs) → (call s).1.files ≡ s.files
unfolding call next_fault ◌>>=◌
call_files s = ground arith

read-remove_file :
    (p q : FilePath) (b : Bytes) (s : Fs)
    → read q (remove_file p s).1.files ≡ some b
    → read q s.files ≡ some b
unfolding remove_file
read-remove_file p q b s h = ground (arith, read-remove p q s.files)

module _ (fs : Files) where
  NoMore-call : Keeps (NoMore fs) call
  NoMore-call = record {
    at = λ s h. record {
      was = subst (λ gs. (p : FilePath) → IsFile p gs → IsFile p fs) (sym (call_files s)) h.was;
    };
  }

  NoMore-remove_file : (p : FilePath) → Keeps (NoMore fs) (remove_file p)
  NoMore-remove_file p = record {
    at = λ s h. record { was = λ q (b, e). h.was q (b, read-remove_file p q b s e) };
  }

  ruleset less = (keeps_rules, NoMore-call, NoMore-remove_file)

  NoMore-read_dir : (d : Text) → Keeps (NoMore fs) (read_dir d)
  unfolding read_dir
  NoMore-read_dir d = search less

  NoMore-clean_names : (names : List Text) → Keeps (NoMore fs) (Filesystem.clean_names names)
  unfolding Filesystem.clean_names
  NoMore-clean_names [] = search less
  NoMore-clean_names (n ∷ names) = Keeps-bind _ _ (search less) λ _.
      Keeps-bind _ _ (search less) λ _. Keeps-bind _ _ (NoMore-clean_names names) λ _. search less

  pub NoMore-cleanup_tmp : Keeps (NoMore fs) Filesystem.cleanup_tmp
  unfolding Filesystem.cleanup_tmp
  NoMore-cleanup_tmp = search (less, NoMore-read_dir, NoMore-clean_names) depth 7

  read_dir-IsFile :
      (d : Text)
      → Ensures
          (NoMore fs)
          (read_dir d)
          (λ names _. (name : Text) → In name names → IsFile (d ∷ name ∷ []) fs)
  unfolding read_dir
  read_dir-IsFile d =
      Ensures-bind (Ensures-Keeps NoMore-call)
        λ _. Ensures-gets _ λ s h name at. h.was _ (names_in-IsFile d name s.files at)

-- The ids are names of the directory.
collect_ids-In :
    (names : List Text)
    → Ensures
        (λ s. Unit {0})
        (Filesystem.collect_ids names)
        (λ ids _. (id : Text) → In id ids → In id names)
unfolding Filesystem.collect_ids
collect_ids-In [] =
    Ensures-bind {Q = λ _ _. Unit {0}} (record { at = λ s h a e. tt })
      λ _. Ensures-pure [] λ s h id at. at
collect_ids-In (n ∷ names) =
    Ensures-bind {Q = λ _ _. Unit {0}} (record { at = λ s h a e. tt })
      λ _. Ensures-bind (collect_ids-In names) λ ids. Ensures-pure (n ∷ ids) λ s h id at.
        elim (In-cons at) [
          | inl e ↦ subst (λ x. In x (n ∷ names)) (sym e) here
          | inr deep ↦ there (h id deep)
        ]

pub list_upload_ids-IsFile :
    (fs : Files)
    → Ensures
        (NoMore fs)
        Filesystem.list_upload_ids
        (λ ids _. (id : Text) → In id ids → IsFile (upload_path id) fs)
unfolding Filesystem.list_upload_ids upload_path
list_upload_ids-IsFile fs =
    Ensures-bind (Ensures-map_err _ (read_dir-IsFile fs (codes "uploads"))) λ names. record {
      at = λ s known ids e id at. known id ((collect_ids-In names).at s tt ids e id at);
    }

-- The files that are not temporary stay.
module _ (q : FilePath) (v : Option Bytes)
    (lasting : (n : Text) → path_eq (tmp_path n) q ≡ false) where
  Holds-clean_names : (names : List Text) → Keeps (Holds q v) (Filesystem.clean_names names)
  unfolding Filesystem.clean_names
  Holds-clean_names [] = search (keeps_rules, Holds-call)
  Holds-clean_names (n ∷ names) = Keeps-bind _ _ (search (keeps_rules, Holds-call)) λ _.
      Keeps-bind _ _ (search (keeps_rules, Holds-remove_file, lasting))
        λ _. Keeps-bind _ _ (Holds-clean_names names) λ _. search keeps_rules

  pub Holds-cleanup_tmp : Keeps (Holds q v) Filesystem.cleanup_tmp
  unfolding Filesystem.cleanup_tmp
  Holds-cleanup_tmp = search (keeps_rules, Holds-read_dir, Holds-clean_names) depth 7
