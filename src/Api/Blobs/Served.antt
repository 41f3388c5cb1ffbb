-- ===== src/Api/Blobs/Served.antt =====
-- src/api/blob.rs: the answers to a request for a range of a blob.
use mathlib.Core.Option
use distribution_rs.Prelude.{
  ℕ, zero, suc, ◌+◌, ◌-◌, ◌≤◌, ◌<◌, true, false, Option, none, some, List, [], ◌∷◌, ◌≡◌, ◌≢◌, ◌↔◌,
  ◌⊎◌, refl, sym, ap, ◌∙◌, subst, inl, inr, arith, ok, length, take, drop, Bool-cases,
  some-injective,
}
use distribution_rs.Prelude.Text.{Text}
use distribution_rs.Exec.Ensures.{
  Ensures, Ensures-bind, Ensures-Keeps, Ensures-pure, Ensures-from_option,
}
use distribution_rs.Exec.Keeps.{Keeps, keeps_rules}
use distribution_rs.Api.Blobs.{
  BlobAnswer, range_not_satisfiable, partial_content, whole, head, accepted, serve_range,
  get_parsed, get_blob,
}
use distribution_rs.Api.Ranges.{parse_range_header, served_range}
use distribution_rs.Api.Ranges.Bounds.{Asked, served_range-Asked, served_range-eq-none}
use distribution_rs.Database.{RepoBlobLink}
use distribution_rs.Database.Rules.{OnTables-select, Ensures-select}
use distribution_rs.Registry.{Env, World}
use distribution_rs.Registry.Blobs
use distribution_rs.Registry.Blobs.{find_link}
use distribution_rs.Registry.Integrity.{Ensures-read_open}
use distribution_rs.Registry.Repositories.{require_repo}
use distribution_rs.Registry.Rules.{Both, Both-on_db, Ensures-Both-on_db, Ensures-on_storage}
use distribution_rs.Storage.Calm.{Ensures-unbroken}
use distribution_rs.Storage.Files.{Bytes, Fs, Reader, read}
use distribution_rs.Storage.Filesystem
use distribution_rs.Storage.Frame.{Holds}
use distribution_rs.Storage.Paths.{blob_path}
use distribution_rs.Types.Digest.{Digest, to_string}
use distribution_rs.Types.Ids.{TenantId}
use distribution_rs.Types.RepoName.{RepoName}

-- The answer to a request for the positions from `start` to `end_` of a blob with these bytes: a
-- partial answer has just the positions that were asked for and are there, and, unless reading the
-- file fails by one of the faults, a body with the bytes at them, as many as its length says; the other answer says that
-- there are none.
abbrev pub IsServed : Digest → Bytes → List (Option ℕ) → ℕ → Option ℕ → BlobAnswer → Type 0
IsServed digest b faults start end_ (partial_content first last total len d r) =
    (d ≡ digest)
    × (total ≡ length b)
    × ((i : ℕ) → ((first ≤ i) × (i ≤ last)) ↔ (Asked start end_ i × (i < length b)))
    × (len ≡ last + 1 - first)
    × (((r.is_broken ≡ true) × (faults ≢ []))
        ⊎ ((r.bytes ≡ take len (drop first b)) × (length r.bytes ≡ len)))
IsServed digest b faults start end_ (range_not_satisfiable total) =
    (total ≡ length b) × ((i : ℕ) → ¬ (Asked start end_ i × (i < length b)))
IsServed digest b faults start end_ (whole _ _ _) = ⊥
IsServed digest b faults start end_ (head _ _) = ⊥
IsServed digest b faults start end_ accepted = ⊥

length-take : (n : ℕ) (b : Bytes) → n ≤ length b → length (take n b) ≡ n
length-take zero b h = refl
length-take (suc n) [] h = omega arith
length-take (suc n) (x ∷ b) h = omega (arith, length-take n b)

length-drop : (n : ℕ) (b : Bytes) → length (drop n b) ≡ length b - n
length-drop zero b = omega arith
length-drop (suc n) [] = omega arith
length-drop (suc n) (x ∷ b) = omega (arith, length-drop n b)

-- What a range of a blob's file delivers, if it does not break.
Ensures-fs_get_blob_range :
    (d : Digest) (b : Bytes) (o n : ℕ)
    → Ensures
        (Holds (blob_path d) (some b))
        (Filesystem.get_blob_range d o n)
        (λ r _. r.is_broken ≡ false → r.bytes ≡ take n (drop o b))
unfolding Filesystem.get_blob_range
Ensures-fs_get_blob_range d b o n = Ensures-bind (Ensures-read_open (blob_path d) (some b) _) λ r.
    Ensures-bind {Q = λ _ _. r.is_broken ≡ false → some b ≡ some r.bytes}
      (record { at = λ s h a e. h.1 })
      λ _.
        Ensures-pure _ λ s h whole_. ap (λ x. take n (drop o x)) (sym (some-injective (h whole_)))

module _ (env : Env) (tenant : TenantId) (name : RepoName) (digest : Digest) (start : ℕ)
    (end_ : Option ℕ) (b : Bytes) (w : World)
    (sizes : (i : ℕ) (l : RepoBlobLink)
      → find_link env i (to_string digest) w.db.tables ≡ some l
      → l.size ≡ length b)
    (held : read (blob_path digest) w.fs.files ≡ some b) where
  abbrev Known : World → Type 0
  Known = Both (λ t. t ≡ w.db.tables) (λ s. s ≡ w.fs)

  Known-require_repo : Keeps Known (require_repo env tenant name)
  unfolding require_repo
  Known-require_repo = search (keeps_rules, Both-on_db, OnTables-select) depth 9

  Ensures-require_link :
      Ensures Known
        (Blobs.require_link env tenant name digest)
        (λ l w'. Known w' × (l.size ≡ length b))
  unfolding Blobs.require_link
  Ensures-require_link = Ensures-bind (Ensures-Keeps Known-require_repo) λ i.
      Ensures-bind
        (Ensures-Both-on_db (
          Ensures-select
            {Q = λ o t. (t ≡ w.db.tables) × (o ≡ find_link env i (to_string digest) w.db.tables)}
            (find_link env i (to_string digest))
            λ t h. (h, ap (find_link env i (to_string digest)) h)))
        λ o. Ensures-from_option o _ λ l e w' h.
          let (same, found) = h.tables_kept.tables_at in
          (
            record { tables_kept = record { tables_at = same }; files_kept = h.files_kept },
            sizes i l (sym found ∙ e),
          )

  Ensures-blob_head :
      Ensures Known (Blobs.blob_head env tenant name digest) (λ n w'. Known w' × (n ≡ length b))
  unfolding Blobs.blob_head
  Ensures-blob_head = Ensures-bind Ensures-require_link λ l. Ensures-pure l.size λ w' h. h

  holds : (s : Fs) → s ≡ w.fs → Holds (blob_path digest) (some b) s
  holds s same = record { content = ap (λ (x : Fs). read (blob_path digest) x.files) same ∙ held }

  -- The body of an answer, which breaks only by a fault.
  abbrev IsBody : ℕ → ℕ → Reader → Type 0
  IsBody o n r = ((r.is_broken ≡ true) × (w.fs.faults ≢ [])) ⊎ (r.bytes ≡ take n (drop o b))

  Ensures-get_blob_range :
      (o n : ℕ)
      → Ensures Known (Blobs.get_blob_range env tenant name digest o n) (λ r _. IsBody o n r)
  unfolding Blobs.get_blob_range
  Ensures-get_blob_range o n = Ensures-bind Ensures-require_link λ l. record {
    at = λ w' (h, _) r e.
        let found =
          (Ensures-on_storage (Ensures-fs_get_blob_range digest b o n)).at w'
            (record { fs_at = holds w'.fs h.files_kept }) r e in
        let calm : w.fs.faults ≡ [] → r.is_broken ≡ false = λ none_.
          ((Ensures-on_storage (Ensures-unbroken digest o n)).at w'
            (record {
              fs_at = record { no_faults = ap (λ (x : Fs). x.faults) h.files_kept ∙ none_ };
            })
            r e).fs_at in
        elim (Bool-cases r.is_broken) [
          | inl broken ↦ inl (broken, λ none_. let whole_ = calm none_ in cc)
          | inr ended ↦ inr (found.fs_at ended)
        ];
  }

  Ensures-serve_range :
      (o : Option (ℕ × ℕ))
      → served_range start end_ (length b) ≡ o
      → Ensures Known
          (serve_range env tenant name digest (length b) o)
          (λ a _. IsServed digest b w.fs.faults start end_ a)
  unfolding serve_range
  Ensures-serve_range none e = Ensures-pure _ λ w' h. (
    refl,
    λ i (asked, below).
        let behind = served_range-eq-none start end_ (length b) i e asked in absurd (omega arith),
  )
  Ensures-serve_range (some (first, last)) e =
      let (low, high, same) = served_range-Asked start end_ (length b) first last e in
      let n : last - first + 1 ≡ last + 1 - first = omega arith in
      let full : length (take (last - first + 1) (drop first b)) ≡ last - first + 1 =
        length-take (last - first + 1) (drop first b) (omega (arith, length-drop first b)) in
      Ensures-bind (Ensures-get_blob_range first (last - first + 1)) λ r. Ensures-pure _ λ w' bytes.
        (
          refl,
          refl,
          same,
          n,
          elim bytes [ inl broken ↦ inl broken | inr is ↦ inr (is, ap length is ∙ full) ],
        )

  Ensures-get_parsed :
      Ensures Known
        (get_parsed env tenant name digest (some (start, end_)))
        (λ a _. IsServed digest b w.fs.faults start end_ a)
  unfolding get_parsed
  Ensures-get_parsed = Ensures-bind Ensures-blob_head λ n. record {
    at = λ w' (h, e).
        (subst
            (λ x.
              Ensures Known (serve_range env tenant name digest x (served_range start end_ x))
                (λ a _. IsServed digest b w.fs.faults start end_ a))
            (sym e) (Ensures-serve_range _ refl)).at
          w' h;
  }

-- Where the links of a blob have the length of its file as their size, the answer to a `GET` with a
-- header `Range` that can be parsed, if it is no error, is the right one: it has just the positions
-- that are asked for and are there, with the bytes at them, as many as `Content-Length` says, or it
-- is 416 and there are none. The body breaks only by a fault of the file system.
pub get_blob-IsServed :
    (env : Env) (tenant : TenantId) (name : RepoName) (digest : Digest) (range : Text) (start : ℕ)
    (end_ : Option ℕ) (b : Bytes) (w : World) (a : BlobAnswer)
    → parse_range_header range ≡ some (start, end_)
    → read (blob_path digest) w.fs.files ≡ some b
    → ((i : ℕ) (l : RepoBlobLink)
        → find_link env i (to_string digest) w.db.tables ≡ some l
        → l.size ≡ length b)
    → (get_blob env tenant name digest (some range) w).0 ≡ ok a
    → IsServed digest b w.fs.faults start end_ a
unfolding get_blob Option.bind
get_blob-IsServed env tenant name digest range start end_ b w a parsed held sizes e =
    (subst
        (λ o.
          Ensures (Known env tenant name digest start end_ b w sizes held)
            (get_parsed env tenant name digest o)
            (λ a _. IsServed digest b w.fs.faults start end_ a))
        (sym parsed) (Ensures-get_parsed env tenant name digest start end_ b w sizes held)).at
      w (record { tables_kept = record { tables_at = refl }; files_kept = refl }) a e
