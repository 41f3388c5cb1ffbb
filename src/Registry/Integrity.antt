-- ===== src/Registry/Integrity.antt =====
-- src/registry.rs: what a completed upload leaves in the store.
use Prim.Native.String.{String}
use distribution_rs.Prelude.{
  ℕ, true, false, Option, none, some, ◌≡◌, refl, sym, ap, subst, ◌∙◌, Result, ok, arith,
}
use distribution_rs.Prelude.Text.{Text, text_eq, text_eq_iff}
use distribution_rs.Error.{StorageError, IoError, not_found}
use distribution_rs.Exec.{pure, raise}
use distribution_rs.Exec.Ensures.{
  Ensures, Ensures-bind, Ensures-gets, Ensures-if, Ensures-pure, Ensures-raise, Ensures-Keeps,
  Ensures-weaken, Ensures-map_err,
}
use distribution_rs.Exec.Keeps.{Keeps, keeps_rules}
use distribution_rs.Registry.{
  World, Env, Hash, compute_digest, computed_digest, parsed_digest, digest_of, digest_eq,
}
use distribution_rs.Registry.Repositories.{require_repo}
use distribution_rs.Registry.Rules.{InFs, InFs-on_db, InFs-on_storage, Ensures-on_storage}
use distribution_rs.Registry.Uploads.{require_upload, complete_upload, finish_upload, text_of}
use distribution_rs.Database.{UploadSession}
use distribution_rs.Storage.Files.{
  FilePath, Bytes, Reader, Fs, read, read-write, file_bytes, next_fault, rename, moved,
}
use distribution_rs.Storage.Filesystem
use distribution_rs.Storage.Frame.{Holds, call_rules, Holds-blob_size, Holds-next_fault, Holds-call}
use distribution_rs.Storage.Blobs.{path_eq_refl}
use distribution_rs.Storage.Paths.{
  blob_path, upload_path, Digest-eq, as_str-injective, algorithms_apart,
}
use distribution_rs.Types.Digest
use distribution_rs.Types.Digest.{Digest, sha256, sha512, validate_digest}
use distribution_rs.Types.Digest.RoundTrip.{validate_digest-to_string}
use distribution_rs.Types.Ids.{TenantId, UploadId}
use distribution_rs.Types.RepoName.{RepoName}

-- The computed digest is that of the bytes.
pub parsed_digest_lem : (hash : Hash) (b : Bytes) → parsed_digest hash b ≡ ok (digest_of hash b)
unfolding parsed_digest digest_of Digest.to_string
parsed_digest_lem hash b =
    validate_digest-to_string (digest_of hash b)
      (record { length_is = hash.sha256_hex-len b; all_hex = hash.sha256_hex-AllHex b })

pub digest_eq_iff : (d e : Digest) → digest_eq d e ≡ true → d ≡ e
unfolding digest_eq
digest_eq_iff d e h =
    let (a, x) : (text_eq (Digest.as_str d.algorithm) (Digest.as_str e.algorithm) ≡ true)
        × (text_eq d.hex e.hex ≡ true) =
      ground arith in
    Digest-eq d e (as_str-injective _ _ ((text_eq_iff _ _).0 a)) ((text_eq_iff _ _).0 x)

ok-injective : {E A : Type 0} {a b : A} → ◌≡◌ {A = Result E A} (ok a) (ok b) → a ≡ b
ok-injective h = cc

-- A digest that is computed is that of the bytes of a reader that ended.
pub Ensures-compute_digest :
    (hash : Hash) (r : Reader) (P : World → Type 0)
    → Ensures P
        (compute_digest hash r)
        (λ d w. P w × (r.is_broken ≡ false) × (d ≡ digest_of hash r.bytes))
unfolding compute_digest
Ensures-compute_digest hash r P =
    Ensures-if r.is_broken (λ _. Ensures-raise _)
      λ ended.
        subst
          (λ x.
            Ensures P (computed_digest x)
              (λ d w. P w × (r.is_broken ≡ false) × (d ≡ digest_of hash r.bytes)))
          (sym (parsed_digest_lem hash r.bytes)) (Ensures-pure _ λ w h. (h, ended, refl))

module _ (p : FilePath) (v : Option Bytes) where
  pub Ensures-file_bytes : Ensures (Holds p v) (file_bytes p) (λ b s. Holds p v s × (v ≡ some b))
  unfolding file_bytes
  Ensures-file_bytes =
      Ensures-bind (Ensures-gets {Q = λ o s. Holds p v s × (o ≡ v)} _ λ s h. (h, h.content)) found
    where
      found :
          (o : Option Bytes)
          → Ensures {E = IoError}
              (λ s. Holds p v s × (o ≡ v))
              (elim o [ none ↦ raise not_found | some b ↦ pure b ])
              (λ b s. Holds p v s × (v ≡ some b))
      found none = Ensures-raise _
      found (some b) = Ensures-pure b λ s (h, e). (h, sym e)

  Ensures-faulty :
      (b : Bytes)
      → Ensures (λ s. Holds p v s × (v ≡ some b)) next_fault (λ _ s. Holds p v s × (v ≡ some b))
  Ensures-faulty b = record { at = λ s h a e. ((Holds-next_fault p v).at s h.0, h.1) }

  cut_at :
      (b : Bytes) (f : Option ℕ)
      → Ensures {E = StorageError}
          (λ s. Holds p v s × (v ≡ some b))
          (pure (Filesystem.cut b f))
          (λ r s. Holds p v s × (r.is_broken ≡ false → v ≡ some r.bytes))
  cut_at b none = Ensures-pure _ λ s h. (h.0, λ _. h.1)
  cut_at b (some k) = Ensures-pure _ λ s h. (h.0, λ bad. cc)

  -- What a reader over a file delivers, if it does not break.
  pub Ensures-read_open :
      (c : String)
      → Ensures
          (Holds p v)
          (Filesystem.read_open c p)
          (λ r s. Holds p v s × (r.is_broken ≡ false → v ≡ some r.bytes))
  unfolding Filesystem.read_open
  Ensures-read_open c = Ensures-bind (Ensures-Keeps (search call_rules)) λ _.
      Ensures-bind (Ensures-map_err _ Ensures-file_bytes)
        λ b. Ensures-bind (Ensures-map_err _ (Ensures-faulty b)) λ f. cut_at b f

  Ensures-moved :
      (q : FilePath) (o : Option Bytes)
      → Ensures (λ s. Holds p v s × (o ≡ v)) (moved p q o) (λ _. Holds q v)
  unfolding moved
  Ensures-moved q none = Ensures-raise _
  Ensures-moved q (some b) = record {
    at = λ s h a e. record { content = rw (read-write, path_eq_refl, h.1) };
  }

  -- A rename that returns has moved the file.
  pub Ensures-rename : (q : FilePath) → Ensures (Holds p v) (rename p q) (λ _. Holds q v)
  unfolding rename
  Ensures-rename q = Ensures-bind (Ensures-Keeps (Holds-call p v)) λ _.
      Ensures-bind (Ensures-gets {Q = λ o s. Holds p v s × (o ≡ v)} _ λ s h. (h, h.content))
        (Ensures-moved q)

  Ensures-fs_complete_upload :
      (id : Text) (d : Digest)
      → p ≡ upload_path id
      → Ensures (Holds p v) (Filesystem.complete_upload id d) (λ _. Holds (blob_path d) v)
  unfolding Filesystem.complete_upload Filesystem.ensure_parent_dir
  Ensures-fs_complete_upload id d e = Ensures-bind (Ensures-Keeps (search call_rules)) λ _.
      Ensures-bind (Ensures-Keeps (search call_rules)) λ _.
        Ensures-bind (Ensures-Keeps (search call_rules)) λ _. Ensures-map_err _ (
          subst (λ x. Ensures (Holds p v) (rename x (blob_path d)) (λ _. Holds (blob_path d) v)) e
            (Ensures-rename (blob_path d)))

-- The file holds the bytes that the digest names.
unfoldable pub HoldsContent : Hash → FilePath → Digest → Fs → Type 0
HoldsContent hash p d s = (b : Bytes) × (read p s.files ≡ some b) × (digest_of hash b ≡ d)

module _ (env : Env) (tenant : TenantId) (name : RepoName) (id : UploadId) (d : Digest) where
  require_upload-Keeps : (P : Fs → Type 0) → Keeps (InFs P) (require_upload env tenant name id)
  unfolding require_upload require_repo
  require_upload-Keeps P = search (keeps_rules, InFs-on_db) depth 9

  module _ (v : Option Bytes) where
    Ensures-finish_upload :
        (s : UploadSession) (found : Digest)
        → Ensures
            (InFs (Holds (upload_path (text_of env id)) v))
            (finish_upload env id d s found)
            (λ _ w. InFs (Holds (blob_path d) v) w × (found ≡ d))
    unfolding finish_upload
    Ensures-finish_upload s found =
        Ensures-if (digest_eq found d)
          (λ same.
            Ensures-bind
              (Ensures-on_storage (Ensures-fs_complete_upload _ v (text_of env id) d refl))
              λ _.
                Ensures-bind (Ensures-Keeps (InFs-on_storage _ (Holds-blob_size (blob_path d) v d)))
                  λ n.
                    Ensures-weaken (Ensures-Keeps (InFs-on_db _)) (λ w h. h)
                      (λ _ w h. (h, digest_eq_iff found d same)))
          (λ _. Ensures-raise _)

  -- A `complete_upload` that returns leaves the file of the blob with bytes whose SHA-256 is the
  -- digest that was asked for, and those are what the upload's file held before.
  pub complete_upload-HoldsContent :
      (w : World)
      → (complete_upload env tenant name id d w).0 ≡ ok tt
      → HoldsContent env.hash (blob_path d) d (complete_upload env tenant name id d w).1.fs
        × (read (blob_path d) (complete_upload env tenant name id d w).1.fs.files
            ≡ read (upload_path (text_of env id)) w.fs.files)
  unfolding complete_upload HoldsContent Filesystem.get_upload_reader
  complete_upload-HoldsContent w e = done.at w (record { fs_at = record { content = refl } }) tt e
    where
      v : Option Bytes
      v = read (upload_path (text_of env id)) w.fs.files

      Done : World → Type 0
      Done w' = HoldsContent env.hash (blob_path d) d w'.fs × (read (blob_path d) w'.fs.files ≡ v)

      finished :
          (r : Reader) (s : UploadSession) (found : Digest)
          → Ensures
              (λ w'.
                InFs
                  (λ x.
                    Holds (upload_path (text_of env id)) v x
                    × (r.is_broken ≡ false → v ≡ some r.bytes))
                  w'
                × (r.is_broken ≡ false)
                × (found ≡ digest_of env.hash r.bytes))
              (finish_upload env id d s found)
              (λ _. Done)
      finished r s found = record {
        at = λ w' h a x.
            let (f, same) =
              (Ensures-finish_upload v s found).at w' (record { fs_at = h.0.fs_at.0 }) a x in
            let is = h.0.fs_at.1 h.1 in
            ((r.bytes, f.fs_at.content ∙ is, sym h.2 ∙ same), f.fs_at.content);
      }

      done :
          Ensures
            (InFs (Holds (upload_path (text_of env id)) v))
            (complete_upload env tenant name id d)
            (λ _. Done)
      done = Ensures-bind (Ensures-Keeps (require_upload-Keeps _)) λ s.
          Ensures-bind (Ensures-on_storage (Ensures-read_open _ v _))
            λ r. Ensures-bind (Ensures-compute_digest env.hash r _) (finished r s)

  -- No upload completes for a digest of SHA-512, which the type `Digest` accepts.
  pub complete_upload-sha512 :
      (w : World) → d.algorithm ≡ sha512 → ¬ ((complete_upload env tenant name id d w).0 ≡ ok tt)
  unfolding HoldsContent digest_of text_eq
  complete_upload-sha512 w is e =
      let (_, _, same) = (complete_upload-HoldsContent w e).0 in
      algorithms_apart (ap Digest.as_str (ap (λ (x : Digest). x.algorithm) same ∙ is))
