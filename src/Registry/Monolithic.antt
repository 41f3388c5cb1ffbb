-- ===== src/Registry/Monolithic.antt =====
-- src/registry.rs: what an upload in one request leaves in the store.
use distribution_rs.Prelude.{ℕ, Option, ◌≡◌, refl, ok, sym, ◌∙◌}
use distribution_rs.Prelude.Text.{Text}
use distribution_rs.Exec.{◌>>=◌}
use distribution_rs.Exec.Ensures.{
  Ensures, Ensures-bind, Ensures-if, Ensures-raise, Ensures-Keeps, Ensures-weaken,
}
use distribution_rs.Registry.{World, Env, Reg, on_storage, compute_digest, digest_eq}
use distribution_rs.Registry.Blobs.{link_or_delete, monolithic_upload}
use distribution_rs.Registry.Integrity.{
  HoldsContent, Ensures-read_open, Ensures-compute_digest, digest_eq_iff,
}
use distribution_rs.Registry.Rules.{InFs, InFs-on_db, InFs-on_storage, Ensures-on_storage}
use distribution_rs.Storage.Files.{Bytes, Reader, read}
use distribution_rs.Storage.Filesystem
use distribution_rs.Storage.Frame.{Holds, Holds-blob_size}
use distribution_rs.Storage.Paths.{blob_path}
use distribution_rs.Types.Digest.{Digest}
use distribution_rs.Types.Ids.{TenantId}
use distribution_rs.Types.RepoName.{RepoName}

whatever : {A : Type 0} (m : Reg A) → Ensures (λ _. Unit {0}) m (λ _ _. Unit {0})
whatever m = record { at = λ w h a e. tt }

module _ (env : Env) (d : Digest) where
  Ensures-link_or_delete :
      (v : Option Bytes) (repo_id : ℕ) (found : Digest)
      → Ensures
          (InFs (Holds (blob_path d) v))
          (link_or_delete env repo_id d found)
          (λ _ w. InFs (Holds (blob_path d) v) w × (found ≡ d))
  unfolding link_or_delete
  Ensures-link_or_delete v repo_id found =
      Ensures-if (digest_eq found d)
        (λ same.
          Ensures-bind (Ensures-Keeps (InFs-on_storage _ (Holds-blob_size (blob_path d) v d))) λ n.
            Ensures-weaken (Ensures-Keeps (InFs-on_db _)) (λ w h. h)
              (λ _ w h. (h, digest_eq_iff found d same)))
        (λ _.
          Ensures-bind {Q = λ _ _. Unit {0}} (record { at = λ s h a e. tt }) λ _. Ensures-raise _)

  abbrev Content : World → Type 0
  Content w = HoldsContent env.hash (blob_path d) d w.fs

  -- From the reading of the blob on, from a known content of its file.
  Ensures-verified :
      (repo_id : ℕ) (v : Option Bytes)
      → Ensures
          (InFs (Holds (blob_path d) v))
          (do
            reader ← on_storage (Filesystem.get_blob d)
            found ← compute_digest env.hash reader
            link_or_delete env repo_id d found)
          (λ _. Content)
  unfolding Filesystem.get_blob HoldsContent
  Ensures-verified repo_id v =
      Ensures-bind (Ensures-on_storage (Ensures-read_open (blob_path d) v _)) λ r.
        Ensures-bind (Ensures-compute_digest env.hash r _) λ found. record {
          at = λ w h a e.
              let (f, same) =
                (Ensures-link_or_delete v repo_id found).at w (record { fs_at = h.0.fs_at.0 }) a
                  e in
              (r.bytes, f.fs_at.content ∙ h.0.fs_at.1 h.1, sym h.2 ∙ same);
        }

  -- A `monolithic_upload` that returns leaves the file of the blob with bytes whose SHA-256 is the
  -- digest that was asked for.
  pub monolithic_upload-HoldsContent :
      (uuid : Text) (tenant : TenantId) (name : RepoName) (r : Reader) (w : World)
      → (monolithic_upload env uuid tenant name d r w).0 ≡ ok tt
      → HoldsContent env.hash (blob_path d) d (monolithic_upload env uuid tenant name d r w).1.fs
  unfolding monolithic_upload
  monolithic_upload-HoldsContent uuid tenant name r w e =
      (Ensures-bind {R = λ _. Content} (whatever _) λ repo_id. Ensures-bind (whatever _) λ _.
          record {
            at = λ w' h a e'.
                (Ensures-verified repo_id (read (blob_path d) w'.fs.files)).at w'
                  (record { fs_at = record { content = refl } }) a e';
          }).at
        w tt tt e
