-- ===== src/Api/Uploads/Content.antt =====
-- src/api/upload.rs: what a `PUT` that completes an upload leaves in the store.
use distribution_rs.Prelude.{
  some, ◌++◌, ◌≡◌, refl, sym, ap, ◌∙◌, subst, ok, length, ◌==◌, some-injective,
}
use distribution_rs.Prelude.Text.{Text}
use distribution_rs.Exec.Ensures.{
  Ensures, Ensures-bind, Ensures-if, Ensures-Keeps, Ensures-pure, Ensures-raise,
}
use distribution_rs.Exec.Keeps.{Keeps, keeps_rules}
use distribution_rs.Api.Uploads.{UploadAnswer, complete_upload}
use distribution_rs.Database.{UploadSession}
use distribution_rs.Database.Rules.{OnTables-select}
use distribution_rs.Registry.{Env, World, digest_of}
use distribution_rs.Registry.Integrity.{HoldsContent, complete_upload-HoldsContent}
use distribution_rs.Registry.Lookups.{Ensures-require_upload}
use distribution_rs.Registry.Repositories.{require_repo}
use distribution_rs.Registry.Rules.{Both, Both-on_db, InFs, InFs-on_db, Ensures-on_storage}
use distribution_rs.Registry.Uploads
use distribution_rs.Registry.Uploads.{find_session, require_upload, text_of}
use distribution_rs.Storage.Append.{write_upload_chunk-append}
use distribution_rs.Storage.Files.{Bytes, Reader, read}
use distribution_rs.Storage.Filesystem
use distribution_rs.Storage.Frame.{Holds}
use distribution_rs.Storage.Paths.{blob_path, upload_path}
use distribution_rs.Types.Digest.{Digest}
use distribution_rs.Types.Ids.{TenantId, UploadId}
use distribution_rs.Types.RepoName.{RepoName}

module _ (env : Env) (tenant : TenantId) (name : RepoName) (id : UploadId) (now : Text) (d : Digest)
    (body : Reader) (w : World) (s : UploadSession) (b : Bytes)
    (open_ : find_session env (text_of env id) w.db.tables ≡ some s)
    (level : s.offset ≡ length b) where
  -- The tables are those of the start, and the file of the upload holds `b`.
  abbrev Known : World → Type 0
  Known = Both (λ t. t ≡ w.db.tables) (Holds (upload_path (text_of env id)) (some b))

  abbrev Appended : World → Type 0
  Appended = InFs (Holds (upload_path (text_of env id)) (some (b ++ body.bytes)))

  Known-require_upload : Keeps Known (require_upload env tenant name id)
  unfolding require_upload require_repo
  Known-require_upload = search (keeps_rules, Both-on_db, OnTables-select) depth 9

  Ensures-session : Ensures Known (require_upload env tenant name id) (λ s' w'. Known w' × (s' ≡ s))
  Ensures-session = record {
    at = λ w' h s' e.
        let (_, found, _) =
          ((Ensures-require_upload env tenant name w.db.tables id).at w'
            (record { db_at = h.tables_kept.tables_at }) s' e).db_at in
        (Known-require_upload.at w' h, some-injective (sym found ∙ open_));
  }

  Ensures-get_upload_status :
      Ensures Known
        (Uploads.get_upload_status env tenant name id)
        (λ n w'. Known w' × (n ≡ length b))
  unfolding Uploads.get_upload_status
  Ensures-get_upload_status =
      Ensures-bind Ensures-session
        λ s'. Ensures-pure _ λ w' (h, same). (h, ap (λ (x : UploadSession). x.offset) same ∙ level)

  Ensures-append :
      Ensures
        (Holds (upload_path (text_of env id)) (some b))
        (Filesystem.write_upload_chunk (text_of env id) body (length b))
        (λ _. Holds (upload_path (text_of env id)) (some (b ++ body.bytes)))
  Ensures-append = record {
    at = λ x h n e. record {
      content = (write_upload_chunk-append (text_of env id) body b x n h.content e).0;
    };
  }

  Ensures-write_chunk_at :
      (s' : UploadSession)
      → Ensures Known (Uploads.write_chunk_at env now id body (length b) s') (λ _. Appended)
  unfolding Uploads.write_chunk_at
  Ensures-write_chunk_at s' =
      Ensures-if (s'.offset == length b)
        (λ hit. record {
          at = λ w' h.
              (Ensures-bind (Ensures-on_storage Ensures-append)
                  λ n. Ensures-bind (Ensures-Keeps (InFs-on_db _)) λ _. Ensures-pure n λ _ x. x).at
                w' (record { fs_at = h.files_kept });
        })
        (λ _. Ensures-raise _)

  Ensures-write_upload_chunk :
      Ensures Known
        (Uploads.write_upload_chunk env now tenant name id body (length b))
        (λ _. Appended)
  unfolding Uploads.write_upload_chunk
  Ensures-write_upload_chunk =
      Ensures-bind Ensures-session
        λ s'. record { at = λ w' (h, _). (Ensures-write_chunk_at s').at w' h }

  -- The file of the blob holds the whole upload.
  abbrev Whole : World → Type 0
  Whole w' =
      (read (blob_path d) w'.fs.files ≡ some (b ++ body.bytes))
      × (digest_of env.hash (b ++ body.bytes) ≡ d)

  Ensures-complete_upload :
      Ensures Appended (Uploads.complete_upload env tenant name id d) (λ _. Whole)
  unfolding HoldsContent
  Ensures-complete_upload = record {
    at = λ w' h x e.
        let ((c, held, named), same) = complete_upload-HoldsContent env tenant name id d w' e in
        let is = same ∙ h.fs_at.content in
        (is, subst (λ y. digest_of env.hash y ≡ d) (some-injective (sym held ∙ is)) named);
  }

  Ensures-put : Ensures Known (complete_upload env tenant name id now d body) (λ _. Whole)
  unfolding complete_upload
  Ensures-put = Ensures-bind Ensures-get_upload_status λ n.
      Ensures-bind {Q = λ _. Appended}
        (record {
          at = λ w' (h, e).
              (subst
                  (λ off.
                    Ensures Known (Uploads.write_upload_chunk env now tenant name id body off)
                      (λ _. Appended))
                  (sym e) Ensures-write_upload_chunk).at
                w' h;
        })
        λ _. Ensures-bind Ensures-complete_upload λ _. Ensures-pure _ λ w' h. h

-- Where the session of an upload stands at the end of its file, a `PUT` that completes the upload and
-- is answered without an error leaves the file of the blob with what the file of the upload held and
-- then the body of the request, and the SHA-256 of that is the digest of the request.
pub put-HoldsContent :
    (env : Env) (tenant : TenantId) (name : RepoName) (id : UploadId) (now : Text) (d : Digest)
    (body : Reader) (w : World) (s : UploadSession) (b : Bytes) (a : UploadAnswer)
    → find_session env (text_of env id) w.db.tables ≡ some s
    → s.offset ≡ length b
    → read (upload_path (text_of env id)) w.fs.files ≡ some b
    → (complete_upload env tenant name id now d body w).0 ≡ ok a
    → let w' = (complete_upload env tenant name id now d body w).1 in
      (read (blob_path d) w'.fs.files ≡ some (b ++ body.bytes))
      × (digest_of env.hash (b ++ body.bytes) ≡ d)
put-HoldsContent env tenant name id now d body w s b a open_ level held e =
    (Ensures-put env tenant name id now d body w s b open_ level).at w
      (record { tables_kept = record { tables_at = refl }; files_kept = record { content = held } })
      a e
