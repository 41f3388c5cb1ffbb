-- ===== src/Registry/Gc/Startup.antt =====
-- src/registry.rs: what the cleanup at the start leaves.
use distribution_rs.Prelude.{
  ℕ, Option, none, some, List, [], ◌∷◌, ◌≡◌, false, refl, sym, ap, Result, ok, err, In, here, there,
}
use distribution_rs.Prelude.Text.{Text}
use distribution_rs.Exec.Ensures.{Ensures, Keeps-knowing}
use distribution_rs.Exec.Keeps.{Keeps, Keeps-bind, Keeps-pure, Keeps-attempt, Keeps-bind_at}
use distribution_rs.Database.{Tables, UploadSession, select}
use distribution_rs.Database.Rules.{OnTables-select, Ensures-select}
use distribution_rs.Registry.{Env, World, Reg, on_db, on_storage}
use distribution_rs.Registry.Gc
use distribution_rs.Registry.Rules.{
  Both, Both-on_db, Both-on_storage, Ensures-Both-on_db, InFs, InFs-on_storage, Ensures-on_storage,
}
use distribution_rs.Registry.Uploads.{text_of, find_session}
use distribution_rs.Storage.Cleanup.{
  IsFile, NoMore, NoMore-cleanup_tmp, list_upload_ids-IsFile, Holds-cleanup_tmp,
}
use distribution_rs.Storage.Files.{FilePath, Bytes, path_eq, read}
use distribution_rs.Storage.Filesystem
use distribution_rs.Storage.Frame.{Holds, Holds-delete_file, Holds-list_upload_ids}
use distribution_rs.Storage.Paths.{tmp_path, upload_path}
use distribution_rs.Types.Error.{TypesError}
use distribution_rs.Types.Ids.{UploadId, upload_id}

-- If the name has no session, the upload that it stands for is not the file `q`.
abbrev pub Spares : Env → Tables → FilePath → Text → Type 0
Spares env t q name =
    find_session env name t ≡ none
    → (uid : UploadId) → upload_id env.uuids name ≡ ok uid
    → path_eq (upload_path (text_of env uid)) q ≡ false

module _ (env : Env) (t : Tables) (q : FilePath) (v : Option Bytes) where
  -- The tables are `t`, and the file at `q` holds `v`.
  abbrev Still : World → Type 0
  Still = Both (λ tables. tables ≡ t) (Holds q v)

  Still-abort_parsed :
      (r : Result {0, 0} TypesError UploadId)
      → ((uid : UploadId) → r ≡ ok uid → path_eq (upload_path (text_of env uid)) q ≡ false)
      → Keeps Still (Gc.abort_parsed env r)
  unfolding Gc.abort_parsed Filesystem.abort_upload
  Still-abort_parsed (err e) off = Keeps-pure tt
  Still-abort_parsed (ok uid) off =
      let deleted = Holds-delete_file q v "aborting upload" _ (off uid refl) in
      Keeps-bind _ _ (Keeps-attempt _ (Both-on_storage _ deleted)) λ _. Keeps-pure tt

  Still-abort_orphan :
      (name : Text) (o : Option UploadSession)
      → Spares env t q name
      → o ≡ find_session env name t
      → Keeps Still (Gc.abort_orphan env name o)
  unfolding Gc.abort_orphan
  Still-abort_orphan name (some s) spares found = Keeps-pure tt
  Still-abort_orphan name none spares found = Still-abort_parsed _ (spares (sym found))

  select-found :
      (name : Text)
      → Ensures Still (on_db (select (find_session env name))) (λ o _. o ≡ find_session env name t)
  select-found name =
      let known =
        Ensures-select {Q = λ o _. o ≡ find_session env name t} (find_session env name)
          (λ tables same. ap (find_session env name) same) in
      record { at = λ w h o e. ((Ensures-Both-on_db known).at w h o e).tables_kept.tables_at }

  Still-abort_orphans :
      (names : List Text)
      → ((name : Text) → In name names → Spares env t q name)
      → Keeps Still (Gc.abort_orphans env names)
  unfolding Gc.abort_orphans
  Still-abort_orphans [] spares = Keeps-pure tt
  Still-abort_orphans (name ∷ names) spares =
      Keeps-knowing {R = λ o. o ≡ find_session env name t} _ _ (Both-on_db _ (OnTables-select _))
        (select-found name)
        λ o found.
          Keeps-bind _ _ (Still-abort_orphan name o (spares name here) found)
            λ _. Still-abort_orphans names (λ n at. spares n (there at))

module _ (env : Env) (w : World) (q : FilePath) where
  abbrev StillThere : World → Type 0
  StillThere = Still env w.db.tables q (read q w.fs.files)

  Still-startup_cleanup :
      ((name : Text) → path_eq (tmp_path name) q ≡ false)
      → ((name : Text) → IsFile (upload_path name) w.fs.files → Spares env w.db.tables q name)
      → StillThere (Gc.startup_cleanup env w).1
  unfolding Gc.startup_cleanup
  Still-startup_cleanup lasting spares = Keeps-bind_at StillThere first _ w cleaned λ _ _.
      Keeps-bind_at StillThere listing _ (first w).1 listed λ ids e.
        (Still-abort_orphans env w.db.tables q v ids λ name at. spares name (
            ((Ensures-on_storage (list_upload_ids-IsFile w.fs.files)).at (first w).1 fewer ids
                e).fs_at
              name at)).at
          _ listed
    where
      v : Option Bytes
      v = read q w.fs.files

      first : Reg ℕ
      first = on_storage Filesystem.cleanup_tmp

      listing : Reg (List Text)
      listing = on_storage Filesystem.list_upload_ids

      cleaned : StillThere (first w).1
      cleaned = (Both-on_storage _ (Holds-cleanup_tmp q v lasting)).at w (record {
        tables_kept = record { tables_at = refl };
        files_kept = record { content = refl };
      })

      listed : StillThere (listing (first w).1).1
      listed = (Both-on_storage _ (Holds-list_upload_ids q v)).at (first w).1 cleaned

      fewer : InFs (NoMore w.fs.files) (first w).1
      fewer =
          (InFs-on_storage _ (NoMore-cleanup_tmp w.fs.files)).at w
            (record { fs_at = record { was = λ p h. h } })

-- startup_cleanup changes no table, and no file but the temporary ones and, for each name of an
-- upload file without a session, the upload that this name stands for, whatever fails.
pub startup_cleanup-still :
    (env : Env) (w : World) (q : FilePath)
    → ((name : Text) → path_eq (tmp_path name) q ≡ false)
    → ((name : Text) → IsFile (upload_path name) w.fs.files → Spares env w.db.tables q name)
    → ((Gc.startup_cleanup env w).1.db.tables ≡ w.db.tables)
      × (read q (Gc.startup_cleanup env w).1.fs.files ≡ read q w.fs.files)
startup_cleanup-still env w q lasting spares =
    let still = Still-startup_cleanup env w q lasting spares in
    (still.tables_kept.tables_at, still.files_kept.content)
