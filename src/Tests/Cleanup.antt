-- ===== src/Tests/Cleanup.antt =====
-- The cleanup at the start, in a world with a temporary file, an upload without a session, an upload
-- with one, and a blob.
use distribution_rs.Prelude.{[], ◌∷◌, ◌≡◌, refl}
use distribution_rs.Prelude.Text.{codes}
use distribution_rs.Registry.{World}
use distribution_rs.Registry.Code.{registry_code}
use distribution_rs.Registry.Gc
use distribution_rs.Registry.Gc.Startup.{startup_cleanup-still}
use distribution_rs.Storage.Files.{read}
use distribution_rs.Storage.Paths.{blob_path, upload_path, tmp_path}
use distribution_rs.Tests.Data.{body, body_digest, uploading}
use distribution_rs.Tests.ListEngine.{env, pad}

abbrev stopped : World
stopped = record uploading {
  fs = record {
    files =
        (tmp_path (codes "x"), body)
        ∷ (upload_path (pad 2 b'u'), body)
        ∷ (upload_path (pad 3 b'u'), body)
        ∷ (blob_path body_digest, body)
        ∷ [];
    faults = [];
  };
}

orphans_removed :
    (Gc.startup_cleanup env stopped).1.fs.files
    ≡ (upload_path (pad 3 b'u'), body) ∷ (blob_path body_digest, body) ∷ []
unfolding registry_code
orphans_removed = refl

startup_cleanup-still_example :
    ((Gc.startup_cleanup env stopped).1.db.tables ≡ stopped.db.tables)
    × (read (blob_path body_digest) (Gc.startup_cleanup env stopped).1.fs.files
        ≡ read (blob_path body_digest) stopped.fs.files)
unfolding registry_code
startup_cleanup-still_example =
    startup_cleanup-still env stopped (blob_path body_digest) (λ name. refl)
      (λ name is_file no_session uid parsed. refl)
