-- ===== src/Tests/Examples.antt =====
-- Runs of the registry on a concrete database and store, and its theorems at concrete inputs.
use distribution_rs.Tests.Data.{
  no_tables, no_files, new_world, alpine, latest, body, body_digest, text_plain, put_body,
  delete_body, upload, session, uploading, more,
}
use distribution_rs.Prelude.{
  ◌%◌, ◌^◌, true, none, some, [], ◌∷◌, ◌++◌, ◌≡◌, ◌⊎◌, refl, arith, ok, here,
}
use distribution_rs.Prelude.Text.{codes}
use distribution_rs.Api.Uploads as Handlers
use distribution_rs.Api.Uploads.Content.{put-HoldsContent}
use distribution_rs.Database.{GcJob, running}
use distribution_rs.Registry.{World, digest_of}
use distribution_rs.Registry.Calls.{run_all}
use distribution_rs.Registry.Chunks.{
  AtOffset, write_upload_chunk-offset, write_upload_chunk-refused,
}
use distribution_rs.Registry.Code.{registry_code}
use distribution_rs.Registry.Gc
use distribution_rs.Registry.Gc.Jobs.{Idle, HasEnded, start_gc-Idle, start_gc-startup_cleanup}
use distribution_rs.Registry.Integrity.{
  HoldsContent, complete_upload-HoldsContent, complete_upload-sha512,
}
use distribution_rs.Registry.Manifests
use distribution_rs.Registry.Blobs
use distribution_rs.Registry.Monolithic.{monolithic_upload-HoldsContent}
use distribution_rs.Registry.Tags.{NoDangling}
use distribution_rs.Registry.Tags.Whole.{run_all-NoDangling, delete_manifest-gone, GoneFrom}
use distribution_rs.Registry.Uploads
use distribution_rs.Storage.Append.{write_upload_chunk-append}
use distribution_rs.Storage.Atomic.{put_blob_atomic, put_manifest_bytes_atomic}
use distribution_rs.Storage.Blobs.{OldOrWhole}
use distribution_rs.Storage.Files.{Reader, Fs, read}
use distribution_rs.Storage.Filesystem
use distribution_rs.Storage.Filesystem.{storage_code}
use distribution_rs.Storage.Paths.{blob_path, manifest_path, upload_path}
use distribution_rs.Tests.ListEngine.{env, toy_hash, pad}
use distribution_rs.Types.Digest.{Digest, sha512, to_string}
use distribution_rs.Types.Ids.{default_tenant}

-- A manifest that was put is read by its tag.
put_then_get :
    (Manifests.get_manifest env
      (codes "now")
      default_tenant
      alpine
      latest
      (run_all env (put_body ∷ []) new_world)).0
    ≡ ok (body, text_plain, body_digest)
unfolding registry_code
put_then_get = refl

run_all-NoDangling_example :
    NoDangling (run_all env (put_body ∷ delete_body ∷ put_body ∷ []) new_world).db.tables
unfolding NoDangling
run_all-NoDangling_example =
    run_all-NoDangling env (put_body ∷ delete_body ∷ put_body ∷ []) new_world (λ g at. elim at [ ])

abbrev with_manifest : World
with_manifest = run_all env (put_body ∷ []) new_world

delete_manifest-gone_example :
    GoneFrom env default_tenant alpine
      (to_string body_digest)
      with_manifest.db.tables
      (Manifests.delete_manifest env default_tenant alpine body_digest with_manifest).1.db.tables
unfolding registry_code
delete_manifest-gone_example =
    delete_manifest-gone env default_tenant alpine body_digest with_manifest refl

complete_upload-HoldsContent_example :
    HoldsContent toy_hash
      (blob_path body_digest)
      body_digest
      (Uploads.complete_upload env default_tenant alpine upload body_digest uploading).1.fs
    × (read
          (blob_path body_digest)
          (Uploads.complete_upload env default_tenant alpine upload body_digest
            uploading).1.fs.files
        ≡ read (upload_path (Uploads.text_of env upload)) uploading.fs.files)
unfolding registry_code
complete_upload-HoldsContent_example =
    complete_upload-HoldsContent env default_tenant alpine upload body_digest uploading refl

put-HoldsContent_example :
    let w' =
      (Handlers.complete_upload env default_tenant alpine upload
        (codes "now")
        body_digest
        more
        uploading).1 in
    (read (blob_path body_digest) w'.fs.files ≡ some (body ++ more.bytes))
    × (digest_of toy_hash (body ++ more.bytes) ≡ body_digest)
unfolding registry_code Handlers.complete_upload
put-HoldsContent_example =
    put-HoldsContent env default_tenant alpine upload (codes "now") body_digest more uploading
      session body (Handlers.created alpine body_digest) refl refl refl refl

write_upload_chunk-offset_example : AtOffset env default_tenant alpine upload 2 uploading.db.tables
unfolding registry_code
write_upload_chunk-offset_example =
    write_upload_chunk-offset env default_tenant alpine upload (codes "now") more 2 uploading 4 refl

write_upload_chunk-refused_example :
    let w =
      (Uploads.write_upload_chunk env
        (codes "now")
        default_tenant
        alpine
        upload
        more
        5
        uploading).1 in
    (w.db.tables ≡ uploading.db.tables) × (w.fs ≡ uploading.fs)
unfolding registry_code
write_upload_chunk-refused_example =
    write_upload_chunk-refused env default_tenant alpine upload (codes "now") more 5 uploading
      session refl (omega arith)

write_upload_chunk-append_example :
    (read
        (upload_path (pad 3 b'u'))
        (Filesystem.write_upload_chunk (pad 3 b'u') more 2 uploading.fs).1.files
      ≡ some (codes "{}[]"))
    × (4 ≡ 4 % 2 ^ 64)
unfolding registry_code
write_upload_chunk-append_example =
    write_upload_chunk-append (pad 3 b'u') more body uploading.fs 4 refl refl

-- A reader that breaks, on a store whose second call fails.
abbrev broken : Reader
broken = record { bytes = body; is_broken = true }

abbrev failing : Fs
failing = record { files = []; faults = none ∷ some 1 ∷ [] }

put_blob_atomic_example :
    OldOrWhole
      (blob_path body_digest)
      (read (blob_path body_digest) failing.files)
      broken
      (Filesystem.put_blob (codes "u") body_digest broken failing).1
put_blob_atomic_example = put_blob_atomic (codes "u") body_digest broken failing

put_manifest_bytes_atomic_example :
    let s = (Filesystem.put_manifest_bytes (codes "u") body_digest body no_files).1 in
    (read (manifest_path body_digest) s.files ≡ read (manifest_path body_digest) no_files.files)
    ⊎ (read (manifest_path body_digest) s.files ≡ some body)
put_manifest_bytes_atomic_example = put_manifest_bytes_atomic (codes "u") body_digest body no_files

start_gc-Idle_example : (codes "job" ≡ codes "job") × Idle no_tables
unfolding registry_code
start_gc-Idle_example = start_gc-Idle env (codes "job") (codes "now") new_world (codes "job") refl

abbrev stuck_job : GcJob
stuck_job = record {
  id = codes "old";
  status = running;
  started_at = none;
  completed_at = none;
  stats = none;
  created_at = codes "t";
}

abbrev stuck : World
stuck = record new_world {
  db = record { tables = record no_tables { gc_jobs = stuck_job ∷ [] }; faults = [] };
}

stuck_active : ¬ HasEnded stuck_job
stuck_active h = ground arith

start_gc-startup_cleanup_example : ¬ (
    (Gc.start_gc env (codes "job") (codes "now") (Gc.startup_cleanup env stuck).1).0
    ≡ ok (codes "job"))
unfolding registry_code
start_gc-startup_cleanup_example =
    start_gc-startup_cleanup env stuck stuck_job here stuck_active (codes "job") (codes "now")
      (codes "job")

abbrev other_digest : Digest
other_digest = record { algorithm = sha512; hex = pad 128 b'a' }

complete_upload-sha512_example :
    ¬ ((Uploads.complete_upload env default_tenant alpine upload other_digest uploading).0 ≡ ok tt)
complete_upload-sha512_example =
    complete_upload-sha512 env default_tenant alpine upload other_digest uploading refl

monolithic_upload-HoldsContent_example :
    HoldsContent toy_hash
      (blob_path body_digest)
      body_digest
      (Blobs.monolithic_upload env
        (codes "u")
        default_tenant
        alpine
        body_digest
        more
        new_world).1.fs
unfolding registry_code
monolithic_upload-HoldsContent_example =
    monolithic_upload-HoldsContent env body_digest (codes "u") default_tenant alpine more new_world
      refl
