-- ===== src/Registry/Code.antt =====
-- All of src/registry.rs, for code that runs it.
use distribution_rs.Prelude.{ℕ}
use distribution_rs.Prelude.Text.{text_eq}
use distribution_rs.Exec.{◌>>=◌}
use distribution_rs.Database.{next_fault, select, execute, execute_checked, transaction, rollback}
use distribution_rs.Registry.{
  on_db, on_storage, digest_of, parsed_digest, compute_digest, digest_eq,
}
use distribution_rs.Registry.Blobs
use distribution_rs.Registry.Calls.{run, run_all}
use distribution_rs.Registry.Gc
use distribution_rs.Registry.Lists
use distribution_rs.Registry.Manifests
use distribution_rs.Registry.Repositories
use distribution_rs.Registry.Uploads
use distribution_rs.Storage.Files.{path_eq, read, write_at}
use distribution_rs.Storage.Filesystem.{storage_code}
use mathlib.Core.Option
use distribution_rs.Types.Digest
use distribution_rs.Types.Ids.{upload_id, upload_id_to_string, tenant_id}

-- Naming this opens all of the registry.
unfoldable pub registry_code : ℕ
unfolding storage_code path_eq read write_at Option.bind text_eq ◌>>=◌ next_fault select execute
    execute_checked transaction rollback run run_all upload_id upload_id_to_string tenant_id
    Digest.to_string Digest.validate_digest Digest.validate_parts Digest.validate_hex
    Digest.check_hex_chars on_db on_storage digest_of parsed_digest compute_digest digest_eq
    Repositories.is_repo Repositories.same_repo Repositories.find_repo Repositories.new_repo
    Repositories.insert_repo Repositories.inserted_or_found Repositories.found_or_inserted
    Repositories.ensure_repository Repositories.require_repo Blobs.is_link Blobs.same_link
    Blobs.find_link Blobs.upsert_link Blobs.link_exists Blobs.blob_exists Blobs.require_link
    Blobs.get_blob Blobs.get_blob_range Blobs.blob_head Blobs.mount_link Blobs.mount_from
    Blobs.mount_blob Blobs.delete_links Blobs.delete_blob Blobs.link_or_delete
    Blobs.monolithic_upload Manifests.is_manifest Manifests.same_manifest Manifests.is_tag
    Manifests.same_tag Manifests.points_to Manifests.refers_from Manifests.same_referrer
    Manifests.find_manifest Manifests.find_tag Manifests.resolve_digest Manifests.require_part
    Manifests.require_parts Manifests.require_manifests Manifests.validate_manifest_references
    Manifests.require_manifest Manifests.count_pull Manifests.get_manifest Manifests.head_manifest
    Manifests.upsert_manifest Manifests.upsert_tag Manifests.upsert_referrer
    Manifests.upsert_reference Manifests.subject_digest Manifests.artifact_type
    Manifests.annotations Manifests.track_referrer Manifests.record_manifest
    Manifests.check_reference Manifests.put_manifest Manifests.delete_tags
    Manifests.delete_referrers Manifests.delete_manifests Manifests.delete_rows
    Manifests.delete_manifest Uploads.is_session Uploads.find_session Uploads.insert_session
    Uploads.update_session Uploads.delete_session Uploads.start_upload Uploads.require_upload
    Uploads.get_upload_status Uploads.write_chunk_at Uploads.write_upload_chunk
    Uploads.link_and_close Uploads.finish_upload Uploads.complete_upload Uploads.cancel_upload
    Gc.is_active Gc.is_job Gc.find_active Gc.insert_job Gc.insert_if_idle Gc.start_gc Gc.update_job
    Gc.clean_sessions Gc.expired Gc.run_gc Gc.mark_gc_failed Gc.get_gc_job Gc.abort_parsed
    Gc.abort_orphan Gc.abort_orphans Gc.startup_cleanup Lists.page_of Lists.is_listed_tag
    Lists.is_listed_repo Lists.tag_rows Lists.repository_rows Lists.list_tags
    Lists.list_repositories Lists.is_listed_referrer Lists.referrers_in Lists.list_referrers
registry_code = 0
