-- ===== src/Registry/Calls/Keep.antt =====
-- Every call keeps what each statement keeps.
use distribution_rs.Prelude.{List, [], ◌∷◌}
use distribution_rs.Database.{Tables}
use distribution_rs.Registry.{World, Env}
use distribution_rs.Registry.Calls.{
  Call, run, run_all, startup_cleanup, ensure_repository, blob_exists, get_blob, blob_head,
  delete_blob, get_blob_range, mount_blob, monolithic_upload, get_manifest, head_manifest,
  put_manifest, delete_manifest, start_upload, get_upload_status, write_upload_chunk,
  complete_upload, cancel_upload, start_gc, run_gc, mark_gc_failed, get_gc_job, list_tags,
  list_repositories, list_referrers,
}
use distribution_rs.Registry.Calls.Closed.{Closed, Keeps-ensure_repository}
use distribution_rs.Registry.Calls.BlobCalls
use distribution_rs.Registry.Calls.ManifestCalls
use distribution_rs.Registry.Calls.UploadCalls
use distribution_rs.Registry.Calls.ListCalls
use distribution_rs.Registry.Rules.{InDb}

module _ (env : Env) (P : Tables → Type 0) (c : Closed env P) where
  pub run-keeps : (x : Call) (w : World) → InDb P w → InDb P (run env x w)
  unfolding run
  run-keeps startup_cleanup w h = (UploadCalls.Keeps-startup_cleanup env P).at w h
  run-keeps (ensure_repository t n) w h = (Keeps-ensure_repository env P c t n).at w h
  run-keeps (blob_exists t n d) w h = (BlobCalls.Keeps-blob_exists env P c t n d).at w h
  run-keeps (get_blob t n d) w h = (BlobCalls.Keeps-get_blob env P c t n d).at w h
  run-keeps (blob_head t n d) w h = (BlobCalls.Keeps-blob_head env P c t n d).at w h
  run-keeps (delete_blob t n d) w h = (BlobCalls.Keeps-delete_blob env P c t n d).at w h
  run-keeps (get_blob_range t n d o l) w h =
      (BlobCalls.Keeps-get_blob_range env P c t n d o l).at w h
  run-keeps (mount_blob t n f d) w h = (BlobCalls.Keeps-mount_blob env P c t n f d).at w h
  run-keeps (monolithic_upload u t n d r) w h =
      (BlobCalls.Keeps-monolithic_upload env P c u t n d r).at w h
  run-keeps (get_manifest now t n r) w h =
      (ManifestCalls.Keeps-get_manifest env P c now t n r).at w h
  run-keeps (head_manifest t n r) w h = (ManifestCalls.Keeps-head_manifest env P c t n r).at w h
  run-keeps (put_manifest u now t n r m b) w h =
      (ManifestCalls.Keeps-put_manifest env P c u now t n r m b).at w h
  run-keeps (delete_manifest t n d) w h = (ManifestCalls.Keeps-delete_manifest env P c t n d).at w h
  run-keeps (start_upload f now t n) w h = (UploadCalls.Keeps-start_upload env P c f now t n).at w h
  run-keeps (get_upload_status t n i) w h =
      (UploadCalls.Keeps-get_upload_status env P c t n i).at w h
  run-keeps (write_upload_chunk now t n i r o) w h =
      (UploadCalls.Keeps-write_upload_chunk env P c now t n i r o).at w h
  run-keeps (complete_upload t n i d) w h =
      (UploadCalls.Keeps-complete_upload env P c t n i d).at w h
  run-keeps (cancel_upload t n i) w h = (UploadCalls.Keeps-cancel_upload env P c t n i).at w h
  run-keeps (start_gc j now) w h = (UploadCalls.Keeps-start_gc env P c j now).at w h
  run-keeps (run_gc f s k e j) w h = (UploadCalls.Keeps-run_gc env P c f s k e j).at w h
  run-keeps (mark_gc_failed now j) w h = (UploadCalls.Keeps-mark_gc_failed env P c now j).at w h
  run-keeps (get_gc_job j) w h = (UploadCalls.Keeps-get_gc_job env P c j).at w h
  run-keeps (list_tags t n k l) w h = (ListCalls.Keeps-list_tags env P c t n k l).at w h
  run-keeps (list_repositories t k l) w h = (ListCalls.Keeps-list_repositories env P t k l).at w h
  run-keeps (list_referrers t n d a) w h = (ListCalls.Keeps-list_referrers env P c t n d a).at w h

  pub run_all-keeps : (xs : List Call) (w : World) → InDb P w → InDb P (run_all env xs w)
  unfolding run_all
  run_all-keeps [] w h = h
  run_all-keeps (x ∷ xs) w h = run_all-keeps xs (run env x w) (run-keeps x w h)
