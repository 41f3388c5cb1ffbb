-- ===== src/Registry/Tags/Statements.antt =====
-- What each statement and each transaction of the registry does to dangling tags.
use distribution_rs.Prelude.{ℕ, Option, none, some, ◌≡◌, refl, subst, some-injective}
use distribution_rs.Prelude.Text.{Text}
use distribution_rs.Exec.{◌>>=◌}
use distribution_rs.Exec.Keeps.{Keeps, Keeps-bind, Keeps-bind_at, Keeps-pure, keeps_rules}
use distribution_rs.Exec.Ensures.{Ensures}
use distribution_rs.Database.{Tables, Tag, Manifest, UploadSession, GcJob, Sql}
use distribution_rs.Database.Rules.{
  OnTables, OnTables-execute, OnTables-execute_checked, OnTables-transaction, OnTables-rollback,
  Ensures-execute,
}
use distribution_rs.Registry.{Env}
use distribution_rs.Registry.Blobs
use distribution_rs.Registry.Calls.Closed.{Closed}
use distribution_rs.Registry.Gc
use distribution_rs.Registry.Manifests
use distribution_rs.Registry.Repositories
use distribution_rs.Registry.Tags.{HasManifest, NoDangling, NoTagTo}
use distribution_rs.Registry.Tags.Rows
use distribution_rs.Registry.Uploads
use distribution_rs.Storage.Files.{Bytes}
use distribution_rs.Types.Reference.{Reference, tag, digest}

-- The manifest is there, and no tag dangles.
abbrev pub Backed : ℕ → Text → Tables → Type 0
Backed i d t = HasManifest i d t × NoDangling t

-- No tag points to the digest, and no tag dangles.
abbrev pub Freed : ℕ → Text → Tables → Type 0
Freed i d t = NoTagTo i d t × NoDangling t

module _ {A B : Type 0} {P Q : Tables → Type 0} where
  -- A first part that establishes `Q`, and a rest that keeps it.
  pub Keeps-after :
      (m : Sql A) (f : A → Sql B)
      → ((t : Tables) → Q t → P t)
      → Keeps (OnTables P) m
      → Ensures (OnTables P) m (λ _. OnTables Q)
      → ((a : A) → Keeps (OnTables Q) (f a))
      → Keeps (OnTables P) (m >>= f)
  Keeps-after m f weaker km em kf = record {
    at = λ db h.
        Keeps-bind_at (OnTables P) m f db (km.at db h)
          λ a e. record { tables_at = weaker _ ((kf a).at (m db).1 (em.at db h a e)).tables_at };
  }

module _ (env : Env) where
  Keeps-upsert_manifest :
      (m : Manifest) → Keeps (OnTables NoDangling) (Manifests.upsert_manifest env m)
  unfolding Manifests.upsert_manifest
  Keeps-upsert_manifest m = OnTables-execute _ _ (Rows.NoDangling-upserted env m)

  Ensures-upsert_manifest :
      (m : Manifest)
      → Ensures
          (OnTables NoDangling)
          (Manifests.upsert_manifest env m)
          (λ _. OnTables (Backed m.repo_id m.digest))
  unfolding Manifests.upsert_manifest HasManifest
  Ensures-upsert_manifest m =
      Ensures-execute _ _
        λ t h. (Rows.upserted-has env m t.manifests, Rows.NoDangling-upserted env m t h)

  Keeps-upsert_tag :
      (r : Tag) → Keeps (OnTables (Backed r.repo_id r.digest)) (Manifests.upsert_tag env r)
  unfolding Manifests.upsert_tag HasManifest
  Keeps-upsert_tag r =
      OnTables-execute _ _ λ t (has, h). (has, Rows.NoDangling-tagged env r t has h)

  Keeps-upsert_reference :
      (i : ℕ) (r : Reference) (d now : Text)
      → Keeps (OnTables (Backed i d)) (Manifests.upsert_reference env i r d now)
  unfolding Manifests.upsert_reference
  Keeps-upsert_reference i (digest _) d now = Keeps-pure tt
  Keeps-upsert_reference i (tag t) d now = Keeps-upsert_tag _

  Keeps-track_referrer :
      (i e : ℕ) (d d' m : Text) (b : Bytes) (s : Option Text)
      → Keeps (OnTables (Backed i d)) (Manifests.track_referrer env e d' m b s)
  unfolding Manifests.track_referrer Manifests.upsert_referrer HasManifest NoDangling
  Keeps-track_referrer i e d d' m b none = Keeps-pure tt
  Keeps-track_referrer i e d d' m b (some x) = OnTables-execute _ _ λ t h. h

  Keeps-record_manifest :
      (now : Text) (i : ℕ) (r : Reference) (d m : Text) (b : Bytes)
      → Keeps (OnTables NoDangling) (Manifests.record_manifest env now i r d m b)
  unfolding Manifests.record_manifest
  Keeps-record_manifest now i r d m b = OnTables-transaction _ (
      Keeps-after _ _ (λ t h. h.1) (Keeps-upsert_manifest _) (Ensures-upsert_manifest _)
        λ _.
          Keeps-bind _ _ (Keeps-upsert_reference i r d now) λ _. Keeps-track_referrer i i d d m b _)

  Keeps-delete_tags :
      (i : ℕ) (d : Text) → Keeps (OnTables NoDangling) (Manifests.delete_tags env i d)
  unfolding Manifests.delete_tags
  Keeps-delete_tags i d = OnTables-execute _ _ (Rows.NoDangling-tags_deleted env _)

  pub Ensures-delete_tags :
      (i : ℕ) (d : Text)
      → Ensures (OnTables NoDangling) (Manifests.delete_tags env i d) (λ _. OnTables (Freed i d))
  unfolding Manifests.delete_tags
  Ensures-delete_tags i d =
      Ensures-execute _ _
        λ t h. (Rows.NoTagTo-deleted env i d t, Rows.NoDangling-tags_deleted env _ t h)

  Keeps-delete_referrers :
      (i : ℕ) (d : Text) → Keeps (OnTables (Freed i d)) (Manifests.delete_referrers env i d)
  unfolding Manifests.delete_referrers NoTagTo NoDangling HasManifest
  Keeps-delete_referrers i d = OnTables-execute _ _ λ t h. h

  Keeps-delete_manifests :
      (i : ℕ) (d : Text) → Keeps (OnTables (Freed i d)) (Manifests.delete_manifests env i d)
  unfolding Manifests.delete_manifests NoTagTo
  Keeps-delete_manifests i d =
      OnTables-execute _ _
        λ t (none_left, h). (none_left, Rows.NoDangling-manifest_deleted env i d t none_left h)

  Keeps-delete_rows :
      (i : ℕ) (d : Text) → Keeps (OnTables NoDangling) (Manifests.delete_rows env i d)
  unfolding Manifests.delete_rows
  Keeps-delete_rows i d =
      Keeps-after _ _ (λ t h. h.1) (Keeps-delete_tags i d) (Ensures-delete_tags i d)
        λ _. Keeps-bind _ _ (Keeps-delete_referrers i d) λ _.
          Keeps-bind _ _ (Keeps-delete_manifests i d) λ n. search (keeps_rules, OnTables-rollback)

  inserted :
      (s : UploadSession) (t t' : Tables) (o : Option UploadSession)
      → NoDangling t
      → Uploads.insert_unless env s t o ≡ some t'
      → NoDangling t'
  unfolding NoDangling HasManifest
  inserted s t t' none h e = subst NoDangling (some-injective e) h
  inserted s t t' (some _) h e = cc

  updated :
      (id : Text) (o : ℕ) (now : Text) (t t' : Tables) (r : Option UploadSession)
      → NoDangling t
      → Uploads.update_if env id o now t r ≡ some t'
      → NoDangling t'
  unfolding NoDangling HasManifest
  updated id o now t t' (some _) h e = subst NoDangling (some-injective e) h
  updated id o now t t' none h e = cc

  job_inserted :
      (j : GcJob) (t t' : Tables) (o : Option GcJob)
      → NoDangling t
      → Gc.insert_job_unless env j t o ≡ some t'
      → NoDangling t'
  unfolding NoDangling HasManifest
  job_inserted j t t' none h e = subst NoDangling (some-injective e) h
  job_inserted j t t' (some _) h e = cc

  pub tags_closed : Closed env NoDangling
  unfolding Repositories.insert_repo Blobs.upsert_link Blobs.delete_links Manifests.count_pull
      Uploads.insert_session Uploads.update_session Uploads.delete_session Gc.insert_job
      Gc.update_job NoDangling HasManifest
  tags_closed = record {
    insert_repo = λ t n. OnTables-execute _ _ λ t h. h;
    upsert_link = λ l. OnTables-execute _ _ λ t h. h;
    delete_links = λ i d. OnTables-execute _ _ λ t h. h;
    count_pull = λ i d now.
        OnTables-execute _ _ λ t h. Rows.NoDangling-updated env _ _ t (λ g. (refl, refl)) h;
    record_manifest = Keeps-record_manifest;
    delete_rows = λ i d. OnTables-transaction _ (Keeps-delete_rows i d);
    insert_session = λ s. OnTables-execute_checked _ (λ t t' h e. inserted s t t' _ h e);
    update_session =
        λ id o now. OnTables-execute_checked _ (λ t t' h e. updated id o now t t' _ h e);
    delete_session = λ id. OnTables-execute _ _ λ t h. h;
    insert_job = λ j. OnTables-execute_checked _ (λ t t' h e. job_inserted j t t' _ h e);
    update_job = λ id f. OnTables-execute _ _ λ t h. h;
  }
