-- ===== src/Registry/Stored/Get.antt =====
-- src/registry.rs: `get_manifest` returns what `put_manifest` stored.
use distribution_rs.Prelude.{
  ℕ, Option, some, List, [], ◌∷◌, ◌≡◌, refl, sym, ap, ◌∙◌, subst, inl, inr, ok, err,
}
use distribution_rs.Prelude.Text.{Text}
use distribution_rs.Error.{storage, oci, detailed, manifest_unknown, types_error}
use distribution_rs.Exec.{pure, raise, from_option, gets, map_err, mapped, ◌>>=◌, ◌>>◌}
use distribution_rs.Exec.Reaches.{
  Reaches, Reaches-bind, Reaches-Ensures, Reaches-known, Reaches-pure,
}
use distribution_rs.Database.{Repository, Manifest, select}
use distribution_rs.Registry.{Env, World, Reg, Hash, on_db, on_storage, digest_of}
use distribution_rs.Registry.Manifests
use distribution_rs.Registry.Manifests.{find_tag, find_manifest}
use distribution_rs.Registry.Repositories.{find_repo, require_repo}
use distribution_rs.Registry.Stored.Put.{Recorded, Ensures-put_manifest}
use distribution_rs.Storage.Files.{
  Bytes, Files, Fs, read, open_file, call, exists, file_bytes, next_fault,
}
use distribution_rs.Storage.Filesystem
use distribution_rs.Storage.Frame.{Holds}
use distribution_rs.Storage.Paths.{manifest_path}
use distribution_rs.Types.Digest
use distribution_rs.Types.Digest.{Digest, validate_digest}
use distribution_rs.Types.Digest.RoundTrip.{validate_digest-to_string}
use distribution_rs.Types.Ids.{TenantId}
use distribution_rs.Types.Reference
use distribution_rs.Types.Reference.{Reference, tag}
use distribution_rs.Types.RepoName.{RepoName}
use distribution_rs.Types.TagName.{TagName}
use distribution_rs.Registry.Faults.{
  Never, Healthy, Ready, Total-execute, Reaches-query, Reaches-row, Reaches-found,
}

-- The digest of a tag's row.
abbrev parsed : Text → Reg Digest
parsed s = elim (validate_digest s) [
  | ok d ↦ pure d
  | err e ↦ raise (oci (detailed manifest_unknown (types_error e)))
]

module _ (env : Env) (tenant : TenantId) (name : RepoName) (i : ℕ) (g : TagName) (d : Digest)
    (m : Text) (b : Bytes) (printed : validate_digest (Digest.to_string d) ≡ ok d) where
  -- The file of the manifest holds the bytes, and no call fails.
  abbrev There : Fs → Type 0
  There s = Holds (manifest_path d) (some b) s × (s.faults ≡ [])

  abbrev Known : World → Type 0
  Known = Ready (Recorded env tenant name i g (Digest.to_string d) m) There

  Reaches-require_repo :
      Reaches Never Known (require_repo env tenant name) (λ j w. (j ≡ i) × Known w)
  unfolding require_repo
  Reaches-require_repo = Reaches-bind (Reaches-query (find_repo env tenant name)) λ row.
      Reaches-row (λ (r : Repository). r.id) row (find_repo env tenant name) _ (λ j. j ≡ i)
        λ t h. h.0

  Reaches-resolve_digest :
      Reaches Never Known (Manifests.resolve_digest env i (tag g)) (λ x w. (x ≡ d) × Known w)
  unfolding Manifests.resolve_digest
  Reaches-resolve_digest = Reaches-bind (Reaches-query (find_tag env i g.as_str)) λ row.
      Reaches-bind
        (Reaches-found row (find_tag env i g.as_str) _ (λ x. x.digest ≡ Digest.to_string d)
          λ t h. h.2)
        λ x. Reaches-known parsed x.digest (Digest.to_string d) right
    where
      right : Reaches Never Known (parsed (Digest.to_string d)) (λ x w. (x ≡ d) × Known w)
      right =
          subst
            (λ r.
              Reaches Never Known
                (elim r [
                  | ok y ↦ pure y
                  | err e ↦ raise (oci (detailed manifest_unknown (types_error e)))
                ])
                (λ x w. (x ≡ d) × Known w))
            (sym printed) (Reaches-pure d λ w h. (refl, h))

  -- `require_manifest` behind the repository, and behind the digest
  abbrev with_digest : ℕ → Digest → Reg (ℕ × Digest × Manifest)
  with_digest j x = do
    row ← on_db (select (find_manifest env j (Digest.to_string x)))
    found ← from_option row (Manifests.unknown_manifest (Reference.to_string (tag g)))
    pure (j, x, found)

  abbrev with_repo : ℕ → Reg (ℕ × Digest × Manifest)
  with_repo j = do x ← Manifests.resolve_digest env j (tag g); with_digest j x

  -- What is known of the row of the manifest.
  abbrev Right : ℕ × Digest × Manifest → Type 0
  Right (j, x, y) = (x ≡ d) × (y.media_type ≡ m)

  Reaches-with_digest : Reaches Never Known (with_digest i d) (λ r w. Right r × Known w)
  Reaches-with_digest =
      Reaches-bind (Reaches-query (find_manifest env i (Digest.to_string d))) λ row.
        Reaches-bind
          (Reaches-found row (find_manifest env i (Digest.to_string d)) _ (λ y. y.media_type ≡ m)
            λ t h. h.1)
          λ y. Reaches-pure _ λ w (e, h). ((refl, e), h)

  Reaches-require_manifest :
      Reaches Never Known
        (Manifests.require_manifest env tenant name (tag g))
        (λ r w. Right r × Known w)
  unfolding Manifests.require_manifest
  Reaches-require_manifest = Reaches-bind Reaches-require_repo λ j. Reaches-known with_repo j i (
      Reaches-bind Reaches-resolve_digest
        λ x. Reaches-known (with_digest i) x d Reaches-with_digest)

  -- The bytes that are read.
  got_bytes : (s : Fs) → There s → (Filesystem.get_manifest_bytes d s).0 ≡ ok b
  unfolding Filesystem.get_manifest_bytes open_file call exists file_bytes next_fault gets map_err
      ◌>>=◌
  got_bytes s (h, calm) = go s.files s.faults h.content calm
    where
      go :
          (files : Files) (faults : List (Option ℕ))
          → read (manifest_path d) files ≡ some b
          → faults ≡ []
          → (Filesystem.get_manifest_bytes d (record { files = files; faults = faults })).0 ≡ ok b
      go files [] h e = simp h
      go files (x ∷ fs) h e = cc

  Reaches-bytes :
      Reaches Never Known
        (on_storage (Filesystem.get_manifest_bytes d))
        (λ x w. (x ≡ b) × Healthy w)
  unfolding on_storage
  Reaches-bytes = record {
    at = λ w (h, calm). inl (b, ap (mapped storage) (got_bytes w.fs h.files_kept), (refl, calm));
  }

  abbrev pulled : Text → ℕ × Digest × Manifest → Digest → Reg (Bytes × Text × Digest)
  pulled now found x = do
    bytes ← on_storage (Filesystem.get_manifest_bytes x)
    on_db (Manifests.count_pull env found.0 (Digest.to_string x) now)
    pure (bytes, found.2.media_type, x)

  Reaches-pulled :
      (now : Text) (found : ℕ × Digest × Manifest)
      → Reaches Never (λ w. Right found × Known w) (pulled now found found.1) (λ r _. r ≡ (b, m, d))
  unfolding Manifests.count_pull
  Reaches-pulled now found = record {
    at = λ w (right, h).
        (Reaches-known (pulled now found) found.1 d (known right.1)).at w (right.0, h);
  }
    where
      known :
          found.2.media_type ≡ m → Reaches Never Known (pulled now found d) (λ r _. r ≡ (b, m, d))
      known e = Reaches-bind Reaches-bytes λ x.
          Reaches-bind {Q = λ _ w. (x ≡ b) × Healthy w}
            (Reaches-Ensures (record { at = λ w same a r. same }) (Total-execute _ _))
            λ _. Reaches-pure _ λ w (same, _). (cc)

  Reaches-get_manifest :
      (now : Text)
      → Reaches Never Known
          (Manifests.get_manifest env now tenant name (tag g))
          (λ r _. r ≡ (b, m, d))
  unfolding Manifests.get_manifest
  Reaches-get_manifest now = Reaches-bind Reaches-require_manifest (Reaches-pulled now)

printed_digest :
    (hash : Hash) (b : Bytes)
    → validate_digest (Digest.to_string (digest_of hash b)) ≡ ok (digest_of hash b)
unfolding digest_of
printed_digest hash b =
    validate_digest-to_string (digest_of hash b)
      (record { length_is = hash.sha256_hex-len b; all_hex = hash.sha256_hex-AllHex b })

-- What `put_manifest` by a tag has stored is what `get_manifest` by that tag returns right after it,
-- where no statement and no call of the file system fails in `get_manifest`: the bytes with their
-- media type and their digest. The file of the manifest is taken to have held no other bytes before.
pub put_manifest-get_manifest :
    (env : Env) (tenant : TenantId) (name : RepoName) (g : TagName) (uuid now later m : Text)
    (b : Bytes) (w : World) (r : Digest × Option Text)
    → ((x : Bytes) → read (manifest_path (digest_of env.hash b)) w.fs.files ≡ some x → x ≡ b)
    → (Manifests.put_manifest env uuid now tenant name (tag g) m b w).0 ≡ ok r
    → (Manifests.put_manifest env uuid now tenant name (tag g) m b w).1.db.faults ≡ []
    → (Manifests.put_manifest env uuid now tenant name (tag g) m b w).1.fs.faults ≡ []
    → let w' = (Manifests.put_manifest env uuid now tenant name (tag g) m b w).1 in
      (r.0 ≡ digest_of env.hash b)
      × ((Manifests.get_manifest env later tenant name (tag g) w').0
          ≡ ok (b, m, digest_of env.hash b))
put_manifest-get_manifest env tenant name g uuid now later m b w r known put statements calls =
    let (same, (i, h)) =
      (Ensures-put_manifest env tenant name uuid now g m b
          (read (manifest_path (digest_of env.hash b)) w.fs.files) known).at
        w
        (record { tables_kept = record { tables_at = tt }; files_kept = record { content = refl } })
        r put in
    (
      same,
      elim ((Reaches-get_manifest env tenant name i g (digest_of env.hash b) m b
            (printed_digest env.hash b) later).at
          _
          (
            record { tables_kept = h.tables_kept; files_kept = (h.files_kept, calls) },
            statements,
          )) [ inl (a, e, is) ↦ e ∙ ap ok is | inr failure ↦ elim failure.2 [ ] ],
    )
