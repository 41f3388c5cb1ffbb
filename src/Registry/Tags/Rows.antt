-- ===== src/Registry/Tags/Rows.antt =====
-- What the statements on manifests and tags do to single rows.
use distribution_rs.Prelude.{
  ℕ, Bool, true, false, List, ◌≡◌, refl, sym, ap, ◌∙◌, inl, inr, In, Bool-cases, Option-cases, ◌==◌,
  ◌&&◌,
}
use distribution_rs.Prelude.Text.{Text, text_eq, key_iff}
use distribution_rs.Database.{Manifest, Tag, Tables}
use distribution_rs.Registry.{Env}
use distribution_rs.Registry.Manifests.{is_manifest, same_manifest, same_tag, points_to}
use distribution_rs.Registry.Tags.{HasManifest, NoDangling, NoTagTo}

module _ (env : Env) where
  abbrev pub upserted : Manifest → List Manifest → List Manifest
  upserted m =
      (env.sql.table Manifest).upsert same_manifest
        (λ new old. record old { media_type = new.media_type; size = new.size }) m

  -- An upsert keeps each key that is there.
  pub upserted-keeps :
      (m old : Manifest) (ms : List Manifest)
      → In old ms
      → (r : Manifest) × In r (upserted m ms) × (r.repo_id ≡ old.repo_id) × (r.digest ≡ old.digest)
  upserted-keeps m old ms h = elim (Bool-cases (same_manifest m old)) [
    | inr miss ↦
        (old, ((env.sql.table Manifest).upsert_iff _ _ m ms old).1 (inl (h, miss)), refl, refl)
    | inl hit ↦ (
      _,
      ((env.sql.table Manifest).upsert_iff _ _ m ms _).1 (inr (inl (old, h, hit, refl))),
      refl,
      refl,
    )
  ]

  -- Behind an upsert its key is there.
  pub upserted-has :
      (m : Manifest) (ms : List Manifest)
      → (r : Manifest) × In r (upserted m ms) × (r.repo_id ≡ m.repo_id) × (r.digest ≡ m.digest)
  unfolding same_manifest
  upserted-has m ms = elim (Option-cases ((env.sql.table Manifest).one (same_manifest m) ms)) [
    | inl miss ↦ (
      m,
      ((env.sql.table Manifest).upsert_iff _ _ m ms m).1
          (inr (inr ((env.sql.table Manifest).one_complete _ ms miss, refl))),
      refl,
      refl,
    )
    | inr (s, hit) ↦
        let (at, same) = (env.sql.table Manifest).one_sound _ ms s hit in
        let (i, d) = (key_iff s.repo_id m.repo_id s.digest m.digest).0 same in
        (
          _,
          ((env.sql.table Manifest).upsert_iff _ _ m ms _).1 (inr (inl (s, at, same, refl))),
          i,
          d,
        )
  ]

module _ (env : Env) where
  -- An upsert of a manifest loses miss key.
  pub HasManifest-upserted :
      (m : Manifest) (t : Tables) (i : ℕ) (d : Text)
      → HasManifest i d t
      → HasManifest i d (record t { manifests = upserted env m t.manifests })
  unfolding HasManifest
  HasManifest-upserted m t i d (old, at, ei, ed) =
      let (r, at', i', d') = upserted-keeps env m old t.manifests at in (r, at', i' ∙ ei, d' ∙ ed)

  pub NoDangling-upserted :
      (m : Manifest) (t : Tables)
      → NoDangling t
      → NoDangling (record t { manifests = upserted env m t.manifests })
  unfolding NoDangling
  NoDangling-upserted m t h g at = HasManifest-upserted m t g.repo_id g.digest (h g at)

  abbrev pub set_tag : Tag → Tag → Tag
  set_tag new old = record old { digest = new.digest; updated_at = new.updated_at }

  abbrev pub tagged : Tag → List Tag → List Tag
  tagged = (env.sql.table Tag).upsert same_tag set_tag

  -- A tag for a manifest that is there keeps all tags right.
  pub NoDangling-tagged :
      (r : Tag) (t : Tables)
      → HasManifest r.repo_id r.digest t
      → NoDangling t
      → NoDangling (record t { tags = tagged r t.tags })
  unfolding NoDangling HasManifest same_tag
  NoDangling-tagged r t has h g at = elim (((env.sql.table Tag).upsert_iff _ _ r t.tags g).0 at) [
    | inl (old, _) ↦ h g old
    | inr (inl (s, at', same, e)) ↦
        let (m, mat, mi, md) = has in
        let (si, _) = (key_iff s.repo_id r.repo_id s.name r.name).0 same in
        (
          m,
          mat,
          mi ∙ sym si ∙ sym (ap (λ (x : Tag). x.repo_id) e),
          md ∙ sym (ap (λ (x : Tag). x.digest) e),
        )
    | inr (inr (_, e)) ↦
        let (m, mat, mi, md) = has in
        (m, mat, mi ∙ sym (ap (λ (x : Tag). x.repo_id) e), md ∙ sym (ap (λ (x : Tag). x.digest) e))
  ]

  -- An update of the tags that keeps repository and digest.
  pub NoDangling-updated :
      (p : Tag → Bool) (set : Tag → Tag) (t : Tables)
      → ((g : Tag) → ((set g).repo_id ≡ g.repo_id) × ((set g).digest ≡ g.digest))
      → NoDangling t
      → NoDangling (record t { tags = (env.sql.table Tag).update p set t.tags })
  unfolding NoDangling HasManifest
  NoDangling-updated p set t same h g at =
      elim (((env.sql.table Tag).update_iff p set t.tags g).0 at) [
        | inl (old, _) ↦ h g old
        | inr (s, at', _, e) ↦
            let (m, mat, mi, md) = h s at' in
            let (si, sd) = same s in
            (
              m,
              mat,
              mi ∙ sym (ap (λ (x : Tag). x.repo_id) e ∙ si),
              md ∙ sym (ap (λ (x : Tag). x.digest) e ∙ sd),
            )
      ]

  -- Behind the deletion of the tags of a digest none is left, and the others stay right.
  pub NoTagTo-deleted :
      (i : ℕ) (d : Text) (t : Tables)
      → NoTagTo i d (record t { tags = (env.sql.table Tag).delete (points_to i d) t.tags })
  unfolding NoTagTo
  NoTagTo-deleted i d t g at = (((env.sql.table Tag).delete_iff _ t.tags g).0 at).1

  pub NoDangling-tags_deleted :
      (p : Tag → Bool) (t : Tables)
      → NoDangling t
      → NoDangling (record t { tags = (env.sql.table Tag).delete p t.tags })
  unfolding NoDangling HasManifest
  NoDangling-tags_deleted p t h g at = h g (((env.sql.table Tag).delete_iff p t.tags g).0 at).0

  -- A manifest that miss tag points to can go.
  pub NoDangling-manifest_deleted :
      (i : ℕ) (d : Text) (t : Tables)
      → NoTagTo i d t
      → NoDangling t
      → NoDangling
          (record t { manifests = (env.sql.table Manifest).delete (is_manifest i d) t.manifests })
  unfolding NoDangling HasManifest NoTagTo points_to is_manifest
  NoDangling-manifest_deleted i d t none_left h g at =
      let (m, mat, mi, md) = h g at in
      (m, ((env.sql.table Manifest).delete_iff _ t.manifests m).1 (mat, kept m mi md), mi, md)
    where
      kept :
          (m : Manifest)
          → m.repo_id ≡ g.repo_id
          → m.digest ≡ g.digest
          → ((m.repo_id == i) && text_eq m.digest d) ≡ false
      kept m mi md = elim (Bool-cases ((m.repo_id == i) && text_eq m.digest d)) [
        | inr miss ↦ miss
        | inl hit ↦
            let (ei, ed) = (key_iff m.repo_id i m.digest d).0 hit in
            let found : ((g.repo_id == i) && text_eq g.digest d) ≡ true =
              (key_iff g.repo_id i g.digest d).1 (sym mi ∙ ei, sym md ∙ ed) in
            let left : ((g.repo_id == i) && text_eq g.digest d) ≡ false = none_left g at in cc
      ]
