-- ===== src/Registry/Stored.antt =====
-- src/registry.rs: what `put_manifest` by a tag leaves in the tables.
pub mod Bytes
pub mod Repo
pub mod Put
pub mod Get
use distribution_rs.Prelude.{
  ℕ, Bool, true, false, ◌&&◌, Option, none, some, List, ◌≡◌, refl, sym, ap, subst, ◌∙◌, ◌⊎◌, inl,
  inr, In, Option-cases, ◌==◌,
}
use distribution_rs.Prelude.Text.{Text, text_eq, key_iff, text_eq_refl}
use distribution_rs.Database.{Tables, Manifest, Tag, Repository}
use distribution_rs.Database.Engine.{TableOps}
use distribution_rs.Registry.{Env}
use distribution_rs.Registry.Lookups.{HasRepo}
use distribution_rs.Registry.Manifests.{
  find_tag, find_manifest, is_tag, same_tag, is_manifest, same_manifest,
}
use distribution_rs.Registry.Repositories.{find_repo, is_repo, same_repo, new_repo}
use distribution_rs.Types.Ids.{TenantId}
use distribution_rs.Types.RepoName.{RepoName}

-- A search by the key of an upsert finds the new row, or the old one changed.
pub upserted-found :
    {Row : Type 0} (T : TableOps Row) (same : Row → Row → Bool) (set : Row → Row → Row) (new : Row)
    (t : List Row) (R : Row → Type 0)
    → same new new ≡ true
    → ((s : Row) → same new s ≡ true → same new (set new s) ≡ true)
    → (((s : Row) → In s t → same new s ≡ false) → R new)
    → ((s : Row) → In s t → same new s ≡ true → R (set new s))
    → (r : Row) × (T.one (same new) (T.upsert same set new t) ≡ some r) × R r
upserted-found {Row} T same set new t R reflexive stays fresh changed =
    elim (Option-cases (T.one (same new) (T.upsert same set new t))) [
      | inl missing ↦ elim (absent missing) [ ]
      | inr (r, e) ↦
          let (at, hit) = T.one_sound (same new) _ r e in
          (r, e, right r hit ((T.upsert_iff same set new t r).0 at))
    ]
  where
    absent : T.one (same new) (T.upsert same set new t) ≡ none → ⊥
    absent missing = elim (Option-cases (T.one (same new) t)) [
      | inl none_old ↦
          let miss : same new new ≡ false = T.one_complete (same new) _ missing new (
            (T.upsert_iff same set new t new).1
              (inr (inr (T.one_complete (same new) t none_old, refl)))) in
          cc
      | inr (s, e) ↦
          let (at, hit) = T.one_sound (same new) t s e in
          let miss : same new (set new s) ≡ false =
            T.one_complete (same new) _ missing (set new s)
              ((T.upsert_iff same set new t (set new s)).1 (inr (inl (s, at, hit, refl)))) in
          let kept : same new (set new s) ≡ true = stays s hit in cc
    ]

    right :
        (r : Row)
        → same new r ≡ true
        → (In r t × (same new r ≡ false))
          ⊎ ((s : Row) × In s t × (same new s ≡ true) × (r ≡ set new s))
          ⊎ (((s : Row) → In s t → same new s ≡ false) × (r ≡ new))
        → R r
    right r hit (inl (_, miss)) = cc
    right r hit (inr (inl (s, at, old, e))) = subst R (sym e) (changed s at old)
    right r hit (inr (inr (none_old, e))) = subst R (sym e) (fresh none_old)

module _ (env : Env) where
  -- The tag of the repository points to the digest.
  abbrev pub TagIs : ℕ → Text → Text → Tables → Type 0
  TagIs i g d t = (x : Tag) × (find_tag env i g t ≡ some x) × (x.digest ≡ d)

  -- The manifest is there with the media type.
  abbrev pub ManifestIs : ℕ → Text → Text → Tables → Type 0
  ManifestIs i d m t = (x : Manifest) × (find_manifest env i d t ≡ some x) × (x.media_type ≡ m)

  same_key : (i : ℕ) (s : Text) → ((i == i) && text_eq s s) ≡ true
  same_key i s = (key_iff i i s s).1 (refl, refl)

  pub ManifestIs-upserted :
      (m : Manifest) (t : Tables)
      → ManifestIs m.repo_id m.digest m.media_type (record t {
        manifests =
            (env.sql.table Manifest).upsert same_manifest
              (λ new old. record old { media_type = new.media_type; size = new.size })
              m
              t.manifests;
      })
  unfolding find_manifest is_manifest same_manifest
  ManifestIs-upserted m t =
      upserted-found (env.sql.table Manifest) same_manifest
        (λ new old. record old { media_type = new.media_type; size = new.size }) m t.manifests
        (λ x. x.media_type ≡ m.media_type) (same_key m.repo_id m.digest) (λ s h. h) (λ _. refl)
        (λ s at h. refl)

  pub TagIs-upserted :
      (r : Tag) (t : Tables)
      → TagIs r.repo_id r.name r.digest (record t {
        tags =
            (env.sql.table Tag).upsert same_tag
              (λ new old. record old { digest = new.digest; updated_at = new.updated_at })
              r
              t.tags;
      })
  unfolding find_tag is_tag same_tag
  TagIs-upserted r t =
      upserted-found (env.sql.table Tag) same_tag
        (λ new old. record old { digest = new.digest; updated_at = new.updated_at }) r t.tags
        (λ x. x.digest ≡ r.digest) (same_key r.repo_id r.name) (λ s h. h) (λ _. refl)
        (λ s at h. refl)

  same_names : (s u : Text) → (text_eq s s && text_eq u u) ≡ true
  same_names s u = rw (text_eq_refl s, text_eq_refl u)

  pub HasRepo-inserted :
      (tenant : TenantId) (name : RepoName) (t : Tables)
      → find_repo env tenant name t ≡ none
      → HasRepo env tenant name
          (record t {
            repositories =
                (env.sql.table Repository).upsert same_repo
                  (λ _ old. old)
                  (new_repo env tenant name t)
                  t.repositories;
          })
          (new_repo env tenant name t).id
  unfolding find_repo is_repo same_repo new_repo
  HasRepo-inserted tenant name t missing =
      upserted-found (env.sql.table Repository) same_repo (λ _ old. old)
        (new_repo env tenant name t) t.repositories (λ x. x.id ≡ (new_repo env tenant name t).id)
        (same_names tenant.as_str name.as_str) (λ s h. h) (λ _. refl)
        (λ s at h.
          let miss : same_repo (new_repo env tenant name t) s ≡ false =
            (env.sql.table Repository).one_complete _ t.repositories missing s at in
          cc)
