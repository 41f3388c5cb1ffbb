-- ===== src/Registry/Pulls.antt =====
-- src/registry.rs: counting a pull changes no table but the statistics of the tags.
use distribution_rs.Prelude.{◌≡◌, refl, sym, ◌∙◌, inl, inr, In, Bool-cases, ℕ, ◌+◌, some, subst}
use distribution_rs.Prelude.Text.{Text}
use distribution_rs.Database.{Tag, Tables}
use distribution_rs.Database.Rules.{OnTables, OnTables-execute}
use distribution_rs.Database.Engine.{Updated}
use distribution_rs.Exec.Keeps.{Keeps}
use distribution_rs.Registry.{Env}
use distribution_rs.Registry.Manifests.{count_pull, points_to}

-- The tag with other pull statistics.
pub record SameTag (g h : Tag) : Type 0 where
  pub repo_id_is : g.repo_id ≡ h.repo_id
  pub name_is : g.name ≡ h.name
  pub digest_is : g.digest ≡ h.digest
  pub updated_at_is : g.updated_at ≡ h.updated_at

-- The tables are the same but for the pull statistics of the tags.
pub record OnlyPulls (before after : Tables) : Type 0 where
  pub repositories_are : after.repositories ≡ before.repositories
  pub links_are : after.links ≡ before.links
  pub manifests_are : after.manifests ≡ before.manifests
  pub uploads_are : after.uploads ≡ before.uploads
  pub referrers_are : after.referrers ≡ before.referrers
  pub gc_jobs_are : after.gc_jobs ≡ before.gc_jobs
  pub tags_stay : (g : Tag) → In g before.tags → (h : Tag) × In h after.tags × SameTag g h
  pub tags_were : (h : Tag) → In h after.tags → (g : Tag) × In g before.tags × SameTag g h

SameTag-refl : (g : Tag) → SameTag g g
SameTag-refl g = record {
  repo_id_is = refl;
  name_is = refl;
  digest_is = refl;
  updated_at_is = refl;
}

pub OnlyPulls-refl : (t : Tables) → OnlyPulls t t
OnlyPulls-refl t = record {
  repositories_are = refl;
  links_are = refl;
  manifests_are = refl;
  uploads_are = refl;
  referrers_are = refl;
  gc_jobs_are = refl;
  tags_stay = λ g at. (g, at, SameTag-refl g);
  tags_were = λ g at. (g, at, SameTag-refl g);
}

SameTag-trans : {g h k : Tag} → SameTag g h → SameTag h k → SameTag g k
SameTag-trans a b = record {
  repo_id_is = a.repo_id_is ∙ b.repo_id_is;
  name_is = a.name_is ∙ b.name_is;
  digest_is = a.digest_is ∙ b.digest_is;
  updated_at_is = a.updated_at_is ∙ b.updated_at_is;
}

module _ (env : Env) (before : Tables) where
  pub OnlyPulls-count_pull :
      (i : ℕ) (d now : Text) → Keeps (OnTables (OnlyPulls before)) (count_pull env i d now)
  unfolding count_pull
  OnlyPulls-count_pull i d now = OnTables-execute _ _ λ t h. record {
    repositories_are = h.repositories_are;
    links_are = h.links_are;
    manifests_are = h.manifests_are;
    uploads_are = h.uploads_are;
    referrers_are = h.referrers_are;
    gc_jobs_are = h.gc_jobs_are;
    tags_stay = λ g at. let (k, at', same) = h.tags_stay g at in counted t g k at' same;
    tags_were = λ k at. was t h k (((env.sql.table Tag).update_iff _ _ t.tags k).0 at);
  }
    where
      counting : Tag → Tag
      counting r = record r { last_pulled_at = some now; pull_count = r.pull_count + 1 }

      same_counting : (r : Tag) → SameTag r (counting r)
      same_counting r = record {
        repo_id_is = refl;
        name_is = refl;
        digest_is = refl;
        updated_at_is = refl;
      }

      counted :
          (t : Tables) (g k : Tag)
          → In k t.tags
          → SameTag g k
          → (h : Tag) × In h ((env.sql.table Tag).update (points_to i d) counting t.tags)
            × SameTag g h
      counted t g k at same = elim (Bool-cases (points_to i d k)) [
        | inl hit ↦ (
          counting k,
          ((env.sql.table Tag).update_iff _ _ t.tags _).1 (inr (k, at, hit, refl)),
          SameTag-trans same (same_counting k),
        )
        | inr miss ↦ (k, ((env.sql.table Tag).update_iff _ _ t.tags _).1 (inl (at, miss)), same)
      ]

      was :
          (t : Tables)
          → OnlyPulls before t
          → (k : Tag) → Updated (points_to i d) counting t.tags k
          → (g : Tag) × In g before.tags × SameTag g k
      was t h k (inl (at, _)) = h.tags_were k at
      was t h k (inr (s, at, _, e)) =
          let (g, at', same) = h.tags_were s at in
          (g, at', subst (λ x. SameTag g x) (sym e) (SameTag-trans same (same_counting s)))
