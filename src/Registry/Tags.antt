-- ===== src/Registry/Tags.antt =====
-- src/registry.rs: what `put_manifest` and `delete_manifest` do to the tags and the manifests.
use distribution_rs.Prelude.{
  ℕ, Bool, true, false, Option, none, some, List, ◌≡◌, ◌≢◌, refl, sym, ap, ◌∙◌, ◌⊎◌, inl, inr,
  arith, subst, In, Bool-cases, Option-cases, ◌==◌, ◌&&◌,
}
use distribution_rs.Prelude.Text.{Text, text_eq, key_iff}
use distribution_rs.Database.{Manifest, Tag, Tables}
use distribution_rs.Database.Engine.{Upserted}
use distribution_rs.Registry.{Env}
use distribution_rs.Registry.Manifests.{is_manifest, same_manifest, is_tag, same_tag, points_to}
pub mod Rows
pub mod Statements
pub mod Whole

-- The repository has a manifest row for the digest.
unfoldable pub HasManifest : ℕ → Text → Tables → Type 0
HasManifest i d t = (m : Manifest) × In m t.manifests × (m.repo_id ≡ i) × (m.digest ≡ d)

-- Every tag points to a manifest of its repository.
unfoldable pub NoDangling : Tables → Type 0
unfolding HasManifest
NoDangling t = (g : Tag) → In g t.tags → HasManifest g.repo_id g.digest t

-- No tag of the repository points to the digest.
unfoldable pub NoTagTo : ℕ → Text → Tables → Type 0
unfolding points_to text_eq
NoTagTo i d t = (g : Tag) → In g t.tags → points_to i d g ≡ false
