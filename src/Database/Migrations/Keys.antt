-- ===== src/Database/Migrations/Keys.antt =====
-- The conflict keys of the upserts in src/registry.rs are keys of the tables in src/migration.
use distribution_rs.Prelude.{
  ℕ, Bool, true, ◌&&◌, Option, none, some, List, [], ◌∷◌, ◌≡◌, ◌↔◌, sym, ap, arith, ◌==◌, ==_iff,
}
use distribution_rs.Prelude.Text.{Text, text_eq, text_eq_iff}
use distribution_rs.Database.{Repository, RepoBlobLink, Manifest, Tag, Referrer}
use distribution_rs.Database.Migrations.{
  repositories_index, repo_blob_links_table, manifests_table, tags_table, referrers_table,
}
use distribution_rs.Database.Schema.{
  Column, id, tenant_id, name, repo_id, digest, size, media_type, updated_at, last_pulled_at,
  pull_count, subject_digest, referrer_digest, artifact_type, annotations, key_of,
}
use distribution_rs.Registry.Blobs.{same_link}
use distribution_rs.Registry.Manifests.{same_manifest, same_tag, same_referrer}
use distribution_rs.Registry.Repositories.{same_repo}

-- What stands in a column; `absent` where the table has no such column.
pub data Value : Type 0 where
  absent null : Value
  number : ℕ → Value
  chars : Text → Value

abbrev pub maybe : Option Text → Value
maybe none = null
maybe (some s) = chars s

abbrev pub repository_value : Column → Repository → Value
repository_value id r = number r.id
repository_value tenant_id r = chars r.tenant_id
repository_value name r = chars r.name
repository_value _ r = absent

abbrev pub link_value : Column → RepoBlobLink → Value
link_value repo_id l = number l.repo_id
link_value digest l = chars l.digest
link_value size l = number l.size
link_value _ l = absent

abbrev pub manifest_value : Column → Manifest → Value
manifest_value repo_id m = number m.repo_id
manifest_value digest m = chars m.digest
manifest_value media_type m = chars m.media_type
manifest_value size m = number m.size
manifest_value _ m = absent

abbrev pub tag_value : Column → Tag → Value
tag_value repo_id t = number t.repo_id
tag_value name t = chars t.name
tag_value digest t = chars t.digest
tag_value updated_at t = chars t.updated_at
tag_value last_pulled_at t = maybe t.last_pulled_at
tag_value pull_count t = number t.pull_count
tag_value _ t = absent

abbrev pub referrer_value : Column → Referrer → Value
referrer_value repo_id r = number r.repo_id
referrer_value subject_digest r = chars r.subject_digest
referrer_value referrer_digest r = chars r.referrer_digest
referrer_value artifact_type r = maybe r.artifact_type
referrer_value media_type r = chars r.media_type
referrer_value size r = number r.size
referrer_value annotations r = maybe r.annotations
referrer_value _ r = absent

-- Two rows have the same values in the columns.
abbrev pub Agree : {Row : Type 0} → (Column → Row → Value) → List Column → Row → Row → Type 0
Agree value [] a b = Unit
Agree value (c ∷ cs) a b = (value c a ≡ value c b) × Agree value cs a b

number-injective : {m n : ℕ} → number m ≡ number n → m ≡ n
number-injective h = cc

chars-injective : {s t : Text} → chars s ≡ chars t → s ≡ t
chars-injective h = cc

number_agrees : (i j : ℕ) → ((j == i) ≡ true) ↔ (number i ≡ number j)
number_agrees i j =
    (λ h. ap number (sym ((==_iff j i).0 h)), λ h. (==_iff j i).1 (sym (number-injective h)))

text_agrees : (s t : Text) → (text_eq t s ≡ true) ↔ (chars s ≡ chars t)
text_agrees s t = (
  λ h. ap chars (sym ((text_eq_iff t s).0 h)),
  λ h. (text_eq_iff t s).1 (sym (chars-injective h)),
)

both_iff : (a b : Bool) → ((a && b) ≡ true) ↔ ((a ≡ true) × (b ≡ true))
both_iff a b = ground arith

-- A test of one more column, and the last one.
further :
    {a b : Bool} {P Q : Type 0} → ((a ≡ true) ↔ P) → ((b ≡ true) ↔ Q) → ((a && b) ≡ true) ↔ (P × Q)
further {a} {b} f g = (
  λ h. let (x, y) = (both_iff a b).0 h in (f.0 x, g.0 y),
  λ (p, q). (both_iff a b).1 (f.1 p, g.1 q),
)

ending : {a : Bool} {P : Type 0} → ((a ≡ true) ↔ P) → (a ≡ true) ↔ (P × Unit {0})
ending f = (λ h. (f.0 h, tt), λ (p, _). f.1 p)

nested_iff : (a b c : Bool) → ((a && b && c) ≡ true) ↔ ((a && (b && c)) ≡ true)
nested_iff a b c = ground arith

nested : (a b c : Bool) {P : Type 0} → (((a && (b && c)) ≡ true) ↔ P) → ((a && b && c) ≡ true) ↔ P
nested a b c f = (λ h. f.0 ((nested_iff a b c).0 h), λ p. (nested_iff a b c).1 (f.1 p))

-- Each upsert takes for the old row of the new one just that which agrees with it in a unique key of
-- the table: the primary keys of links, manifests, tags and referrers, and the unique index of the
-- repositories.
pub upserts-Agree :
    ((a b : RepoBlobLink)
      → (same_link a b ≡ true) ↔ Agree link_value (key_of repo_blob_links_table) a b)
    × ((a b : Manifest)
        → (same_manifest a b ≡ true) ↔ Agree manifest_value (key_of manifests_table) a b)
    × ((a b : Tag) → (same_tag a b ≡ true) ↔ Agree tag_value (key_of tags_table) a b)
    × ((a b : Referrer)
        → (same_referrer a b ≡ true) ↔ Agree referrer_value (key_of referrers_table) a b)
    × ((a b : Repository)
        → (same_repo a b ≡ true) ↔ Agree repository_value repositories_index.index_columns a b)
unfolding same_link same_manifest same_tag same_referrer same_repo
upserts-Agree = (
  λ a b. further (number_agrees a.repo_id b.repo_id) (ending (text_agrees a.digest b.digest)),
  λ a b. further (number_agrees a.repo_id b.repo_id) (ending (text_agrees a.digest b.digest)),
  λ a b. further (number_agrees a.repo_id b.repo_id) (ending (text_agrees a.name b.name)),
  λ a b.
      nested (b.repo_id == a.repo_id) (text_eq b.subject_digest a.subject_digest)
        (text_eq b.referrer_digest a.referrer_digest)
        (further (number_agrees a.repo_id b.repo_id) (
          further (text_agrees a.subject_digest b.subject_digest)
            (ending (text_agrees a.referrer_digest b.referrer_digest)))),
  λ a b. further (text_agrees a.tenant_id b.tenant_id) (ending (text_agrees a.name b.name)),
)
