-- ===== src/Registry/Lists.antt =====
-- src/registry.rs: `list_tags`, `list_repositories` and `list_referrers`, which read one row more
-- than the page holds.
use distribution_rs.Prelude.{
  ℕ, ◌+◌, ◌%◌, ◌^◌, Bool, true, false, ◌&&◌, Option, none, some, List, [], Result, ok, err, map,
  take, length, ltb, ◌==◌,
}
use distribution_rs.Prelude.Text.{Text, text_eq}
use distribution_rs.Database.{Repository, Tag, Referrer, Tables, select}
use distribution_rs.Error.{RegistryError}
use distribution_rs.Exec.{pure, attempt, ◌>>=◌}
use distribution_rs.Registry.{Env, Reg, on_db}
use distribution_rs.Registry.Repositories.{require_repo}
use distribution_rs.Types.Digest
use distribution_rs.Types.Digest.{Digest}
use distribution_rs.Types.Ids.{TenantId}
use distribution_rs.Types.RepoName.{RepoName}

-- `n.unwrap_or(100)`
abbrev pub limit_of : Option ℕ → ℕ
limit_of none = 100
limit_of (some n) = n

-- `limit + 1`, as a `u64`
abbrev pub one_more : ℕ → ℕ
one_more limit = (limit + 1) % 2 ^ 64

-- The names of a page, and `has_more`.
unfoldable pub page_of : {Row : Type 0} → ℕ → (Row → Text) → List Row → List Text × Bool
page_of limit name rows = (map name (take limit rows), ltb limit (length rows))

abbrev equal_texts : Option Text → Text → Bool
equal_texts none b = false
equal_texts (some a) b = text_eq a b

module _ (env : Env) where
  -- The filter `> last`, where there is a `last`.
  abbrev pub behind : Option Text → Text → Bool
  behind none s = true
  behind (some last) s = env.sql.before last s

  unfoldable pub is_listed_tag : ℕ → Option Text → Tag → Bool
  is_listed_tag repo_id last g = (g.repo_id == repo_id) && behind last g.name

  unfoldable pub is_listed_repo : TenantId → Option Text → Repository → Bool
  unfolding text_eq
  is_listed_repo tenant last r = text_eq r.tenant_id tenant.as_str && behind last r.name

  -- SELECT … ORDER BY name LIMIT limit + 1
  unfoldable pub tag_rows : ℕ → Option Text → ℕ → Tables → List Tag
  unfolding is_listed_tag
  tag_rows repo_id last limit t =
      take (one_more limit)
        ((env.sql.table Tag).ordered (λ (g : Tag). g.name) (is_listed_tag repo_id last) t.tags)

  unfoldable pub repository_rows : TenantId → Option Text → ℕ → Tables → List Repository
  unfolding is_listed_repo
  repository_rows tenant last limit t = take (one_more limit) (
      (env.sql.table Repository).ordered (λ (r : Repository). r.name) (is_listed_repo tenant last)
        t.repositories)

  unfoldable pub list_tags : TenantId → RepoName → Option ℕ → Option Text → Reg (List Text × Bool)
  unfolding tag_rows page_of
  list_tags tenant name n last = do
    repo_id ← require_repo env tenant name
    rows ← on_db (select (tag_rows repo_id last (limit_of n)))
    pure (page_of (limit_of n) (λ (g : Tag). g.name) rows)

  unfoldable pub list_repositories : TenantId → Option ℕ → Option Text → Reg (List Text × Bool)
  unfolding repository_rows page_of
  list_repositories tenant n last = do
    rows ← on_db (select (repository_rows tenant last (limit_of n)))
    pure (page_of (limit_of n) (λ (r : Repository). r.name) rows)

  -- The filter on the artifact type, where there is one.
  abbrev of_type : Option Text → Referrer → Bool
  of_type none r = true
  of_type (some at) r = equal_texts r.artifact_type at

  unfoldable pub is_listed_referrer : ℕ → Text → Option Text → Referrer → Bool
  unfolding text_eq
  is_listed_referrer repo_id d artifact_type r =
      (r.repo_id == repo_id) && text_eq r.subject_digest d && of_type artifact_type r

  -- Behind the search for the repository, whose errors are dropped.
  unfoldable pub referrers_in :
      Text → Option Text → Result {0, 0} RegistryError ℕ → Reg (List Referrer)
  unfolding is_listed_referrer
  referrers_in d artifact_type (err _) = pure []
  referrers_in d artifact_type (ok repo_id) = on_db (
      select
        λ t. (env.sql.table Referrer).all (is_listed_referrer repo_id d artifact_type) t.referrers)

  unfoldable pub list_referrers : TenantId → RepoName → Digest → Option Text → Reg (List Referrer)
  unfolding Digest.to_string
  list_referrers tenant name digest artifact_type = do
    found ← attempt (require_repo env tenant name)
    referrers_in (Digest.to_string digest) artifact_type found
