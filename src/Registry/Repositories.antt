-- ===== src/Registry/Repositories.antt =====
-- src/registry.rs, `ensure_repository` and `require_repo`.
use distribution_rs.Prelude.{ℕ, Bool, ◌&&◌, Option, none, some, map}
use mathlib.Core.Option
use distribution_rs.Prelude.Text.{text_eq}
use distribution_rs.Error.{RegistryError, oci, detailed, text, name_unknown}
use distribution_rs.Exec.{pure, from_option, ◌>>=◌}
use distribution_rs.Database.{Repository, Tables, Sql, select, execute}
use distribution_rs.Registry.{Env, Reg, on_db}
use distribution_rs.Types.Ids.{TenantId}
use distribution_rs.Types.RepoName.{RepoName}

-- `OciError::name_unknown(name)`
abbrev pub unknown_name : RepoName → RegistryError
unknown_name name = oci (detailed name_unknown (text name.as_str))

-- The filter on tenant and name.
unfoldable pub is_repo : TenantId → RepoName → Repository → Bool
unfolding text_eq
is_repo tenant name r = text_eq r.tenant_id tenant.as_str && text_eq r.name name.as_str

-- The unique index on tenant and name.
unfoldable pub same_repo : Repository → Repository → Bool
unfolding text_eq
same_repo r s = text_eq s.tenant_id r.tenant_id && text_eq s.name r.name

module _ (env : Env) where
  unfoldable pub find_repo : TenantId → RepoName → Tables → Option Repository
  unfolding is_repo
  find_repo tenant name t = (env.sql.table Repository).one (is_repo tenant name) t.repositories

  -- The row with the id that the database gives it.
  unfoldable pub new_repo : TenantId → RepoName → Tables → Repository
  new_repo tenant name t = record {
    id = env.sql.next_id (map (λ (r : Repository). r.id) t.repositories);
    tenant_id = tenant.as_str;
    name = name.as_str;
  }

  -- INSERT … ON CONFLICT (tenant_id, name) DO NOTHING; `some id` if a row was inserted
  unfoldable pub insert_repo : TenantId → RepoName → Sql (Option ℕ)
  unfolding same_repo find_repo new_repo
  insert_repo tenant name =
      execute
        (λ t. record t {
          repositories =
              (env.sql.table Repository).upsert same_repo (λ _ old. old) (new_repo tenant name t)
                t.repositories;
        })
        (λ t. elim (find_repo tenant name t) [
          | some _ ↦ none
          | none ↦ some (new_repo tenant name t).id
        ])

  -- `ensure_repository` behind the insertion: a conflict selects the row that is there.
  unfoldable pub inserted_or_found : TenantId → RepoName → Option ℕ → Reg ℕ
  inserted_or_found tenant name (some id) = pure id
  inserted_or_found tenant name none = do
    row ← on_db (select (find_repo tenant name))
    from_option (Option.map (λ (r : Repository). r.id) row) (unknown_name name)

  -- `ensure_repository` behind the first search
  unfoldable pub found_or_inserted : TenantId → RepoName → Option Repository → Reg ℕ
  found_or_inserted tenant name (some row) = pure row.id
  found_or_inserted tenant name none = do
    inserted ← on_db (insert_repo tenant name)
    inserted_or_found tenant name inserted

  unfoldable pub ensure_repository : TenantId → RepoName → Reg ℕ
  ensure_repository tenant name = do
    row ← on_db (select (find_repo tenant name))
    found_or_inserted tenant name row

  unfoldable pub require_repo : TenantId → RepoName → Reg ℕ
  require_repo tenant name = do
    row ← on_db (select (find_repo tenant name))
    from_option (Option.map (λ (r : Repository). r.id) row) (unknown_name name)
