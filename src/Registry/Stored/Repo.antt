-- ===== src/Registry/Stored/Repo.antt =====
-- src/registry.rs: `ensure_repository` returns the id of a repository that is there.
use mathlib.Core.Option
use distribution_rs.Prelude.{ℕ, Option, none, some, ◌≡◌, refl, sym, ap, ◌∙◌, subst, some-injective}
use distribution_rs.Exec.Ensures.{Ensures, Ensures-bind, Ensures-pure, Ensures-from_option}
use distribution_rs.Database.{Tables, Repository, select}
use distribution_rs.Database.Rules.{Ensures-select, Ensures-execute}
use distribution_rs.Registry.{Env, World, on_db}
use distribution_rs.Registry.Lookups.{HasRepo}
use distribution_rs.Registry.Repositories.{find_repo, same_repo, new_repo}
use distribution_rs.Registry.Repositories
use distribution_rs.Registry.Rules.{Both, Ensures-Both-on_db}
use distribution_rs.Registry.Stored.{HasRepo-inserted}
use distribution_rs.Storage.Files.{Fs}
use distribution_rs.Types.Ids.{TenantId}
use distribution_rs.Types.RepoName.{RepoName}

module _ (env : Env) (tenant : TenantId) (name : RepoName) where
  -- The repository is there under the id.
  abbrev pub Repo : ℕ → Tables → Type 0
  Repo i t = HasRepo env tenant name t i

  found_id :
      (t : Tables) (o : Option Repository) (i : ℕ)
      → find_repo env tenant name t ≡ o
      → Option.map (λ (r : Repository). r.id) o ≡ some i
      → Repo i t
  found_id t (some r) i e h = (r, e, some-injective h)
  found_id t none i e h = cc

  module _ (Q : Fs → Type 0) where
    -- The row that a search returns.
    abbrev Seen : Option Repository → World → Type 0
    Seen row = Both (λ t. find_repo env tenant name t ≡ row) Q

    Ensures-look :
        (P : Tables → Type 0) → Ensures (Both P Q) (on_db (select (find_repo env tenant name))) Seen
    Ensures-look P = Ensures-Both-on_db (Ensures-select _ λ t h. refl)

    Ensures-inserted_or_found :
        (o : Option ℕ)
        → Ensures
            (Both (λ t. (i : ℕ) → o ≡ some i → Repo i t) Q)
            (Repositories.inserted_or_found env tenant name o)
            (λ i. Both (Repo i) Q)
    unfolding Repositories.inserted_or_found
    Ensures-inserted_or_found (some i) = Ensures-pure i λ w h. record {
      tables_kept = record { tables_at = h.tables_kept.tables_at i refl };
      files_kept = h.files_kept;
    }
    Ensures-inserted_or_found none = Ensures-bind (Ensures-look _) λ row.
        Ensures-from_option _ _ λ i e w h. record {
          tables_kept = record { tables_at = found_id w.db.tables row i h.tables_kept.tables_at e };
          files_kept = h.files_kept;
        }

    abbrev reported : Tables → Option Repository → Option ℕ
    reported t o = elim o [ some _ ↦ none | none ↦ some (new_repo env tenant name t).id ]

    abbrev with_repo : Tables → Tables
    with_repo t = record t {
      repositories =
          (env.sql.table Repository).upsert same_repo (λ _ old. old) (new_repo env tenant name t)
            t.repositories;
    }

    inserted :
        (t : Tables) (i : ℕ)
        → find_repo env tenant name t ≡ none
        → reported t (find_repo env tenant name t) ≡ some i
        → Repo i (with_repo t)
    inserted t i e h =
        subst (λ k. Repo k (with_repo t)) (some-injective (ap (reported t) (sym e) ∙ h))
          (HasRepo-inserted env tenant name t e)

    Ensures-insert_repo :
        Ensures
          (Seen none)
          (on_db (Repositories.insert_repo env tenant name))
          (λ o. Both (λ t. (i : ℕ) → o ≡ some i → Repo i t) Q)
    unfolding Repositories.insert_repo
    Ensures-insert_repo = Ensures-Both-on_db (Ensures-execute _ _ λ t h i e. inserted t i h e)

    Ensures-found_or_inserted :
        (row : Option Repository)
        → Ensures
            (Seen row)
            (Repositories.found_or_inserted env tenant name row)
            (λ i. Both (Repo i) Q)
    unfolding Repositories.found_or_inserted
    Ensures-found_or_inserted (some r) = Ensures-pure r.id λ w h. record {
      tables_kept = record { tables_at = (r, h.tables_kept.tables_at, refl) };
      files_kept = h.files_kept;
    }
    Ensures-found_or_inserted none = Ensures-bind Ensures-insert_repo Ensures-inserted_or_found

    -- The repository is there under the id that is returned.
    pub Ensures-ensure_repository :
        (P : Tables → Type 0)
        → Ensures (Both P Q) (Repositories.ensure_repository env tenant name) (λ i. Both (Repo i) Q)
    unfolding Repositories.ensure_repository
    Ensures-ensure_repository P = Ensures-bind (Ensures-look P) Ensures-found_or_inserted
