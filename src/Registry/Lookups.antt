-- ===== src/Registry/Lookups.antt =====
-- src/registry.rs: what the look-ups of the operations return, from known tables.
use distribution_rs.Prelude.{ℕ, Option, none, some, ◌≡◌, refl, sym, ap, ◌∙◌, ◌==◌, ==_iff}
use mathlib.Core.Option
use distribution_rs.Exec.{from_option}
use distribution_rs.Exec.Ensures.{
  Ensures, Ensures-bind, Ensures-if, Ensures-pure, Ensures-raise, Ensures-from_option,
}
use distribution_rs.Database.{Tables, Repository, UploadSession, select}
use distribution_rs.Database.Rules.{Ensures-select}
use distribution_rs.Registry.{World, Env, on_db}
use distribution_rs.Registry.Repositories.{find_repo, require_repo}
use distribution_rs.Registry.Rules.{InDb, Ensures-on_db}
use distribution_rs.Registry.Uploads.{find_session, require_upload, text_of, unknown_upload}
use distribution_rs.Types.Ids.{TenantId, UploadId}
use distribution_rs.Types.RepoName.{RepoName}

-- The tables are `t`.
abbrev pub Exactly : Tables → World → Type 0
Exactly t = InDb (λ x. x ≡ t)

-- A query that leaves the tables `t` returns what it reads there.
pub Ensures-query :
    {A : Type 0} (f : Tables → A) (t : Tables)
    → Ensures (Exactly t) (on_db (select f)) (λ a. InDb (λ x. (x ≡ t) × (a ≡ f t)))
Ensures-query f t = Ensures-on_db (Ensures-select f λ x h. (h, ap f h))

module _ (env : Env) (tenant : TenantId) (name : RepoName) (t : Tables) where
  -- The tables `t` have the repository under the id.
  abbrev pub HasRepo : ℕ → Type 0
  HasRepo i = (r : Repository) × (find_repo env tenant name t ≡ some r) × (r.id ≡ i)

  mapped_id :
      (o : Option Repository) (i : ℕ)
      → Option.map (λ (r : Repository). r.id) o ≡ some i
      → (r : Repository) × (o ≡ some r) × (r.id ≡ i)
  mapped_id none i e = cc
  mapped_id (some r) i e = (r, refl, cc)

  pub Ensures-require_repo :
      Ensures (Exactly t) (require_repo env tenant name) (λ i. InDb (λ x. (x ≡ t) × HasRepo i))
  unfolding require_repo
  Ensures-require_repo = Ensures-bind (Ensures-query _ t) λ row. Ensures-from_option _ _ λ i e w h.
      let (r, found, same) = mapped_id row i e in
      record { db_at = (h.db_at.0, (r, sym h.db_at.1 ∙ found, same)) }

  -- A session that is found belongs to the repository.
  pub Ensures-require_upload :
      (id : UploadId)
      → Ensures (Exactly t) (require_upload env tenant name id) λ s.
        InDb (λ x. (x ≡ t) × (find_session env (text_of env id) t ≡ some s) × HasRepo s.repo_id)
  unfolding require_upload
  Ensures-require_upload id = Ensures-bind Ensures-require_repo λ i.
      Ensures-bind (looked_up i) λ row. Ensures-bind (present i row) λ s.
        Ensures-if (s.repo_id == i)
          (λ same. Ensures-pure s λ w h.
            let (e, found, (r, at, own)) = h.db_at in
            record { db_at = (e, found, (r, at, own ∙ sym ((==_iff _ _).0 same))) })
          (λ _. Ensures-raise _)
    where
      looked_up :
          (i : ℕ)
          → Ensures
              (InDb (λ x. (x ≡ t) × HasRepo i))
              (on_db (select (find_session env (text_of env id))))
              (λ row. InDb (λ x. (x ≡ t) × (row ≡ find_session env (text_of env id) t) × HasRepo i))
      looked_up i =
          Ensures-on_db
            (Ensures-select _ λ x (h, has). (h, ap (find_session env (text_of env id)) h, has))

      present :
          (i : ℕ) (row : Option UploadSession)
          → Ensures
              (InDb (λ x. (x ≡ t) × (row ≡ find_session env (text_of env id) t) × HasRepo i))
              (from_option row (unknown_upload))
              (λ s.
                InDb (λ x. (x ≡ t) × (find_session env (text_of env id) t ≡ some s) × HasRepo i))
      present i row = Ensures-from_option row _ λ s e w h.
          let (same, found, has) = h.db_at in record { db_at = (same, sym found ∙ e, has) }
