-- ===== src/Registry/Calls/ListCalls.antt =====
-- The induction over the lists, which only read.
use distribution_rs.Prelude.{ℕ, Option, Result, ok, err}
use distribution_rs.Prelude.Text.{Text}
use distribution_rs.Database.{Tables}
use distribution_rs.Error.{RegistryError}
use distribution_rs.Exec.Keeps.{Keeps, Keeps-bind}
use distribution_rs.Registry.{Env}
use distribution_rs.Registry.Calls.Closed.{Closed, base_rules, Keeps-require_repo}
use distribution_rs.Registry.Lists
use distribution_rs.Registry.Rules.{InDb}
use distribution_rs.Types.Digest.{Digest}
use distribution_rs.Types.Ids.{TenantId}
use distribution_rs.Types.RepoName.{RepoName}

module _ (env : Env) (P : Tables → Type 0) (c : Closed env P) where
  pub Keeps-list_tags :
      (t : TenantId) (n : RepoName) (k : Option ℕ) (l : Option Text)
      → Keeps (InDb P) (Lists.list_tags env t n k l)
  unfolding Lists.list_tags
  Keeps-list_tags t n k l = Keeps-bind _ _ (Keeps-require_repo env P c t n) λ i. search base_rules

  Keeps-referrers_in :
      (d : Text) (a : Option Text) (r : Result RegistryError ℕ)
      → Keeps (InDb P) (Lists.referrers_in env d a r)
  unfolding Lists.referrers_in
  Keeps-referrers_in d a (ok i) = search base_rules
  Keeps-referrers_in d a (err e) = search base_rules

  pub Keeps-list_referrers :
      (t : TenantId) (n : RepoName) (d : Digest) (a : Option Text)
      → Keeps (InDb P) (Lists.list_referrers env t n d a)
  unfolding Lists.list_referrers
  Keeps-list_referrers t n d a = search (base_rules, Keeps-require_repo, Keeps-referrers_in)

module _ (env : Env) (P : Tables → Type 0) where
  pub Keeps-list_repositories :
      (t : TenantId) (k : Option ℕ) (l : Option Text)
      → Keeps (InDb P) (Lists.list_repositories env t k l)
  unfolding Lists.list_repositories
  Keeps-list_repositories t k l = search base_rules
