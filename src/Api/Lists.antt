-- ===== src/Api/Lists.antt =====
-- src/api/tag.rs, src/api/catalog.rs and src/api/referrer.rs: the handlers of the lists. Headers and
-- bodies are the fields of the answers.
pub mod Follow
pub mod Rows
pub mod Complete
use mathlib.Core.Option
use distribution_rs.Prelude.{
  ℕ, Bool, true, false, Option, none, some, List, if◌then◌else◌, map, last,
}
use distribution_rs.Prelude.Text.{Text}
use distribution_rs.Database.{Referrer}
use distribution_rs.Exec.{pure, ◌>>=◌}
use distribution_rs.Registry.{Env, Reg, Json}
use distribution_rs.Registry.Lists
use distribution_rs.Registry.Lists.{limit_of}
use distribution_rs.Types.Digest.{Digest}
use distribution_rs.Types.Ids.{TenantId}
use distribution_rs.Types.RepoName.{RepoName}

-- The names of the body, and `n` and `last` of the header `Link` to the next page.
pub record Page : Type 0 where
  pub names : List Text
  pub link : Option (ℕ × Text)

-- `TagListResponse`
pub record TagList : Type 0 where
  pub name : RepoName
  pub page : Page

-- There is a link where there is more, and the page is not empty.
unfoldable pub next_link : Option ℕ → List Text → Bool → Option (ℕ × Text)
next_link n names has_more =
    if has_more then Option.map (λ l. (limit_of n, l)) (last names) else none

unfoldable pub page : Option ℕ → List Text × Bool → Page
unfolding next_link
page n (names, has_more) = record { names = names; link = next_link n names has_more }

-- `ReferrerDescriptor`
pub record ReferrerDescriptor (json : Json) : Type 0 where
  pub media_type : Text
  pub digest : Text
  pub size : ℕ
  pub artifact_type : Option Text
  pub annotations : Option json.Value

-- `ReferrersResponse`, and whether there is the header `OCI-Filters-Applied`.
pub record ReferrersAnswer (json : Json) : Type 0 where
  pub manifests : List (ReferrerDescriptor json)
  pub filters_applied : Bool

module _ (env : Env) where
  -- Annotations that are no JSON are dropped.
  unfoldable pub descriptor : Referrer → ReferrerDescriptor env.json
  descriptor r = record {
    media_type = r.media_type;
    digest = r.referrer_digest;
    size = r.size;
    artifact_type = r.artifact_type;
    annotations = Option.bind r.annotations env.json.from_str;
  }

  module _ (tenant : TenantId) where
    unfoldable pub list_tags : RepoName → Option ℕ → Option Text → Reg TagList
    unfolding page
    list_tags name n last = do
      listed ← Lists.list_tags env tenant name n last
      pure (record { name = name; page = page n listed })

    unfoldable pub list_repositories : Option ℕ → Option Text → Reg Page
    unfolding page
    list_repositories n last = do
      listed ← Lists.list_repositories env tenant n last
      pure (page n listed)

    unfoldable pub get_referrers : RepoName → Digest → Option Text → Reg (ReferrersAnswer env.json)
    unfolding descriptor
    get_referrers name digest artifact_type = do
      rows ← Lists.list_referrers env tenant name digest artifact_type
      pure (record {
        manifests = map descriptor rows;
        filters_applied = elim artifact_type [ none ↦ false | some _ ↦ true ];
      })
