-- ===== src/Tests/Lists.antt =====
-- The theorems on the lists at a concrete world.
use distribution_rs.Prelude.{
  ℕ, some, none, List, [], ◌∷◌, ◌≡◌, ◌<◌, ◌==◌, ◌↔◌, refl, arith, ok, In, there, length, map,
  filter_by, NoDup, Ascending, distinct_nil, distinct_cons,
}
use distribution_rs.Prelude.Text.{Text, codes, text_eq}
use distribution_rs.Api.Lists.Complete.{
  at_rest, tag_pages, follow-list_tags, catalog_pages, follow-list_repositories, tag_name,
  repository_name, is_of_tenant,
}
use distribution_rs.Api.Lists.Follow.{follow}
use distribution_rs.Api.Lists.Rows.{Named}
use distribution_rs.Database.{Tag, Tables}
use distribution_rs.Registry.Code.{registry_code}
use distribution_rs.Tests.Data.{no_tables, no_files, alpine}
use distribution_rs.Tests.ListEngine.{env}
use distribution_rs.Tests.ListEngine.Sort.{text_before}
use distribution_rs.Types.Ids.{default_tenant}

abbrev tag_row : Text → Tag
tag_row name = record {
  repo_id = 1;
  name = name;
  digest = codes "sha256:aa";
  updated_at = codes "t";
  last_pulled_at = none;
  pull_count = 0;
}

-- Two repositories, and two tags of the first.
abbrev listed : Tables
listed = record no_tables {
  repositories =
      record { id = 1; tenant_id = codes "_default"; name = codes "library/alpine" }
      ∷ record { id = 2; tenant_id = codes "_default"; name = codes "app" }
      ∷ [];
  tags = tag_row (codes "b") ∷ tag_row (codes "a") ∷ [];
}

two_pages :
    follow (tag_pages env default_tenant alpine) 2 (some 1) none (at_rest listed no_files)
    ≡ (ok (some (codes "a" ∷ codes "b" ∷ [])), at_rest listed no_files)
unfolding registry_code follow distribution_rs.Api.Lists.list_tags
two_pages = refl

listed_tags : NoDup (map tag_name (filter_by (λ (g : Tag). g.repo_id == 1) listed.tags))
listed_tags = distinct_cons (λ at. other at) (distinct_cons (λ at. elim at [ ]) distinct_nil)
  where
    other : ¬ In (codes "b") (codes "a" ∷ [])
    other (there at) = elim at [ ]

listed_repositories :
    NoDup (map repository_name (filter_by (is_of_tenant default_tenant) listed.repositories))
unfolding text_eq
listed_repositories =
    distinct_cons (λ at. other at) (distinct_cons (λ at. elim at [ ]) distinct_nil)
  where
    other : ¬ In (codes "library/alpine") (codes "app" ∷ [])
    other (there at) = elim at [ ]

follow-list_tags_example :
    (names : List Text) × Ascending text_before names
    × ((s : Text) → In s names ↔ Named env tag_name (λ g. g.repo_id == 1) listed.tags s)
    × ((fuel : ℕ)
        → length names < fuel
        → follow (tag_pages env default_tenant alpine) fuel (some 1) none (at_rest listed no_files)
          ≡ (ok (some names), at_rest listed no_files))
unfolding registry_code
follow-list_tags_example =
    follow-list_tags env default_tenant listed no_files alpine 1 (some 1) (_, refl, refl)
      listed_tags (omega arith) (omega arith)

follow-list_repositories_example :
    (names : List Text) × Ascending text_before names
    × ((s : Text)
        → In s names
          ↔ Named env repository_name (is_of_tenant default_tenant) listed.repositories s)
    × ((fuel : ℕ)
        → length names < fuel
        → follow (catalog_pages env default_tenant) fuel none none (at_rest listed no_files)
          ≡ (ok (some names), at_rest listed no_files))
follow-list_repositories_example =
    follow-list_repositories env default_tenant listed no_files none listed_repositories
      (omega arith) (omega arith)
