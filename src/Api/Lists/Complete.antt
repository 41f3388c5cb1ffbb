-- ===== src/Api/Lists/Complete.antt =====
-- The pages of the tags and of the catalog, one after the other, are the whole list.
use mathlib.Core.Option
use distribution_rs.Prelude.{
  ℕ, zero, suc, ◌+◌, ◌≤◌, ◌<◌, ◌^◌, Bool, ◌&&◌, Option, none, some, List, [], ◌≡◌, refl, sym, ap,
  ◌∙◌, subst, ◌↔◌, arith, ok, In, length, map, filter_by, NoDup, Ascending, ◌==◌,
}
use distribution_rs.Prelude.Text.{Text, text_eq}
use distribution_rs.Database.{Tables, Tag, Repository, select}
use distribution_rs.Exec.{pure, from_option, ◌>>=◌, bind-ok}
use distribution_rs.Api.Lists.{Page, TagList, page, list_tags, list_repositories}
use distribution_rs.Api.Lists.Follow.{follow, first_page, Rest, Serves, follow-Rest}
use distribution_rs.Registry.{World, Reg, Env, on_db}
use distribution_rs.Registry.Lists
use distribution_rs.Registry.Lists.{limit_of, one_more, behind, page_of, tag_rows, repository_rows}
use distribution_rs.Registry.Lookups.{HasRepo}
use distribution_rs.Registry.Repositories.{require_repo, unknown_name}
use distribution_rs.Storage.Files.{Fs}
use distribution_rs.Types.Ids.{TenantId}
use distribution_rs.Types.RepoName.{RepoName}
use distribution_rs.Api.Lists.Rows.{page-first_page, Named, names_behind, Rest-names_behind}

none_at_least : 1 ≤ 0 → ⊥
none_at_least h = omega arith

-- The client gets all names, where it is served.
module _ (env : Env) {All : Text → Type 0} {get : Option ℕ → Option Text → Reg Page} (w : World)
    (n : Option ℕ) where
  all-followed :
      1 ≤ limit_of n
      → Serves env.sql.before All (limit_of n) w get
      → (names : List Text) × Ascending env.sql.before names
        × ((s : Text) → In s names ↔ All s)
        × ((fuel : ℕ) → length names < fuel → follow get fuel n none w ≡ (ok (some names), w))
  all-followed some_ served =
      let (names, h, _) = served.serve n none refl in
      (
        names,
        h.ascending,
        (λ s. (λ at. ((h.member s).0 at).0, λ all. (h.member s).1 (all, tt))),
        λ fuel few. go (limit_of n) some_ refl served names h fuel few,
      )
    where
      go :
          (m : ℕ)
          → 1 ≤ m
          → limit_of n ≡ m
          → Serves env.sql.before All m w get
          → (names : List Text) → Rest env.sql.before All none names
          → (fuel : ℕ) → length names < fuel
          → follow get fuel n none w ≡ (ok (some names), w)
      go zero h _ _ _ _ _ _ = elim (none_at_least h) [ ]
      go (suc m) _ lim served names h fuel few =
          follow-Rest env.sql.before env.sql.before-Strict m w served fuel n none names lim h few

abbrev pub repository_name : Repository → Text
repository_name r = r.name

abbrev pub tag_name : Tag → Text
tag_name g = g.name

abbrev pub is_of_tenant : TenantId → Repository → Bool
is_of_tenant tenant r = text_eq r.tenant_id tenant.as_str

module _ (env : Env) (tenant : TenantId) where
  -- The pages of the tags.
  abbrev pub tag_pages : RepoName → Option ℕ → Option Text → Reg Page
  tag_pages name n last = do answer ← list_tags env tenant name n last; pure answer.page

  -- The pages of the catalog.
  abbrev pub catalog_pages : Option ℕ → Option Text → Reg Page
  catalog_pages = list_repositories env tenant

-- A world where no statement fails.
abbrev pub at_rest : Tables → Fs → World
at_rest t fs = record { db = record { tables = t; faults = [] }; fs = fs }

module _ (env : Env) (tenant : TenantId) (t : Tables) (fs : Fs) where
  on_db-select :
      {A : Type 0} (f : Tables → A) → on_db (select f) (at_rest t fs) ≡ (ok (f t), at_rest t fs)
  unfolding on_db select
  on_db-select f = refl

  require_repo-found :
      (name : RepoName) (i : ℕ)
      → HasRepo env tenant name t i
      → require_repo env tenant name (at_rest t fs) ≡ (ok i, at_rest t fs)
  unfolding require_repo pure on_db select from_option ◌>>=◌
  require_repo-found name i (r, found, same) =
      ap
        (λ o.
          from_option (Option.map (λ (x : Repository). x.id) o) (unknown_name name) (at_rest t fs))
        found
      ∙ ap (λ x. (ok x, at_rest t fs)) same

  module _ (name : RepoName) where
    list_tags-at_rest :
        (i : ℕ) (n : Option ℕ) (last : Option Text)
        → HasRepo env tenant name t i
        → Lists.list_tags env tenant name n last (at_rest t fs)
          ≡ (ok (page_of (limit_of n) tag_name (tag_rows env i last (limit_of n) t)), at_rest t fs)
    unfolding Lists.list_tags pure on_db select ◌>>=◌
    list_tags-at_rest i n last has =
        bind-ok (require_repo env tenant name)
          (λ x. do
            rows ← on_db (select (tag_rows env x last (limit_of n)))
            pure (page_of (limit_of n) tag_name rows))
          (at_rest t fs) (at_rest t fs) i (require_repo-found name i has)

    tag_pages-at_rest :
        (i : ℕ) (n : Option ℕ) (last : Option Text)
        → HasRepo env tenant name t i
        → (tag_pages env tenant name) n last (at_rest t fs) ≡ (
          ok (page n (page_of (limit_of n) tag_name (tag_rows env i last (limit_of n) t))),
          at_rest t fs,
        )
    unfolding list_tags pure
    tag_pages-at_rest i n last has =
        let w : World = at_rest t fs in
        let listed : List Text × Bool =
          page_of (limit_of n) tag_name (tag_rows env i last (limit_of n) t) in
        let answer : TagList = record { name = name; page = page n listed } in
        bind-ok (list_tags env tenant name n last) (λ a. pure a.page) w w answer
          (bind-ok (Lists.list_tags env tenant name n last)
            (λ l. pure (record { name = name; page = page n l })) w w listed
            (list_tags-at_rest i n last has))

    Serves-tag_pages :
        (i limit : ℕ)
        → HasRepo env tenant name t i
        → NoDup (map tag_name (filter_by (λ g. g.repo_id == i) t.tags))
        → limit + 1 < 2 ^ 64
        → Serves env.sql.before
            (Named env tag_name (λ g. g.repo_id == i) t.tags)
            limit
            (at_rest t fs)
            (tag_pages env tenant name)
    unfolding tag_rows Lists.is_listed_tag
    Serves-tag_pages i limit has distinct fits = record {
      serve = λ n last lim. (
        names_behind env tag_name (λ g. g.repo_id == i) t.tags last,
        Rest-names_behind env tag_name (λ g. g.repo_id == i) t.tags distinct last,
        tag_pages-at_rest i n last has
            ∙ ap (λ p. (ok p, at_rest t fs))
                (page-first_page tag_name n
                    ((env.sql.table Tag).ordered tag_name
                      (λ g. (g.repo_id == i) && behind env last g.name) t.tags)
                    (subst (λ m. m + 1 < 2 ^ 64) (sym lim) fits)
                  ∙ ap
                      (λ m.
                        first_page m (names_behind env tag_name (λ g. g.repo_id == i) t.tags last))
                      lim),
      );
    }

    -- Where no statement fails, the database keeps the tags of a repository under different names,
    -- and a page holds from one to 2^64 - 2 names: a client that follows the links of the list of
    -- tags gets the names of all tags of the repository, each once, in ascending order, with no
    -- more requests than there are names, and one.
    pub follow-list_tags :
        (i : ℕ) (n : Option ℕ)
        → HasRepo env tenant name t i
        → NoDup (map tag_name (filter_by (λ g. g.repo_id == i) t.tags))
        → 1 ≤ limit_of n
        → limit_of n + 1 < 2 ^ 64
        → (names : List Text) × Ascending env.sql.before names
          × ((s : Text) → In s names ↔ Named env tag_name (λ g. g.repo_id == i) t.tags s)
          × ((fuel : ℕ)
              → length names < fuel
              → follow (tag_pages env tenant name) fuel n none (at_rest t fs)
                ≡ (ok (some names), at_rest t fs))
    follow-list_tags i n has distinct some_ fits =
        all-followed env (at_rest t fs) n some_ (Serves-tag_pages i (limit_of n) has distinct fits)

  catalog_pages-at_rest :
      (n : Option ℕ) (last : Option Text)
      → (catalog_pages env tenant) n last (at_rest t fs) ≡ (
        ok (
            page n (
              page_of
                (limit_of n)
                repository_name
                (repository_rows env tenant last (limit_of n) t))),
        at_rest t fs,
      )
  unfolding list_repositories Lists.list_repositories pure ◌>>=◌ on_db select
  catalog_pages-at_rest n last = refl

  Serves-catalog_pages :
      (limit : ℕ)
      → NoDup (map repository_name (filter_by (is_of_tenant tenant) t.repositories))
      → limit + 1 < 2 ^ 64
      → Serves env.sql.before
          (Named env repository_name (is_of_tenant tenant) t.repositories)
          limit
          (at_rest t fs)
          (catalog_pages env tenant)
  unfolding repository_rows Lists.is_listed_repo
  Serves-catalog_pages limit distinct fits = record {
    serve = λ n last lim. (
      names_behind env repository_name (is_of_tenant tenant) t.repositories last,
      Rest-names_behind env repository_name (is_of_tenant tenant) t.repositories distinct last,
      catalog_pages-at_rest n last
          ∙ ap (λ p. (ok p, at_rest t fs))
              (page-first_page repository_name n
                  ((env.sql.table Repository).ordered repository_name
                    (λ r. is_of_tenant tenant r && behind env last r.name) t.repositories)
                  (subst (λ m. m + 1 < 2 ^ 64) (sym lim) fits)
                ∙ ap
                    (λ m.
                      first_page m (
                        names_behind env repository_name (is_of_tenant tenant) t.repositories last))
                    lim),
    );
  }

  -- Where no statement fails, the database keeps the repositories of a tenant under different names,
  -- and a page holds from one to 2^64 - 2 names: a client that follows the links of the catalog gets
  -- the names of all repositories of its tenant and of no other, each once, in ascending order, with
  -- no more requests than there are names, and one.
  pub follow-list_repositories :
      (n : Option ℕ)
      → NoDup (map repository_name (filter_by (is_of_tenant tenant) t.repositories))
      → 1 ≤ limit_of n
      → limit_of n + 1 < 2 ^ 64
      → (names : List Text) × Ascending env.sql.before names
        × ((s : Text)
            → In s names ↔ Named env repository_name (is_of_tenant tenant) t.repositories s)
        × ((fuel : ℕ)
            → length names < fuel
            → follow (catalog_pages env tenant) fuel n none (at_rest t fs)
              ≡ (ok (some names), at_rest t fs))
  follow-list_repositories n distinct some_ fits =
      all-followed env (at_rest t fs) n some_ (Serves-catalog_pages (limit_of n) distinct fits)
