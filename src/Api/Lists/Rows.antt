-- ===== src/Api/Lists/Rows.antt =====
-- What the ordered queries of the lists return, page by page.
use distribution_rs.Prelude.{
  ℕ, zero, suc, ◌+◌, ◌<◌, ◌^◌, Bool, true, false, ◌&&◌, Option, none, some, List, [], ◌∷◌, ◌≡◌,
  refl, sym, ap, subst, ◌↔◌, arith, In, here, there, length, take, ltb, map, map-In, In-map,
  In-cons, inl, inr, filter_by, NoDup, distinct_nil, distinct_cons, if◌then◌else◌,
}
use distribution_rs.Prelude.Text.{Text}
use distribution_rs.Api.Lists.{page, next_link}
use distribution_rs.Api.Lists.Follow.{first_page, Behind, Rest}
use distribution_rs.Registry.{Env}
use distribution_rs.Registry.Lists.{limit_of, one_more, behind, page_of}

module _ {Row : Type 0} (key : Row → Text) where
  take-one_more : (n : ℕ) (rows : List Row) → take n (take (suc n) rows) ≡ take n rows
  take-one_more zero rows = refl
  take-one_more (suc n) [] = refl
  take-one_more (suc n) (r ∷ rows) = ap (◌∷◌ r) (take-one_more n rows)

  more-one_more :
      (n : ℕ) (rows : List Row) → ltb n (length (take (suc n) rows)) ≡ ltb n (length (map key rows))
  more-one_more zero [] = refl
  more-one_more zero (r ∷ rows) = ground arith
  more-one_more (suc n) [] = refl
  more-one_more (suc n) (r ∷ rows) = ground (arith, more-one_more n rows)

  map-take : (n : ℕ) (rows : List Row) → map key (take n rows) ≡ take n (map key rows)
  map-take zero rows = refl
  map-take (suc n) [] = refl
  map-take (suc n) (r ∷ rows) = ap (◌∷◌ (key r)) (map-take n rows)

  -- With one row more than the page holds, the page and the test for more are those of all rows.
  page_of-one_more :
      (limit : ℕ) (rows : List Row)
      → limit + 1 < 2 ^ 64
      → page_of limit key (take (one_more limit) rows)
        ≡ (take limit (map key rows), ltb limit (length (map key rows)))
  unfolding page_of
  page_of-one_more limit rows fits =
      let e : one_more limit ≡ suc limit = omega arith in
      rw (e, take-one_more limit rows, more-one_more limit rows, map-take limit rows)

  pub page-first_page :
      (n : Option ℕ) (rows : List Row)
      → limit_of n + 1 < 2 ^ 64
      → page n (page_of (limit_of n) key (take (one_more (limit_of n)) rows))
        ≡ first_page (limit_of n) (map key rows)
  unfolding page next_link
  page-first_page n rows fits = rw (page_of-one_more (limit_of n) rows fits)

  module _ (q b : Row → Bool) where
    stricter-In :
        (x : Text) (t : List Row)
        → In x (map key (filter_by (λ r. q r && b r) t))
        → In x (map key (filter_by q t))
    stricter-In x [] at = at
    stricter-In x (r ∷ t) at = go (stricter-In x t) (q r) (b r) at
      where
        go :
            (In x (map key (filter_by (λ s. q s && b s) t)) → In x (map key (filter_by q t)))
            → (c d : Bool)
            → In x (
                map key (
                  if c && d
                  then r ∷ filter_by (λ s. q s && b s) t
                  else filter_by (λ s. q s && b s) t))
            → In x (map key (if c then r ∷ filter_by q t else filter_by q t))
        go k false d at = k at
        go k true false at = there (k at)
        go k true true at = elim (In-cons at) [
          | inl e ↦ subst (λ y. In y (key r ∷ map key (filter_by q t))) (sym e) here
          | inr deep ↦ there (k deep)
        ]

    -- A stricter filter keeps the keys different.
    NoDup-stricter :
        (t : List Row)
        → NoDup (map key (filter_by q t))
        → NoDup (map key (filter_by (λ r. q r && b r) t))
    NoDup-stricter [] h = distinct_nil
    NoDup-stricter (r ∷ t) h = go (NoDup-stricter t) (q r) (b r) h
      where
        go :
            (NoDup (map key (filter_by q t)) → NoDup (map key (filter_by (λ s. q s && b s) t)))
            → (c d : Bool) → NoDup (map key (if c then r ∷ filter_by q t else filter_by q t))
            → NoDup (
                map key (
                  if c && d
                  then r ∷ filter_by (λ s. q s && b s) t
                  else filter_by (λ s. q s && b s) t))
        go k false d h = k h
        go k true false (distinct_cons _ h) = k h
        go k true true (distinct_cons new h) =
            distinct_cons (λ at. new (stricter-In (key r) t at)) (k h)

module _ (env : Env) {Row : Type 0} (key : Row → Text) (q : Row → Bool) (t : List Row) where
  -- A row that passes the test has the name.
  abbrev pub Named : Text → Type 0
  Named s = (r : Row) × In r t × (q r ≡ true) × (key r ≡ s)

  abbrev pub names_behind : Option Text → List Text
  names_behind last =
      map key ((env.sql.table Row).ordered key (λ r. q r && behind env last (key r)) t)

  both_true : (a b : Bool) → (a && b ≡ true) ↔ ((a ≡ true) × (b ≡ true))
  both_true a b = ground arith

  behind_iff :
      (last : Option Text) (s : Text) → (behind env last s ≡ true) ↔ Behind env.sql.before last s
  behind_iff none s = (λ _. tt, λ _. refl)
  behind_iff (some l) s = (λ h. h, λ h. h)

  -- The query behind `last` gives the names behind `last`, in order.
  pub Rest-names_behind :
      NoDup (map key (filter_by q t))
      → (last : Option Text) → Rest env.sql.before Named last (names_behind last)
  Rest-names_behind distinct last = record {
    ascending = env.sql.ordered-Ascending key _ t (NoDup-stricter key q _ t distinct);
    member = λ s. (
      λ at.
          let (r, listed, e) = In-map key s _ at in
          let (at', passed) = ((env.sql.table Row).ordered_iff key _ t r).0 listed in
          let (mine, later) = (both_true _ _).0 passed in
          (
            (r, at', mine, e),
            (behind_iff last s).0 (subst (λ x. behind env last x ≡ true) e later),
          ),
      λ ((r, at, mine, e), later).
          let passed : (q r && behind env last (key r)) ≡ true =
            (both_true _ _).1
              (mine, subst (λ x. behind env last x ≡ true) (sym e) ((behind_iff last s).1 later)) in
          subst (λ x. In x (names_behind last)) e
            (map-In key (((env.sql.table Row).ordered_iff key _ t r).1 (at, passed))),
    );
  }
