-- ===== src/Api/Lists/Follow.antt =====
-- A client that follows the links of a list, and what it gets from a server of pages.
use mathlib.Core.Option
use distribution_rs.Prelude.{
  ℕ, zero, suc, ◌≤◌, ◌<◌, Bool, true, false, Option, none, some, List, [], ◌∷◌, ◌++◌, ◌≡◌, refl, ap,
  ◌∙◌, subst, ◌↔◌, inl, inr, arith, ok, In, length, take, drop, take-append-drop, ltb,
  if◌then◌else◌, Bool-cases, Strict, last, ◌+◌, Ascending, Ascending-unique, Ascending-drop,
  Ascending-Cut, Cut,
}
use distribution_rs.Prelude.Text.{Text}
use distribution_rs.Exec.{pure, ◌>>=◌, bind-ok}
use distribution_rs.Api.Lists.{Page}
use distribution_rs.Registry.{World, Reg}
use distribution_rs.Registry.Lists.{limit_of}

-- What is behind a link, by `next`, after the names of the page.
unfoldable pub onward :
    (ℕ → Text → Reg (Option (List Text))) → List Text → Option (ℕ × Text) → Reg (Option (List Text))
onward next names none = pure (some names)
onward next names (some (limit, l)) = do
  more ← next limit l
  pure (Option.map (λ rest. names ++ rest) more)

-- The names on the pages from `last` on, where the client follows each link; `none` where it stops
-- at a link that is left.
unfoldable pub follow :
    (Option ℕ → Option Text → Reg Page) → ℕ → Option ℕ → Option Text → Reg (Option (List Text))
unfolding onward
follow get zero n last = pure none
follow get (suc fuel) n last = do
  answer ← get n last
  onward (λ limit l. follow get fuel (some limit) (some l)) answer.names answer.link

-- The first page of some names.
abbrev pub first_page : ℕ → List Text → Page
first_page limit rest = record {
  names = take limit rest;
  link =
      if ltb limit (length rest)
      then Option.map (λ l. (limit, l)) (last (take limit rest))
      else none;
}

linked :
    (m : ℕ) (rest : List Text) (l : Text)
    → ltb (suc m) (length rest) ≡ true
    → last (take (suc m) rest) ≡ some l
    → (first_page (suc m) rest).link ≡ some (suc m, l)
linked m rest l more e = rw (more, e)

unlinked :
    (m : ℕ) (rest : List Text)
    → ltb (suc m) (length rest) ≡ false
    → (first_page (suc m) rest).link ≡ none
unlinked m rest no_more = rw (no_more)

take-all : (n : ℕ) (xs : List Text) → ltb n (length xs) ≡ false → take n xs ≡ xs
take-all zero [] h = refl
take-all zero (x ∷ xs) h = ground arith
take-all (suc n) [] h = refl
take-all (suc n) (x ∷ xs) h = ap (◌∷◌ x) (take-all n xs (ground arith))

none_below : {n : ℕ} → n < 0 → ⊥
none_below h = omega arith

length-drop : (n : ℕ) (xs : List Text) → n ≤ length xs → n + length (drop n xs) ≡ length xs
length-drop zero xs h = omega arith
length-drop (suc n) [] h = omega arith
length-drop (suc n) (x ∷ xs) h = omega (arith, length-drop n xs (omega arith))

drop-shorter :
    (n fuel : ℕ) (xs : List Text)
    → length xs < suc fuel
    → suc n < length xs
    → length (drop (suc n) xs) < fuel
drop-shorter n fuel xs h h' = omega (arith, length-drop (suc n) xs (omega arith))

module _ (before : Text → Text → Bool) where
  -- A name comes behind the last one of a page.
  abbrev pub Behind : Option Text → Text → Type 0
  Behind none s = Unit
  Behind (some last) s = before last s ≡ true

  -- The names behind `last`, in order.
  pub record Rest (All : Text → Type 0) (last : Option Text) (names : List Text) : Type 0 where
    pub ascending : Ascending before names
    pub member : (s : Text) → In s names ↔ (All s × Behind last s)

  -- A server that answers with the first page of what comes behind `last`.
  pub record Serves (All : Text → Type 0) (limit : ℕ) (w : World)
      (get : Option ℕ → Option Text → Reg Page) : Type 0 where
    pub serve :
        (n : Option ℕ) (last : Option Text)
        → limit_of n ≡ limit
        → (names : List Text) × Rest All last names
          × (get n last w ≡ (ok (first_page limit names), w))

  module _ (strict : Strict before) where
    Rest-unique :
        {All : Text → Type 0} {last : Option Text} {xs ys : List Text}
        → Rest All last xs
        → Rest All last ys
        → xs ≡ ys
    Rest-unique h h' =
        Ascending-unique before strict _ _ h.ascending h'.ascending λ s.
          (λ at. (h'.member s).1 ((h.member s).0 at), λ at. (h.member s).1 ((h'.member s).0 at))

    further : (o : Option Text) (l s : Text) → Behind o l → before l s ≡ true → Behind o s
    further none l s h h' = tt
    further (some k) l s h h' = strict.transitive k l s h h'

    -- What comes behind a page.
    Rest-drop :
        {All : Text → Type 0} {last : Option Text} {n : ℕ} {names : List Text}
        → Rest All last names
        → (c : Cut before strict n names) → Rest All (some c.l) (drop n names)
    Rest-drop {All} {last} {n} {names} h c = record {
      ascending = Ascending-drop before strict n names h.ascending;
      member = λ s. (
        λ at. let (deep, b) = (c.behind s).0 at in (((h.member s).0 deep).0, b),
        λ (all, b).
            (c.behind s).1
              ((h.member s).1 (all, further last c.l s ((h.member c.l).0 c.l_at).1 b), b),
      );
    }

    pub follow-Rest :
        {All : Text → Type 0} {get : Option ℕ → Option Text → Reg Page} (m : ℕ) (w : World)
        → Serves All (suc m) w get
        → (fuel : ℕ) (n : Option ℕ) (o : Option Text) (rest : List Text) → limit_of n ≡ suc m
        → Rest All o rest
        → length rest < fuel
        → follow get fuel n o w ≡ (ok (some rest), w)
    unfolding follow onward pure
    follow-Rest m w s zero n o rest lim h few = elim (none_below few) [ ]
    follow-Rest {All} {get} m w s (suc fuel) n o rest lim h few =
        let (names, h', answer) = s.serve n o lim in
        let first : get n o w ≡ (ok (first_page (suc m) rest), w) =
          subst (λ x. get n o w ≡ (ok (first_page (suc m) x), w)) (Rest-unique h' h) answer in
        let next : ℕ → Text → Reg (Option (List Text)) =
          λ limit l. follow get fuel (some limit) (some l) in
        let further_pages : (c : Cut before strict (suc m) rest)
            → suc m < length rest
            → next (suc m) c.l w ≡ (ok (some (drop (suc m) rest)), w) =
          λ c more.
            follow-Rest m w s fuel (some (suc m)) (some c.l) (drop (suc m) rest) refl
              (Rest-drop h c) (drop-shorter m fuel rest few more) in
        bind-ok (get n o) (λ a. onward next a.names a.link) w w (first_page (suc m) rest) first
        ∙ elim (Bool-cases (ltb (suc m) (length rest))) [
          | inl more ↦
              let c : Cut before strict (suc m) rest =
                Ascending-Cut before strict m rest h.ascending (ground arith) in
              ap (λ link. onward next (take (suc m) rest) link w)
                (linked m rest c.l more c.last_taken)
              ∙ bind-ok (next (suc m) c.l) (λ x. pure (Option.map (λ y. take (suc m) rest ++ y) x))
                  w w (some (drop (suc m) rest)) (further_pages c (ground arith))
              ∙ ap (λ y. (ok (some y), w)) (take-append-drop (suc m) rest)
          | inr no_more ↦
              ap (λ link. onward next (take (suc m) rest) link w) (unlinked m rest no_more)
              ∙ ap (λ y. (ok (some y), w)) (take-all (suc m) rest no_more)
        ]
