-- ===== src/Tests/ListEngine/Sort.antt =====
-- The order of texts and a sort by insertion, for the database over lists.
use distribution_rs.Prelude.{
  Bool, true, false, List, [], ◌∷◌, ◌≡◌, refl, sym, ap, arith, subst, In, here, there, In-cons,
  if◌then◌else◌, ltb, ◌==◌, ◌⊎◌, inl, inr, ◌↔◌, ◌≢◌, ◌∙◌, map-In, In-map, Bool-cases, map, Strict,
  NoDup, distinct_cons, Ascending, ascending_nil, ascending_cons,
}
use distribution_rs.Prelude.Text.{Text}

abbrev pub text_before : Text → Text → Bool
text_before s [] = false
text_before [] (d ∷ t) = true
text_before (c ∷ s) (d ∷ t) =
    let rest = text_before s t in if ltb c d then true else if c == d then rest else false

before_irrefl : (s : Text) → text_before s s ≡ false
before_irrefl [] = refl
before_irrefl (c ∷ s) = ground (arith, before_irrefl s)

before_trans :
    (s t u : Text) → text_before s t ≡ true → text_before t u ≡ true → text_before s u ≡ true
before_trans s [] u h h' = cc
before_trans s (d ∷ t) [] h h' = cc
before_trans [] (d ∷ t) (e ∷ u) h h' = refl
before_trans (c ∷ s) (d ∷ t) (e ∷ u) h h' = ground (arith, before_trans s t u)

before_total : (s t : Text) → text_before s t ≡ false → text_before t s ≡ false → s ≡ t
before_total [] [] h h' = refl
before_total [] (d ∷ t) h h' = cc
before_total (c ∷ s) [] h h' = cc
before_total (c ∷ s) (d ∷ t) h h' = ground (arith, before_total s t)

pub text_before-Strict : Strict text_before
text_before-Strict = record { irreflexive = before_irrefl; transitive = before_trans }

module _ {Row : Type 0} (key : Row → Text) where
  abbrev pub insert : Row → List Row → List Row
  insert r [] = r ∷ []
  insert r (x ∷ xs) =
      let rest = insert r xs in if text_before (key x) (key r) then x ∷ rest else r ∷ x ∷ xs

  abbrev pub sort : List Row → List Row
  sort [] = []
  sort (r ∷ t) = insert r (sort t)

  In-insert : (r s : Row) (xs : List Row) → In s (insert r xs) → (s ≡ r) ⊎ In s xs
  In-insert r s [] at = In-cons at
  In-insert r s (x ∷ xs) at = go (In-insert r s xs) (text_before (key x) (key r)) at
    where
      go :
          (In s (insert r xs) → (s ≡ r) ⊎ In s xs)
          → (b : Bool) → In s (if b then x ∷ insert r xs else r ∷ x ∷ xs)
          → (s ≡ r) ⊎ In s (x ∷ xs)
      go ih false at = In-cons at
      go ih true at = elim (In-cons at) [
        | inl e ↦ inr (subst (λ y. In y (x ∷ xs)) (sym e) here)
        | inr deep ↦ elim (ih deep) [ inl e ↦ inl e | inr deeper ↦ inr (there deeper) ]
      ]

  insert_kept :
      (r s x : Row) (xs ys : List Row)
      → ((s ≡ r) ⊎ In s xs → In s ys)
      → (s ≡ r) ⊎ In s (x ∷ xs)
      → (b : Bool) → In s (if b then x ∷ ys else r ∷ x ∷ xs)
  insert_kept r _ x xs ys f (inr here) true = here
  insert_kept r s x xs ys f (inr (there at)) true = there (f (inr at))
  insert_kept r s x xs ys f (inl e) true = there (f (inl e))
  insert_kept r s x xs ys f (inl e) false = subst (λ y. In y (r ∷ x ∷ xs)) (sym e) here
  insert_kept r s x xs ys f (inr at) false = there at

  insert-In : (r s : Row) (xs : List Row) → (s ≡ r) ⊎ In s xs → In s (insert r xs)
  insert-In r s [] (inl e) = subst (λ y. In y (r ∷ [])) (sym e) here
  insert-In r s [] (inr at) = there at
  insert-In r s (x ∷ xs) h = insert_kept r s x xs (insert r xs) (insert-In r s xs) h _

  sort-In : (s : Row) (t : List Row) → In s (sort t) → In s t
  sort-In s [] at = at
  sort-In s (r ∷ t) at = elim (In-insert r s (sort t) at) [
    | inl e ↦ subst (λ y. In y (r ∷ t)) (sym e) here
    | inr deep ↦ there (sort-In s t deep)
  ]

  In-sort : (s : Row) (t : List Row) → In s t → In s (sort t)
  In-sort s [] at = at
  In-sort _ (r ∷ t) here = insert-In r r (sort t) (inl refl)
  In-sort s (r ∷ t) (there at) = insert-In r s (sort t) (inr (In-sort s t at))

  pub sort_iff : (s : Row) (t : List Row) → In s (sort t) ↔ In s t
  sort_iff s t = (sort-In s t, In-sort s t)

  insert-Ascending :
      (r : Row) (xs : List Row)
      → ((s : Row) → In s xs → key r ≢ key s)
      → Ascending text_before (map key xs)
      → Ascending text_before (map key (insert r xs))
  insert-Ascending r [] other h = ascending_cons (λ y at. elim at [ ]) ascending_nil
  insert-Ascending r (x ∷ xs) other (ascending_cons first h) =
      go _ refl (insert-Ascending r xs (λ s at. other s (there at)) h)
    where
      behind_x :
          text_before (key x) (key r) ≡ true
          → (y : Text) → In y (map key (insert r xs))
          → text_before (key x) y ≡ true
      behind_x e y at =
          let (s, deep, same) = In-map key y (insert r xs) at in
          elim (In-insert r s xs deep) [
            | inl is_r ↦ subst (λ z. text_before (key x) z ≡ true) (ap key (sym is_r) ∙ same) e
            | inr old ↦ first y (subst (λ z. In z (map key xs)) same (map-In key old))
          ]

      x_behind : text_before (key x) (key r) ≡ false → text_before (key r) (key x) ≡ true
      x_behind e = elim (Bool-cases (text_before (key r) (key x))) [
        | inl yes_ ↦ yes_
        | inr no_ ↦ elim (other x here (before_total (key r) (key x) no_ e)) [ ]
      ]

      behind_r :
          text_before (key r) (key x) ≡ true
          → (y : Text) → In y (map key (x ∷ xs))
          → text_before (key r) y ≡ true
      behind_r e _ here = e
      behind_r e y (there at) = before_trans (key r) (key x) y e (first y at)

      go :
          (b : Bool)
          → text_before (key x) (key r) ≡ b
          → Ascending text_before (map key (insert r xs))
          → Ascending text_before (map key (if b then x ∷ insert r xs else r ∷ x ∷ xs))
      go true e ih = ascending_cons (behind_x e) ih
      go false e ih = ascending_cons (behind_r (x_behind e)) (ascending_cons first h)

  pub sort-Ascending : (t : List Row) → NoDup (map key t) → Ascending text_before (map key (sort t))
  sort-Ascending [] h = ascending_nil
  sort-Ascending (r ∷ t) (distinct_cons new h) =
      insert-Ascending r (sort t)
        (λ s at e. new (subst (λ y. In y (map key t)) (sym e) (map-In key (sort-In s t at))))
        (sort-Ascending t h)
