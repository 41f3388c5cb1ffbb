-- ===== src/Prelude/Sorted.antt =====
-- Ascending lists, for what `ORDER BY` returns: their cuts, and that their members determine them.
use Prim.Native.Nat.{ℕ, zero, suc, ◌≤◌, ◌<◌}
use mathlib.Core.Path.{◌≡◌, refl, sym, subst, ◌∙◌}
use mathlib.Core.Logic.{◌↔◌, ◌⊎◌, inl, inr}
use mathlib.Core.Bool.{Bool, true, false}
use mathlib.Core.Option.{Option, none, some}
use mathlib.Core.List.{List, [], ◌∷◌, map}
use native.Mathlib.Omega.{arith}
use distribution_rs.Prelude.Lists.{length, take, drop, In, here, there}

module _ {A : Type 0} where
  pub In-cons : {a x : A} {xs : List A} → In a (x ∷ xs) → (a ≡ x) ⊎ In a xs
  In-cons here = inl refl
  In-cons (there at) = inr at

  -- No element stands twice in the list.
  pub data NoDup : List A → Type 0 where
    distinct_nil : NoDup []
    distinct_cons : {x : A} {xs : List A} → ¬ In x xs → NoDup xs → NoDup (x ∷ xs)

  abbrev pub last : List A → Option A
  last [] = none
  last (x ∷ []) = some x
  last (x ∷ y ∷ ys) = last (y ∷ ys)

module _ {A B : Type 0} (f : A → B) where
  pub map-In : {a : A} {xs : List A} → In a xs → In (f a) (map f xs)
  map-In here = here
  map-In (there at) = there (map-In at)

  pub In-map : (b : B) (xs : List A) → In b (map f xs) → (a : A) × In a xs × (f a ≡ b)
  In-map b [] at = elim at [ ]
  In-map b (x ∷ xs) at = elim (In-cons at) [
    | inl e ↦ (x, here, sym e)
    | inr deep ↦ let (a, deeper, e) = In-map b xs deep in (a, there deeper, e)
  ]

-- A strict order given by a test.
pub record Strict {A : Type 0} (before : A → A → Bool) : Type 0 where
  pub irreflexive : (a : A) → before a a ≡ false
  pub transitive : (a b c : A) → before a b ≡ true → before b c ≡ true → before a c ≡ true

module _ {A : Type 0} (before : A → A → Bool) where
  -- Each element comes before those behind it.
  pub data Ascending : List A → Type 0 where
    ascending_nil : Ascending []
    ascending_cons :
        {x : A} {xs : List A}
        → ((y : A) → In y xs → before x y ≡ true)
        → Ascending xs
        → Ascending (x ∷ xs)

  module _ (strict : Strict before) where
    -- No element comes before itself, directly or by another.
    pub absurd_cycle : {C : Type 0} (a b : A) → before a b ≡ true → before b a ≡ true → C
    absurd_cycle a b h h' =
        let loop : before a a ≡ true = strict.transitive a b a h h' in
        let none_ : before a a ≡ false = strict.irreflexive a in cc

    absurd_self : {C : Type 0} (a b : A) → a ≡ b → before a b ≡ true → C
    absurd_self a b e h = let none_ : before a a ≡ false = strict.irreflexive a in cc

    heads_agree :
        (x y : A) (xs ys : List A)
        → ((z : A) → In z xs → before x z ≡ true)
        → ((z : A) → In z ys → before y z ≡ true)
        → In x (y ∷ ys)
        → In y (x ∷ xs)
        → x ≡ y
    heads_agree x y xs ys hx hy at at' = elim (In-cons at) [
      | inl e ↦ e
      | inr deep ↦ elim (In-cons at') [
        | inl e ↦ sym e
        | inr deep' ↦ absurd_cycle x y (hx y deep') (hy x deep)
      ]
    ]

    tail_in :
        (x y s : A) (xs ys : List A)
        → x ≡ y
        → ((z : A) → In z xs → before x z ≡ true)
        → (In s (x ∷ xs) → In s (y ∷ ys))
        → In s xs
        → In s ys
    tail_in x y s xs ys e hx f at = elim (In-cons (f (there at))) [
      | inl same ↦ absurd_self x s (e ∙ sym same) (hx s at)
      | inr deep ↦ deep
    ]

    -- Two ascending lists with the same members are one list.
    pub Ascending-unique :
        (xs ys : List A) → Ascending xs → Ascending ys → ((a : A) → In a xs ↔ In a ys) → xs ≡ ys
    Ascending-unique [] [] h h' same = refl
    Ascending-unique [] (y ∷ ys) h h' same = elim ((same y).1 here) [ ]
    Ascending-unique (x ∷ xs) [] h h' same = elim ((same x).0 here) [ ]
    Ascending-unique (x ∷ xs) (y ∷ ys) (ascending_cons hx h) (ascending_cons hy h') same =
        let e : x ≡ y = heads_agree x y xs ys hx hy ((same x).0 here) ((same y).1 here) in
        let rest : xs ≡ ys =
          Ascending-unique xs ys h h'
            λ s. (tail_in x y s xs ys e hx (same s).0, tail_in y x s ys xs (sym e) hy (same s).1) in
        cc

    pub Ascending-drop : (n : ℕ) (xs : List A) → Ascending xs → Ascending (drop n xs)
    Ascending-drop zero xs h = h
    Ascending-drop (suc n) [] h = ascending_nil
    Ascending-drop (suc n) (x ∷ xs) (ascending_cons _ h) = Ascending-drop n xs h

    -- The cut of an ascending list behind its first `n` elements, whose last is `l`.
    pub record Cut (n : ℕ) (xs : List A) : Type 0 where
      pub l : A
      pub last_taken : last (take n xs) ≡ some l
      pub l_at : In l xs
      pub behind : (s : A) → In s (drop n xs) ↔ (In s xs × (before l s ≡ true))

    cut_one :
        (x : A) (xs : List A)
        → ((y : A) → In y xs → before x y ≡ true)
        → (s : A) → In s xs ↔ (In s (x ∷ xs) × (before x s ≡ true))
    cut_one x xs h s = (
      λ at. (there at, h s at),
      λ (at, b). elim (In-cons at) [ inl e ↦ absurd_self x s (sym e) b | inr deep ↦ deep ],
    )

    deeper-Cut :
        (x : A) (n : ℕ) (xs : List A)
        → ((y : A) → In y xs → before x y ≡ true)
        → last (x ∷ take (suc n) xs) ≡ last (take (suc n) xs)
        → Cut (suc n) xs
        → Cut (suc (suc n)) (x ∷ xs)
    deeper-Cut x n xs h e c = record {
      l = c.l;
      last_taken = e ∙ c.last_taken;
      l_at = there c.l_at;
      behind = λ s. (
        λ at. let (deep, b) = (c.behind s).0 at in (there deep, b),
        λ (at, b). elim (In-cons at) [
          | inl same ↦ absurd_cycle x c.l (h c.l c.l_at) (subst (λ y. before c.l y ≡ true) same b)
          | inr deep ↦ (c.behind s).1 (deep, b)
        ],
      );
    }

    few-absurd : {m n : ℕ} → m < n → n ≤ m → ⊥
    few-absurd h h' = omega arith

    pub Ascending-Cut : (n : ℕ) (xs : List A) → Ascending xs → suc n < length xs → Cut (suc n) xs
    Ascending-Cut zero [] h few = elim (few-absurd few (omega arith)) [ ]
    Ascending-Cut zero (x ∷ xs) (ascending_cons first h) few = record {
      l = x;
      last_taken = refl;
      l_at = here;
      behind = cut_one x xs first;
    }
    Ascending-Cut (suc n) [] h few = elim (few-absurd few (omega arith)) [ ]
    Ascending-Cut (suc n) (x ∷ []) h few = elim (few-absurd few (omega arith)) [ ]
    Ascending-Cut (suc n) (x ∷ y ∷ ys) (ascending_cons first h) few =
        deeper-Cut x n (y ∷ ys) first refl (Ascending-Cut n (y ∷ ys) h (omega arith))
