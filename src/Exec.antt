-- ===== src/Exec.antt =====
-- Code that changes a state and may end early with an error. What was changed before the error
-- stays changed, so the new state stands beside the error too.
pub mod Keeps
pub mod Ensures
pub mod Reaches
use distribution_rs.Prelude.{
  ◌≡◌, refl, ap, Option, none, some, Result, ok, err, inl, inr, Result-cases, arith,
}

abbrev pub Exec : Type 0 → Type 0 → Type 0 → Type 0
Exec S E A = S → Result E A × S

module _ {S E A : Type 0} where
  unfoldable pub pure : A → Exec S E A
  pure a s = (ok a, s)

  unfoldable pub raise : E → Exec S E A
  raise e s = (err e, s)

  unfoldable pub gets : (S → A) → Exec S E A
  gets f s = (ok (f s), s)

  unfoldable pub from_option : Option A → E → Exec S E A
  unfolding pure raise
  from_option none e = raise e
  from_option (some a) e = pure a

  -- The outcome as a value, for code that matches on it or drops it.
  unfoldable pub attempt : Exec S E A → Exec S E (Result E A)
  attempt m s = let (r, s') = m s in (ok r, s')

module _ {S E : Type 0} where
  unfoldable pub modify : (S → S) → Exec S E Unit
  modify f s = (ok tt, f s)

abbrev pub mapped : {E F A : Type 0} → (E → F) → Result E A → Result F A
mapped f (ok a) = ok a
mapped f (err e) = err (f e)

module _ {S E F A : Type 0} where
  -- `map_err`, `with_context` and the conversions of `?`
  unfoldable pub map_err : (E → F) → Exec S E A → Exec S F A
  map_err f m s = let (r, s') = m s in (mapped f r, s')

module _ {S T E A : Type 0} where
  -- An action on a part of the state.
  unfoldable pub focus : (T → S) → (S → T → T) → Exec S E A → Exec T E A
  focus get put m t = let (r, s') = m (get t) in (r, put s' t)

module _ {S E A B : Type 0} where
  infixl 10 ◌>>=◌ ◌>>◌
  -- With the bind the other ways to build an action open too.
  unfoldable pub ◌>>=◌ : Exec S E A → (A → Exec S E B) → Exec S E B
  unfolding pure raise gets from_option attempt modify map_err focus
  ◌>>=◌ m f s = let (r, s') = m s in elim r [ ok a ↦ f a s' | err e ↦ (err e, s') ]

  abbrev pub ◌>>◌ : Exec S E A → Exec S E B → Exec S E B
  m >> n = m >>= λ _. n

  -- To follow a sequence: the first part fails, or returns and the rest goes on.
  pub bind-cases {ℓ} :
      (Q : Result E B × S → Type ℓ) (m : Exec S E A) (f : A → Exec S E B) (s : S)
      → ((e : E) → (m s).0 ≡ err e → Q (err e, (m s).1))
      → ((a : A) → (m s).0 ≡ ok a → Q (f a (m s).1))
      → Q ((m >>= f) s)
  unfolding ◌>>=◌
  bind-cases Q m f s failed returned = go (m s).0 failed returned
    where
      go :
          (r : Result E A)
          → ((e : E) → r ≡ err e → Q (err e, (m s).1))
          → ((a : A) → r ≡ ok a → Q (f a (m s).1))
          → Q (elim r [ ok a ↦ f a (m s).1 | err e ↦ (err e, (m s).1) ])
      go (ok a) failed returned = returned a refl
      go (err e) failed returned = failed e refl

  -- A sequence that returns has run both parts.
  pub bind-eq-ok :
      (m : Exec S E A) (f : A → Exec S E B) (s : S) {b : B}
      → ((m >>= f) s).0 ≡ ok b
      → (a : A) × ((m s).0 ≡ ok a) × ((m >>= f) s ≡ f a (m s).1)
  unfolding ◌>>=◌
  bind-eq-ok m f s h = elim (Result-cases (m s).0) [
    | inl (a, e) ↦ (a, e, ground arith)
    | inr (x, e) ↦ ground arith
  ]

  -- A sequence whose first part returns goes on from there.
  pub bind-ok :
      (m : Exec S E A) (f : A → Exec S E B) (s s' : S) (a : A)
      → m s ≡ (ok a, s')
      → (m >>= f) s ≡ f a s'
  unfolding ◌>>=◌
  bind-ok m f s s' a e =
      ap (λ (x : Result E A × S). elim x.0 [ ok a ↦ f a x.1 | err e ↦ (err e, x.1) ]) e
