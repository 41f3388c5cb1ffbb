-- ===== src/Exec/Ensures.antt =====
-- What holds of the value and the state when an action returns.
use distribution_rs.Prelude.{
  ◌≡◌, refl, Result, ok, err, subst, Bool, true, false, if◌then◌else◌, Option, none, some,
}
use distribution_rs.Exec.{Exec, pure, raise, gets, from_option, map_err, mapped, ◌>>=◌, bind-cases}
use distribution_rs.Exec.Keeps.{Keeps, Keeps-bind_at}

-- From a state with `P`, if `m` returns `a`, then `Q a` holds of the state behind it.
pub record Ensures {S E A : Type 0} (P : S → Type 0) (m : Exec S E A) (Q : A → S → Type 0)
    : Type 0 where
  pub at : (s : S) → P s → (a : A) → (m s).0 ≡ ok a → Q a (m s).1

module _ {S E A : Type 0} {P : S → Type 0} {Q : A → S → Type 0} where
  pub Ensures-pure : (a : A) → ((s : S) → P s → Q a s) → Ensures {E = E} P (pure a) Q
  unfolding pure
  Ensures-pure a k = record { at = λ s h b e. subst (λ x. Q x s) (cc) (k s h) }

  pub Ensures-raise : (e : E) → Ensures P (raise e) Q
  unfolding raise
  Ensures-raise e = record { at = λ s h b x. cc }

  pub Ensures-gets : (f : S → A) → ((s : S) → P s → Q (f s) s) → Ensures {E = E} P (gets f) Q
  unfolding gets
  Ensures-gets f k = record { at = λ s h b e. subst (λ x. Q x s) (cc) (k s h) }

  pub Ensures-from_option :
      (o : Option A) (e : E)
      → ((a : A) → o ≡ some a → (s : S) → P s → Q a s)
      → Ensures P (from_option o e) Q
  unfolding from_option
  Ensures-from_option none e k = Ensures-raise e
  Ensures-from_option (some a) e k = Ensures-pure a (k a refl)

  pub Ensures-if :
      (b : Bool) {m n : Exec S E A}
      → (b ≡ true → Ensures P m Q)
      → (b ≡ false → Ensures P n Q)
      → Ensures P (if b then m else n) Q
  Ensures-if true km kn = km refl
  Ensures-if false km kn = kn refl

module _ {S E F A : Type 0} {P : S → Type 0} {Q : A → S → Type 0} where
  pub Ensures-map_err : (f : E → F) {m : Exec S E A} → Ensures P m Q → Ensures P (map_err f m) Q
  unfolding map_err
  Ensures-map_err f {m} k = record { at = λ s h a e. k.at s h a (go (m s).0 e) }
    where
      go : {a : A} (r : Result E A) → mapped f r ≡ ok a → r ≡ ok a
      go (ok b) e = cc
      go (err b) e = cc

module _ {S E A : Type 0} {P R : S → Type 0} {Q T : A → S → Type 0} where
  -- With less assumed and more shown.
  pub Ensures-weaken :
      {m : Exec S E A}
      → Ensures P m Q
      → ((s : S) → R s → P s)
      → ((a : A) (s : S) → Q a s → T a s)
      → Ensures R m T
  Ensures-weaken k pre post = record { at = λ s h a e. post a _ (k.at s (pre s h) a e) }

module _ {S E A : Type 0} {P : S → Type 0} where
  pub Ensures-Keeps : {m : Exec S E A} → Keeps P m → Ensures P m (λ _. P)
  Ensures-Keeps k = record { at = λ s h a e. k.at s h }

module _ {S E A B : Type 0} {P : S → Type 0} {Q : A → S → Type 0} {R : B → S → Type 0} where
  pub Ensures-bind :
      {m : Exec S E A} {f : A → Exec S E B}
      → Ensures P m Q
      → ((a : A) → Ensures (Q a) (f a) R)
      → Ensures P (m >>= f) R
  Ensures-bind {m} {f} km kf = record {
    at = λ s h b e.
        bind-cases (λ x. x.0 ≡ ok b → R b x.1) m f s (λ x _ bad. cc)
          (λ a r later. (kf a).at (m s).1 (km.at s h a r) b later) e;
  }

module _ {S E A B : Type 0} {P : S → Type 0} {R : A → Type 0} where
  -- What comes behind is only known to keep `P` for the values that the first part returns.
  pub Keeps-knowing :
      (m : Exec S E A) (f : A → Exec S E B)
      → Keeps P m
      → Ensures P m (λ a _. R a)
      → ((a : A) → R a → Keeps P (f a))
      → Keeps P (m >>= f)
  Keeps-knowing m f km returned kf = record {
    at = λ s h.
        Keeps-bind_at P m f s (km.at s h)
          λ a e. (kf a (returned.at s h a e)).at (m s).1 (km.at s h);
  }
