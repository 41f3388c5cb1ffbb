-- ===== src/Exec/Reaches.antt =====
-- Actions that return, but for failures of a given kind.
use distribution_rs.Prelude.{
  ◌≡◌, refl, sym, ◌⊎◌, inl, inr, Result, ok, err, Option, none, some, subst, ap,
}
use distribution_rs.Exec.{Exec, pure, from_option, ◌>>=◌, bind-cases}
use distribution_rs.Exec.Ensures.{Ensures}

-- From a state with `P`, `m` returns some `a` with `Q a`, or fails with one of the errors.
pub record Reaches {S E A : Type 0} (Fault : E → Type 0) (P : S → Type 0) (m : Exec S E A)
    (Q : A → S → Type 0) : Type 0 where
  pub at :
      (s : S)
      → P s
      → ((a : A) × ((m s).0 ≡ ok a) × Q a (m s).1) ⊎ ((e : E) × ((m s).0 ≡ err e) × Fault e)

module _ {S E A : Type 0} {Fault : E → Type 0} {P : S → Type 0} {Q : A → S → Type 0} where
  pub Reaches-pure : (a : A) → ((s : S) → P s → Q a s) → Reaches Fault P (pure a) Q
  unfolding pure
  Reaches-pure a k = record { at = λ s h. inl (a, refl, k s h) }

  -- An option that is there, given what holds of the state.
  pub Reaches-from_option :
      (o : Option A) (e : E)
      → ((s : S) → P s → (a : A) × (o ≡ some a) × Q a s)
      → Reaches Fault P (from_option o e) Q
  unfolding from_option pure
  Reaches-from_option none e k = record { at = λ s h. let (a, bad, _) = k s h in cc }
  Reaches-from_option (some b) e k = record {
    at = λ s h.
        let (a, same, q) = k s h in let is : a ≡ b = cc in inl (b, refl, subst (λ x. Q x s) is q);
  }

module _ {S E A : Type 0} {Fault : E → Type 0} {P H : S → Type 0} {Q : A → S → Type 0} where
  -- What holds where it returns, and that it does.
  pub Reaches-Ensures :
      {m : Exec S E A}
      → Ensures P m Q
      → Reaches Fault H m (λ _. H)
      → Reaches Fault (λ s. P s × H s) m (λ a s. Q a s × H s)
  Reaches-Ensures {m} k f = record {
    at = λ s (p, h). elim (f.at s h) [
      | inl (a, e, h') ↦ inl (a, e, (k.at s p a e, h'))
      | inr failure ↦ inr failure
    ];
  }

module _ {S E A B : Type 0} {Fault : E → Type 0} {P : S → Type 0} {Q : A → S → Type 0}
    {R : B → S → Type 0} where
  pub Reaches-bind :
      {m : Exec S E A} {f : A → Exec S E B}
      → Reaches Fault P m Q
      → ((a : A) → Reaches Fault (Q a) (f a) R)
      → Reaches Fault P (m >>= f) R
  Reaches-bind {m} {f} km kf = record {
    at = λ s h. elim (km.at s h) [
      | inl (a, e, q) ↦ moved s a e ((kf a).at (m s).1 q)
      | inr (x, e, bad) ↦ inr (x, failed s x e, bad)
    ];
  }
    where
      Outcome : Result E B × S → Type 0
      Outcome x = ((b : B) × (x.0 ≡ ok b) × R b x.1) ⊎ ((y : E) × (x.0 ≡ err y) × Fault y)

      moved : (s : S) (a : A) → (m s).0 ≡ ok a → Outcome (f a (m s).1) → Outcome ((m >>= f) s)
      moved s a e o =
          bind-cases Outcome m f s (λ x bad. cc)
            (λ c e'. let is : a ≡ c = cc in subst (λ c. Outcome (f c (m s).1)) is o)

      failed : (s : S) (x : E) → (m s).0 ≡ err x → ((m >>= f) s).0 ≡ err x
      failed s x e = bind-cases (λ y. y.0 ≡ err x) m f s (λ z e'. ap err (cc)) (λ a bad. cc)

module _ {S E A B : Type 0} {Fault : E → Type 0} {P : S → Type 0} {R : B → S → Type 0} where
  -- A value that is known can stand in place of the one returned.
  pub Reaches-known :
      (f : A → Exec S E B) (a b : A)
      → Reaches Fault P (f b) R
      → Reaches Fault (λ s. (a ≡ b) × P s) (f a) R
  Reaches-known f a b k = record {
    at = λ s (e, h). (subst (λ x. Reaches Fault P (f x) R) (sym e) k).at s h;
  }
