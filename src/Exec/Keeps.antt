-- ===== src/Exec/Keeps.antt =====
-- Invariants of actions: a rule for each way to build one.
use distribution_rs.Prelude.{◌≡◌, refl, Bool, true, false, Option, none, some, ok, if◌then◌else◌}
use distribution_rs.Exec.{Exec, pure, raise, gets, from_option, attempt, map_err, ◌>>=◌, bind-cases}

-- `m` keeps `P`, whether it returns or fails.
pub record Keeps {S E A : Type 0} (P : S → Type 0) (m : Exec S E A) : Type 0 where
  pub at : (s : S) → P s → P (m s).1

module _ {S E A : Type 0} {P : S → Type 0} where
  pub Keeps-gets : (query : S → A) → Keeps {E = E} P (gets query)
  unfolding gets
  Keeps-gets query = record { at = λ s h. h }

  pub Keeps-raise : (e : E) → Keeps {A = A} P (raise e)
  unfolding raise
  Keeps-raise e = record { at = λ s h. h }

  pub Keeps-pure : (a : A) → Keeps {E = E} P (pure a)
  unfolding pure
  Keeps-pure a = record { at = λ s h. h }

  pub Keeps-from_option : (o : Option A) (e : E) → Keeps P (from_option o e)
  unfolding from_option
  Keeps-from_option none e = record { at = λ s h. h }
  Keeps-from_option (some a) e = record { at = λ s h. h }

  pub Keeps-attempt : (m : Exec S E A) → Keeps P m → Keeps P (attempt m)
  unfolding attempt
  Keeps-attempt m k = record { at = k.at }

  pub Keeps-if :
      (test : Bool) (positive negative : Exec S E A)
      → (test ≡ true → Keeps P positive)
      → (test ≡ false → Keeps P negative)
      → Keeps P (if test then positive else negative)
  Keeps-if false positive negative _ otherwise = otherwise refl
  Keeps-if true positive negative passed _ = passed refl

module _ {S E F A : Type 0} {P : S → Type 0} where
  pub Keeps-map_err : (f : E → F) (m : Exec S E A) → Keeps P m → Keeps P (map_err f m)
  unfolding map_err
  Keeps-map_err f m k = record { at = k.at }

module _ {S E A B : Type 0} (P : S → Type 0) where
  -- What comes behind may use the state in which the first part returned.
  pub Keeps-bind_at :
      (m : Exec S E A) (f : A → Exec S E B) (s : S)
      → P (m s).1
      → ((a : A) → (m s).0 ≡ ok a → P (f a (m s).1).1)
      → P ((m >>= f) s).1
  Keeps-bind_at m f s h k = bind-cases (λ x. P x.1) m f s (λ e _. h) k

module _ {S E A B : Type 0} {P : S → Type 0} where
  pub Keeps-bind :
      (m : Exec S E A) (f : A → Exec S E B)
      → Keeps P m
      → ((a : A) → Keeps P (f a))
      → Keeps P (m >>= f)
  Keeps-bind m f km kf = record {
    at = λ s h. Keeps-bind_at P m f s (km.at s h) (λ a _. (kf a).at (m s).1 (km.at s h));
  }

pub ruleset keeps_rules = (
  Keeps-pure, Keeps-raise, Keeps-gets, Keeps-from_option, Keeps-attempt, Keeps-if, Keeps-map_err,
  Keeps-bind,
)
