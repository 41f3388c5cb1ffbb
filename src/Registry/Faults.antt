-- ===== src/Registry/Faults.antt =====
-- Operations of the registry in a world where no statement fails.
use mathlib.Core.Option
use distribution_rs.Prelude.{
  Bool, Option, some, List, [], ◌∷◌, ◌≡◌, refl, ap, ◌∙◌, ◌⊎◌, inl, ok, err,
}
use distribution_rs.Error.{RegistryError}
use distribution_rs.Exec.{from_option, attempt}
use distribution_rs.Exec.Reaches.{Reaches, Reaches-Ensures, Reaches-from_option}
use distribution_rs.Database.{Tables, select, execute, next_fault}
use distribution_rs.Database.Rules.{Ensures-select}
use distribution_rs.Registry.{World, Reg, on_db, on_storage}
use distribution_rs.Registry.Rules.{Both, Ensures-Both-on_db}
use distribution_rs.Storage.Files.{Fs}
use distribution_rs.Storage.Filesystem.{Store}

-- No error.
abbrev pub Never : RegistryError → Type 0
Never e = ⊥

-- No statement fails.
abbrev pub Healthy : World → Type 0
Healthy w = w.db.faults ≡ []

-- `m` returns, from a database in which no statement fails.
abbrev pub Total : {A : Type 0} → Reg A → Type 0
Total {A} m = Reaches {S = World} {E = RegistryError} {A = A} Never Healthy m (λ _. Healthy)

module _ {A : Type 0} where
  pub Total-select : (f : Tables → A) → Total (on_db (select f))
  unfolding on_db select next_fault
  Total-select f = record { at = λ w h. go w.db.faults w.db.tables w.fs h }
    where
      go :
          (fs : List Bool) (t : Tables) (files : Fs)
          → fs ≡ []
          → let w : World = record { db = record { tables = t; faults = fs }; fs = files } in
            ((a : A) × ((on_db (select f) w).0 ≡ ok a) × Healthy (on_db (select f) w).1)
            ⊎ ((e : RegistryError) × ((on_db (select f) w).0 ≡ err e) × ⊥)
      go [] t files h = inl (f t, refl, refl)
      go (x ∷ fs) t files h = cc

  pub Total-execute :
      (change : Tables → Tables) (report : Tables → A) → Total (on_db (execute change report))
  unfolding on_db execute next_fault
  Total-execute change report = record { at = λ w h. go w.db.faults w.db.tables w.fs h }
    where
      go :
          (fs : List Bool) (t : Tables) (files : Fs)
          → fs ≡ []
          → let w : World = record { db = record { tables = t; faults = fs }; fs = files } in
            ((a : A) × ((on_db (execute change report) w).0 ≡ ok a)
              × Healthy (on_db (execute change report) w).1)
            ⊎ ((e : RegistryError) × ((on_db (execute change report) w).0 ≡ err e) × ⊥)
      go [] t files h = inl (report t, refl, refl)
      go (x ∷ fs) t files h = cc

  pub Total-attempt : (m : Store A) → Total (attempt (on_storage m))
  unfolding attempt on_storage
  Total-attempt m = record { at = λ w h. inl (_, refl, h) }

-- What is known of the tables and of the files, where no statement fails.
abbrev pub Ready : (Tables → Type 0) → (Fs → Type 0) → World → Type 0
Ready P Q w = Both P Q w × Healthy w

module _ {A : Type 0} where
  module _ {P : Tables → Type 0} {Q : Fs → Type 0} where
    pub Reaches-query :
        (f : Tables → A)
        → Reaches Never (Ready P Q) (on_db (select f)) (λ a. Ready (λ t. P t × (a ≡ f t)) Q)
    Reaches-query f =
        Reaches-Ensures (Ensures-Both-on_db (Ensures-select f λ t h. (h, refl))) (Total-select f)

    -- A row that is there, with what is known of it.
    pub Reaches-row :
        {B : Type 0} (read_ : A → B) (o : Option A) (f : Tables → Option A) (e : RegistryError)
        (R : B → Type 0)
        → ((t : Tables) → P t → (a : A) × (f t ≡ some a) × R (read_ a))
        → Reaches Never
            (Ready (λ t. P t × (o ≡ f t)) Q)
            (from_option (Option.map read_ o) e)
            (λ b w. R b × Ready P Q w)
    Reaches-row read_ o f e R k = Reaches-from_option _ _ λ w (h, calm).
        let (p, looked) = h.tables_kept.tables_at in
        let (a, there_, r) = k w.db.tables p in
        (
          read_ a,
          ap (Option.map read_) (looked ∙ there_),
          (r, (record { tables_kept = record { tables_at = p }; files_kept = h.files_kept }, calm)),
        )

    pub Reaches-found :
        (o : Option A) (f : Tables → Option A) (e : RegistryError) (R : A → Type 0)
        → ((t : Tables) → P t → (a : A) × (f t ≡ some a) × R a)
        → Reaches Never
            (Ready (λ t. P t × (o ≡ f t)) Q)
            (from_option o e)
            (λ a w. R a × Ready P Q w)
    Reaches-found o f e R k = Reaches-from_option _ _ λ w (h, calm).
        let (p, looked) = h.tables_kept.tables_at in
        let (a, there_, r) = k w.db.tables p in
        (
          a,
          looked ∙ there_,
          (r, (record { tables_kept = record { tables_at = p }; files_kept = h.files_kept }, calm)),
        )
