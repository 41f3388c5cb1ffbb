-- ===== src/Database/Engine.antt =====
-- The database engine as an interface: what `sea_orm` and SQLite document of the statements that
-- the registry builds. A table is the list of its rows, read as a set.
use distribution_rs.Prelude.{
  ℕ, Bool, true, false, Option, none, some, List, ◌≡◌, ◌↔◌, ◌⊎◌, In, map, filter_by, NoDup, Strict,
  Ascending,
}
use distribution_rs.Prelude.Text.{Text}

-- The rows of a table behind `INSERT … ON CONFLICT (key) DO UPDATE`: `same new` tests for the key.
abbrev pub Upserted :
    {Row : Type 0} → (Row → Row → Bool) → (Row → Row → Row) → Row → List Row → Row → Type 0
Upserted {Row} same update new t r =
    (In r t × (same new r ≡ false))
    ⊎ ((s : Row) × In s t × (same new s ≡ true) × (r ≡ update new s))
    ⊎ (((s : Row) → In s t → same new s ≡ false) × (r ≡ new))

-- The rows behind `UPDATE … SET … WHERE p`.
abbrev pub Updated : {Row : Type 0} → (Row → Bool) → (Row → Row) → List Row → Row → Type 0
Updated {Row} p set t r =
    (In r t × (p r ≡ false)) ⊎ ((s : Row) × In s t × (p s ≡ true) × (r ≡ set s))

pub record TableOps (Row : Type 0) : Type 0 where
  -- SELECT … WHERE p LIMIT 1
  pub one : (Row → Bool) → List Row → Option Row
  pub one_sound :
      (p : Row → Bool) (t : List Row) (r : Row) → one p t ≡ some r → In r t × (p r ≡ true)
  pub one_complete :
      (p : Row → Bool) (t : List Row) → one p t ≡ none → (r : Row) → In r t → p r ≡ false
  -- SELECT … WHERE p
  pub all : (Row → Bool) → List Row → List Row
  pub all_iff : (p : Row → Bool) (t : List Row) (r : Row) → In r (all p t) ↔ (In r t × (p r ≡ true))
  -- DELETE … WHERE p, and `rows_affected`
  pub delete : (Row → Bool) → List Row → List Row
  pub delete_iff :
      (p : Row → Bool) (t : List Row) (r : Row) → In r (delete p t) ↔ (In r t × (p r ≡ false))
  pub affected : (Row → Bool) → List Row → ℕ
  pub affected_iff :
      (p : Row → Bool) (t : List Row) → (affected p t ≡ 0) ↔ ((r : Row) → In r t → p r ≡ false)
  -- UPDATE … SET … WHERE p
  pub update : (Row → Bool) → (Row → Row) → List Row → List Row
  pub update_iff :
      (p : Row → Bool) (set : Row → Row) (t : List Row) (r : Row)
      → In r (update p set t) ↔ Updated p set t r
  -- INSERT … ON CONFLICT
  pub upsert : (Row → Row → Bool) → (Row → Row → Row) → Row → List Row → List Row
  pub upsert_iff :
      (same : Row → Row → Bool) (set : Row → Row → Row) (new : Row) (t : List Row) (r : Row)
      → In r (upsert same set new t) ↔ Upserted same set new t r
  -- SELECT … WHERE p ORDER BY key ASC
  pub ordered : (Row → Text) → (Row → Bool) → List Row → List Row
  pub ordered_iff :
      (key : Row → Text) (p : Row → Bool) (t : List Row) (r : Row)
      → In r (ordered key p t) ↔ (In r t × (p r ≡ true))

pub record Engine : Type 1 where
  pub table : (Row : Type 0) → TableOps Row
  -- The value of an AUTOINCREMENT key, from those in use.
  pub next_id : List ℕ → ℕ
  pub next_id_fresh : (ids : List ℕ) → ¬ In (next_id ids) ids
  -- The order of texts, as `>` and ORDER BY use it.
  pub before : Text → Text → Bool
  pub before-Strict : Strict before
  -- ORDER BY sorts: rows with different keys stand in ascending order.
  pub ordered-Ascending :
      {Row : Type 0} (key : Row → Text) (p : Row → Bool) (t : List Row)
      → NoDup (map key (filter_by p t))
      → Ascending before (map key ((table Row).ordered key p t))
