-- ===== src/Database/Rules.antt =====
-- What statements keep of the tables, and what holds where they return.
use distribution_rs.Prelude.{
  Bool, true, false, Option, none, some, List, [], ◌∷◌, ◌≡◌, refl, subst, arith, Result, ok, err,
}
use distribution_rs.Error.{RegistryError}
use distribution_rs.Exec.Ensures.{Ensures}
use distribution_rs.Exec.Keeps.{Keeps}
use distribution_rs.Database.{
  Tables, Db, Sql, next_fault, select, execute, execute_checked, checked, closed, transaction,
  rollback,
}

-- A property of the tables.
pub record OnTables (P : Tables → Type 0) (db : Db) : Type 0 where
  pub tables_at : P db.tables

next_fault-tables : (db : Db) → (next_fault db).1.tables ≡ db.tables
unfolding next_fault
next_fault-tables db = ground arith

module _ {A : Type 0} {P : Tables → Type 0} where
  pub OnTables-select : (f : Tables → A) → Keeps (OnTables P) (select f)
  unfolding select
  OnTables-select f = record { at = λ db h. go db.faults db.tables h.tables_at }
    where
      go :
          (fs : List Bool) (t : Tables)
          → P t
          → OnTables P (select f (record { tables = t; faults = fs })).1
      go [] t h = record { tables_at = h }
      go (true ∷ fs) t h = record { tables_at = h }
      go (false ∷ fs) t h = record { tables_at = h }

  pub OnTables-execute :
      (change : Tables → Tables) (report : Tables → A)
      → ((t : Tables) → P t → P (change t))
      → Keeps (OnTables P) (execute change report)
  unfolding execute
  OnTables-execute change report k = record { at = λ db h. go db.faults db.tables h.tables_at }
    where
      go :
          (fs : List Bool) (t : Tables)
          → P t
          → OnTables P (execute change report (record { tables = t; faults = fs })).1
      go [] t h = record { tables_at = k t h }
      go (true ∷ fs) t h = record { tables_at = h }
      go (false ∷ fs) t h = record { tables_at = k t h }

  pub OnTables-transaction : (m : Sql A) → Keeps (OnTables P) m → Keeps (OnTables P) (transaction m)
  unfolding transaction
  OnTables-transaction m k = record { at = λ db h. go db.faults db.tables h.tables_at }
    where
      ended :
          (t : Tables) (r : Result RegistryError A) (db : Db)
          → P t
          → P db.tables
          → OnTables P (closed t r db).1
      ended t (err e) db h h' = record { tables_at = h }
      ended t (ok a) db h h' = go' db.faults db.tables h'
        where
          go' :
              (fs : List Bool) (t' : Tables)
              → P t'
              → OnTables P (closed t (ok a) (record { tables = t'; faults = fs })).1
          go' [] t' h' = record { tables_at = h' }
          go' (true ∷ fs) t' h' = record { tables_at = h }
          go' (false ∷ fs) t' h' = record { tables_at = h' }

      begun :
          (t : Tables) (db : Db)
          → P t
          → P db.tables
          → OnTables P (let (r, db'') = m db in closed t r db'').1
      begun t db h h' = ended t (m db).0 (m db).1 h (k.at db (record { tables_at = h' })).tables_at

      go :
          (fs : List Bool) (t : Tables)
          → P t
          → OnTables P (transaction m (record { tables = t; faults = fs })).1
      go [] t h = begun t (record { tables = t; faults = [] }) h h
      go (true ∷ fs) t h = record { tables_at = h }
      go (false ∷ fs) t h = begun t (record { tables = t; faults = fs }) h h

pub OnTables-execute_checked :
    {P : Tables → Type 0} (change : Tables → Option Tables)
    → ((t t' : Tables) → P t → change t ≡ some t' → P t')
    → Keeps (OnTables P) (execute_checked change)
unfolding execute_checked
OnTables-execute_checked {P} change k = record { at = λ db h. go db.faults db.tables h.tables_at }
  where
    ended :
        (fs : List Bool) (t : Tables) (o : Option Tables)
        → change t ≡ o
        → P t
        → OnTables P (checked (record { tables = t; faults = fs }) o).1
    ended fs t none e h = record { tables_at = h }
    ended fs t (some t') e h = record { tables_at = k t t' h e }

    go :
        (fs : List Bool) (t : Tables)
        → P t
        → OnTables P (execute_checked change (record { tables = t; faults = fs })).1
    go [] t h = ended [] t (change t) refl h
    go (true ∷ fs) t h = record { tables_at = h }
    go (false ∷ fs) t h = ended fs t (change t) refl h

pub OnTables-rollback : {P : Tables → Type 0} → Keeps (OnTables P) rollback
unfolding rollback
OnTables-rollback = OnTables-select (λ _. tt)

ok-injective :
    {A : Type 0} {a b : A} → ◌≡◌ {A = Result {0, 0} RegistryError A} (ok a) (ok b) → a ≡ b
ok-injective h = cc

module _ {A : Type 0} {P : Tables → Type 0} {Q : A → Tables → Type 0} where
  pub Ensures-select :
      (f : Tables → A)
      → ((t : Tables) → P t → Q (f t) t)
      → Ensures (OnTables P) (select f) (λ a. OnTables (Q a))
  unfolding select
  Ensures-select f k = record { at = λ db h. go db.faults db.tables h.tables_at }
    where
      go :
          (fs : List Bool) (t : Tables)
          → P t
          → (a : A) → (select f (record { tables = t; faults = fs })).0 ≡ ok a
          → OnTables (Q a) (select f (record { tables = t; faults = fs })).1
      go [] t h a e = record { tables_at = subst (λ x. Q x t) (ok-injective e) (k t h) }
      go (true ∷ fs) t h a e = cc
      go (false ∷ fs) t h a e = record { tables_at = subst (λ x. Q x t) (ok-injective e) (k t h) }

  pub Ensures-execute :
      (change : Tables → Tables) (report : Tables → A)
      → ((t : Tables) → P t → Q (report t) (change t))
      → Ensures (OnTables P) (execute change report) (λ a. OnTables (Q a))
  unfolding execute
  Ensures-execute change report k = record { at = λ db h. go db.faults db.tables h.tables_at }
    where
      go :
          (fs : List Bool) (t : Tables)
          → P t
          → (a : A) → (execute change report (record { tables = t; faults = fs })).0 ≡ ok a
          → OnTables (Q a) (execute change report (record { tables = t; faults = fs })).1
      go [] t h a e = record { tables_at = subst (λ x. Q x (change t)) (ok-injective e) (k t h) }
      go (true ∷ fs) t h a e = cc
      go (false ∷ fs) t h a e = record {
        tables_at = subst (λ x. Q x (change t)) (ok-injective e) (k t h);
      }

  -- A transaction that returns has done what its body does.
  pub Ensures-transaction :
      (m : Sql A)
      → Ensures (OnTables P) m (λ a. OnTables (Q a))
      → Ensures (OnTables P) (transaction m) (λ a. OnTables (Q a))
  unfolding transaction
  Ensures-transaction m k = record { at = λ db h. go db.faults db.tables h.tables_at }
    where
      kept :
          (t : Tables) (b : A) (fs : List Bool) (t' : Tables)
          → Q b t'
          → (a : A) → (closed t (ok b) (record { tables = t'; faults = fs })).0 ≡ ok a
          → OnTables (Q a) (closed t (ok b) (record { tables = t'; faults = fs })).1
      kept t b [] t' q a e = record { tables_at = subst (λ x. Q x t') (ok-injective e) q }
      kept t b (true ∷ fs) t' q a e = cc
      kept t b (false ∷ fs) t' q a e = record { tables_at = subst (λ x. Q x t') (ok-injective e) q }

      ended :
          (t : Tables) (r : Result RegistryError A) (db : Db)
          → ((b : A) → r ≡ ok b → OnTables (Q b) db)
          → (a : A) → (closed t r db).0 ≡ ok a
          → OnTables (Q a) (closed t r db).1
      ended t (err x) db q a e = cc
      ended t (ok b) db q a e = kept t b db.faults db.tables (q b refl).tables_at a e

      go :
          (fs : List Bool) (t : Tables)
          → P t
          → (a : A) → (transaction m (record { tables = t; faults = fs })).0 ≡ ok a
          → OnTables (Q a) (transaction m (record { tables = t; faults = fs })).1
      go [] t h a e =
          let db : Db = record { tables = t; faults = [] } in
          ended t (m db).0 (m db).1 (λ b r. k.at db (record { tables_at = h }) b r) a e
      go (true ∷ fs) t h a e = cc
      go (false ∷ fs) t h a e =
          let db : Db = record { tables = t; faults = fs } in
          ended t (m db).0 (m db).1 (λ b r. k.at db (record { tables_at = h }) b r) a e
