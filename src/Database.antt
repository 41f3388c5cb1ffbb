-- ===== src/Database.antt =====
-- The tables (src/entity) and the statements that the registry sends to them. The database is not
-- part of the repository: its operations are a parameter with the documented effect of each
-- statement, and `faults` says which of the coming statements fail.
pub mod Engine
pub mod Rules
pub mod Schema
pub mod Migrations
use distribution_rs.Prelude.{
  ℕ, Bool, true, false, Option, none, some, List, [], ◌∷◌, Result, ok, err,
}
use distribution_rs.Prelude.Text.{Text}
use distribution_rs.Error.{DbErr, db_err, RegistryError, database}
use distribution_rs.Exec.{Exec, raise, ◌>>=◌}

-- src/entity/repository.rs
pub record Repository : Type 0 where
  pub id : ℕ
  pub tenant_id : Text
  pub name : Text

-- src/entity/repo_blob_link.rs; a column of type `i64` holds the bits of its number.
pub record RepoBlobLink : Type 0 where
  pub repo_id : ℕ
  pub digest : Text
  pub size : ℕ

-- src/entity/manifest.rs
pub record Manifest : Type 0 where
  pub repo_id : ℕ
  pub digest : Text
  pub media_type : Text
  pub size : ℕ

-- src/entity/tag.rs
pub record Tag : Type 0 where
  pub repo_id : ℕ
  pub name : Text
  pub digest : Text
  pub updated_at : Text
  pub last_pulled_at : Option Text
  pub pull_count : ℕ

-- src/entity/upload_session.rs
pub record UploadSession : Type 0 where
  pub id : Text
  pub repo_id : ℕ
  pub offset : ℕ
  pub created_at : Text
  pub updated_at : Text

-- src/entity/referrer.rs
pub record Referrer : Type 0 where
  pub repo_id : ℕ
  pub subject_digest : Text
  pub referrer_digest : Text
  pub artifact_type : Option Text
  pub media_type : Text
  pub size : ℕ
  pub annotations : Option Text

-- The texts of the status column.
pub data GcStatus : Type 0 where
  pending running completed failed : GcStatus

-- src/entity/gc_job.rs; `stats` keeps the one count that is not always zero.
pub record GcJob : Type 0 where
  pub id : Text
  pub status : GcStatus
  pub started_at : Option Text
  pub completed_at : Option Text
  pub stats : Option ℕ
  pub created_at : Text

pub record Tables : Type 0 where
  pub repositories : List Repository
  pub links : List RepoBlobLink
  pub manifests : List Manifest
  pub tags : List Tag
  pub uploads : List UploadSession
  pub referrers : List Referrer
  pub gc_jobs : List GcJob

pub record Db : Type 0 where
  pub tables : Tables
  pub faults : List Bool

abbrev pub Sql : Type 0 → Type 0
Sql A = Exec Db RegistryError A

-- Whether the next statement fails.
unfoldable pub next_fault : Db → Bool × Db
next_fault db = elim db.faults [ [] ↦ (false, db) | f ∷ rest ↦ (f, record db { faults = rest }) ]

abbrev pub checked : Db → Option Tables → Result {0, 0} RegistryError (Unit {0}) × Db
checked db none = (err (database db_err), db)
checked db (some t) = (ok tt, record db { tables = t })

module _ {A : Type 0} where
  -- A query: the tables stay as they are.
  unfoldable pub select : (Tables → A) → Sql A
  unfolding next_fault
  select f db =
      let (fault, db') = next_fault db in
      elim fault [ true ↦ (err (database db_err), db') | false ↦ (ok (f db'.tables), db') ]

  -- A statement that changes the tables, with what it reports.
  unfoldable pub execute : (Tables → Tables) → (Tables → A) → Sql A
  unfolding next_fault
  execute change report db =
      let (fault, db') = next_fault db in
      elim fault [
        | true ↦ (err (database db_err), db')
        | false ↦ (ok (report db'.tables), record db' { tables = change db'.tables })
      ]

  -- What the body of a transaction has done is kept if the body returns and the commit succeeds;
  -- else the transaction is dropped, which rolls it back.
  abbrev pub closed : Tables → Result RegistryError A → Db → Result RegistryError A × Db
  closed before (err e) db = (err e, record db { tables = before })
  closed before (ok a) db =
      let (fault, db') = next_fault db in
      elim fault [
        | true ↦ (err (database db_err), record db' { tables = before })
        | false ↦ (ok a, db')
      ]

  unfoldable pub transaction : Sql A → Sql A
  unfolding next_fault
  transaction body db =
      let (fault, db') = next_fault db in
      elim fault [
        | true ↦ (err (database db_err), db')
        | false ↦ let (r, db'') = body db' in closed db'.tables r db''
      ]

-- A statement that a constraint may refuse: `none` is the refusal.
unfoldable pub execute_checked : (Tables → Option Tables) → Sql Unit
unfolding next_fault
execute_checked change db =
    let (fault, db') = next_fault db in
    elim fault [ true ↦ (err (database db_err), db') | false ↦ checked db' (change db'.tables) ]

-- `DatabaseTransaction::rollback`, in a body that then fails
unfoldable pub rollback : Sql Unit
unfolding select
rollback = select (λ _. tt)
