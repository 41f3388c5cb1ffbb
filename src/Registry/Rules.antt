-- ===== src/Registry/Rules.antt =====
-- The rules of the database and of the storage, for operations of the registry.
use distribution_rs.Prelude.{Result, ok, err}
use distribution_rs.Error.{storage, RegistryError, oci, detailed, manifest_unknown, types_error}
use distribution_rs.Exec.{pure, raise}
use distribution_rs.Exec.Ensures.{Ensures, Ensures-map_err}
use distribution_rs.Exec.Keeps.{Keeps, Keeps-pure, Keeps-raise}
use distribution_rs.Database.{Tables, Sql}
use distribution_rs.Database.Rules.{OnTables}
use distribution_rs.Registry.{World, on_db, on_storage}
use distribution_rs.Storage.Files.{Fs}
use distribution_rs.Types.Digest.{Digest}
use distribution_rs.Types.Error.{TypesError}
use distribution_rs.Storage.Filesystem.{Store}

-- A property of the tables, of a world.
pub record InDb (P : Tables → Type 0) (w : World) : Type 0 where
  pub db_at : P w.db.tables

-- A property of the files, of a world.
pub record InFs (P : Fs → Type 0) (w : World) : Type 0 where
  pub fs_at : P w.fs

module _ {A : Type 0} {P : Tables → Type 0} where
  pub InDb-on_db : (m : Sql A) → Keeps (OnTables P) m → Keeps (InDb P) (on_db m)
  unfolding on_db
  InDb-on_db m k = record {
    at = λ w h. record { db_at = (k.at w.db (record { tables_at = h.db_at })).tables_at };
  }

  pub InDb-on_storage : (m : Store A) → Keeps (InDb P) (on_storage m)
  unfolding on_storage
  InDb-on_storage m = record { at = λ w h. record { db_at = h.db_at } }

module _ {A : Type 0} {P : Fs → Type 0} where
  pub InFs-on_db : (m : Sql A) → Keeps (InFs P) (on_db m)
  unfolding on_db
  InFs-on_db m = record { at = λ w h. record { fs_at = h.fs_at } }

  pub InFs-on_storage : (m : Store A) → Keeps P m → Keeps (InFs P) (on_storage m)
  unfolding on_storage
  InFs-on_storage m k = record { at = λ w h. record { fs_at = k.at w.fs h.fs_at } }

module _ {A : Type 0} {P : Tables → Type 0} {Q : A → Tables → Type 0} where
  pub Ensures-on_db :
      {m : Sql A}
      → Ensures (OnTables P) m (λ a. OnTables (Q a))
      → Ensures (InDb P) (on_db m) (λ a. InDb (Q a))
  unfolding on_db
  Ensures-on_db k = record {
    at = λ w h a e. record { db_at = (k.at w.db (record { tables_at = h.db_at }) a e).tables_at };
  }

module _ {A : Type 0} {P : Fs → Type 0} {Q : A → Fs → Type 0} where
  pub Ensures-on_storage :
      {m : Store A} → Ensures P m Q → Ensures (InFs P) (on_storage m) (λ a. InFs (Q a))
  unfolding on_storage
  Ensures-on_storage k = record {
    at = λ w h a e. record { fs_at = (Ensures-map_err storage k).at w.fs h.fs_at a e };
  }

-- The digest of a tag's row, or an error.
pub Keeps-parsed :
    {P : World → Type 0} (r : Result TypesError Digest)
    → Keeps {E = RegistryError} P
        (elim r [ ok d ↦ pure d | err e ↦ raise (oci (detailed manifest_unknown (types_error e))) ])
Keeps-parsed (ok d) = Keeps-pure d
Keeps-parsed (err e) = Keeps-raise _

-- A property of the tables and one of the files.
pub record Both (P : Tables → Type 0) (Q : Fs → Type 0) (w : World) : Type 0 where
  pub tables_kept : OnTables P w.db
  pub files_kept : Q w.fs

module _ {A : Type 0} {P : Tables → Type 0} {Q : Fs → Type 0} where
  pub Both-on_db : (m : Sql A) → Keeps (OnTables P) m → Keeps (Both P Q) (on_db m)
  unfolding on_db
  Both-on_db m k = record {
    at = λ w h. record { tables_kept = k.at w.db h.tables_kept; files_kept = h.files_kept };
  }

  pub Both-on_storage : (m : Store A) → Keeps Q m → Keeps (Both P Q) (on_storage m)
  unfolding on_storage
  Both-on_storage m k = record {
    at = λ w h. record { tables_kept = h.tables_kept; files_kept = k.at w.fs h.files_kept };
  }

module _ {A : Type 0} {P : Tables → Type 0} {P' : A → Tables → Type 0} {Q : Fs → Type 0} where
  pub Ensures-Both-on_db :
      {m : Sql A}
      → Ensures (OnTables P) m (λ a. OnTables (P' a))
      → Ensures (Both P Q) (on_db m) (λ a. Both (P' a) Q)
  unfolding on_db
  Ensures-Both-on_db k = record {
    at = λ w h a e. record { tables_kept = k.at w.db h.tables_kept a e; files_kept = h.files_kept };
  }

module _ {A : Type 0} {P : Tables → Type 0} {Q : Fs → Type 0} {Q' : A → Fs → Type 0} where
  pub Ensures-Both-on_storage :
      {m : Store A} → Ensures Q m Q' → Ensures (Both P Q) (on_storage m) (λ a. Both P (Q' a))
  unfolding on_storage
  Ensures-Both-on_storage k = record {
    at = λ w h a e. record {
      tables_kept = h.tables_kept;
      files_kept = (Ensures-map_err storage k).at w.fs h.files_kept a e;
    };
  }
