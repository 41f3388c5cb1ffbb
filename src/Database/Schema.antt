-- ===== src/Database/Schema.antt =====
-- The statements of src/migration as data: what `sea_orm_migration` is told to create.
use Prim.Native.String.{String}
use distribution_rs.Prelude.{ℕ, Bool, true, false, Option, none, some, List, [], ◌∷◌, if◌then◌else◌}

-- The tables and the columns, by the identifiers of the enumerations in src/migration.
pub data TableName : Type 0 where
  repositories repo_blob_links manifests tags upload_sessions referrers tenants gc_jobs : TableName

pub data Column : Type 0 where
  id tenant_id name repo_id digest size media_type updated_at last_pulled_at pull_count : Column
  offset created_at subject_digest referrer_digest artifact_type annotations : Column
  status started_at completed_at stats : Column

pub data ColumnType : Type 0 where
  integer big_integer text : ColumnType

pub data DefaultValue : Type 0 where
  quoted : String → DefaultValue
  number : ℕ → DefaultValue

-- `ColumnDef`
pub record ColumnDef : Type 0 where
  pub column : Column
  pub column_type : ColumnType
  pub not_null : Bool
  pub auto_increment : Bool
  pub primary_key : Bool
  pub default : Option DefaultValue

-- A column that is not null, and one that may be.
abbrev pub required : Column → ColumnType → ColumnDef
required c ty = record {
  column = c;
  column_type = ty;
  not_null = true;
  auto_increment = false;
  primary_key = false;
  default = none;
}

abbrev pub optional : Column → ColumnType → ColumnDef
optional c ty = record (required c ty) { not_null = false }

abbrev pub defaulting : Column → ColumnType → DefaultValue → ColumnDef
defaulting c ty v = record (required c ty) { default = some v }

-- A column that is the primary key by itself.
abbrev pub identifying : Column → ColumnType → ColumnDef
identifying c ty = record (required c ty) { primary_key = true }

pub data ForeignKeyAction : Type 0 where
  cascade : ForeignKeyAction

pub record ForeignKey : Type 0 where
  pub from_column : Column
  pub to_table : TableName
  pub to_column : Column
  pub on_delete : ForeignKeyAction

-- `Table::create().if_not_exists()`; the composite primary key is empty where a column is the key.
pub record TableDef : Type 0 where
  pub table : TableName
  pub columns : List ColumnDef
  pub composite_key : List Column
  pub foreign_keys : List ForeignKey

-- `Index::create().unique()`
pub record UniqueIndex : Type 0 where
  pub index_name : String
  pub on_table : TableName
  pub index_columns : List Column

pub data Statement : Type 0 where
  create_table : TableDef → Statement
  create_index : UniqueIndex → Statement
  add_column : TableName → ColumnDef → Statement
  drop_table : TableName → Statement
  execute_unprepared : String → Statement

abbrev pub identifying_columns : List ColumnDef → List Column
identifying_columns [] = []
identifying_columns (c ∷ cs) =
    let rest = identifying_columns cs in if c.primary_key then c.column ∷ rest else rest

-- The primary key of a table.
abbrev pub key_of : TableDef → List Column
key_of t = elim t.composite_key [ [] ↦ identifying_columns t.columns | c ∷ cs ↦ c ∷ cs ]
