-- ===== src/Database/Migrations.antt =====
-- src/migration: the migrations as the statements that they send, in order. The first that fails
-- ends the migration.
pub mod Keys
use distribution_rs.Prelude.{true, false, none, some, List, [], ◌∷◌}
use distribution_rs.Database.Schema.{
  TableName, repositories, repo_blob_links, manifests, tags, upload_sessions, referrers, tenants,
  gc_jobs, Column, id, tenant_id, name, repo_id, digest, size, media_type, updated_at,
  last_pulled_at, pull_count, offset, created_at, subject_digest, referrer_digest, artifact_type,
  annotations, status, started_at, completed_at, stats, integer, big_integer, text, quoted, number,
  ColumnDef, required, optional, defaulting, identifying, ForeignKey, cascade, TableDef,
  UniqueIndex, Statement, create_table, create_index, add_column, drop_table, execute_unprepared,
}

-- `.foreign_key(…)` of the tables that belong to a repository
abbrev pub of_repository : ForeignKey
of_repository = record {
  from_column = repo_id;
  to_table = repositories;
  to_column = id;
  on_delete = cascade;
}

abbrev pub repositories_table : TableDef
repositories_table = record {
  table = repositories;
  columns =
      record (identifying id integer) { auto_increment = true }
      ∷ defaulting tenant_id text (quoted "_default")
      ∷ required name text
      ∷ [];
  composite_key = [];
  foreign_keys = [];
}

abbrev pub repositories_index : UniqueIndex
repositories_index = record {
  index_name = "idx_repositories_tenant_name";
  on_table = repositories;
  index_columns = tenant_id ∷ name ∷ [];
}

abbrev pub repo_blob_links_table : TableDef
repo_blob_links_table = record {
  table = repo_blob_links;
  columns = required repo_id integer ∷ required digest text ∷ required size big_integer ∷ [];
  composite_key = repo_id ∷ digest ∷ [];
  foreign_keys = of_repository ∷ [];
}

abbrev pub manifests_table : TableDef
manifests_table = record {
  table = manifests;
  columns =
      required repo_id integer
      ∷ required digest text
      ∷ required media_type text
      ∷ required size big_integer
      ∷ [];
  composite_key = repo_id ∷ digest ∷ [];
  foreign_keys = of_repository ∷ [];
}

abbrev pub tags_table : TableDef
tags_table = record {
  table = tags;
  columns =
      required repo_id integer
      ∷ required name text
      ∷ required digest text
      ∷ required updated_at text
      ∷ optional last_pulled_at text
      ∷ defaulting pull_count integer (number 0)
      ∷ [];
  composite_key = repo_id ∷ name ∷ [];
  foreign_keys = of_repository ∷ [];
}

abbrev pub upload_sessions_table : TableDef
upload_sessions_table = record {
  table = upload_sessions;
  columns =
      identifying id text
      ∷ required repo_id integer
      ∷ defaulting offset big_integer (number 0)
      ∷ required created_at text
      ∷ required updated_at text
      ∷ [];
  composite_key = [];
  foreign_keys = of_repository ∷ [];
}

abbrev pub referrers_table : TableDef
referrers_table = record {
  table = referrers;
  columns =
      required repo_id integer
      ∷ required subject_digest text
      ∷ required referrer_digest text
      ∷ optional artifact_type text
      ∷ [];
  composite_key = repo_id ∷ subject_digest ∷ referrer_digest ∷ [];
  foreign_keys = of_repository ∷ [];
}

abbrev pub tenants_table : TableDef
tenants_table = record {
  table = tenants;
  columns =
      identifying id text
      ∷ required name text
      ∷ defaulting status text (quoted "active")
      ∷ required created_at text
      ∷ [];
  composite_key = [];
  foreign_keys = [];
}

abbrev pub gc_jobs_table : TableDef
gc_jobs_table = record {
  table = gc_jobs;
  columns =
      identifying id text
      ∷ defaulting status text (quoted "pending")
      ∷ optional started_at text
      ∷ optional completed_at text
      ∷ optional stats text
      ∷ required created_at text
      ∷ [];
  composite_key = [];
  foreign_keys = [];
}

-- m20250305_000001_init.rs
abbrev pub init_up : List Statement
init_up =
    create_table repositories_table
    ∷ create_index repositories_index
    ∷ create_table repo_blob_links_table
    ∷ create_table manifests_table
    ∷ create_table tags_table
    ∷ create_table upload_sessions_table
    ∷ create_table referrers_table
    ∷ []

abbrev pub init_down : List Statement
init_down =
    drop_table referrers
    ∷ drop_table upload_sessions
    ∷ drop_table tags
    ∷ drop_table manifests
    ∷ drop_table repo_blob_links
    ∷ drop_table repositories
    ∷ []

-- m20250305_000002_add_tenants.rs
abbrev pub add_tenants_up : List Statement
add_tenants_up =
    create_table tenants_table
    ∷ execute_unprepared
        "INSERT INTO tenants (id, name, status, created_at) VALUES ('_default', 'Default', 'active', '2025-03-05T00:00:00Z')"
    ∷ []

abbrev pub add_tenants_down : List Statement
add_tenants_down = drop_table tenants ∷ []

-- m20250306_000001_extend_referrers.rs; its `down` does nothing
abbrev pub extend_referrers_up : List Statement
extend_referrers_up =
    add_column referrers (defaulting media_type text (quoted ""))
    ∷ add_column referrers (defaulting size big_integer (number 0))
    ∷ add_column referrers (optional annotations text)
    ∷ []

abbrev pub extend_referrers_down : List Statement
extend_referrers_down = []

-- m20250306_000002_add_gc_jobs.rs
abbrev pub add_gc_jobs_up : List Statement
add_gc_jobs_up = create_table gc_jobs_table ∷ []

abbrev pub add_gc_jobs_down : List Statement
add_gc_jobs_down = drop_table gc_jobs ∷ []

-- `Migrator::migrations`, each with its `up` and its `down`
abbrev pub migrations : List (List Statement × List Statement)
migrations =
    (init_up, init_down)
    ∷ (add_tenants_up, add_tenants_down)
    ∷ (extend_referrers_up, extend_referrers_down)
    ∷ (add_gc_jobs_up, add_gc_jobs_down)
    ∷ []
