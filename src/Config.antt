-- ===== src/Config.antt =====
-- src/config.rs: the configuration, with a default for what the file leaves out.
pub mod Unset
use distribution_rs.Prelude.{
  ℕ, Bool, true, false, Option, none, some, List, [], ◌∷◌, Result, ok, err, if◌then◌else◌,
}
use distribution_rs.Prelude.Text.{Text, codes, text_eq}
use distribution_rs.Auth.{AuthConfig}

-- `ServerConfig`; the port is a `u16`, and the timeout a `u64`.
pub record ServerConfig : Type 0 where
  pub host : Text
  pub port : ℕ
  pub shutdown_timeout_secs : ℕ

-- `StorageConfig`, with its `root_dir`
pub data StorageConfig : Type 0 where
  filesystem : Text → StorageConfig

pub record DatabaseConfig : Type 0 where
  pub url : Text

pub record Config : Type 0 where
  pub server : ServerConfig
  pub storage : StorageConfig
  pub database : DatabaseConfig
  pub auth : AuthConfig

-- `anyhow::Error`: the file cannot be read, or is not what `Deserialize` expects.
pub data LoadError : Type 0 where
  unreadable invalid : LoadError

-- The `toml` crate with `serde`: the table that a text holds, and what stands under a key of a table.
-- A missing key is `ok none`, a value of another type an error; an integer is read for its width.
pub record Toml (Table : Type 0) : Type 0 where
  pub from_str : Text → Option Table
  pub table_at : Text → Table → Result LoadError (Option Table)
  pub text_at : Text → Table → Result LoadError (Option Text)
  pub bool_at : Text → Table → Result LoadError (Option Bool)
  pub integer_at : ℕ → Text → Table → Result LoadError (Option ℕ)
  pub texts_at : Text → Table → Result LoadError (Option (List Text))

abbrev pub default_host : Text
default_host = codes "0.0.0.0"

abbrev pub default_port : ℕ
default_port = 5000

abbrev pub default_shutdown_timeout_secs : ℕ
default_shutdown_timeout_secs = 30

abbrev pub default_database_url : Text
default_database_url = codes "sqlite://./data/registry.db?mode=rwc"

abbrev pub default_true : Bool
default_true = true

-- `Default` of each part, which `default_server`, `default_storage` and `default_database` call
abbrev pub server_default : ServerConfig
server_default = record {
  host = default_host;
  port = default_port;
  shutdown_timeout_secs = default_shutdown_timeout_secs;
}

abbrev pub storage_default : StorageConfig
storage_default = filesystem (codes "./data/storage")

abbrev pub database_default : DatabaseConfig
database_default = record { url = default_database_url }

abbrev pub auth_default : AuthConfig
auth_default = record {
  enabled = false;
  anonymous_pull = true;
  jwt_secret = none;
  basic_credentials = [];
}

-- `Config::default`
abbrev pub config_default : Config
config_default = record {
  server = server_default;
  storage = storage_default;
  database = database_default;
  auth = auth_default;
}

infixl 10 ◌>>=◌
abbrev pub ◌>>=◌ :
    {A B : Type 0} → Result LoadError A → (A → Result LoadError B) → Result LoadError B
ok a >>= f = f a
err e >>= f = err e

-- `#[serde(default = …)]`
abbrev pub or_default : {A : Type 0} → A → Result LoadError (Option A) → Result LoadError A
or_default d (ok none) = ok d
or_default d (ok (some a)) = ok a
or_default d (err e) = err e

-- A field without a default.
abbrev pub required : {A : Type 0} → Result LoadError (Option A) → Result LoadError A
required (ok none) = err invalid
required (ok (some a)) = ok a
required (err e) = err e

module _ {Table : Type 0} (toml : Toml Table) where
  open toml use {from_str, table_at, text_at, bool_at, integer_at, texts_at}

  -- A field that is a table, with its default.
  unfoldable pub section :
      {A : Type 0} → Text → (Table → Result LoadError A) → A → Table → Result LoadError A
  section key read d t = elim (table_at key t) [
    | ok none ↦ ok d
    | ok (some e) ↦ read e
    | err e ↦ err e
  ]

  unfoldable pub server_config : Table → Result LoadError ServerConfig
  server_config t = do
    host ← or_default default_host (text_at (codes "host") t)
    port ← or_default default_port (integer_at 16 (codes "port") t)
    secs ←
        or_default default_shutdown_timeout_secs (integer_at 64 (codes "shutdown_timeout_secs") t)
    ok (record { host = host; port = port; shutdown_timeout_secs = secs })

  -- `#[serde(tag = "type", rename_all = "lowercase")]`
  unfoldable pub storage_config : Table → Result LoadError StorageConfig
  unfolding text_eq
  storage_config t = do
    kind ← required (text_at (codes "type") t)
    root_dir ← required (text_at (codes "root_dir") t)
    if text_eq kind (codes "filesystem") then ok (filesystem root_dir) else err invalid

  unfoldable pub database_config : Table → Result LoadError DatabaseConfig
  database_config t = do
    url ← or_default default_database_url (text_at (codes "url") t)
    ok (record { url = url })

  unfoldable pub auth_config : Table → Result LoadError AuthConfig
  auth_config t = do
    enabled ← or_default false (bool_at (codes "enabled") t)
    anonymous_pull ← or_default default_true (bool_at (codes "anonymous_pull") t)
    jwt_secret ← text_at (codes "jwt_secret") t
    basic_credentials ← or_default [] (texts_at (codes "basic_credentials") t)
    ok (record {
      enabled = enabled;
      anonymous_pull = anonymous_pull;
      jwt_secret = jwt_secret;
      basic_credentials = basic_credentials;
    })

  unfoldable pub config : Table → Result LoadError Config
  unfolding section server_config storage_config database_config auth_config
  config t = do
    server ← section (codes "server") server_config server_default t
    storage ← section (codes "storage") storage_config storage_default t
    database ← section (codes "database") database_config database_default t
    auth ← section (codes "auth") auth_config auth_default t
    ok (record { server = server; storage = storage; database = database; auth = auth })

  -- `Config::load`; `read_to_string` is that of the file system.
  unfoldable pub load : (Text → Option Text) → Option Text → Result LoadError Config
  unfolding config
  load read_to_string (some path) = elim (read_to_string path) [
    | none ↦ err unreadable
    | some content ↦ elim (from_str content) [ none ↦ err invalid | some t ↦ config t ]
  ]
  load read_to_string none = ok config_default

-- `socket_addr`, by the parser of addresses of the standard library; `none` where the code panics
abbrev pub socket_addr : {Ip : Type 0} → (Text → Option Ip) → Config → Option (Ip × ℕ)
socket_addr parse c = elim (parse c.server.host) [
  | none ↦ none
  | some ip ↦ some (ip, c.server.port)
]
