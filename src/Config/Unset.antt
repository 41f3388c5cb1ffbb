-- ===== src/Config/Unset.antt =====
-- The defaults of src/config.rs: what the attributes put in place of a missing key is what `Default`
-- has.
use distribution_rs.Prelude.{ℕ, Option, none, some, ◌≡◌, ◌⊎◌, inl, inr, Result, ok}
use distribution_rs.Prelude.Text.{Text, codes}
use distribution_rs.Config.{
  Toml, LoadError, load, config, server_config, storage_config, database_config, auth_config,
  server_default, storage_default, database_default, auth_default, config_default, section,
}

module _ {Table : Type 0} (toml : Toml Table) where
  open toml use {from_str, table_at, text_at, bool_at, integer_at, texts_at}

  -- A table without keys.
  abbrev pub Empty : Table → Type 0
  Empty t =
      ((k : Text) → text_at k t ≡ ok none)
      × ((k : Text) → bool_at k t ≡ ok none)
      × ((w : ℕ) (k : Text) → integer_at w k t ≡ ok none)
      × ((k : Text) → texts_at k t ≡ ok none)

  -- A section that is missing or has no keys.
  abbrev pub Unset : Text → Table → Type 0
  Unset key t =
      (table_at key t ≡ ok none) ⊎ ((e : Table) × (table_at key t ≡ ok (some e)) × Empty e)

  server_config-Empty : (t : Table) → Empty t → server_config toml t ≡ ok server_default
  unfolding server_config
  server_config-Empty t (texts, bools, integers, lists) = simp (texts, integers)

  database_config-Empty : (t : Table) → Empty t → database_config toml t ≡ ok database_default
  unfolding database_config
  database_config-Empty t (texts, bools, integers, lists) = simp texts

  auth_config-Empty : (t : Table) → Empty t → auth_config toml t ≡ ok auth_default
  unfolding auth_config
  auth_config-Empty t (texts, bools, integers, lists) = simp (texts, bools, lists)

  section-missing :
      {A : Type 0} (key : Text) (read : Table → Result LoadError A) (d : A) (t : Table)
      → table_at key t ≡ ok none
      → section toml key read d t ≡ ok d
  unfolding section
  section-missing key read d t h = cc

  section-Unset :
      {A : Type 0} (key : Text) (read : Table → Result LoadError A) (d : A) (t : Table)
      → ((e : Table) → Empty e → read e ≡ ok d)
      → Unset key t
      → section toml key read d t ≡ ok d
  unfolding section
  section-Unset key read d t empty (inl h) = cc
  section-Unset key read d t empty (inr (e, h, is)) = let r = empty e is in cc

  config-Unset :
      (t : Table)
      → table_at (codes "storage") t ≡ ok none
      → Unset (codes "server") t
      → Unset (codes "database") t
      → Unset (codes "auth") t
      → config toml t ≡ ok config_default
  unfolding config
  config-Unset t no_storage server database auth =
      let s = section-Unset _ (server_config toml) server_default t server_config-Empty server in
      let p =
        section-missing (codes "storage") (storage_config toml) storage_default t no_storage in
      let d =
        section-Unset _ (database_config toml) database_default t database_config-Empty database in
      let a = section-Unset _ (auth_config toml) auth_default t auth_config-Empty auth in
      simp (s, p, d, a)

  -- A file without a storage section, whose other sections are missing or have no keys, loads as the
  -- configuration that is used without a file.
  pub load-Unset :
      (read_to_string : Text → Option Text) (path content : Text) (t : Table)
      → read_to_string path ≡ some content
      → from_str content ≡ some t
      → table_at (codes "storage") t ≡ ok none
      → Unset (codes "server") t
      → Unset (codes "database") t
      → Unset (codes "auth") t
      → load toml read_to_string (some path) ≡ load toml read_to_string none
  unfolding load
  load-Unset read_to_string path content t found parsed no_storage server database auth =
      let c = config-Unset t no_storage server database auth in cc
