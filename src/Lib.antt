-- ===== src/Lib.antt =====
-- distribution-rs, a registry of container images: a model of its parts and theorems about them.
--
-- A request passes the middleware (Auth: auth/middleware.rs) and reaches a handler (Api: api/), which
-- calls the registry (Registry: registry.rs). The registry keeps rows in a database (Database: entity/
-- and migration/) and bytes in a storage (Storage: storage/filesystem.rs); names, digests and
-- references are parsed by Types (types.rs), and errors become answers by Error (error.rs). All paths
-- are below the folder `src` of the repository.
--
-- - Prelude: tests on native numbers, lists, results, and texts as lists of characters.
-- - Types: `RepoName`, `Digest`, `TagName`, `Reference`, `UploadId`, `TenantId`, each with its
--   parser and printer.
-- - Exec: actions on a state that may fail; what was changed before an error stays changed. `Keeps`
--   states invariants of actions on every outcome, `Ensures` what holds where an action returns.
-- - Storage: `Files` has the calls of the file system on a map from paths to contents, `Paths` and
--   `Filesystem` the functions of the same names in storage/filesystem.rs. A list of faults says
--   which of the coming calls fail, and after how many bytes where they write.
-- - Database: the rows of entity/, and the statements and transactions that the registry sends. The
--   engine behind them (sea_orm and SQLite) is a record of operations with the documented effect of
--   each as a law; a list of faults says which of the coming statements fail. `Migrations` has the
--   statements of migration/ as data, in the terms of `Schema`.
-- - Registry: the functions of registry.rs, under their names, on a world of database and storage.
--   `Calls` has them as one type, with the induction that what each statement keeps every call
--   keeps. sha2, uuid, serde_json and oci_spec are parameters with their documented laws; the clock
--   and fresh ids are arguments.
-- - Auth: the middleware, with jsonwebtoken and base64 as parameters.
-- - Config: the defaults and the loading of the configuration, with the toml crate as a parameter.
-- - Api: the handlers with the range headers, which resource a path names (`Routes`), the handler of
--   a resource and a method (`Dispatch`), and the router with the layers of the middleware
--   (`Server`). axum and form_urlencoded are parameters.
-- - Tests: the parameters as concrete functions, runs, and the theorems at concrete inputs.
--
-- A column of type `i64` holds the bits of its number, and offsets and sizes wrap at 64 bits. The
-- loops of the code run over lists. A client that follows links takes fuel, one more than there are
-- names. Calls run one after the other: what concurrent requests do to one another within a call is
-- not modelled. Not modelled besides: the start of the server in main.rs, whose sockets, signals and
-- logging are input and output, and the entity of tenants, which no operation reads.
mod Prelude
pub mod Types
pub mod Error
pub mod Exec
pub mod Storage
pub mod Database
pub mod Registry
pub mod Auth
pub mod Config
pub mod Api
mod Tests
