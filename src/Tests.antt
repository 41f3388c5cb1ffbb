-- ===== src/Tests.antt =====
-- Examples: a database, a hash and the other parameters as concrete functions, runs of the model,
-- and the theorems at concrete inputs.
mod ListEngine
mod Data
mod Examples
mod Formats
mod Lists
mod Server
mod Stored
mod Jobs
mod Config
mod Cleanup
mod Ranges
