-- ===== src/Types.antt =====
-- src/types.rs: the validated names of the registry.
pub mod Error
pub mod RepoName
pub mod Digest
pub mod TagName
pub mod Reference
pub mod Ids
