-- ===== src/Storage.antt =====
-- src/storage/mod.rs and src/storage/filesystem.rs: contents by digest, and upload files.
pub mod Files
pub mod Paths
pub mod Filesystem
pub mod Frame
pub mod Reads
pub mod Calm
pub mod Blobs
pub mod Cleanup
pub mod Atomic
pub mod Append
