-- ===== src/Api.antt =====
-- src/api: the handlers over the registry.
pub mod Ranges
pub mod Routes
pub mod Blobs
pub mod Uploads
pub mod Lists
pub mod Requests
pub mod Manifests
pub mod Admin
pub mod Dispatch
pub mod Server
