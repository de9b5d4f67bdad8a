-- ===== src/Hub.antt =====
-- internal/controllers/swaggerhub_controller.go
pub mod Catalog
pub mod Ownership
pub mod Watch
pub mod Requests
pub mod Completeness
pub mod Served
pub mod Mounts
pub mod ApiUrls
pub mod ApiText
pub mod ApiList
pub mod ApiSafety
pub mod Deployment
pub mod Reconcile
pub mod Guards
pub mod Health
pub mod Owners
pub mod Labels
pub mod Containers
