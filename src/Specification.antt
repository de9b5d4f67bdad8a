-- ===== src/Specification.antt =====
-- internal/controllers/swaggerspecification_controller.go
pub mod Json
pub mod References
pub mod Prefix
pub mod Document
pub mod Resolution
pub mod OpenApi
pub mod Generate
pub mod Reconcile
pub mod Guards
pub mod Catalog
pub mod Watch
