-- ===== src/Definition.antt =====
-- internal/controllers/swaggerdefinition_controller.go
pub mod Fetch
pub mod Reconcile
pub mod Credentials
pub mod Guards
pub mod Outcome
pub mod Retry
