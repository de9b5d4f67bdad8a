-- ===== src/Api.antt =====
-- The custom resources (api/v1beta1) and the functions on their conditions.
pub mod Definition
pub mod Hub
pub mod Specification
pub mod Conditions
pub mod Scheme
pub mod Accessors
