-- ===== src/Shared.antt =====
-- What the three controllers have in common.
pub mod Outcome
pub mod ConfigMaps
pub mod Guards
pub mod Lookup
pub mod Selection
pub mod Selected
