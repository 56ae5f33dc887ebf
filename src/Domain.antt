-- ===== src/Domain.antt =====
-- src/domain: the shapes that every part of the service exchanges, and the deterministic rules.
pub mod Enums
pub mod Models
pub mod Policy
pub mod Regions
pub mod Registries
pub mod FastPath
pub mod Hints
pub mod Examples
