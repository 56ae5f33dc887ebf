-- ===== src/Handlers.antt =====
-- src/services/handlers.py and triage.py: what happens to an email once it has been fetched.
pub mod Effects
pub mod Notes
pub mod Steps
pub mod Run
pub mod Quiet
pub mod Once
pub mod Bounded
pub mod Order
pub mod Gate
pub mod Again
pub mod Failure
pub mod Examples
