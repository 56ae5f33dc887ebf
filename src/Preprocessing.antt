-- ===== src/Preprocessing.antt =====
-- src/domain/preprocessing/: the message that an email is about.
pub mod Thread
pub mod Boilerplate
mod Examples
