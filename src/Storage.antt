-- ===== src/Storage.antt =====
-- src/infrastructure/storage/records.py: one folder per email, with its record, its body and its files.
pub mod Records
pub mod Names
pub mod Store
pub mod Open
pub mod Steps
pub mod Kept
pub mod Numbers
pub mod Frozen
mod Examples
