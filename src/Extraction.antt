-- ===== src/Extraction.antt =====
-- src/services/extraction/: what code works out on its own of a customer's table and of the header.
pub mod Cells
pub mod Table
pub mod Dates
pub mod Imo
pub mod Header
mod Examples
