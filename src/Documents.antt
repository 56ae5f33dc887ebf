-- ===== src/Documents.antt =====
-- src/infrastructure/documents: the files of one email become documents, within one budget. The
-- readers of single files, which parse them by libraries, are a parameter.
pub mod Models
pub mod Budget
pub mod Images
pub mod Loader
mod Examples
