-- ===== src/Models.antt =====
-- backend/app/models: the tables and the database.
pub mod Ops
pub mod Extraction
pub mod Db
