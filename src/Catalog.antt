-- ===== src/Catalog.antt =====
-- The catalogue of tools, and who may use which.
pub mod Config
pub mod Access
