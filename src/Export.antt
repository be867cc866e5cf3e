-- ===== src/Export.antt =====
-- internal/export: the exporters that ship batches.
pub mod Counters
pub mod Http
pub mod File
