-- ===== src/Ingest.antt =====
-- The ingestion workers.
pub mod MarkerPuts
pub mod Index
pub mod Rules
pub mod Selection
pub mod Reclaim
