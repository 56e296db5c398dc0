-- ===== src/Realtime.antt =====
-- The realtime lead-wave scheduler, services/ingestion/src/ingestion/realtime.
pub mod Snapshot
pub mod Planner
pub mod Poll
