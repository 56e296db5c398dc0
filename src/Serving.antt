-- ===== src/Serving.antt =====
-- The serving tier.
pub mod Leases
pub mod Breaker
pub mod StoreCache
