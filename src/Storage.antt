-- ===== src/Storage.antt =====
-- The physical store: region identities, shard containers and byte ranges.
pub mod Region
pub mod Shard
