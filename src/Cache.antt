-- ===== src/Cache.antt =====
-- The package cache.
pub mod Ttl
pub mod Interface
pub mod Memory
pub mod ReadThrough
pub mod WriteThrough
pub mod Sharded
pub mod Mock
