-- ===== src/Aiops.antt =====
-- lib/aiops: the middleware around the invocation of a model provider, the batch queue and the cache.
pub mod Cache
pub mod Batch
pub mod Types
pub mod Errors
pub mod Effects
pub mod Circuit
pub mod Retry
pub mod Fallback
pub mod Stack
