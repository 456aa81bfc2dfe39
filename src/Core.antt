-- ===== src/Core.antt =====
-- lib/lawrence-core: what the services share.
pub mod Collection
