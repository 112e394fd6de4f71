-- ===== src/Index.antt =====
-- src/acr/index.py: the prefix blocks, and the sessions that lease them.
pub mod Defs
pub mod Chain
pub mod Touch
pub mod Leases
