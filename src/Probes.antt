-- ===== src/Probes.antt =====
-- The scripts under experiments that compute with the connector's groups and drive its manager.
pub mod Lookup
pub mod Ring
pub mod Team
pub mod Runner
pub mod Streams
pub mod Groups
