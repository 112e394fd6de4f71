-- ===== src/Replay.antt =====
-- src/acr/replay.py: the replay of a trace.
pub mod Hbm
pub mod Host
pub mod Turns
pub mod Stats
pub mod Run
pub mod Table
