-- ===== src/Tests.antt =====
-- The theorems at concrete inputs.
mod Numbers
mod Index
mod Policies
mod Replay
mod Stats
mod Order
mod Vllm
mod Value
mod Probes
mod Cli
