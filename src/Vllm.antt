-- ===== src/Vllm.antt =====
-- src/acr/vllm: the eviction policies for the engine's CPU offload tier, and the launch plan.
pub mod Hints
pub mod Ttl
pub mod Value
pub mod Launch
