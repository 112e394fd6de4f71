-- ===== src/Policies.antt =====
-- src/acr/policies.py: the residency policies of the tier below HBM.
pub mod Probe
pub mod Tier
pub mod Take
pub mod Adaptive
pub mod Evict
pub mod Laws
pub mod Raises
