-- ===== src/Policy.antt =====
-- internal/policy: which policies apply to an event, and the decision that they come to.
pub mod Matching
pub mod Engine
pub mod Packs
pub mod Simulation
