-- ===== src/Policy.antt =====
-- The consolidation policy: src/mem0_sidecar/core/consolidation_policy.py. `from_mapping` reads a
-- policy from the values of the json module, and `to_mapping` writes it back.
pub mod Values
pub mod Parse
pub mod Bounds
pub mod RoundTrip
mod Examples
