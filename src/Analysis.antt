-- ===== src/Analysis.antt =====
-- The analysis that makes proposals: src/mem0_sidecar/core/consolidation_analysis.py.
pub mod Drafts
pub mod Neighbors
pub mod Scopes
pub mod Sound
pub mod Symmetry
pub mod Disjoint
pub mod Examples
