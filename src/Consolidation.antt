-- ===== src/Consolidation.antt =====
-- The tables of consolidation: the four repositories at the end of
-- src/mem0_sidecar/store/repositories.py over their rows in src/mem0_sidecar/store/models.py. A scope
-- (a project and an app) has a policy, its scans are runs, a run makes proposals, and a proposal that
-- is applied leaves lineage.
pub mod Rows
pub mod Policies
pub mod Runs
pub mod Proposals
pub mod Lineage
mod Examples
