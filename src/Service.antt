-- ===== src/Service.antt =====
-- The service that applies proposals: `ConsolidationService` of
-- src/mem0_sidecar/core/consolidation_service.py. A proposal is approved, its sources are hidden
-- ("shadowed") after an export, and after a grace period they are deleted, or they are shown again.
-- A method that waits for the mem0 server is divided at its awaits, so that the steps of several
-- workers can be interleaved.
pub mod Rows
pub mod Sources
pub mod Upstream
pub mod Approve
pub mod Shadow
pub mod Rollback
pub mod Finalize
pub mod Locked
pub mod Exclusion
pub mod Moves
pub mod Checked
pub mod Hiding
pub mod Approval
pub mod Deletion
pub mod Started
pub mod Refinement
pub mod Examples
