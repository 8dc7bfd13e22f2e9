-- ===== src/Intents.antt =====
-- The durable mutation intents: `MutationIntentRepository` of src/mem0_sidecar/store/repositories.py
-- over the rows of src/mem0_sidecar/store/models.py. An intent is written before an upstream mutation
-- begins, and its attempts are fenced so that one worker at a time repairs it.
pub mod Rows
pub mod Targets
pub mod Lifecycle
pub mod Queries
pub mod Fence
pub mod Validity
pub mod History
pub mod Recovery
mod Examples
