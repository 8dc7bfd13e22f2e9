-- ===== src/Memories.antt =====
-- The index of memories: `MemoryIndexRepository` of src/mem0_sidecar/store/repositories.py over the
-- rows `MemoryIndex` of src/mem0_sidecar/store/models.py.
pub mod Rows
pub mod Reads
pub mod ById
pub mod Anchors
pub mod Examples
