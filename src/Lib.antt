-- ===== src/Lib.antt =====
-- The mem0 platform sidecar: the durable work that it does on memories, and the rules of that work.
--
-- The program stands between clients and a mem0 server. It keeps a store of its own, reached through
-- the repositories of src/mem0_sidecar/store/repositories.py over the rows of
-- src/mem0_sidecar/store/models.py. A mutation of memories first writes an intent, so that a
-- mutation that is cut short can be found and repaired. Work that can wait goes to a queue of jobs,
-- which the workers of src/mem0_sidecar/workers claim under a lease. Consolidation is such work:
-- each scope (a project and an app) may have a policy, a scheduler creates a run and a scan job for
-- the scopes that are due, and a run makes proposals. A proposal is approved, its sources are hidden
-- after an export, and they are deleted after a grace period or shown again.
--
-- The files, and the code that each models:
--   Prelude: the names, lists, texts, orders and tables that the others share. A table is a list of
--     rows; find_row, rows_where, update_rows and count_rows are the statements select, update and
--     count; sort_by and least are ORDER BY. Prelude.Result has Python's exceptions as values and
--     methods as functions from a state to a result and a state; Prelude.Fallible has chains that
--     change no state.
--   Json: the values of Python's json module and the text columns that hold them.
--   Jobs: JobRepository and the row Job. Its children hold what is proved of the queue. Jobs.Runner
--     is AsyncWorkerRunner of src/mem0_sidecar/workers/runner.py.
--   Intents: MutationIntentRepository. Rows has MutationIntent and MutationIntentTarget, Lifecycle
--     the methods that change an intent, Targets those on its targets, Queries those that read.
--     Fence, Recovery, Validity, History and Targets.Ordinals hold what is proved.
--   Policy: src/mem0_sidecar/core/consolidation_policy.py. Values has the checks of one field, Parse
--     the methods from_mapping and to_mapping of ConsolidationPolicySpec. Bounds and RoundTrip hold
--     what is proved.
--   Consolidation: ConsolidationPolicyRepository (Policies), ConsolidationRunRepository (Runs),
--     ConsolidationProposalRepository (Proposals) and ConsolidationLineageRepository (Lineage), whose
--     children hold what is proved.
--   Scheduler: ConsolidationScheduler.enqueue_due_scopes of src/mem0_sidecar/workers/consolidation.py
--     composes the policies, runs and jobs above, with MemoryIndexRepository.list_dirty_anchors
--     and ProjectRepository.lock_for_mutation. Runs, Scans and Limits hold what is proved.
--   Memories: the row MemoryIndex (Rows) and the methods of MemoryIndexRepository that consolidation
--     calls (Reads, Anchors). ById holds what is proved.
--   Service: ConsolidationService of src/mem0_sidecar/core/consolidation_service.py. Sources has
--     _proposal_sources, Upstream the questions to the mem0 server and, from
--     src/mem0_sidecar/core/memory_ops.py, extract_memory_ids and memory_content_fingerprint. Approve,
--     Shadow, Rollback and Finalize have approve_proposal, shadow_approved, rollback_shadowed and
--     finalize_shadowed. Moves is the machine of the phases, attempts and leases, with an action
--     for each part of a method, Refinement its refinement by the methods; Locked, Started, Checked,
--     Exclusion, Hiding, Approval and Deletion hold what else is proved.
--   Analysis: src/mem0_sidecar/core/consolidation_analysis.py. Neighbors has classify_neighbor, Scopes
--     analyze_scope; Sound, Disjoint and Symmetry hold what is proved.
--   Scope: src/mem0_sidecar/core/scope.py, the identifiers that enter the store.
--   Worker: ConsolidationWorker, from the answer of the service to the jobs that follow it.
--   The modules named Examples apply the theorems to concrete tables and run the code on them.
--
-- How the model corresponds to the code. A method of a repository is a function of the table with
-- the method's name, or that name and the row's where two repositories share it (create_run). One
-- call is one step: the database serializes the statements of a session, and each method reads and
-- writes between two flushes. The clock and the fresh ids that a method draws are arguments. An
-- instant is a number of microseconds since the epoch in UTC, a timedelta of seconds is multiplied
-- by 1000000, and a float is the 64 bits of an IEEE 754 double. A status column with a fixed set of
-- texts is a data type. Where SQL leaves an order open (a scalar without ORDER BY, a tie), the model
-- takes the order of the table. Nulls stand last in a descending order, as in SQLite. Each loop is
-- structural recursion on a list, so no function needs fuel, and every function is total.
--
-- A method of the service that awaits is divided there: approve_proposal into request_approval and
-- approve_replacement, shadow_approved into begin, give_up and finish. Another worker may run between
-- two parts, and a part reads again what the code reads again. Where the session keeps the rows that it
-- has read before, approve_replacement has them as its argument view. finalize_shadowed is one function,
-- whose argument World says what each awaited deletion does to the tables, other workers included.
--
-- What is an argument, because its code is not modelled: the sanitizer that scrubs what an intent
-- stores (Intents.Rows.Sanitizer), the handlers of jobs (Jobs.Runner), the text operations of
-- Python's str, re and unicodedata that a policy uses (Policy.Values.Texts), and the answer of
-- ServiceCapabilityRepository.bridge_routing_ready (Scheduler.Outside, Service.Rows.Settings), the
-- answers of the mem0 server with the digest of a text (Service.Upstream.Server; a client is there, as
-- in every deployment that shadows), what add_memory returns, what the export returns, and
-- delete_memory (Service.Finalize.World). For the analysis it is the tokens of a text, what its two
-- patterns find, the digest and the order of two confidences (Analysis.Drafts.Lexicon), and for
-- identifiers str and unicodedata (Scope.Unicode).
--
-- What is not modelled: foreign keys, connection errors and concurrent transactions in the database;
-- consolidation_status of the jobs, which is a report; the HTTP service
-- (src/mem0_sidecar/http_adapter), the client of mem0, the operations on memories
-- (src/mem0_sidecar/core/memory_ops.py), but for the two functions above, the
-- scans and reports of the consolidation service, the other repositories, the dashboard and the
-- deployment files.
pub mod Prelude
pub mod Json
pub mod Scope
pub mod Analysis
pub mod Consolidation
pub mod Intents
pub mod Jobs
pub mod Memories
pub mod Policy
pub mod Scheduler
pub mod Service
pub mod Worker
