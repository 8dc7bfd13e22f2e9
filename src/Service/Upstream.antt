-- ===== src/Service/Upstream.antt =====
-- What the service asks of the mem0 server before it hides or deletes: `_upstream_sources_match`,
-- `_upstream_canonical_matches`, `_verify_upstream_deleted` and `_record_is_pinned`, with
-- `extract_memory_ids` and `memory_content_fingerprint` of src/mem0_sidecar/core/memory_ops.py.
use mem0_platform_sidecar.Prelude.{
  String, Bool, true, false, not, ◌&&◌, ◌||◌, Option, none, some, List, [], ◌∷◌, ◌++◌,
  if◌then◌else◌, ◌==◌,
}
use mem0_platform_sidecar.Prelude.Result.{Error, conflict_error, Result, ok, err}
use mem0_platform_sidecar.Json.{
  Json, boolean, text, array, object, Items, nil, cons, Fields, get, single,
}
use mem0_platform_sidecar.Consolidation.Rows.{Proposal}
use mem0_platform_sidecar.Memories.Reads.{is_among}
use mem0_platform_sidecar.Service.Sources.{equals_text}

-- The answer of `mem0.get_memory`.
pub data Answer : Type 0 where
  found : Json → Answer
  missing : Answer  -- Mem0UpstreamError with the status 404
  fails : Error → Answer

-- The server at the time of a call, and two functions on texts that are Python's: the digest of a
-- text brought to normal form, and `text.lstrip().startswith("[PINNED]")`.
pub record Server : Type 0 where
  pub get_memory : String → Answer
  pub digest : String → String
  pub starts_pinned : String → Bool

-- `_append_memory_id`
abbrev pub append_id : Option Json → List String → List String
append_id (some (text id)) ids = if id == "" || is_among ids id then ids else ids ++ id ∷ []
append_id _ ids = ids

unfoldable pub append_items : Items → List String → List String
append_items nil ids = ids
append_items (cons (object item) rest) ids =
    append_items rest (append_id (get "memory_id" item) (append_id (get "id" item) ids))
append_items (cons item rest) ids = append_items rest ids

abbrev pub append_results : Option Json → List String → List String
append_results (some (array items)) ids = append_items items ids
append_results _ ids = ids

unfoldable pub extract_memory_ids : Fields → List String
extract_memory_ids response =
    append_results (get "results" response)
      (append_id (get "memory_id" response) (append_id (get "id" response) []))

abbrev pub or_text : Option Json → Option String → Option String
or_text (some (text value)) rest = some value
or_text _ rest = rest

-- `_memory_text`
unfoldable pub memory_text : Fields → Option String
memory_text response =
    or_text (get "memory" response)
      (or_text (get "data" response) (or_text (get "text" response) none))

-- The hash of `memory_content_fingerprint`
unfoldable pub fingerprint : Server → Fields → Option String
fingerprint server response = elim (memory_text response) [
  | none ↦ none
  | some value ↦ some (server.digest value)
]

abbrev pub is_pinned_metadata : Option Json → Bool
is_pinned_metadata (some (object metadata)) = elim (get "pinned" metadata) [
  | some (boolean b) ↦ b
  | _ ↦ false
]
is_pinned_metadata _ = false

-- `record.get(key, default)`
abbrev pub or_else : Option Json → Option Json → Option Json
or_else (some value) rest = some value
or_else none rest = rest

abbrev pub is_pinned_text : Server → Option Json → Bool
is_pinned_text server (some (text value)) = server.starts_pinned value
is_pinned_text server _ = false

unfoldable pub record_is_pinned : Server → Fields → Bool
record_is_pinned server response =
    is_pinned_metadata (get "metadata" response)
    || is_pinned_text server (or_else (get "memory" response) (get "text" response))

abbrev pub is_marked : String → String → Option Json → Bool
is_marked project_id app_id (some (object metadata)) =
    equals_text (some project_id) (get "_mem0_sidecar_project_id" metadata)
    && equals_text (some app_id) (get "_mem0_sidecar_app_id" metadata)
is_marked project_id app_id _ = false

-- The test of one response.
unfoldable pub response_matches : Server → String → Option Json → String → String → Json → Bool
response_matches server memory_id expected project_id app_id (object response) =
    is_among (extract_memory_ids response) memory_id
    && equals_text (fingerprint server response) expected
    && not (record_is_pinned server response)
    && is_marked project_id app_id (get "metadata" response)
response_matches server memory_id expected project_id app_id _ = false

unfoldable pub upstream_sources_match :
    Server → List String → Fields → String → String → Result Bool
upstream_sources_match server [] expected_hashes project_id app_id = ok true
upstream_sources_match server (memory_id ∷ rest) expected_hashes project_id app_id =
    let others = upstream_sources_match server rest expected_hashes project_id app_id in
    elim (server.get_memory memory_id) [
      | found response ↦
          if response_matches server memory_id (get memory_id expected_hashes) project_id app_id
            response
          then others
          else ok false
      | missing ↦ ok false
      | fails e ↦ err e
    ]

abbrev pub hash_or : Option Json → Option String → Option Json
hash_or (some value) rest = some value
hash_or none none = none
hash_or none (some hash) = some (text hash)

unfoldable pub upstream_canonical_matches : Server → Proposal → Fields → Result Bool
upstream_canonical_matches server proposal expected_hashes = elim proposal.canonical_memory_id [
  | none ↦ ok true
  | some canonical_id ↦
      elim (hash_or (get canonical_id expected_hashes) proposal.canonical_content_hash) [
        | none ↦ ok false
        | some hash ↦
            upstream_sources_match server (canonical_id ∷ []) (single canonical_id hash)
              proposal.project_id proposal.app_id
      ]
]

-- `_verify_upstream_deleted`
unfoldable pub verify_upstream_deleted : Server → String → Result (Unit {0})
verify_upstream_deleted server memory_id = elim (server.get_memory memory_id) [
  | found response ↦ err (conflict_error "hard-delete verification failed")
  | missing ↦ ok tt
  | fails e ↦ err e
]
