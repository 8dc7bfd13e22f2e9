-- ===== src/Service/Approve.antt =====
-- `approve_proposal`, divided at its await: `request_approval` up to the call of `add_memory`, which
-- only a replacement text needs, and `approve_replacement` after it.
use mem0_platform_sidecar.Prelude.{
  ℕ, String, ◌<>◌, Bool, true, false, not, ◌&&◌, ◌||◌, Option, none, some, List, [], ◌∷◌, ltb,
  is_some, if◌then◌else◌, ◌==◌,
}
use mem0_platform_sidecar.Prelude.Order.{least}
use mem0_platform_sidecar.Prelude.Text.{opt_eqb}
use mem0_platform_sidecar.Prelude.Result.{
  value_error, protocol_error, conflict_error, Result, ok, err, Action,
}
use mem0_platform_sidecar.Prelude.Fallible.{◌>>=◌, ◌>>◌, raise_if}
use mem0_platform_sidecar.Json.{Json, text, object, Fields, end, field, get, dumps, loads_object}
use mem0_platform_sidecar.Policy.Values.{Mode, observe, manual, SafeActions}
use mem0_platform_sidecar.Policy.Parse.{Spec}
use mem0_platform_sidecar.Consolidation.Rows.{Proposal}
use mem0_platform_sidecar.Consolidation.Policies.{get_policy, spec_of}
use mem0_platform_sidecar.Consolidation.Proposals.{get_proposal, source_ids, all_texts, with_status}
use mem0_platform_sidecar.Memories.Rows.{active, Memory}
use mem0_platform_sidecar.Memories.Reads.{is_among, memory_id_before}
use mem0_platform_sidecar.Service.Rows.{
  Tables, Settings, Outcome, outcome, change_proposal, mark_stale, lock_project,
}
use mem0_platform_sidecar.Service.Sources.{proposal_sources}
use mem0_platform_sidecar.Service.Upstream.{Server, extract_memory_ids, fingerprint}
use mem0_platform_sidecar.Service.Shadow.{locked}

-- The arguments of the method. `replacement_length` is `len(replacement_text)`, in code points.
pub record Approval : Type 0 where
  pub expected_status : String
  pub expected_source_hashes : Fields
  pub canonical_id : Option String
  pub replacement_text : Option String
  pub replacement_length : ℕ

-- The arguments of `add_memory` for a replacement text.
pub record Addition : Type 0 where
  pub project_id : String
  pub app_id : String
  pub text : String
  pub type_name : String
  pub proposal_id : String
  pub user_id : Option String
  pub agent_id : Option String
  pub idempotency_key : String

-- `adding` says that the worker has still to add the text and come back.
pub data Approving : Type 0 where
  decided : Outcome → Approving
  adding : Addition → Approving

abbrev pub is_semantic : String → Bool
is_semantic kind = kind == "NEAR_DUPLICATE" || kind == "CONTRADICTION"

abbrev pub is_observe : Mode → Bool
is_observe observe = true
is_observe _ = false

abbrev pub is_manual : Mode → Bool
is_manual manual = true
is_manual _ = false

-- `kind in policy.safe_actions`
abbrev pub is_safe : SafeActions → String → Bool
is_safe actions kind =
    (kind == "EXACT_DUPLICATE" && actions.exact_duplicate)
    || (kind == "RETENTION_EXPIRED" && actions.retention_expired)

-- A canonical memory is given, and it is another one.
abbrev pub differs_from : Option String → Option String → Bool
differs_from none canonical = false
differs_from (some id) canonical = not (opt_eqb (some id) canonical)

abbrev pub refuse_if : Bool → String → Result (Unit {0})
refuse_if test message = raise_if test (conflict_error message)

unfoldable pub semantic_allowed : Spec → Approval → Result (Unit {0})
semantic_allowed policy approval =
    refuse_if (not (is_manual policy.mode) || not (approval.expected_status == "REVIEW_REQUIRED"))
      "semantic proposals require manual review"
    >> refuse_if
        (if is_some approval.canonical_id
          then is_some approval.replacement_text
          else not (is_some approval.replacement_text))
        "choose one existing canonical or replacement text"

unfoldable pub safe_allowed : Spec → Approval → Proposal → Result (Unit {0})
safe_allowed policy approval proposal =
    refuse_if (not (is_safe policy.safe_actions proposal.kind))
      "proposal action is not allow-listed"
    >> refuse_if (is_some approval.replacement_text)
        "replacement text is only valid for semantic proposals"
    >> refuse_if (differs_from approval.canonical_id proposal.canonical_memory_id)
        "canonical memory does not match proposal"

-- The policy of the proposal's scope.
unfoldable pub policy_of : Settings → Proposal → Tables → Result Spec
policy_of settings proposal s = elim (get_policy proposal.project_id proposal.app_id s.policies) [
  | none ↦ err (conflict_error "consolidation policy is missing")
  | some row ↦ spec_of settings.texts row.policy_json
]

-- The guards that precede the reading of the sources.
unfoldable pub approval_allowed : Settings → Approval → Proposal → Tables → Result (Unit {0})
approval_allowed settings approval proposal s =
    refuse_if (not (proposal.status == approval.expected_status)) "proposal status changed"
    >> (policy_of settings proposal s >>= λ policy.
        refuse_if (not policy.enabled || is_observe policy.mode) "policy does not allow approval"
        >> refuse_if (not settings.bridge_routing_ready) "bridge routing is not verified"
        >> (if is_semantic proposal.kind
            then semantic_allowed policy approval
            else safe_allowed policy approval proposal))

-- `mapping[key] = value`
unfoldable pub set_field : String → Json → Fields → Fields
set_field key value end = field key value end
set_field key value (field k old rest) =
    let more = set_field key value rest in if k == key then field k value rest else field k old more

abbrev pub decision : Bool → String
decision replaced = if replaced then "replacement_created" else "existing_canonical"

-- What only a semantic proposal gets.
unfoldable pub decide : Option String → Bool → Proposal → Proposal
decide canonical_id replaced proposal =
    if is_semantic proposal.kind
    then record proposal {
      canonical_memory_id = canonical_id;
      evidence_json = dumps (
          object (
            set_field "operator_decision" (text (decision replaced))
              (loads_object proposal.evidence_json)));
    }
    else proposal

abbrev pub text_at : String → Fields → Option String
text_at key fields = elim (get key fields) [ some (text value) ↦ some value | _ ↦ none ]

-- `replacement_hash or normalized_hashes.get(canonical)`
abbrev pub canonical_hash : Option String → Fields → String → Option String
canonical_hash none hashes canonical = text_at canonical hashes
canonical_hash (some hash) hashes canonical =
    if hash == "" then text_at canonical hashes else some hash

unfoldable pub fix_canonical_hash : Option String → Fields → Proposal → Proposal
fix_canonical_hash replacement_hash hashes proposal = elim proposal.canonical_memory_id [
  | none ↦ proposal
  | some canonical ↦ record proposal {
    canonical_content_hash = canonical_hash replacement_hash hashes canonical;
  }
]

-- The row of an approved proposal.
unfoldable pub approve_row : Fields → Option String → Bool → Option String → ℕ → Proposal → Proposal
approve_row hashes canonical_id replaced replacement_hash now proposal =
    with_status "APPROVED" now (
      fix_canonical_hash replacement_hash hashes (
        decide canonical_id replaced
          (record proposal { expected_hashes_json = dumps (object hashes) })))

abbrev pub approve :
    Fields → Option String → Bool → Option String → ℕ → Proposal → Action Tables Outcome
approve hashes canonical_id replaced replacement_hash now proposal s = (
  ok (outcome proposal.id "APPROVED"),
  change_proposal proposal.id (approve_row hashes canonical_id replaced replacement_hash now) s,
)

abbrev pub outside : Option String → List String → Bool
outside none ids = false
outside (some id) ids = not (is_among ids id)

abbrev pub as_decided : Result Outcome × Tables → Result Approving × Tables
as_decided (ok o, s) = (ok (decided o), s)
as_decided (err e, s) = (err e, s)

-- `value or default`
abbrev pub text_or : String → Option String → String
text_or given none = given
text_or given (some value) = if value == "" then given else value

abbrev pub addition_of : Proposal → Memory → String → Addition
addition_of proposal source replacement = record {
  project_id = proposal.project_id;
  app_id = proposal.app_id;
  text = replacement;
  type_name = text_or "unknown" source.normalized_type;
  proposal_id = proposal.id;
  user_id = source.user_id;
  agent_id = source.agent_id;
  idempotency_key = "consolidation-replacement-" <> proposal.id;
}

-- The text is added in the name of the source whose id is the first.
unfoldable pub addition : Proposal → List Memory → String → Result Approving
addition proposal sources replacement = elim (least memory_id_before sources) [
  | none ↦ err (value_error "min() arg is an empty sequence")
  | some source ↦ ok (adding (addition_of proposal source replacement))
]

-- What follows the reading of the sources.
unfoldable pub choose :
    Settings → Approval → ℕ → Proposal → List String → List Memory → Action Tables Approving
choose settings approval now proposal ids sources s =
    if outside approval.canonical_id ids
    then (err (conflict_error "canonical memory is not a proposal source"), s)
    else elim approval.replacement_text [
      | none ↦
          as_decided (
            approve approval.expected_source_hashes approval.canonical_id false none now proposal s)
      | some replacement ↦
          if settings.is_empty_text replacement || ltb 20000 approval.replacement_length
          then (err (conflict_error "replacement text is invalid"), s)
          else (addition proposal sources replacement, s)
    ]

-- The sources as the operator has seen them.
unfoldable pub seen_sources : Approval → Proposal → Tables → Result (Option (List Memory))
seen_sources approval proposal s =
    if all_texts approval.expected_source_hashes
    then proposal_sources proposal approval.expected_source_hashes active s
    else ok none

abbrev pub stale : ℕ → Proposal → Action Tables Outcome
stale now proposal s = (ok (outcome proposal.id "STALE"), mark_stale proposal.id now s)

unfoldable pub with_sources : Settings → Approval → ℕ → Proposal → Action Tables Approving
with_sources settings approval now proposal s = elim (seen_sources approval proposal s) [
  | err e ↦ (err e, s)
  | ok none ↦ as_decided (stale now proposal s)
  | ok (some sources) ↦ elim (source_ids proposal.source_ids_json) [
    | err e ↦ (err e, s)
    | ok ids ↦ choose settings approval now proposal ids sources s
  ]
]

unfoldable pub request_locked : Settings → Approval → ℕ → Proposal → Action Tables Approving
request_locked settings approval now proposal s =
    elim (approval_allowed settings approval proposal s) [
      | err e ↦ (err e, s)
      | ok tt' ↦ with_sources settings approval now proposal s
    ]

unfoldable pub request_approval : Settings → Approval → ℕ → String → Action Tables Approving
request_approval settings approval now id s = elim (locked id s) [
  | err e ↦ (err e, s)
  | ok proposal ↦ request_locked settings approval now proposal s
]

-- The id and the hash of the memory that `add_memory` has returned.
unfoldable pub added_memory : Server → Fields → Result (String × String)
added_memory server added = elim (get "memory" added) [
  | some (object memory) ↦ elim (extract_memory_ids memory) [
    | [] ↦ err protocol_error
    | id ∷ ids ↦ elim (fingerprint server memory) [
      | none ↦ err (conflict_error "replacement memory fingerprint is unavailable")
      | some hash ↦ ok (id, hash)
    ]
  ]
  | _ ↦ err (conflict_error "replacement memory add failed")
]

-- `project_id` is the one that was read before the call. `view` has the rows as the session of the
-- worker has them by then: it keeps those that it read before the call and does not read them anew
-- (expire_on_commit=False), so that they may be behind those of the tables, which are written.
unfoldable pub approve_with :
    Approval → ℕ → String → String → String × String → Tables → Action Tables Outcome
approve_with approval now project_id id new_memory view s = elim (lock_project project_id s) [
  | err e ↦ (err e, s)
  | ok tt' ↦ elim (get_proposal id view.proposals) [
    | err e ↦ (err e, s)
    | ok proposal ↦ elim (proposal_sources proposal approval.expected_source_hashes active view) [
      | err e ↦ (err e, s)
      | ok none ↦ stale now proposal s
      | ok (some sources) ↦
          approve approval.expected_source_hashes (some new_memory.0) true (some new_memory.1) now
            proposal s
    ]
  ]
]

-- `added` is what the call has returned or raised.
unfoldable pub approve_replacement :
    Server → Result Fields → Approval → ℕ → String → String → Tables → Action Tables Outcome
approve_replacement server added approval now project_id id view s =
    elim (added >>= added_memory server) [
      | err e ↦ (err e, s)
      | ok new_memory ↦ approve_with approval now project_id id new_memory view s
    ]
