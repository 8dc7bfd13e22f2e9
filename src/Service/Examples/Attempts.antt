-- ===== src/Service/Examples/Attempts.antt =====
-- The theorems about approvals and attempts at concrete tables.
use mem0_platform_sidecar.Prelude.{
  ℕ, ◌+◌, ◌≡◌, refl, true, false, none, some, List, All, arith, [], ◌∷◌, inl, inr,
}
use mem0_platform_sidecar.Prelude.Result.{conflict_error, ok, err}
use mem0_platform_sidecar.Consolidation.Rows.{Proposal}
use mem0_platform_sidecar.Memories.Rows.{Memory, merged}
use mem0_platform_sidecar.Memories.Examples.{note}
use mem0_platform_sidecar.Service.Rows.{Tables, outcome, seconds}
use mem0_platform_sidecar.Service.Approve.{Approval, approve_row, decided, request_approval}
use mem0_platform_sidecar.Service.Shadow.{
  Attempt, settled, started, take_attempt, locked, begin, give_up, Export, finish,
}
use mem0_platform_sidecar.Service.Rollback.{rollback_shadowed}
use mem0_platform_sidecar.Service.Exclusion.{attempt_fenced}
use mem0_platform_sidecar.Service.Exclusion.Leases.{LeavesAlone, begin_exclusive}
use mem0_platform_sidecar.Service.Moves
use mem0_platform_sidecar.Service.Moves.{phase, id_of}
use mem0_platform_sidecar.Service.Refinement.Histories.{
  Command, requests, begins, gives_up, rolls_back, run_all,
}
use mem0_platform_sidecar.Prelude.Tables.{IsKeyed}
use mem0_platform_sidecar.Service.Approval.Ready.{begin-request_approval}
use mem0_platform_sidecar.Service.Approval.Stranded.{request_approval_of_hidden}
use mem0_platform_sidecar.Service.Examples.{
  program, settings, twins, copy, hashes, tables, approval, approved, is_approved,
}

begin-request_approval_example :
    (attempt : Attempt) × ((begin settings "t1" 20 "x1" approved).0 ≡ ok (started attempt))
    × (attempt.hashes ≡ hashes)
    × (attempt.attempt_id ≡ "t1")
begin-request_approval_example =
    begin-request_approval settings approval 10 20 "t1" "x1" tables approved
      (outcome "x1" "APPROVED") is_approved refl

abbrev attempt : Attempt
attempt = record {
  proposal_id = "x1";
  attempt_id = "t1";
  ids = "m1" ∷ "m2" ∷ [];
  hashes = hashes;
  grace_days = 7;
}

abbrev exporting : Tables
exporting = (begin settings "t1" 20 "x1" approved).1

is_started : begin settings "t1" 20 "x1" approved ≡ (ok (started attempt), exporting)
unfolding program
is_started = refl

-- What other workers do while the lease runs.
abbrev meanwhile : List (Command × ℕ)
meanwhile =
    (requests settings approval "x1", 22)
    ∷ (begins settings "t2" "x1", 25)
    ∷ (gives_up (record attempt { attempt_id = "t0" }), 26)
    ∷ (rolls_back "x1", 27)
    ∷ []

abbrev taken : Proposal
taken = take_attempt "t1" (20 + seconds 60) 20 (approve_row hashes none false none 10 twins)

has_taken : locked "x1" (run_all meanwhile exporting) ≡ ok taken
unfolding program
has_taken = refl

not_exporting : ¬ (phase approval.expected_status ≡ Moves.exporting)
unfolding phase
not_exporting h = cc

leaves_alone : All (LeavesAlone "x1" "t1" (20 + seconds settings.shadow_lease_seconds)) meanwhile
leaves_alone = (inr not_exporting, (inr (omega arith), (inr refl, (inr tt, tt))))

keyed : IsKeyed id_of approved.proposals
unfolding program
keyed = (tt, tt)

begin_exclusive_example :
    (taken.status ≡ "EXPORTING")
    × (taken.shadow_attempt_id ≡ some "t1")
    × (taken.shadow_attempt_expires_at ≡ some (20 + seconds settings.shadow_lease_seconds))
    × (begin settings "t3" 30 "x1" (run_all meanwhile exporting)
        ≡ (ok (settled (outcome "x1" "EXPORTING")), run_all meanwhile exporting))
begin_exclusive_example =
    begin_exclusive settings settings "t1" "t3" 20 30 "x1" attempt approved exporting meanwhile
      taken keyed is_started leaves_alone (omega arith) has_taken

-- The lease of the first attempt has run out.
abbrev taken_over : Tables
taken_over = (begin settings "t2" 60000020 "x1" exporting).1

abbrev second : Attempt
second = record attempt { attempt_id = "t2" }

is_taken_over : begin settings "t2" 60000020 "x1" exporting ≡ (ok (started second), taken_over)
unfolding program
is_taken_over = refl

abbrev export : Export
export = record {
  id = "e1";
  is_succeeded = true;
  total_count = 2;
  exported_count = 2;
  skipped_count = 0;
}

attempt_fenced_example :
    (give_up 60000030 attempt taken_over ≡ (ok (outcome "x1" "EXPORTING"), taken_over))
    × (finish 60000030 attempt export true taken_over ≡ (ok (outcome "x1" "EXPORTING"), taken_over))
attempt_fenced_example =
    attempt_fenced settings "t2" 60000020 60000030 attempt second export true exporting taken_over
      is_taken_over refl

-- The proposal after it has been hidden.
abbrev hidden_twins : Proposal
hidden_twins = record twins { status = "SHADOWED" }

abbrev hidden_copy : Memory
hidden_copy = record copy { consolidation_state = merged; shadowed_by_proposal_id = some "x1" }

abbrev hidden : Tables
hidden = record tables { proposals = hidden_twins ∷ []; memories = note ∷ hidden_copy ∷ [] }

abbrev again : Approval
again = record approval { expected_status = "SHADOWED" }

request_approval_of_hidden_example :
    ((request_approval settings again 40 "x1" hidden).0 ≡ ok (decided (outcome "x1" "STALE")))
    × ((request_approval settings again 40 "x1" hidden).1.memories ≡ note ∷ hidden_copy ∷ [])
    × ((rollback_shadowed 50 "x1" (request_approval settings again 40 "x1" hidden).1).0
        ≡ err (conflict_error "proposal is not shadowed"))
unfolding program
request_approval_of_hidden_example =
    request_approval_of_hidden settings again 40 50 "x1" hidden hidden_twins tt ("m1" ∷ "m2" ∷ [])
      hidden_copy refl refl refl (inr (inl refl)) refl refl refl
