-- ===== src/Service/Refinement/Histories.antt =====
-- The calls of any number of workers, in any order.
use mem0_platform_sidecar.Prelude.{ℕ, ◌+◌, String, ◌≡◌, refl, Bool, List, [], ◌∷◌}
use mem0_platform_sidecar.Prelude.Tables.{IsKeyed}
use mem0_platform_sidecar.Prelude.Result.{Result}
use mem0_platform_sidecar.Json.{Fields}
use mem0_platform_sidecar.Consolidation.Rows.{Proposal}
use mem0_platform_sidecar.Service.Rows.{Tables, Settings, seconds}
use mem0_platform_sidecar.Service.Upstream.{Server}
use mem0_platform_sidecar.Service.Approve.{Approval, request_approval, approve_replacement}
use mem0_platform_sidecar.Service.Shadow.{Attempt, begin, give_up, Export, finish}
use mem0_platform_sidecar.Service.Rollback.{rollback_shadowed}
use mem0_platform_sidecar.Service.Moves.{
  phase, Action, approving, replacing, starting, ending, rolling_back, id_of, Follows,
  IsKeyed-Follows,
}
use mem0_platform_sidecar.Service.Refinement.Ends.{
  give_up-Follows, finish-Follows, rollback_shadowed-Follows,
}
use mem0_platform_sidecar.Service.Refinement.Approvals.{
  begin-Follows, request_approval-Follows, approve_replacement-Follows,
}

-- The part of a method between two awaits, at an instant.
pub data Command : Type 0 where
  requests : Settings → Approval → String → Command
  replaces : Server → Result Fields → Approval → String → String → Tables → Command
  begins : Settings → String → String → Command
  gives_up : Attempt → Command
  finishes : Attempt → Export → Bool → Command
  rolls_back : String → Command

abbrev pub run : Command → ℕ → Tables → Tables
run (requests settings approval id) now s = (request_approval settings approval now id s).1
run (replaces server added approval project_id id view) now s =
    (approve_replacement server added approval now project_id id view s).1
run (begins settings attempt_id id) now s = (begin settings attempt_id now id s).1
run (gives_up attempt) now s = (give_up now attempt s).1
run (finishes attempt export still_match) now s = (finish now attempt export still_match s).1
run (rolls_back id) now s = (rollback_shadowed now id s).1

abbrev pub run_all : List (Command × ℕ) → Tables → Tables
run_all [] s = s
run_all ((command, now) ∷ rest) s = run_all rest (run command now s)

-- The id of the proposal that a command is for.
abbrev pub aim : Command → String
aim (requests settings approval id) = id
aim (replaces server added approval project_id id view) = id
aim (begins settings attempt_id id) = id
aim (gives_up attempt) = attempt.proposal_id
aim (finishes attempt export still_match) = attempt.proposal_id
aim (rolls_back id) = id

-- The action of the machine that a command at an instant is.
abbrev pub action : Command → ℕ → Action
action (requests settings approval id) now = approving (phase approval.expected_status)
action (replaces server added approval project_id id view) now = replacing
action (begins settings attempt_id id) now =
    starting attempt_id now (now + seconds settings.shadow_lease_seconds)
action (gives_up attempt) now = ending attempt.attempt_id
action (finishes attempt export still_match) now = ending attempt.attempt_id
action (rolls_back id) now = rolling_back

run-Follows :
    (command : Command) (now : ℕ) (s : Tables)
    → IsKeyed id_of s.proposals
    → Follows (aim command) (action command now) s.proposals (run command now s).proposals
run-Follows (requests settings approval id) now s k =
    request_approval-Follows s k settings approval now id
run-Follows (replaces server added approval project_id id view) now s k =
    approve_replacement-Follows s k approval now project_id id view server added
run-Follows (begins settings attempt_id id) now s k = begin-Follows s k settings attempt_id now id
run-Follows (gives_up attempt) now s k = give_up-Follows s k now attempt
run-Follows (finishes attempt export still_match) now s k =
    finish-Follows s k now attempt export still_match
run-Follows (rolls_back id) now s k = rollback_shadowed-Follows s k now id

-- The machine runs through the history: each command is its action on the proposal that it is for.
abbrev pub Runs : List (Command × ℕ) → List Proposal → List Proposal → Type 0
Runs [] ps qs = qs ≡ ps
Runs ((command, now) ∷ rest) ps rs =
    (qs : List Proposal) × Follows (aim command) (action command now) ps qs × Runs rest qs rs

-- Whatever parts of approvals, of attempts to shadow and of rollbacks the workers run, in whatever
-- order and at whatever instants, on proposals with distinct ids the machine runs with them: each
-- part changes at most the proposal that it is for, and that one by a step that the machine allows
-- for the part's own action in the phase, and under the attempt, that the proposal has by then.
pub run_all-Runs :
    (history : List (Command × ℕ)) (s : Tables)
    → IsKeyed id_of s.proposals
    → Runs history s.proposals (run_all history s).proposals
run_all-Runs [] s k = refl
run_all-Runs ((command, now) ∷ rest) s k =
    let step = run-Follows command now s k in
    let after = (run command now s).proposals in
    let k' = IsKeyed-Follows (aim command) (action command now) s.proposals after step k in
    (after, step, run_all-Runs rest (run command now s) k')
