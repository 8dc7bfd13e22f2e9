-- ===== src/Service/Moves.antt =====
-- The life of a proposal as a machine, and the methods of the service as steps of it. What is hidden
-- from approval to rollback is modelled here; the deletions of `finalize_shadowed` are not steps of it.
use mem0_platform_sidecar.Prelude.{
  ℕ, ◌≤◌, String, ◌≡◌, ◌⊎◌, refl, sym, Bool, true, false, Option, none, some, List, [], ◌∷◌, In,
  All, if◌then◌else◌, ◌==◌, Bool-cases, inl, inr, subst,
}
use mem0_platform_sidecar.Prelude.Tables.{IsKeyed, update_rows, row_of_key}
use mem0_platform_sidecar.Consolidation.Rows.{Proposal}
use mem0_platform_sidecar.Consolidation.Proposals.{proposal_has_id}

-- The statuses that matter here. `waiting` is any other: PENDING, OBSERVED, REVIEW_REQUIRED and so on.
pub data Phase : Type 0 where
  waiting approved exporting hidden rolled_back outdated failed : Phase

unfoldable pub phase : String → Phase
phase status =
    if status == "APPROVED"
    then approved
    else if status == "EXPORTING"
    then exporting
    else if status == "SHADOWED"
    then hidden
    else if status == "ROLLED_BACK"
    then rolled_back
    else if status == "STALE"
    then outdated
    else if status == "FAILED"
    then failed
    else waiting

-- What the machine knows of a proposal: its phase, and the attempt that has it and until when.
pub record State : Type 0 where
  pub phase : Phase
  pub attempt : Option String
  pub expiry : Option ℕ

abbrev pub state_of : Proposal → State
state_of proposal = record {
  phase = phase proposal.status;
  attempt = proposal.shadow_attempt_id;
  expiry = proposal.shadow_attempt_expires_at;
}

abbrev pub in_phase : Phase → State → State
in_phase to s = record s { phase = to }

-- No attempt has the proposal.
abbrev pub free : Phase → State
free to = record { phase = to; attempt = none; expiry = none }

-- What a worker wants of a proposal: to approve it from that phase, to approve it with the memory that
-- it has added meanwhile, to start the attempt of that id at that time until that time, to end the
-- attempt of that id, or to roll the proposal back.
pub data Action : Type 0 where
  approving : Phase → Action
  replacing : Action
  starting : String → ℕ → ℕ → Action
  ending : String → Action
  rolling_back : Action

abbrev pub HasEnded : ℕ → Option ℕ → Type 0
HasEnded now none = Unit
HasEnded now (some expiry) = expiry ≤ now

-- An attempt may start: on an approved proposal, or on one of which no attempt runs any more.
abbrev pub IsReady : ℕ → State → Type 0
IsReady now s =
    (s.phase ≡ approved) ⊎ ((s.phase ≡ exporting) × ((s.attempt ≡ none) ⊎ HasEnded now s.expiry))

-- A step of the machine for an action. Only `replaces` and `misses` may leave any phase, since the
-- code does not look at the status again once it has added a memory.
pub data Step (s t : State) : Action → Type 0 where
  refused : {a : Action} → t ≡ s → Step s t a
  approves :
      {expected : Phase}
      → s.phase ≡ expected
      → t ≡ in_phase approved s
      → Step s t (approving expected)
  expires :
      {expected : Phase}
      → s.phase ≡ expected
      → t ≡ in_phase outdated s
      → Step s t (approving expected)
  replaces : t ≡ in_phase approved s → Step s t replacing
  misses : t ≡ in_phase outdated s → Step s t replacing
  starts :
      {id : String} {now expiry : ℕ}
      → IsReady now s
      → t ≡ record { phase = exporting; attempt = some id; expiry = some expiry }
      → Step s t (starting id now expiry)
  lapses :
      {id : String} {now expiry : ℕ}
      → IsReady now s
      → t ≡ in_phase outdated s
      → Step s t (starting id now expiry)
  hides :
      {id : String}
      → s.phase ≡ exporting
      → s.attempt ≡ some id
      → t ≡ free hidden
      → Step s t (ending id)
  fails :
      {id : String}
      → s.phase ≡ exporting
      → s.attempt ≡ some id
      → t ≡ free failed
      → Step s t (ending id)
  abandons :
      {id : String}
      → s.phase ≡ exporting
      → s.attempt ≡ some id
      → (t ≡ free outdated) ⊎ (t ≡ in_phase outdated s)
      → Step s t (ending id)
  shows : s.phase ≡ hidden → t ≡ in_phase rolled_back s → Step s t rolling_back

abbrev pub id_of : Proposal → String
id_of proposal = proposal.id

-- A row makes a step if the action is aimed at it, and else it stays as it is.
abbrev pub Moves : Bool → Action → Proposal → Proposal → Type 0
Moves true a p q = Step (state_of p) (state_of q) a
Moves false a p q = q ≡ p

-- The second table has the proposals of the first one, in their order, and the one of that id is a
-- step of that action later.
abbrev pub Follows : String → Action → List Proposal → List Proposal → Type 0
Follows id a [] [] = Unit
Follows id a [] (q ∷ qs) = ⊥
Follows id a (p ∷ ps) [] = ⊥
Follows id a (p ∷ ps) (q ∷ qs) = (p.id ≡ q.id) × Moves (p.id == id) a p q × Follows id a ps qs

Moves-refl : (b : Bool) (a : Action) (p : Proposal) → Moves b a p p
Moves-refl true a p = refused refl
Moves-refl false a p = refl

pub Follows-refl : (id : String) (a : Action) (rows : List Proposal) → Follows id a rows rows
Follows-refl id a [] = tt
Follows-refl id a (p ∷ ps) = (refl, Moves-refl (p.id == id) a p, Follows-refl id a ps)

module _ (a : Action) (p : Proposal) (f : Proposal → Proposal) where
  update-Follows :
      (rows : List Proposal)
      → ((q : Proposal) → (f q).id ≡ q.id)
      → Step (state_of p) (state_of (f p)) a
      → ((q : Proposal) → In q rows → (q.id == p.id) ≡ true → q ≡ p)
      → Follows p.id a rows (update_rows (proposal_has_id p.id) f rows)
  unfolding update_rows
  update-Follows [] same step only = tt
  update-Follows (q ∷ qs) same step only =
      let rest = update-Follows qs same step (λ r m. only r (inr m)) in
      elim (Bool-cases (q.id == p.id)) [
        | inl t ↦ rw t (
          sym (same q),
          subst (λ x. Step (state_of x) (state_of (f x)) a) (sym (only q (inl refl) t)) step,
          rest,
        )
        | inr t ↦ rw t (refl, refl, rest)
      ]

-- The change of one row is a step of the table, if it is a step of that row.
pub Follows-update_rows :
    (a : Action) (rows : List Proposal) (p : Proposal) (f : Proposal → Proposal)
    → IsKeyed id_of rows
    → In p rows
    → ((q : Proposal) → (f q).id ≡ q.id)
    → Step (state_of p) (state_of (f p)) a
    → Follows p.id a rows (update_rows (proposal_has_id p.id) f rows)
Follows-update_rows a rows p f keyed m same step =
    update-Follows a p f rows same step (λ q n t. row_of_key id_of rows q p keyed n m t)

-- The change of the rows of an id is a step of the table, if it is a step of every row.
pub Follows-update_all :
    (a : Action) (id : String) (f : Proposal → Proposal) (rows : List Proposal)
    → ((q : Proposal) → ((f q).id ≡ q.id) × Step (state_of q) (state_of (f q)) a)
    → Follows id a rows (update_rows (proposal_has_id id) f rows)
unfolding update_rows
Follows-update_all a id f [] step = tt
Follows-update_all a id f (q ∷ qs) step =
    let rest = Follows-update_all a id f qs step in
    elim (Bool-cases (q.id == id)) [
      | inl t ↦ rw t (sym (step q).0, (step q).1, rest)
      | inr t ↦ rw t (refl, refl, rest)
    ]

module _ (target : String) (a : Action) where
  All-Follows :
      (id : String) (ps qs : List Proposal)
      → Follows target a ps qs
      → All (λ p. (p.id == id) ≡ false) ps
      → All (λ q. (q.id == id) ≡ false) qs
  All-Follows id [] [] h k = tt
  All-Follows id [] (q ∷ qs) h k = absurd h
  All-Follows id (p ∷ ps) [] h k = absurd h
  All-Follows id (p ∷ ps) (q ∷ qs) h k = (rw h.0 at k.0, All-Follows id ps qs h.2 k.1)

  pub IsKeyed-Follows :
      (ps qs : List Proposal) → Follows target a ps qs → IsKeyed id_of ps → IsKeyed id_of qs
  IsKeyed-Follows [] [] h k = tt
  IsKeyed-Follows [] (q ∷ qs) h k = absurd h
  IsKeyed-Follows (p ∷ ps) [] h k = absurd h
  IsKeyed-Follows (p ∷ ps) (q ∷ qs) h k = (
    subst (λ x. All (λ r. (r.id == x) ≡ false) qs) h.0 (All-Follows p.id ps qs h.2 k.0),
    IsKeyed-Follows ps qs h.2 k.1,
  )
