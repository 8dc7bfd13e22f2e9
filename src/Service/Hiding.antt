-- ===== src/Service/Hiding.antt =====
-- What `shadow_approved` hides when it ends.
pub mod RoundTrip
use mem0_platform_sidecar.Prelude.{
  ℕ, String, ◌≡◌, refl, sym, ap, ◌∙◌, ◌⊎◌, inl, inr, Bool, true, false, not, ◌&&◌, Option, none,
  some, List, arith, and_true, eqb, length, In, if◌then◌else◌, ◌==◌, eq_iff, subst, Bool-cases,
}
use mem0_platform_sidecar.Prelude.Text.{opt_eqb}
use mem0_platform_sidecar.Prelude.Tables.{IsKeyed, In-update_rows}
use mem0_platform_sidecar.Prelude.Result.{Error, Result, ok, err}
use mem0_platform_sidecar.Prelude.Fallible.{ok_inj, Result-cases}
use mem0_platform_sidecar.Json.{Fields}
use mem0_platform_sidecar.Consolidation.Rows.{Proposal}
use mem0_platform_sidecar.Consolidation.Proposals.{source_ids}
use mem0_platform_sidecar.Memories.Rows.{active, Memory}
use mem0_platform_sidecar.Memories.Reads.{is_among, in_reach, list_memories_by_ids}
use mem0_platform_sidecar.Memories.ById.{is_among-without, list_memories_by_ids_lem}
use mem0_platform_sidecar.Service.Rows.{Tables, Outcome, outcome, change_proposal}
use mem0_platform_sidecar.Service.Sources.{is_as_expected, proposal_sources}
use mem0_platform_sidecar.Service.Shadow.{
  Attempt, shadowed_result, locked, owns, resume, Export, is_complete, target_ids, hide, is_row_of,
  hide_rows, shadow_export, shadow_sources, end_exported, finish_owned, finish,
}
use mem0_platform_sidecar.Service.Checked.{row_id, proposal_sources-In, is_row_of-In}

abbrev pub Reply : Type 0
Reply = Result Outcome × Tables

-- The memories are as before, and the answer is not SHADOWED.
abbrev pub IsKept : Tables → Reply → Type 0
IsKept s x =
    (x.1.memories ≡ s.memories) × ((o : Outcome) → x.0 ≡ ok o → (o.status == "SHADOWED") ≡ false)

module _ (now : ℕ) (attempt : Attempt) (s : Tables) (p : Proposal) where
  abbrev pub targets_of : List String
  targets_of = target_ids p.canonical_memory_id attempt.ids

  abbrev pub hidden_rows : List Memory
  hidden_rows = list_memories_by_ids p.project_id (some p.app_id) targets_of false true s.memories

  -- The sources have been checked, and those that are not canonical are hidden.
  abbrev pub HasHidden : Reply → Type 0
  HasHidden x =
      (export_id : String) × (sources : List Memory) × (proposal_sources p attempt.hashes active s
        ≡ ok (some sources))
      × (x.1
          ≡ change_proposal p.id (shadow_export now attempt.grace_days export_id)
              (hide_rows p now hidden_rows s))

  abbrev ResultOf : Reply → Type 0
  ResultOf x = IsKept s x ⊎ HasHidden x

  not_shadowed :
      (o : Outcome) (t : Tables)
      → t.memories ≡ s.memories
      → (o.status == "SHADOWED") ≡ false
      → ResultOf (ok o, t)
  not_shadowed o t same n = inl (
    same,
    λ o' e.
        let e' : ◌≡◌ {A = Result Outcome} (ok o) (ok o') = e in
        let k : o.status ≡ o'.status = ap (λ x. x.status) (ok_inj e') in
        subst_status o.status o'.status k n,
  )
    where
      subst_status : (a b : String) → a ≡ b → (a == "SHADOWED") ≡ false → (b == "SHADOWED") ≡ false
      subst_status a b e n = rw e at n

  raised : (e : Error) → ResultOf (err e, s)
  raised e = inl (refl, λ o h. let h' : ◌≡◌ {A = Result Outcome} (err e) (ok o) = h in absurd (cc))

  shadow_sources-cases :
      (export_id : String) (sources : List Memory)
      → proposal_sources p attempt.hashes active s ≡ ok (some sources)
      → ResultOf (shadow_sources now attempt export_id p s)
  unfolding shadow_sources
  shadow_sources-cases export_id sources h =
      elim (Bool-cases (eqb (length hidden_rows) (length targets_of))) [
        | inl e ↦ rw (shadow_sources, e) (inr (export_id, sources, h, refl))
        | inr e ↦ rw (shadow_sources, e) (not_shadowed (outcome p.id "STALE") _ refl refl)
      ]

  finish_owned-cases :
      (export : Export) (still_match : Bool)
      → ResultOf (finish_owned now attempt export still_match p s)
  unfolding finish_owned
  finish_owned-cases export still_match =
      let reply = finish_owned now attempt export still_match p s in
      elim (Bool-cases (is_complete export (length attempt.ids))) [
        | inr u ↦ rw (finish_owned, u) (ending export.is_succeeded)
        | inl u ↦ elim (Bool-cases still_match) [
          | inr v ↦ rw (finish_owned, u, v) (not_shadowed (outcome p.id "STALE") _ refl refl)
          | inl v ↦ elim (Result-cases (proposal_sources p attempt.hashes active s)) [
            | inr (e, w) ↦
                subst ResultOf (sym (let k : reply ≡ (err e, s) = rw (finish_owned, u, v, w) in k))
                  (raised e)
            | inl (none, w) ↦
                subst ResultOf
                  (sym (
                    let k : reply ≡ end_exported "STALE" now export.id p s =
                      rw (finish_owned, u, v, w) in
                    k))
                  (not_shadowed (outcome p.id "STALE") _ refl refl)
            | inl (some sources, w) ↦
                subst ResultOf
                  (sym (
                    let k : reply ≡ shadow_sources now attempt export.id p s =
                      rw (finish_owned, u, v, w) in
                    k))
                  (shadow_sources-cases export.id sources w)
          ]
        ]
      ]
    where
      ending :
          (b : Bool) → ResultOf (end_exported (if b then "STALE" else "FAILED") now export.id p s)
      ending true = not_shadowed (outcome p.id "STALE") _ refl refl
      ending false = not_shadowed (outcome p.id "FAILED") _ refl refl

  pub finish-cases :
      (export : Export) (still_match : Bool)
      → locked attempt.proposal_id s ≡ ok p
      → (p.status == "SHADOWED") ≡ false
      → IsKept s (finish now attempt export still_match s)
        ⊎ HasHidden (finish now attempt export still_match s)
  unfolding finish resume
  finish-cases export still_match l n = elim (Bool-cases (owns attempt.attempt_id p)) [
    | inr u ↦ rw (finish, resume, l, n, u) (not_shadowed (outcome p.id p.status) s refl n)
    | inl u ↦ rw (finish, resume, l, n, u) (finish_owned-cases export still_match)
  ]

  finish_again :
      (export : Export) (still_match : Bool)
      → locked attempt.proposal_id s ≡ ok p
      → (p.status == "SHADOWED") ≡ true
      → (finish now attempt export still_match s).1 ≡ s
  unfolding finish resume
  finish_again export still_match l e = rw (finish, resume, l, e)

  is_among-targets :
      (memory : Memory)
      → is_among targets_of memory.mem0_memory_id ≡ true
      → (is_among attempt.ids memory.mem0_memory_id ≡ true)
        × (opt_eqb p.canonical_memory_id (some memory.mem0_memory_id) ≡ false)
  is_among-targets memory h = go p.canonical_memory_id h
    where
      go :
          (canonical : Option String)
          → is_among (target_ids canonical attempt.ids) memory.mem0_memory_id ≡ true
          → (is_among attempt.ids memory.mem0_memory_id ≡ true)
            × (opt_eqb canonical (some memory.mem0_memory_id) ≡ false)
      go none h = (h, refl)
      go (some c) h =
          let parts =
            and_true _ _ (sym (is_among-without c attempt.ids memory.mem0_memory_id) ∙ h) in
          (parts.0, ground (arith, parts.1))

  -- What is known of a row that is hidden.
  abbrev pub IsSource : Memory → Type 0
  IsSource memory =
      (is_as_expected attempt.hashes active memory ≡ true)
      × (is_among attempt.ids memory.mem0_memory_id ≡ true)
      × (opt_eqb p.canonical_memory_id (some memory.mem0_memory_id) ≡ false)

  pub hidden_rows-IsSource :
      (sources : List Memory) (memory : Memory)
      → proposal_sources p attempt.hashes active s ≡ ok (some sources)
      → source_ids p.source_ids_json ≡ ok attempt.ids
      → In memory hidden_rows
      → In memory s.memories × IsSource memory
  hidden_rows-IsSource sources memory h e m =
      let (i, among, reach) =
        (list_memories_by_ids_lem p.project_id (some p.app_id) targets_of false true s.memories
            memory).0
          m in
      let (source, other) = is_among-targets memory among in
      (
        i,
        (
          proposal_sources-In p attempt.hashes active s attempt.ids sources memory h e i source
              (ground (arith, reach)),
          source,
          other,
        ),
      )

-- When a worker finishes an attempt on the sources that the proposal names, every memory of the table
-- afterwards either stood there before, or is the hidden form of a source that stood there, that was
-- active, not deleted and not pinned with the hash the proposal expects, and that is not the canonical
-- memory. The ids of the rows are distinct, and the proposal and its project are there.
pub finish-hides :
    (now : ℕ) (attempt : Attempt) (export : Export) (still_match : Bool) (s : Tables) (p : Proposal)
    (after : Memory)
    → IsKeyed row_id s.memories
    → locked attempt.proposal_id s ≡ ok p
    → source_ids p.source_ids_json ≡ ok attempt.ids
    → In after (finish now attempt export still_match s).1.memories
    → In after s.memories
      ⊎ ((before : Memory) × In before s.memories
          × (after ≡ hide p now before)
          × IsSource now attempt s p before)
finish-hides now attempt export still_match s p after keyed l ids m =
    elim (Bool-cases (p.status == "SHADOWED")) [
      | inl e ↦
          inl (
            subst (λ t. In after t.memories) (finish_again now attempt s p export still_match l e)
              m)
      | inr n ↦ elim (finish-cases now attempt s p export still_match l n) [
        | inl kept ↦ inl (subst (In after) kept.0 m)
        | inr (export_id, sources, checked, changed) ↦
            let (before, i, e) =
              In-update_rows (is_row_of (hidden_rows now attempt s p)) (hide p now) after s.memories
                (subst (λ t. In after t.memories) changed m) in
            elim (Bool-cases (is_row_of (hidden_rows now attempt s p) before)) [
              | inr u ↦ inl (subst (λ x. In x s.memories) (sym (rw u at e)) i)
              | inl u ↦
                  let sub = λ (a : Memory) (n : In a (hidden_rows now attempt s p)).
                    (hidden_rows-IsSource now attempt s p sources a checked ids n).0 in
                  let listed =
                    is_row_of-In s.memories (hidden_rows now attempt s p) before keyed sub i u in
                  inr (
                    before,
                    i,
                    rw u at e,
                    (hidden_rows-IsSource now attempt s p sources before checked ids listed).1,
                  )
            ]
      ]
    ]
