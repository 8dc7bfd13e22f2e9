-- ===== src/Service/Checked.antt =====
-- What the check of the sources says of each row.
use mem0_platform_sidecar.Prelude.{
  String, ◌≡◌, refl, sym, ap, Bool, true, Option, none, some, List, [], ◌∷◌, arith, and_true, all,
  In, ◌==◌, eq_iff, Bool-cases, inl, inr,
}
use mem0_platform_sidecar.Prelude.Tables.{IsKeyed, row_of_key}
use mem0_platform_sidecar.Prelude.Result.{ok}
use mem0_platform_sidecar.Prelude.Fallible.{ok_inj}
use mem0_platform_sidecar.Json.{Fields}
use mem0_platform_sidecar.Consolidation.Rows.{Proposal}
use mem0_platform_sidecar.Consolidation.Proposals.{source_ids}
use mem0_platform_sidecar.Memories.Rows.{State, Memory}
use mem0_platform_sidecar.Memories.Reads.{is_among, in_reach}
use mem0_platform_sidecar.Memories.ById.{list_memories_by_ids_lem}
use mem0_platform_sidecar.Service.Rows.{Tables}
use mem0_platform_sidecar.Service.Sources.{
  keys, same_set, memory_ids, is_as_expected, checked, proposal_sources,
}
use mem0_platform_sidecar.Service.Shadow.{is_row_of}

abbrev pub row_id : Memory → String
row_id memory = memory.id

all-In : {A : Type 0} (p : A → Bool) (xs : List A) (a : A) → all p xs ≡ true → In a xs → p a ≡ true
all-In p [] a h m = elim m [ ]
all-In p (x ∷ xs) a h (inl e) = rw e (and_true _ _ h).0
all-In p (x ∷ xs) a h (inr m) = all-In p xs a (and_true _ _ h).1 m

not_none : (sources : List Memory) → ◌≡◌ {A = Option (List Memory)} none (some sources) → ⊥
not_none sources h = cc

checked-all :
    (hashes : Fields) (state : State) (p : Proposal) (ids : List String)
    (rows sources : List Memory)
    → checked hashes state p ids rows ≡ some sources
    → all (is_as_expected hashes state) rows ≡ true
unfolding checked
checked-all hashes state p ids rows sources h = elim (Bool-cases (same_set (memory_ids rows) ids)) [
  | inr u ↦ absurd (not_none sources (rw (checked, u) at h))
  | inl u ↦ elim (Bool-cases (all (is_as_expected hashes state) rows)) [
    | inr v ↦ absurd (not_none sources (rw (checked, u, v) at h))
    | inl v ↦ v
  ]
]

-- A row in reach whose id is a source's is as the proposal expects.
pub proposal_sources-In :
    (p : Proposal) (hashes : Fields) (state : State) (s : Tables) (ids : List String)
    (sources : List Memory) (memory : Memory)
    → proposal_sources p hashes state s ≡ ok (some sources)
    → source_ids p.source_ids_json ≡ ok ids
    → In memory s.memories
    → is_among ids memory.mem0_memory_id ≡ true
    → in_reach p.project_id (some p.app_id) true true memory ≡ true
    → is_as_expected hashes state memory ≡ true
unfolding proposal_sources
proposal_sources-In p hashes state s ids sources memory h e m i r =
    elim (Bool-cases (same_set (keys hashes) ids)) [
      | inr u ↦ absurd (not_none sources (ok_inj (rw (proposal_sources, e, u) at h)))
      | inl u ↦
          let h' = ok_inj (rw (proposal_sources, e, u) at h) in
          let all_good = checked-all hashes state p ids _ sources h' in
          let listed =
            (list_memories_by_ids_lem p.project_id (some p.app_id) ids true true s.memories
                memory).1
              (m, i, r) in
          all-In (is_as_expected hashes state) _ memory all_good listed
    ]

-- The rows of a table that `sources` selects are the sources, where these are rows of the table.
pub is_row_of-In :
    (rows sources : List Memory) (memory : Memory)
    → IsKeyed row_id rows
    → ((a : Memory) → In a sources → In a rows)
    → In memory rows
    → is_row_of sources memory ≡ true
    → In memory sources
is_row_of-In rows [] memory k sub m h = absurd (cc)
is_row_of-In rows (source ∷ sources) memory k sub m h = elim (Bool-cases (source.id == memory.id)) [
  | inl e ↦ inl (sym (row_of_key row_id rows source memory k (sub source (inl refl)) m e))
  | inr e ↦ inr (is_row_of-In rows sources memory k (λ a i. sub a (inr i)) m (ground arith))
]

pub In-is_row_of :
    (sources : List Memory) (memory : Memory) → In memory sources → is_row_of sources memory ≡ true
In-is_row_of [] memory m = absurd m
In-is_row_of (source ∷ sources) memory (inl e) =
    ground (arith, ap row_id e, eq_iff source.id memory.id)
In-is_row_of (source ∷ sources) memory (inr m) = ground (arith, In-is_row_of sources memory m)
