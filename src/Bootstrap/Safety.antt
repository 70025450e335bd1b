-- ===== src/Bootstrap/Safety.antt =====
-- What a run of the coordinator keeps: predicates on the journal's file and on the trace. The proofs
-- are in the modules below, which follow internal/bootstrap/cluster.go.
pub mod Verifying
pub mod Executing
pub mod Writing
pub mod Committing
pub mod Running
pub mod Starting
use sovereignite.Base.{
  Bytes, ℕ, ◌≤◌, true, Option, none, some, List, [], ◌∷◌, ◌++◌, All, length, get_elem?, ◌≡◌, refl,
}
use sovereignite.Bootstrap.Step.{Step, ordered_steps}
use sovereignite.Bootstrap.Error.{Error, is_clean}
use sovereignite.Bootstrap.Journal.{JournalState, in_progress, Attempt, StepRecord, Journal}
use sovereignite.Bootstrap.Request.{operation_of}
use sovereignite.Bootstrap.Machine.{Env, Event, Sys}
use sovereignite.Bootstrap.Store.Laws.{Codec, IsStored, Holds, On}
use sovereignite.Bootstrap.Coordinator.Requests.{Coordinator, validate_evidence, operation}

-- The same transaction, at least as far: no recorded step is lost or changed.
pub record Extends (j0 j : Journal) : Type 0 where
  pub transaction : j.transaction_id ≡ j0.transaction_id
  pub bootstrap : j.bootstrap_version ≡ j0.bootstrap_version
  pub configuration : j.configuration_sha256 ≡ j0.configuration_sha256
  pub revision : j0.revision ≤ j.revision
  pub added : List StepRecord
  pub steps : j.steps ≡ j0.steps ++ added

-- What the file held at first, and what it holds later.
abbrev pub Since : Option Journal → Option Journal → Type 0
Since none r = Unit
Since (some j0) none = ⊥
Since (some j0) (some j) = Extends j0 j

module _ (e : Env) (c : Coordinator) where
  -- When the action was called, the file held a valid journal in progress whose current attempt is of the
  -- next step in order, and the operation is the one of that transaction and that step.
  pub record IsIntended (event : Event) : Type 0 where
    pub journal : Journal
    pub stored : IsStored e journal event.file
    pub going : journal.state ≡ in_progress
    pub attempt : Attempt
    pub current : journal.current ≡ some attempt
    pub next : get_elem? ordered_steps (length journal.steps) ≡ some attempt.step
    pub operation : operation_of event.action ≡ operation e.digests c journal attempt.step

  -- The evidence of each record names the selected versions and artifacts.
  abbrev pub AllBound : List StepRecord → Type 0
  AllBound = All (λ r. validate_evidence c r.step r.evidence ≡ none)

  module _ (r0 : Option Journal) where
    -- The file holds exactly this journal.
    pub record IsKnown (j : Journal) (f : Option Bytes) (t : List Event) : Type 0 where
      pub stored : IsStored e j f
      pub since : Since r0 (some j)
      pub traced : All IsIntended t

    -- The file holds a journal, or none.
    pub record IsSafe (f : Option Bytes) (t : List Event) : Type 0 where
      pub journal : Option Journal
      pub holds : Holds e journal f
      pub since : Since r0 journal
      pub traced : All IsIntended t

    -- After an error: a clean one, and nothing is lost.
    abbrev pub Failure : Error → Sys e.World → Type 0
    Failure er s = (is_clean er ≡ true) × IsSafe s.file s.trace

    pub IsKnown-IsSafe :
        (j : Journal) (f : Option Bytes) (t : List Event) → IsKnown j f t → IsSafe f t
    IsKnown-IsSafe j f t k = record {
      journal = some j;
      holds = k.stored;
      since = k.since;
      traced = k.traced;
    }
