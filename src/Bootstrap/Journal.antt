-- ===== src/Bootstrap/Journal.antt =====
-- internal/bootstrap/journal.go: the durable journal and `validateJournal`. `cloneJournal` copies
-- shared slices and pointers; on values it is the identity and has no counterpart here.
pub mod Validity
pub mod Accepted
pub mod Clean
use sovereignite.Base.{
  Bytes, same, codes, ℕ, zero, suc, ◌+◌, Bool, true, false, not, ◌&&◌, ◌||◌, Option, none, some,
  List, [], ◌∷◌, ◌++◌, leb, ltb, ◌==◌, fail_if, first_error, is_some, length, get_elem?,
  if◌then◌else◌,
}
use sovereignite.Bootstrap.Step.{
  Step, tpm_key_manager_ca_signing, kubelet_config, calico_ipv6, istio_ingress, spire_tpm_config,
  initialize_api_server, wait_control_plane, apply_cluster_configs, mark_complete, Component,
  key_manager, kubernetes, calico, istio, spire, dex, ordered_steps, same_step, same_component,
  step_index, step_text,
}
use sovereignite.Bootstrap.Error
use sovereignite.Bootstrap.Error.{Error}
use sovereignite.Bootstrap.Identifier.{
  validate_pinned_identifier, valid_sha256, valid_transaction_id,
}

-- `time.Time`: nanoseconds since its zero value, and whether its location is `time.UTC`.
pub record Time : Type 0 where
  pub instant : ℕ
  pub utc : Bool

pub record Observation : Type 0 where
  pub component : Component
  pub version : Bytes
  pub artifact_sha256 : Bytes
  pub resource_sha256 : Bytes
  pub ready : Bool

-- `Evidence` has one field, its observations.
abbrev pub Evidence : Type 0
Evidence = List Observation

pub data JournalState : Type 0 where
  in_progress complete failed : JournalState
  other_state : Bytes → JournalState

pub record Attempt : Type 0 where
  pub step : Step
  pub started_at : Time
  pub attempts : ℕ  -- uint64

pub record StepRecord : Type 0 where
  pub step : Step
  pub evidence : Evidence
  pub completed_at : Time

pub data FailureCode : Type 0 where
  failure_action failure_verification failure_prepared : FailureCode
  other_code : Bytes → FailureCode

pub record Failure : Type 0 where
  pub step : Step
  pub code : FailureCode
  pub message : Bytes
  pub at_time : Time

pub record Journal : Type 0 where
  pub version : ℕ  -- uint32
  pub revision : ℕ  -- uint64
  pub transaction_id : Bytes
  pub bootstrap_version : Bytes
  pub configuration_sha256 : Bytes
  pub state : JournalState
  pub prepared : Bool
  pub prepared_at : Option Time
  pub steps : List StepRecord
  pub current : Option Attempt
  pub failure : Option Failure
  pub updated_at : Time

abbrev pub journal_version : ℕ
journal_version = 1

-- The nil slice of `expectedComponents` and of the default clauses is the empty list.
unfoldable pub expected_components : Step → List Component
expected_components tpm_key_manager_ca_signing = key_manager ∷ []
expected_components kubelet_config = kubernetes ∷ []
expected_components initialize_api_server = kubernetes ∷ []
expected_components wait_control_plane = kubernetes ∷ []
expected_components calico_ipv6 = calico ∷ []
expected_components istio_ingress = istio ∷ []
expected_components spire_tpm_config = spire ∷ []
expected_components apply_cluster_configs = kubernetes ∷ calico ∷ istio ∷ spire ∷ dex ∷ []
expected_components mark_complete = kubernetes ∷ calico ∷ istio ∷ spire ∷ dex ∷ []
expected_components (Step.other_step _) = []

-- The three steps whose observations must be ready.
abbrev pub requires_ready : Step → Bool
requires_ready wait_control_plane = true
requires_ready apply_cluster_configs = true
requires_ready mark_complete = true
requires_ready _ = false

abbrev pub observation_checks : Bool → ℕ → Observation → Component → List (Option Error)
observation_checks readiness index o expected =
    fail_if (not (same_component o.component expected))
      (Error.evidence_component (index + 1) o.component)
    ∷ validate_pinned_identifier "observation version" o.version
    ∷ fail_if (not (valid_sha256 o.artifact_sha256) || not (valid_sha256 o.resource_sha256))
        Error.evidence_digest
    ∷ fail_if (readiness && not o.ready) Error.evidence_not_ready
    ∷ []

-- The loop of `validateEvidenceShape`; the counts have been compared before it.
unfoldable pub evidence_checks : Bool → ℕ → Evidence → List Component → List (Option Error)
evidence_checks readiness index [] cs = []
evidence_checks readiness index (o ∷ os) [] = some Error.panic ∷ []
evidence_checks readiness index (o ∷ os) (c ∷ cs) =
    first_error (observation_checks readiness index o c)
    ∷ evidence_checks readiness (index + 1) os cs

abbrev pub shape_checks : Step → Evidence → List (Option Error)
shape_checks step evidence =
    fail_if (not (length evidence == length (expected_components step)))
      (Error.evidence_count (length evidence) (length (expected_components step)))
    ∷ first_error (evidence_checks (requires_ready step) 0 evidence (expected_components step))
    ∷ []

unfoldable pub validate_evidence_shape : Step → Evidence → Option Error
validate_evidence_shape step evidence = first_error (shape_checks step evidence)

unfoldable pub failure_message : Step → FailureCode → Bytes
failure_message step FailureCode.failure_verification =
    step_text step ++ codes " verification failed; existing state was preserved"
failure_message step FailureCode.failure_prepared =
    step_text step ++ codes " completed but prepared readiness publication failed"
failure_message step _ = step_text step ++ codes " failed; existing state was preserved"

-- `t.IsZero() || t.Location() != time.UTC`.
abbrev pub bad_time : Time → Bool
bad_time t = t.instant == 0 || not t.utc

-- `bad_time` or `t.After(limit)`.
abbrev pub untimely : Time → Time → Bool
untimely limit t = bad_time t || ltb limit.instant t.instant

abbrev pub record_checks : Time → ℕ → StepRecord → Step → List (Option Error)
record_checks updated index r expected =
    fail_if (not (same_step r.step expected)) (Error.journal_step_order (index + 1) r.step)
    ∷ fail_if (untimely updated r.completed_at) (Error.journal_step_time r.step)
    ∷ validate_evidence_shape r.step r.evidence
    ∷ []

-- The loop over the steps; that there are at most nine has been tested before it.
unfoldable pub steps_checks : Time → ℕ → List StepRecord → List Step → List (Option Error)
steps_checks updated index [] ordered = []
steps_checks updated index (r ∷ rs) [] = some Error.panic ∷ []
steps_checks updated index (r ∷ rs) (s ∷ ordered) =
    first_error (record_checks updated index r s) ∷ steps_checks updated (index + 1) rs ordered

abbrev pub header_checks : Journal → List (Option Error)
header_checks j =
    fail_if (not (j.version == journal_version)) (Error.journal_version j.version)
    ∷ fail_if (j.revision == 0) Error.journal_revision_zero
    ∷ fail_if (not (valid_transaction_id j.transaction_id)) Error.journal_transaction_id
    ∷ validate_pinned_identifier "journal bootstrap version" j.bootstrap_version
    ∷ fail_if (not (valid_sha256 j.configuration_sha256)) Error.journal_digest
    ∷ fail_if (bad_time j.updated_at) Error.journal_update_time
    ∷ fail_if (ltb (length ordered_steps) (length j.steps)) Error.journal_too_many_steps
    ∷ []

-- Steps 1 to 5 are the prerequisites: `stepIndex(StepSPIRETPMConfig)+1` is 5.
unfoldable pub should_be_prepared : Journal → Bool
should_be_prepared j = leb 5 (length j.steps)

abbrev pub same_bool : Bool → Bool → Bool
same_bool true b = b
same_bool false b = not b

abbrev pub prepared_time_check : Time → Bool → Option Time → Option Error
prepared_time_check updated true none = some Error.journal_prepared_time
prepared_time_check updated true (some t) = fail_if (untimely updated t) Error.journal_prepared_time
prepared_time_check updated false none = none
prepared_time_check updated false (some t) = some Error.journal_unprepared_time

abbrev pub prepared_checks : Journal → List (Option Error)
prepared_checks j =
    fail_if (not (same_bool j.prepared (should_be_prepared j))) Error.journal_prepared
    ∷ prepared_time_check j.updated_at j.prepared j.prepared_at
    ∷ []

-- The switch on the state.
unfoldable pub state_check : JournalState → Journal → Option Error
state_check JournalState.in_progress j =
    if is_some j.failure
    then some Error.journal_failure_in_progress
    else fail_if (length j.steps == length ordered_steps) Error.journal_steps_in_progress
state_check JournalState.complete j =
    fail_if
      (not (length j.steps == length ordered_steps)
        || is_some j.current
        || is_some j.failure
        || not j.prepared)
      Error.journal_incomplete
state_check JournalState.failed j = fail_if (not (is_some j.failure)) Error.journal_no_failure
state_check (JournalState.other_state s) j = some (Error.journal_unknown_state s)

-- `len(journal.Steps) == len(orderedSteps) || attempt.Step != orderedSteps[len(journal.Steps)]`.
abbrev pub is_not_next : Option Step → Step → Bool
is_not_next none s = true
is_not_next (some next) s = not (same_step s next)

unfoldable pub current_check : Option Attempt → Journal → Option Error
current_check none j = none
current_check (some a) j =
    if is_not_next (get_elem? ordered_steps (length j.steps)) a.step
    then some Error.journal_current_step
    else fail_if (a.attempts == 0 || untimely j.updated_at a.started_at)
        Error.journal_current_attempt

abbrev pub is_known_code : FailureCode → Bool
is_known_code (FailureCode.other_code _) = false
is_known_code _ = true

abbrev pub failure_checks : Journal → Failure → List (Option Error)
failure_checks j f =
    fail_if (not (is_some (step_index f.step)) || untimely j.updated_at f.at_time)
      Error.journal_failure
    ∷ fail_if (not (is_known_code f.code)) Error.journal_failure_code
    ∷ fail_if (not (same f.message (failure_message f.step f.code))) Error.journal_failure_message
    ∷ []

unfoldable pub failure_check : Option Failure → Journal → Option Error
failure_check none j = none
failure_check (some f) j = first_error (failure_checks j f)

abbrev pub journal_checks : Journal → List (Option Error)
journal_checks j =
    first_error (header_checks j)
    ∷ first_error (steps_checks j.updated_at 0 j.steps ordered_steps)
    ∷ first_error (prepared_checks j)
    ∷ state_check j.state j
    ∷ current_check j.current j
    ∷ failure_check j.failure j
    ∷ []

unfoldable pub validate_journal : Journal → Option Error
validate_journal j = first_error (journal_checks j)
