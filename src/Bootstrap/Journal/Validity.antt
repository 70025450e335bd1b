-- ===== src/Bootstrap/Journal/Validity.antt =====
-- What `validateJournal` accepts, said without the checks.
use sovereignite.Base.{
  passes, ℕ, suc, ◌+◌, ◌≤◌, ◌<◌, Bool, true, false, not, ◌||◌, Option, none, some, List, [], ◌∷◌,
  ==_iff, fail_if-none, fail_if-false, first_error, first_error-none, none-first_error, is_some,
  length, get_elem?, All, ◌≡◌, refl, ◌↔◌, ◌≢◌, arith, ap,
}
use sovereignite.Bootstrap.Step.{
  Step, Component, ordered_steps, same_step-eq, same_step_refl, same_component-eq,
  same_component_refl, step_index,
}
use sovereignite.Bootstrap.Error.{Error}
use sovereignite.Bootstrap.Identifier.{valid_transaction_id}
use sovereignite.Bootstrap.Identifier.Laws.{
  IsPinned, IsDigest, validate_pinned_identifier-IsPinned, valid_sha256-IsDigest,
}
use sovereignite.Bootstrap.Journal.{
  Time, Observation, Evidence, JournalState, Attempt, StepRecord, Failure, Journal,
  expected_components, requires_ready, observation_checks, evidence_checks, shape_checks,
  validate_evidence_shape, failure_message, untimely, record_checks, steps_checks,
  should_be_prepared, is_known_code,
}

abbrev pub IsUtc : Time → Type 0
IsUtc t = (0 < t.instant) × (t.utc ≡ true)

-- In UTC, set, and not after the limit.
abbrev pub IsTimely : Time → Time → Type 0
IsTimely limit t = (0 < t.instant) × (t.utc ≡ true) × (t.instant ≤ limit.instant)

-- An observation of the expected component: pinned, with canonical digests, ready if need be.
pub record IsObservation (readiness : Bool) (o : Observation) (c : Component) : Type 0 where
  pub component : o.component ≡ c
  pub version : IsPinned o.version
  pub artifact : IsDigest o.artifact_sha256
  pub resource : IsDigest o.resource_sha256
  pub ready : readiness ≡ true → o.ready ≡ true

abbrev pub IsEvidence : Bool → Evidence → List Component → Type 0
IsEvidence readiness [] [] = Unit
IsEvidence readiness [] (c ∷ cs) = ⊥
IsEvidence readiness (o ∷ os) [] = ⊥
IsEvidence readiness (o ∷ os) (c ∷ cs) = IsObservation readiness o c × IsEvidence readiness os cs

-- The evidence of a step: one observation for each expected component, in their order.
abbrev pub IsEvidenceOf : Step → Evidence → Type 0
IsEvidenceOf step evidence = IsEvidence (requires_ready step) evidence (expected_components step)

abbrev pub InOrder : Time → List StepRecord → List Step → Type 0
InOrder updated [] ordered = Unit
InOrder updated (r ∷ rs) [] = ⊥
InOrder updated (r ∷ rs) (s ∷ ordered) =
    (r.step ≡ s)
    × IsTimely updated r.completed_at
    × IsEvidenceOf r.step r.evidence
    × InOrder updated rs ordered

abbrev pub IsPreparedTime : Time → Bool → Option Time → Type 0
IsPreparedTime updated true none = ⊥
IsPreparedTime updated true (some t) = IsTimely updated t
IsPreparedTime updated false t = t ≡ none

abbrev pub FitsState : JournalState → Journal → Type 0
FitsState JournalState.in_progress j = (j.failure ≡ none) × (length j.steps ≢ 9)
FitsState JournalState.complete j =
    (length j.steps ≡ 9) × (j.current ≡ none) × (j.failure ≡ none) × (j.prepared ≡ true)
FitsState JournalState.failed j = is_some j.failure ≡ true
FitsState (JournalState.other_state s) j = ⊥

abbrev pub IsNextAttempt : Journal → Option Attempt → Type 0
IsNextAttempt j none = Unit
IsNextAttempt j (some a) =
    (get_elem? ordered_steps (length j.steps) ≡ some a.step)
    × (0 < a.attempts)
    × IsTimely j.updated_at a.started_at

abbrev pub IsFailure : Journal → Option Failure → Type 0
IsFailure j none = Unit
IsFailure j (some f) =
    (is_some (step_index f.step) ≡ true)
    × (is_known_code f.code ≡ true)
    × (f.message ≡ failure_message f.step f.code)
    × IsTimely j.updated_at f.at_time

pub record IsValid (j : Journal) : Type 0 where
  pub version : j.version ≡ 1
  pub revision : 0 < j.revision
  pub transaction_id : valid_transaction_id j.transaction_id ≡ true
  pub bootstrap_version : IsPinned j.bootstrap_version
  pub configuration : IsDigest j.configuration_sha256
  pub updated : IsUtc j.updated_at
  pub bounded : length j.steps ≤ 9
  pub steps : InOrder j.updated_at j.steps ordered_steps
  pub prepared : j.prepared ≡ should_be_prepared j
  pub prepared_time : IsPreparedTime j.updated_at j.prepared j.prepared_at
  pub state : FitsState j.state j
  pub current : IsNextAttempt j j.current
  pub failure : IsFailure j j.failure

pub not_untimely : (limit t : Time) → (untimely limit t ≡ false) ↔ IsTimely limit t
not_untimely limit t = (λ h. ground arith, λ h. ground arith)

both_true : (a b : Bool) → (not a || not b) ≡ false → (a ≡ true) × (b ≡ true)
both_true a b h = ground arith

observation_checks-IsObservation :
    (readiness : Bool) (index : ℕ) (o : Observation) (c : Component)
    → (first_error (observation_checks readiness index o c) ≡ none) ↔ IsObservation readiness o c
observation_checks-IsObservation readiness index o c = (
  λ h.
      let p = first_error-none (observation_checks readiness index o c) h in
      let digests = both_true _ _ (fail_if-none _ _ p.1.1.0) in
      record {
        component = same_component-eq _ _ (passes _ _ p.0);
        version = (validate_pinned_identifier-IsPinned _ _).0 p.1.0;
        artifact = (valid_sha256-IsDigest _).0 digests.0;
        resource = (valid_sha256-IsDigest _).0 digests.1;
        ready = λ r. ground (arith, fail_if-none _ _ p.1.1.1.0);
      },
  λ h. none-first_error (observation_checks readiness index o c) (
    rw (h.component, same_component_refl c) refl,
    (
      (validate_pinned_identifier-IsPinned _ _).1 h.version,
      (
        rw ((valid_sha256-IsDigest _).1 h.artifact, (valid_sha256-IsDigest _).1 h.resource) refl,
        (fail_if-false _ _ (ground (arith, h.ready)), tt),
      ),
    ),
  ),
)

abbrev pub AllPass : List (Option Error) → Type 0
AllPass = All (λ r. r ≡ none)

evidence_checks-IsEvidence :
    (readiness : Bool) (index : ℕ) (os : Evidence) (cs : List Component)
    → length os ≡ length cs
    → AllPass (evidence_checks readiness index os cs) ↔ IsEvidence readiness os cs
unfolding evidence_checks
evidence_checks-IsEvidence readiness index [] [] e = (λ h. h, λ h. h)
evidence_checks-IsEvidence readiness index [] (c ∷ cs) e = absurd (omega arith)
evidence_checks-IsEvidence readiness index (o ∷ os) [] e = absurd (omega arith)
evidence_checks-IsEvidence readiness index (o ∷ os) (c ∷ cs) e =
    let here = observation_checks-IsObservation readiness index o c in
    let rest = evidence_checks-IsEvidence readiness (index + 1) os cs (omega arith) in
    (λ h. (here.0 h.0, rest.0 h.1), λ h. (here.1 h.0, rest.1 h.1))

pub IsEvidence-length :
    (readiness : Bool) (os : Evidence) (cs : List Component)
    → IsEvidence readiness os cs
    → length os ≡ length cs
IsEvidence-length readiness [] [] h = refl
IsEvidence-length readiness [] (c ∷ cs) h = absurd h
IsEvidence-length readiness (o ∷ os) [] h = absurd h
IsEvidence-length readiness (o ∷ os) (c ∷ cs) h = ap suc (IsEvidence-length readiness os cs h.1)

-- Evidence has the right shape exactly when it has one sound observation of each expected component.
pub validate_evidence_shape-IsEvidenceOf :
    (step : Step) (evidence : Evidence)
    → (validate_evidence_shape step evidence ≡ none) ↔ IsEvidenceOf step evidence
unfolding validate_evidence_shape
validate_evidence_shape-IsEvidenceOf step evidence =
    let cs = expected_components step in
    let loop = evidence_checks-IsEvidence (requires_ready step) 0 evidence cs in
    (
      λ h.
          let p = first_error-none (shape_checks step evidence) h in
          (loop ((==_iff _ _).0 (passes _ _ p.0))).0 (first_error-none _ p.1.0),
      λ h.
          let same_length = IsEvidence-length _ evidence cs h in
          none-first_error (shape_checks step evidence) (
            rw ((==_iff _ _).1 same_length) refl,
            (none-first_error _ ((loop same_length).1 h), tt),
          ),
    )

pub steps_checks-InOrder :
    (updated : Time) (index : ℕ) (rs : List StepRecord) (ordered : List Step)
    → AllPass (steps_checks updated index rs ordered) ↔ InOrder updated rs ordered
unfolding steps_checks
steps_checks-InOrder updated index [] ordered = (λ h. h, λ h. h)
steps_checks-InOrder updated index (r ∷ rs) [] = (λ h. cc, λ h. absurd h)
steps_checks-InOrder updated index (r ∷ rs) (s ∷ ordered) =
    let rest = steps_checks-InOrder updated (index + 1) rs ordered in
    let evidence = validate_evidence_shape-IsEvidenceOf r.step r.evidence in
    let timely = not_untimely updated r.completed_at in
    (
      λ h.
          let p = first_error-none (record_checks updated index r s) h.0 in
          (
            same_step-eq _ _ (passes _ _ p.0),
            timely.0 (fail_if-none _ _ p.1.0),
            evidence.0 p.1.1.0,
            rest.0 h.1,
          ),
      λ h. (
        none-first_error (record_checks updated index r s) (
          rw (h.0, same_step_refl s) refl,
          (fail_if-false _ _ (timely.1 h.1), (evidence.1 h.2, tt)),
        ),
        rest.1 h.3,
      ),
    )
