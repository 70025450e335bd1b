-- ===== src/Bootstrap/Journal/Clean.antt =====
-- The validators index their slices within bounds: none of their errors is a crash.
use sovereignite.Base.{
  Bytes, ℕ, ◌+◌, ◌≤◌, Bool, true, false, Option, none, some, String, List, [], ◌∷◌, ==_iff, passes,
  fail_if, fail_if-none, first_error-none, first_error, All, length, ◌≡◌, refl, arith,
}
use sovereignite.Bootstrap.Step.{Step, Component, ordered_steps}
use sovereignite.Bootstrap.Error.{Error, is_clean, is_clean_result, IsClean}
use sovereignite.Bootstrap.Identifier.{
  required_checks, pinned_checks, validate_required_identifier, validate_pinned_identifier,
}
use sovereignite.Bootstrap.Journal.{
  Time, Evidence, JournalState, Attempt, StepRecord, Failure, Journal, expected_components,
  requires_ready, observation_checks, evidence_checks, validate_evidence_shape, record_checks,
  steps_checks, header_checks, prepared_checks, prepared_time_check, state_check, current_check,
  failure_checks, failure_check, validate_journal,
}

pub fail_if-IsClean : (b : Bool) (e : Error) → is_clean e ≡ true → IsClean (fail_if b e)
unfolding is_clean_result
fail_if-IsClean true e h = h
fail_if-IsClean false e h = refl

IsClean-none : IsClean none
unfolding is_clean_result
IsClean-none = refl

-- In a row of checks each may rely on those before it.
pub row-IsClean :
    (r : Option Error) (rest : List (Option Error))
    → IsClean r
    → (r ≡ none → IsClean (first_error rest))
    → IsClean (first_error (r ∷ rest))
unfolding first_error is_clean_result
row-IsClean none rest h k = k refl
row-IsClean (some e) rest h k = h

pub first_error-IsClean :
    (checks : List (Option Error)) → All IsClean checks → IsClean (first_error checks)
unfolding first_error is_clean_result
first_error-IsClean [] h = refl
first_error-IsClean (r ∷ rest) h = row-IsClean r rest h.0 (λ _. first_error-IsClean rest h.1)

validate_required_identifier-IsClean :
    (name : String) (v : Bytes) → IsClean (validate_required_identifier name v)
unfolding validate_required_identifier
validate_required_identifier-IsClean name v = first_error-IsClean (required_checks name v) (
  fail_if-IsClean _ _ refl,
  (fail_if-IsClean _ _ refl, (fail_if-IsClean _ _ refl, (fail_if-IsClean _ _ refl, tt))),
)

validate_pinned_identifier-IsClean :
    (name : String) (v : Bytes) → IsClean (validate_pinned_identifier name v)
unfolding validate_pinned_identifier
validate_pinned_identifier-IsClean name v =
    first_error-IsClean (pinned_checks name v)
      (validate_required_identifier-IsClean name v, (fail_if-IsClean _ _ refl, tt))

evidence_checks-IsClean :
    (readiness : Bool) (index : ℕ) (os : Evidence) (cs : List Component)
    → length os ≡ length cs
    → All IsClean (evidence_checks readiness index os cs)
unfolding evidence_checks
evidence_checks-IsClean readiness index [] cs e = tt
evidence_checks-IsClean readiness index (o ∷ os) [] e = absurd (omega arith)
evidence_checks-IsClean readiness index (o ∷ os) (c ∷ cs) e = (
  first_error-IsClean (observation_checks readiness index o c) (
    fail_if-IsClean _ _ refl,
    (
      validate_pinned_identifier-IsClean _ _,
      (fail_if-IsClean _ _ refl, (fail_if-IsClean _ _ refl, tt)),
    ),
  ),
  evidence_checks-IsClean readiness (index + 1) os cs (omega arith),
)

pub validate_evidence_shape-IsClean :
    (step : Step) (evidence : Evidence) → IsClean (validate_evidence_shape step evidence)
unfolding validate_evidence_shape
validate_evidence_shape-IsClean step evidence =
    row-IsClean _ _ (fail_if-IsClean _ _ refl) λ counted. first_error-IsClean _ (
      first_error-IsClean _ (
          evidence_checks-IsClean (requires_ready step) 0 evidence (expected_components step)
            ((==_iff _ _).0 (passes _ _ counted))),
      tt,
    )

steps_checks-IsClean :
    (updated : Time) (index : ℕ) (rs : List StepRecord) (ordered : List Step)
    → length rs ≤ length ordered
    → All IsClean (steps_checks updated index rs ordered)
unfolding steps_checks
steps_checks-IsClean updated index [] ordered e = tt
steps_checks-IsClean updated index (r ∷ rs) [] e = absurd (omega arith)
steps_checks-IsClean updated index (r ∷ rs) (s ∷ ordered) e = (
  first_error-IsClean (record_checks updated index r s) (
    fail_if-IsClean _ _ refl,
    (fail_if-IsClean _ _ refl, (validate_evidence_shape-IsClean _ _, tt)),
  ),
  steps_checks-IsClean updated (index + 1) rs ordered (omega arith),
)

prepared_time_check-IsClean :
    (updated : Time) (b : Bool) (t : Option Time) → IsClean (prepared_time_check updated b t)
unfolding is_clean_result
prepared_time_check-IsClean updated true none = refl
prepared_time_check-IsClean updated true (some t) = ground arith
prepared_time_check-IsClean updated false none = refl
prepared_time_check-IsClean updated false (some t) = refl

state_check-IsClean : (s : JournalState) (j : Journal) → IsClean (state_check s j)
unfolding state_check is_clean_result
state_check-IsClean JournalState.in_progress j = ground arith
state_check-IsClean JournalState.complete j = ground arith
state_check-IsClean JournalState.failed j = ground arith
state_check-IsClean (JournalState.other_state s) j = refl

current_check-IsClean : (a : Option Attempt) (j : Journal) → IsClean (current_check a j)
unfolding current_check is_clean_result
current_check-IsClean none j = refl
current_check-IsClean (some a) j = ground arith

failure_check-IsClean : (f : Option Failure) (j : Journal) → IsClean (failure_check f j)
unfolding failure_check
failure_check-IsClean none j = IsClean-none
failure_check-IsClean (some f) j =
    first_error-IsClean (failure_checks j f)
      (fail_if-IsClean _ _ refl, (fail_if-IsClean _ _ refl, (fail_if-IsClean _ _ refl, tt)))

-- Too many steps are refused before the loop that compares them with the order.
header_bounds : (j : Journal) → first_error (header_checks j) ≡ none → length j.steps ≤ 9
header_bounds j h =
    ground (arith, fail_if-none _ _ (first_error-none (header_checks j) h).1.1.1.1.1.1.0)

-- validateJournal never crashes, whatever the journal: its indices into the order and into the expected
-- components stay in range.
pub validate_journal-IsClean : (j : Journal) → IsClean (validate_journal j)
unfolding validate_journal
validate_journal-IsClean j =
    row-IsClean (first_error (header_checks j)) _
      (first_error-IsClean (header_checks j) (
        fail_if-IsClean _ _ refl,
        (
          fail_if-IsClean _ _ refl,
          (
            fail_if-IsClean _ _ refl,
            (
              validate_pinned_identifier-IsClean _ _,
              (
                fail_if-IsClean _ _ refl,
                (fail_if-IsClean _ _ refl, (fail_if-IsClean _ _ refl, tt)),
              ),
            ),
          ),
        ),
      ))
      λ header. first_error-IsClean _ (
        first_error-IsClean _
            (steps_checks-IsClean j.updated_at 0 j.steps ordered_steps (header_bounds j header)),
        (
          first_error-IsClean (prepared_checks j) (
            fail_if-IsClean _ _ refl,
            (prepared_time_check-IsClean j.updated_at j.prepared j.prepared_at, tt),
          ),
          (state_check-IsClean _ _, (current_check-IsClean _ _, (failure_check-IsClean _ _, tt))),
        ),
      )
