-- ===== src/Bootstrap/Journal/Accepted.antt =====
-- `validateJournal` accepts exactly the valid journals.
use mathlib.Core.Option.{some-injective}
use sovereignite.Base.{
  same-eq, same_refl, ◌≤◌, ◌<◌, Bool, true, false, not, ◌||◌, Option, none, some, ==_iff, passes,
  fail_if-none, fail_if-false, first_error, first_error-none, none-first_error, length, get_elem?,
  ◌≡◌, refl, ◌↔◌, arith,
}
use sovereignite.Bootstrap.Step.{Step, ordered_steps, same_step-eq, same_step_refl}
use sovereignite.Bootstrap.Identifier.Laws.{
  validate_pinned_identifier-IsPinned, valid_sha256-IsDigest,
}
use sovereignite.Bootstrap.Identifier.{valid_transaction_id}
use sovereignite.Bootstrap.Identifier.Laws.{IsPinned, IsDigest}
use sovereignite.Bootstrap.Journal.{
  Time, JournalState, Attempt, Failure, Journal, failure_message, bad_time, header_checks,
  should_be_prepared, same_bool, prepared_time_check, prepared_checks, state_check, is_not_next,
  current_check, failure_checks, failure_check, journal_checks, validate_journal,
}
use sovereignite.Bootstrap.Journal.Validity.{
  IsUtc, IsPreparedTime, FitsState, IsNextAttempt, IsFailure, IsValid, not_untimely,
  steps_checks-InOrder,
}

record IsHeader (j : Journal) : Type 0 where
  version : j.version ≡ 1
  revision : 0 < j.revision
  transaction_id : valid_transaction_id j.transaction_id ≡ true
  bootstrap_version : IsPinned j.bootstrap_version
  configuration : IsDigest j.configuration_sha256
  updated : IsUtc j.updated_at
  bounded : length j.steps ≤ 9

not_bad_time : (t : Time) → (bad_time t ≡ false) ↔ IsUtc t
not_bad_time t = (λ h. ground arith, λ h. ground arith)

header_checks-IsHeader : (j : Journal) → (first_error (header_checks j) ≡ none) ↔ IsHeader j
header_checks-IsHeader j = (
  λ h.
      let p = first_error-none (header_checks j) h in
      record {
        version = (==_iff _ _).0 (passes _ _ p.0);
        revision = ground (arith, fail_if-none _ _ p.1.0);
        transaction_id = passes _ _ p.1.1.0;
        bootstrap_version = (validate_pinned_identifier-IsPinned _ _).0 p.1.1.1.0;
        configuration = (valid_sha256-IsDigest _).0 (passes _ _ p.1.1.1.1.0);
        updated = (not_bad_time _).0 (fail_if-none _ _ p.1.1.1.1.1.0);
        bounded = ground (arith, fail_if-none _ _ p.1.1.1.1.1.1.0);
      },
  λ h. none-first_error (header_checks j) (
    rw ((==_iff _ _).1 h.version) refl,
    (
      fail_if-false _ _ (ground (arith, h.revision)),
      (
        rw h.transaction_id refl,
        (
          (validate_pinned_identifier-IsPinned _ _).1 h.bootstrap_version,
          (
            rw ((valid_sha256-IsDigest _).1 h.configuration) refl,
            (
              fail_if-false _ _ ((not_bad_time _).1 h.updated),
              (fail_if-false _ _ (ground (arith, h.bounded)), tt),
            ),
          ),
        ),
      ),
    ),
  ),
)

prepared_time_check-IsPreparedTime :
    (updated : Time) (prepared : Bool) (t : Option Time)
    → (prepared_time_check updated prepared t ≡ none) ↔ IsPreparedTime updated prepared t
prepared_time_check-IsPreparedTime updated true none = (λ h. cc, λ h. absurd h)
prepared_time_check-IsPreparedTime updated true (some t) = (
  λ h. (not_untimely updated t).0 (fail_if-none _ _ h),
  λ h. fail_if-false _ _ ((not_untimely updated t).1 h),
)
prepared_time_check-IsPreparedTime updated false none = (λ h. refl, λ h. refl)
prepared_time_check-IsPreparedTime updated false (some t) = (λ h. cc, λ h. cc)

same_bool_iff : (a b : Bool) → (same_bool a b ≡ true) ↔ (a ≡ b)
same_bool_iff true true = (λ h. refl, λ h. refl)
same_bool_iff true false = (λ h. cc, λ h. cc)
same_bool_iff false true = (λ h. cc, λ h. cc)
same_bool_iff false false = (λ h. refl, λ h. refl)

prepared_checks-IsPrepared :
    (j : Journal)
    → (first_error (prepared_checks j) ≡ none)
      ↔ ((j.prepared ≡ should_be_prepared j) × IsPreparedTime j.updated_at j.prepared j.prepared_at)
prepared_checks-IsPrepared j =
    let time = prepared_time_check-IsPreparedTime j.updated_at j.prepared j.prepared_at in
    (
      λ h.
          let p = first_error-none (prepared_checks j) h in
          ((same_bool_iff _ _).0 (passes _ _ p.0), time.0 p.1.0),
      λ h.
          none-first_error (prepared_checks j)
            (rw ((same_bool_iff _ _).1 h.0) refl, (time.1 h.1, tt)),
    )

state_check-FitsState : (s : JournalState) (j : Journal) → (state_check s j ≡ none) ↔ FitsState s j
unfolding state_check
state_check-FitsState JournalState.in_progress j =
    (λ h. (ground arith, ground arith), λ h. ground arith)
state_check-FitsState JournalState.complete j =
    (λ h. (ground arith, ground arith, ground arith, ground arith), λ h. ground arith)
state_check-FitsState JournalState.failed j = (passes _ _, λ h. rw h refl)
state_check-FitsState (JournalState.other_state s) j = (λ h. cc, λ h. absurd h)

is_not_next_iff : (next : Option Step) (s : Step) → (is_not_next next s ≡ false) ↔ (next ≡ some s)
is_not_next_iff none s = (λ h. cc, λ h. cc)
is_not_next_iff (some t) s = (
  λ h. rw (same_step-eq s t (ground arith)) refl,
  λ h. rw (some-injective t s h, same_step_refl s) refl,
)

current_check-IsNextAttempt :
    (j : Journal) (a : Option Attempt) → (current_check a j ≡ none) ↔ IsNextAttempt j a
unfolding current_check
current_check-IsNextAttempt j none = (λ h. tt, λ h. refl)
current_check-IsNextAttempt j (some a) =
    let next = is_not_next_iff (get_elem? ordered_steps (length j.steps)) a.step in
    let timely = not_untimely j.updated_at a.started_at in
    (
      λ h. (next.0 (ground arith), ground arith, timely.0 (ground arith)),
      λ h. rw (next.1 h.0) (fail_if-false _ _ (ground (arith, timely.1 h.2))),
    )

either_false : (a b : Bool) → (a || b) ≡ false → (a ≡ false) × (b ≡ false)
either_false a b h = (ground arith, ground arith)

of_not : (b : Bool) → not b ≡ false → b ≡ true
of_not b h = ground arith

failure_check-IsFailure :
    (j : Journal) (f : Option Failure) → (failure_check f j ≡ none) ↔ IsFailure j f
unfolding failure_check
failure_check-IsFailure j none = (λ h. tt, λ h. refl)
failure_check-IsFailure j (some f) =
    let timely = not_untimely j.updated_at f.at_time in
    (
      λ h.
          let p = first_error-none (failure_checks j f) h in
          let q = either_false _ _ (fail_if-none _ _ p.0) in
          (of_not _ q.0, passes _ _ p.1.0, same-eq _ _ (passes _ _ p.1.1.0), timely.0 q.1),
      λ h. none-first_error (failure_checks j f) (
        rw (h.0, timely.1 h.3) refl,
        (rw h.1 refl, (rw (h.2, same_refl (failure_message f.step f.code)) refl, tt)),
      ),
    )

-- validateJournal accepts a journal exactly when it is valid: its header is sound, its steps are the first
-- ones of the order with timely records and sound evidence, and its preparedness, state, attempt and
-- failure agree with them.
pub validate_journal-IsValid : (j : Journal) → (validate_journal j ≡ none) ↔ IsValid j
unfolding validate_journal
validate_journal-IsValid j =
    let header = header_checks-IsHeader j in
    let steps = steps_checks-InOrder j.updated_at 0 j.steps ordered_steps in
    let prepared = prepared_checks-IsPrepared j in
    let state = state_check-FitsState j.state j in
    let current = current_check-IsNextAttempt j j.current in
    let failure = failure_check-IsFailure j j.failure in
    (
      λ h.
          let p = first_error-none (journal_checks j) h in
          let head = header.0 p.0 in
          let ready = prepared.0 p.1.1.0 in
          record {
            version = head.version;
            revision = head.revision;
            transaction_id = head.transaction_id;
            bootstrap_version = head.bootstrap_version;
            configuration = head.configuration;
            updated = head.updated;
            bounded = head.bounded;
            steps = steps.0 (first_error-none _ p.1.0);
            prepared = ready.0;
            prepared_time = ready.1;
            state = state.0 p.1.1.1.0;
            current = current.0 p.1.1.1.1.0;
            failure = failure.0 p.1.1.1.1.1.0;
          },
      λ h. none-first_error (journal_checks j) (
        header.1 record {
          version = h.version;
          revision = h.revision;
          transaction_id = h.transaction_id;
          bootstrap_version = h.bootstrap_version;
          configuration = h.configuration;
          updated = h.updated;
          bounded = h.bounded;
        },
        (
          none-first_error _ (steps.1 h.steps),
          (
            prepared.1 (h.prepared, h.prepared_time),
            (state.1 h.state, (current.1 h.current, (failure.1 h.failure, tt))),
          ),
        ),
      ),
    )
