-- ===== src/Bootstrap/Coordinator/Start.antt =====
-- internal/bootstrap/cluster.go: `StartBootstrap` and `GetStatus`.
use sovereignite.Base.{
  Bytes, codes, ℕ, zero, suc, Bool, true, false, Option, none, some, ◌==◌, is_some, length,
  get_elem?, if◌then◌else◌,
}
use sovereignite.Bootstrap.Step.{
  Step, tpm_key_manager_ca_signing, spire_tpm_config, mark_complete, ordered_steps, same_step,
}
use sovereignite.Bootstrap.Error.{Result, ok, err, panic, out_of_fuel}
use sovereignite.Bootstrap.Journal.{
  Time, Evidence, JournalState, in_progress, complete, Attempt, StepRecord, failure_action,
  failure_verification, failure_prepared, Failure, Journal,
}
use sovereignite.Bootstrap.Machine.{Env, M, pure, raise, lift, check, ask, ◌>>=◌, ◌>>◌, catch}
use sovereignite.Bootstrap.Store.{load}
use sovereignite.Bootstrap.Coordinator.Requests.{Coordinator, validate_evidence, require_compatible}
use sovereignite.Bootstrap.Coordinator.Verify.{
  verify_record, verify_completed, verification_failure_step,
}
use sovereignite.Bootstrap.Coordinator.Execute.{execute_step}
use sovereignite.Bootstrap.Coordinator.Commit.{
  advance_and_save, initialize_journal, begin_attempt, commit_step, fail_with, or_fail,
}

-- `time.Time{}`.
abbrev pub no_time : Time
no_time = record { instant = 0; utc = true }

abbrev pub is_failed : Journal → Bool
is_failed j = elim j.state [ JournalState.failed ↦ true | _ ↦ is_some j.failure ]

-- `journal.State != JournalComplete || journal.Failure != nil`.
abbrev pub is_not_complete : Journal → Bool
is_not_complete j = elim j.state [ JournalState.complete ↦ is_some j.failure | _ ↦ true ]

-- The order has nine steps, and the last round finds that none is left.
abbrev pub rounds : ℕ
rounds = 10

module _ (e : Env) (c : Coordinator) where
  unfoldable pub publish_prepared : M e.World (Unit {0})
  publish_prepared = do ask e.publish; ask e.verify_published

  -- The journal to go on with when it was there, and a new one when it was not.
  abbrev pub or_initialize : Option Journal → M e.World Journal
  or_initialize none = initialize_journal e c
  or_initialize (some j) = pure j

  unfoldable pub verify_or_fail : Journal → M e.World (Unit {0})
  verify_or_fail j =
      catch (verify_completed e c j) pure
        (λ er. fail_with e j (verification_failure_step j er) failure_verification er)

  abbrev pub publish_or_fail : Journal → M e.World (Unit {0})
  publish_or_fail j = or_fail e j spire_tpm_config failure_prepared publish_prepared

  -- `if len(journal.Steps) == len(orderedSteps) { … }`.
  unfoldable pub finish_complete : Journal → M e.World (Unit {0})
  finish_complete j =
      if is_not_complete j
      then (advance_and_save e j (record j { state = complete; failure = none; current = none })
          >> pure tt)
      else pure tt

  -- A failed transaction is resumed.
  unfoldable pub resume : Journal → M e.World Journal
  resume j =
      if is_failed j
      then advance_and_save e j (record j { state = in_progress; failure = none })
      else pure j

  abbrev pub unverified : Step → Evidence → StepRecord
  unverified step evidence = record { step = step; evidence = evidence; completed_at = no_time }

  abbrev pub publish_after : Step → Journal → M e.World (Unit {0})
  publish_after step j =
      if same_step step spire_tpm_config
      then or_fail e j step failure_prepared publish_prepared
      else pure tt

  -- One round of the loop: the journal after it.
  unfoldable pub run_step : Journal → Step → M e.World Journal
  run_step j step = do
    ask e.context_err
    begun ← begin_attempt e j step
    ask (e.after_intent step)
    evidence ← or_fail e begun step failure_action (execute_step e c step begun)
    or_fail e begun step failure_verification (check (validate_evidence c step evidence))
    or_fail e begun step failure_verification (verify_record e c (unverified step evidence) begun)
    ask (e.after_action step)
    committed ← commit_step e begun (unverified step evidence)
    ask (e.after_commit step)
    publish_after step committed
    pure committed

  -- `for len(journal.Steps) < len(orderedSteps) { … }`: the order has no step at or beyond its length.
  unfoldable pub run_steps : ℕ → Journal → M e.World (Unit {0})
  run_steps zero j = raise out_of_fuel
  run_steps (suc fuel) j =
      let rest = run_steps fuel in
      elim (get_elem? ordered_steps (length j.steps)) [
        | none ↦ pure tt
        | some step ↦ (run_step j step >>= rest)
      ]

  unfoldable pub continue_steps : Journal → M e.World (Unit {0})
  continue_steps j = do resumed ← resume j; run_steps rounds resumed

  abbrev pub publish_if_prepared : Journal → M e.World (Unit {0})
  publish_if_prepared j = if j.prepared then publish_or_fail j else pure tt

  -- `StartBootstrap`.
  unfoldable pub start_bootstrap : M e.World (Unit {0})
  start_bootstrap = do
    ask e.context_err
    loaded ← load e
    journal ← or_initialize loaded
    check (require_compatible c journal)
    verify_or_fail journal
    publish_if_prepared journal
    if length journal.steps == length ordered_steps
        then finish_complete journal
        else continue_steps journal

-- `StatusState` and `Status`; a message is the constant that the source returns.
pub data StatusState : Type 0 where
  status_not_started status_in_progress status_complete status_failed : StatusState

pub record Status : Type 0 where
  pub state : StatusState
  pub current_step : Step
  pub message : Bytes
  pub updated_at : Time

abbrev pub failed_status : Time → Option Failure → Result Status
failed_status t none = err panic
failed_status t (some f) =
    ok
      (record { state = status_failed; current_step = f.step; message = f.message; updated_at = t })

abbrev pub current_or_next : Option Attempt → Option Step → Result Step
current_or_next (some a) next = ok a.step
current_or_next none none = err panic
current_or_next none (some s) = ok s

abbrev pub progress_message : Bool → Bytes
progress_message true =
    codes "bootstrap prerequisites are prepared; cluster bootstrap is in progress"
progress_message false = codes "bootstrap prerequisites are not yet prepared"

abbrev pub in_progress_status : Journal → Step → Status
in_progress_status j step = record {
  state = status_in_progress;
  current_step = step;
  message = progress_message j.prepared;
  updated_at = j.updated_at;
}

abbrev pub progress_status : Journal → Result Step → Result Status
progress_status j (err er) = err er
progress_status j (ok step) = ok (in_progress_status j step)

-- The switch of `GetStatus`.
unfoldable pub status_of : JournalState → Journal → Result Status
status_of JournalState.complete j = ok (record {
  state = status_complete;
  current_step = mark_complete;
  message = codes "all nine bootstrap steps are verified complete";
  updated_at = j.updated_at;
})
status_of JournalState.failed j = failed_status j.updated_at j.failure
status_of _ j =
    progress_status j (current_or_next j.current (get_elem? ordered_steps (length j.steps)))

abbrev pub not_started : Status
not_started = record {
  state = status_not_started;
  current_step = tpm_key_manager_ca_signing;
  message = codes "bootstrap has not started";
  updated_at = no_time;
}

module _ (e : Env) (c : Coordinator) where
  abbrev pub report : Option Journal → M e.World Status
  report none = pure not_started
  report (some j) = do check (require_compatible c j); lift (status_of j.state j)

  -- `GetStatus`.
  unfoldable pub get_status : M e.World Status
  get_status = do ask e.context_err; loaded ← load e; report loaded
