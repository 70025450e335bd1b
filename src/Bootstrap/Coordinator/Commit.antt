-- ===== src/Bootstrap/Coordinator/Commit.antt =====
-- internal/bootstrap/cluster.go: the coordinator's writes to the journal. A method that updates
-- `*Journal` returns the journal that is then current.
use sovereignite.Base.{
  Bytes, ◌+◌, true, false, not, Option, none, some, [], ◌∷◌, ◌++◌, ◌==◌, fail_if, if◌then◌else◌,
}
use sovereignite.Bootstrap.Step.{Step, spire_tpm_config, mark_complete, same_step}
use sovereignite.Bootstrap.Error.{
  Error, Result, ok, or_err, unless, joined, id_generator, invalid_transaction_id, zero_time,
  revision_exhausted, attempts_exhausted, current_mismatch,
}
use sovereignite.Bootstrap.Identifier.{valid_transaction_id}
use sovereignite.Bootstrap.Journal.{
  Time, JournalState, in_progress, complete, failed, Attempt, StepRecord, FailureCode, Journal,
  journal_version, failure_message,
}
use sovereignite.Bootstrap.Machine.{
  Env, M, pure, raise, lift, check, ask, ask_value, ◌>>=◌, ◌>>◌, catch,
}
use sovereignite.Bootstrap.Store.{u64, max_uint64, save}
use sovereignite.Bootstrap.Coordinator.Requests.{Coordinator}

module _ (e : Env) where
  -- `Coordinator.now`.
  unfoldable pub now : M e.World Time
  now = do
    instant ← ask_value e.clock_now
    check (fail_if (instant == 0) zero_time)
    pure (record { instant = instant; utc = true })

  -- `advanceAndSave`.
  unfoldable pub advance_and_save : Journal → Journal → M e.World Journal
  advance_and_save current next = do
    check (fail_if (current.revision == max_uint64) revision_exhausted)
    t ← now
    let advanced = record next { revision = u64 (current.revision + 1); updated_at = t }
    save e current.revision advanced
    pure advanced

  abbrev pub initial_journal : Coordinator → Bytes → Time → Journal
  initial_journal c transaction t = record {
    version = journal_version;
    revision = 1;
    transaction_id = transaction;
    bootstrap_version = c.config.bootstrap_version;
    configuration_sha256 = c.config_digest;
    state = in_progress;
    prepared = false;
    prepared_at = none;
    steps = [];
    current = none;
    failure = none;
    updated_at = t;
  }

  unfoldable pub initialize_journal : Coordinator → M e.World Journal
  initialize_journal c = do
    ask e.context_err
    generated ← ask_value e.generate_id
    transaction ← lift (or_err generated id_generator)
    check (fail_if (not (valid_transaction_id transaction)) invalid_transaction_id)
    t ← now
    let journal = initial_journal c transaction t
    save e 0 journal
    pure journal

-- The attempt that `beginAttempt` records.
unfoldable pub next_attempt : Option Attempt → Step → Time → Result Attempt
next_attempt none step t = ok (record { step = step; started_at = t; attempts = 1 })
next_attempt (some a) step t = unless (fail_if (not (same_step a.step step)) current_mismatch) (
    unless (fail_if (a.attempts == max_uint64) attempts_exhausted)
      (ok (record a { attempts = u64 (a.attempts + 1) })))

abbrev pub with_attempt : Journal → Attempt → Journal
with_attempt j a = record j { current = some a; state = in_progress; failure = none }

abbrev state_after : Step → JournalState
state_after step = if same_step step mark_complete then complete else in_progress

abbrev pub with_record : Journal → StepRecord → Time → Journal
with_record j r t =
    let is_spire = same_step r.step spire_tpm_config in
    record j {
      steps = j.steps ++ record r { completed_at = t } ∷ [];
      current = none;
      failure = none;
      prepared = if is_spire then true else j.prepared;
      prepared_at = if is_spire then some t else j.prepared_at;
      state = state_after r.step;
    }

abbrev pub with_failure : Journal → Step → FailureCode → Time → Journal
with_failure j step code t = record j {
  state = failed;
  failure =
      some (record { step = step; code = code; message = failure_message step code; at_time = t });
}

module _ (e : Env) where
  unfoldable pub begin_attempt : Journal → Step → M e.World Journal
  begin_attempt j step = do
    t ← now e
    a ← lift (next_attempt j.current step t)
    advance_and_save e j (with_attempt j a)

  unfoldable pub commit_step : Journal → StepRecord → M e.World Journal
  commit_step j r = do t ← now e; advance_and_save e j (with_record j r t)

  unfoldable pub save_failure : Journal → Step → FailureCode → M e.World Journal
  save_failure j step code = do t ← now e; advance_and_save e j (with_failure j step code t)

  -- `saveErr := c.saveFailure(…); return errors.Join(err, saveErr)`.
  unfoldable pub fail_with : {A : Type 0} → Journal → Step → FailureCode → Error → M e.World A
  fail_with j step code er =
      catch (save_failure j step code) (λ _. raise er) (λ save_error. raise (joined er save_error))

  -- What fails is recorded as the failure of a step.
  unfoldable pub or_fail : {A : Type 0} → Journal → Step → FailureCode → M e.World A → M e.World A
  or_fail j step code m = catch m pure (fail_with j step code)
