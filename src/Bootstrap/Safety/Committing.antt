-- ===== src/Bootstrap/Safety/Committing.antt =====
-- The coordinator's methods over `advanceAndSave`: a new journal, an attempt, a record, a failure.
use sovereignite.Base.{
  Bytes, true, Option, none, some, List, [], ◌∷◌, ◌++◌, All, ◌≡◌, refl, ◌∙◌, ap, sym, arith, inl,
  inr,
}
use mathlib.Core.List.{append-nil}
use sovereignite.Bootstrap.Step.{Step, same_step-eq}
use sovereignite.Bootstrap.Error.{Error, foreign, ok, err, joined, is_clean}
use sovereignite.Bootstrap.Journal.{Time, in_progress, Attempt, StepRecord, FailureCode, Journal}
use sovereignite.Bootstrap.Machine.{Env, Event, Sys, M}
use sovereignite.Bootstrap.Machine.Triple.{
  Triple, pure_rule, raise_rule, bind_rule, catch_rule, lift_then, ask_then, ask_value_then, weaken,
}
use sovereignite.Bootstrap.Store.Laws.{Codec, On, OnFailure, refuse_then, or_err_then}
use sovereignite.Bootstrap.Store.Saving.{SaveFailure, save-Stored}
use sovereignite.Bootstrap.Coordinator.Requests.{Coordinator}
use sovereignite.Bootstrap.Coordinator.Commit.{
  initial_journal, initialize_journal, next_attempt, with_attempt, with_record, with_failure,
  begin_attempt, commit_step, save_failure, fail_with, or_fail,
}
use sovereignite.Bootstrap.Safety.{Since, IsIntended, IsKnown, IsSafe, Failure, IsKnown-IsSafe}
use sovereignite.Bootstrap.Safety.Writing.{IsChange, now_then, advance_and_save-Advanced}

-- An attempt is of the step that is begun, and its refusals are clean.
next_attempt-step :
    (current : Option Attempt) (step : Step) (t : Time) (a : Attempt)
    → next_attempt current step t ≡ ok a
    → a.step ≡ step
unfolding next_attempt
next_attempt-step none step t a h = ground arith
next_attempt-step (some b) step t a h = ground (arith, same_step-eq b.step step)

next_attempt-clean :
    (current : Option Attempt) (step : Step) (t : Time) (er : Error)
    → next_attempt current step t ≡ err er
    → is_clean er ≡ true
unfolding next_attempt
next_attempt-clean none step t er h = cc
next_attempt-clean (some b) step t er h = ground arith

pub unchanged :
    (j next : Journal)
    → next.transaction_id ≡ j.transaction_id
    → next.bootstrap_version ≡ j.bootstrap_version
    → next.configuration_sha256 ≡ j.configuration_sha256
    → next.steps ≡ j.steps
    → IsChange j next
unchanged j next p q r h = record {
  transaction = p;
  bootstrap = q;
  configuration = r;
  added = [];
  steps = h ∙ sym (append-nil j.steps);
}

-- After `beginAttempt`: the journal holds the intent to take this step, and no step was added.
pub record IsBegun (j : Journal) (step : Step) (j' : Journal) : Type 0 where
  pub attempt : Attempt
  pub current : j'.current ≡ some attempt
  pub of_step : attempt.step ≡ step
  pub going : j'.state ≡ in_progress
  pub steps : j'.steps ≡ j.steps

-- After `commitStep`: the record stands at the end of the steps, and there is no failure.
pub record IsCommitted (j : Journal) (r : StepRecord) (j' : Journal) : Type 0 where
  pub time : Time
  pub steps : j'.steps ≡ j.steps ++ record r { completed_at = time } ∷ []
  pub no_failure : j'.failure ≡ none

module _ (e : Env) (c : Coordinator) (codec : Codec e) (r0 : Option Journal) where
  pub known_bad :
      (j : Journal) (er : Error) (s : Sys e.World)
      → OnFailure e (IsKnown e c r0 j) er s
      → Failure e c r0 er s
  known_bad j er s h = (h.0, IsKnown-IsSafe e c r0 j s.file s.trace h.1)

  pub begin_attempt-Begun :
      (j : Journal) (step : Step)
      → Triple
          (On e (IsKnown e c r0 j))
          (begin_attempt e j step)
          (λ j' s. IsBegun j step j' × On e (IsKnown e c r0 j') s)
          (Failure e c r0)
  unfolding begin_attempt
  begin_attempt-Begun j step = now_then e (IsKnown e c r0 j) (known_bad j) _ λ t.
      lift_then (next_attempt j.current step t) _
        (λ er p s h. known_bad j er s (next_attempt-clean j.current step t er p, h))
        λ a p.
          weaken _
            (advance_and_save-Advanced e c codec r0 j (with_attempt j a)
              (unchanged j (with_attempt j a) refl refl refl refl))
            (λ s h. h)
            (λ j' s h. (
              record {
                attempt = a;
                current = ap (λ k. k.current) h.1;
                of_step = next_attempt-step j.current step t a p;
                going = ap (λ k. k.state) h.1;
                steps = ap (λ k. k.steps) h.1;
              },
              h.2,
            ))
            (λ er s h. h)

  pub commit_step-Committed :
      (j : Journal) (r : StepRecord)
      → Triple
          (On e (IsKnown e c r0 j))
          (commit_step e j r)
          (λ j' s. IsCommitted j r j' × On e (IsKnown e c r0 j') s)
          (Failure e c r0)
  unfolding commit_step
  commit_step-Committed j r = now_then e (IsKnown e c r0 j) (known_bad j) _ λ t.
      weaken _
        (advance_and_save-Advanced e c codec r0 j (with_record j r t) (record {
          transaction = refl;
          bootstrap = refl;
          configuration = refl;
          added = record r { completed_at = t } ∷ [];
          steps = refl;
        }))
        (λ s h. h)
        (λ j' s h. (
          record { time = t; steps = ap (λ k. k.steps) h.1; no_failure = ap (λ k. k.failure) h.1 },
          h.2,
        ))
        (λ er s h. h)

  save_failure-Safe :
      (j : Journal) (step : Step) (code : FailureCode)
      → Triple
          (On e (IsKnown e c r0 j))
          (save_failure e j step code)
          (λ _. On e (IsSafe e c r0))
          (Failure e c r0)
  unfolding save_failure
  save_failure-Safe j step code = now_then e (IsKnown e c r0 j) (known_bad j) _ λ t.
      weaken _
        (advance_and_save-Advanced e c codec r0 j (with_failure j step code t)
          (unchanged j (with_failure j step code t) refl refl refl refl))
        (λ s h. h) (λ j' s h. IsKnown-IsSafe e c r0 j' s.file s.trace h.2) (λ er s h. h)

  both_clean : (a b : Error) → is_clean a ≡ true → is_clean b ≡ true → is_clean (joined a b) ≡ true
  both_clean a b h k = rw (h, k) refl

  -- A failure is recorded or not: either way nothing is lost, and the error keeps the first one.
  pub fail_with-Failure :
      {A : Type 0} (R : A → Sys e.World → Type 0) (j : Journal) (step : Step) (code : FailureCode)
      (er : Error)
      → Triple
          (OnFailure e (IsKnown e c r0 j) er)
          (fail_with e {A = A} j step code er)
          R
          (Failure e c r0)
  unfolding fail_with
  fail_with-Failure R j step code er = record {
    at = λ s h.
        (catch_rule (λ _. On e (IsSafe e c r0)) (Failure e c r0) (save_failure e j step code) _ _
            (save_failure-Safe j step code)
            (λ _. raise_rule {Q = R} {E = Failure e c r0} er (λ s' k. (h.0, k)))
            (λ er'. raise_rule (joined er er') (λ s' k. (both_clean er er' h.0 k.0, k.1)))).at
          s h.1;
  }

  pub or_fail-Failure :
      {A : Type 0} (Q : A → Sys e.World → Type 0) (j : Journal) (step : Step) (code : FailureCode)
      (m : M e.World A)
      → Triple (On e (IsKnown e c r0 j)) m Q (OnFailure e (IsKnown e c r0 j))
      → Triple (On e (IsKnown e c r0 j)) (or_fail e j step code m) Q (Failure e c r0)
  unfolding or_fail
  or_fail-Failure Q j step code m k =
      catch_rule Q (OnFailure e (IsKnown e c r0 j)) m _ _ k (λ a. pure_rule a (λ s h. h))
        (fail_with-Failure Q j step code)

  -- There is no journal yet.
  abbrev pub IsFresh : Option Bytes → List Event → Type 0
  IsFresh f t = (f ≡ none) × Since r0 none × All (IsIntended e c) t

  pub fresh_bad : (er : Error) (s : Sys e.World) → OnFailure e IsFresh er s → Failure e c r0 er s
  fresh_bad er s h = (h.0, record { journal = none; holds = h.1.0; since = h.1.1; traced = h.1.2 })

  Since-none : (r : Option Journal) (j : Journal) → Since r none → Since r (some j)
  Since-none none j h = tt
  Since-none (some j0) j h = absurd h

  first_failed :
      (j : Journal) (er : Error) (s : Sys e.World)
      → SaveFailure e IsFresh (IsKnown e c r0 j) er s
      → Failure e c r0 er s
  first_failed j er s (clean, inl h) = fresh_bad er s (clean, h)
  first_failed j er s (clean, inr h) = (clean, IsKnown-IsSafe e c r0 j s.file s.trace h.0)

  pub initialize_journal-Known :
      Triple (On e IsFresh) (initialize_journal e c) (λ j. On e (IsKnown e c r0 j)) (Failure e c r0)
  unfolding initialize_journal
  initialize_journal-Known =
      ask_then e.context_err _ (λ s w h. h) (λ s n h. fresh_bad (foreign n) s (refl, h))
        (ask_value_then e.generate_id _ (λ s w h. h)
          λ generated. or_err_then e IsFresh fresh_bad generated _ _ refl λ transaction _.
            refuse_then e IsFresh fresh_bad _ _ _ refl λ _. now_then e IsFresh fresh_bad _ λ t.
              let j = initial_journal e c transaction t in
              bind_rule (λ _. On e (IsKnown e c r0 j)) _ _
                (weaken _
                  (save-Stored e codec IsFresh (IsKnown e c r0 j) 0 j
                    λ current f f' tr fresh _ _ _ stored. record {
                      stored = stored;
                      since = Since-none r0 j fresh.1;
                      traced = fresh.2;
                    })
                  (λ s h. h) (λ a s h. h) (first_failed j))
                (λ _. pure_rule j (λ s h. h)))
