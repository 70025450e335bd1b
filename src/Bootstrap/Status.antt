-- ===== src/Bootstrap/Status.antt =====
-- What `GetStatus` says of the durable journal.
pub mod Answers
use sovereignite.Base.{
  Bytes, codes, Bool, false, ℕ, zero, suc, ◌<◌, true, Option, none, some, List, [], ◌∷◌, length,
  get_elem?, ◌≡◌, refl, arith, ◌⊎◌, inl, inr, is_some, ◌≢◌,
}
use mathlib.Core.Path.{subst}
use sovereignite.Bootstrap.Step.{tpm_key_manager_ca_signing, mark_complete, ordered_steps}
use sovereignite.Bootstrap.Error.{Error, Result, ok, err, is_clean}
use sovereignite.Bootstrap.Journal.{JournalState, Attempt, Failure, Journal}
use sovereignite.Bootstrap.Journal.Validity.{FitsState, IsNextAttempt, IsValid}
use sovereignite.Bootstrap.Machine.{Env, Event, Sys, pure, lift}
use sovereignite.Bootstrap.Machine.Triple.{
  Ends, Triple, pure_rule, bind_rule, ask_then, weaken, fact_rule,
}
use sovereignite.Bootstrap.Store.{load}
use sovereignite.Bootstrap.Store.Laws.{Holds, On, OnFailure, AndHolds, refuse_then, load-Holds}
use sovereignite.Bootstrap.Store.Saving.{Holds-unique}
use sovereignite.Bootstrap.Coordinator.Requests.{Coordinator, require_compatible}
use sovereignite.Bootstrap.Coordinator.Start.{
  no_time, StatusState, status_not_started, status_in_progress, status_complete, status_failed,
  Status, progress_message, in_progress_status, failed_status, current_or_next, progress_status,
  not_started, status_of, report, get_status,
}

-- The message of a bootstrap in progress, by whether the journal says that the prerequisites are prepared.
abbrev pub IsProgressOf : Bool → Bytes → Type 0
IsProgressOf true message =
    message ≡ codes "bootstrap prerequisites are prepared; cluster bootstrap is in progress"
IsProgressOf false message = message ≡ codes "bootstrap prerequisites are not yet prepared"

IsProgressOf-message : (prepared : Bool) → IsProgressOf prepared (progress_message prepared)
IsProgressOf-message true = refl
IsProgressOf-message false = refl

-- A status that tells the truth about a journal.
abbrev pub Reports : StatusState → Status → Journal → Type 0
Reports status_not_started st j = ⊥
Reports status_in_progress st j =
    (j.state ≡ JournalState.in_progress)
    × (length j.steps < 9)
    × (get_elem? ordered_steps (length j.steps) ≡ some st.current_step)
    × IsProgressOf j.prepared st.message
    × (st.updated_at ≡ j.updated_at)
Reports status_complete st j =
    (j.state ≡ JournalState.complete)
    × (length j.steps ≡ 9)
    × (j.failure ≡ none)
    × (st.current_step ≡ mark_complete)
    × (st.message ≡ codes "all nine bootstrap steps are verified complete")
    × (st.updated_at ≡ j.updated_at)
Reports status_failed st j =
    (f : Failure) × (j.state ≡ JournalState.failed)
    × (j.failure ≡ some f)
    × (st.current_step ≡ f.step)
    × (st.message ≡ f.message)
    × (st.updated_at ≡ j.updated_at)

get_elem?-of_lt :
    {A : Type 0} (xs : List A) (i : ℕ) → i < length xs → (x : A) × (get_elem? xs i ≡ some x)
get_elem?-of_lt [] i h = absurd (omega arith)
get_elem?-of_lt (x ∷ xs) zero h = (x, refl)
get_elem?-of_lt (x ∷ xs) (suc i) h = get_elem?-of_lt xs i (omega arith)

-- The switch of GetStatus returns a status for every valid journal, without a crash, and that status is true of it:
-- in progress, complete or failed as the journal's state is, with the journal's time of update. In progress it gives the next
-- step in order and says whether the prerequisites are prepared as the journal does; complete, there are nine steps and no failure;
-- failed, it gives the step and the message of the recorded failure.
pub status_of-Reports :
    (j : Journal)
    → IsValid j
    → (st : Status) × (status_of j.state j ≡ ok st) × Reports st.state st j
unfolding status_of
status_of-Reports j v = by_state j.state refl v.state
  where
    progress :
        (current : Option Attempt)
        → j.state ≡ JournalState.in_progress
        → IsNextAttempt j current
        → length j.steps < 9
        → (st : Status) × (progress_status j
              (current_or_next current (get_elem? ordered_steps (length j.steps)))
            ≡ ok st)
          × Reports st.state st j
    progress (some a) s h short =
        (in_progress_status j a.step, refl, (s, short, h.0, IsProgressOf-message j.prepared, refl))
    progress none s h short =
        let (step, found) = get_elem?-of_lt ordered_steps (length j.steps) short in
        (
          in_progress_status j step,
          rw found refl,
          (s, short, found, IsProgressOf-message j.prepared, refl),
        )

    failed_with :
        (f : Option Failure)
        → j.state ≡ JournalState.failed
        → j.failure ≡ f
        → is_some f ≡ true
        → (st : Status) × (failed_status j.updated_at f ≡ ok st) × Reports st.state st j
    failed_with none s p h = cc
    failed_with (some f) s p h = (_, refl, (f, s, p, refl, refl, refl))

    by_state :
        (s : JournalState)
        → j.state ≡ s
        → FitsState s j
        → (st : Status) × (status_of s j ≡ ok st) × Reports st.state st j
    by_state JournalState.in_progress s h = progress j.current s v.current (below h.1)
      where
        below : length j.steps ≢ 9 → length j.steps < 9
        below ne = omega (arith, v.bounded)
    by_state JournalState.complete s h = (_, refl, (s, h.0, h.2, refl, refl, refl))
    by_state JournalState.failed s h = failed_with j.failure s refl h
    by_state (JournalState.other_state _) s h = absurd h

module _ (e : Env) (c : Coordinator) where
  abbrev pub Reported : Option Journal → Status → Type 0
  Reported none st =
      (st.state ≡ status_not_started)
      × (st.current_step ≡ tpm_key_manager_ca_signing)
      × (st.message ≡ codes "bootstrap has not started")
      × (st.updated_at ≡ no_time)
  Reported (some j) st = Reports st.state st j

  module _ (r0 : Option Journal) (f0 : Option Bytes) (t0 : List Event) (held : Holds e r0 f0) where
    abbrev At : Option Bytes → List Event → Type 0
    At f t = (f ≡ f0) × (t ≡ t0)

    abbrev AtStatus : Status → Sys e.World → Type 0
    AtStatus st s = Reported r0 st × On e At s

    told_of :
        (j : Journal)
        → IsValid j
        → r0 ≡ some j
        → Triple (On e At) (lift (status_of j.state j)) AtStatus (OnFailure e At)
    unfolding lift pure
    told_of j v p =
        let (st, returned, reports) = status_of-Reports j v in
        rw returned (pure_rule {E = OnFailure e At} st (λ s h. (rw p reports, h)))

    report-At :
        (r : Option Journal)
        → Holds e r f0
        → r0 ≡ r
        → Triple (On e At) (report e c r) AtStatus (OnFailure e At)
    unfolding require_compatible
    report-At none h p = pure_rule not_started (λ s k. (rw p (refl, refl, refl, refl), k))
    report-At (some j) h p = refuse_then e At (λ er s h. h) _ _ _ refl λ same. told_of j h.valid p

    same_of :
        (r : Option Journal) (s : Sys e.World) → On e (AndHolds e At r) s → (r0 ≡ r) × Holds e r f0
    same_of r s h =
        let there = subst (λ f. Holds e r f) h.0.0 h.1 in (Holds-unique e r0 r f0 held there, there)

    get_status-At : Triple (On e At) (get_status e c) AtStatus (OnFailure e At)
    unfolding get_status
    get_status-At =
        ask_then e.context_err _ (λ s w h. h) (λ s n h. (refl, h))
          (bind_rule _ (load e) _ (load-Holds e At) λ r.
            weaken (report e c r) (fact_rule (report e c r) (λ k. report-At r k.1 k.0))
              (λ s k. (same_of r s k, k.0)) (λ st s k. k) (λ er s k. k))

    get_status-Ends :
        (w : e.World)
        → Ends AtStatus
            (OnFailure e At)
            (get_status e c (record { world = w; file = f0; trace = t0 })).0
            (get_status e c (record { world = w; file = f0; trace = t0 })).1
    get_status-Ends w = get_status-At.at (record { world = w; file = f0; trace = t0 }) (refl, refl)

  Reported-of :
      (r0 : Option Journal) (f0 : Option Bytes) (t0 : List Event) (r : Result Status)
      (s : Sys e.World)
      → Ends
          (λ st s. Reported r0 st × ((s.file ≡ f0) × (s.trace ≡ t0)))
          (λ er s. (is_clean er ≡ true) × ((s.file ≡ f0) × (s.trace ≡ t0)))
          r
          s
      → (s.file ≡ f0)
        × (s.trace ≡ t0)
        × (((st : Status) × (r ≡ ok st) × Reported r0 st)
            ⊎ ((er : Error) × (r ≡ err er) × (is_clean er ≡ true)))
  Reported-of r0 f0 t0 (ok st) s h = (h.1.0, h.1.1, inl (st, refl, h.0))
  Reported-of r0 f0 t0 (err er) s h = (h.1.0, h.1.1, inr (er, refl, h.0))

  -- GetStatus changes nothing and calls no action of a dependency. Where the file holds no journal, it
  -- returns that the bootstrap has not started and that the first step is next; where it holds a valid one, a status of that journal's state, with its time of update and its next step and preparedness, its completion,
  -- or its recorded failure; or it returns an error, which is no crash.
  pub get_status-Reports :
      (r0 : Option Journal) (s : Sys e.World)
      → Holds e r0 s.file
      → ((get_status e c s).1.file ≡ s.file)
        × ((get_status e c s).1.trace ≡ s.trace)
        × (((st : Status) × ((get_status e c s).0 ≡ ok st) × Reported r0 st)
            ⊎ ((er : Error) × ((get_status e c s).0 ≡ err er) × (is_clean er ≡ true)))
  get_status-Reports r0 s held =
      Reported-of r0 s.file s.trace _ _ (get_status-Ends r0 s.file s.trace held s.world)
