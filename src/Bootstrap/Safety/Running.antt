-- ===== src/Bootstrap/Safety/Running.antt =====
-- The loop of `StartBootstrap`: each round commits one step, and ten rounds reach the end.
use mathlib.Core.Path.{subst}
use sovereignite.Base.{
  Bytes, ℕ, zero, suc, ◌+◌, ◌≤◌, ◌<◌, Option, none, some, List, [], ◌∷◌, ◌++◌, length,
  length-append, get_elem?, All, ◌≡◌, refl, ◌∙◌, ap, arith, is_some,
}
use sovereignite.Bootstrap.Step.{Step, ordered_steps}
use sovereignite.Bootstrap.Error.{foreign}
use sovereignite.Bootstrap.Journal.{
  JournalState, complete, Evidence, Journal, failure_action, failure_verification, failure_prepared,
}
use sovereignite.Bootstrap.Journal.Validity.{FitsState}
use sovereignite.Bootstrap.Machine.{Env, Event, Sys, M, pure, ask, ◌>>=◌}
use sovereignite.Bootstrap.Machine.Triple.{
  Triple, pure_rule, bind_rule, if_rule, ask_rule, ask_then, fact_rule,
}
use sovereignite.Bootstrap.Store.Laws.{Codec, On, OnFailure}
use sovereignite.Bootstrap.Coordinator.Requests.{Coordinator, validate_evidence}
use sovereignite.Bootstrap.Coordinator.Execute.{execute_step}
use sovereignite.Bootstrap.Coordinator.Commit.{begin_attempt}
use sovereignite.Bootstrap.Coordinator.Start.{
  publish_prepared, unverified, publish_after, run_step, run_steps,
}
use sovereignite.Bootstrap.Safety.{AllBound, IsKnown, Failure}
use sovereignite.Bootstrap.Safety.Verifying.{verify_record-Keeps, check_evidence_fact}
use sovereignite.Bootstrap.Safety.Executing.{execute_step-known}
use sovereignite.Bootstrap.Safety.Committing.{
  IsBegun, IsCommitted, known_bad, begin_attempt-Begun, commit_step-Committed, or_fail-Failure,
}

All-append : {A : Type 0} (P : A → Type 0) (xs ys : List A) → All P xs → All P ys → All P (xs ++ ys)
All-append P [] ys h k = k
All-append P (x ∷ xs) ys h k = (h.0, All-append P xs ys h.1 k)

module _ (e : Env) (c : Coordinator) (codec : Codec e) (r0 : Option Journal) where
  abbrev pub Known : Journal → Option Bytes → List Event → Type 0
  Known j = IsKnown e c r0 j

  abbrev Runs : Journal → M e.World (Unit {0}) → Type 0
  Runs j m = Triple (On e (Known j)) m (λ _. On e (Known j)) (Failure e c r0)

  ask-Known_then :
      {B : Type 0} (j : Journal) (g : e.World → Option ℕ × e.World) (f : Unit {0} → M e.World B)
      (R : B → Sys e.World → Type 0)
      → Triple (On e (Known j)) (f tt) R (Failure e c r0)
      → Triple (On e (Known j)) (ask g >>= f) R (Failure e c r0)
  ask-Known_then j g f R k =
      ask_then g f (λ s w h. h) (λ s n h. known_bad e c codec r0 j (foreign n) s (refl, h)) k

  pub publish_prepared-keeps :
      (j : Journal)
      → Triple (On e (Known j)) (publish_prepared e c) (λ _. On e (Known j)) (OnFailure e (Known j))
  unfolding publish_prepared
  publish_prepared-keeps j =
      ask_then e.publish _ (λ s w h. h) (λ s n h. (refl, h))
        (ask_rule e.verify_published (λ s h _. h) (λ s n h _. (refl, h)))

  publish_after-keeps : (step : Step) (j : Journal) → Runs j (publish_after e c step j)
  publish_after-keeps step j =
      if_rule _ _ _
        (λ _. or_fail-Failure e c codec r0 _ j step failure_prepared _ (publish_prepared-keeps j))
        (λ _. pure_rule tt (λ s h. h))

  -- What the loop keeps of the journal, beside that the file holds it.
  abbrev pub IsGoing : Journal → Type 0
  IsGoing j = (j.failure ≡ none) × AllBound e c j.steps

  -- After a round the journal has one step more.
  abbrev Stepped : Journal → Journal → Type 0
  Stepped j j' = IsGoing j' × (length j'.steps ≡ suc (length j.steps))

  committed_facts :
      (j begun j' : Journal) (step : Step) (evidence : Evidence)
      → begun.steps ≡ j.steps
      → AllBound e c j.steps
      → validate_evidence c step evidence ≡ none
      → IsCommitted begun (unverified e c step evidence) j'
      → Stepped j j'
  committed_facts j begun j' step evidence same all bound done =
      let record_done = record (unverified e c step evidence) { completed_at = done.time } in
      let steps : j'.steps ≡ j.steps ++ record_done ∷ [] =
        done.steps ∙ ap (λ l. l ++ record_done ∷ []) same in
      (
        (done.no_failure, rw steps (All-append _ j.steps (record_done ∷ []) all (bound, tt))),
        rw steps (omega (arith, length-append j.steps (record_done ∷ []))),
      )

  run_step-Stepped :
      (j : Journal) (step : Step)
      → get_elem? ordered_steps (length j.steps) ≡ some step
      → AllBound e c j.steps
      → Triple
          (On e (Known j))
          (run_step e c j step)
          (λ j' s. Stepped j j' × On e (Known j') s)
          (Failure e c r0)
  unfolding run_step
  run_step-Stepped j step next all = ask-Known_then j e.context_err _ _ (
      bind_rule _ (begin_attempt e j step) _ (begin_attempt-Begun e c codec r0 j step) λ begun.
        fact_rule _ λ b. ask-Known_then begun (e.after_intent step) _ _ (
          bind_rule (λ _. On e (Known begun)) _ _
            (or_fail-Failure e c codec r0 _ begun step failure_action _ (executed begun b))
            λ evidence.
              bind_rule (λ _ s. (validate_evidence c step evidence ≡ none) × On e (Known begun) s) _
                _
                (or_fail-Failure e c codec r0 _ begun step failure_verification _
                  (check_evidence_fact e c (Known begun) step evidence))
                λ _. fact_rule _ λ bound.
                  bind_rule (λ _. On e (Known begun)) _ _
                    (or_fail-Failure e c codec r0 _ begun step failure_verification _ (
                      verify_record-Keeps e c (Known begun) (unverified e c step evidence) begun
                        bound))
                    λ _. ask-Known_then begun (e.after_action step) _ _ (
                      bind_rule _ _ _
                        (commit_step-Committed e c codec r0 begun (unverified e c step evidence))
                        λ committed. fact_rule _ λ done.
                          ask-Known_then committed (e.after_commit step) _ _ (
                            bind_rule (λ _. On e (Known committed)) _ _
                              (publish_after-keeps step committed)
                              λ _. pure_rule committed λ s h. (
                                committed_facts j begun committed step evidence b.steps all bound
                                    done,
                                h,
                              )))))
    where
      executed :
          (begun : Journal)
          → IsBegun j step begun
          → Triple
              (On e (Known begun))
              (execute_step e c step begun)
              (λ _. On e (Known begun))
              (OnFailure e (Known begun))
      executed begun b =
          subst
            (λ s.
              Triple (On e (Known begun)) (execute_step e c s begun) (λ _. On e (Known begun))
                (OnFailure e (Known begun)))
            b.of_step
            (execute_step-known e c r0 begun b.attempt b.going b.current
              (rw (b.steps, b.of_step) next))

  -- The file holds a complete journal of nine steps, each with evidence bound to the configuration.
  pub record IsDone (f : Option Bytes) (t : List Event) : Type 0 where
    pub journal : Journal
    pub known : IsKnown e c r0 journal f t
    pub is_complete : journal.state ≡ complete
    pub no_failure : journal.failure ≡ none
    pub nine : length journal.steps ≡ 9
    pub bound : AllBound e c journal.steps

  get_elem?-none : {A : Type 0} (xs : List A) (i : ℕ) → get_elem? xs i ≡ none → length xs ≤ i
  get_elem?-none [] i h = omega arith
  get_elem?-none (x ∷ xs) zero h = cc
  get_elem?-none (x ∷ xs) (suc i) h = omega (arith, get_elem?-none xs i h)

  complete_of_state :
      (s : JournalState) (j : Journal)
      → FitsState s j
      → j.failure ≡ none
      → length j.steps ≡ 9
      → s ≡ complete
  complete_of_state JournalState.in_progress j h f n = absurd (h.1 n)
  complete_of_state JournalState.complete j h f n = refl
  complete_of_state JournalState.failed j h f n = cc (ap is_some f)
  complete_of_state (JournalState.other_state s) j h f n = absurd h

  finished :
      (j : Journal) (s : Sys e.World)
      → IsGoing j
      → 9 ≤ length j.steps
      → On e (Known j) s
      → On e IsDone s
  finished j s (no_failure, bound) enough known =
      let nine : length j.steps ≡ 9 = omega (arith, known.stored.valid.bounded) in
      record {
        journal = j;
        known = known;
        is_complete = complete_of_state j.state j known.stored.valid.state no_failure nine;
        no_failure = no_failure;
        nine = nine;
        bound = bound;
      }

  pub run_steps-Done :
      (fuel : ℕ) (j : Journal)
      → IsGoing j
      → 9 < fuel + length j.steps
      → Triple (On e (Known j)) (run_steps e c fuel j) (λ _. On e IsDone) (Failure e c r0)
  unfolding run_steps
  run_steps-Done zero j going enough = record {
    at = λ s h. absurd (omega (arith, h.stored.valid.bounded));
  }
  run_steps-Done (suc fuel) j going enough =
      round (get_elem? ordered_steps (length j.steps)) refl (run_steps-Done fuel)
    where
      round :
          (o : Option Step)
          → get_elem? ordered_steps (length j.steps) ≡ o
          → ((j' : Journal)
              → IsGoing j'
              → 9 < fuel + length j'.steps
              → Triple
                  (On e (Known j'))
                  (run_steps e c fuel j')
                  (λ _. On e IsDone)
                  (Failure e c r0))
          → Triple
              (On e (Known j))
              (elim o [ none ↦ pure tt | some step ↦ (run_step e c j step >>= run_steps e c fuel) ])
              (λ _. On e IsDone)
              (Failure e c r0)
      round none last again =
          pure_rule tt (λ s h. finished j s going (get_elem?-none ordered_steps _ last) h)
      round (some step) next again =
          bind_rule _ (run_step e c j step) _ (run_step-Stepped j step next going.1)
            λ j'. fact_rule _ λ stepped. again j' stepped.0 (omega (arith, stepped.1))
