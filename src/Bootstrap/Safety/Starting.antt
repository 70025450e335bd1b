-- ===== src/Bootstrap/Safety/Starting.antt =====
-- `StartBootstrap` from the load of the journal to its last commit.
use mathlib.Core.Path.{subst}
use sovereignite.Base.{
  Bytes, false, Option, none, some, List, ==_iff, length, All, ◌≡◌, refl, ◌∙◌, ap, sym, arith,
}
use sovereignite.Bootstrap.Step.{spire_tpm_config}
use sovereignite.Bootstrap.Error.{Error, foreign}
use sovereignite.Bootstrap.Journal.{
  in_progress, complete, Journal, failure_verification, failure_prepared,
}
use sovereignite.Bootstrap.Machine.{Env, Event, Sys}
use sovereignite.Bootstrap.Machine.Triple.{
  Triple, pure_rule, bind_rule, catch_rule, if_rule, ask_then, fact_rule, weaken,
}
use sovereignite.Bootstrap.Store.{load}
use sovereignite.Bootstrap.Store.Laws.{
  Codec, Holds, On, OnFailure, AndHolds, refuse_then, load-Holds,
}
use sovereignite.Bootstrap.Store.Saving.{Holds-unique}
use sovereignite.Bootstrap.Coordinator.Requests.{Coordinator, require_compatible}
use sovereignite.Bootstrap.Coordinator.Verify.{verification_failure_step}
use sovereignite.Bootstrap.Coordinator.Start.{
  is_failed, is_not_complete, or_initialize, verify_or_fail, finish_complete, resume, rounds,
  continue_steps, publish_if_prepared, start_bootstrap,
}
use sovereignite.Bootstrap.Safety.{AllBound, Since, IsIntended, Failure}
use sovereignite.Bootstrap.Safety.Verifying.{verify_completed-keeps}
use sovereignite.Bootstrap.Safety.Writing.{Extends-refl, advance_and_save-Advanced}
use sovereignite.Bootstrap.Safety.Committing.{
  known_bad, unchanged, fail_with-Failure, or_fail-Failure, initialize_journal-Known,
}
use sovereignite.Bootstrap.Safety.Running.{
  Known, IsGoing, IsDone, run_steps-Done, publish_prepared-keeps,
}

no_failure_of : (j : Journal) → is_failed j ≡ false → j.failure ≡ none
no_failure_of j h = ground arith

complete_of : (j : Journal) → is_not_complete j ≡ false → (j.state ≡ complete) × (j.failure ≡ none)
complete_of j h = ground arith

module _ (e : Env) (c : Coordinator) (codec : Codec e) (r0 : Option Journal) where
  resume-Going :
      (j : Journal)
      → AllBound e c j.steps
      → Triple
          (On e (Known e c codec r0 j))
          (resume e c j)
          (λ j' s. IsGoing e c codec r0 j' × On e (Known e c codec r0 j') s)
          (Failure e c r0)
  unfolding resume
  resume-Going j bound =
      if_rule _ _ _
        (λ _.
          weaken _
            (advance_and_save-Advanced e c codec r0 j
              (record j { state = in_progress; failure = none })
              (unchanged j _ refl refl refl refl))
            (λ s h. h)
            (λ j' s h. (
              (ap (λ k. k.failure) h.1, subst (AllBound e c) (sym (ap (λ k. k.steps) h.1)) bound),
              h.2,
            ))
            (λ er s h. h))
        (λ fine. pure_rule j λ s h. ((no_failure_of j fine, bound), h))

  continue_steps-Done :
      (j : Journal)
      → AllBound e c j.steps
      → Triple
          (On e (Known e c codec r0 j))
          (continue_steps e c j)
          (λ _. On e (IsDone e c codec r0))
          (Failure e c r0)
  unfolding continue_steps
  continue_steps-Done j bound =
      bind_rule _ (resume e c j) _ (resume-Going j bound)
        λ j'. fact_rule _ λ going. run_steps-Done e c codec r0 rounds j' going (omega arith)

  finish_complete-Done :
      (j : Journal)
      → AllBound e c j.steps
      → length j.steps ≡ 9
      → Triple
          (On e (Known e c codec r0 j))
          (finish_complete e c j)
          (λ _. On e (IsDone e c codec r0))
          (Failure e c r0)
  unfolding finish_complete
  finish_complete-Done j bound nine =
      if_rule _ _ _
        (λ _.
          bind_rule (λ _. On e (IsDone e c codec r0)) _ _
            (weaken _
              (advance_and_save-Advanced e c codec r0 j
                (record j { state = complete; failure = none; current = none })
                (unchanged j _ refl refl refl refl))
              (λ s h. h)
              (λ j' s h. record {
                journal = j';
                known = h.2;
                is_complete = ap (λ k. k.state) h.1;
                no_failure = ap (λ k. k.failure) h.1;
                nine = ap (λ k. length k.steps) h.1 ∙ nine;
                bound = subst (AllBound e c) (sym (ap (λ k. k.steps) h.1)) bound;
              })
              (λ er s h. h))
            (λ _. pure_rule tt (λ s h. h)))
        (λ fine. pure_rule tt λ s h. record {
          journal = j;
          known = h;
          is_complete = (complete_of j fine).0;
          no_failure = (complete_of j fine).1;
          nine = nine;
          bound = bound;
        })

  verify_or_fail-Bound :
      (j : Journal)
      → Triple
          (On e (Known e c codec r0 j))
          (verify_or_fail e c j)
          (λ _ s. AllBound e c j.steps × On e (Known e c codec r0 j) s)
          (Failure e c r0)
  unfolding verify_or_fail
  verify_or_fail-Bound j =
      catch_rule (λ _ s. AllBound e c j.steps × On e (Known e c codec r0 j) s)
        (OnFailure e (Known e c codec r0 j)) _ _ _
        (weaken _ (verify_completed-keeps e c (Known e c codec r0 j) j) (λ s h. h)
          (λ _ s h. (h.1, h.0)) (λ er s h. h))
        (λ _. pure_rule tt (λ s h. h))
        (λ er.
          fail_with-Failure e c codec r0 _ j (verification_failure_step j er) failure_verification
            er)

  publish_if_prepared-keeps :
      (j : Journal)
      → Triple
          (On e (Known e c codec r0 j))
          (publish_if_prepared e c j)
          (λ _. On e (Known e c codec r0 j))
          (Failure e c r0)
  publish_if_prepared-keeps j =
      if_rule _ _ _
        (λ _.
          or_fail-Failure e c codec r0 _ j spire_tpm_config failure_prepared _
            (publish_prepared-keeps e c codec r0 j))
        (λ _. pure_rule tt (λ s h. h))

  -- From a file that holds `r0`, with whatever intended calls before.
  abbrev pub IsStart : Option Bytes → List Event → Type 0
  IsStart f t = Holds e r0 f × All (IsIntended e c) t

  start_bad : (er : Error) (s : Sys e.World) → OnFailure e IsStart er s → Failure e c r0 er s
  start_bad er s h =
      (h.0, record { journal = r0; holds = h.1.0; since = since_refl r0; traced = h.1.1 })
    where
      since_refl : (r : Option Journal) → Since r r
      since_refl none = tt
      since_refl (some j) = Extends-refl j

  loaded_is : (r : Option Journal) (s : Sys e.World) → On e (AndHolds e IsStart r) s → r ≡ r0
  loaded_is r s h = Holds-unique e r r0 s.file h.1 h.0.0

  or_initialize-Known :
      (r : Option Journal)
      → Triple
          (On e (AndHolds e IsStart r))
          (or_initialize e c r)
          (λ j. On e (Known e c codec r0 j))
          (Failure e c r0)
  or_initialize-Known none = record {
    at = λ s h.
        (initialize_journal-Known e c codec r0).at s
          (h.1, subst (λ r. Since r none) (loaded_is none s h) tt, h.0.1);
  }
  or_initialize-Known (some j) = pure_rule j λ s h. record {
    stored = h.1;
    since = subst (λ r. Since r (some j)) (loaded_is (some j) s h) (Extends-refl j);
    traced = h.0.1;
  }

  pub start_bootstrap-Done :
      Triple (On e IsStart) (start_bootstrap e c) (λ _. On e (IsDone e c codec r0)) (Failure e c r0)
  unfolding start_bootstrap require_compatible
  start_bootstrap-Done =
      ask_then e.context_err _ (λ s w h. h) (λ s n h. start_bad (foreign n) s (refl, h))
        (bind_rule _ (load e) _ (weaken _ (load-Holds e IsStart) (λ s h. h) (λ r s h. h) start_bad)
          λ r. bind_rule _ (or_initialize e c r) _ (or_initialize-Known r) λ j.
            refuse_then e (Known e c codec r0 j) (known_bad e c codec r0 j) _ _ _ refl λ compatible.
              bind_rule _ (verify_or_fail e c j) _ (verify_or_fail-Bound j) λ _.
                fact_rule _ λ bound.
                  bind_rule (λ _. On e (Known e c codec r0 j)) _ _ (publish_if_prepared-keeps j)
                    λ _.
                      if_rule _ _ _ (λ nine. finish_complete-Done j bound ((==_iff _ _).0 nine))
                        (λ _. continue_steps-Done j bound))
