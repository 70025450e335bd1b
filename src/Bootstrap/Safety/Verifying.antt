-- ===== src/Bootstrap/Safety/Verifying.antt =====
-- The read-only verification: it changes neither file nor trace, indexes the observations within
-- bounds, and passes only records whose evidence is bound to the configuration.
use sovereignite.Base.{
  Bytes, ℕ, zero, suc, ◌<◌, Option, none, some, List, [], ◌∷◌, All, first_error-none, length,
  get_elem?, ◌≡◌, refl, arith, ◌∙◌, sym,
}
use sovereignite.Bootstrap.Step.{
  Step, tpm_key_manager_ca_signing, kubelet_config, calico_ipv6, istio_ingress, spire_tpm_config,
  initialize_api_server, wait_control_plane, apply_cluster_configs, mark_complete,
}
use sovereignite.Bootstrap.Error.{Error, at_step, ok, IsClean}
use sovereignite.Bootstrap.Journal.{
  Observation, Evidence, StepRecord, Journal, expected_components, validate_evidence_shape,
}
use sovereignite.Bootstrap.Journal.Validity.{
  validate_evidence_shape-IsEvidenceOf, IsEvidence-length,
}
use sovereignite.Bootstrap.Journal.Clean.{
  validate_evidence_shape-IsClean, first_error-IsClean, fail_if-IsClean, row-IsClean,
}
use sovereignite.Bootstrap.Request.{Operation, Check}
use sovereignite.Bootstrap.Machine.{Env, Event, Sys, M, pure, raise, check, ◌>>=◌, ◌>>◌, catch}
use sovereignite.Bootstrap.Machine.Triple.{
  Triple, pure_rule, raise_rule, bind_rule, catch_rule, check_rule, lift_then, ask_rule, weaken,
}
use sovereignite.Bootstrap.Store.Laws.{On, OnFailure, clean_error}
use sovereignite.Bootstrap.Coordinator.Requests.{
  Coordinator, expected_observations, binding_checks, bindings_checks, evidence_binding_checks,
  validate_evidence,
}
use sovereignite.Bootstrap.Coordinator.Verify.{
  inspect, verify_reconciled_all, verify_ready_all, verify_step, verify_record, at_record,
  verify_records, verify_completed,
}
use sovereignite.Bootstrap.Safety.{AllBound}

length-expected_observations :
    (c : Coordinator) (step : Step)
    → length (expected_observations c step) ≡ length (expected_components step)
unfolding expected_observations expected_components
length-expected_observations c tpm_key_manager_ca_signing = refl
length-expected_observations c _ = refl

length-evidence :
    (step : Step) (evidence : Evidence)
    → validate_evidence_shape step evidence ≡ none
    → length evidence ≡ length (expected_components step)
length-evidence step evidence h =
    IsEvidence-length _ evidence _ ((validate_evidence_shape-IsEvidenceOf step evidence).0 h)

bindings_checks-IsClean :
    (os : Evidence) (xs : List Observation)
    → length os ≡ length xs
    → All IsClean (bindings_checks os xs)
unfolding bindings_checks
bindings_checks-IsClean [] xs h = tt
bindings_checks-IsClean (o ∷ os) [] h = absurd (omega arith)
bindings_checks-IsClean (o ∷ os) (x ∷ xs) h = (
  first_error-IsClean (binding_checks o x)
      (fail_if-IsClean _ _ refl, (fail_if-IsClean _ _ refl, tt)),
  bindings_checks-IsClean os xs (omega arith),
)

validate_evidence-IsClean :
    (c : Coordinator) (step : Step) (evidence : Evidence)
    → IsClean (validate_evidence c step evidence)
unfolding validate_evidence
validate_evidence-IsClean c step evidence =
    row-IsClean (validate_evidence_shape step evidence) _
      (validate_evidence_shape-IsClean step evidence)
      λ shaped. first_error-IsClean _ (
        first_error-IsClean _ (
            bindings_checks-IsClean evidence (expected_observations c step)
              (length-evidence step evidence shaped ∙ sym (length-expected_observations c step))),
        tt,
      )

-- Evidence that is bound to the configuration has one observation for each component.
pub validate_evidence-length :
    (c : Coordinator) (step : Step) (evidence : Evidence)
    → validate_evidence c step evidence ≡ none
    → length evidence ≡ length (expected_components step)
unfolding validate_evidence
validate_evidence-length c step evidence h =
    length-evidence step evidence (first_error-none (evidence_binding_checks c step evidence) h).0

get_elem?-of_lt :
    {A : Type 0} (xs : List A) (i : ℕ) → i < length xs → (x : A) × (get_elem? xs i ≡ some x)
get_elem?-of_lt [] i h = absurd (omega arith)
get_elem?-of_lt (x ∷ xs) zero h = (x, refl)
get_elem?-of_lt (x ∷ xs) (suc i) h = get_elem?-of_lt xs i (omega arith)

module _ (e : Env) (c : Coordinator) (φ : Option Bytes → List Event → Type 0) where
  abbrev Keeps : M e.World (Unit {0}) → Type 0
  Keeps m = Triple (On e φ) m (λ _. On e φ) (OnFailure e φ)

  inspect-Keeps :
      (make : Observation → Check) (os : List Observation) (i : ℕ)
      → i < length os
      → Keeps (inspect e c make os i)
  unfolding inspect
  inspect-Keeps make os i h =
      let (o, found) = get_elem?-of_lt os i h in
      rw found
        (lift_then (ok o) _ (λ er p s h. cc) λ o' p. ask_rule _ (λ s h _. h) (λ s n h _. (refl, h)))

  Keeps-then : (m n : M e.World (Unit {0})) → Keeps m → Keeps n → Keeps (m >> n)
  Keeps-then m n km kn = bind_rule (λ _. On e φ) m _ km (λ _. kn)

  verify_step-Keeps :
      (step : Step) (op : Operation) (os : List Observation)
      → length os ≡ length (expected_components step)
      → Keeps (verify_step e c step op os)
  unfolding verify_step expected_components
  verify_step-Keeps tpm_key_manager_ca_signing op os h = inspect-Keeps _ os 0 (omega arith)
  verify_step-Keeps kubelet_config op os h = inspect-Keeps _ os 0 (omega arith)
  verify_step-Keeps calico_ipv6 op os h = inspect-Keeps _ os 0 (omega arith)
  verify_step-Keeps istio_ingress op os h = inspect-Keeps _ os 0 (omega arith)
  verify_step-Keeps spire_tpm_config op os h = inspect-Keeps _ os 0 (omega arith)
  verify_step-Keeps initialize_api_server op os h = inspect-Keeps _ os 0 (omega arith)
  verify_step-Keeps wait_control_plane op os h = inspect-Keeps _ os 0 (omega arith)
  verify_step-Keeps apply_cluster_configs op os h =
      unfold verify_reconciled_all in
      Keeps-then _ _ (inspect-Keeps _ os 0 (omega arith)) (
        Keeps-then _ _ (inspect-Keeps _ os 1 (omega arith)) (
          Keeps-then _ _ (inspect-Keeps _ os 2 (omega arith)) (
            Keeps-then _ _ (inspect-Keeps _ os 3 (omega arith))
              (inspect-Keeps _ os 4 (omega arith)))))
  verify_step-Keeps mark_complete op os h =
      unfold verify_ready_all in
      Keeps-then _ _ (inspect-Keeps _ os 0 (omega arith)) (
        Keeps-then _ _ (inspect-Keeps _ os 1 (omega arith)) (
          Keeps-then _ _ (inspect-Keeps _ os 2 (omega arith)) (
            Keeps-then _ _ (inspect-Keeps _ os 3 (omega arith))
              (inspect-Keeps _ os 4 (omega arith)))))
  verify_step-Keeps (Step.other_step s) op os h = raise_rule _ (λ s h. (refl, h))

  -- A record with evidence of the right length is verified without a crash.
  pub verify_record-Keeps :
      (r : StepRecord) (j : Journal)
      → validate_evidence c r.step r.evidence ≡ none
      → Keeps (verify_record e c r j)
  unfolding verify_record
  verify_record-Keeps r j h =
      verify_step-Keeps r.step _ r.evidence (validate_evidence-length c r.step r.evidence h)

  at_record-Keeps :
      (step : Step) (m : M e.World (Unit {0})) → Keeps m → Keeps (at_record e c step m)
  unfolding at_record
  at_record-Keeps step m k =
      catch_rule (λ _. On e φ) (OnFailure e φ) m _ _ k (λ a. pure_rule a (λ s h. h))
        (λ er. raise_rule (at_step step er) (λ s h. h))

  pub check_evidence_fact :
      (step : Step) (evidence : Evidence)
      → Triple
          (On e φ)
          (check (validate_evidence c step evidence))
          (λ _ s. (validate_evidence c step evidence ≡ none) × On e φ s)
          (OnFailure e φ)
  check_evidence_fact step evidence =
      check_rule (validate_evidence c step evidence) (λ p s h. (p, h))
        λ er p s h. (
          clean_error (validate_evidence c step evidence)
              (validate_evidence-IsClean c step evidence) p,
          h,
        )

module _ (e : Env) (c : Coordinator) where
  at_record-check_then :
      (φ : Option Bytes → List Event → Type 0) (step : Step) (r : Option Error)
      (R : Unit {0} → Sys e.World → Type 0) (f : Unit {0} → M e.World (Unit {0}))
      → IsClean r
      → (r ≡ none → Triple (On e φ) (f tt) R (OnFailure e φ))
      → Triple (On e φ) (at_record e c step (check r) >>= f) R (OnFailure e φ)
  unfolding at_record catch check pure raise ◌>>=◌
  at_record-check_then φ step none R f clean k = record { at = (k refl).at }
  at_record-check_then φ step (some er) R f clean k = record {
    at = λ s h. (clean_error (some er) clean refl, h);
  }

  -- Verification passes only if the evidence of every record is bound to the configuration.
  pub verify_records-keeps :
      (φ : Option Bytes → List Event → Type 0) (rs : List StepRecord) (j : Journal)
      → Triple
          (On e φ)
          (verify_records e c rs j)
          (λ _. On e (λ f t. φ f t × AllBound e c rs))
          (OnFailure e φ)
  unfolding verify_records
  verify_records-keeps φ [] j = pure_rule tt (λ s h. (h, tt))
  verify_records-keeps φ (r ∷ rs) j =
      at_record-check_then φ r.step (validate_evidence c r.step r.evidence) _ _
        (validate_evidence-IsClean c r.step r.evidence)
        λ bound.
          bind_rule (λ _. On e φ) _ _
            (at_record-Keeps e c φ r.step _ (verify_record-Keeps e c φ r j bound))
            λ _.
              weaken _ (verify_records-keeps φ rs j) (λ s h. h) (λ a s h. (h.0, (bound, h.1)))
                (λ er s h. h)

  pub verify_completed-keeps :
      (φ : Option Bytes → List Event → Type 0) (j : Journal)
      → Triple
          (On e φ)
          (verify_completed e c j)
          (λ _. On e (λ f t. φ f t × AllBound e c j.steps))
          (OnFailure e φ)
  unfolding verify_completed
  verify_completed-keeps φ j = verify_records-keeps φ j.steps j
