-- ===== src/Bootstrap/Coordinator/Verify.antt =====
-- internal/bootstrap/cluster.go: the read-only verification of recorded steps.
use sovereignite.Base.{ℕ, Option, none, some, List, [], ◌∷◌, length, get_elem?}
use sovereignite.Bootstrap.Step.{
  Step, tpm_key_manager_ca_signing, kubelet_config, calico_ipv6, istio_ingress, spire_tpm_config,
  initialize_api_server, wait_control_plane, apply_cluster_configs, mark_complete, kubernetes,
  calico, istio, dex, spire, ordered_steps,
}
use sovereignite.Bootstrap.Error.{Error, at_step, unknown_step}
use sovereignite.Bootstrap.Journal.{Observation, StepRecord, Attempt, Journal}
use sovereignite.Bootstrap.Request.{
  Operation, Check, verify_signing, verify_kubelet, verify_ipv6, verify_ingress, verify_tpm,
  verify_api_server, verify_control_plane, verify_reconciled, verify_reconciled_dex, verify_ready,
}
use sovereignite.Bootstrap.Machine.{Env, M, pure, raise, lift, check, ask, ◌>>=◌, ◌>>◌, catch}
use sovereignite.Bootstrap.Coordinator.Requests.{
  Coordinator, validate_evidence, operation, ca_request, spire_request, dex_request, observation_at,
}

module _ (e : Env) (c : Coordinator) where
  -- A check of a dependency against one of the observations.
  unfoldable pub inspect : (Observation → Check) → List Observation → ℕ → M e.World (Unit {0})
  inspect make os i = do o ← lift (observation_at os i); ask (e.inspect (make o))

  unfoldable pub verify_reconciled_all : Operation → List Observation → M e.World (Unit {0})
  verify_reconciled_all op os = do
    inspect (verify_reconciled kubernetes op c.config.artifacts.cluster) os 0
    inspect (verify_reconciled calico op c.config.artifacts.calico) os 1
    inspect (verify_reconciled istio op c.config.artifacts.istio) os 2
    inspect (verify_reconciled spire op c.config.artifacts.spire) os 3
    inspect (verify_reconciled_dex op (dex_request c)) os 4

  unfoldable pub verify_ready_all : Operation → List Observation → M e.World (Unit {0})
  verify_ready_all op os = do
    inspect (verify_ready kubernetes op) os 0
    inspect (verify_ready calico op) os 1
    inspect (verify_ready istio op) os 2
    inspect (verify_ready spire op) os 3
    inspect (verify_ready dex op) os 4

  unfoldable pub verify_step : Step → Operation → List Observation → M e.World (Unit {0})
  verify_step tpm_key_manager_ca_signing op os = inspect (verify_signing op (ca_request c)) os 0
  verify_step kubelet_config op os =
      inspect (verify_kubelet op c.config.artifacts.kubelet c.config.authority.kubernetes_topology)
        os 0
  verify_step calico_ipv6 op os =
      inspect (verify_ipv6 op c.config.ula c.config.artifacts.calico) os 0
  verify_step istio_ingress op os =
      inspect (verify_ingress op c.config.artifacts.istio c.config.authority.ingress_token_flow) os
        0
  verify_step spire_tpm_config op os = inspect (verify_tpm op (spire_request c)) os 0
  verify_step initialize_api_server op os =
      inspect
        (verify_api_server op c.config.artifacts.control_plane
          c.config.authority.kubernetes_topology)
        os 0
  verify_step wait_control_plane op os =
      inspect (verify_control_plane op c.config.artifacts.control_plane) os 0
  verify_step apply_cluster_configs op os = verify_reconciled_all op os
  verify_step mark_complete op os = verify_ready_all op os
  verify_step (Step.other_step s) op os = raise (unknown_step (Step.other_step s))

  -- `verifyRecord`.
  unfoldable pub verify_record : StepRecord → Journal → M e.World (Unit {0})
  verify_record r j = verify_step r.step (operation e.digests c j r.step) r.evidence

  -- `&recordVerificationError{step, err}`.
  unfoldable pub at_record : Step → M e.World (Unit {0}) → M e.World (Unit {0})
  at_record step m = catch m pure (λ er. raise (at_step step er))

  -- The loop of `verifyCompleted`.
  unfoldable pub verify_records : List StepRecord → Journal → M e.World (Unit {0})
  verify_records [] j = pure tt
  verify_records (r ∷ rs) j = do
    at_record r.step (check (validate_evidence c r.step r.evidence))
    at_record r.step (verify_record r j)
    verify_records rs j

  unfoldable pub verify_completed : Journal → M e.World (Unit {0})
  verify_completed j = verify_records j.steps j

abbrev next_or_last : Option Step → Step
next_or_last none = mark_complete
next_or_last (some s) = s

abbrev pending_step : Option Attempt → Journal → Step
pending_step (some a) j = a.step
pending_step none j = next_or_last (get_elem? ordered_steps (length j.steps))

-- `verificationFailureStep`.
unfoldable pub verification_failure_step : Journal → Error → Step
verification_failure_step j (at_step step _) = step
verification_failure_step j _ = pending_step j.current j
