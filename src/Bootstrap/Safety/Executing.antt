-- ===== src/Bootstrap/Safety/Executing.antt =====
-- Executing a step: every action is called while the file holds the intent to take that step.
use sovereignite.Base.{Bytes, Option, none, some, List, length, get_elem?, ◌≡◌, refl}
use sovereignite.Bootstrap.Step.{
  Step, tpm_key_manager_ca_signing, kubelet_config, calico_ipv6, istio_ingress, spire_tpm_config,
  initialize_api_server, wait_control_plane, apply_cluster_configs, mark_complete, ordered_steps,
}
use sovereignite.Bootstrap.Journal.{Observation, in_progress, Attempt, Journal}
use sovereignite.Bootstrap.Request.{Operation, Action, operation_of}
use sovereignite.Bootstrap.Machine.{Env, Event, Sys, M, ◌>>=◌}
use sovereignite.Bootstrap.Machine.Triple.{Ends, Triple, pure_rule, raise_rule, bind_rule, weaken}
use sovereignite.Bootstrap.Store.Laws.{On, OnFailure}
use sovereignite.Bootstrap.Coordinator.Requests.{Coordinator, operation}
use sovereignite.Bootstrap.Coordinator.Verify.{verify_completed}
use sovereignite.Bootstrap.Coordinator.Execute.{
  observed, perform, perform_one, apply_cluster_configs_all, check_all_ready, execute_operation,
  execute_step,
}
use sovereignite.Bootstrap.Safety.{IsKnown}
use sovereignite.Bootstrap.Safety.Verifying.{verify_completed-keeps}

module _ (e : Env) (c : Coordinator) (r0 : Option Journal) (j : Journal) (a : Attempt)
    (going : j.state ≡ in_progress) (current : j.current ≡ some a)
    (next : get_elem? ordered_steps (length j.steps) ≡ some a.step) where
  abbrev Known : Option Bytes → List Event → Type 0
  Known = IsKnown e c r0 j

  abbrev KeepsKnown : {A : Type 0} → M e.World A → Type 0
  KeepsKnown m = Triple (On e Known) m (λ _. On e Known) (OnFailure e Known)

  observed-Ends :
      (r : Option Observation) (s : Sys e.World)
      → On e Known s
      → Ends (λ _. On e Known) (OnFailure e Known) (observed r) s
  observed-Ends none s h = (refl, h)
  observed-Ends (some o) s h = h

  perform-known :
      (act : Action)
      → operation_of act ≡ operation e.digests c j a.step
      → KeepsKnown (perform e c act)
  unfolding perform
  perform-known act same_operation = record {
    at = λ s h. observed-Ends (e.call act s.world).0 _ (record {
      stored = h.stored;
      since = h.since;
      traced = (
        record {
          journal = j;
          stored = h.stored;
          going = going;
          attempt = a;
          current = current;
          next = next;
          operation = same_operation;
        },
        h.traced,
      );
    });
  }

  abbrev op : Operation
  op = operation e.digests c j a.step

  -- One more call, and the rest.
  perform_then :
      {B : Type 0} (act : Action) (f : Observation → M e.World B)
      → operation_of act ≡ op
      → ((o : Observation) → KeepsKnown (f o))
      → KeepsKnown (perform e c act >>= f)
  perform_then act f same_operation k =
      bind_rule (λ _. On e Known) (perform e c act) f (perform-known act same_operation) k

  perform_one-known : (act : Action) → operation_of act ≡ op → KeepsKnown (perform_one e c act)
  unfolding perform_one
  perform_one-known act same_operation =
      perform_then act _ same_operation λ o. pure_rule _ (λ s h. h)

  apply_cluster_configs_all-known : KeepsKnown (apply_cluster_configs_all e c op)
  unfolding apply_cluster_configs_all
  apply_cluster_configs_all-known = perform_then _ _ refl λ k. perform_then _ _ refl λ n.
      perform_then _ _ refl
        λ i. perform_then _ _ refl λ s. perform_then _ _ refl λ d. pure_rule _ (λ s h. h)

  check_all_ready-known : KeepsKnown (check_all_ready e c op)
  unfolding check_all_ready
  check_all_ready-known = perform_then _ _ refl λ k. perform_then _ _ refl λ n.
      perform_then _ _ refl
        λ i. perform_then _ _ refl λ s. perform_then _ _ refl λ d. pure_rule _ (λ s h. h)

  execute_operation-known : (step : Step) → KeepsKnown (execute_operation e c step op j)
  unfolding execute_operation
  execute_operation-known tpm_key_manager_ca_signing = perform_one-known _ refl
  execute_operation-known kubelet_config = perform_one-known _ refl
  execute_operation-known calico_ipv6 = perform_one-known _ refl
  execute_operation-known istio_ingress = perform_one-known _ refl
  execute_operation-known spire_tpm_config = perform_one-known _ refl
  execute_operation-known initialize_api_server = perform_one-known _ refl
  execute_operation-known wait_control_plane = perform_one-known _ refl
  execute_operation-known apply_cluster_configs = apply_cluster_configs_all-known
  execute_operation-known mark_complete =
      bind_rule (λ _. On e Known) (verify_completed e c j) _
        (weaken _ (verify_completed-keeps e c Known j) (λ s h. h) (λ _ s h. h.0) (λ er s h. h))
        λ _. check_all_ready-known
  execute_operation-known (Step.other_step s) = raise_rule _ (λ s h. (refl, h))

  pub execute_step-known : KeepsKnown (execute_step e c a.step j)
  unfolding execute_step
  execute_step-known = execute_operation-known a.step
