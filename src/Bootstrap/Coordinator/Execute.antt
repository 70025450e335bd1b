-- ===== src/Bootstrap/Coordinator/Execute.antt =====
-- internal/bootstrap/cluster.go: the calls that execute a step.
use sovereignite.Base.{Option, none, some, [], ◌∷◌}
use sovereignite.Bootstrap.Step.{
  Step, tpm_key_manager_ca_signing, kubelet_config, calico_ipv6, istio_ingress, spire_tpm_config,
  initialize_api_server, wait_control_plane, apply_cluster_configs, mark_complete, kubernetes,
  calico, istio, spire, dex,
}
use sovereignite.Bootstrap.Error.{Result, ok, err, dependency_failed, unknown_step}
use sovereignite.Bootstrap.Journal.{Observation, Evidence, Journal}
use sovereignite.Bootstrap.Request.{
  Operation, Action, ensure_signing, prepare_kubelet, prepare_ipv6, prepare_ingress, prepare_tpm,
  reconcile, reconcile_dex, check_ready,
}
use sovereignite.Bootstrap.Machine.{Env, M, pure, raise, ◌>>=◌, ◌>>◌}
use sovereignite.Bootstrap.Coordinator.Requests.{
  Coordinator, operation, ca_request, spire_request, dex_request,
}
use sovereignite.Bootstrap.Coordinator.Verify.{verify_completed}

abbrev pub observed : Option Observation → Result Observation
observed none = err dependency_failed
observed (some o) = ok o

module _ (e : Env) (c : Coordinator) where
  -- One call of a dependency, entered into the trace with the journal's file as it is.
  unfoldable pub perform : Action → M e.World Observation
  perform a s =
      let (r, w) = e.call a s.world in
      (observed r, record s { world = w; trace = record { action = a; file = s.file } ∷ s.trace })

  -- `evidenceOf(observation), err`.
  unfoldable pub perform_one : Action → M e.World Evidence
  perform_one a = do o ← perform a; pure (o ∷ [])

  unfoldable pub apply_cluster_configs_all : Operation → M e.World Evidence
  apply_cluster_configs_all op = do
    k ← perform (reconcile kubernetes op c.config.artifacts.cluster)
    n ← perform (reconcile calico op c.config.artifacts.calico)
    i ← perform (reconcile istio op c.config.artifacts.istio)
    s ← perform (reconcile spire op c.config.artifacts.spire)
    d ← perform (reconcile_dex op (dex_request c))
    pure (k ∷ n ∷ i ∷ s ∷ d ∷ [])

  unfoldable pub check_all_ready : Operation → M e.World Evidence
  check_all_ready op = do
    k ← perform (check_ready kubernetes op)
    n ← perform (check_ready calico op)
    i ← perform (check_ready istio op)
    s ← perform (check_ready spire op)
    d ← perform (check_ready dex op)
    pure (k ∷ n ∷ i ∷ s ∷ d ∷ [])

  unfoldable pub execute_operation : Step → Operation → Journal → M e.World Evidence
  execute_operation tpm_key_manager_ca_signing op j = perform_one (ensure_signing op (ca_request c))
  execute_operation kubelet_config op j =
      perform_one
        (prepare_kubelet op c.config.artifacts.kubelet c.config.authority.kubernetes_topology)
  execute_operation calico_ipv6 op j =
      perform_one (prepare_ipv6 op c.config.ula c.config.artifacts.calico)
  execute_operation istio_ingress op j =
      perform_one
        (prepare_ingress op c.config.artifacts.istio c.config.authority.ingress_token_flow)
  execute_operation spire_tpm_config op j = perform_one (prepare_tpm op (spire_request c))
  execute_operation initialize_api_server op j = perform_one (
      Action.initialize_api_server op c.config.artifacts.control_plane
        c.config.authority.kubernetes_topology)
  execute_operation wait_control_plane op j =
      perform_one (Action.wait_control_plane op c.config.artifacts.control_plane)
  execute_operation apply_cluster_configs op j = apply_cluster_configs_all op
  execute_operation mark_complete op j = do verify_completed e c j; check_all_ready op
  execute_operation (Step.other_step s) op j = raise (unknown_step (Step.other_step s))

  -- `executeStep`.
  unfoldable pub execute_step : Step → Journal → M e.World Evidence
  execute_step step j = execute_operation step (operation e.digests c j step) j
