-- ===== src/Bootstrap/Request.antt =====
-- internal/bootstrap/service.go, ca.go, kubelet.go, calico.go, istio.go, spire.go, dex.go: the calls
-- that the coordinator makes of its dependencies. An `Action` changes the world and returns an
-- observation, a `Check` reads the world against an observation.
use sovereignite.Base.{Bytes, Bool}
use sovereignite.Bootstrap.Step.{Step, Component}
use sovereignite.Bootstrap.Config.{Artifact, Prefix}
use sovereignite.Bootstrap.Journal.{Observation}

pub record Operation : Type 0 where
  pub transaction_id : Bytes
  pub idempotency_key : Bytes
  pub bootstrap_version : Bytes
  pub configuration_sha256 : Bytes
  pub step : Step
  pub field_manager : Bytes
  pub force_ownership : Bool
  pub compatibility : Artifact

pub record CaRequest : Type 0 where
  pub purpose : Bytes
  pub artifact : Artifact
  pub key_inventory : Artifact
  pub issuer_hierarchy : Artifact

pub record SpireRequest : Type 0 where
  pub artifact : Artifact
  pub tpm_device_key_reference : Bytes
  pub key_inventory : Artifact
  pub issuer_hierarchy : Artifact

pub record DexRequest : Type 0 where
  pub artifact : Artifact
  pub issuer_hierarchy : Artifact
  pub ingress_token_flow : Artifact

-- The methods of the dependencies that return an observation. `reconcile` and `check_ready` are
-- methods of several dependencies; the component says of which.
pub data Action : Type 0 where
  ensure_signing : Operation → CaRequest → Action
  prepare_kubelet : Operation → Artifact → Artifact → Action
  prepare_ipv6 : Operation → Prefix → Artifact → Action
  prepare_ingress : Operation → Artifact → Artifact → Action
  prepare_tpm : Operation → SpireRequest → Action
  initialize_api_server : Operation → Artifact → Artifact → Action
  wait_control_plane : Operation → Artifact → Action
  reconcile : Component → Operation → Artifact → Action
  reconcile_dex : Operation → DexRequest → Action
  check_ready : Component → Operation → Action

pub data Check : Type 0 where
  verify_signing : Operation → CaRequest → Observation → Check
  verify_kubelet : Operation → Artifact → Artifact → Observation → Check
  verify_ipv6 : Operation → Prefix → Artifact → Observation → Check
  verify_ingress : Operation → Artifact → Artifact → Observation → Check
  verify_tpm : Operation → SpireRequest → Observation → Check
  verify_api_server : Operation → Artifact → Artifact → Observation → Check
  verify_control_plane : Operation → Artifact → Observation → Check
  verify_reconciled : Component → Operation → Artifact → Observation → Check
  verify_reconciled_dex : Operation → DexRequest → Observation → Check
  verify_ready : Component → Operation → Observation → Check

-- The operation under which an action is called.
abbrev pub operation_of : Action → Operation
operation_of (ensure_signing o _) = o
operation_of (prepare_kubelet o _ _) = o
operation_of (prepare_ipv6 o _ _) = o
operation_of (prepare_ingress o _ _) = o
operation_of (prepare_tpm o _) = o
operation_of (initialize_api_server o _ _) = o
operation_of (wait_control_plane o _) = o
operation_of (reconcile _ o _) = o
operation_of (reconcile_dex o _) = o
operation_of (check_ready _ o) = o
