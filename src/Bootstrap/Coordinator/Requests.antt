-- ===== src/Bootstrap/Coordinator/Requests.antt =====
-- internal/bootstrap/cluster.go: the coordinator's state, what it asks of its dependencies, and what
-- it expects their observations to say.
use sovereignite.Base.{
  Bytes, same, codes, ℕ, Bool, false, not, ◌||◌, Option, some, List, [], ◌∷◌, ◌++◌, fail_if,
  first_error, get_elem?,
}
use sovereignite.Bootstrap.Step.{
  Step, tpm_key_manager_ca_signing, kubelet_config, calico_ipv6, istio_ingress, spire_tpm_config,
  initialize_api_server, wait_control_plane, apply_cluster_configs, mark_complete, Component,
  key_manager, kubernetes, calico, istio, spire, dex, step_text,
}
use sovereignite.Bootstrap.Error.{Error, Result, ok, unless, or_err, ◌>>=◌}
use sovereignite.Bootstrap.Config.{Artifact, Configuration, Digests, validate_configuration}
use sovereignite.Bootstrap.Journal.{Observation, Evidence, Journal, validate_evidence_shape}
use sovereignite.Bootstrap.Request.{Operation, CaRequest, SpireRequest, DexRequest}

-- The configuration and its digest. The store, the dependencies, the clock and the hooks are in `Env`.
pub record Coordinator : Type 0 where
  pub config : Configuration
  pub config_digest : Bytes

-- Which of the arguments of `newCoordinator` are not nil.
pub record Wiring : Type 0 where
  pub has_store : Bool
  pub has_ca : Bool
  pub has_kubernetes : Bool
  pub has_calico : Bool
  pub has_istio : Bool
  pub has_spire : Bool
  pub has_dex : Bool
  pub has_prepared : Bool

abbrev pub is_incomplete : Wiring → Bool
is_incomplete w =
    not w.has_ca
    || not w.has_kubernetes
    || not w.has_calico
    || not w.has_istio
    || not w.has_spire
    || not w.has_dex
    || not w.has_prepared

-- `newCoordinator`; its defaults for the clock and the generator of identifiers are parts of `Env`.
unfoldable pub new_coordinator : Digests → Wiring → Configuration → Result Coordinator
new_coordinator d w config = unless (fail_if (not w.has_store) Error.dependencies_unavailable) (
    unless (fail_if (is_incomplete w) Error.dependencies_unavailable) do
      digest ← validate_configuration d config
      ok (record { config = config; config_digest = digest }))

-- The observation that a step must return, without the digest of the resource.
abbrev expected : Component → Artifact → Observation
expected component artifact = record {
  component = component;
  version = artifact.version;
  artifact_sha256 = artifact.sha256;
  resource_sha256 = [];
  ready = false;
}

unfoldable pub expected_observations : Coordinator → Step → List Observation
expected_observations c tpm_key_manager_ca_signing =
    expected key_manager c.config.artifacts.ca_request ∷ []
expected_observations c kubelet_config = expected kubernetes c.config.artifacts.kubelet ∷ []
expected_observations c calico_ipv6 = expected calico c.config.artifacts.calico ∷ []
expected_observations c istio_ingress = expected istio c.config.artifacts.istio ∷ []
expected_observations c spire_tpm_config = expected spire c.config.artifacts.spire ∷ []
expected_observations c initialize_api_server =
    expected kubernetes c.config.artifacts.control_plane ∷ []
expected_observations c wait_control_plane =
    expected kubernetes c.config.artifacts.control_plane ∷ []
expected_observations c apply_cluster_configs =
    expected kubernetes c.config.artifacts.cluster
    ∷ expected calico c.config.artifacts.calico
    ∷ expected istio c.config.artifacts.istio
    ∷ expected spire c.config.artifacts.spire
    ∷ expected dex c.config.artifacts.dex
    ∷ []
expected_observations c mark_complete =
    expected kubernetes c.config.artifacts.cluster
    ∷ expected calico c.config.artifacts.calico
    ∷ expected istio c.config.artifacts.istio
    ∷ expected spire c.config.artifacts.spire
    ∷ expected dex c.config.artifacts.dex
    ∷ []
expected_observations c (Step.other_step _) = []

abbrev pub binding_checks : Observation → Observation → List (Option Error)
binding_checks o x =
    fail_if (not (same o.version x.version)) (Error.observation_version o.component)
    ∷ fail_if (not (same o.artifact_sha256 x.artifact_sha256))
        (Error.observation_artifact o.component)
    ∷ []

-- The loop of `validateEvidence`; an index beyond the expected observations would be a crash.
unfoldable pub bindings_checks : Evidence → List Observation → List (Option Error)
bindings_checks [] xs = []
bindings_checks (o ∷ os) [] = some Error.panic ∷ []
bindings_checks (o ∷ os) (x ∷ xs) = first_error (binding_checks o x) ∷ bindings_checks os xs

abbrev pub evidence_binding_checks : Coordinator → Step → Evidence → List (Option Error)
evidence_binding_checks c step evidence =
    validate_evidence_shape step evidence
    ∷ first_error (bindings_checks evidence (expected_observations c step))
    ∷ []

-- `Coordinator.validateEvidence`.
unfoldable pub validate_evidence : Coordinator → Step → Evidence → Option Error
validate_evidence c step evidence = first_error (evidence_binding_checks c step evidence)

-- `requireCompatible`.
unfoldable pub require_compatible : Coordinator → Journal → Option Error
require_compatible c j =
    fail_if
      (not (same j.bootstrap_version c.config.bootstrap_version)
        || not (same j.configuration_sha256 c.config_digest))
      Error.incompatible_configuration

abbrev pub bootstrap_field_manager : Bytes
bootstrap_field_manager = codes "sovereignite-bootstrap"

-- `idempotencyKey`: the digest of the transaction, a zero byte and the step.
unfoldable pub idempotency_key : Digests → Bytes → Step → Bytes
idempotency_key d transaction step = d.sha256_hex (transaction ++ 0 ∷ step_text step)

unfoldable pub operation : Digests → Coordinator → Journal → Step → Operation
operation d c j step = record {
  transaction_id = j.transaction_id;
  idempotency_key = idempotency_key d j.transaction_id step;
  bootstrap_version = j.bootstrap_version;
  configuration_sha256 = j.configuration_sha256;
  step = step;
  field_manager = bootstrap_field_manager;
  force_ownership = false;
  compatibility = c.config.authority.compatibility;
}

unfoldable pub ca_request : Coordinator → CaRequest
ca_request c = record {
  purpose = codes "bootstrap-ca-signing";
  artifact = c.config.artifacts.ca_request;
  key_inventory = c.config.authority.tpm_key_inventory;
  issuer_hierarchy = c.config.authority.issuer_hierarchy;
}

unfoldable pub spire_request : Coordinator → SpireRequest
spire_request c = record {
  artifact = c.config.artifacts.spire;
  tpm_device_key_reference = c.config.tpm_device_key_reference;
  key_inventory = c.config.authority.tpm_key_inventory;
  issuer_hierarchy = c.config.authority.issuer_hierarchy;
}

unfoldable pub dex_request : Coordinator → DexRequest
dex_request c = record {
  artifact = c.config.artifacts.dex;
  issuer_hierarchy = c.config.authority.issuer_hierarchy;
  ingress_token_flow = c.config.authority.ingress_token_flow;
}

-- `observations[i]`, which crashes out of range.
abbrev pub observation_at : List Observation → ℕ → Result Observation
observation_at os i = or_err (get_elem? os i) Error.panic
