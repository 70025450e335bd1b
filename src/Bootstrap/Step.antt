-- ===== src/Bootstrap/Step.antt =====
-- internal/bootstrap/service.go: the nine steps and the named upstream components. Both are strings
-- in the source; `other_step` and `other_component` stand for a string that is none of the constants.
use mathlib.Core.Option.{some-injective}
use sovereignite.Base.{
  Bytes, same, same_refl, same-eq, ℕ, zero, suc, Bool, true, false, Option, none, some, List, [],
  ◌∷◌, ◌≡◌, refl, ap, ◌↔◌, codes, if◌then◌else◌, get_elem?, arith,
}

pub data Step : Type 0 where
  tpm_key_manager_ca_signing kubelet_config calico_ipv6 istio_ingress spire_tpm_config : Step
  initialize_api_server wait_control_plane apply_cluster_configs mark_complete : Step
  other_step : Bytes → Step

pub data Component : Type 0 where
  key_manager kubernetes calico istio spire dex : Component
  other_component : Bytes → Component

-- The text of a step, as the journal and the idempotency keys hold it.
unfoldable pub step_text : Step → Bytes
step_text tpm_key_manager_ca_signing = codes "TPM-keymanager CA signing"
step_text kubelet_config = codes "kubelet config"
step_text calico_ipv6 = codes "Calico IPv6 using injected ULA"
step_text istio_ingress = codes "Istio ingress"
step_text spire_tpm_config = codes "SPIRE TPM plugin/TPM Device Key config"
step_text initialize_api_server = codes "initialize Kubernetes API server"
step_text wait_control_plane = codes "wait control plane"
step_text apply_cluster_configs = codes "apply cluster configs"
step_text mark_complete = codes "mark complete"
step_text (other_step s) = s

-- `==` on steps.
unfoldable pub same_step : Step → Step → Bool
same_step tpm_key_manager_ca_signing tpm_key_manager_ca_signing = true
same_step kubelet_config kubelet_config = true
same_step calico_ipv6 calico_ipv6 = true
same_step istio_ingress istio_ingress = true
same_step spire_tpm_config spire_tpm_config = true
same_step initialize_api_server initialize_api_server = true
same_step wait_control_plane wait_control_plane = true
same_step apply_cluster_configs apply_cluster_configs = true
same_step mark_complete mark_complete = true
same_step (other_step s) (other_step t) = same s t
same_step _ _ = false

unfoldable pub same_component : Component → Component → Bool
same_component key_manager key_manager = true
same_component kubernetes kubernetes = true
same_component calico calico = true
same_component istio istio = true
same_component spire spire = true
same_component dex dex = true
same_component (other_component s) (other_component t) = same s t
same_component _ _ = false

abbrev pub ordered_steps : List Step
ordered_steps =
    tpm_key_manager_ca_signing ∷ kubelet_config ∷ calico_ipv6 ∷ istio_ingress ∷ spire_tpm_config
    ∷ initialize_api_server ∷ wait_control_plane ∷ apply_cluster_configs ∷ mark_complete ∷ []

-- The loop of `stepIndex`; its -1 is `none`.
index_from : ℕ → List Step → Step → Option ℕ
index_from i [] s = none
index_from i (c ∷ cs) s = if same_step c s then some i else index_from (suc i) cs s

unfoldable pub step_index : Step → Option ℕ
unfolding index_from same_step
step_index s = index_from 0 ordered_steps s

pub same_step_refl : (s : Step) → same_step s s ≡ true
unfolding same_step
same_step_refl (other_step s) = same_refl s
same_step_refl _ = refl

pub same_step-eq : (s t : Step) → same_step s t ≡ true → s ≡ t
unfolding same_step
same_step-eq tpm_key_manager_ca_signing tpm_key_manager_ca_signing h = refl
same_step-eq kubelet_config kubelet_config h = refl
same_step-eq calico_ipv6 calico_ipv6 h = refl
same_step-eq istio_ingress istio_ingress h = refl
same_step-eq spire_tpm_config spire_tpm_config h = refl
same_step-eq initialize_api_server initialize_api_server h = refl
same_step-eq wait_control_plane wait_control_plane h = refl
same_step-eq apply_cluster_configs apply_cluster_configs h = refl
same_step-eq mark_complete mark_complete h = refl
same_step-eq (other_step s) (other_step t) h = ap other_step (same-eq s t h)
same_step-eq _ _ h = cc

pub same_component_refl : (c : Component) → same_component c c ≡ true
unfolding same_component
same_component_refl (other_component s) = same_refl s
same_component_refl _ = refl

pub same_component-eq : (c d : Component) → same_component c d ≡ true → c ≡ d
unfolding same_component
same_component-eq key_manager key_manager h = refl
same_component-eq kubernetes kubernetes h = refl
same_component-eq calico calico h = refl
same_component-eq istio istio h = refl
same_component-eq spire spire h = refl
same_component-eq dex dex h = refl
same_component-eq (other_component s) (other_component t) h = ap other_component (same-eq s t h)
same_component-eq _ _ h = cc

pub step_index-place :
    (s : Step) (i : ℕ) → step_index s ≡ some i → get_elem? ordered_steps i ≡ some s
unfolding step_index
step_index-place tpm_key_manager_ca_signing i h = ground arith
step_index-place _ i h = ground arith

pub place-step_index :
    (i : ℕ) (s : Step) → get_elem? ordered_steps i ≡ some s → step_index s ≡ some i
unfolding step_index
place-step_index zero s h = rw (← some-injective tpm_key_manager_ca_signing s h) refl
place-step_index (suc zero) s h = rw (← some-injective kubelet_config s h) refl
place-step_index (suc (suc zero)) s h = rw (← some-injective calico_ipv6 s h) refl
place-step_index (suc (suc (suc zero))) s h = rw (← some-injective istio_ingress s h) refl
place-step_index (suc (suc (suc (suc zero)))) s h = rw (← some-injective spire_tpm_config s h) refl
place-step_index (suc (suc (suc (suc (suc zero))))) s h =
    rw (← some-injective initialize_api_server s h) refl
place-step_index (suc (suc (suc (suc (suc (suc zero)))))) s h =
    rw (← some-injective wait_control_plane s h) refl
place-step_index (suc (suc (suc (suc (suc (suc (suc zero))))))) s h =
    rw (← some-injective apply_cluster_configs s h) refl
place-step_index (suc (suc (suc (suc (suc (suc (suc (suc zero)))))))) s h =
    rw (← some-injective mark_complete s h) refl
place-step_index (suc (suc (suc (suc (suc (suc (suc (suc (suc i))))))))) s h = cc

-- The index of a step is its place in the order of the nine steps, and a step in no place has no index.
pub step_index_iff :
    (s : Step) (i : ℕ) → (step_index s ≡ some i) ↔ (get_elem? ordered_steps i ≡ some s)
step_index_iff s i = (step_index-place s i, place-step_index i s)
