-- ===== src/Bootstrap/Coordinator/Agreement.antt =====
-- What `newCoordinator` admits, and that cluster.go's expectations agree with those of journal.go.
use mathlib.Core.List.{map}
use mathlib.Core.Path.{sym, ◌∙◌}
use sovereignite.Base.{◌↔◌, true, false, not, fail_if, fail_if-none, passes, ap, ◌≡◌, refl, arith}
use sovereignite.Bootstrap.Step.{Step, tpm_key_manager_ca_signing}
use sovereignite.Bootstrap.Error.{Error, ok, unless-ok, >>=-ok}
use sovereignite.Bootstrap.Config.{Configuration, Digests, validate_configuration}
use sovereignite.Bootstrap.Config.Laws.{IsAcceptedConfiguration, validate_configuration-IsAccepted}
use sovereignite.Bootstrap.Journal.{expected_components}
use sovereignite.Bootstrap.Coordinator.Requests.{
  Coordinator, Wiring, is_incomplete, new_coordinator, expected_observations,
}

-- The observations that a step's evidence is compared with are of the components that its shape asks for,
-- in their order, for every step; so validateEvidence never indexes beyond them.
pub expected_observations-components :
    (c : Coordinator) (step : Step)
    → map (λ o. o.component) (expected_observations c step) ≡ expected_components step
unfolding expected_observations expected_components
expected_observations-components c tpm_key_manager_ca_signing = refl
expected_observations-components c _ = refl

ok-injective : {A : Type 0} (a a' : A) → ok a ≡ ok a' → a ≡ a'
ok-injective a a' p = cc

-- All that `newCoordinator` needs is there.
pub record IsWired (w : Wiring) : Type 0 where
  pub store : w.has_store ≡ true
  pub ca : w.has_ca ≡ true
  pub kubernetes : w.has_kubernetes ≡ true
  pub calico : w.has_calico ≡ true
  pub istio : w.has_istio ≡ true
  pub spire : w.has_spire ≡ true
  pub dex : w.has_dex ≡ true
  pub prepared : w.has_prepared ≡ true

IsWired-of : (w : Wiring) → w.has_store ≡ true → is_incomplete w ≡ false → IsWired w
IsWired-of w stored complete = record {
  store = stored;
  ca = ground arith;
  kubernetes = ground arith;
  calico = ground arith;
  istio = ground arith;
  spire = ground arith;
  dex = ground arith;
  prepared = ground arith;
}

IsWired-complete : (w : Wiring) → IsWired w → is_incomplete w ≡ false
IsWired-complete w h = rw (h.ca, h.kubernetes, h.calico, h.istio, h.spire, h.dex, h.prepared) refl

-- newCoordinator returns a coordinator exactly when the store, the signing service, the five cluster
-- dependencies and the publisher of readiness are all there and the configuration passes its validation;
-- the coordinator has that configuration and its digest, and the configuration is an accepted one.
pub new_coordinator_iff :
    (d : Digests) (w : Wiring) (config : Configuration) (c : Coordinator)
    → (new_coordinator d w config ≡ ok c) ↔ (
        IsWired w
        × (validate_configuration d config ≡ ok c.config_digest)
        × (c.config ≡ config)
        × IsAcceptedConfiguration d config c.config_digest)
unfolding new_coordinator
new_coordinator_iff d w config c = (
  λ h.
      let (stored, rest) =
        unless-ok (fail_if (not w.has_store) Error.dependencies_unavailable) _ h in
      let (wired, checked) =
        unless-ok (fail_if (is_incomplete w) Error.dependencies_unavailable) _ rest in
      let (digest, validated, built) = >>=-ok _ _ checked in
      let same_as = ok-injective (record { config = config; config_digest = digest }) c built in
      let kept : digest ≡ c.config_digest = ap (λ x. x.config_digest) same_as in
      let accepted : validate_configuration d config ≡ ok c.config_digest =
        validated ∙ ap ok kept in
      (
        IsWired-of w (passes _ _ stored) (fail_if-none _ _ wired),
        accepted,
        ap (λ x. x.config) (sym same_as),
        validate_configuration-IsAccepted d config c.config_digest accepted,
      ),
  λ h.
      rw (h.0.store, IsWired-complete w h.0, h.1)
        (ap (λ x. ok (record { config = x; config_digest = c.config_digest })) (sym h.2)),
)
