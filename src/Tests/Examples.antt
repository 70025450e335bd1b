-- ===== src/Tests/Examples.antt =====
-- Each theorem at work in the sample world.
use mathlib.Core.List.{map}
use sovereignite.Base.{Bytes, true, none, some, codes, length, get_elem?, All, ◌≡◌, refl, ◌↔◌, ◌⊎◌}
use sovereignite.Bootstrap.Step.{
  kubelet_config, mark_complete, wait_control_plane, ordered_steps, step_index, step_index_iff,
}
use sovereignite.Bootstrap.Error.{Error, ok, err, incompatible_configuration, is_clean, IsClean}
use sovereignite.Bootstrap.Identifier.{
  validate_required_identifier, validate_pinned_identifier, valid_sha256,
}
use sovereignite.Bootstrap.Identifier.Laws.{
  IsIdentifier, IsPinned, IsDigest, validate_required_identifier-IsIdentifier,
  validate_pinned_identifier-IsPinned, valid_sha256-IsDigest,
}
use sovereignite.Bootstrap.Config.{validate_configuration}
use sovereignite.Bootstrap.Config.Laws.{IsAcceptedConfiguration}
use sovereignite.Bootstrap.Journal.{
  complete, expected_components, validate_evidence_shape, Journal, validate_journal,
}
use sovereignite.Bootstrap.Journal.Validity.{
  IsValid, IsEvidenceOf, validate_evidence_shape-IsEvidenceOf,
}
use sovereignite.Bootstrap.Journal.Accepted.{validate_journal-IsValid}
use sovereignite.Bootstrap.Journal.Clean.{validate_journal-IsClean}
use sovereignite.Bootstrap.Store.{load, save}
use sovereignite.Bootstrap.Store.Laws.{IsStored}
use sovereignite.Bootstrap.Store.Saving.{is_uncertain}
use sovereignite.Bootstrap.Store.RoundTrip.{Replaces, save-Replaces, load-IsStored, load-save}
use sovereignite.Bootstrap.Coordinator.Requests.{Wiring, new_coordinator, expected_observations}
use sovereignite.Bootstrap.Coordinator.Start.{Status, status_of, get_status, start_bootstrap}
use sovereignite.Bootstrap.Coordinator.Agreement.{
  expected_observations-components, IsWired, new_coordinator_iff,
}
use sovereignite.Bootstrap.Readiness.{valid_boot_id, trim_newline, publish, verify}
use sovereignite.Bootstrap.Readiness.BootId.{IsBootId, valid_boot_id-IsBootId}
use sovereignite.Bootstrap.Readiness.Record.{
  IsRecordOf, verify-IsRecordOf, verify-publish, verify-publish_boot,
}
use sovereignite.Bootstrap.Safety.{AllBound, Extends, IsIntended}
use sovereignite.Bootstrap.Guarantees.{
  start_bootstrap-complete, start_bootstrap-Extends, start_bootstrap-Intended,
  start_bootstrap_clean,
}
use sovereignite.Bootstrap.Status.{Reports, Reported, status_of-Reports, get_status-Reports}
use sovereignite.Bootstrap.Status.Answers.{IsCompatible, get_status_answers}
use sovereignite.Tests.Sample.{
  world, world_of, coordinator, configuration, digests, digest, codec, started, finished,
  evidence_for,
}
use sovereignite.Tests.Runs.{
  kernel, no_fault, kernel-published, written-verified, fresh, begun, stranger, fresh-completes,
  begun-IsStored, finished-passes, stranger-refused, started-saved,
}

start_bootstrap-complete_example :
    (j : Journal) × IsStored world j (start_bootstrap world coordinator fresh).1.file
    × (j.state ≡ complete)
    × (j.failure ≡ none)
    × (length j.steps ≡ 9)
    × AllBound world coordinator j.steps
unfolding fresh
start_bootstrap-complete_example =
    start_bootstrap-complete world coordinator codec none fresh refl tt fresh-completes

start_bootstrap-Extends_example :
    (j : Journal) × IsStored world j (start_bootstrap world coordinator begun).1.file
    × Extends started j
unfolding begun
start_bootstrap-Extends_example =
    start_bootstrap-Extends world coordinator codec started begun begun-IsStored tt

start_bootstrap-Intended_example :
    All (IsIntended world coordinator) (start_bootstrap world coordinator fresh).1.trace
unfolding fresh
start_bootstrap-Intended_example =
    start_bootstrap-Intended world coordinator codec none fresh refl tt

start_bootstrap_clean_example : is_clean incompatible_configuration ≡ true
unfolding begun
start_bootstrap_clean_example =
    start_bootstrap_clean world stranger codec (some started) begun incompatible_configuration
      begun-IsStored tt stranger-refused

save-Replaces_example :
    (((save world 0 started fresh).0 ≡ ok tt)
      × Replaces world 0 started fresh.file
      × IsStored world started (save world 0 started fresh).1.file)
    ⊎ ((er : Error) × ((save world 0 started fresh).0 ≡ err er)
        × (is_clean er ≡ true)
        × (((save world 0 started fresh).1.file ≡ fresh.file)
            ⊎ (Replaces world 0 started fresh.file
                × IsStored world started (save world 0 started fresh).1.file
                × (is_uncertain er ≡ true))))
save-Replaces_example = save-Replaces world fresh 0 started codec

load-save_example : (load world (save world 0 started fresh).1).0 ≡ ok (some started)
unfolding world world_of
load-save_example = load-save world fresh 0 started codec (λ p w. refl) started-saved

load-IsStored_example : (load world begun).0 ≡ ok (some started)
unfolding world world_of
load-IsStored_example = load-IsStored world (λ p w. refl) started begun begun-IsStored

validate_journal-IsValid_example : (validate_journal finished ≡ none) ↔ IsValid finished
validate_journal-IsValid_example = validate_journal-IsValid finished

validate_journal-IsClean_example : IsClean (validate_journal finished)
validate_journal-IsClean_example = validate_journal-IsClean finished

validate_evidence_shape-IsEvidenceOf_example :
    (validate_evidence_shape wait_control_plane (evidence_for wait_control_plane) ≡ none)
    ↔ IsEvidenceOf wait_control_plane (evidence_for wait_control_plane)
validate_evidence_shape-IsEvidenceOf_example =
    validate_evidence_shape-IsEvidenceOf wait_control_plane (evidence_for wait_control_plane)

finished-IsValid : IsValid finished
finished-IsValid = (validate_journal-IsValid finished).0 finished-passes

status_of-Reports_example :
    (st : Status) × (status_of finished.state finished ≡ ok st) × Reports st.state st finished
status_of-Reports_example = status_of-Reports finished finished-IsValid

get_status-Reports_example :
    ((get_status world coordinator begun).1.file ≡ begun.file)
    × ((get_status world coordinator begun).1.trace ≡ begun.trace)
    × (((st : Status) × ((get_status world coordinator begun).0 ≡ ok st)
          × Reported world coordinator (some started) st)
        ⊎ ((er : Error) × ((get_status world coordinator begun).0 ≡ err er) × (is_clean er ≡ true)))
get_status-Reports_example =
    get_status-Reports world coordinator (some started) begun begun-IsStored

validate_required_identifier-IsIdentifier_example :
    (validate_required_identifier "reference" (codes "tpm-0") ≡ none) ↔ IsIdentifier (codes "tpm-0")
validate_required_identifier-IsIdentifier_example =
    validate_required_identifier-IsIdentifier "reference" (codes "tpm-0")

validate_pinned_identifier-IsPinned_example :
    (validate_pinned_identifier "version" (codes "Latest") ≡ none) ↔ IsPinned (codes "Latest")
validate_pinned_identifier-IsPinned_example =
    validate_pinned_identifier-IsPinned "version" (codes "Latest")

valid_sha256-IsDigest_example : (valid_sha256 digest ≡ true) ↔ IsDigest digest
valid_sha256-IsDigest_example = valid_sha256-IsDigest digest

step_index_iff_example :
    (step_index kubelet_config ≡ some 1) ↔ (get_elem? ordered_steps 1 ≡ some kubelet_config)
step_index_iff_example = step_index_iff kubelet_config 1

expected_observations-components_example :
    map (λ o. o.component) (expected_observations coordinator mark_complete)
    ≡ expected_components mark_complete
expected_observations-components_example =
    expected_observations-components coordinator mark_complete

abbrev wiring : Wiring
wiring = record {
  has_store = true;
  has_ca = true;
  has_kubernetes = true;
  has_calico = true;
  has_istio = true;
  has_spire = true;
  has_dex = true;
  has_prepared = true;
}

new_coordinator_iff_example : (new_coordinator digests wiring configuration ≡ ok coordinator) ↔ (
    IsWired wiring
    × (validate_configuration digests configuration ≡ ok digest)
    × (coordinator.config ≡ configuration)
    × IsAcceptedConfiguration digests configuration digest)
new_coordinator_iff_example = new_coordinator_iff digests wiring configuration coordinator

verify-IsRecordOf_example : IsRecordOf kernel (publish no_fault kernel none).1
verify-IsRecordOf_example =
    verify-IsRecordOf no_fault kernel (publish no_fault kernel none).1 written-verified

verify-publish_example : verify (λ _. none) kernel (publish no_fault kernel none).1 ≡ ok tt
verify-publish_example = verify-publish no_fault kernel none kernel-published

verify-publish_boot_example :
    (published read : Bytes) × (kernel ≡ ok published)
    × (kernel ≡ ok read)
    × (trim_newline published ≡ trim_newline read)
verify-publish_boot_example =
    verify-publish_boot no_fault no_fault kernel kernel none kernel-published written-verified

abbrev boot_id : Bytes
boot_id = codes "01234567-89ab-cdef-0123-456789abcdef"

valid_boot_id-IsBootId_example : (valid_boot_id boot_id ≡ true) ↔ IsBootId boot_id
valid_boot_id-IsBootId_example = valid_boot_id-IsBootId boot_id

get_status_answers_example :
    (IsCompatible coordinator started
      × ((st : Status) × ((get_status world coordinator begun).0 ≡ ok st)
          × Reports st.state st started))
    ⊎ ((¬ IsCompatible coordinator started)
        × ((get_status world coordinator begun).0 ≡ err incompatible_configuration))
unfolding world world_of begun
get_status_answers_example =
    get_status_answers world coordinator started begun (λ p w. refl) refl begun-IsStored
