-- ===== src/Tests/KeyExamples.antt =====
-- The theorems on the key manager at work.
use sovereignite.Base.{
  ◌≢◌, Bytes, same, true, codes, none, some, List, [], ◌∷◌, ◌≡◌, ◌↔◌, refl, first_error, arith,
}
use sovereignite.Base.Dict.{lookup, insert}
use sovereignite.Base.Int.{pos}
use sovereignite.Base.Effect.{◌>>◌, Outcome, done, failed, Triple}
use sovereignite.KeyManager.Error.{Error}
use sovereignite.KeyManager.Policy.{
  Role, RolePolicy, purpose_signing, purpose_certificate_authority, collect_policies, claim_handles,
  purpose_check, owner_of, has_handle, matches_role_pattern, default_policies, validate_policies,
}
use sovereignite.KeyManager.Policy.WellFormed.{IsWellFormed, validate_policies-IsWellFormed}
use sovereignite.KeyManager.Tpm.{
  algorithm_ecdsa_p256, signing_template, same_template, same_attributes,
}
use sovereignite.KeyManager.Snapshot.{
  Snapshot, validate_snapshot_envelope, validate_metadata_for_policy, check_values, check_roles,
  check_pending, validate_snapshot, verify_public_metadata,
}
use sovereignite.KeyManager.Snapshot.Validity.{IsValid}
use sovereignite.KeyManager.Snapshot.Accepted.{validate_snapshot-IsValid}
use sovereignite.KeyManager.Snapshot.Verified.{Matches, verify_public_metadata_iff}
use sovereignite.KeyManager.Machine.{Keeping}
use sovereignite.KeyManager.Snapshot.Advance.{Same}
use sovereignite.KeyManager.Store.Progress.{load-save_succeeds}
use sovereignite.KeyManager.Store.{load, encode_file, save}
use sovereignite.KeyManager.Store.Laws.{
  Mirrors, Unless, encode_file-Mirrors, IsStored, save-IsStored,
}
use sovereignite.KeyManager.Manager.Operations.{ensure_role, rotate}
use sovereignite.KeyManager.Manager.Rotation.{filter_due}
use sovereignite.KeyManager.Manager.Due.{includes, IsDue, filter_due_iff}
use sovereignite.KeyManager.Safety.{Safe}
use sovereignite.KeyManager.Safety.Activate.{Activated}
use sovereignite.KeyManager.Safety.Operations.{Starts, Rotated}
use sovereignite.KeyManager.Guarantees.{
  Request, opens, reconciles, initializes, ensures, reads, rotates, perform_all,
  ensure_role-Activated, rotate-Rotated, rotate_authority_only, perform_all-Safe,
}
use sovereignite.Tests.Codec.{encode_sample, puts}
use sovereignite.Tests.Keys.{
  sample_object, sample_setting, sample_codec, sample-IsWellFormed, sample_role, ecdsa_template,
  sample_metadata, sample_snapshot,
}

validate_policies-IsWellFormed_example : IsWellFormed sample_setting.configured.policies
unfolding validate_policies collect_policies claim_handles purpose_check lookup insert owner_of
    has_handle matches_role_pattern signing_template first_error same
validate_policies-IsWellFormed_example =
    validate_policies-IsWellFormed default_policies sample_setting.configured refl

validate_snapshot-IsValid_example : IsValid sample_setting.configured.policies sample_snapshot
unfolding validate_policies collect_policies claim_handles purpose_check lookup insert owner_of
    has_handle matches_role_pattern signing_template first_error same validate_snapshot
    validate_snapshot_envelope check_roles check_values check_pending validate_metadata_for_policy
    same_template same_attributes
validate_snapshot-IsValid_example =
    validate_snapshot-IsValid sample_setting.configured.policies sample_snapshot (refl, tt) tt refl

ensure_role-Activated_example :
    Triple
      (Starts none)
      (ensure_role sample_setting sample_role)
      (Activated sample_setting sample_codec sample-IsWellFormed none sample_role)
      (λ _. Safe sample_setting none)
ensure_role-Activated_example =
    ensure_role-Activated sample_setting sample_codec sample-IsWellFormed none sample_role

rotate-Rotated_example :
    Triple
      (Starts none)
      (rotate sample_setting sample_role)
      (Rotated sample_setting sample_codec sample-IsWellFormed none sample_role)
      (λ _. Safe sample_setting none)
rotate-Rotated_example =
    rotate-Rotated sample_setting sample_codec sample-IsWellFormed none sample_role

abbrev sample_requests : List Request
sample_requests =
    opens
    ∷ ensures sample_role
    ∷ rotates sample_role
    ∷ reads sample_role
    ∷ initializes
    ∷ reconciles
    ∷ []

perform_all-Safe_example :
    Triple
      (Starts none)
      (perform_all sample_setting sample_requests)
      (λ _. Safe sample_setting none)
      (λ _. Safe sample_setting none)
perform_all-Safe_example =
    perform_all-Safe sample_setting sample_codec sample-IsWellFormed none sample_requests

filter_due_iff_example :
    (includes
        (filter_due sample_setting.configured.policies sample_snapshot.roles 7776000000001000
          (sample_role ∷ []))
        sample_role
      ≡ true)
    ↔ ((includes (sample_role ∷ []) sample_role ≡ true)
        × IsDue sample_setting.configured.policies sample_snapshot.roles 7776000000001000
            sample_role)
filter_due_iff_example =
    filter_due_iff sample_setting.configured.policies sample_snapshot.roles 7776000000001000
      (sample_role ∷ []) sample_role

verify_public_metadata_iff_example :
    (verify_public_metadata sample_metadata (sample_object 0x81010030 ecdsa_template) ≡ none)
    ↔ Matches sample_metadata (sample_object 0x81010030 ecdsa_template)
verify_public_metadata_iff_example =
    verify_public_metadata_iff sample_metadata (sample_object 0x81010030 ecdsa_template)

abbrev device_mtls : Role
device_mtls = codes "device-mtls"

abbrev device_mtls_policy : RolePolicy
device_mtls_policy = record {
  role = device_mtls;
  purpose = purpose_signing;
  algorithm = algorithm_ecdsa_p256;
  handles = 0x81010080 ∷ [];
  lifetime = true;
  rotation_interval = pos 0;
}

device_mtls_configured :
    lookup device_mtls sample_setting.configured.policies ≡ some device_mtls_policy
unfolding validate_policies collect_policies claim_handles purpose_check lookup insert owner_of
    has_handle matches_role_pattern signing_template first_error same
device_mtls_configured = refl

signing-other : purpose_signing ≢ purpose_certificate_authority
signing-other h = cc

rotate_authority_only_example :
    Triple
      (Starts none)
      (rotate sample_setting device_mtls)
      (λ _ _. ⊥)
      (λ _. Safe sample_setting none)
rotate_authority_only_example =
    rotate_authority_only sample_setting sample_codec sample-IsWellFormed none device_mtls
      device_mtls_policy device_mtls_configured signing-other

sample-IsValid : IsValid sample_setting.configured.policies sample_snapshot
unfolding validate_policies collect_policies claim_handles purpose_check lookup insert owner_of
    has_handle matches_role_pattern signing_template first_error same validate_snapshot
    validate_snapshot_envelope check_roles check_values check_pending validate_metadata_for_policy
    same_template same_attributes
sample-IsValid =
    validate_snapshot-IsValid sample_setting.configured.policies sample_snapshot (refl, tt) tt refl

abbrev bytes_of : Outcome Error Bytes → Bytes
bytes_of (done b) = b
bytes_of (failed e) = []

abbrev sample_file : Bytes
sample_file = bytes_of (encode_file sample_setting sample_snapshot)

sample_encoded : encode_file sample_setting sample_snapshot ≡ done sample_file
unfolding encode_file encode_sample puts
sample_encoded = refl

-- The file holds a first revision without roles.
abbrev earlier : Snapshot
earlier = record { version = 1; revision = 1; has_roles = true; roles = []; pending = [] }

earlier-IsValid : IsValid sample_setting.configured.policies earlier
unfolding validate_snapshot validate_snapshot_envelope check_roles check_pending first_error
earlier-IsValid = validate_snapshot-IsValid sample_setting.configured.policies earlier tt tt refl

abbrev earlier_file : Bytes
earlier_file = bytes_of (encode_file sample_setting earlier)

earlier_encoded : encode_file sample_setting earlier ≡ done earlier_file
unfolding encode_file encode_sample puts
earlier_encoded = refl

abbrev earlier_keeping : Keeping
earlier_keeping = record { loaded = true; memory = earlier; file = some earlier_file; trace = [] }

save-IsStored_example :
    Triple
      (λ x. x ≡ earlier_keeping)
      (save sample_setting sample_snapshot)
      (λ _. IsStored sample_setting sample_snapshot earlier_keeping)
      (Unless (IsStored sample_setting sample_snapshot earlier_keeping) (λ x. x ≡ earlier_keeping))
save-IsStored_example =
    save-IsStored sample_setting sample_codec earlier sample_snapshot earlier_keeping sample-IsValid
      (λ e. omega (arith, e)) refl
      (encode_file-Mirrors sample_setting sample_codec earlier earlier_file earlier-IsValid
        earlier_encoded)

load-save_succeeds_example :
    Triple
      (λ d. Mirrors sample_setting d.file earlier)
      (save sample_setting sample_snapshot >> load sample_setting)
      (λ t _. Same sample_snapshot t)
      (λ _ _. ⊥)
load-save_succeeds_example =
    load-save_succeeds sample_setting (λ p w. refl) sample_codec earlier sample_snapshot sample_file
      sample-IsValid (λ e. omega (arith, e)) refl sample_encoded
