-- ===== src/KeyManager/Policy.antt =====
-- internal/keymanager/types.go and policy.go: roles, purposes, policies, and their validation.
pub mod WellFormed
use sovereignite.Base.{
  Bytes, same, codes, ℕ, Bool, true, false, not, ◌&&◌, ◌||◌, Option, none, some, List, [], ◌∷◌,
  ◌++◌, leb, ltb, ◌==◌, fail_if, first_error, length, all, String, if◌then◌else◌, is_some,
}
use sovereignite.Base.Dict.{Dict, lookup, insert}
use sovereignite.Base.Effect.{Outcome, done, failed}
use sovereignite.Base.Int.{ℤ, pos, negsuc, is_positive, is_zero}
use sovereignite.KeyManager.Error
use sovereignite.KeyManager.Error.{Error}
use sovereignite.KeyManager.Outcome.{◌>>=◌, ◌>>◌, guard}
use sovereignite.KeyManager.Tpm.{
  Handle, is_persistent, Algorithm, algorithm_rsa_4096, algorithm_ecdsa_p256, algorithm_ed25519,
  Template, signing_template,
}

abbrev pub Role : Type 0
Role = Bytes

abbrev pub KeyPurpose : Type 0
KeyPurpose = Bytes

abbrev pub role_device_ipns_identity : Role
role_device_ipns_identity = codes "device-ipns-identity"

abbrev pub purpose_device_ipns_identity : KeyPurpose
purpose_device_ipns_identity = codes "device-ipns-identity"

abbrev pub purpose_certificate_authority : KeyPurpose
purpose_certificate_authority = codes "certificate-authority"

abbrev pub purpose_signing : KeyPurpose
purpose_signing = codes "signing"

pub record RolePolicy : Type 0 where
  pub role : Role
  pub purpose : KeyPurpose
  pub algorithm : Algorithm
  pub handles : List Handle
  pub lifetime : Bool
  pub rotation_interval : ℤ

-- 90 days, in nanoseconds.
abbrev pub operational_rotation_interval : ℤ
operational_rotation_interval = pos 7776000000000000

abbrev lifetime_policy : String → KeyPurpose → Algorithm → Handle → RolePolicy
lifetime_policy role purpose algorithm handle = record {
  role = codes role;
  purpose = purpose;
  algorithm = algorithm;
  handles = handle ∷ [];
  lifetime = true;
  rotation_interval = pos 0;
}

abbrev authority_policy : String → Handle → Handle → RolePolicy
authority_policy role first second = record {
  role = codes role;
  purpose = purpose_certificate_authority;
  algorithm = algorithm_ecdsa_p256;
  handles = first ∷ second ∷ [];
  lifetime = false;
  rotation_interval = operational_rotation_interval;
}

-- `DefaultPolicies`.
abbrev pub default_policies : List RolePolicy
default_policies =
    lifetime_policy "device-ipns-identity" purpose_device_ipns_identity algorithm_ed25519 0x81010001
    ∷ lifetime_policy "device-root-ca" purpose_signing algorithm_rsa_4096 0x81010010
    ∷ authority_policy "k8s-api-ca" 0x81010020 0x81010021
    ∷ authority_policy "etcd-ca" 0x81010030 0x81010031
    ∷ authority_policy "sa-signing" 0x81010040 0x81010041
    ∷ authority_policy "front-proxy-ca" 0x81010050 0x81010051
    ∷ authority_policy "spire-server-ca" 0x81010060 0x81010061
    ∷ authority_policy "istio-ca" 0x81010070 0x81010071
    ∷ lifetime_policy "device-mtls" purpose_signing algorithm_ecdsa_p256 0x81010080
    ∷ lifetime_policy "federation-cross" purpose_signing algorithm_ecdsa_p256 0x81010090
    ∷ lifetime_policy "mobile-client" purpose_signing algorithm_ecdsa_p256 0x810100A0
    ∷ []

-- `rolePattern`: 1 to 64 of a-z, 0-9 and -, neither end a dash.
abbrev is_alphanumeric : ℕ → Bool
is_alphanumeric c = leb b'a' c && leb c b'z' || leb b'0' c && leb c b'9'

abbrev last_of : ℕ → Bytes → ℕ
last_of c [] = c
last_of c (d ∷ v) = last_of d v

unfoldable pub matches_role_pattern : Role → Bool
matches_role_pattern [] = false
matches_role_pattern (c ∷ v) =
    is_alphanumeric c
    && is_alphanumeric (last_of c v)
    && leb (length (c ∷ v)) 64
    && all (λ d. is_alphanumeric d || d == b'-') v

-- `slices.Contains` on handles, and membership in a set of them.
unfoldable pub has_handle : List Handle → Handle → Bool
has_handle [] h = false
has_handle (g ∷ gs) h = h == g || has_handle gs h

-- The owner of a handle among the roles read so far.
abbrev pub Owners : Type 0
Owners = List (Handle × Role)

unfoldable pub owner_of : Handle → Owners → Option Role
owner_of h [] = none
owner_of h ((g, r) ∷ os) = if h == g then some r else owner_of h os

abbrev pub shared_check : Handle → Role → Option Role → Option Error
shared_check h r none = none
shared_check h r (some owner) = some (Error.handle_shared h owner r)

abbrev pub handle_checks : Role → Handle → List Handle → Owners → List (Option Error)
handle_checks r h local owners =
    fail_if (not (is_persistent h)) (Error.handle_not_persistent r h)
    ∷ fail_if (has_handle local h) (Error.handle_repeated r h)
    ∷ shared_check h r (owner_of h owners)
    ∷ []

-- The loop over the handles of one policy; both maps gain each handle.
unfoldable pub claim_handles : Role → List Handle → List Handle → Owners → Outcome Error Owners
claim_handles r [] local owners = done owners
claim_handles r (h ∷ hs) local owners = do
  guard (first_error (handle_checks r h local owners))
  claim_handles r hs (h ∷ local) ((h, r) ∷ owners)

abbrev pub lifetime_checks : RolePolicy → List (Option Error)
lifetime_checks p =
    fail_if (not p.lifetime || not (is_zero p.rotation_interval)) (Error.policy_interval p.role)
    ∷ fail_if (not (length p.handles == 1)) (Error.policy_handles p.role)
    ∷ []

abbrev pub identity_checks : RolePolicy → List (Option Error)
identity_checks p =
    fail_if (not (same p.role role_device_ipns_identity)) (Error.policy_role p.role)
    ∷ lifetime_checks p

abbrev pub signing_checks : RolePolicy → List (Option Error)
signing_checks p =
    fail_if (same p.role role_device_ipns_identity) (Error.policy_role p.role) ∷ lifetime_checks p

abbrev pub authority_checks : RolePolicy → List (Option Error)
authority_checks p =
    fail_if (same p.role role_device_ipns_identity) (Error.policy_role p.role)
    ∷ fail_if p.lifetime (Error.policy_lifetime p.role)
    ∷ fail_if (not (is_positive p.rotation_interval)) (Error.policy_interval p.role)
    ∷ fail_if (ltb (length p.handles) 2) (Error.policy_handles p.role)
    ∷ []

-- The switch on the purpose.
unfoldable pub purpose_check : RolePolicy → Option Error
purpose_check p =
    if same p.purpose purpose_device_ipns_identity
    then first_error (identity_checks p)
    else if same p.purpose purpose_certificate_authority
    then first_error (authority_checks p)
    else if same p.purpose purpose_signing
    then first_error (signing_checks p)
    else some (Error.policy_purpose p.role)

abbrev pub algorithm_check : Outcome Error Template → Option Error
algorithm_check (done _) = none
algorithm_check (failed e) = some e

abbrev pub policy_checks : RolePolicy → Dict RolePolicy → List (Option Error)
policy_checks p by_role =
    fail_if (not (matches_role_pattern p.role)) (Error.invalid_role p.role)
    ∷ fail_if (is_some (lookup p.role by_role)) (Error.duplicate_role p.role)
    ∷ algorithm_check (signing_template p.algorithm)
    ∷ fail_if (length p.handles == 0) (Error.role_without_handles p.role)
    ∷ []

pub record Configured : Type 0 where
  pub policies : Dict RolePolicy
  pub order : List Role

-- The loop over the policies.
unfoldable pub collect_policies :
    List RolePolicy → Dict RolePolicy → Owners → List Role → Outcome Error Configured
collect_policies [] by_role owners order = done (record { policies = by_role; order = order })
collect_policies (p ∷ ps) by_role owners order = do
  guard (first_error (policy_checks p by_role))
  claimed ← claim_handles p.role p.handles [] owners
  guard (purpose_check p)
  collect_policies ps (insert p.role p by_role) claimed (order ++ p.role ∷ [])

-- `validatePolicies`.
unfoldable pub validate_policies : List RolePolicy → Outcome Error Configured
validate_policies ps = do
  guard (fail_if (length ps == 0) Error.no_policies)
  collect_policies ps [] [] []
