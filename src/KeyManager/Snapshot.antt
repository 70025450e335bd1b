-- ===== src/KeyManager/Snapshot.antt =====
-- internal/keymanager/types.go, store.go and manager.go: the metadata of keys and what is tested of
-- it. Copies are the values themselves; a time is in nanoseconds after Go's zero time.
pub mod Validity
pub mod Keys
pub mod Accepted
pub mod Advance
pub mod Succession
pub mod Changes
pub mod Verified
use sovereignite.Base.{
  Bytes, same, ℕ, ◌+◌, ◌-◌, Bool, true, false, not, ◌&&◌, ◌||◌, Option, none, some, List, [], ◌∷◌,
  leb, ltb, ◌==◌, fail_if, first_error, length, is_some, map,
}
use sovereignite.Base.Dict.{Dict, lookup}
use sovereignite.Base.Effect.{Outcome, done, failed, outcome_or}
use sovereignite.KeyManager.Error
use sovereignite.KeyManager.Error.{Error}
use sovereignite.KeyManager.Outcome.{◌>>=◌, ◌>>◌, guard}
use sovereignite.KeyManager.Policy.{
  Role, KeyPurpose, role_device_ipns_identity, purpose_device_ipns_identity, RolePolicy, has_handle,
  Owners, owner_of,
}
use sovereignite.KeyManager.Tpm.{
  Handle, Algorithm, Template, same_template, signing_template, Public, ObjectReference,
  canonical_public_key,
}

pub record KeyMetadata : Type 0 where
  pub role : Role
  pub purpose : KeyPurpose
  pub algorithm : Algorithm
  pub handle : Handle
  pub public_name : Bytes
  pub public_key_der : Bytes
  pub template : Template
  pub created_at : ℕ
  pub generation : ℕ  -- uint64

pub record RoleState : Type 0 where
  pub active : KeyMetadata
  pub retiring : List KeyMetadata

-- `has_roles` tells an empty map of roles from Go's nil.
pub record Snapshot : Type 0 where
  pub version : ℕ
  pub revision : ℕ  -- uint64
  pub has_roles : Bool
  pub roles : Dict RoleState
  pub pending : Dict KeyMetadata

abbrev pub metadata_version : ℕ
metadata_version = 1

abbrev pub max_uint64 : ℕ
max_uint64 = 18446744073709551615

-- `emptySnapshot`.
abbrev pub empty_snapshot : Snapshot
empty_snapshot = record {
  version = metadata_version;
  revision = 0;
  has_roles = true;
  roles = [];
  pending = [];
}

-- `Snapshot{}`.
abbrev pub zero_snapshot : Snapshot
zero_snapshot = record { version = 0; revision = 0; has_roles = false; roles = []; pending = [] }

abbrev pub envelope_checks : Snapshot → List (Option Error)
envelope_checks s =
    fail_if (not (s.version == metadata_version)) Error.metadata_version
    ∷ fail_if (not s.has_roles) Error.roles_missing
    ∷ []

-- `validateSnapshotEnvelope`.
unfoldable pub validate_snapshot_envelope : Snapshot → Option Error
validate_snapshot_envelope s = first_error (envelope_checks s)

-- `incrementRevision`.
unfoldable pub increment_revision : Snapshot → Outcome Error Snapshot
increment_revision s = do
  guard (fail_if (s.revision == max_uint64) Error.counter_exhausted)
  done (record s { revision = s.revision + 1 })

abbrev pub template_differs : Outcome Error Template → Template → Option Error
template_differs (failed e) t = some e
template_differs (done expected) t =
    fail_if (not (same_template t expected)) (Error.metadata_mismatch t.algorithm)

abbrev pub metadata_checks : Role → RolePolicy → KeyMetadata → List (Option Error)
metadata_checks r p m =
    fail_if (not (same m.role r) || not (same m.role p.role)) (Error.metadata_mismatch r)
    ∷ fail_if (not (same m.purpose p.purpose) || not (same m.algorithm p.algorithm))
        (Error.metadata_mismatch r)
    ∷ fail_if (not (has_handle p.handles m.handle)) (Error.metadata_mismatch r)
    ∷ template_differs (signing_template p.algorithm) m.template
    ∷ fail_if
        (m.generation == 0
          || m.created_at == 0
          || length m.public_name == 0
          || length m.public_key_der == 0)
        (Error.metadata_mismatch r)
    ∷ []

-- `validateMetadataForPolicy`.
unfoldable pub validate_metadata_for_policy : Role → RolePolicy → KeyMetadata → Option Error
validate_metadata_for_policy r p m = first_error (metadata_checks r p m)

abbrev pub is_lifetime : Role → RolePolicy → Bool
is_lifetime r p =
    p.lifetime || same p.purpose purpose_device_ipns_identity || same r role_device_ipns_identity

-- The body of the loop over the keys of a role: the active one, then the retiring ones.
abbrev pub value_checks : Role → RolePolicy → Bool → ℕ → KeyMetadata → Owners → List (Option Error)
value_checks r p is_retiring active_generation m seen =
    validate_metadata_for_policy r p m
    ∷ fail_if (is_retiring && leb active_generation m.generation) (Error.metadata_mismatch r)
    ∷ fail_if (is_some (owner_of m.handle seen)) (Error.metadata_mismatch r)
    ∷ []

unfoldable pub check_values :
    Role → RolePolicy → Bool → ℕ → List KeyMetadata → Owners → Outcome Error Owners
check_values r p is_retiring g [] seen = done seen
check_values r p is_retiring g (m ∷ ms) seen = do
  guard (first_error (value_checks r p is_retiring g m seen))
  check_values r p true g ms ((m.handle, r) ∷ seen)

abbrev pub lifetime_check : Role → RolePolicy → RoleState → Option Error
lifetime_check r p st =
    fail_if (is_lifetime r p && (not (st.active.generation == 1) || not (length st.retiring == 0)))
      (Error.metadata_mismatch r)

abbrev pub configured : Role → Option RolePolicy → Outcome Error RolePolicy
configured r p = outcome_or p (Error.role_not_configured r)

module _ (policies : Dict RolePolicy) where
  -- The loop over the roles of a snapshot.
  unfoldable pub check_roles : Dict RoleState → Owners → Outcome Error Owners
  check_roles [] seen = done seen
  check_roles ((r, st) ∷ rest) seen = do
    p ← configured r (lookup r policies)
    guard (lifetime_check r p st)
    claimed ← check_values r p false st.active.generation (st.active ∷ st.retiring) seen
    check_roles rest claimed

  -- Whether a lifetime role would be replaced.
  abbrev pub replaces : Role → RolePolicy → Option RoleState → KeyMetadata → Bool
  replaces r p st m = is_lifetime r p && (is_some st || not (m.generation == 1))

  abbrev pub expected_generation : Option RoleState → Outcome Error ℕ
  expected_generation none = done 1
  expected_generation (some st) = do
    guard (fail_if (st.active.generation == max_uint64) Error.counter_exhausted)
    done (st.active.generation + 1)

  abbrev pub pending_checks :
      Role → RolePolicy → Option RoleState → KeyMetadata → List (Option Error)
  pending_checks r p st m =
      validate_metadata_for_policy r p m
      ∷ fail_if (replaces r p st m) (Error.metadata_mismatch r)
      ∷ []

  abbrev pub intent_checks : Role → KeyMetadata → ℕ → Owners → List (Option Error)
  intent_checks r m expected seen =
      fail_if (not (m.generation == expected)) (Error.metadata_mismatch r)
      ∷ fail_if (is_some (owner_of m.handle seen)) (Error.metadata_mismatch r)
      ∷ []

  -- The loop over the pending creations.
  unfoldable pub check_pending :
      Dict KeyMetadata → Dict RoleState → Owners → Outcome Error (Unit {0})
  check_pending [] roles seen = done tt
  check_pending ((r, m) ∷ rest) roles seen = do
    p ← configured r (lookup r policies)
    guard (first_error (pending_checks r p (lookup r roles) m))
    expected ← expected_generation (lookup r roles)
    guard (first_error (intent_checks r m expected seen))
    check_pending rest roles ((m.handle, r) ∷ seen)

  -- `Manager.validateSnapshotLocked`.
  unfoldable pub validate_snapshot : Snapshot → Outcome Error (Unit {0})
  validate_snapshot s = do
    guard (validate_snapshot_envelope s)
    seen ← check_roles s.roles []
    check_pending s.pending s.roles seen

abbrev pub der_differs : Role → Outcome Error Bytes → Bytes → Option Error
der_differs r (failed e) der = some (Error.metadata_mismatch r)
der_differs r (done found) der = fail_if (not (same found der)) (Error.metadata_mismatch r)

abbrev pub public_checks : KeyMetadata → Public → List (Option Error)
public_checks m p =
    fail_if (not (p.handle == m.handle)) (Error.metadata_mismatch m.role)
    ∷ fail_if (not (same_template p.template m.template)) (Error.metadata_mismatch m.role)
    ∷ fail_if (not (same p.name m.public_name)) (Error.metadata_mismatch m.role)
    ∷ der_differs m.role (canonical_public_key p) m.public_key_der
    ∷ []

-- `verifyPublicMetadata`.
unfoldable pub verify_public_metadata : KeyMetadata → Public → Option Error
verify_public_metadata m p = first_error (public_checks m p)

-- `objectReference`.
abbrev pub object_reference : KeyMetadata → ObjectReference
object_reference m = record { handle = m.handle; name = m.public_name; template = m.template }
