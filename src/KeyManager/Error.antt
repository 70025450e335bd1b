-- ===== src/KeyManager/Error.antt =====
-- The errors of internal/keymanager and internal/tpm. A number stands for an error of the world.
use sovereignite.Base.{Bytes, ℕ, Bool, Option, none, some}

pub data Error : Type 0 where
  -- internal/tpm/backend.go
  unsupported_algorithm : Bytes → Error
  key_not_persistent key_name_empty key_template key_kind key_encoding : Error
  -- validatePolicies
  no_policies : Error
  invalid_role duplicate_role role_without_handles : Bytes → Error
  handle_not_persistent handle_repeated : Bytes → ℕ → Error
  handle_shared : ℕ → Bytes → Bytes → Error
  policy_role policy_lifetime policy_interval policy_handles policy_purpose : Bytes → Error
  -- the store
  metadata_version roles_missing metadata_size metadata_decode metadata_encode : Error
  revision_conflict : ℕ → ℕ → Error
  durability_uncertain : ℕ → Error
  -- the manager
  role_not_configured role_not_initialized : Bytes → Error
  lifetime_rotation : Error
  metadata_mismatch : Bytes → Error
  counter_exhausted : Error
  handle_occupied : ℕ → Error
  no_handle_available : Bytes → Bool → Error
  handle_not_found : ℕ → Error
  clock_zero : Error
  prepared_twice pending_exists : Error
  create_failed : Error
  not_prepared cannot_identify : Error
  -- `fmt.Errorf` and `errors.Join` around other errors
  joined : Error → Error → Error
  foreign : ℕ → Error
  -- what Go does on an index out of range
  panic : Error

abbrev pub join : Error → Option Error → Error
join e none = e
join e (some f) = joined e f
