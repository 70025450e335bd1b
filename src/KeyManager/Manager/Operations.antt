-- ===== src/KeyManager/Manager/Operations.antt =====
-- internal/keymanager/manager.go and initialize.go: the operations on a manager, each in a transaction of its store.
use sovereignite.Base.{
  ℕ, ◌+◌, Bool, Option, none, some, List, [], ◌∷◌, ◌++◌, ltb, ◌==◌, fail_if, is_some, if◌then◌else◌,
}
use sovereignite.Base.Dict.{lookup}
use sovereignite.Base.Effect.{Outcome, outcome_or, pure, lift, get, check, catch, ◌>>=◌, ◌>>◌}
use sovereignite.Base.Int.{shifted}
use sovereignite.KeyManager.Error.{Error}
use sovereignite.KeyManager.Policy.{Role, RolePolicy}
use sovereignite.KeyManager.Snapshot.{
  KeyMetadata, RoleState, Snapshot, max_uint64, increment_revision, is_lifetime,
}
use sovereignite.KeyManager.Machine.{Setting, Run, check_context}
use sovereignite.KeyManager.Store.{with_exclusive}
use sovereignite.KeyManager.Manager.Persist.{
  capacity_check, first_state, adopting, clone, with_active, persist, verify_metadata,
}
use sovereignite.KeyManager.Manager.Create.{initial_handle, rotation_handle, create_metadata}
use sovereignite.KeyManager.Manager.Reconcile.{
  reconcile_retiring, open_metadata_file, ensure_loaded,
}

-- Results that are returned beside an error, if there is one.
pub record Batch (A : Type 0) : Type 0 where
  pub results : List A
  pub error : Option Error

-- `now.Before(state.Active.CreatedAt.Add(policy.RotationInterval))`.
abbrev pub not_due : RolePolicy → ℕ → RoleState → Bool
not_due p now st = ltb now (shifted st.active.created_at p.rotation_interval)

module _ (S : Setting) where
  abbrev pub policy_of : Role → Outcome Error RolePolicy
  policy_of r = outcome_or (lookup r S.configured.policies) (Error.role_not_configured r)

  -- The steps after a key is created: the new state of its role is written.
  unfoldable pub activate : Role → (Option RoleState → RoleState) → KeyMetadata → Run S KeyMetadata
  activate r state m = do
    s ← get (λ d. d.memory)
    next ← lift (increment_revision (with_active r (state (lookup r s.roles)) (clone s)))
    persist S next
    pure m

  unfoldable pub create_first : Role → RolePolicy → Run S KeyMetadata
  create_first r p = do
    h ← initial_handle S p
    s ← get (λ d. d.memory)
    check (capacity_check 2 s)
    m ← create_metadata S p h 1
    activate r (λ _. first_state m) m

  abbrev pub existing_or_first : Role → RolePolicy → Option RoleState → Run S KeyMetadata
  existing_or_first r p none = create_first r p
  existing_or_first r p (some st) = verify_metadata S st.active >> pure st.active

  -- `ensureRoleLocked`.
  unfoldable pub ensure_role_locked : Role → Run S KeyMetadata
  ensure_role_locked r = do
    ensure_loaded S
    p ← lift (policy_of r)
    s ← get (λ d. d.memory)
    existing_or_first r p (lookup r s.roles)

  unfoldable pub rotate_state : Role → RolePolicy → RoleState → Run S KeyMetadata
  rotate_state r p st = do
    verify_metadata S st.active
    check (fail_if (st.active.generation == max_uint64) Error.counter_exhausted)
    s ← get (λ d. d.memory)
    check (capacity_check 3 s)
    h ← rotation_handle S p st
    m ← create_metadata S p h (st.active.generation + 1)
    activated ← activate r (adopting m) m
    reconcile_retiring S
    pure activated

  -- `rotateLocked`.
  unfoldable pub rotate_locked : Role → Run S KeyMetadata
  rotate_locked r = do
    ensure_loaded S
    p ← lift (policy_of r)
    check (fail_if (is_lifetime r p) Error.lifetime_rotation)
    s ← get (λ d. d.memory)
    st ← lift (outcome_or (lookup r s.roles) (Error.role_not_initialized r))
    rotate_state r p st

  abbrev pub rotate_due_state :
      Role → RolePolicy → ℕ → Option RoleState → Run S (Option KeyMetadata)
  rotate_due_state r p now none = pure none
  rotate_due_state r p now (some st) =
      if not_due p now st then pure none else (rotate_locked r >>= λ m. pure (some m))

  unfoldable pub rotate_if_due_locked : Role → ℕ → Run S (Option KeyMetadata)
  rotate_if_due_locked r now = do
    ensure_loaded S
    p ← lift (policy_of r)
    check (fail_if (is_lifetime r p) Error.lifetime_rotation)
    s ← get (λ d. d.memory)
    rotate_due_state r p now (lookup r s.roles)

  unfoldable pub metadata_locked : Role → Run S KeyMetadata
  metadata_locked r = do
    ensure_loaded S
    s ← get (λ d. d.memory)
    st ← lift (
        outcome_or (lookup r s.roles) (
          if is_some (lookup r S.configured.policies)
          then Error.role_not_initialized r
          else Error.role_not_configured r))
    verify_metadata S st.active
    pure st.active

  -- `Open`, `EnsureRole`, `Metadata`, `PublicSnapshot`, `Rotate`, `rotateIfDue` and `ReconcileRetiring`.
  abbrev pub open_manager : Run S (Unit {0})
  open_manager = with_exclusive S (open_metadata_file S)

  abbrev pub ensure_role : Role → Run S KeyMetadata
  ensure_role r = with_exclusive S (ensure_role_locked r)

  abbrev pub metadata : Role → Run S KeyMetadata
  metadata r = with_exclusive S (metadata_locked r)

  abbrev pub public_snapshot : Run S Snapshot
  public_snapshot = with_exclusive S (ensure_loaded S >> get (λ d. d.memory))

  abbrev pub rotate : Role → Run S KeyMetadata
  rotate r = with_exclusive S (rotate_locked r)

  abbrev pub rotate_if_due : Role → ℕ → Run S (Option KeyMetadata)
  rotate_if_due r now = with_exclusive S (rotate_if_due_locked r now)

  abbrev pub reconcile : Run S (Unit {0})
  reconcile = with_exclusive S (ensure_loaded S >> reconcile_retiring S)

  -- The loop of `Initialize`.
  unfoldable pub initialize_roles : List Role → List KeyMetadata → Run S (Batch KeyMetadata)
  initialize_roles [] results = pure (record { results = results; error = none })
  initialize_roles (r ∷ rs) results =
      catch (check_context S >> ensure_role r) (λ m. initialize_roles rs (results ++ m ∷ []))
        (λ e. pure (record { results = results; error = some e }))

  -- `Initialize`.
  abbrev pub initialize : Run S (Batch KeyMetadata)
  initialize = initialize_roles S.configured.order []
