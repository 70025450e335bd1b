-- ===== src/KeyManager/Manager/Persist.antt =====
-- internal/keymanager/manager.go: what every operation of the manager uses.
use sovereignite.Base.{
  ℕ, ◌-◌, Bool, true, false, Option, none, some, [], ◌∷◌, ◌++◌, ltb, fail_if, if◌then◌else◌,
}
use sovereignite.Base.Dict.{insert, erase}
use sovereignite.Base.Effect.{
  Outcome, done, failed, raise, lift, query, check, modify, catch, ◌>>=◌, ◌>>◌,
}
use sovereignite.KeyManager.Error.{Error}
use sovereignite.KeyManager.Policy.{Role}
use sovereignite.KeyManager.Tpm.{Public}
use sovereignite.KeyManager.Snapshot.{
  KeyMetadata, RoleState, Snapshot, max_uint64, verify_public_metadata,
}
use sovereignite.KeyManager.Machine.{
  TpmError, not_found, unreadable, Setting, Run, check_context, remember, forget,
}
use sovereignite.KeyManager.Store.{save}

-- `errors.Is(err, ErrMetadataDurabilityUncertain)`.
abbrev pub is_uncertain : Error → Bool
is_uncertain (Error.durability_uncertain n) = true
is_uncertain _ = false

-- `errors.Is(err, ErrMetadataRevisionConflict)`.
abbrev pub is_conflict : Error → Bool
is_conflict (Error.revision_conflict current next) = true
is_conflict _ = false

-- `requireRevisionCapacityLocked`.
abbrev pub capacity_check : ℕ → Snapshot → Option Error
capacity_check steps s = fail_if (ltb (max_uint64 - s.revision) steps) Error.counter_exhausted

abbrev pub read_error : Role → Outcome TpmError Public → Outcome Error Public
read_error r (done p) = done p
read_error r (failed not_found) =
    failed (Error.joined (Error.metadata_mismatch r) (Error.handle_not_found 0))
read_error r (failed (unreadable n)) =
    failed (Error.joined (Error.metadata_mismatch r) (Error.foreign n))

-- `cloneSnapshot`, which makes a map where there was none.
abbrev pub clone : Snapshot → Snapshot
clone s = record s { has_roles = true }

-- `next.Pending[role] = metadata`.
abbrev pub with_intent : Role → KeyMetadata → Snapshot → Snapshot
with_intent r m s = record s { pending = insert r m s.pending }

abbrev pub first_state : KeyMetadata → RoleState
first_state m = record { active = m; retiring = [] }

-- The active key becomes a retiring one.
abbrev pub superseded : KeyMetadata → RoleState → RoleState
superseded m st = record { active = m; retiring = st.retiring ++ st.active ∷ [] }

abbrev pub adopting : KeyMetadata → Option RoleState → RoleState
adopting m none = first_state m
adopting m (some st) = superseded m st

-- `next.Roles[role] = state` and `delete(next.Pending, role)`.
abbrev pub with_active : Role → RoleState → Snapshot → Snapshot
with_active r st s = record s { roles = insert r st s.roles; pending = erase r s.pending }

abbrev pub without_intent : Role → Snapshot → Snapshot
without_intent r s = record s { pending = erase r s.pending }

-- `state.Retiring = nil`.
abbrev pub with_retired : Role → RoleState → Snapshot → Snapshot
with_retired r st s = record s { roles = insert r (first_state st.active) s.roles }

module _ (S : Setting) where
  abbrev pub kept_after : Snapshot → Error → Run S (Unit {0})
  kept_after next e =
      if is_uncertain e
      then (modify (remember next) >> raise e)
      else if is_conflict e
      then (modify forget >> raise e)
      else raise e

  -- `persistSnapshotLocked`.
  unfoldable pub persist : Snapshot → Run S (Unit {0})
  persist next = catch (save S next) (λ _. modify (remember next)) (kept_after next)

  -- `verifyMetadataLocked`.
  unfoldable pub verify_metadata : KeyMetadata → Run S (Unit {0})
  verify_metadata m = do
    check_context S
    answer ← query (S.read_public m.handle)
    public ← lift (read_error m.role answer)
    check (verify_public_metadata m public)
