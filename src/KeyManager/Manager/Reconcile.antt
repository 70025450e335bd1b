-- ===== src/KeyManager/Manager/Reconcile.antt =====
-- internal/keymanager/manager.go: what a restart makes of a creation or a retirement that was cut short,
-- and opening the metadata.
use sovereignite.Base.{
  Bool, true, false, not, ◌||◌, Option, none, some, List, [], ◌∷◌, ◌==◌, length, if◌then◌else◌,
}
use sovereignite.Base.Dict.{Dict, lookup}
use sovereignite.Base.Effect.{
  Outcome, done, failed, pure, raise, lift, get, query, check, modify, catch, ◌>>=◌, ◌>>◌,
}
use sovereignite.KeyManager.Error.{Error}
use sovereignite.KeyManager.Policy.{Role}
use sovereignite.KeyManager.Tpm.{Public}
use sovereignite.KeyManager.Snapshot.{
  KeyMetadata, RoleState, Snapshot, increment_revision, validate_snapshot, verify_public_metadata,
  object_reference,
}
use sovereignite.KeyManager.Machine.{
  TpmError, not_found, unreadable, Setting, Run, check_context, take_over, forget,
}
use sovereignite.KeyManager.Store.{load}
use sovereignite.KeyManager.Manager.Persist.{
  capacity_check, clone, adopting, with_active, without_intent, with_retired, persist,
  verify_metadata,
}
use sovereignite.KeyManager.Manager.Create.{evict_persistent}

-- A snapshot under change, and whether it has changed.
pub record Draft : Type 0 where
  pub next : Snapshot
  pub changed : Bool

abbrev pub has_retiring : Dict RoleState → Bool
has_retiring [] = false
has_retiring ((r, st) ∷ d) = not (length st.retiring == 0) || has_retiring d

abbrev pub eviction_failure : Option TpmError → Option Error
eviction_failure none = none
eviction_failure (some not_found) = some (Error.handle_not_found 0)
eviction_failure (some (unreadable n)) = some (Error.foreign n)

abbrev pub verify_retiring_answer : KeyMetadata → Outcome TpmError Public → Option Error
verify_retiring_answer m (failed not_found) = none
verify_retiring_answer m (failed (unreadable n)) = some (Error.foreign n)
verify_retiring_answer m (done p) = verify_public_metadata m p

module _ (S : Setting) where
  -- What the TPM's answer decides about a pending creation.
  abbrev pub adopt_or_drop :
      Role → KeyMetadata → Snapshot → Outcome TpmError Public → Run S Snapshot
  adopt_or_drop r m s (failed not_found) = pure (without_intent r s)
  adopt_or_drop r m s (failed (unreadable n)) = raise (Error.foreign n)
  adopt_or_drop r m s (done p) =
      check (verify_public_metadata m p) >> pure (with_active r (adopting m (lookup r s.roles)) s)

  abbrev pub settle : Role → Option KeyMetadata → Draft → Run S Draft
  settle r none d = pure d
  settle r (some m) d = do
    check_context S
    answer ← query (S.read_public m.handle)
    s ← adopt_or_drop r m d.next answer
    pure (record { next = s; changed = true })

  -- The loop of `reconcilePendingLocked`.
  unfoldable pub settle_all : List Role → Draft → Run S Draft
  settle_all [] d = pure d
  settle_all (r ∷ rs) d = settle r (lookup r d.next.pending) d >>= settle_all rs

  abbrev pub persist_draft : Draft → Run S (Unit {0})
  persist_draft d =
      if d.changed then (lift (increment_revision d.next) >>= λ next. persist S next) else pure tt

  abbrev pub settle_pending : Snapshot → Run S (Unit {0})
  settle_pending s = do
    check (capacity_check 1 s)
    d ← settle_all S.configured.order (record { next = clone s; changed = false })
    persist_draft d

  -- `reconcilePendingLocked`.
  unfoldable pub reconcile_pending : Run S (Unit {0})
  reconcile_pending = do
    loaded ← get (λ d. d.loaded)
    s ← get (λ d. d.memory)
    if not loaded || length s.pending == 0 then pure tt else settle_pending s

  abbrev pub evict_known : KeyMetadata → Outcome TpmError Public → Run S (Unit {0})
  evict_known m (failed not_found) = pure tt
  evict_known m (failed (unreadable n)) = raise (Error.foreign n)
  evict_known m (done p) = do
    check (verify_public_metadata m p)
    answer ← evict_persistent S (object_reference m)
    check (eviction_failure answer)

  -- The loop over the retiring keys of a role.
  unfoldable pub evict_all : List KeyMetadata → Run S (Unit {0})
  evict_all [] = pure tt
  evict_all (m ∷ ms) = do
    check_context S
    answer ← query (S.read_public m.handle)
    evict_known m answer
    evict_all ms

  -- Each retiring key that is passed makes a change, and there is one.
  abbrev pub retire : Role → Option RoleState → Draft → Run S Draft
  retire r none d = pure d
  retire r (some st) d =
      if length st.retiring == 0
      then pure d
      else (evict_all st.retiring
          >> pure (record { next = with_retired r st d.next; changed = true }))

  -- The loop of `reconcileRetiringLocked` over the roles.
  unfoldable pub retire_all : List Role → Draft → Run S Draft
  retire_all [] d = pure d
  retire_all (r ∷ rs) d = retire r (lookup r d.next.roles) d >>= retire_all rs

  abbrev pub retire_from : Snapshot → Run S (Unit {0})
  retire_from s = do
    if has_retiring s.roles then check (capacity_check 1 s) else pure tt
    d ← retire_all S.configured.order (record { next = clone s; changed = false })
    persist_draft d

  -- `reconcileRetiringLocked`.
  unfoldable pub reconcile_retiring : Run S (Unit {0})
  reconcile_retiring = do
    loaded ← get (λ d. d.loaded)
    s ← get (λ d. d.memory)
    if loaded then retire_from s else pure tt

  unfoldable pub verify_retiring : List KeyMetadata → Run S (Unit {0})
  verify_retiring [] = pure tt
  verify_retiring (m ∷ ms) = do
    answer ← query (S.read_public m.handle)
    check (verify_retiring_answer m answer)
    verify_retiring ms

  abbrev pub verify_state : Option RoleState → Run S (Unit {0})
  verify_state none = pure tt
  verify_state (some st) = verify_metadata S st.active >> verify_retiring st.retiring

  -- The loop of `openLocked` over the roles.
  unfoldable pub verify_roles : List Role → Snapshot → Run S (Unit {0})
  verify_roles [] s = pure tt
  verify_roles (r ∷ rs) s = verify_state (lookup r s.roles) >> verify_roles rs s

  abbrev pub or_forget : Run S (Unit {0}) → Run S (Unit {0})
  or_forget m = catch m (λ _. pure tt) (λ e. modify forget >> raise e)

  -- `openLocked`.
  unfoldable pub open_metadata_file : Run S (Unit {0})
  open_metadata_file = do
    check_context S
    s ← load S
    lift (validate_snapshot S.configured.policies s)
    verify_roles S.configured.order s
    modify (take_over s)
    or_forget reconcile_pending
    or_forget reconcile_retiring

  abbrev pub resume : Run S (Unit {0})
  resume = do check_context S; reconcile_pending; reconcile_retiring

  -- `ensureLoadedLocked`.
  unfoldable pub ensure_loaded : Run S (Unit {0})
  ensure_loaded = do loaded ← get (λ d. d.loaded); if loaded then resume else open_metadata_file
