-- ===== src/KeyManager/Manager/Rotation.antt =====
-- internal/keymanager/rotation.go: which roles are due, and one run of the scheduler.
use sovereignite.Base.{
  ℕ, Bool, false, not, ◌&&◌, Option, none, some, List, [], ◌∷◌, ◌++◌, if◌then◌else◌,
}
use sovereignite.Base.Dict.{Dict, lookup}
use sovereignite.Base.Effect.{pure, get, query, catch, ◌>>=◌, ◌>>◌}
use sovereignite.Base.Int.{is_positive}
use sovereignite.KeyManager.Error.{Error}
use sovereignite.KeyManager.Policy.{Role, RolePolicy}
use sovereignite.KeyManager.Tpm.{Handle}
use sovereignite.KeyManager.Snapshot.{KeyMetadata, RoleState, is_lifetime}
use sovereignite.KeyManager.Machine.{Setting, Run, check_context}
use sovereignite.KeyManager.Store.{with_exclusive}
use sovereignite.KeyManager.Manager.Reconcile.{ensure_loaded}
use sovereignite.KeyManager.Manager.Operations.{not_due, rotate_if_due}

pub record RotationResult : Type 0 where
  pub role : Role
  pub generation : ℕ
  pub handle : Handle
  pub activated : ℕ

-- What a run returns beside its errors.
pub record Rotations : Type 0 where
  pub results : List RotationResult
  pub errors : List Error

-- Every role of the order has a policy.
abbrev pub is_due : Role → Option RolePolicy → Option RoleState → ℕ → Bool
is_due r none st now = false
is_due r (some p) none now = false
is_due r (some p) (some st) now =
    not (is_lifetime r p) && is_positive p.rotation_interval && not (not_due p now st)

unfoldable pub filter_due : Dict RolePolicy → Dict RoleState → ℕ → List Role → List Role
filter_due policies roles now [] = []
filter_due policies roles now (r ∷ rs) =
    let rest = filter_due policies roles now rs in
    if is_due r (lookup r policies) (lookup r roles) now then r ∷ rest else rest

abbrev pub rotated : Role → Option KeyMetadata → List RotationResult
rotated r none = []
rotated r (some m) =
    record { role = r; generation = m.generation; handle = m.handle; activated = m.created_at } ∷ []

abbrev pub with_error : Rotations → Error → Rotations
with_error done_so_far e = record done_so_far { errors = done_so_far.errors ++ e ∷ [] }

abbrev pub with_result : Rotations → Role → Option KeyMetadata → Rotations
with_result done_so_far r m = record done_so_far { results = done_so_far.results ++ rotated r m }

module _ (S : Setting) where
  -- `dueRoles`.
  unfoldable pub due_roles : ℕ → Run S (List Role)
  due_roles now = with_exclusive S (
      ensure_loaded S
      >> get (λ d. filter_due S.configured.policies d.memory.roles now S.configured.order))

  -- The loop of `RunOnce`.
  unfoldable pub rotate_each : ℕ → List Role → Rotations → Run S Rotations
  rotate_each now [] so_far = pure so_far
  rotate_each now (r ∷ rs) so_far =
      catch (check_context S)
        (λ _.
          catch (rotate_if_due S r now) (λ m. rotate_each now rs (with_result so_far r m))
            (λ e. rotate_each now rs (with_error so_far e)))
        (λ e. pure (with_error so_far e))

  -- `RunOnce`.
  unfoldable pub run_once : Run S Rotations
  run_once = do
    check_context S
    now ← query S.now
    roles ← due_roles now
    rotate_each now roles (record { results = []; errors = [] })
