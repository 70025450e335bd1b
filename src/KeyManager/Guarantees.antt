-- ===== src/KeyManager/Guarantees.antt =====
-- internal/keymanager: what the operations on a manager guarantee, whatever the TPM and the file system do.
use sovereignite.Base.{
  ◌++◌, Bytes, ℕ, true, false, Option, some, List, [], ◌∷◌, fail_if, fail_if-none, ◌≡◌, ◌≢◌, refl,
  inl, sym, ◌∙◌,
}
use sovereignite.Base.Dict.{lookup}
use sovereignite.KeyManager.Machine.{foreign_error}
use sovereignite.Base.Effect.{query_then}
use sovereignite.Base.Effect.{
  pure, catch, ◌>>◌, Triple, weaken, pure_rule, get_rule, bind_rule, catch_rule, lift_then,
  check_then,
}
use sovereignite.KeyManager.Error.{Error}
use sovereignite.KeyManager.Policy.{Role, RolePolicy, purpose_certificate_authority}
use sovereignite.KeyManager.Policy.WellFormed.{
  IsWellFormed, FitsPurpose, identity, authority, signing,
}
use sovereignite.KeyManager.Snapshot.{KeyMetadata, is_lifetime}
use sovereignite.KeyManager.Machine.{Setting, Keeping, Run}
use sovereignite.KeyManager.Store.Laws.{IsCodec}
use sovereignite.KeyManager.Manager.Reconcile.{ensure_loaded}
use sovereignite.KeyManager.Manager.Operations.{
  policy_of, rotate_locked, open_manager, ensure_role, metadata, public_snapshot, rotate,
  rotate_if_due, reconcile, initialize_roles, initialize,
}
use sovereignite.KeyManager.Manager.Rotation.{
  Rotations, with_error, with_result, due_roles, rotate_each, run_once,
}
use sovereignite.KeyManager.Rules.{check_rule}
use sovereignite.KeyManager.Rules.{asked_then}
use sovereignite.KeyManager.Safety.{Safe, Ready}
use sovereignite.KeyManager.Safety.Retiring.{reconcile_retiring_rule}
use sovereignite.KeyManager.Safety.Open.{open_metadata_file_rule, Resumable, ensure_loaded_rule}
use sovereignite.KeyManager.Safety.Activate.{Activated}
use sovereignite.KeyManager.Safety.Operations.{
  Starts, outcome_or-some, Rotated, exclusive_rule, ensure_role_locked_rule, rotate_locked_rule,
  metadata_locked_rule, rotate_if_due_locked_rule,
}

same_policy : (p q : RolePolicy) → ◌≡◌ {A = Option RolePolicy} (some p) (some q) → p ≡ q
same_policy p q k = cc

FitsPurpose-lifetime :
    (r : Role) (p : RolePolicy)
    → FitsPurpose p
    → p.purpose ≢ purpose_certificate_authority
    → is_lifetime r p ≡ true
FitsPurpose-lifetime r p (identity _ _ lifetime _) other = rw lifetime refl
FitsPurpose-lifetime r p (authority purpose _ _ _ _) other = absurd (other purpose)
FitsPurpose-lifetime r p (signing _ _ lifetime _) other = rw lifetime refl

-- The operations that a manager and its scheduler offer.
pub data Request : Type 0 where
  opens snapshots reconciles initializes schedules : Request
  ensures reads rotates : Role → Request
  rotates_if_due : Role → ℕ → Request

module _ (S : Setting) where
  abbrev ignored : {A : Type 0} → Run S A → Run S (Unit {0})
  ignored m = catch m (λ _. pure tt) (λ _. pure tt)

  abbrev pub perform : Request → Run S (Unit {0})
  perform opens = ignored (open_manager S)
  perform snapshots = ignored (public_snapshot S)
  perform reconciles = ignored (reconcile S)
  perform initializes = ignored (initialize S)
  perform schedules = ignored (run_once S)
  perform (ensures r) = ignored (ensure_role S r)
  perform (reads r) = ignored (metadata S r)
  perform (rotates r) = ignored (rotate S r)
  perform (rotates_if_due r now) = ignored (rotate_if_due S r now)

  -- Any number of operations, whether they succeed or not.
  unfoldable pub perform_all : List Request → Run S (Unit {0})
  perform_all [] = pure tt
  perform_all (q ∷ qs) = perform q >> perform_all qs

module _ (S : Setting) (c : IsCodec S) (well_formed : IsWellFormed S.configured.policies)
    (from : Option Bytes) where
  started : (d : Keeping) → Starts from d → Safe S from d
  started d h = record { progress = inl h.0; trace = rw h.1 tt }

  ignored-Safe :
      {A : Type 0} (Q : A → Keeping → Type 0) (m : Run S A)
      → ((a : A) (d : Keeping) → Q a d → Safe S from d)
      → Triple (Safe S from) m Q (λ _. Safe S from)
      → Triple (Safe S from) (ignored S m) (λ _. Safe S from) (λ _. Safe S from)
  ignored-Safe Q m safe k =
      catch_rule Q (λ _. Safe S from) m _ _ k (λ a. pure_rule tt (safe a))
        (λ e. pure_rule tt (λ d k. k))

  -- For accepted policies and a JSON codec that reads back what it wrote: a successful EnsureRole returns a key that is the active one of its role, both in memory and in a valid
  -- metadata file that advances the file before. After an error the file is unchanged or advances likewise.
  pub ensure_role-Activated :
      (r : Role)
      → Triple (Starts from) (ensure_role S r) (Activated S c well_formed from r) (λ _. Safe S from)
  ensure_role-Activated r =
      weaken _
        (exclusive_rule S c well_formed from _ _ (ensure_role_locked_rule S c well_formed from r))
        started (λ m d k. k) (λ e d k. k)

  -- For accepted policies and a JSON codec that reads back what it wrote: a successful Rotate returns a key of a higher
  -- generation than the active one of that role in the file before, if it had one, and it is now the active one, both in memory and in a valid metadata file that advances the file before. After an
  -- error the file is unchanged or advances likewise.
  pub rotate-Rotated :
      (r : Role)
      → Triple (Starts from) (rotate S r) (Rotated S c well_formed from r) (λ _. Safe S from)
  rotate-Rotated r =
      weaken _ (exclusive_rule S c well_formed from _ _ (rotate_locked_rule S c well_formed from r))
        started (λ m d k. k) (λ e d k. k)

  lifetime_rule :
      (r : Role) (p : RolePolicy)
      → lookup r S.configured.policies ≡ some p
      → is_lifetime r p ≡ true
      → Triple (Resumable S c well_formed from) (rotate_locked S r) (λ _ _. ⊥) (λ _. Safe S from)
  unfolding rotate_locked
  lifetime_rule r p policy lifetime =
      bind_rule (λ _. Ready S from) (ensure_loaded S) _ (ensure_loaded_rule S c well_formed from)
        λ _.
          lift_then (policy_of S r) _ (λ e q d k. k.serving.safe)
            λ q found.
              check_then (fail_if (is_lifetime r q) Error.lifetime_rotation) _
                (λ e q d k. k.serving.safe)
                λ rotates.
                  let here : q ≡ p = same_policy q p (sym (outcome_or-some _ _ q found) ∙ policy) in
                  let not_for_life : is_lifetime r q ≡ false =
                    fail_if-none (is_lifetime r q) Error.lifetime_rotation rotates in
                  let never : is_lifetime r p ≡ false = rw here at not_for_life in
                  record { at = λ w d k. cc }

  -- For accepted policies and a JSON codec that reads back what it wrote: Rotate never succeeds for a role whose
  -- purpose is not that of a certificate authority, and after its error the file is unchanged or advances.
  pub rotate_authority_only :
      (r : Role) (p : RolePolicy)
      → lookup r S.configured.policies ≡ some p
      → p.purpose ≢ purpose_certificate_authority
      → Triple (Starts from) (rotate S r) (λ _ _. ⊥) (λ _. Safe S from)
  rotate_authority_only r p policy other =
      weaken _
        (exclusive_rule S c well_formed from _ _ (
          lifetime_rule r p policy
            (FitsPurpose-lifetime r p (well_formed.own_key r p policy).1.purpose other)))
        started (λ m d k. k) (λ e d k. k)

  initialize_roles_rule :
      (rs : List Role) (results : List KeyMetadata)
      → Triple (Safe S from) (initialize_roles S rs results) (λ _. Safe S from) (λ _. Safe S from)
  unfolding initialize_roles
  initialize_roles_rule [] results = pure_rule _ (λ d k. k)
  initialize_roles_rule (r ∷ rs) results =
      catch_rule (λ _. Safe S from) (λ _. Safe S from) _ _ _
        (asked_then S.context_err _ (λ n d k. k)
          (weaken _
            (exclusive_rule S c well_formed from _ _
              (ensure_role_locked_rule S c well_formed from r))
            (λ d k. k) (λ m d k. k.serving.safe) (λ e d k. k)))
        (λ m. initialize_roles_rule rs (results ++ m ∷ [])) (λ e. pure_rule _ (λ d k. k))

  rotate_each_rule :
      (now : ℕ) (rs : List Role) (so_far : Rotations)
      → Triple (Safe S from) (rotate_each S now rs so_far) (λ _. Safe S from) (λ _. Safe S from)
  unfolding rotate_each
  rotate_each_rule now [] so_far = pure_rule so_far (λ d k. k)
  rotate_each_rule now (r ∷ rs) so_far =
      catch_rule (λ _. Safe S from) (λ _. Safe S from) _ _ _
        (query_then S.context_err _ λ o. check_rule (foreign_error o) (λ e q d k. k) (λ q d k. k))
        (λ _.
          catch_rule (λ _. Safe S from) (λ _. Safe S from) _ _ _
            (exclusive_rule S c well_formed from _ _
              (rotate_if_due_locked_rule S c well_formed from r now))
            (λ m. rotate_each_rule now rs (with_result so_far r m))
            (λ e. rotate_each_rule now rs (with_error so_far e)))
        (λ e. pure_rule _ (λ d k. k))

  run_once_rule : Triple (Safe S from) (run_once S) (λ _. Safe S from) (λ _. Safe S from)
  unfolding run_once due_roles
  run_once_rule =
      asked_then S.context_err _ (λ n d k. k)
        (query_then S.now _ λ now.
          bind_rule (λ _. Safe S from) (due_roles S now) _
            (exclusive_rule S c well_formed from _ _ (
              bind_rule (λ _. Ready S from) (ensure_loaded S) _
                (ensure_loaded_rule S c well_formed from)
                (λ _. get_rule _ (λ d k. k.serving.safe))))
            (λ rs. rotate_each_rule now rs _))

  perform-Safe :
      (q : Request) → Triple (Safe S from) (perform S q) (λ _. Safe S from) (λ _. Safe S from)
  perform-Safe opens =
      ignored-Safe (λ _. Ready S from) (open_manager S) (λ _ d k. k.serving.safe)
        (exclusive_rule S c well_formed from _ _ (
          weaken _ (open_metadata_file_rule S c well_formed from) (λ d k. k.safe) (λ _ d k. k)
            (λ e d k. k)))
  perform-Safe snapshots =
      ignored-Safe (λ _. Ready S from) (public_snapshot S) (λ _ d k. k.serving.safe)
        (exclusive_rule S c well_formed from _ _ (
          bind_rule (λ _. Ready S from) (ensure_loaded S) _
            (ensure_loaded_rule S c well_formed from) (λ _. get_rule (λ d. d.memory) (λ d k. k))))
  perform-Safe reconciles =
      ignored-Safe (λ _. Ready S from) (reconcile S) (λ _ d k. k.serving.safe)
        (exclusive_rule S c well_formed from _ _ (
          bind_rule (λ _. Ready S from) (ensure_loaded S) _
            (ensure_loaded_rule S c well_formed from)
            (λ _. reconcile_retiring_rule S c well_formed from)))
  perform-Safe initializes =
      ignored-Safe (λ _. Safe S from) (initialize S) (λ _ d k. k)
        (initialize_roles_rule S.configured.order [])
  perform-Safe schedules = ignored-Safe (λ _. Safe S from) (run_once S) (λ _ d k. k) run_once_rule
  perform-Safe (ensures r) =
      ignored-Safe (Activated S c well_formed from r) (ensure_role S r) (λ _ d k. k.serving.safe)
        (exclusive_rule S c well_formed from _ _ (ensure_role_locked_rule S c well_formed from r))
  perform-Safe (reads r) =
      ignored-Safe (Activated S c well_formed from r) (metadata S r) (λ _ d k. k.serving.safe)
        (exclusive_rule S c well_formed from _ _ (metadata_locked_rule S c well_formed from r))
  perform-Safe (rotates r) =
      ignored-Safe (Rotated S c well_formed from r) (rotate S r) (λ _ d k. k.activated.serving.safe)
        (exclusive_rule S c well_formed from _ _ (rotate_locked_rule S c well_formed from r))
  perform-Safe (rotates_if_due r now) =
      ignored-Safe (λ _. Safe S from) (rotate_if_due S r now) (λ _ d k. k)
        (exclusive_rule S c well_formed from _ _
          (rotate_if_due_locked_rule S c well_formed from r now))

  perform_all_rule :
      (qs : List Request)
      → Triple (Safe S from) (perform_all S qs) (λ _. Safe S from) (λ _. Safe S from)
  unfolding perform_all
  perform_all_rule [] = pure_rule tt (λ d k. k)
  perform_all_rule (q ∷ qs) =
      bind_rule (λ _. Safe S from) (perform S q) _ (perform-Safe q) (λ _. perform_all_rule qs)

  -- For accepted policies and a JSON codec that reads back what it wrote: after any sequence of operations and runs of the scheduler, successful or not, the metadata file is the one before, or both read as valid
  -- snapshots and the later one advances the earlier: its revision is not lower, no role has lost its active key, and an
  -- active key was replaced only by one of a higher generation, never for a lifetime role. Every key that the
  -- TPM was allowed to keep was pending in the file at that moment, and no eviction named the handle of a key
  -- that was active in the file at that moment.
  pub perform_all-Safe :
      (qs : List Request)
      → Triple (Starts from) (perform_all S qs) (λ _. Safe S from) (λ _. Safe S from)
  perform_all-Safe qs =
      weaken (perform_all S qs) (perform_all_rule qs) started (λ _ d k. k) (λ e d k. k)
