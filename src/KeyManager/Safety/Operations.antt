-- ===== src/KeyManager/Safety/Operations.antt =====
-- The operations on a manager, each from any metadata file: where they end, after a success and after an error.
use sovereignite.Base.{
  Bytes, ℕ, ◌+◌, ◌<◌, Option, none, some, [], fail_if, fail_if-none, ◌≡◌, refl, sym, ◌∙◌, arith,
}
use sovereignite.Base.Dict.{Dict, lookup}
use sovereignite.Base.Effect.{
  done, outcome_or, Triple, weaken, if_rule, pure_rule, modify_then, bind_rule, lift_then,
  check_then, fact_rule,
}
use sovereignite.KeyManager.Error.{Error}
use sovereignite.KeyManager.Outcome.{done-injective}
use sovereignite.KeyManager.Policy.{Role, RolePolicy}
use sovereignite.KeyManager.Policy.WellFormed.{IsWellFormed}
use sovereignite.KeyManager.Snapshot.{KeyMetadata, RoleState, Snapshot, is_lifetime}
use sovereignite.KeyManager.Snapshot.Advance.{Advances, Follows-generation}
use sovereignite.KeyManager.Machine.{lock_directory, Setting, Keeping, Run, forget}
use sovereignite.KeyManager.Store.{with_exclusive}
use sovereignite.KeyManager.Store.Laws.{IsCodec, Reads}
use sovereignite.KeyManager.Manager.Persist.{verify_metadata}
use sovereignite.KeyManager.Manager.Reconcile.{ensure_loaded}
use sovereignite.KeyManager.Manager.Operations.{
  policy_of, ensure_role_locked, rotate_state, rotate_locked, not_due, rotate_due_state,
  rotate_if_due_locked, metadata_locked,
}
use sovereignite.KeyManager.Rules.{asked_then}
use sovereignite.KeyManager.Safety.{Serving-Advances, Safe, Serving, Ready}
use sovereignite.KeyManager.Safety.Reconcile.{served_then}
use sovereignite.KeyManager.Safety.Open.{verify_metadata_rule, Resumable, ensure_loaded_rule}
use sovereignite.KeyManager.Safety.Activate.{Activated, existing_or_first_rule, rotate_state_rule}

same_state : (a b : RoleState) → ◌≡◌ {A = Option RoleState} (some a) (some b) → a ≡ b
same_state a b k = cc

-- A transaction starts with nothing loaded, from the file as it is.
abbrev pub Starts : Option Bytes → Keeping → Type 0
Starts from d = (d.file ≡ from) × (d.trace ≡ [])

pub outcome_or-some :
    {A : Type 0} (o : Option A) (e : Error) (a : A) → outcome_or o e ≡ done a → o ≡ some a
outcome_or-some none e a q = cc
outcome_or-some (some b) e a q = rw (done-injective b a q) refl

later_generation :
    {policies : Dict RolePolicy} (first s : Snapshot) (r : Role) (old st : RoleState)
    (m : KeyMetadata)
    → Advances policies first s
    → lookup r first.roles ≡ some old
    → lookup r s.roles ≡ some st
    → m.generation ≡ st.active.generation + 1
    → old.active.generation < m.generation
later_generation {policies = policies} first s r old st m a found here next =
    let (st', here', follows) = a.keys r old found in
    let one : st' ≡ st = same_state st' st (sym here' ∙ here) in
    omega (arith, Follows-generation policies r old.active st.active (rw one at follows), next)

module _ (S : Setting) (c : IsCodec S) (well_formed : IsWellFormed S.configured.policies)
    (from : Option Bytes) where
  pub forgotten-Resumable :
      (d : Keeping) → Safe S from d → Resumable S c well_formed from (forget d)
  forgotten-Resumable d k = record {
    safe = record { progress = k.progress; trace = k.trace };
    ready = λ e. cc;
  }

  pub exclusive_rule :
      {A : Type 0} (Q : A → Keeping → Type 0) (m : Run S A)
      → Triple (Resumable S c well_formed from) m Q (λ _. Safe S from)
      → Triple (Safe S from) (with_exclusive S m) Q (λ _. Safe S from)
  unfolding with_exclusive
  exclusive_rule Q m k =
      asked_then (S.fault lock_directory) _ (λ n d k. k)
        (modify_then (Resumable S c well_formed from) forget _ forgotten-Resumable k)

  pub ensure_role_locked_rule :
      (r : Role)
      → Triple
          (Resumable S c well_formed from)
          (ensure_role_locked S r)
          (Activated S c well_formed from r)
          (λ _. Safe S from)
  unfolding ensure_role_locked
  ensure_role_locked_rule r =
      bind_rule (λ _. Ready S from) (ensure_loaded S) _ (ensure_loaded_rule S c well_formed from)
        λ _.
          lift_then (policy_of S r) _ (λ e q d k. k.serving.safe)
            λ p found. served_then S c well_formed from _ λ s v.
              existing_or_first_rule S c well_formed from s r p (lookup r s.roles)
                (outcome_or-some _ _ p found) refl

  -- A rotation of a role whose active key was another one.
  pub record Rotated (r : Role) (m : KeyMetadata) (d : Keeping) : Type 0 where
    pub activated : Activated S c well_formed from r m d
    pub newer :
        (s : Snapshot) (st : RoleState)
        → Reads S from s
        → lookup r s.roles ≡ some st
        → st.active.generation < m.generation

  pub rotate_locked_rule :
      (r : Role)
      → Triple (Resumable S c well_formed from) (rotate_locked S r) (Rotated r) (λ _. Safe S from)
  unfolding rotate_locked
  rotate_locked_rule r =
      bind_rule (λ _. Ready S from) (ensure_loaded S) _ (ensure_loaded_rule S c well_formed from)
        λ _.
          lift_then (policy_of S r) _ (λ e q d k. k.serving.safe)
            λ p found.
              check_then (fail_if (is_lifetime r p) Error.lifetime_rotation) _
                (λ e q d k. k.serving.safe)
                λ rotates. served_then S c well_formed from _ λ s v.
                  lift_then (outcome_or (lookup r s.roles) (Error.role_not_initialized r)) _
                    (λ e q d k. k.safe)
                    λ st here.
                      let found_here = outcome_or-some (lookup r s.roles) _ st here in
                      weaken (rotate_state S r p st)
                        (fact_rule
                          {G = (first : Snapshot)
                            → Reads S from first
                            → Advances S.configured.policies first s}
                          (rotate_state S r p st)
                          λ since.
                            weaken (rotate_state S r p st)
                              (rotate_state_rule S c well_formed from s r p st
                                (outcome_or-some _ _ p found) found_here
                                (fail_if-none (is_lifetime r p) Error.lifetime_rotation rotates))
                              (λ d k. k)
                              (λ m d k. record {
                                activated = k.activated;
                                newer = λ first old reads at_first.
                                    later_generation first s r old st m (since first reads) at_first
                                      found_here k.next;
                              })
                              (λ e d k. k))
                        (λ d k. ((λ first reads. Serving-Advances S c from first s d k reads), k))
                        (λ m d k. k) (λ e d k. k)

  pub metadata_locked_rule :
      (r : Role)
      → Triple
          (Resumable S c well_formed from)
          (metadata_locked S r)
          (Activated S c well_formed from r)
          (λ _. Safe S from)
  unfolding metadata_locked
  metadata_locked_rule r =
      bind_rule (λ _. Ready S from) (ensure_loaded S) _ (ensure_loaded_rule S c well_formed from)
        λ _. served_then S c well_formed from _ λ s v.
          lift_then (outcome_or (lookup r s.roles) _) _ (λ e q d k. k.safe)
            λ st here.
              bind_rule (λ _. Serving S from s) (verify_metadata S st.active) _
                (weaken _ (verify_metadata_rule S st.active) (λ d k. k) (λ _ d k. k)
                  (λ e d k. k.safe))
                (λ _. pure_rule st.active λ d k. record {
                  snapshot = s;
                  serving = k;
                  state = st;
                  found = outcome_or-some (lookup r s.roles) _ st here;
                  active = refl;
                })

  rotate_due_state_rule :
      (s : Snapshot) (r : Role) (p : RolePolicy) (now : ℕ) (o : Option RoleState)
      → Triple
          (Serving S from s)
          (rotate_due_state S r p now o)
          (λ _. Safe S from)
          (λ _. Safe S from)
  rotate_due_state_rule s r p now none = pure_rule none (λ d k. k.safe)
  rotate_due_state_rule s r p now (some st) =
      if_rule (not_due p now st) _ _ (λ _. pure_rule none (λ d k. k.safe))
        (λ _.
          bind_rule (Rotated r) (rotate_locked S r) _
            (weaken (rotate_locked S r) (rotate_locked_rule r)
              (λ d k. record { safe = k.safe; ready = λ _. record { snapshot = s; serving = k } })
              (λ m d k. k) (λ e d k. k))
            (λ m. pure_rule (some m) (λ d k. k.activated.serving.safe)))

  pub rotate_if_due_locked_rule :
      (r : Role) (now : ℕ)
      → Triple
          (Resumable S c well_formed from)
          (rotate_if_due_locked S r now)
          (λ _. Safe S from)
          (λ _. Safe S from)
  unfolding rotate_if_due_locked
  rotate_if_due_locked_rule r now =
      bind_rule (λ _. Ready S from) (ensure_loaded S) _ (ensure_loaded_rule S c well_formed from)
        λ _.
          lift_then (policy_of S r) _ (λ e q d k. k.serving.safe)
            λ p found.
              check_then (fail_if (is_lifetime r p) Error.lifetime_rotation) _
                (λ e q d k. k.serving.safe)
                λ rotates.
                  served_then S c well_formed from _
                    λ s v. rotate_due_state_rule s r p now (lookup r s.roles)
