-- ===== src/KeyManager/Safety/Activate.antt =====
-- The first key of a role and its successors: what is returned is active in memory and in the file.
use sovereignite.Base.{
  Bytes, ℕ, ◌+◌, true, false, Option, none, some, fail_if, fail_if-none, ◌==◌, ==_iff, ◌≡◌, ◌≢◌,
  refl, sym, ap, ◌∙◌, arith,
}
use sovereignite.Base.Dict.{lookup, lookup-insert_self}
use sovereignite.Base.Effect.{
  pure, lift, ◌>>=◌, ◌>>◌, Triple, weaken, pure_rule, bind_rule, lift_then, check_then, get_then,
  fact_rule,
}
use sovereignite.KeyManager.Error.{Error}
use sovereignite.KeyManager.Policy.{Role, RolePolicy, has_handle}
use sovereignite.KeyManager.Policy.WellFormed.{IsWellFormed}
use sovereignite.KeyManager.Tpm.{Handle}
use sovereignite.KeyManager.Snapshot.{
  KeyMetadata, RoleState, Snapshot, max_uint64, increment_revision, is_lifetime,
}
use sovereignite.KeyManager.Snapshot.Validity.{IsValid}
use sovereignite.KeyManager.Snapshot.Advance.{Advances-trans, revised, same_roles-Advances}
use sovereignite.KeyManager.Snapshot.Changes.{
  clone-IsValid, with_active-IsValid, with_active-Advances,
}
use sovereignite.KeyManager.Machine.{Setting, Keeping}
use sovereignite.KeyManager.Store.Laws.{IsCodec}
use sovereignite.KeyManager.Manager.Persist.{
  clone, first_state, adopting, with_active, capacity_check, persist, verify_metadata,
}
use sovereignite.KeyManager.Manager.Create.{
  initial_handle, recorded_handles, rotation_handle, create_metadata,
}
use sovereignite.KeyManager.Manager.Reconcile.{reconcile_retiring}
use sovereignite.KeyManager.Manager.Operations.{
  activate, create_first, existing_or_first, rotate_state,
}
use sovereignite.KeyManager.Safety.{Safe, Serving}
use sovereignite.KeyManager.Safety.Persist.{persist_draft_rule}
use sovereignite.KeyManager.Safety.Prepare.{IsTarget, Creating}
use sovereignite.KeyManager.Safety.Create.{create_metadata_rule}
use sovereignite.KeyManager.Safety.Reconcile.{Either-Safe}
use sovereignite.KeyManager.Safety.Retiring.{reconcile_retiring_keeps}
use sovereignite.KeyManager.Safety.Open.{verify_metadata_rule}
use sovereignite.KeyManager.Safety.Handles.{Found, initial_handle_rule, free_handle_rule}

same_state : (a b : RoleState) → ◌≡◌ {A = Option RoleState} (some a) (some b) → a ≡ b
same_state a b k = cc

adopting-active : (m : KeyMetadata) (o : Option RoleState) → (adopting m o).active ≡ m
adopting-active m none = refl
adopting-active m (some st) = refl

below_maximum : (n : ℕ) → fail_if (n == max_uint64) Error.counter_exhausted ≡ none → n ≢ max_uint64
below_maximum n passed equal =
    let unequal : (n == max_uint64) ≡ false =
      fail_if-none (n == max_uint64) Error.counter_exhausted passed in
    cc (rw ((==_iff n max_uint64).1 equal) at unequal)

module _ (S : Setting) (c : IsCodec S) (well_formed : IsWellFormed S.configured.policies)
    (from : Option Bytes) where
  -- The file and the memory have the key as the active one of its role.
  pub record Activated (r : Role) (m : KeyMetadata) (d : Keeping) : Type 0 where
    pub snapshot : Snapshot
    pub serving : Serving S from snapshot d
    pub state : RoleState
    pub found : lookup r snapshot.roles ≡ some state
    pub active : state.active ≡ m

  activate_from :
      (s : Snapshot) (r : Role) (st : RoleState) (m : KeyMetadata)
      → IsValid S.configured.policies s
      → lookup r s.pending ≡ some m
      → st ≡ adopting m (lookup r s.roles)
      → Triple
          (Serving S from s)
          (lift (increment_revision (with_active r st (clone s))) >>= λ next.
            persist S next >> pure m)
          (λ n d. (n ≡ m) × Activated r n d)
          (λ _. Safe S from)
  activate_from s r st m v pending adopts =
      let policies = S.configured.policies in
      let draft = with_active r st (clone s) in
      lift_then (increment_revision draft) _ (λ e q d k. k.safe)
        λ next inc.
          bind_rule (λ _. Serving S from (revised draft)) (persist S next) _
            (weaken (persist S next)
              (persist_draft_rule S c from s draft
                (rw adopts
                  (with_active-IsValid policies (clone s) r m (clone-IsValid policies s v) pending))
                refl
                (rw adopts (
                  Advances-trans policies s (clone s)
                    (with_active r (adopting m (lookup r s.roles)) (clone s))
                    (same_roles-Advances policies s (clone s) (omega arith) refl)
                    (with_active-Advances policies (clone s) r m (clone-IsValid policies s v)
                      pending)))
                next inc)
              (λ d k. k) (λ _ d k. k)
              (λ _ d k. Either-Safe S c well_formed from s (revised draft) d k))
            (λ _. pure_rule m λ d k. (
              refl,
              record {
                snapshot = revised draft;
                serving = k;
                state = st;
                found = lookup-insert_self r st s.roles;
                active = ap (λ u. u.active) adopts ∙ adopting-active m (lookup r s.roles);
              },
            ))

  module _ (s : Snapshot) (p : RolePolicy) (h : Handle) (g : ℕ)
      (target : IsTarget S c well_formed s p h g) where
    -- What is known of the memory when a new key is to be activated.
    abbrev Pending : KeyMetadata → Snapshot → Type 0
    Pending m s' =
        (IsValid S.configured.policies s')
        × (s'.roles ≡ s.roles)
        × (lookup p.role s'.pending ≡ some m)
        × (m.generation ≡ g)

    activate_rule :
        (r : Role) (state : Option RoleState → RoleState) (m : KeyMetadata)
        → r ≡ p.role
        → state (lookup r s.roles) ≡ adopting m (lookup r s.roles)
        → Triple
            (Creating S c well_formed from s p h g target (some m))
            (activate S r state m)
            (λ m d. (m.generation ≡ g) × Activated r m d)
            (λ _. Safe S from)
    unfolding activate
    activate_rule r state m own adopts =
        get_then (λ d. d.memory) _
          λ s'.
            weaken _
              (fact_rule {G = Pending m s'} _ λ f.
                weaken _
                  (activate_from s' r (state (lookup r s'.roles)) m f.0 (rw own f.2)
                    (rw f.1 adopts))
                  (λ d k. k) (λ n d k. (ap (λ u. u.generation) k.0 ∙ f.3, k.1)) (λ e d k. k))
              (λ d k.
                let here : k.0.snapshot ≡ s' = sym k.0.serving.memory ∙ k.1 in
                (
                  (
                    rw here at k.0.serving.valid,
                    rw here at k.0.same_roles,
                    rw here at k.0.remembers.0,
                    k.0.remembers.1,
                  ),
                  rw here at k.0.serving,
                ))
              (λ x d k. k) (λ e d k. k)

  first-IsTarget :
      (s : Snapshot) (r : Role) (p : RolePolicy) (h : Handle)
      → lookup r S.configured.policies ≡ some p
      → lookup r s.roles ≡ none
      → has_handle p.handles h ≡ true
      → IsTarget S c well_formed s p h 1
  first-IsTarget s r p h policy missing owns =
      let own = (well_formed.own_key r p policy).0 in
      record {
        policy = ap (λ x. lookup x S.configured.policies) own ∙ policy;
        handle = owns;
        generation = omega arith;
        next = λ m e q. rw (own, missing) q;
        free = λ st k. cc (rw (own, missing) at k);
      }

  create_first_rule :
      (s : Snapshot) (r : Role) (p : RolePolicy)
      → lookup r S.configured.policies ≡ some p
      → lookup r s.roles ≡ none
      → Triple (Serving S from s) (create_first S r p) (Activated r) (λ _. Safe S from)
  unfolding create_first
  create_first_rule s r p policy missing =
      let own = (well_formed.own_key r p policy).0 in
      bind_rule (λ h d. (has_handle p.handles h ≡ true) × Serving S from s d) (initial_handle S p) _
        (weaken (initial_handle S p) (initial_handle_rule S p) (λ d k. k) (λ h d k. k)
          (λ e d k. k.safe))
        λ h. fact_rule _ λ owns.
          let target = first-IsTarget s r p h policy missing owns in
          get_then (λ d. d.memory) _
            λ s'.
              check_then (capacity_check 2 s') _ (λ e q d k. k.0.safe)
                λ _.
                  bind_rule (λ m. Creating S c well_formed from s p h 1 target (some m))
                    (create_metadata S p h 1) _
                    (weaken _ (create_metadata_rule S c well_formed from s p h 1 target)
                      (λ d k. k.0) (λ m d k. k) (λ e d k. k))
                    λ m.
                      weaken _
                        (activate_rule s p h 1 target r (λ _. first_state m) m (sym own)
                          (rw missing refl))
                        (λ d k. k) (λ n d k. k.1) (λ e d k. k)

  pub existing_or_first_rule :
      (s : Snapshot) (r : Role) (p : RolePolicy) (o : Option RoleState)
      → lookup r S.configured.policies ≡ some p
      → lookup r s.roles ≡ o
      → Triple (Serving S from s) (existing_or_first S r p o) (Activated r) (λ _. Safe S from)
  existing_or_first_rule s r p none policy e = create_first_rule s r p policy e
  existing_or_first_rule s r p (some st) policy e =
      bind_rule (λ _. Serving S from s) (verify_metadata S st.active) _
        (weaken _ (verify_metadata_rule S st.active) (λ d k. k) (λ _ d k. k) (λ e d k. k.safe))
        (λ _.
          pure_rule st.active
            λ d k. record { snapshot = s; serving = k; state = st; found = e; active = refl })

  next-IsTarget :
      (s : Snapshot) (r : Role) (p : RolePolicy) (st : RoleState) (h : Handle)
      → lookup r S.configured.policies ≡ some p
      → lookup r s.roles ≡ some st
      → is_lifetime r p ≡ false
      → st.active.generation ≢ max_uint64
      → has_handle p.handles h ≡ true
      → has_handle (recorded_handles S st) h ≡ false
      → IsTarget S c well_formed s p h (st.active.generation + 1)
  unfolding has_handle
  next-IsTarget s r p st h policy found rotates bounded owns fresh =
      let own = (well_formed.own_key r p policy).0 in
      record {
        policy = ap (λ x. lookup x S.configured.policies) own ∙ policy;
        handle = owns;
        generation = omega arith;
        next = λ m e q. rw (own, found) (rotates, bounded, q, rw e fresh);
        free = λ st' k clash.
            let here : st ≡ st' = same_state st st' (sym found ∙ rw own at k) in
            cc (
              rw ((==_iff h st.active.handle).1 (sym clash ∙ ap (λ u. u.active.handle) (sym here)))
                at fresh);
      }

  -- What a rotation ends with: the new key is the next generation, and active.
  pub record Succeeded (r : Role) (st : RoleState) (m : KeyMetadata) (d : Keeping) : Type 0 where
    pub next : m.generation ≡ st.active.generation + 1
    pub activated : Activated r m d

  retired-Activated :
      (r : Role) (m : KeyMetadata)
      → Triple (Activated r m) (reconcile_retiring S) (λ _. Activated r m) (λ _. Safe S from)
  retired-Activated r m = record {
    at = λ w d k.
        (weaken (reconcile_retiring S)
            (reconcile_retiring_keeps S c well_formed from k.snapshot k.serving.valid) (λ d k. k)
            (λ _ d after.
              let (st, found, same_key) = after.keeps.active r k.state k.found in
              record {
                snapshot = after.snapshot;
                serving = after.serving;
                state = st;
                found = found;
                active = same_key ∙ k.active;
              })
            (λ _ d k. k)).at
          w d k.serving;
  }

  pub rotate_state_rule :
      (s : Snapshot) (r : Role) (p : RolePolicy) (st : RoleState)
      → lookup r S.configured.policies ≡ some p
      → lookup r s.roles ≡ some st
      → is_lifetime r p ≡ false
      → Triple (Serving S from s) (rotate_state S r p st) (Succeeded r st) (λ _. Safe S from)
  unfolding rotate_state
  rotate_state_rule s r p st policy found rotates =
      let own = (well_formed.own_key r p policy).0 in
      let g = st.active.generation + 1 in
      bind_rule (λ _. Serving S from s) (verify_metadata S st.active) _
        (weaken _ (verify_metadata_rule S st.active) (λ d k. k) (λ _ d k. k) (λ e d k. k.safe))
        λ _.
          check_then (fail_if (st.active.generation == max_uint64) Error.counter_exhausted) _
            (λ e q d k. k.safe)
            λ below.
              get_then (λ d. d.memory) _
                λ s'.
                  check_then (capacity_check 3 s') _ (λ e q d k. k.0.safe)
                    λ _.
                      bind_rule (Found (Serving S from s) (recorded_handles S st) p.handles)
                        (rotation_handle S p st) _
                        (weaken _
                          (free_handle_rule S p.role (recorded_handles S st) p.handles false)
                          (λ d k. k.0) (λ h d k. k) (λ e d k. k.safe))
                        λ h. fact_rule _ λ f.
                          let target =
                            next-IsTarget s r p st h policy found rotates
                              (below_maximum st.active.generation below) f.0 f.1 in
                          bind_rule (λ m. Creating S c well_formed from s p h g target (some m))
                            (create_metadata S p h g) _
                            (create_metadata_rule S c well_formed from s p h g target)
                            λ m.
                              bind_rule (λ n d. (n.generation ≡ g) × Activated r n d)
                                (activate S r (adopting m) m) _
                                (activate_rule s p h g target r (adopting m) m (sym own) refl)
                                λ n. fact_rule _ λ next.
                                  bind_rule (λ _. Activated r n) (reconcile_retiring S) _
                                    (retired-Activated r n)
                                    λ _. pure_rule n (λ d k. record { next = next; activated = k })
