-- ===== src/KeyManager/Snapshot/Accepted.antt =====
-- A snapshot that the manager's validation accepts is valid.
use sovereignite.Base.{
  same, same-eq, ℕ, ◌+◌, true, false, Option, none, some, [], ◌∷◌, ◌==◌, ==_iff, fail_if,
  fail_if-none, passes, first_error, first_error-none, is_some, Bool-cases, ◌≡◌, ◌≢◌, ◌∙◌, inl, inr,
  refl, sym, arith,
}
use sovereignite.Base.Dict.{Dict, lookup, Unique}
use sovereignite.Base.Effect.{done}
use sovereignite.KeyManager.Error.{Error}
use sovereignite.KeyManager.Outcome.{>>=-done, guard-done, done-injective}
use sovereignite.KeyManager.Policy.{Role, RolePolicy, has_handle, Owners, owner_of}
use sovereignite.KeyManager.Tpm.{Handle}
use sovereignite.KeyManager.Snapshot.{
  KeyMetadata, RoleState, Snapshot, max_uint64, envelope_checks, validate_snapshot_envelope,
  check_values, lifetime_check, configured, check_roles, replaces, expected_generation,
  pending_checks, intent_checks, check_pending, validate_snapshot,
}
use sovereignite.KeyManager.Snapshot.Validity.{
  handles_of, IsRoleState, Succeeds, IsIntent, Fits, IsValid,
}
use sovereignite.KeyManager.Snapshot.Keys.{
  validate_metadata_for_policy-IsKeyOf, check_values-owner, role-IsRoleState,
}

configured-done :
    (r : Role) (o : Option RolePolicy) (p : RolePolicy) → configured r o ≡ done p → o ≡ some p
configured-done r none p h = cc
configured-done r (some q) p h = rw (done-injective q p h) refl

module _ (policies : Dict RolePolicy) where
  -- What the loop over the roles has shown.
  record Checked (d : Dict RoleState) (seen after : Owners) : Type 0 where
    each :
        (r : Role) (st : RoleState)
        → lookup r d ≡ some st
        → Fits policies r (λ p. IsRoleState r p st)
    owned :
        (r : Role) (st : RoleState) (h : Handle)
        → lookup r d ≡ some st
        → has_handle (handles_of (st.active ∷ st.retiring)) h ≡ true
        → is_some (owner_of h after) ≡ true
    keeps : (h : Handle) → is_some (owner_of h seen) ≡ true → is_some (owner_of h after) ≡ true

  some-same : {A : Type 0} (a b : A) → ◌≡◌ {A = Option A} (some a) (some b) → a ≡ b
  some-same a b h = cc

  check_roles-Checked :
      (d : Dict RoleState) (seen after : Owners)
      → check_roles policies d seen ≡ done after
      → Checked d seen after
  unfolding check_roles lookup
  check_roles-Checked [] seen after q = record {
    each = λ r st k. cc;
    owned = λ r st h k. cc;
    keeps = λ h k. rw (← done-injective seen after q) k;
  }
  check_roles-Checked ((r, st) ∷ d) seen after q =
      let (p, found, q1) = >>=-done (configured r (lookup r policies)) _ q in
      let (passed, q2) = guard-done (lifetime_check r p st) _ q1 in
      let (claimed, values, q3) =
        >>=-done (check_values r p false st.active.generation (st.active ∷ st.retiring) seen) _
          q2 in
      let later = check_roles-Checked d claimed after q3 in
      let owner = λ (h : Handle).
        check_values-owner r p false st.active.generation (st.active ∷ st.retiring) seen claimed h
          values in
      record {
        each = λ j sj k. elim (Bool-cases (same j r)) [
          | inl e ↦
              rw (same-eq j r e, sym (some-same st sj (rw e at k)))
                (p, configured-done r _ p found, role-IsRoleState r p st seen claimed passed values)
          | inr e ↦ later.each j sj (rw e at k)
        ];
        owned = λ j sj h k o. elim (Bool-cases (same j r)) [
          | inl e ↦ later.keeps h (ground (arith, owner h, some-same st sj (rw e at k), o))
          | inr e ↦ later.owned j sj h (rw e at k) o
        ];
        keeps = λ h o. later.keeps h (ground (arith, owner h, o));
      }

  expected_generation-some :
      (st : RoleState) (g : ℕ)
      → expected_generation policies (some st) ≡ done g
      → (st.active.generation ≢ max_uint64) × (g ≡ st.active.generation + 1)
  expected_generation-some st g q =
      let (passed, rest) =
        guard-done (fail_if (st.active.generation == max_uint64) Error.counter_exhausted) _ q in
      let unequal = fail_if-none _ _ passed in
      (
        λ equal. cc (rw ((==_iff st.active.generation max_uint64).1 equal) at unequal),
        sym (done-injective (st.active.generation + 1) g rest),
      )

  -- What the checks of one intent show.
  pending-Succeeds :
      (r : Role) (p : RolePolicy) (o : Option RoleState) (m : KeyMetadata) (seen : Owners) (g : ℕ)
      → ((st : RoleState) (h : Handle)
          → o ≡ some st
          → has_handle (handles_of (st.active ∷ st.retiring)) h ≡ true
          → is_some (owner_of h seen) ≡ true)
      → replaces policies r p o m ≡ false
      → expected_generation policies o ≡ done g
      → m.generation ≡ g
      → is_some (owner_of m.handle seen) ≡ false
      → Succeeds r p o m
  pending-Succeeds r p none m seen g owned l next e fresh = e ∙ sym (done-injective 1 g next)
  pending-Succeeds r p (some st) m seen g owned l next e fresh =
      let (bounded, expected) = expected_generation-some st g next in
      (ground (arith, l), bounded, e ∙ expected, ground (arith, owned st m.handle refl, fresh))

  pending-IsIntent :
      (r : Role) (p : RolePolicy) (o : Option RoleState) (m : KeyMetadata) (seen : Owners) (g : ℕ)
      → ((st : RoleState) (h : Handle)
          → o ≡ some st
          → has_handle (handles_of (st.active ∷ st.retiring)) h ≡ true
          → is_some (owner_of h seen) ≡ true)
      → first_error (pending_checks policies r p o m) ≡ none
      → expected_generation policies o ≡ done g
      → first_error (intent_checks policies r m g seen) ≡ none
      → IsIntent r p o m
  pending-IsIntent r p o m seen g owned passed next intent =
      let c = first_error-none (pending_checks policies r p o m) passed in
      let i = first_error-none (intent_checks policies r m g seen) intent in
      record {
        key = validate_metadata_for_policy-IsKeyOf r p m c.0;
        next =
            pending-Succeeds r p o m seen g owned (fail_if-none _ _ c.1.0) next
              ((==_iff m.generation g).0 (passes _ _ i.0)) (fail_if-none _ _ i.1.0);
      }

  -- The pending creations name new handles, apart from each other and from every key.
  check_pending-IsIntent :
      (d : Dict KeyMetadata) (roles : Dict RoleState) (seen : Owners)
      → check_pending policies d roles seen ≡ done tt
      → ((r : Role) (st : RoleState) (h : Handle)
          → lookup r roles ≡ some st
          → has_handle (handles_of (st.active ∷ st.retiring)) h ≡ true
          → is_some (owner_of h seen) ≡ true)
      → (r : Role) (m : KeyMetadata) → lookup r d ≡ some m
      → Fits policies r (λ p. IsIntent r p (lookup r roles) m)
  unfolding check_pending lookup owner_of
  check_pending-IsIntent [] roles seen q owned r m k = cc
  check_pending-IsIntent ((r, m) ∷ d) roles seen q owned j mj k =
      let (p, found, q1) = >>=-done (configured r (lookup r policies)) _ q in
      let (passed, q2) =
        guard-done (first_error (pending_checks policies r p (lookup r roles) m)) _ q1 in
      let (g, next, q3) = >>=-done (expected_generation policies (lookup r roles)) _ q2 in
      let (passes_intent, q4) = guard-done (first_error (intent_checks policies r m g seen)) _ q3 in
      elim (Bool-cases (same j r)) [
        | inl e ↦
            rw (same-eq j r e, sym (some-same m mj (rw e at k)))
              (
                p,
                configured-done r _ p found,
                pending-IsIntent r p (lookup r roles) m seen g (owned r) passed next passes_intent,
              )
        | inr e ↦
            check_pending-IsIntent d roles ((m.handle, r) ∷ seen) q4
              (λ i st h a b. ground (arith, owned i st h a b)) j mj (rw e at k)
      ]

  -- A snapshot that `validateSnapshotLocked` accepts is valid, if no role is written twice: its version is 1, the
  -- generation of each active key is above those of the retiring keys of its role, every key has a handle, a
  -- template, a purpose and an algorithm that the policy of its role allows, no two keys of a role have the
  -- same handle, a lifetime role has its first key only, and a pending creation is of the next
  -- generation, at a handle that no key of its role has.
  pub validate_snapshot-IsValid :
      (s : Snapshot)
      → Unique s.roles
      → Unique s.pending
      → validate_snapshot policies s ≡ done tt
      → IsValid policies s
  unfolding validate_snapshot validate_snapshot_envelope
  validate_snapshot-IsValid s unique_roles unique_pending q =
      let (enveloped, q1) = guard-done (first_error (envelope_checks s)) _ q in
      let (seen, looped, q2) = >>=-done (check_roles policies s.roles []) _ q1 in
      let envelope = first_error-none (envelope_checks s) enveloped in
      let checked = check_roles-Checked s.roles [] seen looped in
      record {
        version = (==_iff s.version 1).0 (passes _ _ envelope.0);
        has_roles = passes _ _ envelope.1.0;
        unique_roles = unique_roles;
        unique_pending = unique_pending;
        roles = checked.each;
        pending = check_pending-IsIntent s.pending s.roles seen q2 checked.owned;
      }
