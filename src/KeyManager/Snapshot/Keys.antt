-- ===== src/KeyManager/Snapshot/Keys.antt =====
-- The loop over the keys of a role accepts what the policy of the role allows.
use sovereignite.Base.{
  same-eq, ℕ, Bool, true, false, not, ◌&&◌, ◌||◌, Option, none, some, List, [], ◌∷◌, ◌==◌, ==_iff,
  fail_if-none, passes, first_error, first_error-none, length, is_some, All, ◌≡◌, ◌∙◌, refl, arith,
  if◌then◌else◌,
}
use sovereignite.Base.Effect.{Outcome, done, failed}
use sovereignite.KeyManager.Error.{Error}
use sovereignite.KeyManager.Outcome.{guard-done, done-injective}
use sovereignite.KeyManager.Policy.{Role, RolePolicy, has_handle, Owners, owner_of}
use sovereignite.KeyManager.Tpm.{Handle, Template}
use sovereignite.KeyManager.Tpm.Laws.{same_template-eq}
use sovereignite.KeyManager.Snapshot.{
  KeyMetadata, RoleState, template_differs, metadata_checks, validate_metadata_for_policy,
  is_lifetime, value_checks, check_values, lifetime_check,
}
use sovereignite.KeyManager.Snapshot.Validity.{
  IsKeyOf, IsRetiring, handles_of, Distinct, IsRoleState,
}

pub either_passes : (a b : Bool) → (not a || not b) ≡ false → (a ≡ true) × (b ≡ true)
either_passes a b h = ground arith

pub template_differs-eq :
    (o : Outcome Error Template) (t : Template) → template_differs o t ≡ none → o ≡ done t
template_differs-eq (failed e) t h = cc
template_differs-eq (done u) t h = rw (same_template-eq t u (passes _ _ h)) refl

-- A key's metadata is accepted only if the policy of its role allows it.
pub validate_metadata_for_policy-IsKeyOf :
    (r : Role) (p : RolePolicy) (m : KeyMetadata)
    → validate_metadata_for_policy r p m ≡ none
    → IsKeyOf r p m
unfolding validate_metadata_for_policy
validate_metadata_for_policy-IsKeyOf r p m h =
    let c = first_error-none (metadata_checks r p m) h in
    let roles = either_passes _ _ (fail_if-none _ _ c.0) in
    let kinds = either_passes _ _ (fail_if-none _ _ c.1.0) in
    let complete = fail_if-none _ _ c.1.1.1.1.0 in
    record {
      role = same-eq _ _ roles.0;
      policy_role = same-eq _ _ roles.1;
      purpose = same-eq _ _ kinds.0;
      algorithm = same-eq _ _ kinds.1;
      handle = passes _ _ c.1.1.0;
      template = template_differs-eq _ _ c.1.1.1.0;
      generation = ground arith;
      created = ground arith;
      named = ground arith;
      keyed = ground arith;
    }

-- Every handle of the keys is now owned by their role, and no other handle changed its owner.
pub check_values-owner :
    (r : Role) (p : RolePolicy) (b : Bool) (g : ℕ) (ms : List KeyMetadata) (seen after : Owners)
    (h : Handle)
    → check_values r p b g ms seen ≡ done after
    → owner_of h after ≡ (if has_handle (handles_of ms) h then some r else owner_of h seen)
unfolding check_values has_handle owner_of
check_values-owner r p b g [] seen after h q = rw (← done-injective seen after q) refl
check_values-owner r p b g (m ∷ ms) seen after h q =
    let (_, rest) = guard-done (first_error (value_checks r p b g m seen)) _ q in
    check_values-owner r p true g ms ((m.handle, r) ∷ seen) after h rest ∙ ground arith

pub unowned : (o : Option Role) → is_some o ≡ false → o ≡ none
unowned none h = refl
unowned (some r) h = cc

-- What the loop over retiring keys has shown.
pub record Retired (r : Role) (p : RolePolicy) (active : KeyMetadata) (ms : List KeyMetadata)
    (seen : Owners) : Type 0 where
  each : All (IsRetiring r p active) ms
  distinct : Distinct (handles_of ms)
  fresh : (h : Handle) → has_handle (handles_of ms) h ≡ true → owner_of h seen ≡ none

pub check_values-Retired :
    (r : Role) (p : RolePolicy) (active : KeyMetadata) (ms : List KeyMetadata) (seen after : Owners)
    → check_values r p true active.generation ms seen ≡ done after
    → Retired r p active ms seen
unfolding check_values has_handle owner_of
check_values-Retired r p active [] seen after q = record {
  each = tt;
  distinct = tt;
  fresh = λ h k. cc;
}
check_values-Retired r p active (m ∷ ms) seen after q =
    let (passed, rest) =
      guard-done (first_error (value_checks r p true active.generation m seen)) _ q in
    let c = first_error-none (value_checks r p true active.generation m seen) passed in
    let later = check_values-Retired r p active ms ((m.handle, r) ∷ seen) after rest in
    let first = unowned (owner_of m.handle seen) (fail_if-none _ _ c.1.1.0) in
    record {
      each = (
        record {
          key = validate_metadata_for_policy-IsKeyOf r p m c.0;
          older = ground (arith, fail_if-none _ _ c.1.0);
        },
        later.each,
      );
      distinct = (ground (arith, later.fresh m.handle), later.distinct);
      fresh = λ h k. ground (arith, later.fresh h, (==_iff h m.handle).0);
    }

pub lifetime-kept :
    (b g n : Bool) → b && (not g || not n) ≡ false → b ≡ true → (g ≡ true) × (n ≡ true)
lifetime-kept b g n h k = ground arith

pub empty_list : (ms : List KeyMetadata) → (length ms == 0) ≡ true → ms ≡ []
empty_list [] h = refl
empty_list (m ∷ ms) h = ground arith

-- A role whose keys pass has a state that the policy allows.
pub role-IsRoleState :
    (r : Role) (p : RolePolicy) (st : RoleState) (seen after : Owners)
    → lifetime_check r p st ≡ none
    → check_values r p false st.active.generation (st.active ∷ st.retiring) seen ≡ done after
    → IsRoleState r p st
unfolding check_values has_handle owner_of
role-IsRoleState r p st seen after l q =
    let (passed, rest) =
      guard-done (first_error (value_checks r p false st.active.generation st.active seen)) _ q in
    let c = first_error-none (value_checks r p false st.active.generation st.active seen) passed in
    let older =
      check_values-Retired r p st.active st.retiring ((st.active.handle, r) ∷ seen) after rest in
    let kept =
      lifetime-kept (is_lifetime r p) (st.active.generation == 1) (length st.retiring == 0)
        (fail_if-none _ _ l) in
    record {
      active = validate_metadata_for_policy-IsKeyOf r p st.active c.0;
      retiring = older.each;
      distinct = (ground (arith, older.fresh st.active.handle), older.distinct);
      lifetime =
          λ k. ((==_iff st.active.generation 1).0 (kept k).0, empty_list st.retiring (kept k).1);
    }
