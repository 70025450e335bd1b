-- ===== src/KeyManager/Policy/WellFormed.antt =====
-- What validated policies promise: each role is its own key, no handle belongs to two roles, and the
-- lifetime roles are those that never rotate.
use sovereignite.Base.{
  Bytes, same, same_refl, same-eq, ◌≤◌, ◌<◌, Bool, true, false, not, ◌||◌, Option, none, some, List,
  [], ◌∷◌, ◌++◌, ◌==◌, ==_iff, fail_if, fail_if-none, passes, first_error, first_error-none, length,
  All, Bool-cases, ◌≡◌, ◌≢◌, inl, inr, refl, sym, arith,
}
use sovereignite.Base.Dict.{Dict, lookup, insert, inserted}
use sovereignite.Base.Effect.{Outcome, done, failed}
use sovereignite.Base.Int.{is_positive}
use sovereignite.KeyManager.Error.{Error}
use sovereignite.KeyManager.Outcome.{>>=-done, guard-done, done-injective}
use sovereignite.KeyManager.Tpm.{Handle, is_persistent, Template, signing_template}
use sovereignite.KeyManager.Policy.{
  Role, RolePolicy, role_device_ipns_identity, purpose_device_ipns_identity,
  purpose_certificate_authority, purpose_signing, has_handle, Owners, owner_of, shared_check,
  handle_checks, claim_handles, identity_checks, signing_checks, authority_checks, purpose_check,
  algorithm_check, policy_checks, Configured, collect_policies, validate_policies,
}

-- The three kinds of policy. Only a lifetime policy may be of the device identity, and only an
-- authority rotates, over two handles or more.
pub data FitsPurpose (p : RolePolicy) : Type 0 where
  identity :
      p.purpose ≡ purpose_device_ipns_identity
      → p.role ≡ role_device_ipns_identity
      → p.lifetime ≡ true
      → length p.handles ≡ 1
      → FitsPurpose p
  authority :
      p.purpose ≡ purpose_certificate_authority
      → p.role ≢ role_device_ipns_identity
      → p.lifetime ≡ false
      → is_positive p.rotation_interval ≡ true
      → 2 ≤ length p.handles
      → FitsPurpose p
  signing :
      p.purpose ≡ purpose_signing
      → p.role ≢ role_device_ipns_identity
      → p.lifetime ≡ true
      → length p.handles ≡ 1
      → FitsPurpose p

pub record IsPolicy (p : RolePolicy) : Type 0 where
  pub purpose : FitsPurpose p
  pub handles : 0 < length p.handles
  pub persistent : All (λ h. is_persistent h ≡ true) p.handles
  pub template : (t : Template) × (signing_template p.algorithm ≡ done t)

pub record IsWellFormed (policies : Dict RolePolicy) : Type 0 where
  pub own_key : (r : Role) (p : RolePolicy) → lookup r policies ≡ some p → (p.role ≡ r) × IsPolicy p
  pub disjoint :
      (r s : Role) (p q : RolePolicy) (h : Handle)
      → lookup r policies ≡ some p
      → lookup s policies ≡ some q
      → has_handle p.handles h ≡ true
      → has_handle q.handles h ≡ true
      → r ≡ s

differs : (r s : Bytes) → same r s ≡ false → r ≢ s
differs r s h p = cc (h, same_refl s, p)

either_passes : (a b : Bool) → (not a || not b) ≡ false → (a ≡ true) × (b ≡ true)
either_passes a b h = ground arith

unsupported : {A : Type 0} {a : A} → some a ≡ none → ⊥
unsupported h = cc

purpose_check-FitsPurpose : (p : RolePolicy) → purpose_check p ≡ none → FitsPurpose p
unfolding purpose_check
purpose_check-FitsPurpose p h = elim (Bool-cases (same p.purpose purpose_device_ipns_identity)) [
  | inl is_identity ↦
      let c = first_error-none (identity_checks p) (rw is_identity at h) in
      identity (same-eq _ _ is_identity) (same-eq _ _ (passes _ _ c.0))
        (either_passes _ _ (fail_if-none _ _ c.1.0)).0 ((==_iff _ _).0 (passes _ _ c.1.1.0))
  | inr other ↦ elim (Bool-cases (same p.purpose purpose_certificate_authority)) [
    | inl is_authority ↦
        let c = first_error-none (authority_checks p) (rw is_authority at rw other at h) in
        authority (same-eq _ _ is_authority) (differs _ _ (fail_if-none _ _ c.0))
          (fail_if-none _ _ c.1.0) (passes _ _ c.1.1.0) (ground (arith, fail_if-none _ _ c.1.1.1.0))
    | inr another ↦ elim (Bool-cases (same p.purpose purpose_signing)) [
      | inl is_signing ↦
          let c =
            first_error-none (signing_checks p) (rw is_signing at rw another at rw other at h) in
          signing (same-eq _ _ is_signing) (differs _ _ (fail_if-none _ _ c.0))
            (either_passes _ _ (fail_if-none _ _ c.1.0)).0 ((==_iff _ _).0 (passes _ _ c.1.1.0))
      | inr unknown ↦ absurd (unsupported (rw unknown at rw another at rw other at h))
    ]
  ]
]

-- What the loop over the handles of a role has claimed.
pub record Claims (r : Role) (hs : List Handle) (before after : Owners) : Type 0 where
  pub persistent : All (λ h. is_persistent h ≡ true) hs
  pub owns : (h : Handle) → has_handle hs h ≡ true → owner_of h after ≡ some r
  pub keeps : (h : Handle) (s : Role) → owner_of h before ≡ some s → owner_of h after ≡ some s

no_owner : (h : Handle) (r : Role) (o : Option Role) → shared_check h r o ≡ none → o ≡ none
no_owner h r none p = refl
no_owner h r (some s) p = cc

claim_handles-Claims :
    (r : Role) (hs local : List Handle) (before after : Owners)
    → claim_handles r hs local before ≡ done after
    → Claims r hs before after
unfolding claim_handles has_handle owner_of
claim_handles-Claims r [] local before after h = record {
  persistent = tt;
  owns = λ g p. cc;
  keeps = λ g s p. rw (← done-injective before after h) p;
}
claim_handles-Claims r (h ∷ hs) local before after q =
    let (passed, rest) = guard-done (first_error (handle_checks r h local before)) _ q in
    let c = first_error-none (handle_checks r h local before) passed in
    let fresh = no_owner h r (owner_of h before) c.1.1.0 in
    let later = claim_handles-Claims r hs (h ∷ local) ((h, r) ∷ before) after rest in
    record {
      persistent = (passes _ _ c.0, later.persistent);
      owns = λ g p. ground (arith, (==_iff g h).0, later.owns g, later.keeps g r);
      keeps = λ g s p. later.keeps g s (ground (arith, (==_iff g h).0));
    }

-- After the policies read so far: each handle of a role has that role for its owner.
record Collected (policies : Dict RolePolicy) (owners : Owners) : Type 0 where
  own_key : (r : Role) (p : RolePolicy) → lookup r policies ≡ some p → (p.role ≡ r) × IsPolicy p
  owned :
      (r : Role) (p : RolePolicy) (h : Handle)
      → lookup r policies ≡ some p
      → has_handle p.handles h ≡ true
      → owner_of h owners ≡ some r

Collected-IsWellFormed :
    (policies : Dict RolePolicy) (owners : Owners)
    → Collected policies owners
    → IsWellFormed policies
Collected-IsWellFormed policies owners c = record {
  own_key = c.own_key;
  disjoint = λ r s p q h at_r at_s in_p in_q. cc (c.owned r p h at_r in_p, c.owned s q h at_s in_q);
}

template_of :
    (o : Outcome Error Template) → algorithm_check o ≡ none → (t : Template) × (o ≡ done t)
template_of (done t) h = (t, refl)
template_of (failed e) h = cc

module _ (p : RolePolicy) (policies : Dict RolePolicy) (before after : Owners)
    (passed : first_error (policy_checks p policies) ≡ none)
    (claims : Claims p.role p.handles before after) (fits : FitsPurpose p) where
  IsPolicy-of : IsPolicy p
  IsPolicy-of =
      let c = first_error-none (policy_checks p policies) passed in
      record {
        purpose = fits;
        handles = ground (arith, fail_if-none _ _ c.1.1.1.0);
        persistent = claims.persistent;
        template = template_of (signing_template p.algorithm) c.1.1.0;
      }

  Collected-insert : Collected policies before → Collected (insert p.role p policies) after
  Collected-insert c = record {
    own_key = λ r q at. elim (inserted r p.role p q policies at) [
      | inl here ↦ rw here.1 (sym here.0, IsPolicy-of)
      | inr there ↦ c.own_key r q there.1
    ];
    owned = λ r q h at in_q. elim (inserted r p.role p q policies at) [
      | inl here ↦ rw here.0 (claims.owns h (rw here.1 at in_q))
      | inr there ↦ claims.keeps h r (c.owned r q h there.1 in_q)
    ];
  }

collect_policies-IsWellFormed :
    (ps : List RolePolicy) (policies : Dict RolePolicy) (owners : Owners) (order : List Role)
    (c : Configured)
    → Collected policies owners
    → collect_policies ps policies owners order ≡ done c
    → IsWellFormed c.policies
unfolding collect_policies
collect_policies-IsWellFormed [] policies owners order c h q =
    rw (← done-injective _ c q) (Collected-IsWellFormed policies owners h)
collect_policies-IsWellFormed (p ∷ ps) policies owners order c h q =
    let (passed, claiming) = guard-done (first_error (policy_checks p policies)) _ q in
    let (claimed, claims, checking) =
      >>=-done (claim_handles p.role p.handles [] owners) _ claiming in
    let (fits, rest) = guard-done (purpose_check p) _ checking in
    collect_policies-IsWellFormed ps (insert p.role p policies) claimed (order ++ p.role ∷ []) c
      (Collected-insert p policies owners claimed passed
        (claim_handles-Claims p.role p.handles [] owners claimed claims)
        (purpose_check-FitsPurpose p fits) h)
      rest

-- Policies are accepted only if each role stands under its own name with a purpose that fits it, has a
-- persistent handle and a supported algorithm, and shares no handle with another role.
pub validate_policies-IsWellFormed :
    (ps : List RolePolicy) (c : Configured)
    → validate_policies ps ≡ done c
    → IsWellFormed c.policies
unfolding validate_policies lookup
validate_policies-IsWellFormed ps c q =
    collect_policies-IsWellFormed ps [] [] [] c
      (record { own_key = λ r p h. cc; owned = λ r p h at. cc })
      (guard-done (fail_if (length ps == 0) Error.no_policies) _ q).1
