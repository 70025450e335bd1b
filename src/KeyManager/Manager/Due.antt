-- ===== src/KeyManager/Manager/Due.antt =====
-- The roles that the scheduler rotates.
use sovereignite.Base.{
  same, ℕ, ◌≤◌, Bool, true, false, not, ◌&&◌, ◌||◌, Option, none, some, List, [], ◌∷◌, ◌≡◌, ◌↔◌,
  inl, inr, refl, sym, ◌∙◌, same_refl, same-eq, Bool-cases, &&-true, arith,
}
use sovereignite.Base.Dict.{Dict, lookup}
use sovereignite.Base.Int.{is_positive, shifted}
use sovereignite.KeyManager.Policy.{Role, RolePolicy}
use sovereignite.KeyManager.Snapshot.{RoleState, is_lifetime}
use sovereignite.KeyManager.Manager.Rotation.{is_due, filter_due}

-- A role whose key has lived for the interval of its policy.
pub record IsDue (policies : Dict RolePolicy) (roles : Dict RoleState) (now : ℕ) (r : Role)
    : Type 0 where
  pub policy : RolePolicy
  pub configured : lookup r policies ≡ some policy
  pub rotates : is_lifetime r policy ≡ false
  pub interval : is_positive policy.rotation_interval ≡ true
  pub state : RoleState
  pub initialized : lookup r roles ≡ some state
  pub elapsed : shifted state.active.created_at policy.rotation_interval ≤ now

is_due-IsDue :
    (policies : Dict RolePolicy) (roles : Dict RoleState) (now : ℕ) (r : Role)
    (o : Option RolePolicy) (q : Option RoleState)
    → lookup r policies ≡ o
    → lookup r roles ≡ q
    → is_due r o q now ≡ true
    → IsDue policies roles now r
is_due-IsDue policies roles now r none q f g h = cc
is_due-IsDue policies roles now r (some p) none f g h = cc
is_due-IsDue policies roles now r (some p) (some st) f g h =
    let (a, b, c) = three _ _ _ h in
    record {
      policy = p;
      configured = f;
      rotates = a;
      interval = b;
      state = st;
      initialized = g;
      elapsed = ground (arith, c);
    }
  where
    three : (a b c : Bool) → not a && b && not c ≡ true → (a ≡ false) × (b ≡ true) × (c ≡ false)
    three a b c h = ground arith

IsDue-is_due :
    (policies : Dict RolePolicy) (roles : Dict RoleState) (now : ℕ) (r : Role)
    → IsDue policies roles now r
    → is_due r (lookup r policies) (lookup r roles) now ≡ true
IsDue-is_due policies roles now r h =
    rw (h.configured, h.initialized, h.rotates, h.interval) (ground (arith, h.elapsed))

abbrev pub includes : List Role → Role → Bool
includes [] r = false
includes (j ∷ rs) r = same r j || includes rs r

abbrev due : Dict RolePolicy → Dict RoleState → ℕ → Role → Bool
due policies roles now r = is_due r (lookup r policies) (lookup r roles) now

filter_due-includes :
    (policies : Dict RolePolicy) (roles : Dict RoleState) (now : ℕ) (rs : List Role) (r : Role)
    → includes (filter_due policies roles now rs) r ≡ (includes rs r && due policies roles now r)
unfolding filter_due
filter_due-includes policies roles now [] r = refl
filter_due-includes policies roles now (j ∷ rs) r =
    let later = filter_due-includes policies roles now rs r in
    elim (Bool-cases (same r j)) [
      | inl e ↦ rw (e, ← same-eq r j e) (ground (arith, later, same_refl r))
      | inr e ↦ rw e (ground (arith, later))
    ]

-- A role is due for the scheduler when it is one of the configured ones, its policy lets it rotate and has a positive
-- interval, the role has a key, and that interval has passed since the key was created. No other role is due.
pub filter_due_iff :
    (policies : Dict RolePolicy) (roles : Dict RoleState) (now : ℕ) (rs : List Role) (r : Role)
    → (includes (filter_due policies roles now rs) r ≡ true)
      ↔ ((includes rs r ≡ true) × IsDue policies roles now r)
filter_due_iff policies roles now rs r =
    let e = filter_due-includes policies roles now rs r in
    (
      (λ h.
          let both = &&-true (includes rs r) (due policies roles now r) (sym e ∙ h) in
          (
            both.0,
            is_due-IsDue policies roles now r (lookup r policies) (lookup r roles) refl refl both.1,
          )),
      (λ h. e ∙ rw (h.0, IsDue-is_due policies roles now r h.1) refl),
    )
