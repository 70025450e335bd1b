-- ===== src/KeyManager/Snapshot/Advance.antt =====
-- How snapshots follow each other: no role loses its key, an active key is replaced only by one of a
-- higher generation, and that of a lifetime role never.
use sovereignite.Base.{◌+◌, ◌≤◌, ◌<◌, false, some, ◌≡◌, ◌⊎◌, inl, inr, refl, sym, ◌∙◌, arith}
use sovereignite.Base.Dict.{Dict, lookup, Unique}
use sovereignite.KeyManager.Policy.{Role, RolePolicy}
use sovereignite.KeyManager.Snapshot.{KeyMetadata, RoleState, Snapshot, is_lifetime}
use sovereignite.KeyManager.Snapshot.Validity.{Fits, IsValid}

-- The same snapshot up to the order of its entries.
pub record Same (s t : Snapshot) : Type 0 where
  pub version : s.version ≡ t.version
  pub revision : s.revision ≡ t.revision
  pub has_roles : s.has_roles ≡ t.has_roles
  pub roles : (r : Role) → lookup r s.roles ≡ lookup r t.roles
  pub pending : (r : Role) → lookup r s.pending ≡ lookup r t.pending

pub Same-refl : (s : Snapshot) → Same s s
Same-refl s = record {
  version = refl;
  revision = refl;
  has_roles = refl;
  roles = λ r. refl;
  pending = λ r. refl;
}

pub Same-sym : (s t : Snapshot) → Same s t → Same t s
Same-sym s t h = record {
  version = sym h.version;
  revision = sym h.revision;
  has_roles = sym h.has_roles;
  roles = λ r. sym (h.roles r);
  pending = λ r. sym (h.pending r);
}

-- One more revision changes nothing else.
abbrev pub revised : Snapshot → Snapshot
revised s = record s { revision = s.revision + 1 }

module _ (policies : Dict RolePolicy) where
  abbrev pub Rotates : Role → Type 0
  Rotates r = Fits policies r (λ p. is_lifetime r p ≡ false)

  -- The active key of a role, later.
  abbrev pub Follows : Role → KeyMetadata → KeyMetadata → Type 0
  Follows r before after = (after ≡ before) ⊎ ((before.generation < after.generation) × Rotates r)

  pub record Advances (s t : Snapshot) : Type 0 where
    pub revision : s.revision ≤ t.revision
    pub keys :
        (r : Role) (st : RoleState)
        → lookup r s.roles ≡ some st
        → (st' : RoleState) × (lookup r t.roles ≡ some st') × Follows r st.active st'.active

  Follows-trans : (r : Role) (a b c : KeyMetadata) → Follows r a b → Follows r b c → Follows r a c
  Follows-trans r a b c h (inl e) = rw e h
  Follows-trans r a b c (inl e) (inr h) = inr (rw (← e) h.0, h.1)
  Follows-trans r a b c (inr h) (inr k) = inr (omega (arith, h.0, k.0), h.1)

  pub Advances-refl : (s : Snapshot) → Advances s s
  Advances-refl s = record { revision = omega arith; keys = λ r st h. (st, h, inl refl) }

  pub Advances-trans : (s t u : Snapshot) → Advances s t → Advances t u → Advances s u
  Advances-trans s t u a b = record {
    revision = omega (arith, a.revision, b.revision);
    keys = λ r st h.
        let (st1, h1, f1) = a.keys r st h in
        let (st2, h2, f2) = b.keys r st1 h1 in
        (st2, h2, Follows-trans r st.active st1.active st2.active f1 f2);
  }

  -- Equal snapshots, the order of the entries apart, are followed by the same ones.
  pub Same-Advances : (s s' t t' : Snapshot) → Same s s' → Same t t' → Advances s t → Advances s' t'
  Same-Advances s s' t t' p q a = record {
    revision = omega (arith, a.revision, p.revision, q.revision);
    keys =
        λ r st h. let (st1, h1, f) = a.keys r st (p.roles r ∙ h) in (st1, sym (q.roles r) ∙ h1, f);
  }

  pub Same-IsValid :
      (s t : Snapshot)
      → Same s t
      → Unique t.roles
      → Unique t.pending
      → IsValid policies s
      → IsValid policies t
  Same-IsValid s t q u v h = record {
    version = sym q.version ∙ h.version;
    has_roles = sym q.has_roles ∙ h.has_roles;
    unique_roles = u;
    unique_pending = v;
    roles = λ r st k. h.roles r st (q.roles r ∙ k);
    pending = λ r m k. rw (← q.roles r) (h.pending r m (q.pending r ∙ k));
  }

  pub revised-IsValid : (s : Snapshot) → IsValid policies s → IsValid policies (revised s)
  revised-IsValid s h = record {
    version = h.version;
    has_roles = h.has_roles;
    unique_roles = h.unique_roles;
    unique_pending = h.unique_pending;
    roles = h.roles;
    pending = h.pending;
  }

  -- A snapshot with the same roles and the same revision or a later one.
  pub same_roles-Advances :
      (s t : Snapshot) → s.revision ≤ t.revision → s.roles ≡ t.roles → Advances s t
  same_roles-Advances s t le e = record {
    revision = le;
    keys = λ r st h. (st, rw (← e) h, inl refl);
  }

  pub Follows-generation :
      (r : Role) (a b : KeyMetadata) → Follows r a b → a.generation ≤ b.generation
  Follows-generation r a b (inl e) = rw e (omega arith)
  Follows-generation r a b (inr h) = omega (arith, h.0)
