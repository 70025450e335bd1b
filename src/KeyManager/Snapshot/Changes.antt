-- ===== src/KeyManager/Snapshot/Changes.antt =====
-- The changes that the manager makes to a snapshot keep it valid and go forward.
use sovereignite.Base.{
  same, same-eq, Option, none, some, Bool-cases, ◌≡◌, inl, inr, refl, sym, ap, ◌∙◌, arith,
}
use sovereignite.Base.Dict.{
  Dict, lookup, insert-Unique, erase-Unique, lookup-insert_self, lookup-insert_other, inserted,
  erased,
}
use sovereignite.KeyManager.Policy.{Role, RolePolicy}
use sovereignite.KeyManager.Snapshot.{KeyMetadata, RoleState, Snapshot}
use sovereignite.KeyManager.Snapshot.Validity.{IsRoleState, IsIntent, Fits, IsValid}
use sovereignite.KeyManager.Snapshot.Advance.{Follows, Advances}
use sovereignite.KeyManager.Manager.Persist.{
  clone, with_intent, first_state, adopting, with_active, without_intent, with_retired,
}
use sovereignite.KeyManager.Snapshot.Succession.{
  adopting-IsRoleState, same_state, retired-IsRoleState, retired-IsIntent,
}

module _ (policies : Dict RolePolicy) where
  -- A role has one policy.
  pub Fits-at :
      (r : Role) (p : RolePolicy) (Q : RolePolicy → Type 0)
      → lookup r policies ≡ some p
      → Fits policies r Q
      → Q p
  Fits-at r p Q e (q, found, x) = rw (one_policy p q (sym e ∙ found)) x
    where
      one_policy : (p q : RolePolicy) → ◌≡◌ {A = Option RolePolicy} (some p) (some q) → p ≡ q
      one_policy p q k = cc

  adopted-Follows :
      (r : Role) (p : RolePolicy) (o : Option RoleState) (st : RoleState) (m : KeyMetadata)
      → lookup r policies ≡ some p
      → IsIntent r p o m
      → o ≡ some st
      → Follows policies r st.active (adopting m o).active
  adopted-Follows r p none st m e i k = cc
  adopted-Follows r p (some st') st m e i k =
      rw (sym (same_state st' st k)) (inr (omega (arith, i.next.2), (p, e, i.next.0)))

  same_key :
      (r : Role) (a b : RoleState)
      → ◌≡◌ {A = Option RoleState} (some a) (some b)
      → Follows policies r b.active a.active
  same_key r a b k = inl (ap (λ st. st.active) (same_state a b k))

  retired-Fits :
      (r : Role) (st : RoleState) (o : Option RoleState) (n : KeyMetadata)
      → o ≡ some st
      → Fits policies r (λ q. IsIntent r q o n)
      → Fits policies r (λ q. IsIntent r q (some (first_state st.active)) n)
  retired-Fits r st o n e (q, found, i) = (q, found, retired-IsIntent r q st n (rw e at i))

  pub clone-IsValid : (s : Snapshot) → IsValid policies s → IsValid policies (clone s)
  clone-IsValid s h = record {
    version = h.version;
    has_roles = refl;
    unique_roles = h.unique_roles;
    unique_pending = h.unique_pending;
    roles = h.roles;
    pending = h.pending;
  }

  pub with_intent-IsValid :
      (s : Snapshot) (r : Role) (p : RolePolicy) (m : KeyMetadata)
      → IsValid policies s
      → lookup r policies ≡ some p
      → IsIntent r p (lookup r s.roles) m
      → IsValid policies (with_intent r m s)
  with_intent-IsValid s r p m h e i = record {
    version = h.version;
    has_roles = h.has_roles;
    unique_roles = h.unique_roles;
    unique_pending = insert-Unique r m s.pending h.unique_pending;
    roles = h.roles;
    pending = λ j n k. elim (inserted j r m n s.pending k) [
      | inl x ↦ rw (x.0, x.1) (p, e, i)
      | inr x ↦ h.pending j n x.1
    ];
  }

  pub without_intent-IsValid :
      (s : Snapshot) (r : Role) → IsValid policies s → IsValid policies (without_intent r s)
  without_intent-IsValid s r h = record {
    version = h.version;
    has_roles = h.has_roles;
    unique_roles = h.unique_roles;
    unique_pending = erase-Unique r s.pending h.unique_pending;
    roles = h.roles;
    pending = λ j n k. h.pending j n (erased j r n s.pending k).1;
  }

  pub with_active-IsValid :
      (s : Snapshot) (r : Role) (m : KeyMetadata)
      → IsValid policies s
      → lookup r s.pending ≡ some m
      → IsValid policies (with_active r (adopting m (lookup r s.roles)) s)
  with_active-IsValid s r m h e =
      let (p, found, i) = h.pending r m e in
      let st = adopting m (lookup r s.roles) in
      record {
        version = h.version;
        has_roles = h.has_roles;
        unique_roles = insert-Unique r st s.roles h.unique_roles;
        unique_pending = erase-Unique r s.pending h.unique_pending;
        roles = λ j sj k. elim (inserted j r st sj s.roles k) [
          | inl x ↦
              rw (x.0, x.1)
                (
                  p,
                  found,
                  adopting-IsRoleState r p (lookup r s.roles) m
                      (λ st' k'. Fits-at r p (λ q. IsRoleState r q st') found (h.roles r st' k')) i,
                )
          | inr x ↦ h.roles j sj x.1
        ];
        pending = λ j n k.
            let (other, before) = erased j r n s.pending k in
            rw (lookup-insert_other j r st s.roles other) (h.pending j n before);
      }

  adopting-Advances :
      (s : Snapshot) (r : Role) (p : RolePolicy) (m : KeyMetadata)
      → lookup r policies ≡ some p
      → IsIntent r p (lookup r s.roles) m
      → Advances policies s (with_active r (adopting m (lookup r s.roles)) s)
  adopting-Advances s r p m e i =
      let st = adopting m (lookup r s.roles) in
      record {
        revision = omega arith;
        keys = λ j sj k. elim (Bool-cases (same j r)) [
          | inl x ↦ rw (same-eq j r x) (
            st,
            lookup-insert_self r st s.roles,
            adopted-Follows r p (lookup r s.roles) sj m e i (rw (same-eq j r x) at k),
          )
          | inr x ↦ (sj, lookup-insert_other j r st s.roles x ∙ k, inl refl)
        ];
      }

  pub with_active-Advances :
      (s : Snapshot) (r : Role) (m : KeyMetadata)
      → IsValid policies s
      → lookup r s.pending ≡ some m
      → Advances policies s (with_active r (adopting m (lookup r s.roles)) s)
  with_active-Advances s r m h e =
      let (p, found, i) = h.pending r m e in adopting-Advances s r p m found i

  pub with_retired-IsValid :
      (s : Snapshot) (r : Role) (st : RoleState)
      → IsValid policies s
      → lookup r s.roles ≡ some st
      → IsValid policies (with_retired r st s)
  with_retired-IsValid s r st h e =
      let (p, found, valid) = h.roles r st e in
      record {
        version = h.version;
        has_roles = h.has_roles;
        unique_roles = insert-Unique r (first_state st.active) s.roles h.unique_roles;
        unique_pending = h.unique_pending;
        roles = λ j sj k. elim (inserted j r (first_state st.active) sj s.roles k) [
          | inl x ↦ rw (x.0, x.1) (p, found, retired-IsRoleState r p st valid)
          | inr x ↦ h.roles j sj x.1
        ];
        pending = λ j n k. elim (Bool-cases (same j r)) [
          | inl x ↦
              rw (same-eq j r x, lookup-insert_self r (first_state st.active) s.roles)
                (retired-Fits r st (lookup r s.roles) n e (h.pending r n (rw (same-eq j r x) at k)))
          | inr x ↦ rw (lookup-insert_other j r (first_state st.active) s.roles x) (h.pending j n k)
        ];
      }

  pub with_retired-Advances :
      (s : Snapshot) (r : Role) (st : RoleState)
      → lookup r s.roles ≡ some st
      → Advances policies s (with_retired r st s)
  with_retired-Advances s r st e = record {
    revision = omega arith;
    keys = λ j sj k. elim (Bool-cases (same j r)) [
      | inl x ↦ rw (same-eq j r x) (
        first_state st.active,
        lookup-insert_self r (first_state st.active) s.roles,
        same_key r st sj (sym e ∙ rw (same-eq j r x) at k),
      )
      | inr x ↦ (sj, lookup-insert_other j r (first_state st.active) s.roles x ∙ k, inl refl)
    ];
  }
