-- ===== src/KeyManager/Snapshot/Succession.antt =====
-- The state of a role after its next key, or without its retiring ones.
use sovereignite.Base.{
  ◌<◌, false, Option, none, some, List, [], ◌∷◌, ◌++◌, All, ◌≡◌, refl, ◌∙◌, arith,
}
use sovereignite.KeyManager.Policy.{Role, RolePolicy, has_handle}
use sovereignite.KeyManager.Tpm.{Handle}
use sovereignite.KeyManager.Snapshot.{KeyMetadata, RoleState}
use sovereignite.KeyManager.Snapshot.Validity.{
  IsKeyOf, IsRetiring, handles_of, Distinct, IsRoleState, IsIntent,
}
use sovereignite.KeyManager.Manager.Persist.{first_state, adopting}

-- Handles of a list with one more key at its end.
pub has_handle-snoc :
    (ms : List KeyMetadata) (m : KeyMetadata) (h : Handle)
    → has_handle (handles_of (ms ++ m ∷ [])) h ≡ has_handle (m.handle ∷ handles_of ms) h
unfolding has_handle
has_handle-snoc [] m h = refl
has_handle-snoc (n ∷ ms) m h = ground (arith, has_handle-snoc ms m h)

pub Distinct-snoc :
    (ms : List KeyMetadata) (m : KeyMetadata)
    → has_handle (handles_of ms) m.handle ≡ false
    → Distinct (handles_of ms)
    → Distinct (handles_of (ms ++ m ∷ []))
unfolding has_handle
Distinct-snoc [] m f d = (refl, tt)
Distinct-snoc (n ∷ ms) m f d = (
  ground (arith, has_handle-snoc ms m n.handle, f, d.0),
  Distinct-snoc ms m (ground (arith, f)) d.1,
)

pub older-snoc :
    (r : Role) (p : RolePolicy) (old new : KeyMetadata) (ms : List KeyMetadata)
    → old.generation < new.generation
    → IsKeyOf r p old
    → All (IsRetiring r p old) ms
    → All (IsRetiring r p new) (ms ++ old ∷ [])
older-snoc r p old new [] lt k h = (record { key = k; older = lt }, tt)
older-snoc r p old new (m ∷ ms) lt k h = (
  record { key = h.0.key; older = omega (arith, h.0.older, lt) },
  older-snoc r p old new ms lt k h.1,
)

-- A role whose intent is carried out has a state that the policy allows.
pub adopting-IsRoleState :
    (r : Role) (p : RolePolicy) (o : Option RoleState) (m : KeyMetadata)
    → ((st : RoleState) → o ≡ some st → IsRoleState r p st)
    → IsIntent r p o m
    → IsRoleState r p (adopting m o)
unfolding has_handle
adopting-IsRoleState r p none m h i = record {
  active = i.key;
  retiring = tt;
  distinct = (refl, tt);
  lifetime = λ k. (i.next, refl);
}
adopting-IsRoleState r p (some st) m h i =
    let old = h st refl in
    record {
      active = i.key;
      retiring =
          older-snoc r p st.active m st.retiring (omega (arith, i.next.2)) old.active old.retiring;
      distinct = (
        has_handle-snoc st.retiring st.active m.handle ∙ i.next.3,
        Distinct-snoc st.retiring st.active old.distinct.0 old.distinct.1,
      );
      lifetime = λ k. cc (rw k at i.next.0);
    }

pub same_state : (a b : RoleState) → ◌≡◌ {A = Option RoleState} (some a) (some b) → a ≡ b
same_state a b k = cc

-- Without its retiring keys.
pub retired-IsRoleState :
    (r : Role) (p : RolePolicy) (st : RoleState)
    → IsRoleState r p st
    → IsRoleState r p (first_state st.active)
unfolding has_handle
retired-IsRoleState r p st h = record {
  active = h.active;
  retiring = tt;
  distinct = (refl, tt);
  lifetime = λ k. ((h.lifetime k).0, refl);
}

pub retired-IsIntent :
    (r : Role) (p : RolePolicy) (st : RoleState) (m : KeyMetadata)
    → IsIntent r p (some st) m
    → IsIntent r p (some (first_state st.active)) m
unfolding has_handle
retired-IsIntent r p st m i = record {
  key = i.key;
  next = (i.next.0, i.next.1, i.next.2, ground (arith, i.next.3));
}
