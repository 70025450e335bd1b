-- ===== src/KeyManager/Safety/Evict.antt =====
-- Retiring keys are evicted, and none of them is an active one.
use sovereignite.Base.{
  Bytes, same, same-eq, false, Option, some, List, [], ◌∷◌, ==_iff, All, Bool-cases, ◌≡◌, ◌≢◌, inl,
  inr, sym, ap, ◌∙◌, arith,
}
use sovereignite.Base.Dict.{lookup, lookup-insert_self, lookup-insert_other}
use sovereignite.Base.Effect.{
  Outcome, done, failed, Triple, pure_rule, raise_rule, modify_then, bind_rule, check_then,
  query_then,
}
use sovereignite.KeyManager.Error.{Error}
use sovereignite.KeyManager.Outcome.{done-injective}
use sovereignite.KeyManager.Policy.{Role, RolePolicy, has_handle}
use sovereignite.KeyManager.Policy.WellFormed.{IsWellFormed}
use sovereignite.KeyManager.Tpm.{Public}
use sovereignite.KeyManager.Snapshot.{
  KeyMetadata, RoleState, Snapshot, verify_public_metadata, object_reference,
}
use sovereignite.KeyManager.Snapshot.Validity.{IsRetiring, handles_of, IsValid}
use sovereignite.KeyManager.Machine.{
  TpmError, not_found, unreadable, Event, Setting, Keeping, record_eviction,
}
use sovereignite.KeyManager.Store.Laws.{IsCodec}
use sovereignite.KeyManager.Manager.Persist.{first_state, with_retired}
use sovereignite.KeyManager.Manager.Reconcile.{eviction_failure, evict_known, evict_all}
use sovereignite.KeyManager.Rules.{asked_then, check_rule, query_rule}
use sovereignite.KeyManager.Safety.{Harmless, Safe, Serving}

pub same_role : (a b : RoleState) → ◌≡◌ {A = Option RoleState} (some a) (some b) → a ≡ b
same_role a b k = cc

-- Every role keeps its active key.
pub record Keeps (s t : Snapshot) : Type 0 where
  pub active :
      (r : Role) (st : RoleState)
      → lookup r s.roles ≡ some st
      → (st' : RoleState) × (lookup r t.roles ≡ some st') × (st'.active ≡ st.active)

-- No active key of the snapshot is at the handle of this one.
abbrev pub Evictable : Snapshot → KeyMetadata → Type 0
Evictable s m =
    (r : Role) (st : RoleState) → lookup r s.roles ≡ some st → st.active.handle ≢ m.handle

pub Keeps-Evictable :
    (s t : Snapshot) (ms : List KeyMetadata)
    → Keeps s t
    → All (Evictable t) ms
    → All (Evictable s) ms
Keeps-Evictable s t [] k h = tt
Keeps-Evictable s t (m ∷ ms) k h = (
  λ r st found clash.
      let (st', found', key) = k.active r st found in
      h.0 r st' found' (ap (λ n. n.handle) key ∙ clash),
  Keeps-Evictable s t ms k h.1,
)

pub with_retired-Keeps :
    (s t : Snapshot) (r : Role) (st : RoleState)
    → Keeps s t
    → lookup r t.roles ≡ some st
    → Keeps s (with_retired r st t)
with_retired-Keeps s t r st k e = record {
  active = λ j sj found.
      let (st', found', key) = k.active j sj found in
      elim (Bool-cases (same j r)) [
        | inl x ↦ rw (same-eq j r x) (
          first_state st.active,
          lookup-insert_self r (first_state st.active) t.roles,
          ap (λ u. u.active) (same_role st st' (sym e ∙ rw (same-eq j r x) at found')) ∙ key,
        )
        | inr x ↦ (st', lookup-insert_other j r (first_state st.active) t.roles x ∙ found', key)
      ];
}

module _ (S : Setting) (c : IsCodec S) (well_formed : IsWellFormed S.configured.policies) where
  pub retiring-Evictable :
      (s : Snapshot) (r : Role) (st : RoleState)
      → IsValid S.configured.policies s
      → lookup r s.roles ≡ some st
      → All (Evictable s) st.retiring
  unfolding has_handle
  retiring-Evictable s r st v found =
      let (p, policy, state) = v.roles r st found in
      each p policy st.retiring state.retiring state.distinct.0
    where
      each :
          (p : RolePolicy)
          → lookup r S.configured.policies ≡ some p
          → (ms : List KeyMetadata) → All (IsRetiring r p st.active) ms
          → has_handle (handles_of ms) st.active.handle ≡ false
          → All (Evictable s) ms
      each p policy [] h f = tt
      each p policy (m ∷ ms) h f = (
        λ j sj found' clash.
            let (q, policy', state') = v.roles j sj found' in
            let own =
              well_formed.disjoint j r q p m.handle policy' policy
                (rw (← clash) state'.active.handle) h.0.key.handle in
            let here : st ≡ sj = same_role st sj (sym found ∙ rw own at found') in
            cc (
              rw ((==_iff st.active.handle m.handle).1 (ap (λ u. u.active.handle) here ∙ clash)) at
                f),
        each p policy ms h.1 (ground (arith, f)),
      )

  module _ (from : Option Bytes) where
    evicts-Harmless :
        (s : Snapshot) (m : KeyMetadata) (d : Keeping)
        → Evictable s m
        → Serving S from s d
        → Harmless S (Event.evicts (object_reference m) d.file)
    evicts-Harmless s m d e k t r st reads found =
        let (u, reads', alike) = k.mirror in
        let here : u ≡ t = done-injective u t (sym reads' ∙ reads) in
        e r st (alike.roles r ∙ rw here found)

    evict_known_rule :
        (s : Snapshot) (m : KeyMetadata) (answer : Outcome TpmError Public)
        → Evictable s m
        → Triple
            (Serving S from s)
            (evict_known S m answer)
            (λ _. Serving S from s)
            (λ _. Safe S from)
    evict_known_rule s m (failed not_found) e = pure_rule tt (λ d k. k)
    evict_known_rule s m (failed (unreadable n)) e = raise_rule (Error.foreign n) (λ d k. k.safe)
    evict_known_rule s m (done public) e =
        check_then (verify_public_metadata m public) _ (λ e q d k. k.safe)
          λ _.
            bind_rule (λ _. Serving S from s) _ _
              (modify_then (Serving S from s) (record_eviction (object_reference m)) _
                (λ d k. record {
                  loaded = k.loaded;
                  memory = k.memory;
                  valid = k.valid;
                  mirror = k.mirror;
                  safe = record {
                    progress = k.safe.progress;
                    trace = (evicts-Harmless s m d e k, k.safe.trace);
                  };
                })
                (query_rule (S.evict_persistent (object_reference m))))
              (λ answer. check_rule (eviction_failure answer) (λ e q d k. k.safe) (λ q d k. k))

    pub evict_all_rule :
        (s : Snapshot) (ms : List KeyMetadata)
        → All (Evictable s) ms
        → Triple (Serving S from s) (evict_all S ms) (λ _. Serving S from s) (λ _. Safe S from)
    unfolding evict_all
    evict_all_rule s [] e = pure_rule tt (λ d k. k)
    evict_all_rule s (m ∷ ms) e =
        asked_then S.context_err _ (λ n d k. k.safe)
          (query_then (S.read_public m.handle) _ λ answer.
            bind_rule (λ _. Serving S from s) (evict_known S m answer) _
              (evict_known_rule s m answer e.0) (λ _. evict_all_rule s ms e.1))
