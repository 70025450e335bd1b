-- ===== src/KeyManager/Safety/Reconcile.antt =====
-- Recovery after a creation that was cut short: what is pending is adopted or dropped.
use sovereignite.Base.{
  Bytes, true, false, not, ◌||◌, Option, none, some, List, [], ◌∷◌, length, ◌==◌, ◌≡◌, ◌⊎◌, inl,
  inr, refl, sym, ◌∙◌, arith,
}
use sovereignite.Base.Dict.{lookup}
use sovereignite.Base.Effect.{
  Outcome, done, failed, get, ◌>>=◌, Triple, weaken, if_rule, pure_rule, raise_rule, bind_rule,
  lift_then, check_then, get_then, query_then, fact_rule,
}
use sovereignite.KeyManager.Error.{Error}
use sovereignite.KeyManager.Policy.{Role}
use sovereignite.KeyManager.Policy.WellFormed.{IsWellFormed}
use sovereignite.KeyManager.Tpm.{Public}
use sovereignite.KeyManager.Snapshot.{
  KeyMetadata, Snapshot, increment_revision, verify_public_metadata,
}
use sovereignite.KeyManager.Snapshot.Validity.{IsValid}
use sovereignite.KeyManager.Snapshot.Advance.{
  Advances, Advances-trans, revised, same_roles-Advances,
}
use sovereignite.KeyManager.Snapshot.Changes.{
  clone-IsValid, without_intent-IsValid, with_active-IsValid, with_active-Advances,
}
use sovereignite.KeyManager.Machine.{TpmError, not_found, unreadable, Setting, Keeping, Run}
use sovereignite.KeyManager.Store.Laws.{IsCodec}
use sovereignite.KeyManager.Manager.Persist.{
  clone, adopting, with_active, without_intent, capacity_check, persist,
}
use sovereignite.KeyManager.Manager.Reconcile.{
  Draft, adopt_or_drop, settle, settle_all, persist_draft, settle_pending, reconcile_pending,
}
use sovereignite.KeyManager.Rules.{asked_then}
use sovereignite.KeyManager.Safety.{Safe, Serving, Ready}
use sovereignite.KeyManager.Safety.Persist.{Either, persist_draft_rule}

module _ (S : Setting) (c : IsCodec S) (well_formed : IsWellFormed S.configured.policies) where
  -- A snapshot that the manager is about to write.
  pub record IsDraft (s : Snapshot) (d : Draft) : Type 0 where
    pub valid : IsValid S.configured.policies d.next
    pub advances : Advances S.configured.policies s d.next
    pub same_revision : d.next.revision ≡ s.revision

  pub cloned-IsDraft :
      (s : Snapshot)
      → IsValid S.configured.policies s
      → IsDraft s (record { next = clone s; changed = false })
  cloned-IsDraft s v = record {
    valid = clone-IsValid S.configured.policies s v;
    advances = same_roles-Advances S.configured.policies s (clone s) (omega arith) refl;
    same_revision = refl;
  }

  module _ (from : Option Bytes) where
    pub Either-Safe : (s t : Snapshot) (d : Keeping) → Either S c from s t d → Safe S from d
    Either-Safe s t d (inl k) = k.safe
    Either-Safe s t d (inr k) = k.safe

    -- Writing it if it has changed.
    pub persist_draft-Serving :
        (s : Snapshot) (draft : Draft)
        → IsDraft s draft
        → Triple
            (Serving S from s)
            (persist_draft S draft)
            (λ _ d. Serving S from s d ⊎ Serving S from (revised draft.next) d)
            (λ _. Safe S from)
    persist_draft-Serving s draft k =
        if_rule draft.changed _ _
          (λ _.
            lift_then (increment_revision draft.next) _ (λ e q d k. k.safe)
              λ next inc.
                weaken (persist S next)
                  (persist_draft_rule S c from s draft.next k.valid k.same_revision k.advances next
                    inc)
                  (λ d k. k) (λ _ d k. inr k) (λ _ d k. Either-Safe s (revised draft.next) d k))
          (λ _. pure_rule tt (λ d k. inl k))

    adopt_or_drop_rule :
        (s : Snapshot) (r : Role) (m : KeyMetadata) (draft : Draft)
        (answer : Outcome TpmError Public)
        → IsDraft s draft
        → lookup r draft.next.pending ≡ some m
        → Triple
            (Serving S from s)
            (adopt_or_drop S r m draft.next answer)
            (λ t d. IsDraft s (record { next = t; changed = true }) × Serving S from s d)
            (λ _. Safe S from)
    adopt_or_drop_rule s r m draft (failed (unreadable n)) k e =
        raise_rule (Error.foreign n) (λ d k. k.safe)
    adopt_or_drop_rule s r m draft (failed not_found) k e =
        pure_rule (without_intent r draft.next) λ d serving. (
          record {
            valid = without_intent-IsValid S.configured.policies draft.next r k.valid;
            advances =
                Advances-trans S.configured.policies s draft.next (without_intent r draft.next)
                  k.advances
                  (same_roles-Advances S.configured.policies draft.next
                    (without_intent r draft.next) (omega arith) refl);
            same_revision = k.same_revision;
          },
          serving,
        )
    adopt_or_drop_rule s r m draft (done public) k e =
        let next = with_active r (adopting m (lookup r draft.next.roles)) draft.next in
        check_then (verify_public_metadata m public) _ (λ e q d k. k.safe)
          λ _. pure_rule next λ d serving. (
            record {
              valid = with_active-IsValid S.configured.policies draft.next r m k.valid e;
              advances =
                  Advances-trans S.configured.policies s draft.next next k.advances
                    (with_active-Advances S.configured.policies draft.next r m k.valid e);
              same_revision = k.same_revision;
            },
            serving,
          )

    settle_rule :
        (s : Snapshot) (r : Role) (o : Option KeyMetadata) (draft : Draft)
        → IsDraft s draft
        → lookup r draft.next.pending ≡ o
        → Triple
            (Serving S from s)
            (settle S r o draft)
            (λ t d. IsDraft s t × Serving S from s d)
            (λ _. Safe S from)
    settle_rule s r none draft k e = pure_rule draft (λ d serving. (k, serving))
    settle_rule s r (some m) draft k e =
        asked_then S.context_err _ (λ n d k. k.safe)
          (query_then (S.read_public m.handle) _ λ answer.
            bind_rule _ (adopt_or_drop S r m draft.next answer) _
              (adopt_or_drop_rule s r m draft answer k e) (λ t. pure_rule _ (λ d k. k)))

    settle_all_rule :
        (s : Snapshot) (rs : List Role) (draft : Draft)
        → IsDraft s draft
        → Triple
            (Serving S from s)
            (settle_all S rs draft)
            (λ t d. IsDraft s t × Serving S from s d)
            (λ _. Safe S from)
    unfolding settle_all
    settle_all_rule s [] draft k = pure_rule draft (λ d serving. (k, serving))
    settle_all_rule s (r ∷ rs) draft k =
        bind_rule (λ t d. IsDraft s t × Serving S from s d)
          (settle S r (lookup r draft.next.pending) draft) _
          (settle_rule s r (lookup r draft.next.pending) draft k refl)
          (λ t. fact_rule (settle_all S rs t) (λ k. settle_all_rule s rs t k))

    -- A step that starts with the memory of the manager.
    pub served_then :
        {B : Type 0} {R : B → Keeping → Type 0} {F : Error → Keeping → Type 0}
        (f : Snapshot → Run S B)
        → ((s : Snapshot) → IsValid S.configured.policies s → Triple (Serving S from s) (f s) R F)
        → Triple (Ready S from) (get (λ d. d.memory) >>= f) R F
    served_then f k =
        get_then (λ d. d.memory) f
          λ s.
            weaken (f s) (fact_rule (f s) (k s))
              (λ d h.
                let here : h.0.snapshot ≡ s = sym h.0.serving.memory ∙ h.1 in
                (rw here at h.0.serving.valid, rw here at h.0.serving))
              (λ x d k. k) (λ e d k. k)

    pub reconcile_pending_rule :
        Triple (Ready S from) (reconcile_pending S) (λ _. Ready S from) (λ _. Safe S from)
    unfolding reconcile_pending
    reconcile_pending_rule =
        get_then (λ d. d.loaded) _
          λ loaded.
            weaken _
              (served_then _ λ s v.
                if_rule (not loaded || length s.pending == 0) _ _
                  (λ _. pure_rule tt (λ d k. record { snapshot = s; serving = k }))
                  (λ _. settle_pending_rule s v))
              (λ d k. k.0) (λ x d k. k) (λ e d k. k)
      where
        settle_pending_rule :
            (s : Snapshot)
            → IsValid S.configured.policies s
            → Triple (Serving S from s) (settle_pending S s) (λ _. Ready S from) (λ _. Safe S from)
        settle_pending_rule s v =
            check_then (capacity_check 1 s) _ (λ e q d k. k.safe)
              λ _.
                bind_rule (λ t d. IsDraft s t × Serving S from s d) _ _
                  (settle_all_rule s S.configured.order _ (cloned-IsDraft s v))
                  (λ t. fact_rule (persist_draft S t) λ k.
                    weaken (persist_draft S t) (persist_draft-Serving s t k) (λ d k. k)
                      (λ _ d k. elim k [
                        | inl k ↦ record { snapshot = s; serving = k }
                        | inr k ↦ record { snapshot = revised t.next; serving = k }
                      ])
                      (λ _ d k. k))
