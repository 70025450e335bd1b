-- ===== src/KeyManager/Safety/Retiring.antt =====
-- Retirement evicts retiring keys only, and every role keeps its active key.
use sovereignite.Base.{
  Bytes, Option, none, some, List, [], ◌∷◌, length, ◌==◌, ◌≡◌, inl, inr, refl, sym, ◌∙◌,
}
use sovereignite.Base.Dict.{lookup}
use sovereignite.Base.Effect.{Triple, weaken, if_rule, pure_rule, bind_rule, get_then, fact_rule}
use sovereignite.KeyManager.Policy.{Role}
use sovereignite.KeyManager.Policy.WellFormed.{IsWellFormed}
use sovereignite.KeyManager.Snapshot.{RoleState, Snapshot}
use sovereignite.KeyManager.Snapshot.Validity.{IsValid}
use sovereignite.KeyManager.Snapshot.Advance.{Advances-trans, revised}
use sovereignite.KeyManager.Snapshot.Changes.{with_retired-IsValid, with_retired-Advances}
use sovereignite.KeyManager.Machine.{Setting, Keeping}
use sovereignite.KeyManager.Store.Laws.{IsCodec}
use sovereignite.KeyManager.Manager.Persist.{with_retired, capacity_check}
use sovereignite.KeyManager.Manager.Reconcile.{
  Draft, has_retiring, persist_draft, evict_all, retire, retire_all, retire_from,
  reconcile_retiring,
}
use sovereignite.KeyManager.Rules.{check_rule}
use sovereignite.KeyManager.Safety.{Safe, Serving, Ready}
use sovereignite.KeyManager.Safety.Evict.{
  Keeps, Keeps-Evictable, with_retired-Keeps, retiring-Evictable, evict_all_rule,
}
use sovereignite.KeyManager.Safety.Reconcile.{IsDraft, cloned-IsDraft, persist_draft-Serving}

module _ (S : Setting) (c : IsCodec S) (well_formed : IsWellFormed S.configured.policies) where
  record IsRetirement (s : Snapshot) (draft : Draft) : Type 0 where
    safe_draft : IsDraft S c well_formed s draft
    keeps : Keeps s draft.next

  pub record Retired (from : Option Bytes) (s : Snapshot) (d : Keeping) : Type 0 where
    pub snapshot : Snapshot
    pub serving : Serving S from snapshot d
    pub keeps : Keeps s snapshot

  Keeps-refl : (s : Snapshot) → Keeps s s
  Keeps-refl s = record { active = λ r st h. (st, h, refl) }

  module _ (from : Option Bytes) where
    retire_rule :
        (s : Snapshot) (r : Role) (o : Option RoleState) (draft : Draft)
        → IsRetirement s draft
        → lookup r draft.next.roles ≡ o
        → Triple
            (Serving S from s)
            (retire S r o draft)
            (λ t d. IsRetirement s t × Serving S from s d)
            (λ _. Safe S from)
    retire_rule s r none draft k e = pure_rule draft (λ d serving. (k, serving))
    retire_rule s r (some st) draft k e =
        let policies = S.configured.policies in
        let next = with_retired r st draft.next in
        if_rule (length st.retiring == 0) _ _ (λ _. pure_rule draft (λ d serving. (k, serving)))
          (λ _.
            bind_rule (λ _. Serving S from s) (evict_all S st.retiring) _
              (evict_all_rule S c well_formed from s st.retiring (
                Keeps-Evictable s draft.next st.retiring k.keeps
                  (retiring-Evictable S c well_formed draft.next r st k.safe_draft.valid e)))
              (λ _. pure_rule _ λ d serving. (
                record {
                  safe_draft = record {
                    valid = with_retired-IsValid policies draft.next r st k.safe_draft.valid e;
                    advances =
                        Advances-trans policies s draft.next next k.safe_draft.advances
                          (with_retired-Advances policies draft.next r st e);
                    same_revision = k.safe_draft.same_revision;
                  };
                  keeps = with_retired-Keeps s draft.next r st k.keeps e;
                },
                serving,
              )))

    retire_all_rule :
        (s : Snapshot) (rs : List Role) (draft : Draft)
        → IsRetirement s draft
        → Triple
            (Serving S from s)
            (retire_all S rs draft)
            (λ t d. IsRetirement s t × Serving S from s d)
            (λ _. Safe S from)
    unfolding retire_all
    retire_all_rule s [] draft k = pure_rule draft (λ d serving. (k, serving))
    retire_all_rule s (r ∷ rs) draft k =
        bind_rule (λ t d. IsRetirement s t × Serving S from s d)
          (retire S r (lookup r draft.next.roles) draft) _
          (retire_rule s r (lookup r draft.next.roles) draft k refl)
          (λ t. fact_rule (retire_all S rs t) (λ k. retire_all_rule s rs t k))

    retire_from_rule :
        (s : Snapshot)
        → IsValid S.configured.policies s
        → Triple (Serving S from s) (retire_from S s) (λ _. Retired from s) (λ _. Safe S from)
    retire_from_rule s v =
        bind_rule (λ _. Serving S from s) _ _
          (if_rule (has_retiring s.roles) _ _
            (λ _. check_rule (capacity_check 1 s) (λ e q d k. k.safe) (λ q d k. k))
            (λ _. pure_rule tt (λ d k. k)))
          (λ _.
            bind_rule (λ t d. IsRetirement s t × Serving S from s d) _ _
              (retire_all_rule s S.configured.order _ (record {
                safe_draft = cloned-IsDraft S c well_formed s v;
                keeps = record { active = λ r st h. (st, h, refl) };
              }))
              (λ t. fact_rule (persist_draft S t) λ k.
                weaken (persist_draft S t)
                  (persist_draft-Serving S c well_formed from s t k.safe_draft) (λ d k. k)
                  (λ _ d serving. elim serving [
                    | inl serving ↦ record { snapshot = s; serving = serving; keeps = Keeps-refl s }
                    | inr serving ↦ record {
                      snapshot = revised t.next;
                      serving = serving;
                      keeps = record { active = k.keeps.active };
                    }
                  ])
                  (λ _ d k. k)))

    -- Every role keeps its active key.
    pub reconcile_retiring_keeps :
        (s : Snapshot)
        → IsValid S.configured.policies s
        → Triple (Serving S from s) (reconcile_retiring S) (λ _. Retired from s) (λ _. Safe S from)
    unfolding reconcile_retiring
    reconcile_retiring_keeps s v =
        get_then (λ d. d.loaded) _
          λ loaded.
            get_then (λ d. d.memory) _
              λ s'.
                weaken _
                  (fact_rule _ λ e.
                    if_rule loaded _ _ (λ _. rw (← e) (retire_from_rule s v))
                      (λ _.
                        pure_rule tt
                          (λ d k. record { snapshot = s; serving = k; keeps = Keeps-refl s })))
                  (λ d k. (sym k.0.0.memory ∙ k.1, k.0.0)) (λ x d k. k) (λ e d k. k)

    pub reconcile_retiring_rule :
        Triple (Ready S from) (reconcile_retiring S) (λ _. Ready S from) (λ _. Safe S from)
    reconcile_retiring_rule = record {
      at = λ w d k.
          (weaken (reconcile_retiring S) (reconcile_retiring_keeps k.snapshot k.serving.valid)
              (λ d k. k) (λ _ d k. record { snapshot = k.snapshot; serving = k.serving })
              (λ _ d k. k)).at
            w d k.serving;
    }
