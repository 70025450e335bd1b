-- ===== src/KeyManager/Safety/Persist.antt =====
-- Writing the next revision keeps the manager and its file in agreement, an error of durability included.
use sovereignite.Base.{
  Bytes, ◌+◌, true, false, Option, some, ◌≡◌, ◌≢◌, ◌⊎◌, inl, inr, refl, ap, ◌∙◌, arith,
}
use sovereignite.Base.Effect.{
  done, Triple, if_rule, raise_rule, modify_rule, modify_then, catch_rule,
}
use sovereignite.KeyManager.Error.{Error}
use sovereignite.KeyManager.Snapshot.{Snapshot, max_uint64, increment_revision}
use sovereignite.KeyManager.Snapshot.Validity.{IsValid}
use sovereignite.KeyManager.Snapshot.Advance.{
  Advances, revised, revised-IsValid, same_roles-Advances, Advances-trans,
}
use sovereignite.KeyManager.Machine.{Setting, Keeping, remember, forget}
use sovereignite.KeyManager.Store.{save}
use sovereignite.KeyManager.Store.Laws.{IsCodec, Mirrors, Unless, save_rule}
use sovereignite.KeyManager.Manager.Persist.{is_uncertain, is_conflict, kept_after, persist}
use sovereignite.KeyManager.Safety.{Safe, Serving, Progress-step, increment-revised}

module _ (S : Setting) (c : IsCodec S) where
  -- The new file is in place and the memory is not yet.
  record Stored (from : Option Bytes) (next : Snapshot) (d : Keeping) : Type 0 where
    loaded : d.loaded ≡ true
    mirror : Mirrors S d.file next
    safe : Safe S from d

  abbrev pub Either : Option Bytes → Snapshot → Snapshot → Keeping → Type 0
  Either from s next d = Serving S from s d ⊎ Serving S from next d

  remembered :
      (from : Option Bytes) (next : Snapshot) (d : Keeping)
      → IsValid S.configured.policies next
      → Stored from next d
      → Serving S from next (remember next d)
  remembered from next d v h = record {
    loaded = h.loaded;
    memory = refl;
    valid = v;
    mirror = h.mirror;
    safe = record { progress = h.safe.progress; trace = h.safe.trace };
  }

  stored_if :
      (Q P : Keeping → Type 0) (e : Error) (d : Keeping)
      → is_uncertain e ≡ true
      → Unless Q P e d
      → Q d
  stored_if Q P e d u (inl h) = h.1
  stored_if Q P e d u (inr h) = cc (rw u at h.0)

  kept_if :
      (Q P : Keeping → Type 0) (e : Error) (d : Keeping)
      → is_uncertain e ≡ false
      → Unless Q P e d
      → (is_conflict e ≡ false) × P d
  kept_if Q P e d u (inl h) = cc (rw u at h.0)
  kept_if Q P e d u (inr h) = (h.1, h.2)

  module _ (from : Option Bytes) (s next : Snapshot) (v : IsValid S.configured.policies next) where
    kept_after-rule :
        (e : Error)
        → Triple
            (Unless (Stored from next) (Serving S from s) e)
            (kept_after S next e)
            (λ _. Serving S from next)
            (λ _. Either from s next)
    kept_after-rule e =
        if_rule (is_uncertain e) _ _
          (λ u.
            modify_then (Serving S from next) (remember next) _
              (λ d h.
                remembered from next d v (stored_if (Stored from next) (Serving S from s) e d u h))
              (raise_rule e (λ d h. inr h)))
          (λ u.
            if_rule (is_conflict e) _ _
              (λ k.
                modify_then (Serving S from s) forget _
                  (λ d h. cc (rw k at (kept_if (Stored from next) (Serving S from s) e d u h).0))
                  (raise_rule e (λ d h. inl h)))
              (λ _.
                raise_rule e
                  (λ d h. inl (kept_if (Stored from next) (Serving S from s) e d u h).1)))

    -- The next revision, saved and remembered: after an error the manager and the file agree on the old or on the
    -- new one.
    pub persist_rule :
        s.revision ≢ max_uint64
        → next.revision ≡ s.revision + 1
        → Advances S.configured.policies s next
        → Triple
            (Serving S from s)
            (persist S next)
            (λ _. Serving S from next)
            (λ _. Either from s next)
    unfolding persist
    persist_rule bounded successor a =
        catch_rule (λ _. Stored from next) (Unless (Stored from next) (Serving S from s))
          (save S next) _ _
          (save_rule S s next (Serving S from s) (Stored from next) c v bounded successor
            (λ d h. h.mirror)
            (λ d b h mirrored. record {
              loaded = h.loaded;
              mirror = mirrored;
              safe = record {
                progress =
                    Progress-step S c from d.file (some b) s next h.safe.progress h.mirror h.valid
                      mirrored v a;
                trace = h.safe.trace;
              };
            }))
          (λ _. modify_rule (remember next) (λ d h. remembered from next d v h)) kept_after-rule

  -- A change of the snapshot in memory, written as its next revision.
  pub persist_draft_rule :
      (from : Option Bytes) (s draft : Snapshot)
      → IsValid S.configured.policies draft
      → draft.revision ≡ s.revision
      → Advances S.configured.policies s draft
      → (next : Snapshot) → increment_revision draft ≡ done next
      → Triple
          (Serving S from s)
          (persist S next)
          (λ _. Serving S from (revised draft))
          (λ _. Either from s (revised draft))
  persist_draft_rule from s draft v same_revision a next e =
      let (bounded, is_next) = increment-revised draft next e in
      rw is_next (
        persist_rule from s (revised draft) (revised-IsValid S.configured.policies draft v)
          (λ equal. bounded (same_revision ∙ equal)) (ap (λ n. n + 1) same_revision)
          (Advances-trans S.configured.policies s draft (revised draft) a
            (same_roles-Advances S.configured.policies draft (revised draft) (omega arith) refl)))
