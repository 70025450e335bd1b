-- ===== src/KeyManager/Safety/Create.antt =====
-- Creating a key: what is returned is pending in the file, and no active key is evicted on an error.
use sovereignite.Base.{
  Bytes, ℕ, Option, none, some, fail_if, fail_if-none, ◌==◌, ==_iff, refl, arith,
}
use sovereignite.Base.Effect.{
  raise, ◌>>=◌, Triple, weaken, if_rule, pure_rule, raise_rule, modify_then, bind_rule, lift_then,
  check_then, query_then,
}
use sovereignite.KeyManager.Error.{Error, join}
use sovereignite.KeyManager.Policy.{RolePolicy}
use sovereignite.KeyManager.Policy.WellFormed.{IsWellFormed}
use sovereignite.KeyManager.Tpm.{Handle, Template, signing_template, Public, ObjectReference}
use sovereignite.KeyManager.Snapshot.{KeyMetadata, Snapshot, verify_public_metadata}
use sovereignite.KeyManager.Machine.{Setting, Keeping, foreign_error, record_eviction}
use sovereignite.KeyManager.Store.Laws.{IsCodec}
use sovereignite.KeyManager.Manager.Create.{
  created_object, unidentified, create_persistent, evict_created, or_evict, confirm, reread_differs,
  create_metadata,
}
use sovereignite.KeyManager.Rules.{asked_then, query_rule}
use sovereignite.KeyManager.Safety.{Safe, Serving}
use sovereignite.KeyManager.Safety.Prepare.{
  identified, IsTarget, not_active, Creating, create_persistent_rule,
}

module _ (S : Setting) (c : IsCodec S) (well_formed : IsWellFormed S.configured.policies)
    (from : Option Bytes) (s : Snapshot) (p : RolePolicy) (h : Handle) (g : ℕ)
    (target : IsTarget S c well_formed s p h g) where
  abbrev pub Between : Option KeyMetadata → Keeping → Type 0
  Between = Creating S c well_formed from s p h g target

  -- The created object is no active key.
  evict_created_rule :
      (o : Option KeyMetadata) (t : Template) (public : Public)
      → Triple (Between o) (evict_created S h t public) (λ _. Safe S from) (λ _. Safe S from)
  unfolding evict_created
  evict_created_rule o t public =
      if_rule (unidentified h t public) _ _
        (λ u. pure_rule (some Error.cannot_identify) (λ d k. k.serving.safe))
        (λ u.
          let reference : ObjectReference = record {
            handle = public.handle;
            name = public.name;
            template = public.template;
          } in
          bind_rule (λ _. Safe S from) _ _
            (modify_then (Safe S from) (record_eviction reference) _
              (λ d k. record {
                progress = k.serving.safe.progress;
                trace = (
                  not_active S c well_formed from s k.snapshot p h g d reference target k.serving
                      k.same_roles ((==_iff public.handle h).0 (identified _ _ _ u)),
                  k.serving.safe.trace,
                );
              })
              (query_rule (S.evict_persistent reference)))
            (λ answer. pure_rule _ (λ d k. k)))

  evict_rule :
      {A : Type 0} (Q : A → Keeping → Type 0) (o : Option KeyMetadata) (t : Template)
      (public : Public) (e : Error)
      → Triple
          (Between o)
          (evict_created S h t public >>= λ f. raise (join e f))
          Q
          (λ _. Safe S from)
  evict_rule Q o t public e =
      bind_rule (λ _. Safe S from) (evict_created S h t public) _ (evict_created_rule o t public)
        (λ f. raise_rule (join e f) (λ d k. k))

  or_evict_rule :
      (o : Option KeyMetadata) (t : Template) (public : Public) (r : Option Error)
      → Triple (Between o) (or_evict S h t public r) (λ _. Between o) (λ _. Safe S from)
  or_evict_rule o t public none = pure_rule tt (λ d k. k)
  or_evict_rule o t public (some e) = evict_rule (λ _. Between o) o t public e

  confirm_rule :
      (t : Template) (public : Public) (o : Option KeyMetadata)
      → Triple (Between o) (confirm S h t public o) (λ m. Between (some m)) (λ _. Safe S from)
  confirm_rule t public none = evict_rule (λ m. Between (some m)) none t public Error.not_prepared
  confirm_rule t public (some m) =
      bind_rule (λ _. Between (some m)) (or_evict S h t public (verify_public_metadata m public)) _
        (or_evict_rule (some m) t public (verify_public_metadata m public))
        (λ _. query_then (S.read_public h) _ λ answer.
          bind_rule (λ _. Between (some m)) (or_evict S h t public (reread_differs m answer)) _
            (or_evict_rule (some m) t public (reread_differs m answer))
            (λ _. pure_rule m (λ d k. k)))

  -- The key that is returned is pending in the manager's memory and in the file, the roles are as they were.
  pub create_metadata_rule :
      Triple (Serving S from s) (create_metadata S p h g) (λ m. Between (some m)) (λ _. Safe S from)
  unfolding create_metadata
  create_metadata_rule =
      asked_then S.context_err _ (λ n d k. k.safe)
        (query_then (S.supports p.algorithm) _ λ supported.
          check_then (foreign_error supported) _ (λ e q d k. k.safe)
            λ _.
              lift_then (signing_template p.algorithm) _ (λ e q d k. k.safe)
                λ t template. query_then S.now _ λ now.
                  check_then (fail_if (now == 0) Error.clock_zero) _ (λ e q d k. k.safe)
                    λ timed.
                      bind_rule (λ created. Between created.prepared)
                        (create_persistent S p h t now g) _
                        (weaken _
                          (create_persistent_rule S c well_formed from s p h g target t template now
                            (ground (arith, fail_if-none (now == 0) Error.clock_zero timed)))
                          (λ d k. record {
                            snapshot = s;
                            serving = k;
                            same_roles = refl;
                            remembers = tt;
                          })
                          (λ x d k. k) (λ e d k. k))
                        λ created.
                          lift_then (created_object created.result) _ (λ e q d k. k.serving.safe)
                            λ public _. confirm_rule t public created.prepared)
