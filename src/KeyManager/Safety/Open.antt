-- ===== src/KeyManager/Safety/Open.antt =====
-- Opening the metadata file ends with a valid snapshot in memory, the one in the file, or changes no memory.
use sovereignite.Base.{Bytes, true, Option, none, some, List, [], ◌∷◌, ◌≡◌, refl, ◌∙◌}
use sovereignite.Base.Dict.{lookup}
use sovereignite.Base.Effect.{
  done, lift, Triple, weaken, if_rule, pure_rule, raise_rule, modify_then, bind_rule, catch_rule,
  lift_then, check_then, get_then, query_then,
}
use sovereignite.KeyManager.Policy.{Role}
use sovereignite.KeyManager.Policy.WellFormed.{IsWellFormed}
use sovereignite.KeyManager.Snapshot.{
  KeyMetadata, RoleState, Snapshot, validate_snapshot, verify_public_metadata,
}
use sovereignite.KeyManager.Snapshot.Accepted.{validate_snapshot-IsValid}
use sovereignite.KeyManager.Snapshot.Advance.{Same-refl}
use sovereignite.KeyManager.Machine.{Setting, Keeping, Run, take_over, forget, open_metadata}
use sovereignite.KeyManager.Store.{read_file, load}
use sovereignite.KeyManager.Store.Laws.{IsCodec, Reads, Reads-Unique}
use sovereignite.KeyManager.Manager.Persist.{read_error, verify_metadata}
use sovereignite.KeyManager.Manager.Reconcile.{
  reconcile_pending, reconcile_retiring, verify_retiring_answer, verify_retiring, verify_state,
  verify_roles, or_forget, open_metadata_file, ensure_loaded,
}
use sovereignite.KeyManager.Rules.{asked_then, check_rule, lift_rule}
use sovereignite.KeyManager.Safety.{Safe, Ready}
use sovereignite.KeyManager.Safety.Reconcile.{reconcile_pending_rule}
use sovereignite.KeyManager.Safety.Retiring.{reconcile_retiring_rule}

module _ (S : Setting) {P : Keeping → Type 0} where
  -- Verification reads only.
  pub verify_metadata_rule : (m : KeyMetadata) → Triple P (verify_metadata S m) (λ _. P) (λ _. P)
  unfolding verify_metadata
  verify_metadata_rule m =
      asked_then S.context_err _ (λ n d k. k)
        (query_then (S.read_public m.handle) _ λ answer.
          lift_then (read_error m.role answer) _ (λ e q d k. k)
            λ public _. check_rule (verify_public_metadata m public) (λ e q d k. k) (λ q d k. k))

  verify_retiring_rule : (ms : List KeyMetadata) → Triple P (verify_retiring S ms) (λ _. P) (λ _. P)
  unfolding verify_retiring
  verify_retiring_rule [] = pure_rule tt (λ d k. k)
  verify_retiring_rule (m ∷ ms) = query_then (S.read_public m.handle) _ λ answer.
      check_then (verify_retiring_answer m answer) _ (λ e q d k. k) λ _. verify_retiring_rule ms

  verify_state_rule : (o : Option RoleState) → Triple P (verify_state S o) (λ _. P) (λ _. P)
  verify_state_rule none = pure_rule tt (λ d k. k)
  verify_state_rule (some st) =
      bind_rule (λ _. P) (verify_metadata S st.active) _ (verify_metadata_rule st.active)
        (λ _. verify_retiring_rule st.retiring)

  pub verify_roles_rule :
      (rs : List Role) (s : Snapshot) → Triple P (verify_roles S rs s) (λ _. P) (λ _. P)
  unfolding verify_roles
  verify_roles_rule [] s = pure_rule tt (λ d k. k)
  verify_roles_rule (r ∷ rs) s =
      bind_rule (λ _. P) (verify_state S (lookup r s.roles)) _
        (verify_state_rule (lookup r s.roles)) (λ _. verify_roles_rule rs s)

  -- What is loaded is what the file reads as.
  load-Reads : Triple P (load S) (λ s d. P d × Reads S d.file s) (λ _. P)
  unfolding load
  load-Reads =
      asked_then (S.fault open_metadata) _ (λ n d k. k)
        (get_then (λ d. d.file) (λ f. lift (read_file S f))
          λ f. lift_rule (read_file S f) (λ e q d k. k.0) (λ s q d k. (k.0, rw k.1 q)))

module _ (S : Setting) (c : IsCodec S) (well_formed : IsWellFormed S.configured.policies)
    (from : Option Bytes) where
  or_forget_rule :
      (m : Run S (Unit {0}))
      → Triple (Ready S from) m (λ _. Ready S from) (λ _. Safe S from)
      → Triple (Ready S from) (or_forget S m) (λ _. Ready S from) (λ _. Safe S from)
  or_forget_rule m k =
      catch_rule (λ _. Ready S from) (λ _. Safe S from) m _ _ k (λ _. pure_rule tt (λ d k. k))
        (λ e.
          modify_then (Safe S from) forget _
            (λ d k. record { progress = k.progress; trace = k.trace }) (raise_rule e (λ d k. k)))

  loaded-Ready :
      (s : Snapshot) (d : Keeping)
      → validate_snapshot S.configured.policies s ≡ done tt
      → Safe S from d × Reads S d.file s
      → Ready S from (take_over s d)
  loaded-Ready s d accepted (safe, reads) =
      let unique = Reads-Unique S c d.file s reads in
      record {
        snapshot = s;
        serving = record {
          loaded = refl;
          memory = refl;
          valid = validate_snapshot-IsValid S.configured.policies s unique.0 unique.1 accepted;
          mirror = (s, reads, Same-refl s);
          safe = record { progress = safe.progress; trace = safe.trace };
        };
      }

  pub open_metadata_file_rule :
      Triple (Safe S from) (open_metadata_file S) (λ _. Ready S from) (λ _. Safe S from)
  unfolding open_metadata_file
  open_metadata_file_rule =
      asked_then S.context_err _ (λ n d k. k)
        (bind_rule (λ s d. Safe S from d × Reads S d.file s) (load S) _ (load-Reads S)
          λ s.
            lift_then (validate_snapshot S.configured.policies s) _ (λ e q d k. k.0)
              λ _ accepted.
                bind_rule (λ _ d. Safe S from d × Reads S d.file s)
                  (verify_roles S S.configured.order s) _
                  (weaken _ (verify_roles_rule S S.configured.order s) (λ d k. k) (λ _ d k. k)
                    (λ e d k. k.0))
                  λ _.
                    modify_then (Ready S from) (take_over s) _ (λ d k. loaded-Ready s d accepted k)
                      (bind_rule (λ _. Ready S from) (or_forget S (reconcile_pending S)) _
                        (or_forget_rule (reconcile_pending S)
                          (reconcile_pending_rule S c well_formed from))
                        (λ _.
                          or_forget_rule (reconcile_retiring S)
                            (reconcile_retiring_rule S c well_formed from))))

  -- A manager with nothing loaded, or with what the file holds.
  pub record Resumable (d : Keeping) : Type 0 where
    pub safe : Safe S from d
    pub ready : d.loaded ≡ true → Ready S from d

  pub ensure_loaded_rule : Triple Resumable (ensure_loaded S) (λ _. Ready S from) (λ _. Safe S from)
  unfolding ensure_loaded
  ensure_loaded_rule =
      get_then (λ d. d.loaded) _
        λ loaded.
          if_rule loaded _ _
            (λ e.
              weaken _
                (asked_then S.context_err _ (λ n d k. k.serving.safe)
                  (bind_rule (λ _. Ready S from) (reconcile_pending S) _
                    (reconcile_pending_rule S c well_formed from)
                    (λ _. reconcile_retiring_rule S c well_formed from)))
                (λ d k. k.0.ready (k.1 ∙ e)) (λ _ d k. k) (λ _ d k. k))
            (λ _. weaken _ open_metadata_file_rule (λ d k. k.0.safe) (λ _ d k. k) (λ _ d k. k))
