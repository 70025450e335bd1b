-- ===== src/KeyManager/Safety/Prepare.antt =====
-- The callback of CreatePersistent: the file records a key as pending before the TPM may keep it.
use sovereignite.Base.{
  Bytes, ℕ, ◌<◌, Bool, true, false, not, ◌||◌, Option, none, some, fail_if, is_some, ◌==◌, ◌≡◌, ◌≢◌,
  inl, inr, refl, sym, ◌∙◌, arith,
}
use sovereignite.Base.Dict.{lookup, lookup-insert_self}
use sovereignite.Base.Effect.{
  Outcome, done, failed, pure, modify, ◌>>◌, Ends, Triple, weaken, pure_rule, modify_then,
  bind_rule, lift_then, check_then, get_then, fact_rule,
}
use sovereignite.KeyManager.Error.{Error}
use sovereignite.KeyManager.Outcome.{done-injective}
use sovereignite.KeyManager.Policy.{RolePolicy, has_handle}
use sovereignite.KeyManager.Policy.WellFormed.{IsWellFormed}
use sovereignite.KeyManager.Tpm.{
  Handle, Template, same_template, signing_template, Public, ObjectReference, canonical_public_key,
}
use sovereignite.KeyManager.Tpm.Laws.{canonical_public_key-done}
use sovereignite.KeyManager.Snapshot.{KeyMetadata, RoleState, Snapshot, increment_revision}
use sovereignite.KeyManager.Snapshot.Validity.{Succeeds, IsIntent, IsValid}
use sovereignite.KeyManager.Snapshot.Advance.{revised, same_roles-Advances}
use sovereignite.KeyManager.Snapshot.Changes.{clone-IsValid, with_intent-IsValid}
use sovereignite.KeyManager.Machine.{
  Creation, prepares, ends, Event, Setting, Keeping, record_agreement,
}
use sovereignite.KeyManager.Store.Laws.{IsCodec}
use sovereignite.KeyManager.Manager.Persist.{clone, with_intent, persist}
use sovereignite.KeyManager.Manager.Create.{
  prepared_metadata, answer_of, now_prepared, prepare, run_creation, create_persistent,
}
use sovereignite.KeyManager.Safety.{Harmless, Safe, Serving}
use sovereignite.KeyManager.Safety.Persist.{persist_draft_rule}

pub identified : (a b n : Bool) → not a || not b || n ≡ false → a ≡ true
identified a b n h = ground arith

module _ (S : Setting) (c : IsCodec S) (well_formed : IsWellFormed S.configured.policies) where
  -- A handle on which the next key of a role can be created.
  pub record IsTarget (s : Snapshot) (p : RolePolicy) (h : Handle) (g : ℕ) : Type 0 where
    pub policy : lookup p.role S.configured.policies ≡ some p
    pub handle : has_handle p.handles h ≡ true
    pub generation : 0 < g
    pub next :
        (m : KeyMetadata)
        → m.handle ≡ h
        → m.generation ≡ g
        → Succeeds p.role p (lookup p.role s.roles) m
    pub free : (st : RoleState) → lookup p.role s.roles ≡ some st → st.active.handle ≢ h

  -- Handles belong to one role, so no active key is at the handle.
  pub not_active :
      (from : Option Bytes) (s s' : Snapshot) (p : RolePolicy) (h : Handle) (g : ℕ) (d : Keeping)
      (o : ObjectReference)
      → IsTarget s p h g
      → Serving S from s' d
      → s'.roles ≡ s.roles
      → o.handle ≡ h
      → Harmless S (Event.evicts o d.file)
  not_active from s s' p h g d o target serving same_roles e t r st reads found clash =
      let (u, reads', alike) = serving.mirror in
      let here : u ≡ t = done-injective u t (sym reads' ∙ reads) in
      let found_here : lookup r s'.roles ≡ some st = alike.roles r ∙ rw here found in
      let (q, policy, state) = serving.valid.roles r st found_here in
      let own : r ≡ p.role =
        well_formed.disjoint r p.role q p h policy target.policy
          (rw (← e, ← clash) state.active.handle) target.handle in
      target.free st (rw (← own, ← same_roles) found_here) (clash ∙ e)

  module _ (from : Option Bytes) (s : Snapshot) (p : RolePolicy) (h : Handle) (g : ℕ)
      (target : IsTarget s p h g) where
    -- What the manager remembers of the key that the callback has prepared.
    abbrev pub Remembers : Option KeyMetadata → Snapshot → Type 0
    Remembers none s' = Unit
    Remembers (some m) s' = (lookup p.role s'.pending ≡ some m) × (m.generation ≡ g)

    -- Between the calls of the callback.
    pub record Creating (o : Option KeyMetadata) (d : Keeping) : Type 0 where
      pub snapshot : Snapshot
      pub serving : Serving S from snapshot d
      pub same_roles : snapshot.roles ≡ s.roles
      pub remembers : Remembers o snapshot

    prepared-IsIntent :
        (s' : Snapshot) (t : Template) (now : ℕ) (der : Bytes) (candidate : Public)
        → s'.roles ≡ s.roles
        → signing_template p.algorithm ≡ done t
        → 0 < now
        → canonical_public_key candidate ≡ done der
        → IsIntent p.role p (lookup p.role s'.roles) (prepared_metadata p h t now g der candidate)
    prepared-IsIntent s' t now der candidate same_roles template timed keyed =
        let (named, full) = canonical_public_key-done candidate der keyed in
        record {
          key = record {
            role = refl;
            policy_role = refl;
            purpose = refl;
            algorithm = refl;
            handle = target.handle;
            template = template;
            generation = target.generation;
            created = timed;
            named = named;
            keyed = full;
          };
          next =
              rw same_roles (target.next (prepared_metadata p h t now g der candidate) refl refl);
        }

    module _ (t : Template) (template : signing_template p.algorithm ≡ done t) (now : ℕ)
        (timed : 0 < now) where
      recorded :
          (s' : Snapshot) (m : KeyMetadata) (d : Keeping)
          → s'.roles ≡ s.roles
          → m.generation ≡ g
          → Serving S from (revised (with_intent p.role m (clone s'))) d
          → Creating (some m) d
      recorded s' m d same_roles generation serving = record {
        snapshot = revised (with_intent p.role m (clone s'));
        serving = serving;
        same_roles = same_roles;
        remembers = (lookup-insert_self p.role m s'.pending, generation);
      }

      forgotten : (m : KeyMetadata) (d : Keeping) → Creating (some m) d → Creating none d
      forgotten m d k = record {
        snapshot = k.snapshot;
        serving = k.serving;
        same_roles = k.same_roles;
        remembers = tt;
      }

      -- Agreeing to a key leaves a trace that is no harm: the file already records it.
      agreed-Creating :
          (m : KeyMetadata) (d : Keeping)
          → Creating (some m) d
          → Creating (some m) (record_agreement m d)
      agreed-Creating m d k =
          let (u, reads, alike) = k.serving.mirror in
          record {
            snapshot = k.snapshot;
            serving = record {
              loaded = k.serving.loaded;
              memory = k.serving.memory;
              valid = k.serving.valid;
              mirror = k.serving.mirror;
              safe = record {
                progress = k.serving.safe.progress;
                trace = (
                  (u, p.role, reads, sym (alike.pending p.role) ∙ k.remembers.0),
                  k.serving.safe.trace,
                );
              };
            };
            same_roles = k.same_roles;
            remembers = k.remembers;
          }

      agree_rule :
          (s' : Snapshot) (m : KeyMetadata) (next : Snapshot)
          → s'.roles ≡ s.roles
          → IsValid S.configured.policies s'
          → IsIntent p.role p (lookup p.role s'.roles) m
          → m.generation ≡ g
          → increment_revision (with_intent p.role m (clone s')) ≡ done next
          → Triple
              (Serving S from s')
              (persist S next >> (modify (record_agreement m) >> pure m))
              (λ x. Creating (some x))
              (λ _. Creating none)
      agree_rule s' m next same_roles valid intent generation inc =
          let draft = with_intent p.role m (clone s') in
          let policies = S.configured.policies in
          bind_rule (λ _. Creating (some m)) (persist S next) _
            (weaken (persist S next)
              (persist_draft_rule S c from s' draft
                (with_intent-IsValid policies (clone s') p.role p m
                  (clone-IsValid policies s' valid) target.policy intent)
                refl (same_roles-Advances policies s' draft (omega arith) refl) next inc)
              (λ d k. k) (λ _ d k. recorded s' m d same_roles generation k)
              (λ _ d k. elim k [
                | inl k ↦ record {
                  snapshot = s';
                  serving = k;
                  same_roles = same_roles;
                  remembers = tt;
                }
                | inr k ↦ forgotten m d (recorded s' m d same_roles generation k)
              ]))
            (λ _.
              modify_then (Creating (some m)) (record_agreement m) _ (agreed-Creating m)
                (pure_rule m (λ d k. k)))

      located :
          (s' : Snapshot) (d : Keeping)
          → Creating none d × (d.memory ≡ s')
          → ((s'.roles ≡ s.roles) × IsValid S.configured.policies s') × Serving S from s' d
      located s' d (k, memory) =
          let here : k.snapshot ≡ s' = sym k.serving.memory ∙ memory in
          ((rw here at k.same_roles, rw here at k.serving.valid), rw here at k.serving)

      prepare_rule :
          (o : Option KeyMetadata) (candidate : Public)
          → Triple
              (Creating o)
              (prepare S p h t now g o candidate)
              (λ m. Creating (some m))
              (λ _. Creating o)
      unfolding prepare
      prepare_rule (some m) candidate =
          check_then (some Error.prepared_twice) _ (λ e q d k. k) (λ q. cc)
      prepare_rule none candidate =
          check_then none _ (λ e q d k. k)
            λ _.
              check_then
                (fail_if (not (candidate.handle == h) || not (same_template candidate.template t))
                  _)
                _ (λ e q d k. k)
                λ _.
                  lift_then (canonical_public_key candidate) _ (λ e q d k. k)
                    λ der keyed.
                      get_then (λ d. d.memory) _
                        λ s'.
                          check_then (fail_if (is_some (lookup p.role s'.pending)) _) _
                            (λ e q d k. k.0)
                            λ _.
                              let m = prepared_metadata p h t now g der candidate in
                              lift_then (increment_revision (with_intent p.role m (clone s'))) _
                                (λ e q d k. k.0)
                                λ next inc.
                                  weaken _
                                    (fact_rule
                                      (persist S next >> (modify (record_agreement m) >> pure m))
                                      λ f.
                                        agree_rule s' m next f.0 f.1
                                          (prepared-IsIntent s' t now der candidate f.0 template
                                            timed keyed)
                                          refl inc)
                                    (located s') (λ x d k. k) (λ e d k. k)

      next-Creating :
          (r : Outcome Error KeyMetadata) (o : Option KeyMetadata) (d : Keeping)
          → Ends (λ m. Creating (some m)) (λ _. Creating o) r d
          → Creating (now_prepared o r) d
      next-Creating (done m) o d k = k
      next-Creating (failed e) o d k = k

      run_creation-Creating :
          (run : Creation S.World) (o : Option KeyMetadata) (d : Keeping)
          → Creating o d
          → Ends
              (λ created. Creating created.prepared)
              (λ _. Safe S from)
              (run_creation S p h t now g run o d).0
              (run_creation S p h t now g run o d).1.state
      unfolding run_creation
      run_creation-Creating (ends r w) o d k = k
      run_creation-Creating (prepares candidate w continue) o d k =
          let (answer, sys) = prepare S p h t now g o candidate (record { world = w; state = d }) in
          run_creation-Creating (continue (answer_of answer) sys.world) (now_prepared o answer)
            sys.state (next-Creating answer o sys.state ((prepare_rule o candidate).at w d k))

      pub create_persistent_rule :
          Triple
            (Creating none)
            (create_persistent S p h t now g)
            (λ created. Creating created.prepared)
            (λ _. Safe S from)
      create_persistent_rule = record {
        at = λ w d k. run_creation-Creating (S.create_persistent h t w) none d k;
      }
