-- ===== src/KeyManager/Manager/Create.antt =====
-- internal/keymanager/manager.go: choosing a handle and creating a key on it.
use sovereignite.Base.{
  Bytes, ℕ, Bool, true, false, not, ◌||◌, Option, none, some, List, [], ◌∷◌, ◌==◌, fail_if, length,
  is_some, if◌then◌else◌,
}
use sovereignite.Base.Dict.{lookup}
use sovereignite.Base.Effect.{
  Outcome, done, failed, Sys, pure, raise, lift, get, query, check, modify, ◌>>=◌, ◌>>◌,
}
use sovereignite.KeyManager.Error.{Error, join}
use sovereignite.KeyManager.Policy.{Role, RolePolicy, has_handle}
use sovereignite.KeyManager.Tpm.{
  Handle, Template, same_template, signing_template, Public, ObjectReference, canonical_public_key,
}
use sovereignite.KeyManager.Snapshot.{
  KeyMetadata, RoleState, increment_revision, verify_public_metadata,
}
use sovereignite.KeyManager.Machine.{
  TpmError, not_found, unreadable, Creation, prepares, ends, Setting, Keeping, Run, foreign_error,
  check_context, record_eviction, record_agreement,
}
use sovereignite.KeyManager.Snapshot.Validity.{handles_of}
use sovereignite.KeyManager.Manager.Persist.{clone, with_intent, persist}

abbrev pub free_or_fail : Handle → Outcome TpmError Public → Outcome Error Handle
free_or_fail h (done p) = failed (Error.handle_occupied h)
free_or_fail h (failed not_found) = done h
free_or_fail h (failed (unreadable n)) = failed (Error.foreign n)

abbrev pub first_handle : List Handle → Outcome Error Handle
first_handle [] = failed Error.panic
first_handle (h ∷ hs) = done h

-- The key that the callback prepares.
abbrev pub prepared_metadata : RolePolicy → Handle → Template → ℕ → ℕ → Bytes → Public → KeyMetadata
prepared_metadata p h t now g der candidate = record {
  role = p.role;
  purpose = p.purpose;
  algorithm = p.algorithm;
  handle = h;
  public_name = candidate.name;
  public_key_der = der;
  template = t;
  created_at = now;
  generation = g;
}

-- The end of `CreatePersistent`, with what the callback has prepared: the variables `prepared` and, if
-- it is true, `metadata`.
pub record Created : Type 0 where
  pub result : Outcome ℕ Public
  pub prepared : Option KeyMetadata

abbrev pub answer_of : Outcome Error KeyMetadata → Option Error
answer_of (done m) = none
answer_of (failed e) = some e

abbrev pub now_prepared : Option KeyMetadata → Outcome Error KeyMetadata → Option KeyMetadata
now_prepared before (done m) = some m
now_prepared before (failed e) = before

abbrev pub created_object : Outcome ℕ Public → Outcome Error Public
created_object (done p) = done p
created_object (failed n) = failed (Error.joined Error.create_failed (Error.foreign n))

abbrev pub eviction_error : Option TpmError → Option Error
eviction_error none = none
eviction_error (some not_found) = none
eviction_error (some (unreadable n)) = some (Error.foreign n)

abbrev pub unidentified : Handle → Template → Public → Bool
unidentified h t p = not (p.handle == h) || not (same_template p.template t) || length p.name == 0

abbrev pub reread_error : Outcome TpmError Public → Option Error
reread_error (done p) = none
reread_error (failed not_found) = some (Error.handle_not_found 0)
reread_error (failed (unreadable n)) = some (Error.foreign n)

abbrev pub reread_differs : KeyMetadata → Outcome TpmError Public → Option Error
reread_differs m (done p) = verify_public_metadata m p
reread_differs m (failed e) = reread_error (failed e)

module _ (S : Setting) where
  -- `initialHandleLocked`.
  unfoldable pub initial_handle : RolePolicy → Run S Handle
  initial_handle p = do
    h ← lift (first_handle p.handles)
    answer ← query (S.read_public h)
    lift (free_or_fail h answer)

  abbrev pub next_handle :
      Handle → Outcome TpmError Public → (Bool → Run S Handle) → Bool → Run S Handle
  next_handle h (done p) rest occupied = rest true
  next_handle h (failed not_found) rest occupied = pure h
  next_handle h (failed (unreadable n)) rest occupied = raise (Error.foreign n)

  -- The loop of `rotationHandleLocked` over the handles of the policy.
  unfoldable pub free_handle : Role → List Handle → List Handle → Bool → Run S Handle
  free_handle r recorded [] occupied = raise (Error.no_handle_available r occupied)
  free_handle r recorded (h ∷ hs) occupied =
      let rest = free_handle r recorded hs in
      if has_handle recorded h
      then rest occupied
      else (query (S.read_public h) >>= λ answer. next_handle h answer rest occupied)

  abbrev pub recorded_handles : RoleState → List Handle
  recorded_handles st = st.active.handle ∷ handles_of st.retiring

  -- `rotationHandleLocked`.
  abbrev pub rotation_handle : RolePolicy → RoleState → Run S Handle
  rotation_handle p st = free_handle p.role (recorded_handles st) p.handles false

  -- The callback of `CreatePersistent`.
  unfoldable pub prepare :
      RolePolicy → Handle → Template → ℕ → ℕ → Option KeyMetadata → Public → Run S KeyMetadata
  prepare p h t now g prepared candidate = do
    check (fail_if (is_some prepared) Error.prepared_twice)
    check (
        fail_if (not (candidate.handle == h) || not (same_template candidate.template t))
          (Error.metadata_mismatch p.role))
    der ← lift (canonical_public_key candidate)
    s ← get (λ d. d.memory)
    check (fail_if (is_some (lookup p.role s.pending)) Error.pending_exists)
    let m = prepared_metadata p h t now g der candidate
    next ← lift (increment_revision (with_intent p.role m (clone s)))
    persist S next
    modify (record_agreement m)
    pure m

  -- `CreatePersistent` with its callback.
  unfoldable pub run_creation :
      RolePolicy
      → Handle
      → Template
      → ℕ
      → ℕ
      → Creation S.World
      → Option KeyMetadata
      → Keeping
      → Outcome Error Created × Sys S.World Keeping
  run_creation p h t now g (ends r w) prepared d =
      (done (record { result = r; prepared = prepared }), record { world = w; state = d })
  run_creation p h t now g (prepares c w k) prepared d =
      let (answer, s) = prepare p h t now g prepared c (record { world = w; state = d }) in
      run_creation p h t now g (k (answer_of answer) s.world) (now_prepared prepared answer) s.state

  abbrev pub create_persistent : RolePolicy → Handle → Template → ℕ → ℕ → Run S Created
  create_persistent p h t now g s =
      run_creation p h t now g (S.create_persistent h t s.world) none s.state

  abbrev pub evict_persistent : ObjectReference → Run S (Option TpmError)
  evict_persistent o = modify (record_eviction o) >> query (S.evict_persistent o)

  -- `evictCreatedPublicLocked`, with its error as a value.
  unfoldable pub evict_created : Handle → Template → Public → Run S (Option Error)
  evict_created h t p =
      if unidentified h t p
      then pure (some Error.cannot_identify)
      else (evict_persistent (record { handle = p.handle; name = p.name; template = p.template })
          >>= λ answer. pure (eviction_error answer))

  -- On an error the created object is removed.
  abbrev pub or_evict : Handle → Template → Public → Option Error → Run S (Unit {0})
  or_evict h t p none = pure tt
  or_evict h t p (some e) = evict_created h t p >>= λ f. raise (join e f)

  abbrev pub confirm : Handle → Template → Public → Option KeyMetadata → Run S KeyMetadata
  confirm h t p none = evict_created h t p >>= λ f. raise (join Error.not_prepared f)
  confirm h t p (some m) = do
    or_evict h t p (verify_public_metadata m p)
    answer ← query (S.read_public h)
    or_evict h t p (reread_differs m answer)
    pure m

  -- `createMetadataLocked`.
  unfoldable pub create_metadata : RolePolicy → Handle → ℕ → Run S KeyMetadata
  create_metadata p h g = do
    check_context S
    supported ← query (S.supports p.algorithm)
    check (foreign_error supported)
    t ← lift (signing_template p.algorithm)
    now ← query S.now
    check (fail_if (now == 0) Error.clock_zero)
    created ← create_persistent p h t now g
    object ← lift (created_object created.result)
    confirm h t object created.prepared
