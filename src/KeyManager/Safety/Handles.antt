-- ===== src/KeyManager/Safety/Handles.antt =====
-- A handle that is found is one of the policy's, and for a rotation none of the role's.
use sovereignite.Base.{
  Bool, true, false, Option, none, some, List, [], ◌∷◌, ==_iff, ◌≡◌, refl, sym, arith,
}
use sovereignite.Base.Effect.{
  Outcome, done, failed, Triple, weaken, if_rule, pure_rule, raise_rule, lift_then, query_then,
}
use sovereignite.KeyManager.Error.{Error}
use sovereignite.KeyManager.Outcome.{done-injective}
use sovereignite.KeyManager.Policy.{Role, RolePolicy, has_handle}
use sovereignite.KeyManager.Tpm.{Handle, Public}
use sovereignite.KeyManager.Snapshot.{KeyMetadata, RoleState}
use sovereignite.KeyManager.Machine.{TpmError, not_found, unreadable, Setting, Keeping, Run}
use sovereignite.KeyManager.Manager.Persist.{adopting}
use sovereignite.KeyManager.Manager.Create.{
  first_handle, free_or_fail, next_handle, initial_handle, free_handle,
}
use sovereignite.KeyManager.Rules.{lift_rule}

first_handle-has_handle :
    (hs : List Handle) (h : Handle) → first_handle hs ≡ done h → has_handle hs h ≡ true
unfolding has_handle
first_handle-has_handle [] h q = cc
first_handle-has_handle (g ∷ hs) h q = rw ((==_iff h g).1 (sym (done-injective g h q))) refl

free_or_fail-done :
    (h g : Handle) (answer : Outcome TpmError Public) → free_or_fail h answer ≡ done g → h ≡ g
free_or_fail-done h g (done p) q = cc
free_or_fail-done h g (failed not_found) q = done-injective h g q
free_or_fail-done h g (failed (unreadable n)) q = cc

adopting-active : (m : KeyMetadata) (o : Option RoleState) → (adopting m o).active ≡ m
adopting-active m none = refl
adopting-active m (some st) = refl

abbrev pub Found : (Keeping → Type 0) → List Handle → List Handle → Handle → Keeping → Type 0
Found P recorded hs h d = ((has_handle hs h ≡ true) × (has_handle recorded h ≡ false)) × P d

-- What a search for a handle has found.
module _ (S : Setting) {P : Keeping → Type 0} where
  pub initial_handle_rule :
      (p : RolePolicy)
      → Triple P (initial_handle S p) (λ h d. (has_handle p.handles h ≡ true) × P d) (λ _. P)
  unfolding initial_handle
  initial_handle_rule p =
      lift_then (first_handle p.handles) _ (λ e q d k. k)
        λ h found. query_then (S.read_public h) _ λ answer.
          lift_rule (free_or_fail h answer) (λ e q d k. k)
            (λ g q d k. (
              rw (← free_or_fail-done h g answer q) (first_handle-has_handle p.handles h found),
              k,
            ))

  next_handle_rule :
      (recorded hs : List Handle) (h : Handle) (answer : Outcome TpmError Public)
      (rest : Bool → Run S Handle) (occupied : Bool)
      → has_handle recorded h ≡ false
      → ((b : Bool) → Triple P (rest b) (Found P recorded (h ∷ hs)) (λ _. P))
      → Triple P (next_handle S h answer rest occupied) (Found P recorded (h ∷ hs)) (λ _. P)
  unfolding has_handle
  next_handle_rule recorded hs h (done p) rest occupied e k = k true
  next_handle_rule recorded hs h (failed (unreadable n)) rest occupied e k =
      raise_rule (Error.foreign n) (λ d k. k)
  next_handle_rule recorded hs h (failed not_found) rest occupied e k =
      pure_rule h (λ d k. ((rw ((==_iff h h).1 refl) refl, e), k))

  pub free_handle_rule :
      (r : Role) (recorded hs : List Handle) (occupied : Bool)
      → Triple P (free_handle S r recorded hs occupied) (Found P recorded hs) (λ _. P)
  unfolding free_handle has_handle
  free_handle_rule r recorded [] occupied =
      raise_rule (Error.no_handle_available r occupied) (λ d k. k)
  free_handle_rule r recorded (h ∷ hs) occupied =
      let later = λ (b : Bool).
        weaken {P' = P} {Q' = Found P recorded hs} {F' = λ _. P} (free_handle S r recorded hs b)
          (free_handle_rule r recorded hs b) (λ d k. k)
          (λ g d k. ((ground (arith, k.0.0), k.0.1), k.1)) (λ e d k. k) in
      if_rule (has_handle recorded h) _ _ (λ _. later occupied)
        (λ e. query_then (S.read_public h) _ λ answer.
          next_handle_rule recorded hs h answer (free_handle S r recorded hs) occupied e later)
