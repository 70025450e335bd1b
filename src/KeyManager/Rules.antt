-- ===== src/KeyManager/Rules.antt =====
-- Rules for the steps of the key manager that ask the world and may fail.
use sovereignite.Base.{ℕ, Option, none, some, ◌≡◌, refl, sym}
use sovereignite.Base.Effect.{
  Outcome, done, failed, Program, lift, query, check, ◌>>=◌, Triple, bind_rule, query_then,
}
use sovereignite.KeyManager.Error.{Error}
use sovereignite.KeyManager.Machine.{Keeping, foreign_error}

foreign_error-some :
    (E : Error → Type 0) (o : Option ℕ) (e : Error)
    → foreign_error o ≡ some e
    → ((n : ℕ) → E (Error.foreign n))
    → E e
foreign_error-some E none e h k = cc
foreign_error-some E (some n) e h k = rw (sym (one_error (Error.foreign n) e h)) (k n)
  where
    one_error : (a b : Error) → ◌≡◌ {A = Option Error} (some a) (some b) → a ≡ b
    one_error a b h = cc

module _ {W : Type 0} {P : Keeping → Type 0} {Q : Keeping → Type 0}
    {F : Error → Keeping → Type 0} where
  -- A test that is the last step.
  pub check_rule :
      (r : Option Error)
      → ((e : Error) → r ≡ some e → (d : Keeping) → P d → F e d)
      → (r ≡ none → (d : Keeping) → P d → Q d)
      → Triple {W = W} P (check r) (λ _. Q) F
  unfolding check
  check_rule none bad k = record { at = λ w. k refl }
  check_rule (some e) bad k = record { at = λ w. bad e refl }

module _ {W A : Type 0} {P : Keeping → Type 0} {F : Error → Keeping → Type 0} where
  -- A call of the world that is the last step.
  pub query_rule : (q : W → A × W) → Triple P (query q) (λ _. P) F
  unfolding query
  query_rule q = record { at = λ w d p. p }

module _ {W A : Type 0} {P : Keeping → Type 0} {Q : A → Keeping → Type 0}
    {F : Error → Keeping → Type 0} where
  -- A value or an error that is the last step.
  pub lift_rule :
      (r : Outcome Error A)
      → ((e : Error) → r ≡ failed e → (d : Keeping) → P d → F e d)
      → ((a : A) → r ≡ done a → (d : Keeping) → P d → Q a d)
      → Triple {W = W} P (lift r) Q F
  unfolding lift
  lift_rule (done a) bad k = record { at = λ w. k a refl }
  lift_rule (failed e) bad k = record { at = λ w. bad e refl }

module _ {W B : Type 0} {P : Keeping → Type 0} {R : B → Keeping → Type 0}
    {F : Error → Keeping → Type 0} where
  -- A test of the world: its failure changes nothing.
  pub asked_then :
      (q : W → Option ℕ × W) (f : Unit {0} → Program W Keeping Error B)
      → ((n : ℕ) (d : Keeping) → P d → F (Error.foreign n) d)
      → Triple P (f tt) R F
      → Triple P ((query q >>= λ e. check (foreign_error e)) >>= f) R F
  asked_then q f bad k =
      bind_rule (λ _. P) (query q >>= λ e. check (foreign_error e)) f
        (query_then q (λ e. check (foreign_error e))
          λ o.
            check_rule (foreign_error o)
              (λ e h d p. foreign_error-some (λ e. F e d) o e h (λ n. bad n d p)) (λ h d p. p))
        (λ _. k)

  -- A test of the world that never fails.
  pub quiet_then :
      (q : W → Option ℕ × W) (f : Unit {0} → Program W Keeping Error B)
      → ((w : W) → (q w).0 ≡ none)
      → Triple P (f tt) R F
      → Triple P ((query q >>= λ e. check (foreign_error e)) >>= f) R F
  unfolding ◌>>=◌ query check
  quiet_then q f quiet k = record { at = λ w d h. rw (quiet w) (k.at (q w).1 d h) }
