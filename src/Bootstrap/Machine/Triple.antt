-- ===== src/Bootstrap/Machine/Triple.antt =====
-- Triples for the steps of the service: from `P`, the step returns `a` with `Q a`, or an error `e` with
-- `E e`. One rule for each way to build a step.
use sovereignite.Base.{◌≡◌, refl, ℕ, Option, none, some, Bool, true, false, if◌then◌else◌}
use sovereignite.Bootstrap.Error.{Error, foreign, Result, ok, err}
use sovereignite.Bootstrap.Machine.{
  Sys, M, pure, raise, lift, check, ask, ask_value, outcome, continue, ◌>>=◌, handled, catch,
}

module _ {W A : Type 0} where
  abbrev pub Ends : (A → Sys W → Type 0) → (Error → Sys W → Type 0) → Result A → Sys W → Type 0
  Ends Q E (ok a) s = Q a s
  Ends Q E (err e) s = E e s

  pub record Triple (P : Sys W → Type 0) (m : M W A) (Q : A → Sys W → Type 0)
      (E : Error → Sys W → Type 0) : Type 0 where
    pub at : (s : Sys W) → P s → Ends Q E (m s).0 (m s).1

  -- A consequence: weaker results.
  Ends-weaken :
      (Q Q' : A → Sys W → Type 0) (E E' : Error → Sys W → Type 0) (r : Result A) (s : Sys W)
      → ((a : A) (s : Sys W) → Q' a s → Q a s)
      → ((e : Error) (s : Sys W) → E' e s → E e s)
      → Ends Q' E' r s
      → Ends Q E r s
  Ends-weaken Q Q' E E' (ok a) s q f h = q a s h
  Ends-weaken Q Q' E E' (err e) s q f h = f e s h

module _ {W A : Type 0} {P : Sys W → Type 0} {Q : A → Sys W → Type 0}
    {E : Error → Sys W → Type 0} where
  pub pure_rule : (a : A) → ((s : Sys W) → P s → Q a s) → Triple P (pure a) Q E
  unfolding pure
  pure_rule a h = record { at = h }

  pub raise_rule : (e : Error) → ((s : Sys W) → P s → E e s) → Triple P (raise e) Q E
  unfolding raise
  raise_rule e h = record { at = h }

  pub weaken :
      {P' : Sys W → Type 0} {Q' : A → Sys W → Type 0} {E' : Error → Sys W → Type 0} (m : M W A)
      → Triple P' m Q' E'
      → ((s : Sys W) → P s → P' s)
      → ((a : A) (s : Sys W) → Q' a s → Q a s)
      → ((e : Error) (s : Sys W) → E' e s → E e s)
      → Triple P m Q E
  weaken {Q' = Q'} {E' = E'} m t p q f = record {
    at = λ s h. Ends-weaken Q Q' E E' (m s).0 (m s).1 q f (t.at s (p s h));
  }

  pub if_rule :
      (b : Bool) (m n : M W A)
      → (b ≡ true → Triple P m Q E)
      → (b ≡ false → Triple P n Q E)
      → Triple P (if b then m else n) Q E
  if_rule true m n km kn = km refl
  if_rule false m n km kn = kn refl

module _ {W A B : Type 0} {R : B → Sys W → Type 0} {E : Error → Sys W → Type 0} where
  Ends-continue :
      (Q : A → Sys W → Type 0) (r : Result A) (f : A → M W B) (s : Sys W)
      → ((a : A) → Triple (Q a) (f a) R E)
      → Ends Q E r s
      → Ends R E (continue r f s).0 (continue r f s).1
  Ends-continue Q (ok a) f s k h = (k a).at s h
  Ends-continue Q (err e) f s k h = h

  Ends-handled :
      (Q : A → Sys W → Type 0) (F : Error → Sys W → Type 0) (r : Result A) (f : A → M W B)
      (g : Error → M W B) (s : Sys W)
      → ((a : A) → Triple (Q a) (f a) R E)
      → ((e : Error) → Triple (F e) (g e) R E)
      → Ends Q F r s
      → Ends R E (handled r f g s).0 (handled r f g s).1
  Ends-handled Q F (ok a) f g s k l h = (k a).at s h
  Ends-handled Q F (err e) f g s k l h = (l e).at s h

module _ {W A B : Type 0} {P : Sys W → Type 0} {R : B → Sys W → Type 0}
    {E : Error → Sys W → Type 0} where
  pub bind_rule :
      (Q : A → Sys W → Type 0) (m : M W A) (f : A → M W B)
      → Triple P m Q E
      → ((a : A) → Triple (Q a) (f a) R E)
      → Triple P (m >>= f) R E
  unfolding ◌>>=◌
  bind_rule Q m f t k = record { at = λ s h. Ends-continue Q (m s).0 f (m s).1 k (t.at s h) }

  pub catch_rule :
      (Q : A → Sys W → Type 0) (F : Error → Sys W → Type 0) (m : M W A) (f : A → M W B)
      (g : Error → M W B)
      → Triple P m Q F
      → ((a : A) → Triple (Q a) (f a) R E)
      → ((e : Error) → Triple (F e) (g e) R E)
      → Triple P (catch m f g) R E
  unfolding catch
  catch_rule Q F m f g t k l = record {
    at = λ s h. Ends-handled Q F (m s).0 f g (m s).1 k l (t.at s h);
  }

module _ {W : Type 0} where
  ask_at :
      (Q : Unit {0} → Sys W → Type 0) (E : Error → Sys W → Type 0) (r : Option ℕ) (s : Sys W)
      → (r ≡ none → Q tt s)
      → ((n : ℕ) → r ≡ some n → E (foreign n) s)
      → Ends Q E (outcome r) s
  ask_at Q E none s q f = q refl
  ask_at Q E (some n) s q f = f n refl

module _ {W : Type 0} {P : Sys W → Type 0} {Q : Unit {0} → Sys W → Type 0}
    {E : Error → Sys W → Type 0} where
  pub check_rule :
      (r : Option Error)
      → (r ≡ none → (s : Sys W) → P s → Q tt s)
      → ((e : Error) → r ≡ some e → (s : Sys W) → P s → E e s)
      → Triple P (check r) Q E
  unfolding check
  check_rule none q f = record { at = q refl }
  check_rule (some e) q f = record { at = f e refl }

  pub ask_rule :
      (f : W → Option ℕ × W)
      → ((s : Sys W) → P s → (f s.world).0 ≡ none → Q tt (record s { world = (f s.world).1 }))
      → ((s : Sys W) (n : ℕ)
          → P s
          → (f s.world).0 ≡ some n
          → E (foreign n) (record s { world = (f s.world).1 }))
      → Triple P (ask f) Q E
  unfolding ask
  ask_rule f q e = record { at = λ s h. ask_at Q E (f s.world).0 _ (q s h) (λ n. e s n h) }

module _ {W A : Type 0} {P : Sys W → Type 0} {Q : A → Sys W → Type 0}
    {E : Error → Sys W → Type 0} where
  pub ask_value_rule :
      (f : W → A × W)
      → ((s : Sys W) → P s → Q (f s.world).0 (record s { world = (f s.world).1 }))
      → Triple P (ask_value f) Q E
  unfolding ask_value
  ask_value_rule f q = record { at = q }

-- Rules for a step with the rest of its block, which hand the rest what the step found out.
module _ {W B : Type 0} {P : Sys W → Type 0} {R : B → Sys W → Type 0}
    {E : Error → Sys W → Type 0} where
  pub check_then :
      (r : Option Error) (f : Unit {0} → M W B)
      → ((e : Error) → r ≡ some e → (s : Sys W) → P s → E e s)
      → (r ≡ none → Triple P (f tt) R E)
      → Triple P (check r >>= f) R E
  unfolding ◌>>=◌ check
  check_then none f bad k = record { at = (k refl).at }
  check_then (some e) f bad k = record { at = bad e refl }

  -- Whatever the environment answers, an answer that is an error ends the block.
  pub ask_then :
      (g : W → Option ℕ × W) (f : Unit {0} → M W B)
      → ((s : Sys W) (w : W) → P s → P (record s { world = w }))
      → ((s : Sys W) (n : ℕ) → P s → E (foreign n) s)
      → Triple P (f tt) R E
      → Triple P (ask g >>= f) R E
  ask_then g f moved bad k =
      bind_rule (λ _. P) (ask g) f
        (ask_rule g (λ s h _. moved s _ h) (λ s n h _. bad _ n (moved s _ h))) (λ _. k)

module _ {W A B : Type 0} {P : Sys W → Type 0} {R : B → Sys W → Type 0}
    {E : Error → Sys W → Type 0} where
  pub lift_then :
      (r : Result A) (f : A → M W B)
      → ((e : Error) → r ≡ err e → (s : Sys W) → P s → E e s)
      → ((a : A) → r ≡ ok a → Triple P (f a) R E)
      → Triple P (lift r >>= f) R E
  unfolding ◌>>=◌ lift
  lift_then (ok a) f bad k = record { at = (k a refl).at }
  lift_then (err e) f bad k = record { at = bad e refl }

  pub ask_value_then :
      (g : W → A × W) (f : A → M W B)
      → ((s : Sys W) (w : W) → P s → P (record s { world = w }))
      → ((a : A) → Triple P (f a) R E)
      → Triple P (ask_value g >>= f) R E
  ask_value_then g f moved k =
      bind_rule (λ _. P) (ask_value g) f (ask_value_rule g (λ s h. moved s _ h)) k

  pub pure_then : (a : A) (f : A → M W B) → Triple P (f a) R E → Triple P (pure a >>= f) R E
  unfolding ◌>>=◌ pure
  pure_then a f k = record { at = k.at }

-- A fact that does not depend on the state leaves the precondition.
module _ {W A : Type 0} {F : Type 0} {P : Sys W → Type 0} {Q : A → Sys W → Type 0}
    {E : Error → Sys W → Type 0} where
  pub fact_rule : (m : M W A) → (F → Triple P m Q E) → Triple (λ s. F × P s) m Q E
  fact_rule m k = record { at = λ s h. (k h.0).at s h.1 }
