-- ===== src/Base/Effect.antt =====
-- Programs with errors over a state and a world that answers: what a program has done before an error
-- stays done. Assertions are on the state alone, since the world may answer anything.
use mathlib.Core.Path.{◌≡◌, refl}
use mathlib.Core.Bool.{Bool, true, false}
use mathlib.Core.Option.{Option, none, some}
use sovereignite.Base.Tests.{if◌then◌else◌}

pub data Outcome (E A : Type 0) : Type 0 where
  done : A → Outcome E A
  failed : E → Outcome E A

pub record Sys (W D : Type 0) : Type 0 where
  pub world : W
  pub state : D

abbrev pub Program : Type 0 → Type 0 → Type 0 → Type 0 → Type 0
Program W D E A = Sys W D → Outcome E A × Sys W D

abbrev pub verdict : {E : Type 0} → Option E → Outcome E (Unit {0})
verdict none = done tt
verdict (some e) = failed e

abbrev pub outcome_or : {E A : Type 0} → Option A → E → Outcome E A
outcome_or none e = failed e
outcome_or (some a) e = done a

module _ {W D E A : Type 0} where
  unfoldable pub pure : A → Program W D E A
  pure a s = (done a, s)

  unfoldable pub raise : E → Program W D E A
  raise e s = (failed e, s)

  unfoldable pub lift : Outcome E A → Program W D E A
  lift r s = (r, s)

  -- A call of the world.
  unfoldable pub query : (W → A × W) → Program W D E A
  query f s = let (a, w) = f s.world in (done a, record s { world = w })

  unfoldable pub get : (D → A) → Program W D E A
  get f s = (done (f s.state), s)

module _ {W D E : Type 0} where
  unfoldable pub check : Option E → Program W D E (Unit {0})
  check r s = (verdict r, s)

  unfoldable pub modify : (D → D) → Program W D E (Unit {0})
  modify f s = (done tt, record s { state = f s.state })

module _ {W D E A B : Type 0} where
  abbrev continue : Outcome E A → (A → Program W D E B) → Program W D E B
  continue (done a) f s = f a s
  continue (failed e) f s = (failed e, s)

  infixl 10 ◌>>=◌ ◌>>◌
  unfoldable pub ◌>>=◌ : Program W D E A → (A → Program W D E B) → Program W D E B
  ◌>>=◌ m f s = let (r, s') = m s in continue r f s'

  abbrev pub ◌>>◌ : Program W D E A → Program W D E B → Program W D E B
  m >> n = m >>= λ _. n

  abbrev handled : Outcome E A → (A → Program W D E B) → (E → Program W D E B) → Program W D E B
  handled (done a) f g s = f a s
  handled (failed e) f g s = g e s

  -- On an error the handler takes over.
  unfoldable pub catch :
      Program W D E A → (A → Program W D E B) → (E → Program W D E B) → Program W D E B
  catch m f g s = let (r, s') = m s in handled r f g s'

module _ {D E A : Type 0} where
  abbrev pub Ends : (A → D → Type 0) → (E → D → Type 0) → Outcome E A → D → Type 0
  Ends Q F (done a) d = Q a d
  Ends Q F (failed e) d = F e d

  Ends-weaken :
      (Q Q' : A → D → Type 0) (F F' : E → D → Type 0) (r : Outcome E A) (d : D)
      → ((a : A) (d : D) → Q' a d → Q a d)
      → ((e : E) (d : D) → F' e d → F e d)
      → Ends Q' F' r d
      → Ends Q F r d
  Ends-weaken Q Q' F F' (done a) d q f h = q a d h
  Ends-weaken Q Q' F F' (failed e) d q f h = f e d h

module _ {W D E A : Type 0} where
  -- From a state with `P`, the program ends with `a` and `Q a`, or with an error `e` and `F e`.
  pub record Triple (P : D → Type 0) (m : Program W D E A) (Q : A → D → Type 0) (F : E → D → Type 0)
      : Type 0 where
    pub at :
        (w : W) (d : D)
        → P d
        → Ends Q F
            (m (record { world = w; state = d })).0
            (m (record { world = w; state = d })).1.state

module _ {W D E A : Type 0} {P : D → Type 0} {Q : A → D → Type 0} {F : E → D → Type 0} where
  pub pure_rule : (a : A) → ((d : D) → P d → Q a d) → Triple {W = W} P (pure a) Q F
  unfolding pure
  pure_rule a h = record { at = λ w. h }

  pub raise_rule : (e : E) → ((d : D) → P d → F e d) → Triple {W = W} P (raise e) Q F
  unfolding raise
  raise_rule e h = record { at = λ w. h }

  pub weaken :
      {P' : D → Type 0} {Q' : A → D → Type 0} {F' : E → D → Type 0} (m : Program W D E A)
      → Triple P' m Q' F'
      → ((d : D) → P d → P' d)
      → ((a : A) (d : D) → Q' a d → Q a d)
      → ((e : E) (d : D) → F' e d → F e d)
      → Triple P m Q F
  weaken {Q' = Q'} {F' = F'} m t p q f = record {
    at = λ w d h.
        Ends-weaken Q Q' F F' (m (record { world = w; state = d })).0
          (m (record { world = w; state = d })).1.state q f (t.at w d (p d h));
  }

  pub if_rule :
      (b : Bool) (m n : Program W D E A)
      → (b ≡ true → Triple P m Q F)
      → (b ≡ false → Triple P n Q F)
      → Triple P (if b then m else n) Q F
  if_rule true m n km kn = km refl
  if_rule false m n km kn = kn refl

  pub get_rule : (f : D → A) → ((d : D) → P d → Q (f d) d) → Triple {W = W} P (get f) Q F
  unfolding get
  get_rule f h = record { at = λ w. h }

module _ {W D E : Type 0} {P : D → Type 0} {Q : Unit {0} → D → Type 0} {F : E → D → Type 0} where
  pub modify_rule : (f : D → D) → ((d : D) → P d → Q tt (f d)) → Triple {W = W} P (modify f) Q F
  unfolding modify
  modify_rule f h = record { at = λ w. h }

module _ {W D E A B : Type 0} {R : B → D → Type 0} {F : E → D → Type 0} where
  Ends-continue :
      (Q : A → D → Type 0) (r : Outcome E A) (f : A → Program W D E B) (s : Sys W D)
      → ((a : A) → Triple (Q a) (f a) R F)
      → Ends Q F r s.state
      → Ends R F (continue r f s).0 (continue r f s).1.state
  Ends-continue Q (done a) f s k h = (k a).at s.world s.state h
  Ends-continue Q (failed e) f s k h = h

  Ends-handled :
      (Q : A → D → Type 0) (G : E → D → Type 0) (r : Outcome E A) (f : A → Program W D E B)
      (g : E → Program W D E B) (s : Sys W D)
      → ((a : A) → Triple (Q a) (f a) R F)
      → ((e : E) → Triple (G e) (g e) R F)
      → Ends Q G r s.state
      → Ends R F (handled r f g s).0 (handled r f g s).1.state
  Ends-handled Q G (done a) f g s k l h = (k a).at s.world s.state h
  Ends-handled Q G (failed e) f g s k l h = (l e).at s.world s.state h

-- A step with the rest of its block.
module _ {W D E A B : Type 0} {P : D → Type 0} {R : B → D → Type 0} {F : E → D → Type 0} where
  pub bind_rule :
      (Q : A → D → Type 0) (m : Program W D E A) (f : A → Program W D E B)
      → Triple P m Q F
      → ((a : A) → Triple (Q a) (f a) R F)
      → Triple P (m >>= f) R F
  unfolding ◌>>=◌
  bind_rule Q m f t k = record {
    at = λ w d h.
        let s : Sys W D = record { world = w; state = d } in
        Ends-continue Q (m s).0 f (m s).1 k (t.at w d h);
  }

  pub catch_rule :
      (Q : A → D → Type 0) (G : E → D → Type 0) (m : Program W D E A) (f : A → Program W D E B)
      (g : E → Program W D E B)
      → Triple P m Q G
      → ((a : A) → Triple (Q a) (f a) R F)
      → ((e : E) → Triple (G e) (g e) R F)
      → Triple P (catch m f g) R F
  unfolding catch
  catch_rule Q G m f g t k l = record {
    at = λ w d h.
        let s : Sys W D = record { world = w; state = d } in
        Ends-handled Q G (m s).0 f g (m s).1 k l (t.at w d h);
  }

  -- Whatever the world answers.
  pub query_then :
      (q : W → A × W) (f : A → Program W D E B)
      → ((a : A) → Triple P (f a) R F)
      → Triple P (query q >>= f) R F
  unfolding ◌>>=◌ query
  query_then q f k = record { at = λ w d h. (k (q w).0).at (q w).1 d h }

  pub lift_then :
      (r : Outcome E A) (f : A → Program W D E B)
      → ((e : E) → r ≡ failed e → (d : D) → P d → F e d)
      → ((a : A) → r ≡ done a → Triple P (f a) R F)
      → Triple P (lift r >>= f) R F
  unfolding ◌>>=◌ lift
  lift_then (done a) f bad k = record { at = (k a refl).at }
  lift_then (failed e) f bad k = record { at = λ w. bad e refl }

  -- A value read from the state, with what the precondition knows of it.
  pub get_then :
      (g : D → A) (f : A → Program W D E B)
      → ((a : A) → Triple (λ d. P d × (g d ≡ a)) (f a) R F)
      → Triple P (get g >>= f) R F
  get_then g f k = bind_rule (λ a d. P d × (g d ≡ a)) (get g) f (get_rule g (λ d h. (h, refl))) k

module _ {W D E B : Type 0} {P : D → Type 0} {R : B → D → Type 0} {F : E → D → Type 0} where
  pub check_then :
      (r : Option E) (f : Unit {0} → Program W D E B)
      → ((e : E) → r ≡ some e → (d : D) → P d → F e d)
      → (r ≡ none → Triple P (f tt) R F)
      → Triple P (check r >>= f) R F
  unfolding ◌>>=◌ check
  check_then none f bad k = record { at = (k refl).at }
  check_then (some e) f bad k = record { at = λ w. bad e refl }

  pub modify_then :
      (Q : D → Type 0) (g : D → D) (f : Unit {0} → Program W D E B)
      → ((d : D) → P d → Q (g d))
      → Triple Q (f tt) R F
      → Triple P (modify g >>= f) R F
  modify_then Q g f h k = bind_rule (λ _. Q) (modify g) f (modify_rule g h) (λ _. k)

-- A fact that does not depend on the state leaves the precondition.
module _ {W D E A : Type 0} {G : Type 0} {P : D → Type 0} {Q : A → D → Type 0}
    {F : E → D → Type 0} where
  pub fact_rule : (m : Program W D E A) → (G → Triple P m Q F) → Triple (λ d. G × P d) m Q F
  fact_rule m k = record { at = λ w d h. (k h.0).at w d h.1 }
