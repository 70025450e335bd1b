-- ===== src/KeyManager/Outcome.antt =====
-- Chains of outcomes without a state, and what a chain that succeeded has passed.
use sovereignite.Base.{Option, none, some, ◌≡◌, refl}
use sovereignite.Base.Effect.{Outcome, done, failed, verdict}
use sovereignite.KeyManager.Error.{Error}

abbrev pub guard : Option Error → Outcome Error (Unit {0})
guard = verdict

module _ {A B : Type 0} where
  infixl 5 ◌>>=◌ ◌>>◌
  abbrev pub ◌>>=◌ : Outcome Error A → (A → Outcome Error B) → Outcome Error B
  done a >>= rest = rest a
  failed e >>= rest = failed e

  abbrev pub ◌>>◌ : Outcome Error A → Outcome Error B → Outcome Error B
  m >> n = m >>= λ _. n

  pub >>=-done :
      (m : Outcome Error A) (rest : A → Outcome Error B) {b : B}
      → (m >>= rest) ≡ done b
      → (a : A) × (m ≡ done a) × (rest a ≡ done b)
  >>=-done (done a) rest h = (a, refl, h)
  >>=-done (failed e) rest h = cc

pub guard-done :
    {A : Type 0} (r : Option Error) (m : Outcome Error A) {a : A}
    → (guard r >> m) ≡ done a
    → (r ≡ none) × (m ≡ done a)
guard-done none m h = (refl, h)
guard-done (some e) m h = cc

pub done-injective : {A : Type 0} (a b : A) → ◌≡◌ {A = Outcome Error A} (done a) (done b) → a ≡ b
done-injective a b h = cc
