-- ===== src/Base/Tests.antt =====
-- Boolean tests on the native numbers, the conditional, and case splits that keep their equation.
use Prim.Native.Nat.{ℕ, compare, Ordering}
use mathlib.Core.Path.{◌≡◌, refl}
use mathlib.Core.Logic.{◌↔◌, ◌⊎◌, inl, inr}
use mathlib.Core.Bool.{Bool, true, false, not, ◌&&◌}
use mathlib.Core.List.{List, [], ◌∷◌}
use mathlib.Core.Option.{Option, none, some}
use sovereignite.Base.Lists.{All}
use native.Mathlib.Omega.{arith}

abbrev pub ltb : ℕ → ℕ → Bool
ltb a b = elim (compare a b) [ Ordering.lt ↦ true | _ ↦ false ]

abbrev pub leb : ℕ → ℕ → Bool
leb a b = elim (compare a b) [ Ordering.gt ↦ false | _ ↦ true ]

infix 50 ◌==◌
abbrev pub ◌==◌ : ℕ → ℕ → Bool
a == b = elim (compare a b) [ Ordering.eq ↦ true | _ ↦ false ]

infix 1 if◌then◌else◌
abbrev pub if◌then◌else◌ {ℓ} : {A : Type ℓ} → Bool → A → A → A
if true then x else y = x
if false then x else y = y

-- `if bad { return e }`.
abbrev pub fail_if {ℓ} : {A : Type ℓ} → Bool → A → Option A
fail_if true e = some e
fail_if false e = none

-- A row of Go's `if err := check; err != nil { return err }`: the first error of a list of results.
unfoldable pub first_error {ℓ} : {A : Type ℓ} → List (Option A) → Option A
first_error [] = none
first_error (none ∷ rest) = first_error rest
first_error (some e ∷ rest) = some e

abbrev pub is_some {ℓ} : {A : Type ℓ} → Option A → Bool
is_some none = false
is_some (some _) = true

pub ==_iff : (a b : ℕ) → ((a == b) ≡ true) ↔ (a ≡ b)
==_iff a b = ground arith

pub Bool-cases : (b : Bool) → (b ≡ true) ⊎ (b ≡ false)
Bool-cases true = inl refl
Bool-cases false = inr refl

pub Option-cases {ℓ} : {A : Type ℓ} (o : Option A) → (o ≡ none) ⊎ ((a : A) × (o ≡ some a))
Option-cases none = inl refl
Option-cases (some a) = inr (a, refl)

pub &&-true : (a b : Bool) → ((a && b) ≡ true) → (a ≡ true) × (b ≡ true)
&&-true a b h = ground arith

pub fail_if-none {ℓ} : {A : Type ℓ} (b : Bool) (e : A) → fail_if b e ≡ none → b ≡ false
fail_if-none true e h = cc
fail_if-none false e h = refl

module _ {ℓ} {A : Type ℓ} where
  -- No check of a row fails exactly when each of them passes.
  pub first_error-none :
      (checks : List (Option A)) → first_error checks ≡ none → All (λ r. r ≡ none) checks
  unfolding first_error
  first_error-none [] h = tt
  first_error-none (none ∷ rest) h = (refl, first_error-none rest h)
  first_error-none (some e ∷ rest) h = cc

  pub none-first_error :
      (checks : List (Option A)) → All (λ r. r ≡ none) checks → first_error checks ≡ none
  unfolding first_error
  none-first_error [] h = refl
  none-first_error (r ∷ rest) h = rw h.0 (none-first_error rest h.1)

pub fail_if-false {ℓ} : {A : Type ℓ} (b : Bool) (e : A) → b ≡ false → fail_if b e ≡ none
fail_if-false b e h = rw h

-- `fail_if (not b)` passes exactly when `b` holds.
pub passes {ℓ} : {A : Type ℓ} (b : Bool) (e : A) → fail_if (not b) e ≡ none → b ≡ true
passes true e h = refl
passes false e h = cc

pub pass_iff {ℓ} :
    {A : Type ℓ} (checks : List (Option A))
    → (first_error checks ≡ none) ↔ All (λ r. r ≡ none) checks
pass_iff checks = (first_error-none checks, none-first_error checks)
