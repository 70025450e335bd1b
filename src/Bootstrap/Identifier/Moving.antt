-- ===== src/Bootstrap/Identifier/Moving.antt =====
-- The moving names that validatePinnedIdentifier of internal/bootstrap/service.go refuses, as a reader
-- of them would list them.
use sovereignite.Base.{
  Bytes, codes, same, to_lower, lower, ℕ, ◌+◌, ◌≤◌, Bool, true, false, ◌&&◌, ◌||◌, List, [], ◌∷◌,
  leb, map, any, All, all, ◌==◌, ◌≡◌, refl, ◌↔◌, ◌⊎◌, inl, inr, arith, Bool-cases,
}
use sovereignite.Bootstrap.Identifier.{is_moving, moving}

-- Each letter of the word, small or capital.
abbrev pub IsSpelling : Bytes → Bytes → Type 0
IsSpelling [] [] = Unit {0}
IsSpelling (l ∷ word) (c ∷ v) = ((c ≡ l) ⊎ (c + 32 ≡ l)) × IsSpelling word v
IsSpelling _ _ = ⊥

pub data IsMovingName (v : Bytes) : Type 0 where
  is_latest : IsSpelling (codes "latest") v → IsMovingName v
  is_main : IsSpelling (codes "main") v → IsMovingName v
  is_master : IsSpelling (codes "master") v → IsMovingName v
  is_head : IsSpelling (codes "head") v → IsMovingName v
  is_stable : IsSpelling (codes "stable") v → IsMovingName v
  is_nightly : IsSpelling (codes "nightly") v → IsMovingName v

abbrev is_small : ℕ → Bool
is_small l = leb b'a' l && leb l b'z'

case_of : (l c : ℕ) → (l == lower c) ≡ true → (c ≡ l) ⊎ (c + 32 ≡ l)
unfolding lower
case_of l c h = elim (Bool-cases (leb b'A' c && leb c b'Z')) [
  | inl capital ↦ inr (ground arith)
  | inr other ↦ inl (ground arith)
]

IsSpelling-of_same : (word v : Bytes) → same word (map lower v) ≡ true → IsSpelling word v
unfolding same lower
IsSpelling-of_same [] [] h = tt
IsSpelling-of_same [] (c ∷ v) h = cc
IsSpelling-of_same (l ∷ word) [] h = cc
IsSpelling-of_same (l ∷ word) (c ∷ v) h =
    (case_of l c (ground arith), IsSpelling-of_same word v (ground arith))

same-of_spelling :
    (word v : Bytes) → all is_small word ≡ true → IsSpelling word v → same word (map lower v) ≡ true
unfolding same lower
same-of_spelling [] [] small h = refl
same-of_spelling [] (c ∷ v) small h = absurd h
same-of_spelling (l ∷ word) [] small h = absurd h
same-of_spelling (l ∷ word) (c ∷ v) small (inl p, h) = ground (arith, same-of_spelling word v)
same-of_spelling (l ∷ word) (c ∷ v) small (inr p, h) = ground (arith, same-of_spelling word v)

not_lead : (a : ℕ) → a ≤ 0x7E → ((a == 0xC4) ≡ false) × ((a == 0xE2) ≡ false)
not_lead a h = (ground arith, ground arith)

to_lower-of_ascii : (v : Bytes) → All (λ c. c ≤ 0x7E) v → to_lower v ≡ map lower v
unfolding to_lower
to_lower-of_ascii [] h = refl
to_lower-of_ascii (a ∷ []) h = refl
to_lower-of_ascii (a ∷ b ∷ []) h = rw (not_lead a h.0).0
to_lower-of_ascii (a ∷ b ∷ c ∷ v) h =
    rw ((not_lead a h.0).0, (not_lead a h.0).1, to_lower-of_ascii (b ∷ c ∷ v) h.1)

either_true : (a b : Bool) → (a || b) ≡ true → (a ≡ true) ⊎ (b ≡ true)
either_true true b h = inl refl
either_true false b h = inr h

abbrev SpellsOneOf : Bytes → List Bytes → Type 0
SpellsOneOf v [] = ⊥
SpellsOneOf v (m ∷ ms) = IsSpelling m v ⊎ SpellsOneOf v ms

SpellsOneOf-any :
    (v : Bytes) (ms : List Bytes) → any (λ m. same m (map lower v)) ms ≡ true → SpellsOneOf v ms
SpellsOneOf-any v [] h = cc
SpellsOneOf-any v (m ∷ ms) h = elim (either_true (same m (map lower v)) _ h) [
  | inl p ↦ inl (IsSpelling-of_same m v p)
  | inr q ↦ inr (SpellsOneOf-any v ms q)
]

IsMovingName-of : (v : Bytes) → SpellsOneOf v moving → IsMovingName v
IsMovingName-of v (inl n) = is_latest n
IsMovingName-of v (inr (inl n)) = is_main n
IsMovingName-of v (inr (inr (inl n))) = is_master n
IsMovingName-of v (inr (inr (inr (inl n)))) = is_head n
IsMovingName-of v (inr (inr (inr (inr (inl n))))) = is_stable n
IsMovingName-of v (inr (inr (inr (inr (inr (inl n)))))) = is_nightly n
IsMovingName-of v (inr (inr (inr (inr (inr (inr n)))))) = absurd n

any-moving : (v : Bytes) → IsMovingName v → any (λ m. same m (map lower v)) moving ≡ true
any-moving v (is_latest n) = rw (same-of_spelling (codes "latest") v refl n) refl
any-moving v (is_main n) = ground (arith, same-of_spelling (codes "main") v refl n)
any-moving v (is_master n) = ground (arith, same-of_spelling (codes "master") v refl n)
any-moving v (is_head n) = ground (arith, same-of_spelling (codes "head") v refl n)
any-moving v (is_stable n) = ground (arith, same-of_spelling (codes "stable") v refl n)
any-moving v (is_nightly n) = ground (arith, same-of_spelling (codes "nightly") v refl n)

-- An ASCII name is refused exactly when it is one of the six, in whatever case.
pub is_moving_iff : (v : Bytes) → All (λ c. c ≤ 0x7E) v → (is_moving v ≡ true) ↔ IsMovingName v
unfolding is_moving
is_moving_iff v ascii = (
  λ h. IsMovingName-of v (SpellsOneOf-any v moving (rw (to_lower-of_ascii v ascii) at h)),
  λ n. rw (to_lower-of_ascii v ascii) (any-moving v n),
)
