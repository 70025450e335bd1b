-- ===== src/Bootstrap/Identifier/Laws.antt =====
-- What the tests on identifiers and digests accept.
use mathlib.Core.List.{reverse, reverse-append}
use sovereignite.Base.{
  Bytes, same, to_lower, lower, is_prefix, ℕ, ◌+◌, ◌≤◌, ◌<◌, String, Bool, true, false, not, ◌&&◌,
  ◌||◌, none, List, [], ◌∷◌, leb, ◌==◌, first_error, first_error-none, fail_if-none, &&-true, map,
  ◌-◌, length, all, any, All, ◌≡◌, refl, ◌↔◌, arith, ◌++◌, ◌∙◌, Bool-cases, inl, inr,
}
use sovereignite.Bootstrap.Identifier.Moving.{IsMovingName, is_moving_iff}
use sovereignite.Bootstrap.Identifier.{
  validate_required_identifier, validate_pinned_identifier, is_moving, is_printable,
  required_checks, pinned_checks, has_surrounding_space, spaces, is_hex_digit, decodes,
  valid_sha256,
}

-- What an accepted identifier is: 1 to 256 bytes of printable ASCII with no space.
pub record IsIdentifier (v : Bytes) : Type 0 where
  pub nonempty : 0 < length v
  pub bounded : length v ≤ 256
  pub printable : All (λ c. (0x21 ≤ c) × (c ≤ 0x7E)) v

all-printable : (v : Bytes) → all is_printable v ≡ true → All (λ c. (0x21 ≤ c) × (c ≤ 0x7E)) v
all-printable [] h = tt
all-printable (c ∷ v) h = (ground arith, all-printable v (ground arith))

printable-all : (v : Bytes) → All (λ c. (0x21 ≤ c) × (c ≤ 0x7E)) v → all is_printable v ≡ true
printable-all [] h = refl
printable-all (c ∷ v) h = ground (arith, printable-all v h.1)

-- A list of byte sequences, each of which begins with a byte that is not printable.
abbrev begins_unprintable : Bytes → Bool
begins_unprintable [] = false
begins_unprintable (c ∷ w) = not (is_printable c)

is_prefix-unprintable :
    (w v : Bytes) → begins_unprintable w ≡ true → all is_printable v ≡ true → is_prefix w v ≡ false
unfolding is_prefix
is_prefix-unprintable [] v b h = cc
is_prefix-unprintable (c ∷ w) [] b h = refl
is_prefix-unprintable (c ∷ w) (d ∷ v) b h = ground arith

any-is_prefix-unprintable :
    (f : Bytes → Bytes) (ws : List Bytes) (v : Bytes)
    → all (λ w. begins_unprintable (f w)) ws ≡ true
    → all is_printable v ≡ true
    → any (λ w. is_prefix (f w) v) ws ≡ false
any-is_prefix-unprintable f [] v b h = refl
any-is_prefix-unprintable f (w ∷ ws) v b h =
    ground (arith, is_prefix-unprintable (f w) v, any-is_prefix-unprintable f ws v)

all-append : (p : ℕ → Bool) (x y : Bytes) → all p (x ++ y) ≡ (all p x && all p y)
all-append p [] y = refl
all-append p (c ∷ x) y = ground (arith, all-append p x y)

all-reverse : (p : ℕ → Bool) (x : Bytes) → all p (reverse x) ≡ all p x
all-reverse p [] = refl
all-reverse p (c ∷ x) =
    rw (reverse-append (c ∷ []) x, all-append p (reverse x) (c ∷ []), all-reverse p x)
      (ground arith)

no_surrounding_space : (v : Bytes) → all is_printable v ≡ true → has_surrounding_space v ≡ false
unfolding has_surrounding_space
no_surrounding_space v h =
    rw
      (
        any-is_prefix-unprintable (λ w. w) spaces v refl h,
        any-is_prefix-unprintable reverse spaces (reverse v) refl (all-reverse is_printable v ∙ h),
      )
      refl

-- An identifier is accepted exactly when it is 1 to 256 bytes of printable ASCII with no space:
-- the separate test for surrounding white space refuses nothing that the others let through.
pub validate_required_identifier-IsIdentifier :
    (name : String) (v : Bytes) → (validate_required_identifier name v ≡ none) ↔ IsIdentifier v
unfolding validate_required_identifier first_error
validate_required_identifier-IsIdentifier name v = (
  λ h.
      let passed = first_error-none (required_checks name v) h in
      record {
        nonempty = ground (arith, fail_if-none _ _ passed.0);
        bounded = ground (arith, fail_if-none _ _ passed.1.0);
        printable = all-printable v (ground (arith, fail_if-none _ _ passed.1.1.1.0));
      },
  λ h. ground (arith, printable-all v h.printable, no_surrounding_space v),
)

-- A pinned identifier is an identifier that is none of the moving names, however its letters are written.
abbrev pub IsPinned : Bytes → Type 0
IsPinned v = IsIdentifier v × ¬ IsMovingName v

ascii : (v : Bytes) → All (λ c. (0x21 ≤ c) × (c ≤ 0x7E)) v → All (λ c. c ≤ 0x7E) v
ascii [] h = tt
ascii (c ∷ v) h = (h.0.1, ascii v h.1)

not_moving_iff : (v : Bytes) → IsIdentifier v → (is_moving v ≡ false) ↔ (¬ IsMovingName v)
not_moving_iff v h = (
  λ e n. cc (e, (is_moving_iff v (ascii v h.printable)).1 n),
  λ fixed. elim (Bool-cases (is_moving v)) [
    | inl e ↦ absurd (fixed ((is_moving_iff v (ascii v h.printable)).0 e))
    | inr e ↦ e
  ],
)

-- A version is accepted as pinned exactly when it is 1 to 256 bytes of printable ASCII without a space and is none of
-- latest, main, master, head, stable and nightly, with each letter small or capital.
pub validate_pinned_identifier-IsPinned :
    (name : String) (v : Bytes) → (validate_pinned_identifier name v ≡ none) ↔ IsPinned v
unfolding validate_pinned_identifier first_error
validate_pinned_identifier-IsPinned name v = (
  λ h.
      let passed = first_error-none (pinned_checks name v) h in
      let identifier = (validate_required_identifier-IsIdentifier name v).0 passed.0 in
      (identifier, (not_moving_iff v identifier).0 (fail_if-none _ _ passed.1.0)),
  λ h. rw ((validate_required_identifier-IsIdentifier name v).1 h.0, (not_moving_iff v h.0).1 h.1),
)

-- The bytes of a canonical digest: 64 of 0-9 and a-f.
abbrev pub is_lower_hex : ℕ → Bool
is_lower_hex c = leb b'0' c && leb c b'9' || leb b'a' c && leb c b'f'

abbrev pub IsDigest : Bytes → Type 0
IsDigest v = (length v ≡ 64) × (all is_lower_hex v ≡ true)

decodes-of_lower_hex :
    (v : Bytes) (k : ℕ) → all is_lower_hex v ≡ true → length v ≡ k + k → decodes v ≡ true
unfolding decodes
decodes-of_lower_hex [] k h e = refl
decodes-of_lower_hex (a ∷ []) k h e = absurd (omega arith)
decodes-of_lower_hex (a ∷ b ∷ v) k h e = ground (arith, decodes-of_lower_hex v (k - 1))

to_lower-of_lower_hex : (v : Bytes) → all is_lower_hex v ≡ true → same (to_lower v) v ≡ true
unfolding to_lower same
to_lower-of_lower_hex [] h = refl
to_lower-of_lower_hex (a ∷ []) h = ground arith
to_lower-of_lower_hex (a ∷ b ∷ []) h = ground arith
to_lower-of_lower_hex (a ∷ b ∷ c ∷ v) h = ground (arith, to_lower-of_lower_hex (b ∷ c ∷ v))

decodes-is_hex_digit : (v : Bytes) → decodes v ≡ true → all is_hex_digit v ≡ true
unfolding decodes
decodes-is_hex_digit [] d = refl
decodes-is_hex_digit (a ∷ []) d = cc
decodes-is_hex_digit (a ∷ b ∷ v) d = ground (arith, decodes-is_hex_digit v)

-- A hexadecimal digit begins no letter beyond ASCII.
not_lead : (a : ℕ) → is_hex_digit a ≡ true → ((a == 0xC4) ≡ false) × ((a == 0xE2) ≡ false)
not_lead a h = (ground arith, ground arith)

to_lower-of_hex : (v : Bytes) → all is_hex_digit v ≡ true → to_lower v ≡ map lower v
unfolding to_lower
to_lower-of_hex [] h = refl
to_lower-of_hex (a ∷ []) h = refl
to_lower-of_hex (a ∷ b ∷ []) h = rw (not_lead a (&&-true _ _ h).0).0
to_lower-of_hex (a ∷ b ∷ c ∷ v) h =
    let (ha, hv) = &&-true _ _ h in
    rw ((not_lead a ha).0, (not_lead a ha).1, to_lower-of_hex (b ∷ c ∷ v) hv)

lower_hex-of_same :
    (v : Bytes)
    → all is_hex_digit v ≡ true
    → same (map lower v) v ≡ true
    → all is_lower_hex v ≡ true
unfolding same lower
lower_hex-of_same [] d h = refl
lower_hex-of_same (a ∷ v) d h = ground (arith, lower_hex-of_same v)

lower_hex-of_to_lower :
    (v : Bytes) → same (to_lower v) v ≡ true → decodes v ≡ true → all is_lower_hex v ≡ true
lower_hex-of_to_lower v h d =
    let hex = decodes-is_hex_digit v d in lower_hex-of_same v hex (rw (to_lower-of_hex v hex) at h)

-- A digest is accepted exactly when it is 64 bytes, each of them 0-9 or a-f.
pub valid_sha256-IsDigest : (v : Bytes) → (valid_sha256 v ≡ true) ↔ IsDigest v
unfolding valid_sha256
valid_sha256-IsDigest v = (
  λ h. (ground arith, lower_hex-of_to_lower v (ground arith) (ground arith)),
  λ h. ground (arith, to_lower-of_lower_hex v, decodes-of_lower_hex v 32),
)
