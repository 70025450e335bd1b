-- ===== src/Bootstrap/Readiness/Groups.antt =====
-- Groups of hexadecimal digits in the boot identifier of internal/bootstrap/readiness.go: what the loop of
-- validBootID reads between two dashes.
use sovereignite.Base.{
  Bytes, ℕ, zero, suc, ◌+◌, ◌≤◌, ◌<◌, Bool, true, false, ◌&&◌, ◌||◌, [], ◌∷◌, ◌++◌, ◌==◌, All,
  length, Bool-cases, ◌≡◌, refl, ap, ◌⊎◌, inl, inr, arith, &&-true, leb, ◌∙◌, ==_iff,
}
use sovereignite.Bootstrap.Readiness.{is_lower_hex_digit, fits_index, fit_from}

abbrev pub IsHexDigit : ℕ → Type 0
IsHexDigit c = ((b'0' ≤ c) × (c ≤ b'9')) ⊎ ((b'a' ≤ c) × (c ≤ b'f'))

abbrev pub IsGroup : ℕ → Bytes → Type 0
IsGroup n g = (length g ≡ n) × All IsHexDigit g

abbrev pub is_separator : ℕ → Bool
is_separator i = i == 8 || i == 13 || i == 18 || i == 23

IsHexDigit-of : (c : ℕ) → is_lower_hex_digit c ≡ true → IsHexDigit c
IsHexDigit-of c h = elim (Bool-cases (leb b'0' c && leb c b'9')) [
  | inl digit ↦ inl (ground arith)
  | inr letter ↦ inr (ground arith)
]

hex_digit : (c : ℕ) → IsHexDigit c → is_lower_hex_digit c ≡ true
hex_digit c (inl h) = ground arith
hex_digit c (inr h) = ground arith

digit_of : (i c : ℕ) → is_separator i ≡ false → fits_index i c ≡ true → is_lower_hex_digit c ≡ true
digit_of i c inside h = rw inside at h

digit_fits :
    (i c : ℕ) → is_separator i ≡ false → is_lower_hex_digit c ≡ true → fits_index i c ≡ true
digit_fits i c inside h = rw inside h

first_of :
    (i c : ℕ) (rest : Bytes)
    → is_separator i ≡ true
    → fit_from i (c ∷ rest) ≡ true
    → (c ≡ b'-') × (fit_from (i + 1) rest ≡ true)
unfolding fit_from
first_of i c rest sep h =
    let (fits, later) = &&-true (fits_index i c) _ h in
    let dash : (c == b'-') ≡ true = rw sep at fits in ((==_iff c b'-').0 dash, later)

module _ (i n : ℕ) (inside : (k : ℕ) → k < suc n → is_separator (i + k) ≡ false) where
  here : is_separator i ≡ false
  here =
      let start : i + 0 ≡ i = omega arith in
      let found : is_separator (i + 0) ≡ false = inside 0 (omega arith) in rw start at found

  inside_later : (k : ℕ) → k < n → is_separator (i + 1 + k) ≡ false
  inside_later k less =
      let next : i + suc k ≡ i + 1 + k = omega arith in
      let found : is_separator (i + suc k) ≡ false = inside (suc k) (omega arith) in
      rw next at found

-- A group of digits at the front, and what follows it.
pub record Front (n i : ℕ) (v : Bytes) : Type 0 where
  pub group : Bytes
  pub rest : Bytes
  pub split : v ≡ group ++ rest
  pub digits : IsGroup n group
  pub follows : fit_from (i + n) rest ≡ true
  pub remaining : length v ≡ n + length rest

pub Front-of :
    (n i : ℕ) (v : Bytes)
    → ((k : ℕ) → k < n → is_separator (i + k) ≡ false)
    → n ≤ length v
    → fit_from i v ≡ true
    → Front n i v
unfolding fit_from
Front-of zero i v inside long h =
    let start : i + 0 ≡ i = omega arith in
    record {
      group = [];
      rest = v;
      split = refl;
      digits = (refl, tt);
      follows = rw start h;
      remaining = omega arith;
    }
Front-of (suc n) i [] inside long h = absurd (omega arith)
Front-of (suc n) i (c ∷ v) inside long h =
    let (fits, later) = &&-true (fits_index i c) _ h in
    let front = Front-of n (i + 1) v (inside_later i n inside) (omega arith) later in
    let next : i + suc n ≡ i + 1 + n = omega arith in
    record {
      group = c ∷ front.group;
      rest = front.rest;
      split = ap (λ x. c ∷ x) front.split;
      digits = (
        omega (arith, front.digits.0),
        (IsHexDigit-of c (digit_of i c (here i n inside) fits), front.digits.1),
      );
      follows = rw next front.follows;
      remaining = omega (arith, front.remaining);
    }

pub fit_from-append :
    (n i : ℕ) (g rest : Bytes)
    → IsGroup n g
    → ((k : ℕ) → k < n → is_separator (i + k) ≡ false)
    → fit_from (i + n) rest ≡ true
    → fit_from i (g ++ rest) ≡ true
unfolding fit_from
fit_from-append zero i [] rest h inside later =
    let start : i + 0 ≡ i = omega arith in rw start at later
fit_from-append zero i (c ∷ g) rest h inside later = absurd (omega (arith, h.0))
fit_from-append (suc n) i [] rest h inside later = absurd (omega (arith, h.0))
fit_from-append (suc n) i (c ∷ g) rest h inside later =
    let next : i + suc n ≡ i + 1 + n = omega arith in
    let fits = digit_fits i c (here i n inside) (hex_digit c h.1.0) in
    let rest_fits =
      fit_from-append n (i + 1) g rest (omega (arith, h.0), h.1.1) (inside_later i n inside)
        (rw next at later) in
    rw (fits, rest_fits) refl

-- A group of digits with the dash after it.
pub record Section (n m i : ℕ) (v : Bytes) : Type 0 where
  pub group : Bytes
  pub rest : Bytes
  pub split : v ≡ group ++ b'-' ∷ rest
  pub digits : IsGroup n group
  pub follows : fit_from (i + n + 1) rest ≡ true
  pub remaining : length rest ≡ m

pub Section-of :
    (n m i : ℕ) (v : Bytes)
    → ((k : ℕ) → k < n → is_separator (i + k) ≡ false)
    → is_separator (i + n) ≡ true
    → length v ≡ n + 1 + m
    → fit_from i v ≡ true
    → Section n m i v
Section-of n m i v inside sep long h =
    let front = Front-of n i v inside (omega (arith, long)) h in
    dashed front.group front.rest front.split front.digits front.follows front.remaining
  where
    dashed :
        (g rest : Bytes)
        → v ≡ g ++ rest
        → IsGroup n g
        → fit_from (i + n) rest ≡ true
        → length v ≡ n + length rest
        → Section n m i v
    dashed g [] split digits follows remaining = absurd (omega (arith, long, remaining))
    dashed g (c ∷ rest) split digits follows remaining =
        let (dash, later) = first_of (i + n) c rest sep follows in
        record {
          group = g;
          rest = rest;
          split = split ∙ ap (λ x. g ++ x ∷ rest) dash;
          digits = digits;
          follows = later;
          remaining = omega (arith, long, remaining);
        }
