-- ===== src/Base/Text.antt =====
-- Go strings and byte slices: lists of numbers, one for each byte. `codes` gives the bytes of an
-- ASCII literal.
use Prim.Native.Nat.{ℕ, ◌+◌, ◌-◌}
use Prim.Native.Char.{code}
use Prim.Native.String.{String}
use mathlib.Core.Path.{◌≡◌, refl}
use mathlib.Core.Logic.{◌↔◌}
use mathlib.Core.Bool.{Bool, true, false, ◌&&◌, ◌||◌}
use mathlib.Core.List.{List, [], ◌∷◌, reverse}
use native.Mathlib.Omega.{arith}
use sovereignite.Base.Tests.{leb, ◌==◌, if◌then◌else◌}

abbrev pub Bytes : Type 0
Bytes = List ℕ

abbrev pub codes : String → Bytes
codes String.[] = []
codes (String.◌∷◌ c s) = code c ∷ codes s

-- `==` on strings.
unfoldable pub same : Bytes → Bytes → Bool
same [] [] = true
same (a ∷ x) (b ∷ y) = a == b && same x y
same _ _ = false

pub same_refl : (x : Bytes) → same x x ≡ true
unfolding same
same_refl [] = refl
same_refl (a ∷ x) = ground (arith, same_refl x)

pub same-eq : (x y : Bytes) → same x y ≡ true → x ≡ y
unfolding same
same-eq [] [] h = refl
same-eq [] (b ∷ y) h = cc
same-eq (a ∷ x) [] h = cc
same-eq (a ∷ x) (b ∷ y) h = ground (arith, same-eq x y)

pub same_iff : (x y : Bytes) → (same x y ≡ true) ↔ (x ≡ y)
same_iff x y = (same-eq x y, λ e. rw e (same_refl y))

unfoldable pub is_prefix : Bytes → Bytes → Bool
is_prefix [] y = true
is_prefix (a ∷ x) [] = false
is_prefix (a ∷ x) (b ∷ y) = a == b && is_prefix x y

-- `strings.HasSuffix`.
unfoldable pub is_suffix : Bytes → Bytes → Bool
unfolding is_prefix
is_suffix x y = is_prefix (reverse x) (reverse y)

-- `bytes.Contains(y, x)`, and `strings.Contains`.
unfoldable pub contains : Bytes → Bytes → Bool
unfolding is_prefix
contains [] x = is_prefix x []
contains (b ∷ y) x = is_prefix x (b ∷ y) || contains y x

-- `strings.ToLower` and `strings.ToUpper` of one ASCII byte.
unfoldable pub lower : ℕ → ℕ
lower c = if leb b'A' c && leb c b'Z' then c + 32 else c

unfoldable pub upper : ℕ → ℕ
upper c = if leb b'a' c && leb c b'z' then c - 32 else c

-- `strings.ToLower` and `bytes.ToLower`, as far as a test against ASCII bytes sees it: the two
-- letters beyond ASCII with an ASCII lower case are U+0130 (0xC4 0xB0) and U+212A (0xE2 0x84 0xAA), and
-- any other byte of 128 and above stands for itself, since its lower case has no ASCII byte.
unfoldable pub to_lower : Bytes → Bytes
unfolding lower
to_lower [] = []
to_lower (a ∷ []) = lower a ∷ []
to_lower (a ∷ b ∷ []) = if a == 0xC4 && b == 0xB0 then b'i' ∷ [] else lower a ∷ lower b ∷ []
to_lower (a ∷ b ∷ c ∷ x) =
    let rest1 = to_lower x in
    let rest2 = to_lower (c ∷ x) in
    let rest3 = to_lower (b ∷ c ∷ x) in
    if a == 0xC4 && b == 0xB0
    then b'i' ∷ rest2
    else if a == 0xE2 && b == 0x84 && c == 0xAA
    then b'k' ∷ rest1
    else lower a ∷ rest3

-- `bytes.ToUpper`, likewise: U+0131 (0xC4 0xB1) and U+017F (0xC5 0xBF) have the upper cases I and S.
unfoldable pub to_upper : Bytes → Bytes
unfolding upper
to_upper [] = []
to_upper (a ∷ []) = upper a ∷ []
to_upper (a ∷ b ∷ x) =
    let rest1 = to_upper x in
    let rest2 = to_upper (b ∷ x) in
    if a == 0xC4 && b == 0xB1
    then b'I' ∷ rest1
    else if a == 0xC5 && b == 0xBF
    then b'S' ∷ rest1
    else upper a ∷ rest2
