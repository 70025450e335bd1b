-- ===== src/Bootstrap/Readiness/BootId.antt =====
-- The boot identifier of internal/bootstrap/readiness.go as the kernel writes it: validBootID accepts
-- this form and no other.
use mathlib.Core.List.{append-nil}
use sovereignite.Base.{
  Bytes, ℕ, suc, ◌+◌, ◌≤◌, true, [], ◌∷◌, ◌++◌, length, ◌≡◌, refl, ap, ◌↔◌, arith, ◌∙◌,
  length-append,
}
use sovereignite.Bootstrap.Readiness.{fit_from, valid_boot_id}
use sovereignite.Bootstrap.Readiness.Groups.{
  IsGroup, Front, Section, Front-of, Section-of, fit_from-append,
}

-- Five groups of 8, 4, 4, 4 and 12 hexadecimal digits with dashes between them.
pub record IsBootId (v : Bytes) : Type 0 where
  pub time_low : Bytes
  pub time_mid : Bytes
  pub time_high : Bytes
  pub clock : Bytes
  pub node : Bytes
  pub shape :
      v ≡ time_low ++ b'-' ∷ (time_mid ++ b'-' ∷ (time_high ++ b'-' ∷ (clock ++ b'-' ∷ node)))
  pub eight : IsGroup 8 time_low
  pub four : IsGroup 4 time_mid
  pub next_four : IsGroup 4 time_high
  pub last_four : IsGroup 4 clock
  pub twelve : IsGroup 12 node

empty_of : (v : Bytes) → length v ≡ 0 → v ≡ []
empty_of [] h = refl
empty_of (c ∷ v) h = absurd (omega (arith, h))

at_most_refl : (n : ℕ) (v : Bytes) → length v ≡ n → n ≤ length v
at_most_refl n v h = omega (arith, h)

none_left : (n : ℕ) (v w : Bytes) → length v ≡ n → length v ≡ n + length w → length w ≡ 0
none_left n v w h k = omega (arith, h, k)

IsBootId-sections :
    (v : Bytes) (a : Section 8 27 0 v) (b : Section 4 22 9 a.rest) (c : Section 4 17 14 b.rest)
    (d : Section 4 12 19 c.rest) (e : Front 12 24 d.rest)
    → IsBootId v
IsBootId-sections v a b c d e =
    let end = empty_of e.rest (none_left 12 d.rest e.rest d.remaining e.remaining) in
    let last : d.rest ≡ e.group = e.split ∙ (ap (λ x. e.group ++ x) end ∙ append-nil e.group) in
    record {
      time_low = a.group;
      time_mid = b.group;
      time_high = c.group;
      clock = d.group;
      node = e.group;
      shape = rw (← last, ← d.split, ← c.split, ← b.split) a.split;
      eight = a.digits;
      four = b.digits;
      next_four = c.digits;
      last_four = d.digits;
      twelve = e.digits;
    }

IsBootId-of : (v : Bytes) → length v ≡ 36 → fit_from 0 v ≡ true → IsBootId v
IsBootId-of v long h =
    let a = Section-of 8 27 0 v (λ k l. ground arith) refl long h in
    let b = Section-of 4 22 9 a.rest (λ k l. ground arith) refl a.remaining a.follows in
    let c = Section-of 4 17 14 b.rest (λ k l. ground arith) refl b.remaining b.follows in
    let d = Section-of 4 12 19 c.rest (λ k l. ground arith) refl c.remaining c.follows in
    IsBootId-sections v a b c d
      (Front-of 12 24 d.rest (λ k l. ground arith) (at_most_refl 12 d.rest d.remaining) d.follows)

IsBootId-length : (v : Bytes) → IsBootId v → length v ≡ 36
IsBootId-length v h =
    let parts : length v
        ≡ length h.time_low
          + suc (
              length h.time_mid
              + suc (length h.time_high + suc (length h.clock + suc (length h.node)))) =
      rw
        (
          h.shape,
          length-append h.time_low _,
          length-append h.time_mid _,
          length-append h.time_high _,
          length-append h.clock _,
        )
        refl in
    omega (arith, parts, h.eight.0, h.four.0, h.next_four.0, h.last_four.0, h.twelve.0)

last_fits : (g : Bytes) → IsGroup 12 g → fit_from 24 g ≡ true
unfolding fit_from
last_fits g h =
    let whole : fit_from 24 (g ++ []) ≡ true =
      fit_from-append 12 24 g [] h (λ k l. ground arith) refl in
    rw (append-nil g) at whole

IsBootId-fit : (v : Bytes) → IsBootId v → fit_from 0 v ≡ true
unfolding fit_from
IsBootId-fit v h = rw h.shape (
    fit_from-append 8 0 h.time_low _ h.eight (λ k l. ground arith)
      (fit_from-append 4 9 h.time_mid _ h.four (λ k l. ground arith)
        (fit_from-append 4 14 h.time_high _ h.next_four (λ k l. ground arith)
          (fit_from-append 4 19 h.clock _ h.last_four (λ k l. ground arith)
            (last_fits h.node h.twelve)))))

-- validBootID accepts exactly the identifiers of 8, 4, 4, 4 and 12 digits of 0-9 and a-f with dashes between the groups.
pub valid_boot_id-IsBootId : (v : Bytes) → (valid_boot_id v ≡ true) ↔ IsBootId v
unfolding valid_boot_id
valid_boot_id-IsBootId v = (
  λ h. IsBootId-of v (ground arith) (ground arith),
  λ h. rw (IsBootId-length v h) (IsBootId-fit v h),
)
