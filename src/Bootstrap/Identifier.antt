-- ===== src/Bootstrap/Identifier.antt =====
-- internal/bootstrap/service.go and journal.go: the tests on identifiers, digests and transaction
-- identifiers. A validator returns its error, `none` for Go's nil. Go's `range` over a string decodes
-- runes, and any byte of 128 and above gives a rune that the test refuses; so the model walks bytes.
pub mod Laws
pub mod Moving
use mathlib.Core.List.{reverse}
use sovereignite.Base.{
  Bytes, same, to_lower, is_prefix, codes, ℕ, String, Bool, true, false, not, ◌&&◌, ◌||◌, Option,
  none, some, List, [], ◌∷◌, ltb, leb, ◌==◌, fail_if, first_error, length, all, any, if◌then◌else◌,
  ◌/◌,
}
use sovereignite.Bootstrap.Error.{
  Error, required, too_long, surrounding_whitespace, not_printable, moving_identifier,
}

abbrev pub max_identifier_size : ℕ
max_identifier_size = 256

-- The UTF-8 encodings of the runes that `strings.TrimSpace` removes.
abbrev pub spaces : List Bytes
spaces =
    (9 ∷ [])
    ∷ (10 ∷ [])
    ∷ (11 ∷ [])
    ∷ (12 ∷ [])
    ∷ (13 ∷ [])
    ∷ (32 ∷ [])
    ∷ (0xC2 ∷ 0x85 ∷ [])
    ∷ (0xC2 ∷ 0xA0 ∷ [])
    ∷ (0xE1 ∷ 0x9A ∷ 0x80 ∷ [])
    ∷ (0xE2 ∷ 0x80 ∷ 0x80 ∷ [])
    ∷ (0xE2 ∷ 0x80 ∷ 0x81 ∷ [])
    ∷ (0xE2 ∷ 0x80 ∷ 0x82 ∷ [])
    ∷ (0xE2 ∷ 0x80 ∷ 0x83 ∷ [])
    ∷ (0xE2 ∷ 0x80 ∷ 0x84 ∷ [])
    ∷ (0xE2 ∷ 0x80 ∷ 0x85 ∷ [])
    ∷ (0xE2 ∷ 0x80 ∷ 0x86 ∷ [])
    ∷ (0xE2 ∷ 0x80 ∷ 0x87 ∷ [])
    ∷ (0xE2 ∷ 0x80 ∷ 0x88 ∷ [])
    ∷ (0xE2 ∷ 0x80 ∷ 0x89 ∷ [])
    ∷ (0xE2 ∷ 0x80 ∷ 0x8A ∷ [])
    ∷ (0xE2 ∷ 0x80 ∷ 0xA8 ∷ [])
    ∷ (0xE2 ∷ 0x80 ∷ 0xA9 ∷ [])
    ∷ (0xE2 ∷ 0x80 ∷ 0xAF ∷ [])
    ∷ (0xE2 ∷ 0x81 ∷ 0x9F ∷ [])
    ∷ (0xE3 ∷ 0x80 ∷ 0x80 ∷ [])
    ∷ []

-- `strings.TrimSpace(value) != value`.
unfoldable pub has_surrounding_space : Bytes → Bool
unfolding is_prefix
has_surrounding_space v =
    any (λ w. is_prefix w v) spaces || any (λ w. is_prefix (reverse w) (reverse v)) spaces

-- `character < 0x21 || character > 0x7e`, negated.
abbrev pub is_printable : ℕ → Bool
is_printable c = not (ltb c 0x21 || ltb 0x7E c)

abbrev pub required_checks : String → Bytes → List (Option Error)
required_checks name value =
    fail_if (length value == 0) (required name)
    ∷ fail_if (ltb max_identifier_size (length value)) (too_long name)
    ∷ fail_if (has_surrounding_space value) (surrounding_whitespace name)
    ∷ fail_if (not (all is_printable value)) (not_printable name)
    ∷ []

unfoldable pub validate_required_identifier : String → Bytes → Option Error
validate_required_identifier name value = first_error (required_checks name value)

-- The `case` of the moving identifiers.
abbrev pub moving : List Bytes
moving =
    codes "latest"
    ∷ codes "main"
    ∷ codes "master"
    ∷ codes "head"
    ∷ codes "stable"
    ∷ codes "nightly"
    ∷ []

unfoldable pub is_moving : Bytes → Bool
unfolding same to_lower
is_moving value = any (λ m. same m (to_lower value)) moving

abbrev pub pinned_checks : String → Bytes → List (Option Error)
pinned_checks name value =
    validate_required_identifier name value
    ∷ fail_if (is_moving value) (moving_identifier name value)
    ∷ []

unfoldable pub validate_pinned_identifier : String → Bytes → Option Error
validate_pinned_identifier name value = first_error (pinned_checks name value)

-- `hex.DecodeString` accepts digits of either case, in pairs.
abbrev pub is_hex_digit : ℕ → Bool
is_hex_digit c = leb b'0' c && leb c b'9' || leb b'a' c && leb c b'f' || leb b'A' c && leb c b'F'

-- `err == nil` for `decoded, err := hex.DecodeString(value)`.
unfoldable pub decodes : Bytes → Bool
decodes [] = true
decodes (a ∷ []) = false
decodes (a ∷ b ∷ v) = is_hex_digit a && is_hex_digit b && decodes v

-- `sha256.Size` is 32.
unfoldable pub valid_sha256 : Bytes → Bool
valid_sha256 value =
    if not (length value == 64) || not (same (to_lower value) value)
    then false
    else decodes value && length value / 2 == 32

unfoldable pub valid_transaction_id : Bytes → Bool
valid_transaction_id value =
    if not (length value == 32) then false else decodes value && length value / 2 == 16
