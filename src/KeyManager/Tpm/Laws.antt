-- ===== src/KeyManager/Tpm/Laws.antt =====
-- Equality of templates, and what a canonical public key shows.
use sovereignite.Base.{
  Bytes, same_refl, same-eq, ◌<◌, Bool, true, false, Option, none, some, ◌∷◌, length, first_error,
  first_error-none, fail_if-none, ◌≡◌, refl, arith,
}
use sovereignite.Base.Effect.{Outcome, done}
use sovereignite.KeyManager.Error.{Error}
use sovereignite.KeyManager.Tpm.{
  ObjectAttributes, Template, same_bool, same_attributes, same_template, Public, encoded_unless,
  public_area_checks, canonical_public_key,
}

same_bool-eq : (a b : Bool) → same_bool a b ≡ true → a ≡ b
same_bool-eq true b h = ground arith
same_bool-eq false b h = ground arith

same_bool_refl : (a : Bool) → same_bool a a ≡ true
same_bool_refl true = refl
same_bool_refl false = refl

same_attributes-eq : (a b : ObjectAttributes) → same_attributes a b ≡ true → a ≡ b
unfolding same_attributes
same_attributes-eq a b h = ground arith

same_attributes_refl : (a : ObjectAttributes) → same_attributes a a ≡ true
unfolding same_attributes
same_attributes_refl a = ground arith

pub same_template-eq : (t u : Template) → same_template t u ≡ true → t ≡ u
unfolding same_template
same_template-eq t u h = ground (
  arith,
  same-eq t.algorithm u.algorithm,
  same-eq t.name_hash u.name_hash,
  same_attributes-eq t.attributes u.attributes,
  same-eq t.curve u.curve,
  same-eq t.signing_scheme u.signing_scheme,
)

pub same_template_refl : (t : Template) → same_template t t ≡ true
unfolding same_template
same_template_refl t = ground (
  arith,
  same_refl t.algorithm,
  same_refl t.name_hash,
  same_attributes_refl t.attributes,
  same_refl t.curve,
  same_refl t.signing_scheme,
)

encoded_unless-done :
    (o : Option Error) (v : Option Bytes) (der : Bytes)
    → encoded_unless o v ≡ done der
    → (o ≡ none) × (0 < length der)
encoded_unless-done (some e) v der h = cc
encoded_unless-done none none der h = cc
encoded_unless-done none (some v) der h = (refl, rw (← encoding (0x30 ∷ v) der h) (omega arith))
  where
    encoding : (a b : Bytes) → ◌≡◌ {A = Outcome Error Bytes} (done a) (done b) → a ≡ b
    encoding a b h = cc

-- A canonical public key is of a named object and is not empty.
pub canonical_public_key-done :
    (p : Public) (der : Bytes)
    → canonical_public_key p ≡ done der
    → (0 < length p.name) × (0 < length der)
unfolding canonical_public_key
canonical_public_key-done p der h =
    let (passed, full) =
      encoded_unless-done (first_error (public_area_checks p)) p.public_key.encoded der h in
    let c = first_error-none (public_area_checks p) passed in
    (ground (arith, fail_if-none _ _ c.1.0), full)
