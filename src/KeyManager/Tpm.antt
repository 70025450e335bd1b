-- ===== src/KeyManager/Tpm.antt =====
-- internal/tpm/backend.go: handles, templates and public areas. Go's string types are bytes here. What
-- `crypto` knows of a key is given with it.
pub mod Laws
use sovereignite.Base.{
  Bytes, same, codes, ℕ, Bool, true, false, not, ◌&&◌, ◌||◌, Option, none, some, List, [], leb,
  ◌==◌, fail_if, first_error, length, if◌then◌else◌, ◌∷◌,
}
use sovereignite.Base.Effect.{Outcome, done, failed, outcome_or}
use sovereignite.KeyManager.Error
use sovereignite.KeyManager.Error.{Error}

abbrev pub Handle : Type 0
Handle = ℕ

-- `Handle.IsPersistent`.
abbrev pub is_persistent : Handle → Bool
is_persistent h = leb 0x81000000 h && leb h 0x817FFFFF

abbrev pub Algorithm : Type 0
Algorithm = Bytes

abbrev pub algorithm_rsa_4096 : Algorithm
algorithm_rsa_4096 = codes "rsa-4096"

abbrev pub algorithm_ecdsa_p256 : Algorithm
algorithm_ecdsa_p256 = codes "ecdsa-p256"

abbrev pub algorithm_ed25519 : Algorithm
algorithm_ed25519 = codes "ed25519"

pub record ObjectAttributes : Type 0 where
  pub fixed_tpm : Bool
  pub fixed_parent : Bool
  pub sensitive_data_origin : Bool
  pub user_with_auth : Bool
  pub sign_encrypt : Bool
  pub no_da : Bool

-- The two numbers of a decoded template are not negative.
pub record Template : Type 0 where
  pub algorithm : Algorithm
  pub name_hash : Bytes
  pub attributes : ObjectAttributes
  pub rsa_bits : ℕ
  pub rsa_exponent : ℕ
  pub curve : Bytes
  pub signing_scheme : Bytes

abbrev same_bool : Bool → Bool → Bool
same_bool true b = b
same_bool false b = not b

unfoldable pub same_attributes : ObjectAttributes → ObjectAttributes → Bool
same_attributes a b =
    same_bool a.fixed_tpm b.fixed_tpm
    && same_bool a.fixed_parent b.fixed_parent
    && same_bool a.sensitive_data_origin b.sensitive_data_origin
    && same_bool a.user_with_auth b.user_with_auth
    && same_bool a.sign_encrypt b.sign_encrypt
    && same_bool a.no_da b.no_da

-- `==` on templates.
unfoldable pub same_template : Template → Template → Bool
same_template t u =
    same t.algorithm u.algorithm
    && same t.name_hash u.name_hash
    && same_attributes t.attributes u.attributes
    && t.rsa_bits == u.rsa_bits
    && t.rsa_exponent == u.rsa_exponent
    && same t.curve u.curve
    && same t.signing_scheme u.signing_scheme

abbrev all_attributes : ObjectAttributes
all_attributes = record {
  fixed_tpm = true;
  fixed_parent = true;
  sensitive_data_origin = true;
  user_with_auth = true;
  sign_encrypt = true;
  no_da = true;
}

abbrev template_with : Algorithm → ℕ → ℕ → Bytes → Bytes → Template
template_with algorithm bits exponent curve scheme = record {
  algorithm = algorithm;
  name_hash = codes "sha256";
  attributes = all_attributes;
  rsa_bits = bits;
  rsa_exponent = exponent;
  curve = curve;
  signing_scheme = scheme;
}

-- `SigningTemplate`.
unfoldable pub signing_template : Algorithm → Outcome Error Template
signing_template a =
    if same a algorithm_rsa_4096
    then done (template_with a 4096 65537 [] (codes "rsassa-sha256"))
    else if same a algorithm_ecdsa_p256
    then done (template_with a 0 0 (codes "P-256") (codes "ecdsa-sha256"))
    else if same a algorithm_ed25519
    then done (template_with a 0 0 (codes "Ed25519") (codes "ed25519"))
    else failed (Error.unsupported_algorithm a)

-- A `crypto.PublicKey`: what `ValidatePublicKey` asks of it, and its encoding by
-- `x509.MarshalPKIXPublicKey`, if it has one: an ASN.1 sequence, of which the tag is left out here.
pub data KeyKind : Type 0 where
  rsa_key : ℕ → ℕ → KeyKind  -- the bits of the modulus, and the exponent
  ecdsa_key : Bool → KeyKind  -- whether it is a valid point of P-256
  ed25519_key : ℕ → KeyKind  -- the length
  other_key : KeyKind

pub record PublicKey : Type 0 where
  pub kind : KeyKind
  pub encoded : Option Bytes

pub record Public : Type 0 where
  pub handle : Handle
  pub name : Bytes
  pub template : Template
  pub public_key : PublicKey

pub record ObjectReference : Type 0 where
  pub handle : Handle
  pub name : Bytes
  pub template : Template

-- The switch of `ValidatePublicKey`.
abbrev fits_kind : Algorithm → KeyKind → Bool
fits_kind a (rsa_key bits exponent) = same a algorithm_rsa_4096 && bits == 4096 && exponent == 65537
fits_kind a (ecdsa_key valid) = same a algorithm_ecdsa_p256 && valid
fits_kind a (ed25519_key size) = same a algorithm_ed25519 && size == 32
fits_kind a other_key = false

abbrev template_check : Outcome Error Template → Template → PublicKey → Option Error
template_check (failed e) t key = some e
template_check (done expected) t key = first_error (
    fail_if (not (same_template t expected)) Error.key_template
    ∷ fail_if (not (fits_kind t.algorithm key.kind)) Error.key_kind
    ∷ [])

unfoldable pub validate_public_key : Template → PublicKey → Option Error
validate_public_key t key = template_check (signing_template t.algorithm) t key

-- The DER encoding, which starts with the tag of a sequence.
abbrev pub tagged : Option Bytes → Option Bytes
tagged none = none
tagged (some v) = some (0x30 ∷ v)

abbrev pub encoded_unless : Option Error → Option Bytes → Outcome Error Bytes
encoded_unless (some e) der = failed e
encoded_unless none der = outcome_or (tagged der) Error.key_encoding

abbrev pub public_area_checks : Public → List (Option Error)
public_area_checks p =
    fail_if (not (is_persistent p.handle)) Error.key_not_persistent
    ∷ fail_if (length p.name == 0) Error.key_name_empty
    ∷ validate_public_key p.template p.public_key
    ∷ []

-- `CanonicalPublicKey`.
unfoldable pub canonical_public_key : Public → Outcome Error Bytes
canonical_public_key p = encoded_unless (first_error (public_area_checks p)) p.public_key.encoded
