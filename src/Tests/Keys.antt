-- ===== src/Tests/Keys.antt =====
-- A sample world for the key manager: a TPM that keeps what is created in it, a clock that stands still, and a file
-- system without faults.
use sovereignite.Base.{
  same, true, false, codes, Option, none, some, List, [], ◌∷◌, ◌==◌, refl, if◌then◌else◌,
}
use sovereignite.Base.{first_error}
use sovereignite.Base.Dict.{lookup, insert}
use sovereignite.Base.Effect.{Outcome, done, failed}
use sovereignite.KeyManager.Error.{Error}
use sovereignite.KeyManager.Policy.{
  Role, purpose_certificate_authority, Configured, default_policies, collect_policies,
  claim_handles, purpose_check, owner_of, has_handle, matches_role_pattern, validate_policies,
}
use sovereignite.KeyManager.Policy.WellFormed.{IsWellFormed, validate_policies-IsWellFormed}
use sovereignite.KeyManager.Tpm.{
  algorithm_ecdsa_p256, signing_template, Handle, Template, Public, rsa_key, ecdsa_key, ed25519_key,
  KeyKind,
}
use sovereignite.KeyManager.Machine.{
  TpmError, not_found, Creation, prepares, ends, Setting, Keeping,
}
use sovereignite.KeyManager.Snapshot.{zero_snapshot, KeyMetadata, Snapshot}
use sovereignite.KeyManager.Store.Laws.{IsCodec}
use sovereignite.Tests.Codec.{
  encode_sample, decode_sample, decode_sample-Unique, decode_sample-encode,
}

abbrev found_or_not : Option Public → Outcome TpmError Public
found_or_not none = failed not_found
found_or_not (some p) = done p

unfoldable pub find_object : Handle → List Public → Option Public
find_object h [] = none
find_object h (p ∷ ps) = if p.handle == h then some p else find_object h ps

unfoldable pub remove_object : Handle → List Public → List Public
remove_object h [] = []
remove_object h (p ∷ ps) = let rest = remove_object h ps in if p.handle == h then rest else p ∷ rest

abbrev pub sample_kind : Template → KeyKind
sample_kind t =
    if t.rsa_bits == 4096
    then rsa_key 4096 65537
    else if same t.curve (codes "P-256")
    then ecdsa_key true
    else ed25519_key 32

abbrev pub sample_object : Handle → Template → Public
sample_object h t = record {
  handle = h;
  name = h ∷ [];
  template = t;
  public_key = record { kind = sample_kind t; encoded = some (h ∷ []) };
}

abbrev finish : Public → Option Error → List Public → Creation (List Public)
finish p none w = ends (done p) (p ∷ w)
finish p (some e) w = ends (failed 1) w

abbrev sample_configured : Outcome Error Configured → Configured
sample_configured (done c) = c
sample_configured (failed e) = record { policies = []; order = [] }

abbrev pub sample_setting : Setting
sample_setting = record {
  World = List Public;
  context_err = λ w. (none, w);
  now = λ w. (1000, w);
  supports = λ a w. (none, w);
  read_public = λ h w. (found_or_not (find_object h w), w);
  create_persistent = λ h t w. prepares (sample_object h t) w (finish (sample_object h t));
  evict_persistent = λ o w. (none, remove_object o.handle w);
  fault = λ p w. (none, w);
  encode = encode_sample;
  decode = decode_sample;
  configured = sample_configured (validate_policies default_policies);
}

pub sample_codec : IsCodec sample_setting
sample_codec = record {
  decoded_unique = decode_sample-Unique;
  round_trip = λ s b v h. decode_sample-encode s b h;
}

pub sample-IsWellFormed : IsWellFormed sample_setting.configured.policies
unfolding validate_policies collect_policies claim_handles purpose_check lookup insert owner_of
    has_handle matches_role_pattern signing_template first_error same
sample-IsWellFormed = validate_policies-IsWellFormed default_policies sample_setting.configured refl

-- Nothing is loaded, and there is no file.
abbrev pub first_keeping : Keeping
first_keeping = record { loaded = false; memory = zero_snapshot; file = none; trace = [] }

abbrev pub sample_role : Role
sample_role = codes "etcd-ca"

abbrev pub ecdsa_template : Template
ecdsa_template = record {
  algorithm = algorithm_ecdsa_p256;
  name_hash = codes "sha256";
  attributes = record {
    fixed_tpm = true;
    fixed_parent = true;
    sensitive_data_origin = true;
    user_with_auth = true;
    sign_encrypt = true;
    no_da = true;
  };
  rsa_bits = 0;
  rsa_exponent = 0;
  curve = codes "P-256";
  signing_scheme = codes "ecdsa-sha256";
}

abbrev pub sample_metadata : KeyMetadata
sample_metadata = record {
  role = sample_role;
  purpose = purpose_certificate_authority;
  algorithm = algorithm_ecdsa_p256;
  handle = 0x81010030;
  public_name = 0x81010030 ∷ [];
  public_key_der = 0x30 ∷ 0x81010030 ∷ [];
  template = ecdsa_template;
  created_at = 1000;
  generation = 1;
}

abbrev pub sample_snapshot : Snapshot
sample_snapshot = record {
  version = 1;
  revision = 2;
  has_roles = true;
  roles = (sample_role, record { active = sample_metadata; retiring = [] }) ∷ [];
  pending = [];
}
