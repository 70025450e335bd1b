-- ===== src/Bootstrap/Config/Laws.antt =====
-- What an accepted configuration is, and what its digest covers.
use sovereignite.Base.{
  passes, String, Bytes, same, same-eq, to_lower, contains, codes, ℕ, zero, suc, ◌≤◌, ◌<◌, ◌-◌, ◌*◌,
  Bool, true, false, not, ◌&&◌, ◌||◌, none, some, List, [], ◌∷◌, ◌==◌, fail_if, fail_if-none,
  first_error, first_error-none, length, any, All, ◌≡◌, ◌⊎◌, inl, inr, refl, arith, if◌then◌else◌,
  ap, sym, drop, ==_iff,
}
use sovereignite.Bootstrap.Error.{Error, ok, unless-ok, or_err-ok, >>=-ok}
use sovereignite.Bootstrap.Identifier.{validate_pinned_identifier}
use sovereignite.Bootstrap.Identifier.Laws.{
  IsIdentifier, IsPinned, IsDigest, validate_required_identifier-IsIdentifier,
  validate_pinned_identifier-IsPinned, valid_sha256-IsDigest,
}
use sovereignite.Bootstrap.Config.{
  Artifact, Prefix, Configuration, Digests, Candidate, candidates, contracts, contains_private_key,
  names_crd, remove_ascii_whitespace, validate_operational_artifact, is_canonical_ula, masked,
  first_byte, envelope, artifact_checks, validate_artifact, candidate_checks, configuration_checks,
  configuration_digest, validate_configuration,
}

-- No kubeadm, and no CustomResourceDefinition of Sovereignite.
pub record IsOperational (content : Bytes) : Type 0 where
  pub no_kubeadm : contains (to_lower content) (codes "kubeadm") ≡ false
  pub no_crd :
      (names_crd (remove_ascii_whitespace (to_lower content)) ≡ false)
      ⊎ (contains (to_lower content) (codes "sovereignite") ≡ false)

operational_of :
    (k n s : Bool) (e f : Error)
    → (if k then some e else if n && s then some f else none) ≡ none
    → (k ≡ false) × ((n ≡ false) ⊎ (s ≡ false))
operational_of true n s e f h = cc
operational_of false true true e f h = cc
operational_of false true false e f h = (refl, inr refl)
operational_of false false s e f h = (refl, inl refl)

pub validate_operational_artifact-IsOperational :
    (a : Artifact) → validate_operational_artifact a ≡ none → IsOperational a.content
unfolding validate_operational_artifact
validate_operational_artifact-IsOperational a h =
    let (no_kubeadm, no_crd) = operational_of _ _ _ _ _ h in
    record { no_kubeadm = no_kubeadm; no_crd = no_crd }

module _ (d : Digests) where
  -- An artifact that stands for `name` at `version` (any, if that is empty).
  pub record IsAccepted (a : Artifact) (name version : Bytes) : Type 0 where
    pub named : a.name ≡ name
    pub pinned : IsPinned a.version
    pub selected : (version ≡ []) ⊎ (a.version ≡ version)
    pub nonempty : 0 < length a.content
    pub bounded : length a.content ≤ 16777216
    pub no_nul : any (λ c. c == 0) a.content ≡ false
    pub digest_form : IsDigest a.sha256
    pub digest : d.sha256_hex a.content ≡ a.sha256
    pub no_private_key : contains_private_key a.content ≡ false

  selected_of :
      (v w : Bytes) (e : Error)
      → fail_if (not (length w == 0) && not (same v w)) e ≡ none
      → (w ≡ []) ⊎ (v ≡ w)
  selected_of v [] e h = inl refl
  selected_of v (c ∷ w) e h = inr (same-eq v (c ∷ w) (ground arith))

  pub validate_artifact-IsAccepted :
      (a : Artifact) (name version : Bytes)
      → validate_artifact d a name version ≡ none
      → IsAccepted a name version
  unfolding validate_artifact
  validate_artifact-IsAccepted a name version h =
      let p = first_error-none (artifact_checks d a name version) h in
      let size = fail_if-none _ _ p.1.1.1.0 in
      record {
        named = same-eq _ _ (passes _ _ p.0);
        pinned = (validate_pinned_identifier-IsPinned "artifact version" a.version).0 p.1.0;
        selected = selected_of a.version version _ p.1.1.0;
        nonempty = ground (arith, size);
        bounded = ground (arith, size);
        no_nul = fail_if-none _ _ p.1.1.1.1.0;
        digest_form = (valid_sha256-IsDigest a.sha256).0 (passes _ _ p.1.1.1.1.1.0);
        digest = same-eq _ _ (passes _ _ p.1.1.1.1.1.1.0);
        no_private_key = fail_if-none _ _ p.1.1.1.1.1.1.1.0;
      }

  abbrev pub IsAcceptedCandidate : Candidate → Type 0
  IsAcceptedCandidate c =
      IsAccepted c.artifact c.expected_name c.expected_version × IsOperational c.artifact.content

  pub candidate_checks-IsAccepted :
      (cs : List Candidate)
      → All (λ r. r ≡ none) (candidate_checks d cs)
      → All IsAcceptedCandidate cs
  unfolding candidate_checks
  candidate_checks-IsAccepted [] h = tt
  candidate_checks-IsAccepted (c ∷ cs) h = (
    (
      validate_artifact-IsAccepted c.artifact c.expected_name c.expected_version h.0,
      validate_operational_artifact-IsOperational c.artifact h.1.0,
    ),
    candidate_checks-IsAccepted cs h.1.1,
  )

masked_zero : (v : Bytes) → All (λ b. b < 256) v → masked 0 v ≡ v → All (λ b. b ≡ 0) v
unfolding masked
masked_zero [] small h = tt
masked_zero (b ∷ v) small h =
    (omega (arith, ap first_byte h), masked_zero v small.1 (ap (drop 1) h))

-- The mask keeps whole bytes first.
masked_rest : (k : ℕ) (v : Bytes) → masked (k * 8) v ≡ v → masked 0 (drop k v) ≡ drop k v
unfolding masked
masked_rest zero v h = h
masked_rest (suc k) [] h = refl
masked_rest (suc k) (b ∷ v) h = masked_rest k v (rw (suc_eight k) at (ap (drop 1) h))
  where
    suc_eight : (k : ℕ) → suc k * 8 - 8 ≡ k * 8
    suc_eight k = omega arith

All-drop : (k : ℕ) (v : Bytes) → All (λ b. b < 256) v → All (λ b. b < 256) (drop k v)
All-drop zero v h = h
All-drop (suc k) [] h = tt
All-drop (suc k) (b ∷ v) h = All-drop k v h.1

-- An fd00::/8 prefix of 48 bits: from the seventh byte on the address is zero.
pub record IsCanonicalUla (p : Prefix) : Type 0 where
  pub is_six : p.is6 ≡ true
  pub bits : p.bits ≡ 48
  pub local : first_byte p.addr ≡ 0xFD
  pub host_zero : All (λ b. b < 256) p.addr → All (λ b. b ≡ 0) (drop 6 p.addr)

ula_parts :
    (a b c d e : Bool)
    → not (not a || not b || not c || not d || not e) ≡ true
    → (a ≡ true) × (b ≡ true) × (c ≡ true) × (d ≡ true) × (e ≡ true)
ula_parts a b c d e h = ground arith

pub is_canonical_ula-IsCanonicalUla : (p : Prefix) → is_canonical_ula p ≡ true → IsCanonicalUla p
unfolding is_canonical_ula
is_canonical_ula-IsCanonicalUla p h =
    let (_, six, width, canonical, local) = ula_parts _ _ _ _ _ h in
    let width_48 : p.bits ≡ 48 = (==_iff p.bits 48).0 width in
    let same_masked : masked 48 p.addr ≡ p.addr =
      sym (rw width_48 at (same-eq p.addr (masked p.bits p.addr) canonical)) in
    record {
      is_six = six;
      bits = width_48;
      local = (==_iff (first_byte p.addr) 0xFD).0 local;
      host_zero = λ small. masked_zero _ (All-drop 6 _ small) (masked_rest 6 p.addr same_masked);
    }

module _ (d : Digests) where
  -- What `validate_configuration` promises of a configuration and the digest that it returns.
  pub record IsAcceptedConfiguration (c : Configuration) (digest : Bytes) : Type 0 where
    pub pinned : IsPinned c.bootstrap_version
    pub pinned_versions :
        IsPinned c.versions.kubernetes
        × IsPinned c.versions.calico
        × IsPinned c.versions.istio
        × IsPinned c.versions.spire
        × IsPinned c.versions.dex
    pub ula : IsCanonicalUla c.ula
    pub reference : IsIdentifier c.tpm_device_key_reference
    pub reference_used : contains c.artifacts.spire.content c.tpm_device_key_reference ≡ true
    pub artifacts : All (IsAcceptedCandidate d) (candidates c)
    pub authority : All (IsAcceptedCandidate d) (contracts c)
    pub bound : (e : Bytes) × (d.marshal (envelope c) ≡ some e) × (digest ≡ d.sha256_hex e)

  configuration_digest-bound :
      (c : Configuration) (digest : Bytes)
      → configuration_digest d c ≡ ok digest
      → (e : Bytes) × (d.marshal (envelope c) ≡ some e) × (digest ≡ d.sha256_hex e)
  unfolding configuration_digest
  configuration_digest-bound c digest h =
      let (e, marshalled, hashed) = >>=-ok _ _ h in (e, or_err-ok _ _ marshalled, ground arith)

  pub validate_configuration-IsAccepted :
      (c : Configuration) (digest : Bytes)
      → validate_configuration d c ≡ ok digest
      → IsAcceptedConfiguration c digest
  unfolding validate_configuration
  validate_configuration-IsAccepted c digest h =
      let (passed, digested) =
        unless-ok (first_error (configuration_checks d c)) (configuration_digest d c) h in
      let p = first_error-none (configuration_checks d c) passed in
      let pinned = λ (v : Bytes) (name : String) (e : validate_pinned_identifier name v ≡ none).
        (validate_pinned_identifier-IsPinned name v).0 e in
      record {
        pinned = pinned _ _ p.0;
        pinned_versions = (
          pinned _ _ p.1.0,
          pinned _ _ p.1.1.0,
          pinned _ _ p.1.1.1.0,
          pinned _ _ p.1.1.1.1.0,
          pinned _ _ p.1.1.1.1.1.0,
        );
        ula = is_canonical_ula-IsCanonicalUla c.ula (passes _ _ p.1.1.1.1.1.1.0);
        reference = (validate_required_identifier-IsIdentifier _ _).0 p.1.1.1.1.1.1.1.0;
        artifacts =
            candidate_checks-IsAccepted d (candidates c) (first_error-none _ p.1.1.1.1.1.1.1.1.0);
        reference_used = passes _ _ p.1.1.1.1.1.1.1.1.1.0;
        authority =
            candidate_checks-IsAccepted d (contracts c)
              (first_error-none _ p.1.1.1.1.1.1.1.1.1.1.0);
        bound = configuration_digest-bound c digest digested;
      }
