-- ===== src/KeyManager/Snapshot/Validity.antt =====
-- A valid snapshot, described by its entries and not by the loops that test it.
use sovereignite.Base.{
  ◌+◌, ◌<◌, true, false, Option, none, some, List, [], ◌∷◌, length, All, ◌≡◌, ◌≢◌,
}
use sovereignite.Base.Dict.{Dict, lookup, Unique}
use sovereignite.Base.Effect.{done}
use sovereignite.KeyManager.Policy.{Role, RolePolicy, has_handle}
use sovereignite.KeyManager.Tpm.{Handle, signing_template}
use sovereignite.KeyManager.Snapshot.{KeyMetadata, RoleState, Snapshot, is_lifetime, max_uint64}

-- A key that the policy of its role allows.
pub record IsKeyOf (r : Role) (p : RolePolicy) (m : KeyMetadata) : Type 0 where
  pub role : m.role ≡ r
  pub policy_role : m.role ≡ p.role
  pub purpose : m.purpose ≡ p.purpose
  pub algorithm : m.algorithm ≡ p.algorithm
  pub handle : has_handle p.handles m.handle ≡ true
  pub template : signing_template p.algorithm ≡ done m.template
  pub generation : 0 < m.generation
  pub created : 0 < m.created_at
  pub named : 0 < length m.public_name
  pub keyed : 0 < length m.public_key_der

-- A retiring key is older than the active one.
pub record IsRetiring (r : Role) (p : RolePolicy) (active m : KeyMetadata) : Type 0 where
  pub key : IsKeyOf r p m
  pub older : m.generation < active.generation

abbrev pub handles_of : List KeyMetadata → List Handle
handles_of [] = []
handles_of (m ∷ ms) = m.handle ∷ handles_of ms

abbrev pub Distinct : List Handle → Type 0
Distinct [] = Unit
Distinct (h ∷ hs) = (has_handle hs h ≡ false) × Distinct hs

pub record IsRoleState (r : Role) (p : RolePolicy) (st : RoleState) : Type 0 where
  pub active : IsKeyOf r p st.active
  pub retiring : All (IsRetiring r p st.active) st.retiring
  pub distinct : Distinct (handles_of (st.active ∷ st.retiring))
  pub lifetime : is_lifetime r p ≡ true → (st.active.generation ≡ 1) × (st.retiring ≡ [])

-- The intent to create a key: the first one of a role without a key, or the next generation of a role
-- that rotates, at a handle of its own.
abbrev pub Succeeds : Role → RolePolicy → Option RoleState → KeyMetadata → Type 0
Succeeds r p none m = m.generation ≡ 1
Succeeds r p (some st) m =
    (is_lifetime r p ≡ false)
    × (st.active.generation ≢ max_uint64)
    × (m.generation ≡ st.active.generation + 1)
    × (has_handle (handles_of (st.active ∷ st.retiring)) m.handle ≡ false)

pub record IsIntent (r : Role) (p : RolePolicy) (st : Option RoleState) (m : KeyMetadata)
    : Type 0 where
  pub key : IsKeyOf r p m
  pub next : Succeeds r p st m

module _ (policies : Dict RolePolicy) where
  abbrev pub Fits : Role → (RolePolicy → Type 0) → Type 0
  Fits r P = (p : RolePolicy) × (lookup r policies ≡ some p) × P p

  pub record IsValid (s : Snapshot) : Type 0 where
    pub version : s.version ≡ 1
    pub has_roles : s.has_roles ≡ true
    pub unique_roles : Unique s.roles
    pub unique_pending : Unique s.pending
    pub roles :
        (r : Role) (st : RoleState) → lookup r s.roles ≡ some st → Fits r (λ p. IsRoleState r p st)
    pub pending :
        (r : Role) (m : KeyMetadata)
        → lookup r s.pending ≡ some m
        → Fits r (λ p. IsIntent r p (lookup r s.roles) m)
