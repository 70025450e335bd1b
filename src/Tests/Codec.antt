-- ===== src/Tests/Codec.antt =====
-- An encoding of snapshots as lists of numbers that is read back, in place of encoding/json in the examples.
use sovereignite.Base.{
  Bytes, ℕ, zero, suc, Bool, true, false, Option, none, some, List, [], ◌∷◌, ◌++◌, ◌==◌, length,
  ◌≡◌, refl, sym, ap, ◌∙◌,
}
use sovereignite.Base.Dict.{Dict, lookup, insert, Unique, insert-Unique, lookup-insert}
use sovereignite.KeyManager.Tpm.{ObjectAttributes, Template}
use sovereignite.KeyManager.Snapshot.{KeyMetadata, RoleState, Snapshot}
use sovereignite.KeyManager.Snapshot.Advance.{Same}

pub record Code (A : Type 0) : Type 0 where
  pub put : A → Bytes
  pub take : Bytes → Option (A × Bytes)
  pub law : (a : A) (v : Bytes) → take (put a ++ v) ≡ some (a, v)

pub append_assoc : (u v w : Bytes) → (u ++ v) ++ w ≡ u ++ (v ++ w)
append_assoc [] v w = refl
append_assoc (x ∷ u) v w = ap (λ r. x ∷ r) (append_assoc u v w)

abbrev and_then : {A B : Type 0} → Option (A × Bytes) → (A → Bytes → Option B) → Option B
and_then none f = none
and_then (some x) f = f x.0 x.1

abbrev take_number : Bytes → Option (ℕ × Bytes)
take_number [] = none
take_number (n ∷ v) = some (n, v)

abbrev number : Code ℕ
number = record { put = λ n. n ∷ []; take = take_number; law = λ n v. refl }

module _ {A B : Type 0} (a : Code A) (b : Code B) where
  abbrev both : Code (A × B)
  both = record {
    put = λ x. a.put x.0 ++ b.put x.1;
    take = λ v. and_then (a.take v) (λ x v. and_then (b.take v) (λ y v. some ((x, y), v)));
    law = λ x v.
        rw (append_assoc (a.put x.0) (b.put x.1) v, a.law x.0 (b.put x.1 ++ v), b.law x.1 v) refl;
  }

module _ {A B : Type 0} (a : Code A) where
  abbrev via : (f : A → B) (g : B → A) → ((y : B) → f (g y) ≡ y) → Code B
  via f g inverse = record {
    put = λ y. a.put (g y);
    take = λ v. and_then (a.take v) (λ x v. some (f x, v));
    law = λ y v. rw (a.law (g y) v, inverse y) refl;
  }

module _ {A : Type 0} (a : Code A) where
  unfoldable pub puts : List A → Bytes
  puts [] = []
  puts (x ∷ xs) = a.put x ++ puts xs

  unfoldable pub takes : ℕ → Bytes → Option (List A × Bytes)
  takes zero v = some ([], v)
  takes (suc n) v = and_then (a.take v) (λ x v. and_then (takes n v) (λ xs v. some (x ∷ xs, v)))

  pub takes-puts : (xs : List A) (v : Bytes) → takes (length xs) (puts xs ++ v) ≡ some (xs, v)
  unfolding takes puts
  takes-puts [] v = refl
  takes-puts (x ∷ xs) v =
      rw (append_assoc (a.put x) (puts xs) v, a.law x (puts xs ++ v), takes-puts xs v) refl

  abbrev list : Code (List A)
  list = record {
    put = λ xs. length xs ∷ puts xs;
    take = λ v. and_then (take_number v) takes;
    law = takes-puts;
  }

abbrev bit : Bool → ℕ
bit true = 1
bit false = 0

pub unbit : (b : Bool) → (bit b == 1) ≡ b
unbit true = refl
unbit false = refl

abbrev flag : Code Bool
flag = via number (λ n. n == 1) bit unbit

abbrev bytes : Code Bytes
bytes = list number

abbrev attributes_code : Code ObjectAttributes
attributes_code =
    via (both flag (both flag (both flag (both flag (both flag flag)))))
      (λ x. record {
        fixed_tpm = x.0;
        fixed_parent = x.1.0;
        sensitive_data_origin = x.1.1.0;
        user_with_auth = x.1.1.1.0;
        sign_encrypt = x.1.1.1.1.0;
        no_da = x.1.1.1.1.1;
      })
      (λ a. (
        a.fixed_tpm,
        (a.fixed_parent, (a.sensitive_data_origin, (a.user_with_auth, (a.sign_encrypt, a.no_da)))),
      ))
      (λ a. refl)

abbrev template_code : Code Template
template_code =
    via
      (both bytes
        (both bytes (both attributes_code (both number (both number (both bytes bytes))))))
      (λ x. record {
        algorithm = x.0;
        name_hash = x.1.0;
        attributes = x.1.1.0;
        rsa_bits = x.1.1.1.0;
        rsa_exponent = x.1.1.1.1.0;
        curve = x.1.1.1.1.1.0;
        signing_scheme = x.1.1.1.1.1.1;
      })
      (λ t. (
        t.algorithm,
        (t.name_hash, (t.attributes, (t.rsa_bits, (t.rsa_exponent, (t.curve, t.signing_scheme))))),
      ))
      (λ t. refl)

abbrev metadata_code : Code KeyMetadata
metadata_code =
    via
      (both bytes (
        both bytes (
          both bytes
            (both number (both bytes (both bytes (both template_code (both number number))))))))
      (λ x. record {
        role = x.0;
        purpose = x.1.0;
        algorithm = x.1.1.0;
        handle = x.1.1.1.0;
        public_name = x.1.1.1.1.0;
        public_key_der = x.1.1.1.1.1.0;
        template = x.1.1.1.1.1.1.0;
        created_at = x.1.1.1.1.1.1.1.0;
        generation = x.1.1.1.1.1.1.1.1;
      })
      (λ m. (
        m.role,
        (
          m.purpose,
          (
            m.algorithm,
            (
              m.handle,
              (m.public_name, (m.public_key_der, (m.template, (m.created_at, m.generation)))),
            ),
          ),
        ),
      ))
      (λ m. refl)

abbrev state_code : Code RoleState
state_code =
    via (both metadata_code (list metadata_code)) (λ x. record { active = x.0; retiring = x.1 })
      (λ s. (s.active, s.retiring)) (λ s. refl)

abbrev snapshot_code : Code Snapshot
snapshot_code =
    via
      (both number (
        both number
          (both flag (both (list (both bytes state_code)) (list (both bytes metadata_code))))))
      (λ x. record {
        version = x.0;
        revision = x.1.0;
        has_roles = x.1.1.0;
        roles = x.1.1.1.0;
        pending = x.1.1.1.1;
      })
      (λ s. (s.version, (s.revision, (s.has_roles, (s.roles, s.pending))))) (λ s. refl)

-- A map built from its entries has each key once.
module _ {V : Type 0} where
  unfoldable pub entries : Dict V → Dict V
  entries [] = []
  entries ((k, v) ∷ d) = insert k v (entries d)

  entries-Unique : (d : Dict V) → Unique (entries d)
  unfolding entries
  entries-Unique [] = tt
  entries-Unique ((k, v) ∷ d) = insert-Unique k v (entries d) (entries-Unique d)

  lookup-entries : (j : Bytes) (d : Dict V) → lookup j (entries d) ≡ lookup j d
  unfolding entries lookup
  lookup-entries j [] = refl
  lookup-entries j ((k, v) ∷ d) = lookup-insert j k v (entries d) ∙ rw (lookup-entries j d) refl

abbrev as_maps : Snapshot → Snapshot
as_maps s = record s { roles = entries s.roles; pending = entries s.pending }

unfoldable pub encode_sample : Snapshot → Option Bytes
encode_sample s = some (snapshot_code.put s)

abbrev decoded : Option (Snapshot × Bytes) → Option Snapshot
decoded none = none
decoded (some x) = some (as_maps x.0)

unfoldable pub decode_sample : Bytes → Option Snapshot
decode_sample b = decoded (snapshot_code.take b)

pub decode_sample-Unique :
    (b : Bytes) (s : Snapshot) → decode_sample b ≡ some s → Unique s.roles × Unique s.pending
unfolding decode_sample
decode_sample-Unique b s h = go (snapshot_code.take b) h
  where
    go : (o : Option (Snapshot × Bytes)) → decoded o ≡ some s → Unique s.roles × Unique s.pending
    go none h = cc
    go (some x) h =
        rw (← one (as_maps x.0) s h) (entries-Unique x.0.roles, entries-Unique x.0.pending)
      where
        one : (s t : Snapshot) → ◌≡◌ {A = Option Snapshot} (some s) (some t) → s ≡ t
        one s t h = cc

pub decode_sample-encode :
    (s : Snapshot) (b : Bytes)
    → encode_sample s ≡ some b
    → (t : Snapshot) × (decode_sample (b ++ b'\n' ∷ []) ≡ some t) × Same s t
unfolding encode_sample decode_sample
decode_sample-encode s b h = rw (← one (snapshot_code.put s) b h) (
  as_maps s,
  ap decoded (snapshot_code.law s (b'\n' ∷ [])),
  record {
    version = refl;
    revision = refl;
    has_roles = refl;
    roles = λ r. sym (lookup-entries r s.roles);
    pending = λ r. sym (lookup-entries r s.pending);
  },
)
  where
    one : (u v : Bytes) → ◌≡◌ {A = Option Bytes} (some u) (some v) → u ≡ v
    one u v h = cc
