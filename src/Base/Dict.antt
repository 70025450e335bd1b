-- ===== src/Base/Dict.antt =====
-- Go maps with string keys, as lists of entries. A Go map has each key once, and ranges over its
-- entries in any order.
use mathlib.Core.Path.{◌≡◌, refl}
use mathlib.Core.Bool.{false}
use mathlib.Core.Option.{Option, none, some}
use mathlib.Core.List.{List, [], ◌∷◌}
use native.Mathlib.Omega.{arith}
use mathlib.Core.Logic.{◌⊎◌, inl, inr}
use sovereignite.Base.Tests.{if◌then◌else◌, Bool-cases}
use sovereignite.Base.Text.{Bytes, same, same_refl, same-eq}

abbrev pub Dict : Type 0 → Type 0
Dict V = List (Bytes × V)

module _ {V : Type 0} where
  unfoldable pub lookup : Bytes → Dict V → Option V
  lookup k [] = none
  lookup k ((j, v) ∷ d) = if same k j then some v else lookup k d

  -- `d[k] = v`.
  unfoldable pub insert : Bytes → V → Dict V → Dict V
  insert k v [] = (k, v) ∷ []
  insert k v ((j, w) ∷ d) =
      let rest = insert k v d in if same k j then (k, v) ∷ d else (j, w) ∷ rest

  -- `delete(d, k)`.
  unfoldable pub erase : Bytes → Dict V → Dict V
  erase k [] = []
  erase k ((j, w) ∷ d) = let rest = erase k d in if same k j then rest else (j, w) ∷ rest

  -- Each key once.
  abbrev pub Unique : Dict V → Type 0
  Unique [] = Unit
  Unique ((k, _) ∷ d) = (lookup k d ≡ none) × Unique d

  pub lookup-insert :
      (j k : Bytes) (v : V) (d : Dict V)
      → lookup j (insert k v d) ≡ (if same j k then some v else lookup j d)
  unfolding lookup insert
  lookup-insert j k v [] = refl
  lookup-insert j k v ((i, w) ∷ d) =
      ground (arith, lookup-insert j k v d, same-eq k i, same-eq j i, same-eq j k, same_refl k)

  pub lookup-erase :
      (j k : Bytes) (d : Dict V) → lookup j (erase k d) ≡ (if same j k then none else lookup j d)
  unfolding lookup erase
  lookup-erase j k [] = ground arith
  lookup-erase j k ((i, w) ∷ d) =
      ground (arith, lookup-erase j k d, same-eq k i, same-eq j i, same-eq j k, same_refl k)

  pub insert-Unique : (k : Bytes) (v : V) (d : Dict V) → Unique d → Unique (insert k v d)
  unfolding insert lookup
  insert-Unique k v [] u = (refl, tt)
  insert-Unique k v ((j, w) ∷ d) u =
      ground (
        arith,
        insert-Unique k v d u.1,
        lookup-insert j k v d,
        same-eq k j,
        same-eq j k,
        same_refl k,
      )

  pub erase-Unique : (k : Bytes) (d : Dict V) → Unique d → Unique (erase k d)
  unfolding erase lookup
  erase-Unique k [] u = tt
  erase-Unique k ((j, w) ∷ d) u = ground (arith, erase-Unique k d u.1, lookup-erase j k d)

  pub lookup-insert_self : (k : Bytes) (v : V) (d : Dict V) → lookup k (insert k v d) ≡ some v
  lookup-insert_self k v d = rw (lookup-insert k k v d, same_refl k)

  pub lookup-insert_other :
      (j k : Bytes) (v : V) (d : Dict V) → same j k ≡ false → lookup j (insert k v d) ≡ lookup j d
  lookup-insert_other j k v d h = rw (lookup-insert j k v d, h)

  pub lookup-erase_self : (k : Bytes) (d : Dict V) → lookup k (erase k d) ≡ none
  lookup-erase_self k d = rw (lookup-erase k k d, same_refl k)

  pub lookup-erase_other :
      (j k : Bytes) (d : Dict V) → same j k ≡ false → lookup j (erase k d) ≡ lookup j d
  lookup-erase_other j k d h = rw (lookup-erase j k d, h)

  -- An entry after a write is the one written, or was there before.
  pub inserted :
      (j k : Bytes) (v w : V) (d : Dict V)
      → lookup j (insert k v d) ≡ some w
      → ((j ≡ k) × (w ≡ v)) ⊎ ((same j k ≡ false) × (lookup j d ≡ some w))
  inserted j k v w d h = elim (Bool-cases (same j k)) [
    | inl e ↦ inl (same-eq j k e, cc (rw (lookup-insert j k v d, e) at h))
    | inr e ↦ inr (e, rw (lookup-insert j k v d, e) at h)
  ]

  pub erased :
      (j k : Bytes) (w : V) (d : Dict V)
      → lookup j (erase k d) ≡ some w
      → (same j k ≡ false) × (lookup j d ≡ some w)
  erased j k w d h = elim (Bool-cases (same j k)) [
    | inl e ↦ cc (rw (lookup-erase j k d, e) at h)
    | inr e ↦ (e, rw (lookup-erase j k d, e) at h)
  ]
