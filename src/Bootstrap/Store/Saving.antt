-- ===== src/Bootstrap/Store/Saving.antt =====
-- `FileJournalStore.Save`: the file has the old journal until its rename, and the next one from there on.
use sovereignite.Base.{
  Bytes, ℕ, ◌+◌, Bool, true, false, not, Option, none, some, List, [], ◌∷◌, ◌++◌, ltb, ◌==◌, ==_iff,
  length, length-append, ◌≡◌, ◌⊎◌, inl, inr, refl, arith, sym, ◌∙◌,
}
use sovereignite.Bootstrap.Error.{Error, durability_uncertain, is_clean}
use sovereignite.Bootstrap.Journal.{Journal}
use sovereignite.Bootstrap.Journal.Validity.{IsValid}
use sovereignite.Bootstrap.Machine.{
  open_directory, sync_directory, close_directory, Env, Event, Sys, ◌>>◌,
}
use sovereignite.Bootstrap.Machine.Triple.{
  Triple, check_rule, check_then, ask_value_then, bind_rule, weaken,
}
use sovereignite.Bootstrap.Store.{
  u64, replace_file, uncertain, load_journal_file, revision_of, write_journal, sync_directory_entry,
  save,
}
use sovereignite.Bootstrap.Store.Laws.{
  Codec, IsStored, Holds, On, OnFailure, AndHolds, fault_then, refuse_then, valid_then, or_err_then,
  load_journal_file-Holds,
}

abbrev pub is_uncertain : Error → Bool
is_uncertain (durability_uncertain _) = true
is_uncertain _ = false

of_not : (b : Bool) → not b ≡ false → b ≡ true
of_not b h = ground arith

module _ (e : Env) where
  -- A failed save: nothing happened to the file, or it was replaced and only the last syncs failed.
  abbrev pub SaveFailure : (φ ψ : Option Bytes → List Event → Type 0) → Error → Sys e.World → Type 0
  SaveFailure φ ψ er s =
      (is_clean er ≡ true) × (φ s.file s.trace ⊎ (ψ s.file s.trace × (is_uncertain er ≡ true)))

  module _ (ψ : Option Bytes → List Event → Type 0) where
    abbrev AfterRename : Error → Sys e.World → Type 0
    AfterRename er s = (is_clean er ≡ true) × (ψ s.file s.trace) × (is_uncertain er ≡ true)

    uncertain_error :
        (r : Option ℕ) (er : Error)
        → uncertain r ≡ some er
        → (is_clean er ≡ true) × (is_uncertain er ≡ true)
    uncertain_error none er p = cc
    uncertain_error (some n) er p = (ground arith, ground arith)

    uncertain_fails :
        (r : Option ℕ) (er : Error)
        → uncertain r ≡ some er
        → (s : Sys e.World) → On e ψ s
        → AfterRename er s
    uncertain_fails r er p s h = let q = uncertain_error r er p in (q.0, h, q.1)

    sync_directory_entry-keeps : Triple (On e ψ) (sync_directory_entry e) (λ _. On e ψ) AfterRename
    unfolding sync_directory_entry
    sync_directory_entry-keeps =
        ask_value_then (e.file_fault open_directory) _ (λ s w h. h)
          λ opened. check_then (uncertain opened) _ (uncertain_fails opened) λ _.
            ask_value_then (e.file_fault sync_directory) _ (λ s w h. h)
              λ synced.
                ask_value_then (e.file_fault close_directory) _ (λ s w h. h)
                  λ closed.
                    check_then (uncertain synced) _ (uncertain_fails synced)
                      λ _. check_rule (uncertain closed) (λ _ s h. h) (uncertain_fails closed)

module _ (e : Env) (φ ψ : Option Bytes → List Event → Type 0) (encoded : Bytes)
    (renamed : (f : Option Bytes) (t : List Event) → φ f t → ψ (some encoded) t) where
  replace_file-renamed : Triple (On e φ) (replace_file encoded) (λ _. On e ψ) (OnFailure e φ)
  unfolding replace_file
  replace_file-renamed = record { at = λ s h. renamed s.file s.trace h }

  write_journal-renamed : Triple (On e φ) (write_journal e encoded) (λ _. On e ψ) (OnFailure e φ)
  unfolding write_journal
  write_journal-renamed =
      fault_then e φ (λ er s h. h) _ _
        (fault_then e φ (λ er s h. h) _ _
          (fault_then e φ (λ er s h. h) _ _
            (fault_then e φ (λ er s h. h) _ _
              (fault_then e φ (λ er s h. h) _ _
                (fault_then e φ (λ er s h. h) _ _ replace_file-renamed)))))

  store_journal-renamed :
      Triple
        (On e φ)
        (write_journal e encoded >> sync_directory_entry e)
        (λ _. On e ψ)
        (SaveFailure e φ ψ)
  store_journal-renamed =
      bind_rule (λ _. On e ψ) (write_journal e encoded) _
        (weaken _ write_journal-renamed (λ s h. h) (λ a s h. h) (λ er s h. (h.0, inl h.1)))
        λ _.
          weaken _ (sync_directory_entry-keeps e ψ) (λ s h. h) (λ a s h. h)
            (λ er s h. (h.0, inr (h.1, h.2)))

-- A file holds one journal at most.
pub Holds-unique :
    (e : Env) (r r' : Option Journal) (f : Option Bytes) → Holds e r f → Holds e r' f → r ≡ r'
Holds-unique e none none f h k = refl
Holds-unique e none (some j) f h k = cc (sym h ∙ k.held)
Holds-unique e (some j) none f h k = cc (sym k ∙ h.held)
Holds-unique e (some j) (some j') f h k = cc (h.held, k.held, h.decoded, k.decoded)

module _ (e : Env) (codec : Codec e) (φ ψ : Option Bytes → List Event → Type 0) (expected : ℕ)
    (next : Journal)
    (enter : (current : Option Journal) (f f' : Option Bytes) (t : List Event)
      → φ f t
      → Holds e current f
      → revision_of e current ≡ expected
      → next.revision ≡ u64 (expected + 1)
      → IsStored e next f'
      → ψ f' t) where
  early : (er : Error) (s : Sys e.World) → OnFailure e φ er s → SaveFailure e φ ψ er s
  early er s h = (h.0, inl h.1)

  IsStored-next :
      (marshalled : Bytes)
      → IsValid next
      → e.marshal_journal next ≡ some marshalled
      → ltb 4194304 (length (marshalled ++ 10 ∷ [])) ≡ false
      → IsStored e next (some (marshalled ++ 10 ∷ []))
  IsStored-next marshalled valid written sized = record {
    bytes = marshalled ++ 10 ∷ [];
    held = refl;
    nonempty = omega (arith, length-append marshalled (10 ∷ []));
    bounded = ground arith;
    decoded = codec.round_trip next marshalled valid written;
    valid = valid;
  }

  early_known :
      (r : Option Journal) (er : Error) (s : Sys e.World)
      → OnFailure e (AndHolds e φ r) er s
      → SaveFailure e φ ψ er s
  early_known r er s h = (h.0, inl h.1.0)

  is_equal : (a b : ℕ) → not (a == b) ≡ false → a ≡ b
  is_equal a b h = (==_iff a b).0 (of_not _ h)

  pub save-Stored : Triple (On e φ) (save e expected next) (λ _. On e ψ) (SaveFailure e φ ψ)
  unfolding save
  save-Stored = refuse_then e φ early _ _ _ refl λ next_revision.
      valid_then e φ early next _ λ valid. fault_then e φ early _ _ (
        fault_then e φ early _ _ (
          bind_rule (λ r. On e (AndHolds e φ r)) (load_journal_file e) _
            (weaken _ (load_journal_file-Holds e φ) (λ s h. h) (λ a s h. h) early)
            λ current.
              let φ' = AndHolds e φ current in
              refuse_then e φ' (early_known current) _ _ _ refl λ in_sequence.
                or_err_then e φ' (early_known current) (e.marshal_journal next) _ _ refl
                  λ marshalled written. refuse_then e φ' (early_known current) _ _ _ refl λ sized.
                    weaken _
                      (store_journal-renamed e φ' ψ (marshalled ++ 10 ∷ []) λ f t h.
                        enter current f _ t h.0 h.1 (is_equal _ _ in_sequence)
                          (is_equal _ _ next_revision)
                          (IsStored-next marshalled valid written sized))
                      (λ s h. h) (λ a s h. h) (λ er s h. (h.0, drop_known current er s h.1))))
    where
      drop_known :
          (r : Option Journal) (er : Error) (s : Sys e.World)
          → AndHolds e φ r s.file s.trace ⊎ (ψ s.file s.trace × (is_uncertain er ≡ true))
          → φ s.file s.trace ⊎ (ψ s.file s.trace × (is_uncertain er ≡ true))
      drop_known r er s (inl h) = inl h.0
      drop_known r er s (inr h) = inr h
