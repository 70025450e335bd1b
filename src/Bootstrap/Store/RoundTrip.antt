-- ===== src/Bootstrap/Store/RoundTrip.antt =====
-- `Save` and `Load` as specified: what a save does to the file, and that a load reads it back.
use mathlib.Core.Path.{subst}
use sovereignite.Base.{
  Bytes, ℕ, ◌+◌, ◌≤◌, ◌<◌, true, Option, none, some, List, length, ◌≡◌, refl, ◌⊎◌, inl, inr, arith,
}
use sovereignite.Bootstrap.Error.{Error, Result, ok, err, is_clean}
use sovereignite.Bootstrap.Journal.{Journal}
use sovereignite.Bootstrap.Journal.Accepted.{validate_journal-IsValid}
use sovereignite.Bootstrap.Journal.Validity.{IsValid}
use sovereignite.Bootstrap.Machine.{FilePoint, Env, Event, Sys, M, lift, check, ◌>>=◌}
use sovereignite.Bootstrap.Machine.Triple.{
  Ends, Triple, pure_rule, bind_rule, ask_rule, check_then, lift_then, fact_rule,
}
use sovereignite.Bootstrap.Store.{
  u64, fault, get_file, read_journal, load_journal_file, load, revision_of, save,
}
use sovereignite.Bootstrap.Store.Laws.{Codec, IsStored, Holds, On}
use sovereignite.Bootstrap.Store.Saving.{SaveFailure, save-Stored, is_uncertain}

ok_inj : {A : Type 0} (a a' : A) → ok a ≡ ok a' → a ≡ a'
ok_inj a a' p = cc

module _ (e : Env) where
  -- A file system none of whose calls fails.
  abbrev pub NoFaults : Type 0
  NoFaults = (p : FilePoint) (w : e.World) → (e.file_fault p w).0 ≡ none

  -- What a successful save has found out about the journal before it.
  pub record Replaces (expected : ℕ) (next : Journal) (f : Option Bytes) : Type 0 where
    pub current : Option Journal
    pub held : Holds e current f
    pub in_sequence : revision_of e current ≡ expected
    pub next_revision : next.revision ≡ u64 (expected + 1)

  module _ (codec : Codec e) (s : Sys e.World) (expected : ℕ) (next : Journal) where
    abbrev Before : Option Bytes → List Event → Type 0
    Before f t = (f ≡ s.file) × (t ≡ s.trace)

    abbrev After : Option Bytes → List Event → Type 0
    After f t = Replaces expected next s.file × IsStored e next f × (t ≡ s.trace)

    save-Ends :
        Ends
          (λ _. On e After)
          (SaveFailure e Before After)
          (save e expected next s).0
          (save e expected next s).1
    save-Ends =
        (save-Stored e codec Before After expected next
            λ current f f' t before held in_sequence next_revision stored. (
              record {
                current = current;
                held = subst (Holds e current) before.0 held;
                in_sequence = in_sequence;
                next_revision = next_revision;
              },
              stored,
              before.1,
            )).at
          s (refl, refl)

    by_result :
        (r : Result (Unit {0})) (s' : Sys e.World)
        → Ends (λ _. On e After) (SaveFailure e Before After) r s'
        → ((r ≡ ok tt) × Replaces expected next s.file × IsStored e next s'.file)
          ⊎ ((er : Error) × (r ≡ err er)
              × (is_clean er ≡ true)
              × ((s'.file ≡ s.file)
                  ⊎ (Replaces expected next s.file
                      × IsStored e next s'.file
                      × (is_uncertain er ≡ true))))
    by_result (ok _) s' h = inl (refl, h.0, h.1)
    by_result (err er) s' (clean, inl h) = inr (er, refl, clean, inl h.0)
    by_result (err er) s' (clean, inr h) = inr (er, refl, clean, inr (h.0.0, h.0.1, h.1))

  -- Save either succeeds, and then the file held a valid journal of the expected revision (or none, for
  -- revision 0) and now holds exactly the next journal, which is valid and one revision on; or it returns
  -- an error, which is no crash, and the file is as it was, or the error says that durability is uncertain
  -- and the file was replaced just so. `encoding/json` must read back what it wrote.
  pub save-Replaces :
      (s : Sys e.World) (expected : ℕ) (next : Journal)
      → Codec e
      → (((save e expected next s).0 ≡ ok tt)
          × Replaces expected next s.file
          × IsStored e next (save e expected next s).1.file)
        ⊎ ((er : Error) × ((save e expected next s).0 ≡ err er)
            × (is_clean er ≡ true)
            × (((save e expected next s).1.file ≡ s.file)
                ⊎ (Replaces expected next s.file
                    × IsStored e next (save e expected next s).1.file
                    × (is_uncertain er ≡ true))))
  save-Replaces s expected next codec =
      by_result codec s expected next _ _ (save-Ends codec s expected next)

  module _ (calm : NoFaults) where
    module _ (φ : Option Bytes → List Event → Type 0) {B : Type 0} {R : B → Sys e.World → Type 0}
        {E : Error → Sys e.World → Type 0} where
      calm_then :
          (p : FilePoint) (f : Unit {0} → M e.World B)
          → Triple (On e φ) (f tt) R E
          → Triple (On e φ) (fault e p >>= f) R E
      calm_then p f k =
          bind_rule (λ _. On e φ) (fault e p) f
            (ask_rule (e.file_fault p) (λ s h _. h) (λ s n h q. absurd (never s n q))) (λ _. k)
        where
          never : (s : Sys e.World) (n : ℕ) → (e.file_fault p s.world).0 ≡ some n → ⊥
          never s n q = cc (calm p s.world)

    passed_then :
        {P : Sys e.World → Type 0} {B : Type 0} {R : B → Sys e.World → Type 0}
        {E : Error → Sys e.World → Type 0} (r : Option Error) (f : Unit {0} → M e.World B)
        → r ≡ none
        → Triple P (f tt) R E
        → Triple P (check r >>= f) R E
    passed_then r f p k = check_then r f (λ er q s h. cc) (λ _. k)

    found_then :
        {P : Sys e.World → Type 0} {A B : Type 0} {R : B → Sys e.World → Type 0}
        {E : Error → Sys e.World → Type 0} (r : Result A) (a : A) (f : A → M e.World B)
        → r ≡ ok a
        → Triple P (f a) R E
        → Triple P (lift r >>= f) R E
    found_then r a f p k =
        rw p (lift_then (ok a) f (λ er q s h. cc) (λ a' q. rw (ok_inj a a' q) at k))

    module _ (j : Journal) (b : Bytes) (nonempty : 0 < length b) (bounded : length b ≤ 4194304)
        (decoded : e.decode_journal b ≡ some j) (valid : IsValid j) where
      abbrev HasBytes : Option Bytes → List Event → Type 0
      HasBytes f t = f ≡ some b

      abbrev Reads : M e.World (Option Journal) → Type 0
      Reads m = Triple (On e HasBytes) m (λ r _. r ≡ some j) (λ _ _. ⊥)

      read_journal-some : Reads (read_journal e b)
      unfolding read_journal
      read_journal-some = passed_then _ _ (ground arith) (
          calm_then HasBytes _ _ (
            calm_then HasBytes _ _ (
              found_then _ j _ (rw decoded refl) (
                passed_then _ _ ((validate_journal-IsValid j).1 valid)
                  (pure_rule (some j) (λ s h. refl))))))

      get_file-some :
          Triple (On e HasBytes) get_file (λ r s. (r ≡ some b) × On e HasBytes s) (λ _ _. ⊥)
      unfolding get_file
      get_file-some = record { at = λ s h. (h, h) }

      load-some : Reads (load e)
      unfolding load load_journal_file
      load-some = calm_then HasBytes _ _ (
          calm_then HasBytes _ _ (
            calm_then HasBytes _ _ (
              bind_rule _ get_file _ get_file-some
                λ r. fact_rule _ λ same. rw same read_journal-some)))

    value_of :
        {A : Type 0} (a : A) (r : Result A) (s : Sys e.World)
        → Ends (λ x _. x ≡ a) (λ _ _. ⊥) r s
        → r ≡ ok a
    value_of a (ok x) s h = rw h refl
    value_of a (err er) s h = absurd h

    -- Where no call of the file system fails, Load returns without an error exactly the valid journal that the file holds.
    pub load-IsStored :
        (j : Journal) (s : Sys e.World) → IsStored e j s.file → (load e s).0 ≡ ok (some j)
    load-IsStored j s h =
        value_of (some j) (load e s).0 (load e s).1
          ((load-some j h.bytes h.nonempty h.bounded h.decoded h.valid).at s h.held)

  -- Where no call of the file system fails and `encoding/json` reads back what it wrote, Load returns the
  -- journal that a successful Save before it was given.
  pub load-save :
      (s : Sys e.World) (expected : ℕ) (next : Journal)
      → Codec e
      → NoFaults
      → (save e expected next s).0 ≡ ok tt
      → (load e (save e expected next s).1).0 ≡ ok (some next)
  load-save s expected next codec calm saved = stored (save-Replaces s expected next codec)
    where
      stored :
          (((save e expected next s).0 ≡ ok tt)
              × Replaces expected next s.file
              × IsStored e next (save e expected next s).1.file)
            ⊎ ((er : Error) × ((save e expected next s).0 ≡ err er)
                × (is_clean er ≡ true)
                × (((save e expected next s).1.file ≡ s.file)
                    ⊎ (Replaces expected next s.file
                        × IsStored e next (save e expected next s).1.file
                        × (is_uncertain er ≡ true))))
          → (load e (save e expected next s).1).0 ≡ ok (some next)
      stored (inl h) = load-IsStored calm next (save e expected next s).1 h.2
      stored (inr h) = cc (h.1, saved)
