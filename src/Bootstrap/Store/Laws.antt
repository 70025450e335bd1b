-- ===== src/Bootstrap/Store/Laws.antt =====
-- What `Load` returns and what `Save` leaves in the journal's file.
use sovereignite.Base.{
  Bytes, ◌≤◌, ◌<◌, Bool, true, false, Option, none, some, List, [], ◌∷◌, ◌++◌, fail_if,
  fail_if-none, length, ◌≡◌, refl, arith,
}
use sovereignite.Bootstrap.Error.{
  Error, foreign, Result, ok, err, or_err, is_clean, is_clean_result, IsClean,
}
use sovereignite.Bootstrap.Journal.{Journal, validate_journal}
use sovereignite.Bootstrap.Journal.Validity.{IsValid}
use sovereignite.Bootstrap.Journal.Accepted.{validate_journal-IsValid}
use sovereignite.Bootstrap.Journal.Clean.{validate_journal-IsClean}
use sovereignite.Bootstrap.Machine.{FilePoint, Env, Event, Sys, M, lift, check, ◌>>=◌}
use sovereignite.Bootstrap.Machine.Triple.{
  Triple, check_then, ask_then, lift_then, pure_rule, weaken, bind_rule,
}
use sovereignite.Bootstrap.Store.{
  max_uint64, get_file, fault, read_journal, read_if_there, load_journal_file, load,
}

-- The documented behaviour of `encoding/json` on a valid journal: what `MarshalIndent` wrote, with a
-- line feed behind it, `Decode` reads back; and what `Decode` puts into a field fits its type.
pub record Codec (e : Env) : Type 0 where
  pub round_trip :
      (j : Journal) (b : Bytes)
      → IsValid j
      → e.marshal_journal j ≡ some b
      → e.decode_journal (b ++ 10 ∷ []) ≡ some j
  -- a revision is a uint64
  pub fits : (j : Journal) (b : Bytes) → e.decode_journal b ≡ some j → j.revision ≤ max_uint64

module _ (e : Env) where
  -- The file holds exactly this valid journal.
  pub record IsStored (j : Journal) (file : Option Bytes) : Type 0 where
    pub bytes : Bytes
    pub held : file ≡ some bytes
    pub nonempty : 0 < length bytes
    pub bounded : length bytes ≤ 4194304
    pub decoded : e.decode_journal bytes ≡ some j
    pub valid : IsValid j

  abbrev pub Holds : Option Journal → Option Bytes → Type 0
  Holds none file = file ≡ none
  Holds (some j) file = IsStored j file

  -- A fact about the file and the trace, which no other part of the world changes.
  abbrev pub On : (Option Bytes → List Event → Type 0) → Sys e.World → Type 0
  On φ s = φ s.file s.trace

  -- A step that may fail cleanly and keeps what holds of file and trace.
  abbrev pub OnFailure : (Option Bytes → List Event → Type 0) → Error → Sys e.World → Type 0
  OnFailure φ er s = (is_clean er ≡ true) × φ s.file s.trace

-- A refused check, when the validator's error is clean.
pub clean_error : (r : Option Error) {er : Error} → IsClean r → r ≡ some er → is_clean er ≡ true
unfolding is_clean_result
clean_error none h p = cc
clean_error (some e) h p = ground arith

pub fail_if_clean :
    (b : Bool) (e : Error) {er : Error}
    → is_clean e ≡ true
    → fail_if b e ≡ some er
    → is_clean er ≡ true
fail_if_clean true e h p = ground arith
fail_if_clean false e h p = cc

-- Rules for what may fail cleanly, with the rest of its block: the failure keeps what holds.
module _ (e : Env) (φ : Option Bytes → List Event → Type 0) {E : Error → Sys e.World → Type 0}
    (bad : (er : Error) (s : Sys e.World) → OnFailure e φ er s → E er s) where
  module _ {B : Type 0} {R : B → Sys e.World → Type 0} where
    pub fault_then :
        (p : FilePoint) (f : Unit {0} → M e.World B)
        → Triple (On e φ) (f tt) R E
        → Triple (On e φ) (fault e p >>= f) R E
    fault_then p f k =
        ask_then (e.file_fault p) f (λ s w h. h) (λ s n h. bad (foreign n) s (refl, h)) k

    pub refuse_then :
        (b : Bool) (er : Error) (f : Unit {0} → M e.World B)
        → is_clean er ≡ true
        → (b ≡ false → Triple (On e φ) (f tt) R E)
        → Triple (On e φ) (check (fail_if b er) >>= f) R E
    refuse_then b er f clean k =
        check_then (fail_if b er) f (λ er' p s h. bad er' s (fail_if_clean b er clean p, h))
          (λ p. k (fail_if-none b er p))

    pub valid_then :
        (j : Journal) (f : Unit {0} → M e.World B)
        → (IsValid j → Triple (On e φ) (f tt) R E)
        → Triple (On e φ) (check (validate_journal j) >>= f) R E
    valid_then j f k =
        check_then (validate_journal j) f
          (λ er p s h.
            bad er s (clean_error (validate_journal j) (validate_journal-IsClean j) p, h))
          (λ p. k ((validate_journal-IsValid j).0 p))

  module _ {A B : Type 0} {R : B → Sys e.World → Type 0} where
    pub or_err_then :
        (o : Option A) (er : Error) (f : A → M e.World B)
        → is_clean er ≡ true
        → ((a : A) → o ≡ some a → Triple (On e φ) (f a) R E)
        → Triple (On e φ) (lift (or_err o er) >>= f) R E
    or_err_then none er f clean k =
        lift_then (err er) f (λ er' p s h. bad er' s (err_clean p, h)) (λ a p. cc)
      where
        err_clean : {er' : Error} → ◌≡◌ {A = Result A} (err er) (err er') → is_clean er' ≡ true
        err_clean p = cc clean
    or_err_then (some a) er f clean k = lift_then (ok a) f (λ er' p s h. cc) (λ a' p. k a' (cc))

-- What is learnt of the file stands beside what held before.
module _ (e : Env) (φ : Option Bytes → List Event → Type 0) where
  abbrev pub AndHolds : Option Journal → Option Bytes → List Event → Type 0
  AndHolds r f t = φ f t × Holds e r f

  abbrev Read : Bytes → Option Bytes → List Event → Type 0
  Read content f t = φ f t × (f ≡ some content)

  read_journal_Holds :
      (content : Bytes)
      → Triple
          (On e (Read content))
          (read_journal e content)
          (λ r. On e (AndHolds r))
          (OnFailure e (Read content))
  unfolding read_journal
  read_journal_Holds content =
      refuse_then e (Read content) (λ er s h. h) _ _ _ refl
        λ sized.
          fault_then e (Read content) (λ er s h. h) _ _
            (fault_then e (Read content) (λ er s h. h) _ _
              (or_err_then e (Read content) (λ er s h. h) (e.decode_journal content) _ _ refl
                λ journal decoded.
                  (valid_then e (Read content) (λ er s h. h) journal _
                    λ valid. pure_rule _ λ s h. (
                      h.0,
                      record {
                        bytes = content;
                        held = h.1;
                        nonempty = ground arith;
                        bounded = ground arith;
                        decoded = decoded;
                        valid = valid;
                      },
                    ))))

  get_file_rule : Triple (On e φ) get_file (λ r. On e (λ f t. φ f t × (f ≡ r))) (OnFailure e φ)
  unfolding get_file
  get_file_rule = record { at = λ s h. (h, refl) }

  drop-Read :
      (content : Bytes) (er : Error) (s : Sys e.World)
      → OnFailure e (Read content) er s
      → OnFailure e φ er s
  drop-Read content er s h = (h.0, h.1.0)

  read_if_there_Holds :
      (file : Option Bytes)
      → Triple
          (On e (λ f t. φ f t × (f ≡ file)))
          (read_if_there e file)
          (λ r. On e (AndHolds r))
          (OnFailure e φ)
  read_if_there_Holds none = pure_rule none (λ s h. h)
  read_if_there_Holds (some content) =
      weaken (read_journal e content) (read_journal_Holds content) (λ s h. h) (λ a s h. h)
        (drop-Read content)

  -- Reading the file tells exactly which valid journal it holds, or that there is none; a journal that
  -- cannot be read, decoded or validated is an error, and nothing is changed.
  pub load_journal_file-Holds :
      Triple (On e φ) (load_journal_file e) (λ r. On e (AndHolds r)) (OnFailure e φ)
  unfolding load_journal_file
  load_journal_file-Holds =
      fault_then e φ (λ er s h. h) _ _ (bind_rule _ get_file _ get_file_rule read_if_there_Holds)

  pub load-Holds : Triple (On e φ) (load e) (λ r. On e (AndHolds r)) (OnFailure e φ)
  unfolding load
  load-Holds =
      fault_then e φ (λ er s h. h) _ _ (fault_then e φ (λ er s h. h) _ _ load_journal_file-Holds)
