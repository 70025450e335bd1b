-- ===== src/KeyManager/Safety.antt =====
-- What holds at every moment of the key manager's operations: of the metadata file since a transaction began, of
-- the manager's memory, and of the calls of the TPM that cannot be undone.
pub mod Persist
pub mod Prepare
pub mod Create
pub mod Evict
pub mod Reconcile
pub mod Retiring
pub mod Open
pub mod Handles
pub mod Activate
pub mod Operations
use sovereignite.Base.{
  Bytes, ℕ, ◌+◌, Bool, true, false, Option, none, some, List, [], ◌∷◌, All, ◌≡◌, ◌≢◌, ◌⊎◌, inl, inr,
  refl, sym, ◌∙◌, ==_iff, fail_if, fail_if-none, ◌==◌, arith,
}
use sovereignite.Base.Dict.{lookup}
use sovereignite.Base.Effect.{Outcome, done}
use sovereignite.KeyManager.Error
use sovereignite.KeyManager.Error.{Error}
use sovereignite.KeyManager.Outcome.{guard-done, done-injective}
use sovereignite.KeyManager.Policy.{Role}
use sovereignite.KeyManager.Snapshot.{
  KeyMetadata, RoleState, Snapshot, max_uint64, increment_revision,
}
use sovereignite.KeyManager.Snapshot.Validity.{IsValid}
use sovereignite.KeyManager.Snapshot.Advance.{
  Same, Same-refl, Same-sym, Advances, Advances-refl, Advances-trans, Same-Advances, Same-IsValid,
  revised,
}
use sovereignite.KeyManager.Machine.{Setting, Event, agreed, evicts, Keeping}
use sovereignite.KeyManager.Store.Laws.{IsCodec, Reads, Mirrors, Reads-Unique}

module _ (S : Setting) where
  -- The file has been replaced, and its valid snapshot advances the one before.
  pub record Moved (from to : Option Bytes) : Type 0 where
    pub before : Snapshot
    pub after : Snapshot
    pub reads_before : Reads S from before
    pub reads_after : Reads S to after
    pub valid_before : IsValid S.configured.policies before
    pub valid_after : IsValid S.configured.policies after
    pub advances : Advances S.configured.policies before after

  abbrev pub Progress : Option Bytes → Option Bytes → Type 0
  Progress from to = (to ≡ from) ⊎ Moved from to

  -- A key is agreed to only when the file records it as pending, and what is evicted is not the active key of a
  -- role in the file.
  abbrev pub Harmless : Event → Type 0
  Harmless (agreed m f) = (s : Snapshot) × (r : Role) × Reads S f s × (lookup r s.pending ≡ some m)
  Harmless (evicts o f) =
      (s : Snapshot) (r : Role) (st : RoleState)
      → Reads S f s
      → lookup r s.roles ≡ some st
      → st.active.handle ≢ o.handle

  pub record Safe (from : Option Bytes) (d : Keeping) : Type 0 where
    pub progress : Progress from d.file
    pub trace : All Harmless d.trace

  -- The manager has loaded a valid snapshot, and the file holds it.
  pub record Serving (from : Option Bytes) (s : Snapshot) (d : Keeping) : Type 0 where
    pub loaded : d.loaded ≡ true
    pub memory : d.memory ≡ s
    pub valid : IsValid S.configured.policies s
    pub mirror : Mirrors S d.file s
    pub safe : Safe from d

  pub record Ready (from : Option Bytes) (d : Keeping) : Type 0 where
    pub snapshot : Snapshot
    pub serving : Serving from snapshot d

  module _ (c : IsCodec S) where
    Reads-IsValid :
        (f : Option Bytes) (s t : Snapshot)
        → Reads S f t
        → Same s t
        → IsValid S.configured.policies s
        → IsValid S.configured.policies t
    Reads-IsValid f s t reads alike v =
        let unique = Reads-Unique S c f t reads in
        Same-IsValid S.configured.policies s t alike unique.0 unique.1 v

    pub Progress-step :
        (from f to : Option Bytes) (s next : Snapshot)
        → Progress from f
        → Mirrors S f s
        → IsValid S.configured.policies s
        → Mirrors S to next
        → IsValid S.configured.policies next
        → Advances S.configured.policies s next
        → Progress from to
    Progress-step from f to s next (inl e) (t, reads, alike) v (t', reads', alike') v' a =
        inr (record {
          before = t;
          after = t';
          reads_before = rw (← e) reads;
          reads_after = reads';
          valid_before = Reads-IsValid f s t reads alike v;
          valid_after = Reads-IsValid to next t' reads' alike' v';
          advances = Same-Advances S.configured.policies s t next t' alike alike' a;
        })
    Progress-step from f to s next (inr m) (t, reads, alike) v (t', reads', alike') v' a =
        let here : m.after ≡ t = done-injective m.after t (sym m.reads_after ∙ reads) in
        inr (record {
          before = m.before;
          after = t';
          reads_before = m.reads_before;
          reads_after = reads';
          valid_before = m.valid_before;
          valid_after = Reads-IsValid to next t' reads' alike' v';
          advances =
              Advances-trans S.configured.policies m.before t t' (rw (← here) m.advances)
                (Same-Advances S.configured.policies s t next t' alike alike' a);
        })

    -- What the manager serves advances what the file held when the transaction began.
    pub Serving-Advances :
        (from : Option Bytes) (first s : Snapshot) (d : Keeping)
        → Serving from s d
        → Reads S from first
        → Advances S.configured.policies first s
    Serving-Advances from first s d k reads =
        let (t, reads', alike) = k.mirror in moved t reads' alike k.safe.progress
      where
        moved :
            (t : Snapshot)
            → Reads S d.file t
            → Same s t
            → Progress from d.file
            → Advances S.configured.policies first s
        moved t reads' alike (inl e) =
            let here : t ≡ first = done-injective t first (sym reads' ∙ rw e reads) in
            Same-Advances S.configured.policies first first first s (Same-refl first)
              (Same-sym s first (rw here at alike)) (Advances-refl S.configured.policies first)
        moved t reads' alike (inr m) =
            let start : m.before ≡ first =
              done-injective m.before first (sym m.reads_before ∙ reads) in
            let here : m.after ≡ t = done-injective m.after t (sym m.reads_after ∙ reads') in
            Same-Advances S.configured.policies first first t s (Same-refl first)
              (Same-sym s t alike) (rw (start, here) at m.advances)

pub increment-revised :
    (s n : Snapshot) → increment_revision s ≡ done n → (s.revision ≢ max_uint64) × (n ≡ revised s)
unfolding increment_revision
increment-revised s n h =
    let (passed, rest) =
      guard-done (fail_if (s.revision == max_uint64) Error.counter_exhausted) _ h in
    let unequal = fail_if-none _ _ passed in
    (
      λ equal. cc (rw ((==_iff s.revision max_uint64).1 equal) at unequal),
      sym (done-injective (revised s) n rest),
    )
