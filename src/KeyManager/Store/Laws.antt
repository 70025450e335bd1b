-- ===== src/KeyManager/Store/Laws.antt =====
-- What a stored snapshot is read back as, and the contract of `FileStore.Save`.
use sovereignite.Base.{
  Bytes, ℕ, ◌+◌, Bool, true, false, Option, none, some, [], ◌∷◌, ◌++◌, ltb, ==_iff, fail_if,
  fail_if-false, first_error, length, ◌≡◌, ◌≢◌, ◌⊎◌, inl, inr, refl, ap, arith,
}
use sovereignite.Base.Dict.{Unique}
use sovereignite.Base.Effect.{
  Outcome, done, failed, outcome_or, lift, Triple, bind_rule, fact_rule, lift_then, check_then,
  get_then, modify_then, query_then,
}
use sovereignite.KeyManager.Error.{Error}
use sovereignite.KeyManager.Outcome
use sovereignite.KeyManager.Outcome.{guard, >>=-done, guard-done, done-injective}
use sovereignite.KeyManager.Snapshot.{
  Snapshot, empty_snapshot, max_uint64, validate_snapshot_envelope,
}
use sovereignite.KeyManager.Snapshot.Validity.{IsValid}
use sovereignite.KeyManager.Snapshot.Advance.{Same, Same-refl}
use sovereignite.KeyManager.Machine.{
  open_metadata, create_temporary, set_permissions, write_temporary, sync_temporary,
  close_temporary, replace_metadata, sync_directory, Setting, Keeping,
}
use sovereignite.KeyManager.Store.{
  maximum_metadata_bytes, too_large, read_file, load, encode_file, conflict, uncertain, save,
}
use sovereignite.KeyManager.Manager.Persist.{is_uncertain, is_conflict}
use sovereignite.KeyManager.Rules.{asked_then, check_rule}

-- Where a save ends that has failed.
abbrev pub Unless : (Keeping → Type 0) → (Keeping → Type 0) → Error → Keeping → Type 0
Unless Q P e d =
    ((is_uncertain e ≡ true) × Q d) ⊎ ((is_uncertain e ≡ false) × (is_conflict e ≡ false) × P d)

abbrev pub Plain : Error → Type 0
Plain e = (is_uncertain e ≡ false) × (is_conflict e ≡ false)

failed-injective :
    {A : Type 0} (a b : Error) → ◌≡◌ {A = Outcome Error A} (failed a) (failed b) → a ≡ b
failed-injective a b h = cc

size-Plain :
    (c : Bool) (b : Bytes) (e : Error)
    → Outcome.◌>>◌ (guard (fail_if c Error.metadata_size)) (done b) ≡ failed e
    → Plain e
size-Plain true b e h = rw (← failed-injective Error.metadata_size e h) (refl, refl)
size-Plain false b e h = cc

encoding-Plain :
    (o : Option Bytes) (e : Error)
    → Outcome.◌>>=◌
        (outcome_or o Error.metadata_encode)
        (λ b. Outcome.◌>>◌ (guard (too_large (b ++ b'\n' ∷ []))) (done (b ++ b'\n' ∷ [])))
      ≡ failed e
    → Plain e
encoding-Plain none e h = rw (← failed-injective Error.metadata_encode e h) (refl, refl)
encoding-Plain (some b) e h =
    size-Plain (ltb maximum_metadata_bytes (length (b ++ b'\n' ∷ []))) (b ++ b'\n' ∷ []) e h

module _ (S : Setting) where
  -- What is used of encoding/json: an object has each key once when it is decoded into a map, and a valid
  -- snapshot that is encoded is decoded to itself, the order of its entries apart.
  pub record IsCodec : Type 0 where
    pub decoded_unique :
        (b : Bytes) (s : Snapshot) → S.decode b ≡ some s → Unique s.roles × Unique s.pending
    pub round_trip :
        (s : Snapshot) (b : Bytes)
        → IsValid S.configured.policies s
        → S.encode s ≡ some b
        → (t : Snapshot) × (S.decode (b ++ b'\n' ∷ []) ≡ some t) × Same s t

  abbrev pub Reads : Option Bytes → Snapshot → Type 0
  Reads f s = read_file S f ≡ done s

  -- The file holds the snapshot, the order of its entries apart.
  abbrev pub Mirrors : Option Bytes → Snapshot → Type 0
  Mirrors f s = (t : Snapshot) × Reads f t × Same s t

  outcome_or-done :
      {A : Type 0} (o : Option A) (e : Error) (a : A) → outcome_or o e ≡ done a → o ≡ some a
  outcome_or-done none e a h = cc
  outcome_or-done (some b) e a h = rw (done-injective b a h) refl

  pub Reads-Unique :
      IsCodec → (f : Option Bytes) (s : Snapshot) → Reads f s → Unique s.roles × Unique s.pending
  unfolding read_file
  Reads-Unique c none s h = rw (← done-injective empty_snapshot s h) (tt, tt)
  Reads-Unique c (some b) s h =
      let (small, h1) = guard-done _ _ h in
      let (t, decoded, h2) = >>=-done (outcome_or (S.decode b) Error.metadata_decode) _ h1 in
      let (enveloped, h3) = guard-done (validate_snapshot_envelope t) _ h2 in
      rw (← done-injective t s h3) (c.decoded_unique b t (outcome_or-done (S.decode b) _ t decoded))

  Reads-back :
      (b : Bytes) (t : Snapshot)
      → too_large b ≡ none
      → S.decode b ≡ some t
      → validate_snapshot_envelope t ≡ none
      → Reads (some b) t
  unfolding read_file
  Reads-back b t small decoded enveloped = rw (small, decoded, enveloped) refl

  pub Same-envelope :
      (s t : Snapshot)
      → Same s t
      → IsValid S.configured.policies s
      → validate_snapshot_envelope t ≡ none
  unfolding validate_snapshot_envelope first_error
  Same-envelope s t a v = rw (← a.version, ← a.has_roles, v.version, v.has_roles) refl

  pub encode_file-Mirrors :
      IsCodec
      → (s : Snapshot) (b : Bytes) → IsValid S.configured.policies s
      → encode_file S s ≡ done b
      → Mirrors (some b) s
  unfolding encode_file read_file
  encode_file-Mirrors c s b v h =
      let (encoded, found, h1) = >>=-done (outcome_or (S.encode s) Error.metadata_encode) _ h in
      let (small, h2) = guard-done (too_large (encoded ++ b'\n' ∷ [])) _ h1 in
      let (t, decoded, alike) =
        c.round_trip s encoded v (outcome_or-done (S.encode s) _ encoded found) in
      rw (← done-injective (encoded ++ b'\n' ∷ []) b h2)
        (t, Reads-back (encoded ++ b'\n' ∷ []) t small decoded (Same-envelope s t alike v), alike)

  -- Loading a file that holds a snapshot.
  pub load_rule :
      (s : Snapshot) (P : Keeping → Type 0) (F : Error → Keeping → Type 0)
      → ((n : ℕ) (d : Keeping) → P d → F (Error.foreign n) d)
      → ((d : Keeping) → P d → Mirrors d.file s)
      → Triple P (load S) (λ t d. Same s t × P d) F
  unfolding load lift
  load_rule s P F bad mirrored =
      asked_then (S.fault open_metadata) _ bad
        (get_then (λ d. d.file) (λ f. lift (read_file S f)) λ f. read f)
    where
      read :
          (f : Option Bytes)
          → Triple
              (λ d. P d × (d.file ≡ f))
              (lift {W = S.World} (read_file S f))
              (λ t d. Same s t × P d)
              F
      read f = record {
        at = λ w d h. let (t, reads, alike) = mirrored d h.0 in rw (rw (h.1) at reads) (alike, h.0);
      }

  pub successor-conflict :
      (s t next : Snapshot)
      → Same s t
      → s.revision ≢ max_uint64
      → next.revision ≡ s.revision + 1
      → conflict S t.revision next.revision ≡ none
  successor-conflict s t next a bounded e = fail_if-false _ _ (
      ground (
        arith,
        a.revision,
        bounded,
        e,
        ==_iff t.revision max_uint64,
        ==_iff next.revision (t.revision + 1),
      ))

  uncertain-is_uncertain :
      (o : Option ℕ) (e : Error) → uncertain S o ≡ some e → is_uncertain e ≡ true
  uncertain-is_uncertain none e h = cc
  uncertain-is_uncertain (some n) e h = rw (← one_error (Error.durability_uncertain n) e h) refl
    where
      one_error : (a b : Error) → ◌≡◌ {A = Option Error} (some a) (some b) → a ≡ b
      one_error a b h = cc

  encode_error-Plain : (next : Snapshot) (e : Error) → encode_file S next ≡ failed e → Plain e
  unfolding encode_file
  encode_error-Plain next e h = encoding-Plain (S.encode next) e h

  -- `FileStore.Save` from any state that mirrors the snapshot before.
  pub save_rule :
      (s next : Snapshot) (P Q : Keeping → Type 0)
      → IsCodec
      → IsValid S.configured.policies next
      → s.revision ≢ max_uint64
      → next.revision ≡ s.revision + 1
      → ((d : Keeping) → P d → Mirrors d.file s)
      → ((d : Keeping) (b : Bytes) → P d → Mirrors (some b) next → Q (record d { file = some b }))
      → Triple P (save S next) (λ _. Q) (Unless Q P)
  unfolding save load
  save_rule s next P Q c v bounded successor mirrored written =
      check_then (validate_snapshot_envelope next) _
        (λ e h. cc (rw (Same-envelope next next (Same-refl next) v) at h))
        λ _.
          bind_rule (λ t d. Same s t × P d) (load S) _
            (load_rule s P (Unless Q P) (λ n d p. inr (refl, refl, p)) mirrored)
            λ t. fact_rule _ λ alike.
              check_then (conflict S t.revision next.revision) _
                (λ e h. cc (rw (successor-conflict s t next alike bounded successor) at h))
                λ _.
                  lift_then (encode_file S next) _
                    (λ e h d p.
                      inr ((encode_error-Plain next e h).0, (encode_error-Plain next e h).1, p))
                    λ b encoded.
                      asked_then (S.fault create_temporary) _ (λ n d p. inr (refl, refl, p))
                        (asked_then (S.fault set_permissions) _ (λ n d p. inr (refl, refl, p))
                          (asked_then (S.fault write_temporary) _ (λ n d p. inr (refl, refl, p))
                            (asked_then (S.fault sync_temporary) _ (λ n d p. inr (refl, refl, p))
                              (asked_then (S.fault close_temporary) _ (λ n d p. inr (refl, refl, p))
                                (asked_then (S.fault replace_metadata) _
                                  (λ n d p. inr (refl, refl, p))
                                  (modify_then Q (λ d. record d { file = some b }) _
                                    (λ d p. written d b p (encode_file-Mirrors c next b v encoded))
                                    (query_then (S.fault sync_directory) _ λ o.
                                      check_rule (uncertain S o)
                                        (λ e h d q. inl (uncertain-is_uncertain o e h, q))
                                        (λ _ d q. q))))))))

  -- A save in one sentence: the file holds the snapshot, and nothing else has changed.
  pub record IsStored (next : Snapshot) (before after : Keeping) : Type 0 where
    pub file : Mirrors after.file next
    pub loaded : after.loaded ≡ before.loaded
    pub memory : after.memory ≡ before.memory
    pub trace : after.trace ≡ before.trace

  -- With a JSON codec that reads back what it wrote: Save of a valid snapshot whose revision is the next one after that in the file, which is not the last: when it
  -- succeeds, and when its error is that of an uncertain durability, the file holds the snapshot; after any other
  -- error nothing has changed. It never reports a revision conflict.
  pub save-IsStored :
      IsCodec
      → (s next : Snapshot) (d : Keeping) → IsValid S.configured.policies next
      → s.revision ≢ max_uint64
      → next.revision ≡ s.revision + 1
      → Mirrors d.file s
      → Triple
          (λ x. x ≡ d)
          (save S next)
          (λ _. IsStored next d)
          (Unless (IsStored next d) (λ x. x ≡ d))
  save-IsStored c s next d v bounded successor mirror =
      save_rule s next (λ x. x ≡ d) (IsStored next d) c v bounded successor (λ x e. rw e mirror)
        (λ x b e written. record {
          file = written;
          loaded = ap (λ y. y.loaded) e;
          memory = ap (λ y. y.memory) e;
          trace = ap (λ y. y.trace) e;
        })
