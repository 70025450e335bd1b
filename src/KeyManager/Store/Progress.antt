-- ===== src/KeyManager/Store/Progress.antt =====
-- Save and Load where no call of the file system fails.
use sovereignite.Base.{Bytes, ◌+◌, Option, none, some, ◌≡◌, ◌≢◌}
use sovereignite.Base.Effect.{
  ◌>>=◌, ◌>>◌, query, check, weaken, done, lift, Triple, bind_rule, fact_rule, lift_then,
  check_then, get_then, modify_then,
}
use sovereignite.KeyManager.Snapshot.{Snapshot, max_uint64, validate_snapshot_envelope}
use sovereignite.KeyManager.Snapshot.Validity.{IsValid}
use sovereignite.KeyManager.Snapshot.Advance.{Same, Same-refl}
use sovereignite.KeyManager.Machine.{
  FilePoint, open_metadata, create_temporary, set_permissions, write_temporary, sync_temporary,
  close_temporary, replace_metadata, sync_directory, Setting, Keeping,
}
use sovereignite.KeyManager.Store.{read_file, load, encode_file, conflict, uncertain, save}
use sovereignite.KeyManager.Rules.{quiet_then}
use sovereignite.KeyManager.Store.Laws.{
  IsCodec, Mirrors, successor-conflict, encode_file-Mirrors, Same-envelope,
}

module _ (S : Setting) (quiet : (p : FilePoint) (w : S.World) → (S.fault p w).0 ≡ none) where
  quiet_load :
      (s : Snapshot) (P : Keeping → Type 0)
      → ((d : Keeping) → P d → Mirrors S d.file s)
      → Triple P (load S) (λ t d. Same s t × P d) (λ _ _. ⊥)
  unfolding load lift
  quiet_load s P mirrored =
      quiet_then (S.fault open_metadata) _ (quiet open_metadata)
        (get_then (λ d. d.file) (λ f. lift (read_file S f)) λ f. read f)
    where
      read :
          (f : Option Bytes)
          → Triple
              (λ d. P d × (d.file ≡ f))
              (lift {W = S.World} (read_file S f))
              (λ t d. Same s t × P d)
              (λ _ _. ⊥)
      read f = record {
        at = λ w d h. let (t, reads, alike) = mirrored d h.0 in rw (rw (h.1) at reads) (alike, h.0);
      }

  quiet_sync :
      (P : Keeping → Type 0)
      → Triple P (query (S.fault sync_directory) >>= λ o. check (uncertain S o)) (λ _. P) (λ _ _. ⊥)
  unfolding ◌>>=◌ query check
  quiet_sync P = record { at = λ w d h. rw (quiet sync_directory w) h }

  -- Where no call of the file system fails and with a JSON codec that reads back what it wrote: a Save of a valid
  -- snapshot, whose encoding fits and whose revision is the next one after that in the file, which is not the last,
  -- succeeds, and the Load after it returns the same snapshot, the order of its entries apart.
  pub load-save_succeeds :
      IsCodec S
      → (s next : Snapshot) (b : Bytes) → IsValid S.configured.policies next
      → s.revision ≢ max_uint64
      → next.revision ≡ s.revision + 1
      → encode_file S next ≡ done b
      → Triple (λ d. Mirrors S d.file s) (save S next >> load S) (λ t _. Same next t) (λ _ _. ⊥)
  unfolding save
  load-save_succeeds c s next b v bounded successor encoded =
      bind_rule (λ _ d. Mirrors S d.file next) (save S next) _ saved
        (λ _.
          weaken (load S) (quiet_load next (λ d. Mirrors S d.file next) (λ d k. k)) (λ d k. k)
            (λ t d k. k.0) (λ e d k. k))
    where
      saved :
          Triple (λ d. Mirrors S d.file s) (save S next) (λ _ d. Mirrors S d.file next) (λ _ _. ⊥)
      saved =
          check_then (validate_snapshot_envelope next) _
            (λ e h. cc (rw (Same-envelope S next next (Same-refl next) v) at h))
            λ _.
              bind_rule (λ t d. Same s t × Mirrors S d.file s) (load S) _
                (quiet_load s (λ d. Mirrors S d.file s) (λ d k. k))
                λ t. fact_rule _ λ alike.
                  check_then (conflict S t.revision next.revision) _
                    (λ e h. cc (rw (successor-conflict S s t next alike bounded successor) at h))
                    λ _.
                      lift_then (encode_file S next) _ (λ e h. cc (rw encoded at h))
                        λ b' encoded'.
                          quiet_then (S.fault create_temporary) _ (quiet create_temporary) (
                            quiet_then (S.fault set_permissions) _ (quiet set_permissions) (
                              quiet_then (S.fault write_temporary) _ (quiet write_temporary) (
                                quiet_then (S.fault sync_temporary) _ (quiet sync_temporary) (
                                  quiet_then (S.fault close_temporary) _ (quiet close_temporary) (
                                    quiet_then (S.fault replace_metadata) _ (quiet replace_metadata)
                                      (modify_then (λ d. Mirrors S d.file next)
                                        (λ d. record d { file = some b' }) _
                                        (λ d k. encode_file-Mirrors S c next b' v encoded')
                                        (quiet_sync (λ d. Mirrors S d.file next))))))))
