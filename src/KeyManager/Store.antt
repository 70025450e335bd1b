-- ===== src/KeyManager/Store.antt =====
-- internal/keymanager/store.go: `FileStore` inside a transaction. The directory and file tests are
-- the faults of the setting; a replaced file has the new bytes and a failed write leaves the old ones.
pub mod Laws
pub mod Progress
use sovereignite.Base.{
  Bytes, ℕ, ◌+◌, Bool, true, false, not, ◌||◌, Option, none, some, List, [], ◌∷◌, ◌++◌, ltb, ◌==◌,
  fail_if, length, if◌then◌else◌,
}
use sovereignite.Base.Effect.{
  Outcome, done, failed, outcome_or, pure, raise, lift, get, query, check, modify, ◌>>=◌, ◌>>◌,
}
use sovereignite.KeyManager.Error
use sovereignite.KeyManager.Error.{Error}
use sovereignite.KeyManager.Outcome
use sovereignite.KeyManager.Outcome.{guard}
use sovereignite.KeyManager.Snapshot.{
  Snapshot, empty_snapshot, max_uint64, validate_snapshot_envelope,
}
use sovereignite.KeyManager.Machine.{
  FilePoint, lock_directory, open_metadata, create_temporary, set_permissions, write_temporary,
  sync_temporary, close_temporary, replace_metadata, sync_directory, Setting, Keeping, Run,
  check_fault, forget,
}

abbrev pub maximum_metadata_bytes : ℕ
maximum_metadata_bytes = 4194304

abbrev pub too_large : Bytes → Option Error
too_large b = fail_if (ltb maximum_metadata_bytes (length b)) Error.metadata_size

module _ (S : Setting) where
  -- `loadSnapshotFromRoot` after the file is open.
  unfoldable pub read_file : Option Bytes → Outcome Error Snapshot
  read_file none = done empty_snapshot
  read_file (some b) = Outcome.◌>>◌ (guard (too_large b)) (
      Outcome.◌>>=◌ (outcome_or (S.decode b) Error.metadata_decode)
        λ s. Outcome.◌>>◌ (guard (validate_snapshot_envelope s)) (done s))

  -- `FileStore.Load`.
  unfoldable pub load : Run S Snapshot
  load = do check_fault S open_metadata; file ← get (λ d. d.file); lift (read_file file)

  -- The bytes that `saveSnapshotToRoot` writes.
  unfoldable pub encode_file : Snapshot → Outcome Error Bytes
  encode_file s =
      Outcome.◌>>=◌ (outcome_or (S.encode s) Error.metadata_encode)
        λ b. Outcome.◌>>◌ (guard (too_large (b ++ b'\n' ∷ []))) (done (b ++ b'\n' ∷ []))

  abbrev pub conflict : ℕ → ℕ → Option Error
  conflict current next =
      fail_if (current == max_uint64 || not (next == current + 1))
        (Error.revision_conflict current next)

  abbrev pub uncertain : Option ℕ → Option Error
  uncertain none = none
  uncertain (some n) = some (Error.durability_uncertain n)

  -- `FileStore.Save`.
  unfoldable pub save : Snapshot → Run S (Unit {0})
  save next = do
    check (validate_snapshot_envelope next)
    current ← load
    check (conflict current.revision next.revision)
    encoded ← lift (encode_file next)
    check_fault S create_temporary
    check_fault S set_permissions
    check_fault S write_temporary
    check_fault S sync_temporary
    check_fault S close_temporary
    check_fault S replace_metadata
    modify (λ d. record d { file = some encoded })
    synced ← query (S.fault sync_directory)
    check (uncertain synced)

  -- `withExclusive` of the store and `withExclusiveOperation` of the manager.
  unfoldable pub with_exclusive : {A : Type 0} → Run S A → Run S A
  with_exclusive operation = do check_fault S lock_directory; modify forget; operation
