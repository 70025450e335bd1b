-- ===== src/Bootstrap/Store.antt =====
-- internal/bootstrap/journal.go: `FileJournalStore`. Its mutex and file lock admit one caller at a
-- time, so a call is one step of `Sys`; no other process writes the file. The zero `Journal` that
-- `Load` returns for a missing file is `none`: a stored journal has version 1.
pub mod Laws
pub mod Saving
pub mod RoundTrip
use sovereignite.Base.{
  Bytes, ℕ, ◌+◌, ◌%◌, ◌^◌, Bool, true, false, not, ◌||◌, Option, none, some, List, [], ◌∷◌, ◌++◌,
  ltb, ◌==◌, fail_if, length, if◌then◌else◌,
}
use sovereignite.Bootstrap.Error
use sovereignite.Bootstrap.Error.{Error, foreign, Result, ok, err, or_err, durability_uncertain}
use sovereignite.Bootstrap.Journal.{Journal, validate_journal}
use sovereignite.Bootstrap.Machine.{
  FilePoint, ensure_private_directory, acquire_lock, inspect_file, open_file, stat_opened,
  create_temporary, set_permissions, write_temporary, sync_temporary, close_temporary,
  rename_temporary, open_directory, sync_directory, close_directory, Env, Sys, M, pure, raise, lift,
  check, ask, ask_value, ◌>>=◌, ◌>>◌,
}

abbrev pub maximum_journal_bytes : ℕ
maximum_journal_bytes = 4194304

-- uint64 arithmetic wraps.
abbrev pub u64 : ℕ → ℕ
u64 n = n % 18446744073709551616

abbrev pub max_uint64 : ℕ
max_uint64 = 18446744073709551615

module _ {W : Type 0} where
  unfoldable pub get_file : M W (Option Bytes)
  get_file s = (ok s.file, s)

  -- The renamed temporary file takes the journal's place.
  unfoldable pub replace_file : Bytes → M W (Unit {0})
  replace_file b s = (ok tt, record s { file = some b })

-- `errors.Join(ErrJournalDurabilityUncertain, err)`.
abbrev pub uncertain : Option ℕ → Option Error
uncertain none = none
uncertain (some n) = some (durability_uncertain (foreign n))

module _ (e : Env) where
  abbrev pub fault : FilePoint → M e.World (Unit {0})
  fault p = ask (e.file_fault p)

  -- What `loadJournalFile` does with the bytes of a file that is there.
  unfoldable pub read_journal : Bytes → M e.World (Option Journal)
  read_journal content = do
    check (
        fail_if (length content == 0 || ltb maximum_journal_bytes (length content))
          (Error.journal_size (length content)))
    fault open_file
    fault stat_opened
    journal ← lift (or_err (e.decode_journal content) Error.journal_decode)
    check (validate_journal journal)
    pure (some journal)

  abbrev pub read_if_there : Option Bytes → M e.World (Option Journal)
  read_if_there none = pure none
  read_if_there (some content) = read_journal content

  unfoldable pub load_journal_file : M e.World (Option Journal)
  load_journal_file = do fault inspect_file; file ← get_file; read_if_there file

  -- `FileJournalStore.Load`.
  unfoldable pub load : M e.World (Option Journal)
  load = do fault ensure_private_directory; fault acquire_lock; load_journal_file

  abbrev pub revision_of : Option Journal → ℕ
  revision_of none = 0
  revision_of (some j) = j.revision

  -- The temporary file, up to its rename.
  unfoldable pub write_journal : Bytes → M e.World (Unit {0})
  write_journal encoded = do
    fault create_temporary
    fault set_permissions
    fault write_temporary
    fault sync_temporary
    fault close_temporary
    fault rename_temporary
    replace_file encoded

  -- The directory is closed even if its sync fails, and the sync's error comes first.
  unfoldable pub sync_directory_entry : M e.World (Unit {0})
  sync_directory_entry = do
    opened ← ask_value (e.file_fault open_directory)
    check (uncertain opened)
    synced ← ask_value (e.file_fault sync_directory)
    closed ← ask_value (e.file_fault close_directory)
    check (uncertain synced)
    check (uncertain closed)

  -- `FileJournalStore.Save`.
  unfoldable pub save : ℕ → Journal → M e.World (Unit {0})
  save expected next = do
    check (
        fail_if (not (next.revision == u64 (expected + 1)))
          (Error.journal_next_revision next.revision (u64 (expected + 1))))
    check (validate_journal next)
    fault ensure_private_directory
    fault acquire_lock
    current ← load_journal_file
    check (
        fail_if (not (revision_of current == expected))
          (Error.journal_conflict (revision_of current) expected))
    marshalled ← lift (or_err (e.marshal_journal next) Error.journal_encode)
    let encoded = marshalled ++ 10 ∷ []
    check (
        fail_if (ltb maximum_journal_bytes (length encoded))
          (Error.journal_encoded_size (length encoded)))
    write_journal encoded
    sync_directory_entry
