-- ===== src/KeyManager/Machine.antt =====
-- What internal/keymanager runs on: a TPM, a clock, a context and a directory that answer anything, JSON, and the
-- state that a manager and its metadata file keep.
use sovereignite.Base.{Bytes, ℕ, Bool, true, false, Option, none, some, List, ◌∷◌}
use sovereignite.Base.Effect.{Outcome, Program, query, check, ◌>>=◌}
use sovereignite.KeyManager.Error.{Error}
use sovereignite.KeyManager.Tpm.{Handle, Algorithm, Template, Public, ObjectReference}
use sovereignite.KeyManager.Policy.{Configured}
use sovereignite.KeyManager.Snapshot.{Snapshot, KeyMetadata, zero_snapshot}

-- `errors.Is(err, tpm.ErrHandleNotFound)` tells the two apart.
pub data TpmError : Type 0 where
  not_found : TpmError
  unreadable : ℕ → TpmError

-- Where the file system can fail.
pub data FilePoint : Type 0 where
  lock_directory open_metadata create_temporary set_permissions write_temporary sync_temporary
        close_temporary replace_metadata sync_directory :
      FilePoint

-- A run of `CreatePersistent`: any number of calls of the callback, each continued with its answer, and an end.
pub data Creation (W : Type 0) : Type 0 where
  prepares : Public → W → (Option Error → W → Creation W) → Creation W
  ends : Outcome ℕ Public → W → Creation W

-- `encode` is `json.MarshalIndent`; `decode` is the strict decoding of a whole file.
pub record Setting : Type 1 where
  pub World : Type 0
  pub context_err : World → Option ℕ × World
  pub now : World → ℕ × World
  pub supports : Algorithm → World → Option ℕ × World
  pub read_public : Handle → World → Outcome TpmError Public × World
  pub create_persistent : Handle → Template → World → Creation World
  pub evict_persistent : ObjectReference → World → Option TpmError × World
  pub fault : FilePoint → World → Option ℕ × World
  pub encode : Snapshot → Option Bytes
  pub decode : Bytes → Option Snapshot
  pub configured : Configured

-- A call of the TPM that cannot be undone, with the metadata file at that moment.
pub data Event : Type 0 where
  -- The callback of `CreatePersistent` has agreed to a key.
  agreed : KeyMetadata → Option Bytes → Event
  -- `EvictPersistent` is called.
  evicts : ObjectReference → Option Bytes → Event

-- The fields of `Manager` that change, the metadata file, and the calls so far.
pub record Keeping : Type 0 where
  pub loaded : Bool
  pub memory : Snapshot
  pub file : Option Bytes
  pub trace : List Event

abbrev pub foreign_error : Option ℕ → Option Error
foreign_error none = none
foreign_error (some n) = some (Error.foreign n)

module _ (S : Setting) where
  abbrev pub Run : Type 0 → Type 0
  Run A = Program S.World Keeping Error A

  -- `ctx.Err()`.
  abbrev pub check_context : Run (Unit {0})
  check_context = query S.context_err >>= λ e. check (foreign_error e)

  abbrev pub check_fault : FilePoint → Run (Unit {0})
  check_fault p = query (S.fault p) >>= λ e. check (foreign_error e)

abbrev pub remember : Snapshot → Keeping → Keeping
remember s d = record d { memory = s }

-- `m.loaded = false` and `m.snapshot = Snapshot{}`.
abbrev pub forget : Keeping → Keeping
forget d = record d { loaded = false; memory = zero_snapshot }

abbrev pub take_over : Snapshot → Keeping → Keeping
take_over s d = record d { loaded = true; memory = s }

abbrev pub record_eviction : ObjectReference → Keeping → Keeping
record_eviction o d = record d { trace = evicts o d.file ∷ d.trace }

abbrev pub record_agreement : KeyMetadata → Keeping → Keeping
record_agreement m d = record d { trace = agreed m d.file ∷ d.trace }
