-- ===== src/Bootstrap/Machine.antt =====
-- What the bootstrap service runs on. `Env` holds what is not in the package: the dependencies, the
-- clock, the context, the hooks, the file system's failures, `encoding/json` and SHA-256, over a state
-- of the world of their own; an error that they return is a number. `Sys` adds the journal's file and
-- a trace, which the code does not have: the actions called, each with the file as it was then.
pub mod Triple
use sovereignite.Base.{Bytes, ℕ, Option, none, some, List, [], ◌∷◌}
use sovereignite.Bootstrap.Step.{Step}
use sovereignite.Bootstrap.Error.{Error, foreign, Result, ok, err}
use sovereignite.Bootstrap.Config.{Digests}
use sovereignite.Bootstrap.Journal.{Journal, Observation}
use sovereignite.Bootstrap.Request.{Action, Check}

-- The calls of the file system that may fail, in the order in which `Load` and `Save` make them.
pub data FilePoint : Type 0 where
  ensure_private_directory acquire_lock inspect_file open_file stat_opened : FilePoint
  create_temporary set_permissions write_temporary sync_temporary close_temporary : FilePoint
  rename_temporary open_directory sync_directory close_directory : FilePoint

pub record Env : Type 1 where
  pub World : Type 0
  pub context_err : World → Option ℕ × World
  pub clock_now : World → ℕ × World
  pub generate_id : World → Option Bytes × World
  pub after_intent : Step → World → Option ℕ × World
  pub after_action : Step → World → Option ℕ × World
  pub after_commit : Step → World → Option ℕ × World
  pub call : Action → World → Option Observation × World
  pub inspect : Check → World → Option ℕ × World
  pub publish : World → Option ℕ × World
  pub verify_published : World → Option ℕ × World
  pub file_fault : FilePoint → World → Option ℕ × World
  pub marshal_journal : Journal → Option Bytes
  pub decode_journal : Bytes → Option Journal
  pub digests : Digests

pub record Event : Type 0 where
  pub action : Action
  pub file : Option Bytes

pub record Sys (W : Type 0) : Type 0 where
  pub world : W
  pub file : Option Bytes
  pub trace : List Event

-- A step of the service: what was done before an error stays done.
abbrev pub M : Type 0 → Type 0 → Type 0
M W A = Sys W → Result A × Sys W

module _ {W A : Type 0} where
  unfoldable pub pure : A → M W A
  pure a s = (ok a, s)

  unfoldable pub raise : Error → M W A
  raise e s = (err e, s)

  unfoldable pub lift : Result A → M W A
  lift r s = (r, s)

  -- A call of the environment that returns a value.
  unfoldable pub ask_value : (W → A × W) → M W A
  ask_value f s = let (a, w) = f s.world in (ok a, record s { world = w })

abbrev pub outcome : Option ℕ → Result (Unit {0})
outcome none = ok tt
outcome (some n) = err (foreign n)

abbrev pub verdict : Option Error → Result (Unit {0})
verdict none = ok tt
verdict (some e) = err e

module _ {W : Type 0} where
  -- A validator's error ends the run.
  unfoldable pub check : Option Error → M W (Unit {0})
  check r s = (verdict r, s)

  -- A call of the environment that returns an error or nil.
  unfoldable pub ask : (W → Option ℕ × W) → M W (Unit {0})
  ask f s = let (r, w) = f s.world in (outcome r, record s { world = w })

module _ {W A B : Type 0} where
  abbrev pub continue : Result A → (A → M W B) → M W B
  continue (ok a) f s = f a s
  continue (err e) f s = (err e, s)

  infixl 10 ◌>>=◌ ◌>>◌
  unfoldable pub ◌>>=◌ : M W A → (A → M W B) → M W B
  ◌>>=◌ m f s = let (r, s') = m s in continue r f s'

  abbrev pub ◌>>◌ : M W A → M W B → M W B
  m >> n = m >>= λ _. n

  -- Runs the first; on an error the handler takes over.
  abbrev pub handled : Result A → (A → M W B) → (Error → M W B) → M W B
  handled (ok a) f g s = f a s
  handled (err e) f g s = g e s

  -- `if a, err := m(); err != nil { g(err) }`, and then `f(a)`.
  unfoldable pub catch : M W A → (A → M W B) → (Error → M W B) → M W B
  catch m f g s = let (r, s') = m s in handled r f g s'
