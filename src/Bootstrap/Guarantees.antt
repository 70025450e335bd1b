-- ===== src/Bootstrap/Guarantees.antt =====
-- What `StartBootstrap` guarantees of the durable journal, whatever the dependencies, the clock, the
-- context and the file system do.
use sovereignite.Base.{true, Option, none, some, All, length, ◌≡◌}
use sovereignite.Bootstrap.Error.{Error, Result, ok, err, is_clean}
use sovereignite.Bootstrap.Journal.{complete, Journal}
use sovereignite.Bootstrap.Machine.{Env, Sys}
use sovereignite.Bootstrap.Machine.Triple.{Ends}
use sovereignite.Bootstrap.Store.Laws.{Codec, IsStored, Holds, On}
use sovereignite.Bootstrap.Coordinator.Requests.{Coordinator}
use sovereignite.Bootstrap.Coordinator.Start.{start_bootstrap}
use sovereignite.Bootstrap.Safety.{
  AllBound, Extends, Since, IsIntended, IsSafe, Failure, IsKnown-IsSafe,
}
use sovereignite.Bootstrap.Safety.Running.{IsDone}
use sovereignite.Bootstrap.Safety.Starting.{start_bootstrap-Done}

module _ (e : Env) (c : Coordinator) (codec : Codec e) where
  -- A run from a file that holds `r0`.
  module _ (r0 : Option Journal) (s : Sys e.World) (held : Holds e r0 s.file)
      (before : All (IsIntended e c) s.trace) where
    run-Ends :
        Ends
          (λ _. On e (IsDone e c codec r0))
          (Failure e c r0)
          (start_bootstrap e c s).0
          (start_bootstrap e c s).1
    run-Ends = (start_bootstrap-Done e c codec r0).at s (held, before)

    IsSafe-of :
        (r : Result (Unit {0})) (s' : Sys e.World)
        → Ends (λ _. On e (IsDone e c codec r0)) (Failure e c r0) r s'
        → IsSafe e c r0 s'.file s'.trace
    IsSafe-of (ok _) s' h = IsKnown-IsSafe e c r0 h.journal s'.file s'.trace h.known
    IsSafe-of (err er) s' h = h.1

    run-IsSafe : IsSafe e c r0 (start_bootstrap e c s).1.file (start_bootstrap e c s).1.trace
    run-IsSafe = IsSafe-of (start_bootstrap e c s).0 (start_bootstrap e c s).1 run-Ends

  done_of :
      (r0 : Option Journal) (r : Result (Unit {0})) (s' : Sys e.World)
      → Ends (λ _. On e (IsDone e c codec r0)) (Failure e c r0) r s'
      → r ≡ ok tt
      → IsDone e c codec r0 s'.file s'.trace
  done_of r0 (ok _) s' h p = h
  done_of r0 (err er) s' h p = cc

  clean_of :
      (r0 : Option Journal) (r : Result (Unit {0})) (s' : Sys e.World) (er : Error)
      → Ends (λ _. On e (IsDone e c codec r0)) (Failure e c r0) r s'
      → r ≡ err er
      → is_clean er ≡ true
  clean_of r0 (ok _) s' er h p = cc
  clean_of r0 (err er') s' er h p = cc (h.0)

  -- The file holds no journal or a valid one, every action called before was intended, and the JSON decoder
  -- reads back what was written. Then if StartBootstrap returns nil, the file holds a valid journal with
  -- all nine steps in order, in the state complete, with no failure, and the evidence of every step names
  -- the configured versions and artifacts.
  pub start_bootstrap-complete :
      (r0 : Option Journal) (s : Sys e.World)
      → Holds e r0 s.file
      → All (IsIntended e c) s.trace
      → (start_bootstrap e c s).0 ≡ ok tt
      → (j : Journal) × IsStored e j (start_bootstrap e c s).1.file
        × (j.state ≡ complete)
        × (j.failure ≡ none)
        × (length j.steps ≡ 9)
        × AllBound e c j.steps
  start_bootstrap-complete r0 s held before returned =
      let d = done_of r0 _ _ (run-Ends r0 s held before) returned in
      (d.journal, d.known.stored, d.is_complete, d.no_failure, d.nine, d.bound)

  -- The file holds a valid journal, every action called before was intended, and the JSON decoder reads back
  -- what was written. Then however StartBootstrap ends, the file holds a valid journal of the same
  -- transaction, version and configuration, of no smaller revision, that begins with all the steps
  -- recorded before.
  pub start_bootstrap-Extends :
      (j0 : Journal) (s : Sys e.World)
      → IsStored e j0 s.file
      → All (IsIntended e c) s.trace
      → (j : Journal) × IsStored e j (start_bootstrap e c s).1.file × Extends j0 j
  start_bootstrap-Extends j0 s held before =
      let safe = run-IsSafe (some j0) s held before in extends_of safe.journal safe.holds safe.since
    where
      extends_of :
          (r : Option Journal)
          → Holds e r (start_bootstrap e c s).1.file
          → Since (some j0) r
          → (j : Journal) × IsStored e j (start_bootstrap e c s).1.file × Extends j0 j
      extends_of none h k = absurd k
      extends_of (some j) h k = (j, h, k)

  -- The file holds no journal or a valid one, every action called before was intended, and the JSON decoder
  -- reads back what was written. Then every action of a dependency is called while the file holds a valid
  -- journal in progress whose current attempt is of the next step in order, under the operation of that
  -- transaction and that step.
  pub start_bootstrap-Intended :
      (r0 : Option Journal) (s : Sys e.World)
      → Holds e r0 s.file
      → All (IsIntended e c) s.trace
      → All (IsIntended e c) (start_bootstrap e c s).1.trace
  start_bootstrap-Intended r0 s held before = (run-IsSafe r0 s held before).traced

  -- The file holds no journal or a valid one, every action called before was intended, and the JSON decoder
  -- reads back what was written. Then StartBootstrap does not crash, as no index is out of range and no nil
  -- pointer is read, and its loop ends within ten rounds: an error that it returns is one of the code's.
  pub start_bootstrap_clean :
      (r0 : Option Journal) (s : Sys e.World) (er : Error)
      → Holds e r0 s.file
      → All (IsIntended e c) s.trace
      → (start_bootstrap e c s).0 ≡ err er
      → is_clean er ≡ true
  start_bootstrap_clean r0 s er held before returned =
      clean_of r0 _ _ er (run-Ends r0 s held before) returned
