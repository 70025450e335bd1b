-- ===== src/Bootstrap/Safety/Writing.antt =====
-- The coordinator's writes: each replaces the journal by one that extends it, or fails and loses nothing.
use sovereignite.Base.{
  Bytes, ℕ, ◌+◌, ◌≤◌, false, Option, none, some, List, [], ◌++◌, ◌==◌, ◌≡◌, refl, ◌∙◌, ap, sym,
  arith, inl, inr,
}
use mathlib.Core.List.{append-nil, append_assoc}
use sovereignite.Bootstrap.Error.{Error, zero_time}
use sovereignite.Bootstrap.Journal.{Time, StepRecord, Journal}
use sovereignite.Bootstrap.Machine.{Env, Event, Sys, M, ◌>>=◌}
use sovereignite.Bootstrap.Machine.Triple.{Triple, pure_rule, bind_rule, ask_value_then, weaken}
use sovereignite.Bootstrap.Store.{u64, max_uint64}
use sovereignite.Bootstrap.Store.Laws.{Codec, IsStored, On, OnFailure, refuse_then}
use sovereignite.Bootstrap.Store.Saving.{SaveFailure, save-Stored}
use sovereignite.Bootstrap.Coordinator.Requests.{Coordinator}
use sovereignite.Bootstrap.Coordinator.Commit.{now, advance_and_save}
use sovereignite.Bootstrap.Safety.{Extends, Since, IsKnown, Failure, IsKnown-IsSafe}

pub Extends-refl : (j : Journal) → Extends j j
Extends-refl j = record {
  transaction = refl;
  bootstrap = refl;
  configuration = refl;
  revision = omega arith;
  added = [];
  steps = sym (append-nil j.steps);
}

pub Extends-trans : (i j k : Journal) → Extends i j → Extends j k → Extends i k
Extends-trans i j k p q = record {
  transaction = q.transaction ∙ p.transaction;
  bootstrap = q.bootstrap ∙ p.bootstrap;
  configuration = q.configuration ∙ p.configuration;
  revision = omega (arith, p.revision, q.revision);
  added = p.added ++ q.added;
  steps = q.steps ∙ ap (λ l. l ++ q.added) p.steps ∙ append_assoc i.steps p.added q.added;
}

Since-Extends :
    (r0 : Option Journal) (j k : Journal) → Since r0 (some j) → Extends j k → Since r0 (some k)
Since-Extends none j k h p = tt
Since-Extends (some j0) j k h p = Extends-trans j0 j k h p

-- What a write may change: everything but the transaction's identity, and steps only at the end.
pub record IsChange (j next : Journal) : Type 0 where
  pub transaction : next.transaction_id ≡ j.transaction_id
  pub bootstrap : next.bootstrap_version ≡ j.bootstrap_version
  pub configuration : next.configuration_sha256 ≡ j.configuration_sha256
  pub added : List StepRecord
  pub steps : next.steps ≡ j.steps ++ added

-- The journal that `advanceAndSave` writes at a time.
abbrev pub advanced : Journal → Journal → Time → Journal
advanced j next t = record next { revision = u64 (j.revision + 1); updated_at = t }

u64_suc : (n : ℕ) → n ≤ max_uint64 → (n == max_uint64) ≡ false → u64 (n + 1) ≡ n + 1
u64_suc n h k = ground arith

module _ (e : Env) (φ : Option Bytes → List Event → Type 0) {B : Type 0}
    {R : B → Sys e.World → Type 0} {E : Error → Sys e.World → Type 0}
    (bad : (er : Error) (s : Sys e.World) → OnFailure e φ er s → E er s) where
  pub now_then :
      (f : Time → M e.World B)
      → ((t : Time) → Triple (On e φ) (f t) R E)
      → Triple (On e φ) (now e >>= f) R E
  unfolding now
  now_then f k =
      bind_rule (λ _. On e φ) (now e) f
        (ask_value_then e.clock_now _ (λ s w h. h)
          λ instant.
            refuse_then e φ bad (instant == 0) zero_time _ refl λ _. pure_rule _ (λ s h. h))
        k

module _ (e : Env) (c : Coordinator) (codec : Codec e) (r0 : Option Journal) where
  known_bad :
      (j : Journal) (er : Error) (s : Sys e.World)
      → OnFailure e (IsKnown e c r0 j) er s
      → Failure e c r0 er s
  known_bad j er s h = (h.0, IsKnown-IsSafe e c r0 j s.file s.trace h.1)

  -- The journal returned is the one stored: `next`, one revision on.
  abbrev pub Advanced : Journal → Journal → Journal → Sys e.World → Type 0
  Advanced j next j' s = (t : Time) × (j' ≡ advanced j next t) × IsKnown e c r0 j' s.file s.trace

  module _ (j next : Journal) (change : IsChange j next) where
    advanced-Extends :
        (t : Time)
        → j.revision ≤ max_uint64
        → (j.revision == max_uint64) ≡ false
        → Extends j (advanced j next t)
    advanced-Extends t fits room = record {
      transaction = change.transaction;
      bootstrap = change.bootstrap;
      configuration = change.configuration;
      revision = omega (arith, u64_suc j.revision fits room);
      added = change.added;
      steps = change.steps;
    }

    enter_next :
        (t : Time)
        → (j.revision == max_uint64) ≡ false
        → (f f' : Option Bytes) (tr : List Event) → IsKnown e c r0 j f tr
        → IsStored e (advanced j next t) f'
        → IsKnown e c r0 (advanced j next t) f' tr
    enter_next t room f f' tr known stored = record {
      stored = stored;
      since =
          Since-Extends r0 j (advanced j next t) known.since
            (advanced-Extends t (codec.fits j known.stored.bytes known.stored.decoded) room);
      traced = known.traced;
    }

    save_failed :
        (t : Time) (er : Error) (s : Sys e.World)
        → SaveFailure e (IsKnown e c r0 j) (IsKnown e c r0 (advanced j next t)) er s
        → Failure e c r0 er s
    save_failed t er s (clean, inl h) = (clean, IsKnown-IsSafe e c r0 j s.file s.trace h)
    save_failed t er s (clean, inr h) =
        (clean, IsKnown-IsSafe e c r0 (advanced j next t) s.file s.trace h.0)

    pub advance_and_save-Advanced :
        Triple
          (On e (IsKnown e c r0 j))
          (advance_and_save e j next)
          (Advanced j next)
          (Failure e c r0)
    unfolding advance_and_save
    advance_and_save-Advanced = refuse_then e (IsKnown e c r0 j) (known_bad j) _ _ _ refl λ room.
        now_then e (IsKnown e c r0 j) (known_bad j) _ λ t.
          bind_rule (λ _. On e (IsKnown e c r0 (advanced j next t))) _ _
            (weaken _
              (save-Stored e codec (IsKnown e c r0 j) (IsKnown e c r0 (advanced j next t))
                j.revision (advanced j next t)
                λ current f f' tr known _ _ _ stored. enter_next t room f f' tr known stored)
              (λ s h. h) (λ a s h. h) (save_failed t))
            λ _. pure_rule _ λ s h. (t, refl, h)
