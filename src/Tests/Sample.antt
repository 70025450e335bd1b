-- ===== src/Tests/Sample.antt =====
-- A small world to run the bootstrap service in: a clock that stands still, dependencies that do what
-- is asked, a file system without faults, a store that can write a few known journals, and an
-- accepted configuration.
use mathlib.Core.List.{map}
use mathlib.Core.Path.{sym}
use mathlib.Core.Option.{some-injective}
use mathlib.Core.Bool.{Bool-discrete}
use native.Mathlib.Decide.{ℕ_discrete}
use sovereignite.Base.{
  Bytes, codes, ℕ, zero, suc, ◌+◌, ◌≤◌, true, Option, none, some, List, [], ◌∷◌, ◌++◌, get_elem?,
  ◌≡◌, all, leb, &&-true, refl, arith,
}
use sovereignite.Bootstrap.Step.{
  Step, Component, key_manager, kubernetes, calico, istio, spire, dex, ordered_steps,
}
use sovereignite.Bootstrap.Config.{
  Artifact, Configuration, Digests, artifact_ca_request, artifact_kubelet, artifact_calico,
  artifact_istio, artifact_spire, artifact_dex, artifact_control_plane, artifact_cluster,
  artifact_topology_contract, artifact_key_inventory, artifact_issuer_hierarchy,
  artifact_ingress_token_flow, artifact_compatibility,
}
use sovereignite.Bootstrap.Coordinator.Requests.{Coordinator}
use sovereignite.Bootstrap.Coordinator.Commit.{initial_journal, with_attempt, with_record}
use sovereignite.Bootstrap.Machine.{Env}
use sovereignite.Bootstrap.Request.{
  Action, ensure_signing, prepare_kubelet, prepare_ipv6, prepare_ingress, prepare_tpm, reconcile,
  reconcile_dex, check_ready,
}
use sovereignite.Bootstrap.Store.{max_uint64}
use sovereignite.Bootstrap.Store.Laws.{Codec}
use sovereignite.Bootstrap.Journal.{
  expected_components, Time, Observation, Evidence, JournalState, Attempt, StepRecord, FailureCode,
  Failure, Journal,
}

abbrev same_lists :
    {A : Type 0} {x y : A} {xs ys : List A} → Dec (x ≡ y) → Dec (xs ≡ ys) → Dec (x ∷ xs ≡ y ∷ ys)
same_lists (yes p) (yes q) = yes (rw (p, q) refl)
same_lists (yes p) (no n) = no (λ e. n (cc e))
same_lists (no n) d = no (λ e. n (cc e))

unfoldable pub list_discrete : {A : Type 0} → Discrete A → Discrete (List A)
list_discrete d [] [] = yes refl
list_discrete d [] (y ∷ ys) = no (λ e. cc e)
list_discrete d (x ∷ xs) [] = no (λ e. cc e)
list_discrete d (x ∷ xs) (y ∷ ys) = same_lists (d x y) (list_discrete d xs ys)

abbrev Bytes-discrete : Discrete Bytes
Bytes-discrete = list_discrete ℕ_discrete

abbrev Step-discrete : Discrete Step
Step-discrete = hlevel Bytes-discrete

abbrev Component-discrete : Discrete Component
Component-discrete = hlevel Bytes-discrete

abbrev Time-discrete : Discrete Time
Time-discrete = hlevel (ℕ_discrete, Bool-discrete)

abbrev Observation-discrete : Discrete Observation
Observation-discrete = hlevel (Bytes-discrete, Bool-discrete, Component-discrete)

abbrev JournalState-discrete : Discrete JournalState
JournalState-discrete = hlevel Bytes-discrete

abbrev FailureCode-discrete : Discrete FailureCode
FailureCode-discrete = hlevel Bytes-discrete

abbrev Attempt-discrete : Discrete Attempt
Attempt-discrete = hlevel (ℕ_discrete, Step-discrete, Time-discrete)

abbrev Evidence-discrete : Discrete Evidence
Evidence-discrete = list_discrete Observation-discrete

abbrev StepRecord-discrete : Discrete StepRecord
StepRecord-discrete = hlevel (Step-discrete, Evidence-discrete, Time-discrete)

abbrev Failure-discrete : Discrete Failure
Failure-discrete = hlevel (Step-discrete, FailureCode-discrete, Bytes-discrete, Time-discrete)

abbrev AttemptOption-discrete : Discrete (Option Attempt)
AttemptOption-discrete = hlevel Attempt-discrete

abbrev FailureOption-discrete : Discrete (Option Failure)
FailureOption-discrete = hlevel Failure-discrete

abbrev TimeOption-discrete : Discrete (Option Time)
TimeOption-discrete = hlevel Time-discrete

abbrev StepRecords-discrete : Discrete (List StepRecord)
StepRecords-discrete = list_discrete StepRecord-discrete

abbrev Journal-discrete : Discrete Journal
Journal-discrete = hlevel (
  ℕ_discrete, Bytes-discrete, Bool-discrete, JournalState-discrete, TimeOption-discrete,
  StepRecords-discrete, AttemptOption-discrete, FailureOption-discrete, Time-discrete,
)

-- The store writes a journal as its place among the known ones.
abbrev place_or : (A : Type 0) → Dec A → ℕ → Option Bytes → Option Bytes
place_or A (yes _) i other = some (i ∷ [])
place_or A (no _) i other = other

unfoldable pub marshal_among : List Journal → ℕ → Journal → Option Bytes
marshal_among [] i j = none
marshal_among (k ∷ ks) i j = place_or (k ≡ j) (Journal-discrete k j) i (marshal_among ks (i + 1) j)

unfoldable pub decode_among : List Journal → Bytes → Option Journal
decode_among ks [] = none
decode_among ks (i ∷ _) = get_elem? ks i

module _ (known : List Journal) where
  found_at :
      (ks : List Journal) (i : ℕ) (j : Journal) (b : Bytes)
      → marshal_among ks i j ≡ some b
      → (n : ℕ) × (m : ℕ) × (b ≡ m ∷ []) × (m ≡ i + n) × (get_elem? ks n ≡ some j)
  unfolding marshal_among
  found_at [] i j b h = cc
  found_at (k ∷ ks) i j b h = by_decision (Journal-discrete k j) (found_at ks (i + 1) j b) h
    where
      by_decision :
          (d : Dec (k ≡ j))
          → (marshal_among ks (i + 1) j ≡ some b
              → (n : ℕ) × (m : ℕ) × (b ≡ m ∷ []) × (m ≡ i + 1 + n) × (get_elem? ks n ≡ some j))
          → place_or (k ≡ j) d i (marshal_among ks (i + 1) j) ≡ some b
          → (n : ℕ) × (m : ℕ) × (b ≡ m ∷ []) × (m ≡ i + n) × (get_elem? (k ∷ ks) n ≡ some j)
      by_decision (yes p) rest h = (0, i, sym (some-injective (i ∷ []) b h), omega arith, rw p refl)
      by_decision (no _) rest h = let (n, m, p, r, q) = rest h in (suc n, m, p, omega (arith, r), q)

  decode_among-marshal_among :
      (j : Journal) (b : Bytes)
      → marshal_among known 0 j ≡ some b
      → decode_among known (b ++ 10 ∷ []) ≡ some j
  unfolding decode_among
  decode_among-marshal_among j b h =
      let (n, m, p, r, q) = found_at known 0 j b h in rw (p, r, place n) q
    where
      place : (n : ℕ) → 0 + n ≡ n
      place n = omega arith

-- The sample world has no state.
abbrev pub never : Unit {0} → Option ℕ × Unit {0}
never w = (none, w)

abbrev pub moment : Time
moment = record { instant = 7; utc = true }

abbrev pub digest : Bytes
digest = codes "0123456789abcdef0123456789abcdef0123456789abcdef0123456789abcdef"

abbrev pub transaction : Bytes
transaction = codes "0123456789abcdef0123456789abcdef"

abbrev pub release : Bytes
release = codes "v1.2.3"

abbrev artifact_named : Bytes → Artifact
artifact_named name = record {
  name = name;
  version = release;
  sha256 = digest;
  content = codes "kind:Example key:tpm-0";
}

abbrev pub configuration : Configuration
configuration = record {
  bootstrap_version = release;
  versions = record {
    kubernetes = release;
    calico = release;
    istio = release;
    spire = release;
    dex = release;
  };
  ula = record {
    is_valid = true;
    is6 = true;
    addr = 0xFD ∷ 1 ∷ 2 ∷ 3 ∷ 4 ∷ 5 ∷ 0 ∷ 0 ∷ 0 ∷ 0 ∷ 0 ∷ 0 ∷ 0 ∷ 0 ∷ 0 ∷ 0 ∷ [];
    bits = 48;
  };
  tpm_device_key_reference = codes "tpm-0";
  artifacts = record {
    ca_request = artifact_named artifact_ca_request;
    kubelet = artifact_named artifact_kubelet;
    calico = artifact_named artifact_calico;
    istio = artifact_named artifact_istio;
    spire = artifact_named artifact_spire;
    dex = artifact_named artifact_dex;
    control_plane = artifact_named artifact_control_plane;
    cluster = artifact_named artifact_cluster;
  };
  authority = record {
    kubernetes_topology = artifact_named artifact_topology_contract;
    tpm_key_inventory = artifact_named artifact_key_inventory;
    issuer_hierarchy = artifact_named artifact_issuer_hierarchy;
    ingress_token_flow = artifact_named artifact_ingress_token_flow;
    compatibility = artifact_named artifact_compatibility;
  };
}

abbrev pub digests : Digests
digests = record { sha256_hex = λ _. digest; marshal = λ _. some [] }

abbrev pub coordinator : Coordinator
coordinator = record { config = configuration; config_digest = digest }

abbrev seen : Component → Observation
seen component = record {
  component = component;
  version = release;
  artifact_sha256 = digest;
  resource_sha256 = digest;
  ready = true;
}

-- The observations that a step asks for.
unfoldable pub evidence_for : Step → Evidence
unfolding expected_components
evidence_for step = map seen (expected_components step)

-- The component that an action is about.
abbrev about : Action → Component
about (ensure_signing _ _) = key_manager
about (prepare_kubelet _ _ _) = kubernetes
about (prepare_ipv6 _ _ _) = calico
about (prepare_ingress _ _ _) = istio
about (prepare_tpm _ _) = spire
about (Action.initialize_api_server _ _ _) = kubernetes
about (Action.wait_control_plane _ _) = kubernetes
about (reconcile component _ _) = component
about (reconcile_dex _ _) = dex
about (check_ready component _) = component

-- The world whose store can write these journals.
unfoldable pub world_of : List Journal → Env
unfolding decode_among marshal_among
world_of known = record {
  World = Unit {0};
  context_err = never;
  clock_now = λ w. (7, w);
  generate_id = λ w. (some transaction, w);
  after_intent = λ _. never;
  after_action = λ _. never;
  after_commit = λ _. never;
  call = λ a w. (some (seen (about a)), w);
  inspect = λ _. never;
  publish = never;
  verify_published = never;
  file_fault = λ _. never;
  marshal_journal = marshal_among known 0;
  decode_journal = decode_among known;
  digests = digests;
}

unfoldable pub started : Journal
unfolding world_of
started = initial_journal (world_of []) coordinator transaction moment

unfoldable pub attempted : Step → Journal → Journal
attempted step j =
    with_attempt (record j { revision = j.revision + 1 })
      (record { step = step; started_at = moment; attempts = 1 })

unfoldable pub recorded : Step → Journal → Journal
recorded step j =
    with_record (record j { revision = j.revision + 1 })
      (record { step = step; evidence = evidence_for step; completed_at = moment }) moment

-- The journals that a run over these steps saves, from this one on.
unfoldable pub saved_from : Journal → List Step → List Journal
unfolding expected_components recorded attempted evidence_for
saved_from j [] = j ∷ []
saved_from j (step ∷ steps) =
    j ∷ attempted step j ∷ saved_from (recorded step (attempted step j)) steps

unfoldable pub finished_from : Journal → List Step → Journal
unfolding expected_components recorded attempted evidence_for
finished_from j [] = j
finished_from j (step ∷ steps) = finished_from (recorded step (attempted step j)) steps

unfoldable pub known : List Journal
unfolding saved_from
known = saved_from started ordered_steps

unfoldable pub finished : Journal
unfolding finished_from
finished = finished_from started ordered_steps

unfoldable pub world : Env
world = world_of known

small_revisions : all (λ j. leb j.revision max_uint64) known ≡ true
unfolding saved_from known started recorded attempted
small_revisions = refl

decoded_fits :
    (ks : List Journal)
    → all (λ j. leb j.revision max_uint64) ks ≡ true
    → (i : ℕ) (j : Journal) → get_elem? ks i ≡ some j
    → j.revision ≤ max_uint64
decoded_fits [] h i j p = cc
decoded_fits (k ∷ ks) h zero j p = rw (← some-injective k j p) (ground arith)
decoded_fits (k ∷ ks) h (suc i) j p = decoded_fits ks (&&-true _ _ h).1 i j p

pub codec : Codec world
unfolding decode_among world_of marshal_among world
codec = record {
  round_trip = λ j b _. decode_among-marshal_among known j b;
  fits = λ j b p. fits_of b j p;
}
  where
    fits_of : (b : Bytes) (j : Journal) → decode_among known b ≡ some j → j.revision ≤ max_uint64
    fits_of [] j p = cc
    fits_of (i ∷ _) j p = decoded_fits known small_revisions i j p
