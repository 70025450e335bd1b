-- ===== src/Lib.antt =====
-- A model of two services of Sovereignite, in Go: the bootstrap service under internal/bootstrap, which
-- brings up a cluster by one durable transaction of nine ordered steps, and the key manager under
-- internal/keymanager, which keeps one active key for each role in a TPM and rotates it.
--
-- The parts of the bootstrap service. A configuration (service.go) selects versions, artifacts and contracts, and is validated
-- and digested once. The journal (journal.go) is the durable record of the transaction: the completed
-- steps with their evidence, the attempt under way, the last failure, and a revision. A store keeps it
-- in one file, which Save replaces atomically and Load validates. The coordinator (cluster.go) takes
-- the journal through the steps: it saves the intent, calls an action of a dependency, checks the
-- evidence, has the dependency verify it, and saves the record; after the fifth step it publishes that
-- the cluster is prepared. GetStatus reads the journal only.
--
-- The parts of the key manager. Policies (types.go, policy.go) say for each role its algorithm, its
-- purpose, its handles in the TPM and whether its key may rotate. A snapshot (types.go) is the public
-- metadata: for each role the active key, the retiring ones, and a pending creation. A store (store.go)
-- keeps it in one file that each Save replaces by the next revision. The manager (manager.go) creates a
-- key in four moves: it records the intent in the file, lets the TPM keep the key, verifies it, and
-- makes it active in the file; a key that it supersedes is retiring until the TPM has evicted it. After a
-- crash the next operation adopts or drops what is pending and evicts what is retiring. The scheduler
-- (rotation.go) rotates the roles whose interval has passed. Handles, templates and public areas are
-- those of internal/tpm/backend.go.
--
-- Files and code.
--   Base, Base/Tests, Base/Lists, Base/Text: Boolean tests, lists and strings as lists of bytes.
--   Bootstrap/Step: Step, Component, orderedSteps, stepIndex of service.go.
--   Bootstrap/Error: the errors that the code creates, one constructor each, and errors.Join.
--   Bootstrap/Identifier, with Laws and Moving: validateRequiredIdentifier, validatePinnedIdentifier,
--     validSHA256 of service.go, validTransactionID of journal.go.
--   Bootstrap/Config, with Laws: the types of a configuration, Artifact.validate,
--     validateOperationalArtifact, Configuration.validate, configurationDigest of service.go.
--   Bootstrap/Journal: the journal's types, validateJournal, validateEvidenceShape, expectedComponents
--     and failureMessage of journal.go. Journal/Validity describes a valid journal by its
--     parts, Journal/Accepted compares the two, Journal/Clean is about crashes.
--   Bootstrap/Request: the requests to the dependencies (ca.go, kubelet.go, calico.go, istio.go,
--     spire.go, dex.go), an action or a check for each method of their interfaces.
--   Bootstrap/Machine: the environment and the state of a run; Machine/Triple has rules for
--     preconditions, postconditions and errors.
--   Bootstrap/Store: FileJournalStore.Load and Save, loadJournalFile. Store/Laws, Store/Saving and
--     Store/RoundTrip are about what they read and leave.
--   Bootstrap/Coordinator: Requests (newCoordinator, validateEvidence, expectedObservations,
--     requireCompatible, operation, the requests), Execute (executeStep, applyClusterConfigs,
--     checkAllReady), Verify (verifyCompleted, verifyRecord and their parts), Commit (now,
--     initializeJournal, beginAttempt, commitStep, saveFailure, advanceAndSave), Start
--     (StartBootstrap, GetStatus), and Agreement, on what the two files expect of each other.
--   Bootstrap/Safety and its children: an invariant of the file and of the actions called, kept by each
--     method; Bootstrap/Guarantees, Bootstrap/Status and Status/Answers draw the conclusions.
--   Bootstrap/Readiness: FilePreparedPublisher and validBootID of readiness.go; Readiness/Record is about its
--     record, Readiness/Groups and Readiness/BootId about the form of the boot identifier. The
--     coordinator sees any publisher through its interface, two calls of the environment.
--   Base/Effect, Base/Dict, Base/Int: programs with errors over a state and a world, with rules for what
--     they keep; Go's maps; durations.
--   KeyManager/Tpm, with Laws: Handle, Template, SigningTemplate, Public, ValidatePublicKey and
--     CanonicalPublicKey of internal/tpm/backend.go.
--   KeyManager/Policy: RolePolicy, DefaultPolicies, validatePolicies; Policy/WellFormed describes
--     policies that pass.
--   KeyManager/Snapshot: KeyMetadata, RoleState, Snapshot, validateSnapshotLocked,
--     validateMetadataForPolicy, verifyPublicMetadata. Validity describes a valid snapshot by its entries,
--     Keys and Accepted compare the two, Advance says how snapshots follow each other, Succession and
--     Changes are about the changes that the manager makes, Verified about the verification of a key.
--   KeyManager/Machine: the setting and the state of a run; KeyManager/Rules has rules for its steps.
--   KeyManager/Store, with Laws and Progress: Load and Save of a FileStore inside a transaction,
--     withExclusive.
--   KeyManager/Manager: Persist (persistSnapshotLocked, verifyMetadataLocked), Create
--     (createMetadataLocked and the choice of a handle), Reconcile (openLocked, ensureLoadedLocked,
--     reconcilePendingLocked, reconcileRetiringLocked), Operations (EnsureRole, Metadata, Rotate and the
--     others, Initialize), Rotation (dueRoles, RunOnce), and Due about the roles that are due.
--   KeyManager/Safety and its children: an invariant of the file, the memory and the calls of the TPM, kept
--     by each step; KeyManager/Guarantees draws the conclusions.
--   Tests: sample worlds, runs in them, and the theorems at work there.
--
-- State of the bootstrap service. A run has the type `M W A`: from the state of the world, the journal's file and a trace to a
-- result or an error, and the state after it. Only a rename replaces the file. The trace, which the
-- code does not have, is the list of the actions called, each with the file as it was at the call. A
-- crash of Go (an index out of range, a nil pointer) is the error `panic`.
--
-- State of the key manager. A run has the type `Run S A`, over the manager's fields that change (`loaded`
-- and `snapshot`), the metadata file, and a trace that the code does not have: each key that the
-- callback of CreatePersistent agrees to and each call of EvictPersistent, with the file at that
-- moment. A run of CreatePersistent is a tree of calls of the callback, each continued with its answer.
--
-- Parameters. `Env` holds what is not in the package: the adapters' answers, the clock, the generator of
-- identifiers, the context, the hooks, the failures of file system calls, encoding/json and SHA-256,
-- over a type of worlds of its own. Nothing is assumed of them, but that the JSON decoder reads
-- back what the encoder wrote with a line feed behind it and keeps a revision within 64 bits (`Codec`),
-- and, where a theorem says so, that no call of the file system fails. `Setting` holds the TPM, the clock,
-- the context, the faults of the file system, encoding/json and the accepted policies of the key manager.
-- `IsCodec` assumes of JSON that an object decoded into a map has each key once, and that a valid snapshot
-- is decoded to itself up to the order of its entries.
--
-- Numbers, strings and time. Numbers are natural numbers, and uint64 additions wrap at 2^64. A string is
-- its list of bytes, and a change to lower case also acts on the two letters beyond ASCII that become
-- ASCII. A time is a number of nanoseconds after
-- Go's zero time and whether it is in UTC; the message of an error is left out, except the messages
-- that the journal stores.
--
-- Bounds. The loop of StartBootstrap runs on ten rounds of fuel: each round adds one of nine steps, and
-- the last finds none left.
--
-- Not modelled. One process at a time writes a journal's or a metadata file, one call at a time, as the
-- mutexes and the file locks provide; a copy of a value is the value itself; permissions and paths of
-- files are among the failures of the calls that test them. Of the key manager, the signing of
-- certificates (certificate.go), the driver of the TPM (gotpm.go), the ticker of the scheduler, and a
-- value that Go returns beside an error are left out. The gRPC servers and the other services of the
-- repository (trust, ipfs, libp2p, discovery, shipcrew, network, the controllers and the commands)
-- have no model here.
pub mod Base
pub mod Bootstrap
pub mod KeyManager
pub mod Tests
