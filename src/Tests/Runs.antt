-- ===== src/Tests/Runs.antt =====
-- Runs of the bootstrap service in the sample world.
use native.Mathlib.Decide.{ℕ_discrete}
use sovereignite.Base.{
  String, ℕ, Bytes, Option, false, length, none, some, [], ◌∷◌, ◌≡◌, refl, codes, arith,
  first_error, same, is_prefix, contains, lower, upper, to_lower, to_upper,
}
use sovereignite.Bootstrap.Error.{Error, Result, ok, err, incompatible_configuration}
use sovereignite.Bootstrap.Config.{
  Artifact, validate_configuration, validate_artifact, candidate_checks,
  validate_operational_artifact, contains_private_key, remove_ascii_whitespace, is_canonical_ula,
  masked, envelope, configuration_digest,
}
use sovereignite.Bootstrap.Journal.Validity.{IsValid}
use sovereignite.Bootstrap.Journal.Accepted.{validate_journal-IsValid}
use sovereignite.Bootstrap.Machine.{Sys}
use sovereignite.Bootstrap.Store.Laws.{IsStored}
use sovereignite.Tests.Sample.{list_discrete, coordinator, configuration, digests, digest}
use sovereignite.Bootstrap.Coordinator.Commit.{
  now, advance_and_save, initialize_journal, next_attempt, begin_attempt, commit_step, save_failure,
  fail_with, or_fail,
}
use sovereignite.Bootstrap.Coordinator.Execute.{
  perform, perform_one, apply_cluster_configs_all, check_all_ready, execute_operation, execute_step,
}
use sovereignite.Bootstrap.Readiness.{
  Call, publish, verify, prepare_record, expected_content, valid_boot_id, fit_from, trim_newline,
  prepared_content_of,
}
use sovereignite.Bootstrap.Coordinator.Requests.{
  Coordinator, expected_observations, bindings_checks, validate_evidence, require_compatible,
  idempotency_key, operation, ca_request, spire_request, dex_request,
}
use sovereignite.Bootstrap.Coordinator.Start.{
  publish_prepared, verify_or_fail, finish_complete, resume, run_step, run_steps, continue_steps,
  start_bootstrap,
}
use sovereignite.Bootstrap.Coordinator.Verify.{
  inspect, verify_reconciled_all, verify_ready_all, verify_step, verify_record, at_record,
  verify_records, verify_completed, verification_failure_step,
}
use sovereignite.Bootstrap.Identifier.{
  has_surrounding_space, validate_required_identifier, is_moving, validate_pinned_identifier,
  decodes, valid_sha256, valid_transaction_id,
}
use sovereignite.Bootstrap.Journal.{
  expected_components, evidence_checks, validate_evidence_shape, failure_message, steps_checks,
  should_be_prepared, state_check, current_check, failure_check, validate_journal,
}
use sovereignite.Bootstrap.Machine.{pure, raise, lift, ask_value, check, ask, ◌>>=◌, catch}
use sovereignite.Bootstrap.Step.{step_text, same_step, same_component}
use sovereignite.Bootstrap.Store.{
  get_file, replace_file, read_journal, load_journal_file, load, write_journal,
  sync_directory_entry, save,
}
use sovereignite.Tests.Sample.{
  marshal_among, decode_among, evidence_for, world_of, started, attempted, recorded, saved_from,
  finished_from, known, finished, world,
}

-- No journal yet.
unfoldable pub fresh : Sys world.World
unfolding world world_of
fresh = record { world = tt; file = none; trace = [] }

-- The journal of a transaction that has just begun, revision 1.
unfoldable pub begun : Sys world.World
unfolding world world_of
begun = record { world = tt; file = some (0 ∷ 10 ∷ []); trace = [] }

pub started-passes : validate_journal started ≡ none
unfolding first_error same is_prefix contains lower upper to_lower to_upper now advance_and_save
    initialize_journal next_attempt begin_attempt commit_step save_failure fail_with or_fail perform
    perform_one apply_cluster_configs_all check_all_ready execute_operation execute_step
    expected_observations bindings_checks validate_evidence require_compatible idempotency_key
    operation ca_request spire_request dex_request publish_prepared verify_or_fail finish_complete
    resume run_step run_steps continue_steps start_bootstrap inspect verify_reconciled_all
    verify_ready_all verify_step verify_record at_record verify_records verify_completed
    verification_failure_step has_surrounding_space validate_required_identifier is_moving
    validate_pinned_identifier decodes valid_sha256 valid_transaction_id expected_components
    evidence_checks validate_evidence_shape failure_message steps_checks should_be_prepared
    state_check current_check failure_check validate_journal pure raise lift ask_value check ask
    ◌>>=◌ catch step_text same_step same_component get_file replace_file read_journal
    load_journal_file load write_journal sync_directory_entry save marshal_among decode_among
    evidence_for world_of started attempted recorded saved_from finished_from known finished world
    ℕ_discrete list_discrete
started-passes = refl

pub finished-passes : validate_journal finished ≡ none
unfolding first_error same is_prefix contains lower upper to_lower to_upper now advance_and_save
    initialize_journal next_attempt begin_attempt commit_step save_failure fail_with or_fail perform
    perform_one apply_cluster_configs_all check_all_ready execute_operation execute_step
    expected_observations bindings_checks validate_evidence require_compatible idempotency_key
    operation ca_request spire_request dex_request publish_prepared verify_or_fail finish_complete
    resume run_step run_steps continue_steps start_bootstrap inspect verify_reconciled_all
    verify_ready_all verify_step verify_record at_record verify_records verify_completed
    verification_failure_step has_surrounding_space validate_required_identifier is_moving
    validate_pinned_identifier decodes valid_sha256 valid_transaction_id expected_components
    evidence_checks validate_evidence_shape failure_message steps_checks should_be_prepared
    state_check current_check failure_check validate_journal pure raise lift ask_value check ask
    ◌>>=◌ catch step_text same_step same_component get_file replace_file read_journal
    load_journal_file load write_journal sync_directory_entry save marshal_among decode_among
    evidence_for world_of started attempted recorded saved_from finished_from known finished world
    ℕ_discrete list_discrete
finished-passes = refl

pub started-IsValid : IsValid started
started-IsValid = (validate_journal-IsValid started).0 started-passes

pub begun-IsStored : IsStored world started begun.file
unfolding first_error same is_prefix contains lower upper to_lower to_upper now advance_and_save
    initialize_journal next_attempt begin_attempt commit_step save_failure fail_with or_fail perform
    perform_one apply_cluster_configs_all check_all_ready execute_operation execute_step
    expected_observations bindings_checks validate_evidence require_compatible idempotency_key
    operation ca_request spire_request dex_request publish_prepared verify_or_fail finish_complete
    resume run_step run_steps continue_steps start_bootstrap inspect verify_reconciled_all
    verify_ready_all verify_step verify_record at_record verify_records verify_completed
    verification_failure_step has_surrounding_space validate_required_identifier is_moving
    validate_pinned_identifier decodes valid_sha256 valid_transaction_id expected_components
    evidence_checks validate_evidence_shape failure_message steps_checks should_be_prepared
    state_check current_check failure_check validate_journal pure raise lift ask_value check ask
    ◌>>=◌ catch step_text same_step same_component get_file replace_file read_journal
    load_journal_file load write_journal sync_directory_entry save marshal_among decode_among
    evidence_for world_of started attempted recorded saved_from finished_from known finished world
    ℕ_discrete list_discrete begun
begun-IsStored = record {
  bytes = 0 ∷ 10 ∷ [];
  held = refl;
  nonempty = omega arith;
  bounded = omega arith;
  decoded = refl;
  valid = started-IsValid;
}

-- From nothing to a complete cluster.
pub fresh-completes : (start_bootstrap world coordinator fresh).0 ≡ ok tt
unfolding first_error same is_prefix contains lower upper to_lower to_upper now advance_and_save
    initialize_journal next_attempt begin_attempt commit_step save_failure fail_with or_fail perform
    perform_one apply_cluster_configs_all check_all_ready execute_operation execute_step
    expected_observations bindings_checks validate_evidence require_compatible idempotency_key
    operation ca_request spire_request dex_request publish_prepared verify_or_fail finish_complete
    resume run_step run_steps continue_steps start_bootstrap inspect verify_reconciled_all
    verify_ready_all verify_step verify_record at_record verify_records verify_completed
    verification_failure_step has_surrounding_space validate_required_identifier is_moving
    validate_pinned_identifier decodes valid_sha256 valid_transaction_id expected_components
    evidence_checks validate_evidence_shape failure_message steps_checks should_be_prepared
    state_check current_check failure_check validate_journal pure raise lift ask_value check ask
    ◌>>=◌ catch step_text same_step same_component get_file replace_file read_journal
    load_journal_file load write_journal sync_directory_entry save marshal_among decode_among
    evidence_for world_of started attempted recorded saved_from finished_from known finished world
    ℕ_discrete list_discrete fresh
fresh-completes = refl

-- The last journal of that run is the finished one, and each of the seventeen actions was called once.
fresh_leaves : (load world (start_bootstrap world coordinator fresh).1).0 ≡ ok (some finished)
unfolding first_error same is_prefix contains lower upper to_lower to_upper now advance_and_save
    initialize_journal next_attempt begin_attempt commit_step save_failure fail_with or_fail perform
    perform_one apply_cluster_configs_all check_all_ready execute_operation execute_step
    expected_observations bindings_checks validate_evidence require_compatible idempotency_key
    operation ca_request spire_request dex_request publish_prepared verify_or_fail finish_complete
    resume run_step run_steps continue_steps start_bootstrap inspect verify_reconciled_all
    verify_ready_all verify_step verify_record at_record verify_records verify_completed
    verification_failure_step has_surrounding_space validate_required_identifier is_moving
    validate_pinned_identifier decodes valid_sha256 valid_transaction_id expected_components
    evidence_checks validate_evidence_shape failure_message steps_checks should_be_prepared
    state_check current_check failure_check validate_journal pure raise lift ask_value check ask
    ◌>>=◌ catch step_text same_step same_component get_file replace_file read_journal
    load_journal_file load write_journal sync_directory_entry save marshal_among decode_among
    evidence_for world_of started attempted recorded saved_from finished_from known finished world
    ℕ_discrete list_discrete fresh
fresh_leaves = refl

fresh_calls : length (start_bootstrap world coordinator fresh).1.trace ≡ 17
unfolding first_error same is_prefix contains lower upper to_lower to_upper now advance_and_save
    initialize_journal next_attempt begin_attempt commit_step save_failure fail_with or_fail perform
    perform_one apply_cluster_configs_all check_all_ready execute_operation execute_step
    expected_observations bindings_checks validate_evidence require_compatible idempotency_key
    operation ca_request spire_request dex_request publish_prepared verify_or_fail finish_complete
    resume run_step run_steps continue_steps start_bootstrap inspect verify_reconciled_all
    verify_ready_all verify_step verify_record at_record verify_records verify_completed
    verification_failure_step has_surrounding_space validate_required_identifier is_moving
    validate_pinned_identifier decodes valid_sha256 valid_transaction_id expected_components
    evidence_checks validate_evidence_shape failure_message steps_checks should_be_prepared
    state_check current_check failure_check validate_journal pure raise lift ask_value check ask
    ◌>>=◌ catch step_text same_step same_component get_file replace_file read_journal
    load_journal_file load write_journal sync_directory_entry save marshal_among decode_among
    evidence_for world_of started attempted recorded saved_from finished_from known finished world
    ℕ_discrete list_discrete fresh
fresh_calls = refl

-- A transaction of another configuration is refused.
abbrev pub stranger : Coordinator
stranger = record { config = configuration; config_digest = codes "other" }

pub stranger-refused : (start_bootstrap world stranger begun).0 ≡ err incompatible_configuration
unfolding first_error same is_prefix contains lower upper to_lower to_upper now advance_and_save
    initialize_journal next_attempt begin_attempt commit_step save_failure fail_with or_fail perform
    perform_one apply_cluster_configs_all check_all_ready execute_operation execute_step
    expected_observations bindings_checks validate_evidence require_compatible idempotency_key
    operation ca_request spire_request dex_request publish_prepared verify_or_fail finish_complete
    resume run_step run_steps continue_steps start_bootstrap inspect verify_reconciled_all
    verify_ready_all verify_step verify_record at_record verify_records verify_completed
    verification_failure_step has_surrounding_space validate_required_identifier is_moving
    validate_pinned_identifier decodes valid_sha256 valid_transaction_id expected_components
    evidence_checks validate_evidence_shape failure_message steps_checks should_be_prepared
    state_check current_check failure_check validate_journal pure raise lift ask_value check ask
    ◌>>=◌ catch step_text same_step same_component get_file replace_file read_journal
    load_journal_file load write_journal sync_directory_entry save marshal_among decode_among
    evidence_for world_of started attempted recorded saved_from finished_from known finished world
    ℕ_discrete list_discrete begun
stranger-refused = refl

pub started-saved : (save world 0 started fresh).0 ≡ ok tt
unfolding first_error same is_prefix contains lower upper to_lower to_upper now advance_and_save
    initialize_journal next_attempt begin_attempt commit_step save_failure fail_with or_fail perform
    perform_one apply_cluster_configs_all check_all_ready execute_operation execute_step
    expected_observations bindings_checks validate_evidence require_compatible idempotency_key
    operation ca_request spire_request dex_request publish_prepared verify_or_fail finish_complete
    resume run_step run_steps continue_steps start_bootstrap inspect verify_reconciled_all
    verify_ready_all verify_step verify_record at_record verify_records verify_completed
    verification_failure_step has_surrounding_space validate_required_identifier is_moving
    validate_pinned_identifier decodes valid_sha256 valid_transaction_id expected_components
    evidence_checks validate_evidence_shape failure_message steps_checks should_be_prepared
    state_check current_check failure_check validate_journal pure raise lift ask_value check ask
    ◌>>=◌ catch step_text same_step same_component get_file replace_file read_journal
    load_journal_file load write_journal sync_directory_entry save marshal_among decode_among
    evidence_for world_of started attempted recorded saved_from finished_from known finished world
    ℕ_discrete list_discrete fresh
started-saved = refl

pub configuration-accepted : validate_configuration digests configuration ≡ ok digest
unfolding first_error same is_prefix contains lower upper to_lower to_upper now advance_and_save
    initialize_journal next_attempt begin_attempt commit_step save_failure fail_with or_fail perform
    perform_one apply_cluster_configs_all check_all_ready execute_operation execute_step
    expected_observations bindings_checks validate_evidence require_compatible idempotency_key
    operation ca_request spire_request dex_request publish_prepared verify_or_fail finish_complete
    resume run_step run_steps continue_steps start_bootstrap inspect verify_reconciled_all
    verify_ready_all verify_step verify_record at_record verify_records verify_completed
    verification_failure_step has_surrounding_space validate_required_identifier is_moving
    validate_pinned_identifier decodes valid_sha256 valid_transaction_id expected_components
    evidence_checks validate_evidence_shape failure_message steps_checks should_be_prepared
    state_check current_check failure_check validate_journal pure raise lift ask_value check ask
    ◌>>=◌ catch step_text same_step same_component get_file replace_file read_journal
    load_journal_file load write_journal sync_directory_entry save marshal_among decode_among
    evidence_for world_of started attempted recorded saved_from finished_from known finished world
    ℕ_discrete list_discrete validate_configuration validate_artifact candidate_checks
    validate_operational_artifact contains_private_key remove_ascii_whitespace is_canonical_ula
    masked envelope configuration_digest
configuration-accepted = refl

-- The record of readiness: the kernel's file with its line feed.
abbrev pub kernel : Result Bytes
kernel = ok (codes "01234567-89ab-cdef-0123-456789abcdef\n")

abbrev pub no_fault : Call → Option ℕ
no_fault _ = none

pub kernel-published : (publish no_fault kernel none).0 ≡ ok tt
unfolding publish prepare_record expected_content valid_boot_id fit_from trim_newline first_error
kernel-published = refl

pub written-verified : verify no_fault kernel (publish no_fault kernel none).1 ≡ ok tt
unfolding publish verify prepare_record expected_content valid_boot_id fit_from trim_newline
    first_error prepared_content_of same
written-verified = refl

-- An identifier in upper case is refused.
shouting-refused : valid_boot_id (codes "01234567-89AB-CDEF-0123-456789ABCDEF") ≡ false
unfolding valid_boot_id fit_from
shouting-refused = refl

-- A definition of a custom resource is refused when its kind stands bare, and passes when it is quoted.
abbrev manifest : String → Artifact
manifest text = record {
  name = codes "n";
  version = codes "v1";
  sha256 = digest;
  content = codes text;
}

bare_crd-refused :
    validate_operational_artifact
      (manifest "kind: CustomResourceDefinition\ngroup: sovereignite.net")
    ≡ some (Error.artifact_crd (codes "n"))
unfolding validate_operational_artifact contains is_prefix to_lower lower remove_ascii_whitespace
bare_crd-refused = refl

quoted_crd-passes :
    validate_operational_artifact
      (manifest "kind: \"CustomResourceDefinition\"\ngroup: sovereignite.net")
    ≡ none
unfolding validate_operational_artifact contains is_prefix to_lower lower remove_ascii_whitespace
quoted_crd-passes = refl
