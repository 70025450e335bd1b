-- ===== src/Tests/KeyRuns.antt =====
-- Runs of the key manager in the sample world.
use sovereignite.Base.{List, ◌≡◌, refl, ℕ, []}
use sovereignite.Base.Effect.{Outcome, done, failed, Sys}
use sovereignite.KeyManager.Tpm.{Public}
use sovereignite.KeyManager.Machine.{Keeping}
use sovereignite.KeyManager.Error.{Error}
use sovereignite.KeyManager.Snapshot.{KeyMetadata}
use sovereignite.KeyManager.Manager.Operations.{ensure_role, rotate}
use sovereignite.Tests.Keys.{sample_setting, sample_role, first_keeping}
use sovereignite.KeyManager.Store.{with_exclusive, load, read_file, encode_file, save}
use sovereignite.Base.Effect.{◌>>=◌, query, check, modify, get, lift, catch, pure, raise}
use sovereignite.KeyManager.Manager.Operations.{
  ensure_role_locked, activate, create_first, rotate_state, rotate_locked,
}
use sovereignite.KeyManager.Manager.Reconcile.{
  ensure_loaded, open_metadata_file, evict_all, reconcile_pending, reconcile_retiring, retire_all,
  settle_all, verify_retiring, verify_roles,
}
use sovereignite.KeyManager.Snapshot.{
  validate_snapshot, validate_snapshot_envelope, check_roles, check_pending, check_values,
  increment_revision, validate_metadata_for_policy, verify_public_metadata,
}
use sovereignite.Base.{first_error, same}
use sovereignite.Base.Dict.{erase, insert, lookup}
use sovereignite.KeyManager.Manager.Create.{
  create_metadata, evict_created, initial_handle, free_handle, prepare, run_creation,
}
use sovereignite.KeyManager.Manager.Persist.{persist, verify_metadata}
use sovereignite.KeyManager.Policy.{
  claim_handles, collect_policies, has_handle, matches_role_pattern, owner_of, purpose_check,
  validate_policies,
}
use sovereignite.KeyManager.Tpm.{
  canonical_public_key, same_attributes, same_template, signing_template, validate_public_key,
}
use sovereignite.Tests.Codec.{decode_sample, encode_sample, entries, puts, takes}
use sovereignite.Tests.Keys.{find_object, remove_object}

abbrev generation_of : Outcome Error KeyMetadata → ℕ
generation_of (done m) = m.generation
generation_of (failed e) = 0

abbrev after_first : Sys (List Public) Keeping
after_first =
    (ensure_role sample_setting sample_role (record { world = []; state = first_keeping })).1

-- A first key is created, and the rotation after it creates the next one.
generations :
    generation_of
      (ensure_role sample_setting sample_role (record { world = []; state = first_keeping })).0
    ≡ 1
unfolding with_exclusive ◌>>=◌ query check modify ensure_role_locked ensure_loaded get
    open_metadata_file load lift read_file validate_snapshot validate_snapshot_envelope first_error
    check_roles check_pending erase insert lookup catch pure raise same create_metadata
    evict_created initial_handle free_handle prepare run_creation activate create_first rotate_state
    rotate_locked persist verify_metadata evict_all reconcile_pending reconcile_retiring retire_all
    settle_all verify_retiring verify_roles claim_handles collect_policies has_handle
    matches_role_pattern owner_of purpose_check validate_policies check_values increment_revision
    validate_metadata_for_policy verify_public_metadata encode_file save canonical_public_key
    same_attributes same_template signing_template validate_public_key decode_sample encode_sample
    entries puts takes find_object remove_object
generations = refl

rotated_generation : generation_of (rotate sample_setting sample_role after_first).0 ≡ 2
unfolding with_exclusive ◌>>=◌ query check modify ensure_role_locked ensure_loaded get
    open_metadata_file load lift read_file validate_snapshot validate_snapshot_envelope first_error
    check_roles check_pending erase insert lookup catch pure raise same create_metadata
    evict_created initial_handle free_handle prepare run_creation activate create_first rotate_state
    rotate_locked persist verify_metadata evict_all reconcile_pending reconcile_retiring retire_all
    settle_all verify_retiring verify_roles claim_handles collect_policies has_handle
    matches_role_pattern owner_of purpose_check validate_policies check_values increment_revision
    validate_metadata_for_policy verify_public_metadata encode_file save canonical_public_key
    same_attributes same_template signing_template validate_public_key decode_sample encode_sample
    entries puts takes find_object remove_object
rotated_generation = refl
