-- ===== src/Bootstrap/Error.antt =====
-- The errors of internal/bootstrap: one constructor for each message, with the values that it names.
-- `foreign` is an error of a dependency, of the clock or of the file system.
use sovereignite.Base.{
  Bytes, ℕ, String, Option, none, some, ◌≡◌, refl, Bool, true, false, ◌&&◌, arith,
}
use sovereignite.Bootstrap.Step.{Step, Component}

pub data Error : Type 0 where
  -- validateRequiredIdentifier, validatePinnedIdentifier
  required too_long surrounding_whitespace not_printable : String → Error
  moving_identifier : String → Bytes → Error
  -- Artifact.validate, validateOperationalArtifact, Configuration.validate
  artifact_name : Bytes → Bytes → Error
  artifact_version : Bytes → Bytes → Error
  artifact_size artifact_nul artifact_digest_form artifact_digest artifact_private_key :
      Bytes → Error
  artifact_kubeadm artifact_crd : Bytes → Error
  ula_not_canonical spire_reference encode_configuration : Error
  -- validateJournal, validateEvidenceShape
  journal_version : ℕ → Error
  journal_revision_zero journal_transaction_id journal_digest journal_update_time : Error
  journal_too_many_steps : Error
  journal_step_order : ℕ → Step → Error
  journal_step_time : Step → Error
  journal_prepared journal_prepared_time journal_unprepared_time : Error
  journal_failure_in_progress journal_steps_in_progress journal_incomplete journal_no_failure :
      Error
  journal_unknown_state : Bytes → Error
  journal_current_step journal_current_attempt : Error
  journal_failure journal_failure_code journal_failure_message : Error
  evidence_count : ℕ → ℕ → Error
  evidence_component : ℕ → Component → Error
  evidence_digest evidence_not_ready : Error
  -- FileJournalStore
  journal_next_revision : ℕ → ℕ → Error
  journal_conflict : ℕ → ℕ → Error
  journal_size : ℕ → Error
  journal_encoded_size : ℕ → Error
  journal_encode journal_decode : Error
  durability_uncertain : Error → Error
  -- Coordinator
  dependencies_unavailable incompatible_configuration : Error
  invalid_transaction_id zero_time revision_exhausted attempts_exhausted : Error
  current_mismatch id_generator dependency_failed : Error
  unknown_step : Step → Error
  observation_version observation_artifact : Component → Error
  at_step : Step → Error → Error
  -- FilePreparedPublisher
  boot_id_malformed prepared_missing prepared_permissions prepared_size prepared_content : Error
  -- several errors at once, as `errors.Join` keeps them
  joined : Error → Error → Error
  foreign : ℕ → Error
  -- what Go does on an index out of range or a nil dereference
  panic : Error
  -- the fuel of a loop of the model ran out, which no run reaches
  out_of_fuel : Error

-- `errors.Join(err, saveErr)`.
unfoldable pub join : Error → Option Error → Error
join e none = e
join e (some f) = joined e f

pub data Result {ℓ} (A : Type ℓ) : Type ℓ where
  ok : A → Result A
  err : Error → Result A

module _ {ℓ} {A : Type ℓ} where
  -- `if err := check; err != nil { return err }`, and then the rest.
  abbrev pub unless : Option Error → Result A → Result A
  unless none rest = rest
  unless (some e) rest = err e

  abbrev pub or_err : Option A → Error → Result A
  or_err none e = err e
  or_err (some a) e = ok a

  pub unless-ok :
      (o : Option Error) (r : Result A) {a : A} → unless o r ≡ ok a → (o ≡ none) × (r ≡ ok a)
  unless-ok none r h = (refl, h)
  unless-ok (some e) r h = cc

  pub or_err-ok : (o : Option A) (e : Error) {a : A} → or_err o e ≡ ok a → o ≡ some a
  or_err-ok none e h = cc
  or_err-ok (some a) e h = cc

-- `value, err := m; if err != nil { return err }`, and then the rest.
module _ {ℓ κ} {A : Type ℓ} {B : Type κ} where
  infixl 5 ◌>>=◌
  abbrev pub ◌>>=◌ : Result A → (A → Result B) → Result B
  err failure >>= rest = err failure
  ok value >>= rest = rest value

  pub >>=-ok :
      (r : Result A) (rest : A → Result B) {out : B}
      → (r >>= rest) ≡ ok out
      → (value : A) × (r ≡ ok value) × (rest value ≡ ok out)
  >>=-ok (err failure) rest h = cc
  >>=-ok (ok value) rest h = (value, refl, h)

-- An error that the Go code could return: not a crash, and not the model's own limit.
abbrev pub is_clean : Error → Bool
is_clean panic = false
is_clean out_of_fuel = false
is_clean (at_step _ e) = is_clean e
is_clean (durability_uncertain e) = is_clean e
is_clean (joined e f) = is_clean e && is_clean f
is_clean _ = true

unfoldable pub is_clean_result : Option Error → Bool
is_clean_result none = true
is_clean_result (some e) = is_clean e

-- The result of a validator, or of a step, is clean if its error is.
abbrev pub IsClean : Option Error → Type 0
IsClean r = is_clean_result r ≡ true

pub is_clean-join :
    (e : Error) (f : Option Error)
    → is_clean e ≡ true
    → is_clean_result f ≡ true
    → is_clean (join e f) ≡ true
unfolding join is_clean_result
is_clean-join e none h k = h
is_clean-join e (some f) h k = ground (arith, h, k)
