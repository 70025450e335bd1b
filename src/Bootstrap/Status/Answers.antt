-- ===== src/Bootstrap/Status/Answers.antt =====
-- When `GetStatus` answers: its branches over a file that can be read.
use sovereignite.Base.{same, same_iff, none, some, Bool-cases, ◌≡◌, refl, ◌⊎◌, inl, inr, ◌∙◌}
use sovereignite.Bootstrap.Error.{Error, ok, err}
use sovereignite.Bootstrap.Journal.{Journal}
use sovereignite.Bootstrap.Machine.{Env, Sys, M, ask, check, lift, ◌>>=◌}
use sovereignite.Bootstrap.Store.{load}
use sovereignite.Bootstrap.Store.Laws.{IsStored}
use sovereignite.Bootstrap.Store.RoundTrip.{NoFaults, load-IsStored}
use sovereignite.Bootstrap.Coordinator.Requests.{Coordinator, require_compatible}
use sovereignite.Bootstrap.Coordinator.Start.{Status, status_of, report, get_status}
use sovereignite.Bootstrap.Status.{Reports, status_of-Reports}

-- The journal was written for the coordinator's release and configuration.
abbrev pub IsCompatible : Coordinator → Journal → Type 0
IsCompatible c j =
    (j.bootstrap_version ≡ c.config.bootstrap_version) × (j.configuration_sha256 ≡ c.config_digest)

require_compatible-cases :
    (c : Coordinator) (j : Journal)
    → (IsCompatible c j × (require_compatible c j ≡ none))
      ⊎ ((¬ IsCompatible c j) × (require_compatible c j ≡ some Error.incompatible_configuration))
unfolding require_compatible
require_compatible-cases c j =
    elim (Bool-cases (same j.bootstrap_version c.config.bootstrap_version)) [
      | inl v ↦ elim (Bool-cases (same j.configuration_sha256 c.config_digest)) [
        | inl d ↦ inl (((same_iff _ _).0 v, (same_iff _ _).0 d), rw (v, d) refl)
        | inr d ↦ inr (λ h. cc (d, (same_iff _ _).1 h.1), rw (v, d) refl)
      ]
      | inr v ↦ inr (λ h. cc (v, (same_iff _ _).1 h.0), rw v refl)
    ]

module _ {W A B : Type 0} where
  after_ok :
      (m : M W A) (f : A → M W B) (s : Sys W) (a : A)
      → (m s).0 ≡ ok a
      → (◌>>=◌ m f s).0 ≡ (f a (m s).1).0
  unfolding ◌>>=◌
  after_ok m f s a h = rw h refl

module _ (e : Env) (c : Coordinator) (j : Journal) where
  report-compatible :
      (s : Sys e.World) (st : Status)
      → require_compatible c j ≡ none
      → status_of j.state j ≡ ok st
      → (report e c (some j) s).0 ≡ ok st
  unfolding check lift ◌>>=◌
  report-compatible s st h k = rw (h, k) refl

  report-other :
      (s : Sys e.World) (er : Error)
      → require_compatible c j ≡ some er
      → (report e c (some j) s).0 ≡ err er
  unfolding check lift ◌>>=◌
  report-other s er h = rw h refl

  asked : (s : Sys e.World) → (e.context_err s.world).0 ≡ none → (ask e.context_err s).0 ≡ ok tt
  unfolding ask
  asked s live = rw live refl

  reported :
      (s : Sys e.World)
      → (e.context_err s.world).0 ≡ none
      → (load e (ask e.context_err s).1).0 ≡ ok (some j)
      → (get_status e c s).0 ≡ (report e c (some j) (load e (ask e.context_err s).1).1).0
  unfolding get_status
  reported s live read =
      after_ok (ask e.context_err) _ s tt (asked s live)
      ∙ after_ok (load e) (report e c) (ask e.context_err s).1 (some j) read

  still_held : (s : Sys e.World) → IsStored e j s.file → IsStored e j (ask e.context_err s).1.file
  unfolding ask
  still_held s h = h

  -- Where no call of the file system fails and the context is live, GetStatus answers over any valid journal in
  -- the file: with a status that is true of it, if the journal is of the coordinator's release and configuration,
  -- and otherwise with the error of an incompatible configuration.
  pub get_status_answers :
      (s : Sys e.World)
      → NoFaults e
      → (e.context_err s.world).0 ≡ none
      → IsStored e j s.file
      → (IsCompatible c j
          × ((st : Status) × ((get_status e c s).0 ≡ ok st) × Reports st.state st j))
        ⊎ ((¬ IsCompatible c j) × ((get_status e c s).0 ≡ err Error.incompatible_configuration))
  get_status_answers s calm live stored =
      let read = load-IsStored e calm j (ask e.context_err s).1 (still_held s stored) in
      let there = reported s live read in
      let (st, told, reports) = status_of-Reports j stored.valid in
      elim (require_compatible-cases c j) [
        | inl h ↦ inl (h.0, (st, there ∙ report-compatible _ st h.1 told, reports))
        | inr h ↦ inr (h.0, there ∙ report-other _ Error.incompatible_configuration h.1)
      ]
