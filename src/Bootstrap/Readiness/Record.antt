-- ===== src/Bootstrap/Readiness/Record.antt =====
-- What the record of readiness proves.
use mathlib.Core.List.{append_cancel_left, append_cancel_right}
use mathlib.Core.Path.{sym, ◌∙◌}
use sovereignite.Base.{
  [], ◌++◌, codes, Bytes, same_refl, same-eq, ℕ, true, not, Option, none, some, fail_if, passes,
  first_error, first_error-none, ==_iff, length, ◌≡◌, refl, ap,
}
use sovereignite.Bootstrap.Error.{Error, Result, ok, err, unless-ok, >>=-ok}
use sovereignite.Bootstrap.Readiness.BootId.{IsBootId, valid_boot_id-IsBootId}
use sovereignite.Bootstrap.Readiness.{
  Call, context_err, inspect_record, write_failures, PreparedFile, owner_only, valid_boot_id,
  trim_newline, prepared_content_of, expected_content, failure_of, prepare_record, placed, publish,
  record_checks, check_record, verify,
}

ok-injective : {A : Type 0} (a a' : A) → ok a ≡ ok a' → a ≡ a'
ok-injective a a' p = cc

-- The record of a boot: the kernel's file was read, its identifier is well formed, and the file holds
-- that identifier's record for its owner only.
pub record IsRecordOf (kernel : Result Bytes) (file : Option PreparedFile) : Type 0 where
  pub read : Bytes
  pub was_read : kernel ≡ ok read
  pub well_formed : IsBootId (trim_newline read)
  pub held :
      file
      ≡ some (record {
        content =
            codes "{\"version\":1,\"service\":\"bootstrap-prepared\",\"boot_id\":\""
            ++ trim_newline read
            ++ codes "\",\"ready\":true}";
        mode = 384;
      })

expected_content-ok :
    (kernel : Result Bytes) (content : Bytes)
    → expected_content kernel ≡ ok content
    → (read : Bytes) × (kernel ≡ ok read)
      × (valid_boot_id (trim_newline read) ≡ true)
      × (content ≡ prepared_content_of (trim_newline read))
unfolding expected_content
expected_content-ok kernel content h =
    let (read, was_read, rest) = >>=-ok kernel _ h in
    let (formed, built) =
      unless-ok (fail_if (not (valid_boot_id (trim_newline read))) Error.boot_id_malformed) _
        rest in
    (read, was_read, passes _ _ formed, sym (ok-injective _ _ built))

IsRecordOf-content :
    (kernel : Result Bytes) (file : Option PreparedFile) (content : Bytes)
    → expected_content kernel ≡ ok content
    → file ≡ some (record { content = content; mode = owner_only })
    → IsRecordOf kernel file
unfolding prepared_content_of
IsRecordOf-content kernel file content h held =
    let (read, was_read, formed, same_content) = expected_content-ok kernel content h in
    record {
      read = read;
      was_read = was_read;
      well_formed = (valid_boot_id-IsBootId (trim_newline read)).0 formed;
      held = rw (held, same_content) refl;
    }

check_record-none :
    (fault : Call → Option ℕ) (kernel : Result Bytes) (file : Option PreparedFile)
    (expected : Bytes)
    → check_record fault kernel file expected ≡ none
    → file ≡ some (record { content = expected; mode = owner_only })
check_record-none fault kernel none expected h = cc
check_record-none fault kernel (some file) expected h =
    let p = first_error-none (record_checks fault kernel file expected) h in
    let mode = (==_iff file.mode owner_only).0 (passes _ _ p.1.0) in
    let content = same-eq file.content expected (passes _ _ p.1.1.1.1.0) in
    ap some (◌∙◌ (eta file) (rw (mode, content) refl))
  where
    eta : (file : PreparedFile) → file ≡ record { content = file.content; mode = file.mode }
    eta file = refl

placed-ok :
    (fault : Call → Option ℕ) (kernel : Result Bytes) (r : Result Bytes)
    (file : Option PreparedFile)
    → (placed fault kernel r file).0 ≡ ok tt
    → (content : Bytes) × (r ≡ ok content)
      × ((placed fault kernel r file).1 ≡ some (record { content = content; mode = owner_only }))
placed-ok fault kernel (err er) file h = cc
placed-ok fault kernel (ok content) file h = (content, refl, refl)

-- Verify accepts only the owner-only record of the current boot, whatever the file system answers.
pub verify-IsRecordOf :
    (fault : Call → Option ℕ) (kernel : Result Bytes) (file : Option PreparedFile)
    → verify fault kernel file ≡ ok tt
    → IsRecordOf kernel file
unfolding verify
verify-IsRecordOf fault kernel file h =
    let (_, started) = unless-ok (failure_of (fault context_err)) _ h in
    let (expected, derived, inspected) = >>=-ok (expected_content kernel) _ started in
    let (_, checked) = unless-ok (failure_of (fault inspect_record)) _ inspected in
    let (passed, _) = unless-ok (check_record fault kernel file expected) (ok tt) checked in
    IsRecordOf-content kernel file expected derived
      (check_record-none fault kernel file expected passed)

publish-IsRecordOf :
    (fault : Call → Option ℕ) (kernel : Result Bytes) (file : Option PreparedFile)
    → (publish fault kernel file).0 ≡ ok tt
    → IsRecordOf kernel (publish fault kernel file).1
unfolding publish prepare_record
publish-IsRecordOf fault kernel file h =
    let (content, prepared, held) =
      placed-ok fault kernel (prepare_record fault kernel file) file h in
    let (_, started) = unless-ok (failure_of (fault context_err)) _ prepared in
    let (derived_content, derived, rest) = >>=-ok (expected_content kernel) _ started in
    let (_, built) = unless-ok (first_error (write_failures fault kernel file)) _ rest in
    IsRecordOf-content kernel _ content (rw (← ok-injective derived_content content built) derived)
      held

-- Where no call fails, Verify accepts the owner-only record of the current boot.
verify-IsRecordOf_calm :
    (kernel : Result Bytes) (file : Option PreparedFile)
    → IsRecordOf kernel file
    → verify (λ _. none) kernel file ≡ ok tt
unfolding verify expected_content first_error prepared_content_of trim_newline
verify-IsRecordOf_calm kernel file h =
    let content = prepared_content_of (trim_newline h.read) in
    rw
      (
        h.was_read,
        h.held,
        (valid_boot_id-IsBootId (trim_newline h.read)).1 h.well_formed,
        same_refl content,
        (==_iff (length content) (length content)).1 refl,
      )
      refl

-- Where no call fails, Verify accepts what a successful Publish of the same boot left.
pub verify-publish :
    (fault : Call → Option ℕ) (kernel : Result Bytes) (file : Option PreparedFile)
    → (publish fault kernel file).0 ≡ ok tt
    → verify (λ _. none) kernel (publish fault kernel file).1 ≡ ok tt
verify-publish fault kernel file h =
    verify-IsRecordOf_calm kernel (publish fault kernel file).1
      (publish-IsRecordOf fault kernel file h)

abbrev content_or_none : Option PreparedFile → Bytes
content_or_none none = []
content_or_none (some file) = file.content

IsRecordOf-Unique :
    (kernel kernel' : Result Bytes) (file : Option PreparedFile) (a : IsRecordOf kernel file)
    (b : IsRecordOf kernel' file)
    → trim_newline a.read ≡ trim_newline b.read
IsRecordOf-Unique kernel kernel' file a b = append_cancel_right _ _ (codes "\",\"ready\":true}") (
    append_cancel_left (codes "{\"version\":1,\"service\":\"bootstrap-prepared\",\"boot_id\":\"") _
      _ (ap content_or_none (sym a.held ∙ b.held)))

-- A record that a Publish left is accepted by Verify, whatever calls fail, only in the boot that published it: both read an
-- identifier from the kernel, and it is the same one.
pub verify-publish_boot :
    (fault fault' : Call → Option ℕ) (kernel kernel' : Result Bytes) (file : Option PreparedFile)
    → (publish fault kernel file).0 ≡ ok tt
    → verify fault' kernel' (publish fault kernel file).1 ≡ ok tt
    → (published read : Bytes) × (kernel ≡ ok published)
      × (kernel' ≡ ok read)
      × (trim_newline published ≡ trim_newline read)
verify-publish_boot fault fault' kernel kernel' file written accepted =
    let a = publish-IsRecordOf fault kernel file written in
    let b = verify-IsRecordOf fault' kernel' (publish fault kernel file).1 accepted in
    (
      a.read,
      b.read,
      a.was_read,
      b.was_read,
      IsRecordOf-Unique kernel kernel' (publish fault kernel file).1 a b,
    )
