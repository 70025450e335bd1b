-- ===== src/Bootstrap/Readiness.antt =====
-- internal/bootstrap/readiness.go: `FilePreparedPublisher`, which keeps the record that the cluster is
-- prepared in this boot. The state is the record's file. What the file system answers is an argument:
-- for each call its error, if any, and the content of the kernel's file with the boot identifier.
pub mod BootId
pub mod Groups
pub mod Record
use sovereignite.Base.{
  Bytes, same, codes, ℕ, ◌+◌, ◌%◌, Bool, true, false, not, ◌&&◌, ◌||◌, Option, none, some, List, [],
  ◌∷◌, ◌++◌, leb, ◌==◌, fail_if, first_error, length, if◌then◌else◌,
}
use sovereignite.Bootstrap.Error
use sovereignite.Bootstrap.Error.{Error, foreign, Result, ok, err, unless, ◌>>=◌}

-- The calls that may fail. To inspect the record also fails if it is a link or no regular file.
pub data Call : Type 0 where
  context_err ensure_directory inspect_record create_temporary set_permissions write_temporary :
      Call
  sync_temporary close_temporary rename_temporary open_directory sync_directory close_directory :
      Call
  read_record : Call

pub record PreparedFile : Type 0 where
  pub content : Bytes
  pub mode : ℕ

-- `0o600`.
abbrev pub owner_only : ℕ
owner_only = 384

-- `character < '0' || character > '9'` and `character < 'a' || character > 'f'`, negated.
abbrev pub is_lower_hex_digit : ℕ → Bool
is_lower_hex_digit c = leb b'0' c && leb c b'9' || leb b'a' c && leb c b'f'

-- The switch of `validBootID`. A rune of more than one byte is refused at every index, as its bytes are.
abbrev pub fits_index : ℕ → ℕ → Bool
fits_index i c = if i == 8 || i == 13 || i == 18 || i == 23 then c == b'-' else is_lower_hex_digit c

unfoldable pub fit_from : ℕ → Bytes → Bool
fit_from i [] = true
fit_from i (c ∷ v) = fits_index i c && fit_from (i + 1) v

unfoldable pub valid_boot_id : Bytes → Bool
valid_boot_id v = if not (length v == 36) then false else fit_from 0 v

-- `strings.TrimSuffix(value, "\n")`.
unfoldable pub trim_newline : Bytes → Bytes
trim_newline [] = []
trim_newline (c ∷ v) =
    let rest = trim_newline v in if c == 10 && length v == 0 then [] else c ∷ rest

abbrev pub content_head : Bytes
content_head = codes "{\"version\":1,\"service\":\"bootstrap-prepared\",\"boot_id\":\""

abbrev pub content_tail : Bytes
content_tail = codes "\",\"ready\":true}"

unfoldable pub prepared_content_of : Bytes → Bytes
prepared_content_of boot_id = content_head ++ boot_id ++ content_tail

-- `expectedContent`, for what reading the kernel's file returned.
unfoldable pub expected_content : Result Bytes → Result Bytes
expected_content kernel = do
  read ← kernel
  unless (fail_if (not (valid_boot_id (trim_newline read))) Error.boot_id_malformed)
      (ok (prepared_content_of (trim_newline read)))

abbrev pub failure_of : Option ℕ → Option Error
failure_of none = none
failure_of (some n) = some (foreign n)

-- `info.Mode().Perm()&0o077 != 0`: the lowest six bits.
abbrev pub is_exposed : PreparedFile → Bool
is_exposed file = not (file.mode % 64 == 0)

-- `secureRegularFile` before a write: a record that is missing is no error.
abbrev pub refusal_of_old : Option PreparedFile → Option Error
refusal_of_old none = none
refusal_of_old (some old) = fail_if (is_exposed old) Error.prepared_permissions

module _ (fault : Call → Option ℕ) (kernel : Result Bytes) where
  abbrev pub write_failures : Option PreparedFile → List (Option Error)
  write_failures file =
      failure_of (fault ensure_directory)
      ∷ failure_of (fault inspect_record)
      ∷ refusal_of_old file
      ∷ failure_of (fault create_temporary)
      ∷ failure_of (fault set_permissions)
      ∷ failure_of (fault write_temporary)
      ∷ failure_of (fault sync_temporary)
      ∷ failure_of (fault close_temporary)
      ∷ failure_of (fault rename_temporary)
      ∷ []

  -- `Publish` up to the rename: the content that is put in place.
  unfoldable pub prepare_record : Option PreparedFile → Result Bytes
  prepare_record file =
      unless (failure_of (fault context_err)) do
        content ← expected_content kernel
        unless (first_error (write_failures file)) (ok content)

  -- The directory is closed even if its sync fails, and the sync's error comes first.
  abbrev pub sync_failure : Option Error
  sync_failure = first_error (
      failure_of (fault open_directory)
      ∷ failure_of (fault sync_directory)
      ∷ failure_of (fault close_directory)
      ∷ [])

  abbrev pub placed : Result Bytes → Option PreparedFile → Result (Unit {0}) × Option PreparedFile
  placed (err er) file = (err er, file)
  placed (ok content) file =
      (unless sync_failure (ok tt), some (record { content = content; mode = owner_only }))

  -- `Publish`.
  unfoldable pub publish : Option PreparedFile → Result (Unit {0}) × Option PreparedFile
  publish file = placed (prepare_record file) file

  abbrev pub record_checks : PreparedFile → Bytes → List (Option Error)
  record_checks file expected =
      fail_if (is_exposed file) Error.prepared_permissions
      ∷ fail_if (not (file.mode == owner_only)) Error.prepared_permissions
      ∷ fail_if (not (length file.content == length expected)) Error.prepared_size
      ∷ failure_of (fault read_record)
      ∷ fail_if (not (same file.content expected)) Error.prepared_content
      ∷ []

  abbrev pub check_record : Option PreparedFile → Bytes → Option Error
  check_record none expected = some Error.prepared_missing
  check_record (some file) expected = first_error (record_checks file expected)

  -- `Verify`.
  unfoldable pub verify : Option PreparedFile → Result (Unit {0})
  verify file = unless (failure_of (fault context_err)) do
    expected ← expected_content kernel
    unless (failure_of (fault inspect_record)) (unless (check_record file expected) (ok tt))
