-- ===== src/Compare/Blocks.antt =====
-- src/cli/compare.ts: the blocks of `compareSummariesV0`, each the test of an `if` and the change
-- that is pushed, together with its bucket, where the test holds.
use weft_end.Prelude.{
  ℕ, String, Bool, not, ◌||◌, Option, none, some, List, [], ◌∷◌, ◌++◌, length, str_eq,
  if◌then◌else◌,
}
use weft_end.Text.Table.{Table}
use weft_end.Reasons.{is_none, or_default}
use weft_end.Compare.{
  CompareSummary, CompareChange, normalize_list, set_diff, is_diff, all_keys, record_changed,
  side_counts, number_differs, flag_differs, text_differs, flag_text, named,
}

abbrev pub Block : Type 0
Block = Bool × CompareChange

-- `pushChange`.
unfoldable pub change : String → List String → List String → Option (Table ℕ) → CompareChange
change bucket added removed counts = record {
  bucket = bucket;
  added = normalize_list added;
  removed = normalize_list removed;
  counts = counts;
}

-- The counts of a change, which are given where both sides have them.
unfoldable pub both_counts : String → Option ℕ → String → Option ℕ → Option (Table ℕ)
both_counts l (some a) r (some b) = some ((l, a) ∷ (r, b) ∷ [])
both_counts l _ r _ = none

unfoldable pub all_counts : Option (Table ℕ) → Option (Table ℕ) → Option (Table ℕ)
all_counts (some a) (some b) = some (a ++ b)
all_counts _ _ = none

abbrev pub kinds : CompareSummary → List String
kinds s =
    named "target" (or_default "UNKNOWN" s.target_kind)
    ∷ named "artifact" (or_default "unknown" s.artifact_kind)
    ∷ []

abbrev pub stamps : CompareSummary → List String
stamps s =
    named "signature" (or_default "unknown" s.signature_present)
    ∷ named "timestamp" (or_default "unknown" s.timestamp_present)
    ∷ []

abbrev pub host_truth : CompareSummary → List String
host_truth s =
    named "releaseStatus" (or_default "UNKNOWN" s.host_release_status)
    ∷ named "strictVerify" (or_default "UNKNOWN" s.strict_verify)
    ∷ named "strictExecute" (or_default "UNKNOWN" s.strict_execute)
    ∷ []

module _ (left right : CompareSummary) where
  unfoldable pub verdict_block : Block
  verdict_block = (
    not (str_eq left.result right.result),
    change "VERDICT_CHANGED" (right.result ∷ []) (left.result ∷ []) none,
  )

  unfoldable pub exit_block : Block
  exit_block = (
    number_differs left.exit_code right.exit_code,
    change "EXITCODE_CHANGED" [] [] (both_counts "left" left.exit_code "right" right.exit_code),
  )

  unfoldable pub reasons_block : Block
  reasons_block =
      let diff = set_diff left.reason_codes right.reason_codes in
      (
        is_diff diff,
        change "REASONS_CHANGED" diff.added diff.removed
            (some (("left", length left.reason_codes) ∷ ("right", length right.reason_codes) ∷ [])),
      )

  unfoldable pub digest_block : Block
  digest_block = (
    text_differs "UNKNOWN" left.artifact_digest right.artifact_digest,
    change "DIGEST_CHANGED" (or_default "UNKNOWN" right.artifact_digest ∷ [])
        (or_default "UNKNOWN" left.artifact_digest ∷ []) none,
  )

  unfoldable pub policy_block : Block
  policy_block = (
    text_differs "POLICY_UNKNOWN" left.policy_digest right.policy_digest,
    change "POLICY_CHANGED" (or_default "POLICY_UNKNOWN" right.policy_digest ∷ [])
        (or_default "POLICY_UNKNOWN" left.policy_digest ∷ []) none,
  )

  unfoldable pub external_block : Block
  external_block = (
    number_differs left.external_ref_count right.external_ref_count
        || number_differs left.unique_domain_count right.unique_domain_count,
    change "EXTERNALREFS_CHANGED" [] [] (
        all_counts
          (both_counts "leftExternalRefs" left.external_ref_count "rightExternalRefs"
            right.external_ref_count)
          (both_counts "leftDomains" left.unique_domain_count "rightDomains"
            right.unique_domain_count)),
  )

  unfoldable pub kind_block : Block
  kind_block = (
    text_differs "UNKNOWN" left.target_kind right.target_kind
        || text_differs "unknown" left.artifact_kind right.artifact_kind,
    change "KIND_PROFILE_CHANGED" (kinds right) (kinds left) none,
  )

  unfoldable pub content_block : Block
  content_block =
      let files =
        if is_none left.file_counts_by_kind || is_none right.file_counts_by_kind
        then []
        else side_counts left.file_counts_by_kind right.file_counts_by_kind
            (all_keys left.file_counts_by_kind right.file_counts_by_kind) in
      (
        number_differs left.total_files right.total_files
            || number_differs left.total_bytes_bounded right.total_bytes_bounded
            || record_changed left.file_counts_by_kind right.file_counts_by_kind,
        change "CONTENT_CHANGED" [] [] (
            all_counts
              (all_counts (both_counts "leftFiles" left.total_files "rightFiles" right.total_files)
                (both_counts "leftBytes" left.total_bytes_bounded "rightBytes"
                  right.total_bytes_bounded))
              (some files)),
      )

  unfoldable pub script_block : Block
  script_block = (
    flag_differs left.has_scripts right.has_scripts,
    change "SCRIPT_SURFACE_CHANGED" (named "hasScripts" (flag_text right.has_scripts) ∷ [])
        (named "hasScripts" (flag_text left.has_scripts) ∷ []) none,
  )

  unfoldable pub native_block : Block
  native_block = (
    flag_differs left.has_native_binaries right.has_native_binaries,
    change "NATIVE_BINARY_APPEARED"
        (named "hasNativeBinaries" (flag_text right.has_native_binaries) ∷ [])
        (named "hasNativeBinaries" (flag_text left.has_native_binaries) ∷ []) none,
  )

  unfoldable pub url_block : Block
  url_block = (
    number_differs left.url_like_count right.url_like_count,
    change "URL_INDICATORS_CHANGED" [] []
        (both_counts "leftUrlLike" left.url_like_count "rightUrlLike" right.url_like_count),
  )

  unfoldable pub signature_block : Block
  signature_block = (
    text_differs "unknown" left.signature_present right.signature_present
        || text_differs "unknown" left.timestamp_present right.timestamp_present,
    change "SIGNATURE_STATUS_CHANGED" (stamps right) (stamps left) none,
  )

  unfoldable pub archive_block : Block
  archive_block = (
    number_differs left.archive_depth_max right.archive_depth_max
        || number_differs left.nested_archive_count right.nested_archive_count,
    change "ARCHIVE_DEPTH_CHANGED" [] [] (
        all_counts
          (both_counts "leftDepth" left.archive_depth_max "rightDepth" right.archive_depth_max)
          (both_counts "leftNested" left.nested_archive_count "rightNested"
            right.nested_archive_count)),
  )

  unfoldable pub bounds_block : Block
  bounds_block =
      let diff =
        set_diff (or_default [] left.boundedness_markers)
          (or_default [] right.boundedness_markers) in
      (is_diff diff, change "BOUNDS_CHANGED" diff.added diff.removed none)

  unfoldable pub caps_block : Block
  caps_block =
      let diff =
        set_diff (or_default [] left.denied_cap_codes) (or_default [] right.denied_cap_codes) in
      (
        number_differs left.caps_requested right.caps_requested
            || number_differs left.caps_denied right.caps_denied
            || is_diff diff,
        change "CAPS_CHANGED" diff.added diff.removed (
            all_counts
              (both_counts "leftRequested" left.caps_requested "rightRequested"
                right.caps_requested)
              (both_counts "leftDenied" left.caps_denied "rightDenied" right.caps_denied)),
      )

  unfoldable pub host_block : Block
  host_block = (
    text_differs "UNKNOWN" left.host_release_status right.host_release_status
        || text_differs "UNKNOWN" left.strict_verify right.strict_verify
        || text_differs "UNKNOWN" left.strict_execute right.strict_execute,
    change "HOST_TRUTH_CHANGED" (host_truth right) (host_truth left) none,
  )

  unfoldable pub all_blocks : List Block
  all_blocks =
      verdict_block ∷ exit_block ∷ reasons_block ∷ digest_block ∷ policy_block ∷ external_block
      ∷ kind_block ∷ content_block ∷ script_block ∷ native_block ∷ url_block ∷ signature_block
      ∷ archive_block ∷ bounds_block ∷ caps_block ∷ host_block ∷ []
