-- ===== src/Compare/Agree.antt =====
-- What it means that two summaries agree, block by block.
use weft_end.Prelude.{String, ◌≡◌, not, Option, [], str_eq, eq_iff, arith}
use weft_end.Text.Sets.{SameSet}
use weft_end.Reasons.{or_default}
use weft_end.Compare.{CompareSummary, number_of}
use weft_end.Compare.Fields.{
  Tests, or-Tests, or_three-Tests, number_differs-Tests, text_differs-Tests, is_diff-Tests,
  record_changed-Tests,
}
use weft_end.Compare.Blocks.{
  external_block, kind_block, content_block, signature_block, archive_block, caps_block, host_block,
}

-- The same text, or the same default for a missing one.
abbrev pub SameText : String → Option String → Option String → Type 0
SameText missing a b = or_default missing a ≡ or_default missing b

-- All that is compared of two summaries agrees.
pub record Agree (l r : CompareSummary) : Type 0 where
  pub verdict : l.result ≡ r.result
  pub exit : l.exit_code ≡ r.exit_code
  pub reasons : SameSet l.reason_codes r.reason_codes
  pub digest : SameText "UNKNOWN" l.artifact_digest r.artifact_digest
  pub policy : SameText "POLICY_UNKNOWN" l.policy_digest r.policy_digest
  pub refs : l.external_ref_count ≡ r.external_ref_count
  pub domains : l.unique_domain_count ≡ r.unique_domain_count
  pub target : SameText "UNKNOWN" l.target_kind r.target_kind
  pub artifact : SameText "unknown" l.artifact_kind r.artifact_kind
  pub files : l.total_files ≡ r.total_files
  pub bytes : l.total_bytes_bounded ≡ r.total_bytes_bounded
  pub kinds : (k : String) → number_of l.file_counts_by_kind k ≡ number_of r.file_counts_by_kind k
  pub scripts : l.has_scripts ≡ r.has_scripts
  pub natives : l.has_native_binaries ≡ r.has_native_binaries
  pub urls : l.url_like_count ≡ r.url_like_count
  pub signatures : SameText "unknown" l.signature_present r.signature_present
  pub timestamps : SameText "unknown" l.timestamp_present r.timestamp_present
  pub depth : l.archive_depth_max ≡ r.archive_depth_max
  pub nested : l.nested_archive_count ≡ r.nested_archive_count
  pub bounds : SameSet (or_default [] l.boundedness_markers) (or_default [] r.boundedness_markers)
  pub requested : l.caps_requested ≡ r.caps_requested
  pub denied : l.caps_denied ≡ r.caps_denied
  pub codes : SameSet (or_default [] l.denied_cap_codes) (or_default [] r.denied_cap_codes)
  pub release : SameText "UNKNOWN" l.host_release_status r.host_release_status
  pub verify : SameText "UNKNOWN" l.strict_verify r.strict_verify
  pub execute : SameText "UNKNOWN" l.strict_execute r.strict_execute

module _ (l r : CompareSummary) where
  pub same_result : Tests (not (str_eq l.result r.result)) (l.result ≡ r.result)
  same_result =
      let same = eq_iff l.result r.result in
      ((λ h. ground (arith, same)), λ h. ground (arith, same))

  pub same_refs : Tests (external_block l r).0 (
      (l.external_ref_count ≡ r.external_ref_count)
      × (l.unique_domain_count ≡ r.unique_domain_count))
  unfolding external_block
  same_refs = or-Tests _ _ (number_differs-Tests _ _) (number_differs-Tests _ _)

  pub same_kind : Tests (kind_block l r).0 (
      SameText "UNKNOWN" l.target_kind r.target_kind
      × SameText "unknown" l.artifact_kind r.artifact_kind)
  unfolding kind_block
  same_kind = or-Tests _ _ (text_differs-Tests _ _ _) (text_differs-Tests _ _ _)

  pub same_content : Tests (content_block l r).0 (
      (l.total_files ≡ r.total_files)
      × ((l.total_bytes_bounded ≡ r.total_bytes_bounded)
          × ((k : String) → number_of l.file_counts_by_kind k ≡ number_of r.file_counts_by_kind k)))
  unfolding content_block
  same_content =
      or_three-Tests _ _ _ (number_differs-Tests _ _) (number_differs-Tests _ _)
        (record_changed-Tests _ _)

  pub same_signature : Tests (signature_block l r).0 (
      SameText "unknown" l.signature_present r.signature_present
      × SameText "unknown" l.timestamp_present r.timestamp_present)
  unfolding signature_block
  same_signature = or-Tests _ _ (text_differs-Tests _ _ _) (text_differs-Tests _ _ _)

  pub same_archive : Tests (archive_block l r).0 (
      (l.archive_depth_max ≡ r.archive_depth_max)
      × (l.nested_archive_count ≡ r.nested_archive_count))
  unfolding archive_block
  same_archive = or-Tests _ _ (number_differs-Tests _ _) (number_differs-Tests _ _)

  pub same_caps : Tests (caps_block l r).0 (
      (l.caps_requested ≡ r.caps_requested)
      × ((l.caps_denied ≡ r.caps_denied)
          × SameSet (or_default [] l.denied_cap_codes) (or_default [] r.denied_cap_codes)))
  unfolding caps_block
  same_caps =
      or_three-Tests _ _ _ (number_differs-Tests _ _) (number_differs-Tests _ _) (is_diff-Tests _ _)

  pub same_host : Tests (host_block l r).0 (
      SameText "UNKNOWN" l.host_release_status r.host_release_status
      × (SameText "UNKNOWN" l.strict_verify r.strict_verify
          × SameText "UNKNOWN" l.strict_execute r.strict_execute))
  unfolding host_block
  same_host =
      or_three-Tests _ _ _ (text_differs-Tests _ _ _) (text_differs-Tests _ _ _)
        (text_differs-Tests _ _ _)
