-- ===== src/Tests/Compare.antt =====
-- Two summaries that differ in their reasons, their files and their scripts.
use weft_end.Prelude.{◌≡◌, true, false, none, some, [], ◌∷◌, map, ◌↔◌, refl, All}
use weft_end.Text.{cmp_str, includes, is_non_empty}
use weft_end.Sort.{sort, insert}
use weft_end.Reasons.{collect, fresh, stable_sort_unique_strings}
use weft_end.Compare.{
  CompareSummary, dedupe_sort, filled, set_diff, is_diff, without, record_changed, number_differs,
  flag_differs, text_differs, number_of, all_keys, any_count_differs,
}
use weft_end.Compare.Blocks.{
  all_blocks, change, verdict_block, exit_block, reasons_block, digest_block, policy_block,
  external_block, kind_block, content_block, script_block, native_block, url_block, signature_block,
  archive_block, bounds_block, caps_block, host_block,
}
use weft_end.Compare.Summaries.{compare_summaries, pushed}
use weft_end.Compare.Agree.{Agree}
use weft_end.Compare.Same.{compare_summaries_same_iff}
use weft_end.Compare.Counts.{Sided}
use weft_end.Compare.Swap.{view, mirror, compare_summaries_swap}

abbrev before : CompareSummary
before = record {
  result = "APPROVE:ALLOW";
  exit_code = some 0;
  reason_codes = "A" ∷ "B" ∷ [];
  artifact_digest = none;
  policy_digest = some "policy";
  external_ref_count = some 2;
  unique_domain_count = some 1;
  target_kind = some "directory";
  artifact_kind = none;
  total_files = some 3;
  total_bytes_bounded = some 100;
  file_counts_by_kind = some (("html", 2) ∷ ("js", 1) ∷ []);
  has_scripts = some false;
  has_native_binaries = none;
  boundedness_markers = none;
  archive_depth_max = none;
  nested_archive_count = none;
  url_like_count = none;
  signature_present = none;
  timestamp_present = none;
  caps_requested = none;
  caps_denied = none;
  denied_cap_codes = none;
  host_release_status = none;
  strict_verify = none;
  strict_execute = none;
}

abbrev after : CompareSummary
after = record before {
  reason_codes = "B" ∷ "C" ∷ [];
  file_counts_by_kind = some (("js", 2) ∷ ("html", 2) ∷ []);
  total_files = some 4;
  has_scripts = some true;
}

changed_buckets :
    (compare_summaries before after).change_buckets
    ≡ "CONTENT_CHANGED" ∷ "REASONS_CHANGED" ∷ "SCRIPT_SURFACE_CHANGED" ∷ []
unfolding compare_summaries pushed all_blocks change verdict_block exit_block reasons_block
    digest_block policy_block external_block kind_block content_block script_block native_block
    url_block signature_block archive_block bounds_block caps_block host_block dedupe_sort filled
    set_diff is_diff without includes number_differs flag_differs text_differs record_changed
    all_keys any_count_differs number_of stable_sort_unique_strings collect fresh is_non_empty sort
    insert cmp_str
changed_buckets = refl

compare_summaries_same_iff_example :
    (((compare_summaries before after).is_same ≡ true) ↔ Agree before after)
    × (((compare_summaries before after).change_buckets ≡ []) ↔ Agree before after)
    × (((compare_summaries before after).changes ≡ []) ↔ Agree before after)
compare_summaries_same_iff_example = compare_summaries_same_iff before after

compare_summaries_swap_example :
    ((compare_summaries after before).is_same ≡ (compare_summaries before after).is_same)
    × ((compare_summaries after before).change_buckets
        ≡ (compare_summaries before after).change_buckets)
    × (map view (compare_summaries after before).changes
        ≡ map mirror (compare_summaries before after).changes)
    × All (λ c. Sided after before c) (compare_summaries after before).changes
compare_summaries_swap_example = compare_summaries_swap before after
