-- ===== src/Tests/Library.antt =====
-- A view of two runs, which is blocked.
use weft_end.Prelude.{
  ◌≤◌, ◌≡◌, ◌⊎◌, refl, true, false, none, some, [], ◌∷◌, arith, length, String, Option,
}
use weft_end.Text.{has_space, cmp_str, includes, is_non_empty}
use weft_end.Text.Join.{trim, trim_start, trim_end, before_char, has_char}
use weft_end.Sort.{sort, insert}
use weft_end.Reasons.{or_default, collect, fresh, stable_sort_unique_strings}
use weft_end.Host.Inputs.{directory, absent}
use weft_end.Compare.{CompareSummary}
use weft_end.Library.{
  max_history, list_run_dirs, run_names, ensure_baseline, trim_last_n, normalize_last_n,
  check_dir_path_or_missing, check_file_path,
}
use weft_end.Library.State.{BlockedRun, LibraryViewState, build_view_state}
use weft_end.Library.Blocked.{
  read_pointer, read_blocked, parse_blocked_line, after_prefix, match_run, match_reasons,
  has_line_end, split_commas, bounded_reasons, pointer_text,
}
use weft_end.Library.Update.{
  LibraryFiles, LibraryDisk, RunReport, updated, write_code, baseline_of, block_run, history_of,
  prior_history, store_view, update_from_run, update_for_target, accept_latest, block_latest,
  store_target, history_or_runs, last_of, TargetRequest,
}
use weft_end.Library.Accept.{update_for_target_accepts}
use weft_end.Library.Laws.{update_from_run_view, update_from_run_stays_blocked}

abbrev disk : LibraryDisk
disk = record {
  view_dir = directory;
  view_dir_parent = directory;
  entries = some (("run_2", true) ∷ ("view", true) ∷ ("run_1", true) ∷ []);
  file = λ f. absent;
  file_parent = λ f. directory;
  write_fails = λ f. false;
  clear_fails = false;
}

abbrev report : RunReport
report = record {
  run_id = "run_2";
  privacy_fails = true;
  host_self_unverified = false;
  host_self_reason_codes = [];
}

abbrev old_state : LibraryViewState
old_state = record {
  target_key = "target";
  baseline_run_id = "run_1";
  latest_run_id = "run_1";
  blocked = none;
  last_n = "run_0" ∷ "run_1" ∷ [];
  keys = [];
}

abbrev files : LibraryFiles
files = record {
  baseline = some "run_1\n";
  latest = some "run_1\n";
  blocked = some "runId=run_1 reasons=B,A\n";
  view_state = some old_state;
}

abbrev blocked_run : BlockedRun
blocked_run = record { run_id = "run_1"; reason_codes = "A" ∷ "B" ∷ [] }

abbrev no_summary : String → Option CompareSummary
no_summary run = none

abbrev new_state : LibraryViewState
new_state =
    build_view_state no_summary "target" "run_1" "run_2" (some blocked_run) ("run_1" ∷ "run_2" ∷ [])

abbrev new_files : LibraryFiles
new_files = record files {
  baseline = some "run_1\n";
  latest = some "run_2\n";
  view_state = some new_state;
}

is_blocked : read_blocked files.blocked ≡ some blocked_run
unfolding read_blocked parse_blocked_line after_prefix match_run match_reasons has_line_end
    split_commas bounded_reasons trim trim_start trim_end before_char has_char
    stable_sort_unique_strings collect fresh includes is_non_empty sort insert cmp_str
is_blocked = refl

updates : update_from_run no_summary "target" disk report files ≡ (new_files, updated new_state)
unfolding update_from_run list_run_dirs run_names ensure_baseline baseline_of trim_last_n
    normalize_last_n check_dir_path_or_missing check_file_path write_code block_run history_of
    prior_history store_view read_pointer pointer_text read_blocked parse_blocked_line after_prefix
    match_run match_reasons has_line_end split_commas bounded_reasons trim trim_start trim_end
    before_char has_char stable_sort_unique_strings collect fresh includes is_non_empty sort insert
    cmp_str build_view_state
updates = refl

update_from_run_view_example :
    (new_files.view_state ≡ some new_state)
    × (new_state.latest_run_id ≡ "run_2")
    × ((includes (list_run_dirs disk.entries) new_state.baseline_run_id ≡ true)
        ⊎ (new_state.baseline_run_id ≡ "run_2"))
    × (length new_state.last_n ≤ max_history)
    × (includes new_state.last_n "run_2" ≡ true)
    × (length new_state.keys ≡ length new_state.last_n)
unfolding prior_history
update_from_run_view_example =
    update_from_run_view no_summary "target" disk report files new_files new_state (omega arith)
      updates

update_from_run_stays_blocked_example :
    (new_files.blocked ≡ files.blocked) × (new_state.blocked ≡ some blocked_run)
update_from_run_stays_blocked_example =
    update_from_run_stays_blocked no_summary "target" disk report files new_files new_state
      blocked_run is_blocked updates

abbrev accept : TargetRequest
accept = record {
  set_baseline_to_latest = true;
  set_blocked_from_latest = false;
  blocked_reason_codes = none;
}

abbrev accepted_state : LibraryViewState
accepted_state = build_view_state no_summary "target" "run_2" "run_2" none ("run_1" ∷ [])

abbrev before_accept : LibraryFiles
before_accept = record files { latest = some "run_2\n" }

abbrev after_accept : LibraryFiles
after_accept = record {
  baseline = some "run_2\n";
  latest = some "run_2\n";
  blocked = none;
  view_state = some accepted_state;
}

accepts :
    update_for_target no_summary "target" disk accept before_accept
    ≡ (after_accept, updated accepted_state)
unfolding update_for_target accept_latest block_latest store_target history_or_runs last_of
    list_run_dirs run_names ensure_baseline trim_last_n normalize_last_n check_dir_path_or_missing
    check_file_path write_code prior_history store_view read_pointer pointer_text read_blocked trim
    trim_start trim_end before_char includes is_non_empty sort insert cmp_str build_view_state
accepts = refl

listed : list_run_dirs disk.entries ≡ "run_1" ∷ "run_2" ∷ []
unfolding list_run_dirs run_names sort insert cmp_str
listed = refl

latest_text : read_pointer before_accept.latest ≡ some "run_2"
unfolding read_pointer trim trim_start trim_end before_char is_non_empty
latest_text = refl

update_for_target_accepts_example :
    (accepted_state.baseline_run_id
      ≡ or_default (last_of "run_1" ("run_2" ∷ [])) (read_pointer before_accept.latest))
    × (accepted_state.latest_run_id
        ≡ or_default (last_of "run_1" ("run_2" ∷ [])) (read_pointer before_accept.latest))
    × (accepted_state.blocked ≡ none)
    × (after_accept.blocked ≡ none)
unfolding read_pointer trim trim_start trim_end before_char is_non_empty has_space includes
update_for_target_accepts_example =
    update_for_target_accepts no_summary "target" disk accept before_accept after_accept
      accepted_state "run_1" ("run_2" ∷ []) listed refl refl refl refl refl accepts
