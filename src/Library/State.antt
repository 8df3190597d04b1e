-- ===== src/Library/State.antt =====
-- src/cli/library_state.ts: the view state, `buildViewState`, and the key of a run.
use weft_end.Prelude.{String, Bool, false, not, ◌&&◌, Option, none, some, List, [], map, str_eq}
use weft_end.Reasons.{or_default}
use weft_end.Compare.{CompareSummary}
use weft_end.Compare.Summaries.{compare_summaries}
use weft_end.Library.{normalize_result, map_buckets}

-- `LibraryViewKeyV0`.
pub record LibraryViewKey : Type 0 where
  pub same_as_baseline : Bool
  pub buckets : List String
  pub artifact_digest : String
  pub result : String

pub record BlockedRun : Type 0 where
  pub run_id : String
  pub reason_codes : List String

-- `LibraryViewStateV0`.
pub record LibraryViewState : Type 0 where
  pub target_key : String
  pub baseline_run_id : String
  pub latest_run_id : String
  pub blocked : Option BlockedRun
  pub last_n : List String
  pub keys : List LibraryViewKey

digest_of_summary : Option CompareSummary → String
digest_of_summary none = "UNKNOWN"
digest_of_summary (some s) = or_default "UNKNOWN" s.artifact_digest

result_of_summary : Option CompareSummary → Option String
result_of_summary none = none
result_of_summary (some s) = some s.result

compared_with : Option CompareSummary → Option CompareSummary → Bool × List String
compared_with (some b) (some s) =
    let out = compare_summaries b s in (out.is_same, out.change_buckets)
compared_with _ _ = (false, [])

-- The key of a run, from the summaries of the baseline and of the run.
unfoldable pub view_key : Option CompareSummary → Option CompareSummary → LibraryViewKey
unfolding digest_of_summary result_of_summary compared_with
view_key baseline summary =
    let digest_changed = not (str_eq (digest_of_summary baseline) (digest_of_summary summary)) in
    let (same, buckets) = compared_with baseline summary in
    record {
      same_as_baseline = not digest_changed && same;
      buckets = map_buckets buckets digest_changed;
      artifact_digest = digest_of_summary summary;
      result = normalize_result (result_of_summary summary);
    }

-- `buildViewState`.
unfoldable pub build_view_state :
    (String → Option CompareSummary)
    → String
    → String
    → String
    → Option BlockedRun
    → List String
    → LibraryViewState
build_view_state load_summary target baseline latest blocked last_n =
    let baseline_summary : Option CompareSummary = elim (load_summary baseline) [
      | none ↦ load_summary latest
      | some s ↦ some s
    ] in
    record {
      target_key = target;
      baseline_run_id = baseline;
      latest_run_id = latest;
      blocked = blocked;
      last_n = last_n;
      keys = map (λ run. view_key baseline_summary (load_summary run)) last_n;
    }
