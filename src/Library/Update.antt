-- ===== src/Library/Update.antt =====
-- src/cli/library_state.ts: `updateLibraryViewFromRunV0` and `updateLibraryViewForTargetV0`, each from the
-- files of the view to the files after it and what is answered. The target and the run that
-- `resolveViewContext` finds in the output path are given.
use weft_end.Prelude.{
  String, Bool, not, ◌&&◌, Option, none, some, List, [], ◌∷◌, ◌++◌, if◌then◌else◌,
}
use weft_end.Text.{includes}
use weft_end.Reasons.{push_if, is_empty, is_none, or_default}
use weft_end.Host.Inputs.{Probe}
use weft_end.Compare.{CompareSummary}
use weft_end.Library.{
  max_history, check_dir_path_or_missing, check_file_path, list_run_dirs, ensure_baseline,
  trim_last_n, normalize_last_n,
}
use weft_end.Library.State.{BlockedRun, LibraryViewState, build_view_state}
use weft_end.Library.Blocked.{
  read_pointer, read_blocked, blocked_text, pointer_text, bounded_reasons,
}

-- The four files of a view.
pub record LibraryFiles : Type 0 where
  pub baseline : Option String
  pub latest : Option String
  pub blocked : Option String
  pub view_state : Option LibraryViewState

pub data LibraryFile : Type 0 where
  baseline_file latest_file blocked_file view_file : LibraryFile

-- What the file system answers.
pub record LibraryDisk : Type 0 where
  pub view_dir : Probe
  pub view_dir_parent : Probe
  pub entries : Option (List (String × Bool))
  pub file : LibraryFile → Probe
  pub file_parent : LibraryFile → Probe
  pub write_fails : LibraryFile → Bool
  pub clear_fails : Bool

pub data LibraryOutcome : Type 0 where
  refused : String → LibraryOutcome
  updated : LibraryViewState → LibraryOutcome

-- The code of a file that cannot be written: of the check of its path, or of the write.
unfoldable pub write_code : LibraryDisk → LibraryFile → Option String
write_code disk f =
    let names : String × String = elim f [
      | baseline_file ↦ ("LIBRARY_BASELINE", "LIBRARY_BASELINE_WRITE_FAILED")
      | latest_file ↦ ("LIBRARY_LATEST", "LIBRARY_LATEST_WRITE_FAILED")
      | blocked_file ↦ ("LIBRARY_BLOCKED", "LIBRARY_BLOCKED_WRITE_FAILED")
      | view_file ↦ ("LIBRARY_VIEWSTATE", "LIBRARY_VIEWSTATE_WRITE_FAILED")
    ] in
    elim (check_file_path (disk.file f) (disk.file_parent f) names.0) [
      | some code ↦ some code
      | none ↦ if disk.write_fails f then some names.1 else none
    ]

-- What the options and the run say against a run.
pub record RunReport : Type 0 where
  pub run_id : String
  pub privacy_fails : Bool
  pub host_self_unverified : Bool
  pub host_self_reason_codes : List String

unfoldable pub blocked_reasons : RunReport → List String
blocked_reasons o = bounded_reasons (
    push_if o.privacy_fails "PRIVACY_LINT_FAIL"
    ++ (push_if o.host_self_unverified "HOST_STARTUP_UNVERIFIED" ++ o.host_self_reason_codes))

-- The baseline of the view, which is a run.
unfoldable pub baseline_of : List String → String → Option String → String
baseline_of runs run pointer =
    let b = ensure_baseline runs run pointer in if includes runs b then b else run

-- The block that marks a run as blocked, unless the view is blocked.
unfoldable pub block_run :
    LibraryDisk → RunReport → LibraryFiles → Option String × LibraryFiles × Option BlockedRun
block_run disk o files = elim (read_blocked files.blocked) [
  | some b ↦ (none, files, some b)
  | none ↦
      let b : BlockedRun = record { run_id = o.run_id; reason_codes = blocked_reasons o } in
      if is_empty (blocked_reasons o)
      then (none, files, none)
      else elim (write_code disk blocked_file) [
        | some code ↦ (some code, files, none)
        | none ↦ (none, record files { blocked = some (blocked_text b) }, some b)
      ]
]

-- The history with the run at its end, where it is not in it.
unfoldable pub history_of : List String → List String → String → List String
history_of prior runs run =
    let kept = normalize_last_n prior runs in
    trim_last_n (if includes kept run then kept else kept ++ run ∷ []) max_history

unfoldable pub prior_history : LibraryFiles → List String
prior_history files = elim files.view_state [ none ↦ [] | some s ↦ s.last_n ]

-- What the operator asks of a target.
pub record TargetRequest : Type 0 where
  pub set_baseline_to_latest : Bool
  pub set_blocked_from_latest : Bool
  pub blocked_reason_codes : Option (List String)

unfoldable pub last_of : String → List String → String
last_of x [] = x
last_of x (y ∷ ys) = last_of y ys

-- The block that takes the latest run as the baseline, and lifts the block of the view.
unfoldable pub accept_latest :
    LibraryDisk → TargetRequest → String → LibraryFiles → Option String × LibraryFiles
accept_latest disk o latest files =
    let with_baseline : LibraryFiles = record files { baseline = some (pointer_text latest) } in
    if o.set_baseline_to_latest
    then elim (write_code disk baseline_file) [
      | some code ↦ (some code, files)
      | none ↦
          elim (check_file_path (disk.file blocked_file) (disk.file_parent blocked_file)
            "LIBRARY_BLOCKED") [
              | some code ↦ (some code, with_baseline)
              | none ↦
                  if disk.clear_fails && not (is_none files.blocked)
                  then (some "LIBRARY_BLOCKED_CLEAR_FAILED", with_baseline)
                  else (none, record with_baseline { blocked = none })
            ]
    ]
    else (none, files)

-- The block that marks the latest run as blocked.
unfoldable pub block_latest :
    LibraryDisk → TargetRequest → String → LibraryFiles → Option String × LibraryFiles
block_latest disk o latest files =
    let codes =
      bounded_reasons (or_default ("OPERATOR_REJECT_BASELINE" ∷ []) o.blocked_reason_codes) in
    if o.set_blocked_from_latest
    then elim (write_code disk blocked_file) [
      | some code ↦ (some code, files)
      | none ↦ (
        none,
        record files {
          blocked = some (blocked_text (record { run_id = latest; reason_codes = codes }));
        },
      )
    ]
    else (none, files)

-- The history, or all runs where it is empty.
unfoldable pub history_or_runs : List String → List String → List String
history_or_runs prior runs =
    let kept = normalize_last_n prior runs in
    trim_last_n (if is_empty kept then runs else kept) max_history

module _ (load_summary : String → Option CompareSummary) (target : String) where
  unfoldable pub store_view :
      LibraryDisk → LibraryFiles → LibraryViewState → LibraryFiles × LibraryOutcome
  store_view disk files state = elim (write_code disk view_file) [
    | some code ↦ (files, refused code)
    | none ↦ (record files { view_state = some state }, updated state)
  ]

  -- `updateLibraryViewFromRunV0`.
  unfoldable pub update_from_run :
      LibraryDisk → RunReport → LibraryFiles → LibraryFiles × LibraryOutcome
  unfolding prior_history
  update_from_run disk o files =
      let runs = list_run_dirs disk.entries in
      let baseline = baseline_of runs o.run_id (read_pointer files.baseline) in
      let with_baseline : LibraryFiles = record files { baseline = some (pointer_text baseline) } in
      let with_latest : LibraryFiles = record with_baseline {
        latest = some (pointer_text o.run_id);
      } in
      let blocking = block_run disk o with_latest in
      let after = blocking.1 in
      let state =
        build_view_state load_summary target baseline o.run_id blocking.2
          (history_of (prior_history files) runs o.run_id) in
      elim (check_dir_path_or_missing disk.view_dir disk.view_dir_parent "LIBRARY_VIEW_DIR_PATH") [
        | some code ↦ (files, refused code)
        | none ↦ elim (write_code disk baseline_file) [
          | some code ↦ (files, refused code)
          | none ↦ elim (write_code disk latest_file) [
            | some code ↦ (with_baseline, refused code)
            | none ↦ elim blocking.0 [
              | some code ↦ (with_latest, refused code)
              | none ↦ store_view disk after state
            ]
          ]
        ]
      ]

  -- The writes of the pointers and of the view state for a target.
  unfoldable pub store_target :
      LibraryDisk → List String → String → LibraryFiles → LibraryFiles × LibraryOutcome
  unfolding prior_history
  store_target disk runs latest files =
      let baseline = ensure_baseline runs latest (read_pointer files.baseline) in
      let with_baseline : LibraryFiles = record files { baseline = some (pointer_text baseline) } in
      let with_latest : LibraryFiles = record with_baseline {
        latest = some (pointer_text latest);
      } in
      let state =
        build_view_state load_summary target baseline latest (read_blocked files.blocked)
          (history_or_runs (prior_history files) runs) in
      elim (write_code disk baseline_file) [
        | some code ↦ (files, refused code)
        | none ↦ elim (write_code disk latest_file) [
          | some code ↦ (with_baseline, refused code)
          | none ↦ store_view disk with_latest state
        ]
      ]

  -- `updateLibraryViewForTargetV0`, of a target that is there.
  unfoldable pub update_for_target :
      LibraryDisk → TargetRequest → LibraryFiles → LibraryFiles × LibraryOutcome
  unfolding last_of
  update_for_target disk o files =
      elim (check_dir_path_or_missing disk.view_dir disk.view_dir_parent "LIBRARY_VIEW_DIR_PATH") [
        | some code ↦ (files, refused code)
        | none ↦ elim (list_run_dirs disk.entries) [
          | [] ↦ (files, refused "LIBRARY_RUNS_MISSING")
          | r ∷ rs ↦
              let latest = or_default (last_of r rs) (read_pointer files.latest) in
              let (accepted, f1) = accept_latest disk o latest files in
              let (blocked, f2) = block_latest disk o latest f1 in
              elim accepted [
                | some code ↦ (f1, refused code)
                | none ↦ elim blocked [
                  | some code ↦ (f2, refused code)
                  | none ↦ store_target disk (r ∷ rs) latest f2
                ]
              ]
        ]
      ]
