-- ===== src/Library.antt =====
-- src/cli/library_state.ts: the view of a library target: its baseline, its latest run, whether it is
-- blocked, and its history with a comparison of each run against the baseline.
-- The files of the view hold their texts, or nothing where they are missing or cannot be read; the
-- view state is its value. What the file system answers besides is in `LibraryDisk`, and the
-- summary of a run directory (`loadSummary`) is a parameter.
pub mod State
pub mod Blocked
pub mod Pointers
pub mod Update
pub mod Accept
pub mod Keys
pub mod History
pub mod Laws
use Prim.Native.String.{◌++◌ as str_append}
use text.Mathlib.Text.{starts_with}
use weft_end.Prelude.{
  ℕ, ◌-◌, String, Bool, true, false, not, ◌&&◌, ◌||◌, Option, none, some, List, [], ◌∷◌, ◌++◌, map,
  length, drop, take, leb, str_eq, if◌then◌else◌,
}
use weft_end.Text.{cmp_str, includes}
use weft_end.Text.Join.{before_char}
use weft_end.Sort.{sort}
use weft_end.Reasons.{string, stable_sort_unique_strings, push_if, or_default}
use weft_end.Host.Inputs.{Probe, absent, directory, not_directory, unreadable}
use weft_end.Compare.{CompareSummary}
use weft_end.Compare.Summaries.{CompareOutcome, compare_summaries}

abbrev pub max_history : ℕ
max_history = 8

abbrev pub max_blocked_reasons : ℕ
max_blocked_reasons = 8

parent_code : Probe → String → String → Option String
parent_code not_directory base part =
    some (str_append base (str_append part "_PARENT_NOT_DIRECTORY"))
parent_code unreadable base part = some (str_append base (str_append part "_INVALID"))
parent_code _ base part = none

-- `checkDirPathOrMissing`.
unfoldable pub check_dir_path_or_missing : Probe → Probe → String → Option String
unfolding parent_code
check_dir_path_or_missing not_directory parent base = some (str_append base "_NOT_DIRECTORY")
check_dir_path_or_missing unreadable parent base = some (str_append base "_INVALID")
check_dir_path_or_missing _ parent base = parent_code parent base ""

-- `checkFilePathForAtomicWrite`.
unfoldable pub check_file_path : Probe → Probe → String → Option String
unfolding parent_code
check_file_path directory parent base = some (str_append base "_PATH_IS_DIRECTORY")
check_file_path unreadable parent base = some (str_append base "_PATH_INVALID")
check_file_path _ parent base = parent_code parent base "_PATH"

-- The names of the directories that are runs, as `listRunDirs` filters them.
unfoldable pub run_names : List (String × Bool) → List String
run_names [] = []
run_names ((name, is_directory) ∷ rest) =
    if is_directory && starts_with name "run_" then name ∷ run_names rest else run_names rest

-- `listRunDirs`; a directory that cannot be read has no runs.
unfoldable pub list_run_dirs : Option (List (String × Bool)) → List String
list_run_dirs none = []
list_run_dirs (some entries) = sort cmp_str (run_names entries)

-- `ensureBaseline`.
unfoldable pub ensure_baseline : List String → String → Option String → String
ensure_baseline [] current baseline = current
ensure_baseline (r ∷ rs) current none = r
ensure_baseline (r ∷ rs) current (some b) = if includes (r ∷ rs) b then b else r

-- `trimLastN`.
unfoldable pub trim_last_n : List String → ℕ → List String
trim_last_n values max_items =
    if leb (length values) max_items then values else drop (length values - max_items) values

-- `normalizeLastN`.
unfoldable pub normalize_last_n : List String → List String → List String
normalize_last_n [] run_ids = []
normalize_last_n (v ∷ vs) run_ids =
    if includes run_ids v then v ∷ normalize_last_n vs run_ids else normalize_last_n vs run_ids

-- `normalizeResult`.
unfoldable pub normalize_result : Option String → String
normalize_result none = "UNKNOWN"
normalize_result (some value) =
    let part = before_char 58 value in
    if str_eq value ""
    then "UNKNOWN"
    else if str_eq part "APPROVE"
    then "ALLOW"
    else if str_eq part "REJECT" || str_eq part "HOLD"
    then "DENY"
    else part

abbrev pub content_buckets : List String
content_buckets =
    "CONTENT_CHANGED" ∷ "KIND_PROFILE_CHANGED" ∷ "SCRIPT_SURFACE_CHANGED" ∷ "NATIVE_BINARY_APPEARED"
    ∷ "URL_INDICATORS_CHANGED" ∷ "SIGNATURE_STATUS_CHANGED" ∷ "ARCHIVE_DEPTH_CHANGED" ∷ []

unfoldable pub has_any : List String → List String → Bool
has_any targets [] = false
has_any targets (b ∷ bs) = includes targets b || has_any targets bs

-- `mapBuckets`.
unfoldable pub map_buckets : List String → Bool → List String
map_buckets buckets digest_changed = sort cmp_str (
    push_if (digest_changed || includes buckets "DIGEST_CHANGED") "D"
    ++ (push_if (has_any content_buckets buckets) "C"
        ++ (push_if (includes buckets "EXTERNALREFS_CHANGED") "X"
            ++ (push_if (includes buckets "REASONS_CHANGED") "R"
                ++ (push_if (includes buckets "POLICY_CHANGED") "P"
                    ++ (push_if (includes buckets "HOST_TRUTH_CHANGED") "H"
                        ++ push_if (includes buckets "BOUNDS_CHANGED") "B"))))))
