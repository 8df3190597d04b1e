-- ===== src/Compare.antt =====
-- src/cli/compare.ts: the comparison of two summaries, `compareSummariesV0`, and its helpers.
-- The numbers of a summary (exit codes, sizes and counts) are natural numbers, so that -1, which
-- the source puts for a missing one, is the value of no number.
pub mod Fields
pub mod Blocks
pub mod Summaries
pub mod Agree
pub mod Counts
pub mod Same
pub mod Swap
use Prim.Native.String.{◌++◌ as str_append}
use weft_end.Prelude.{
  ℕ, ◌-◌, String, Bool, true, false, not, ◌&&◌, ◌||◌, Option, none, some, List, [], ◌∷◌, ◌++◌, map,
  length, take, leb, ◌==◌, str_eq, if◌then◌else◌,
}
use weft_end.Text.{cmp_str, includes}
use weft_end.Text.Decimal.{decimal}
use weft_end.Text.Table.{Table, get}
use weft_end.Sort.{sort}
use weft_end.Reasons.{string, collect, stable_sort_unique_strings, is_empty, or_default}

abbrev pub max_diff_items : ℕ
max_diff_items = 50

-- `CompareSummaryV0` of src/cli/compare_normalize.ts, less the fields that are not compared.
pub record CompareSummary : Type 0 where
  pub result : String
  pub exit_code : Option ℕ
  pub reason_codes : List String
  pub artifact_digest : Option String
  pub policy_digest : Option String
  pub external_ref_count : Option ℕ
  pub unique_domain_count : Option ℕ
  pub target_kind : Option String
  pub artifact_kind : Option String
  pub total_files : Option ℕ
  pub total_bytes_bounded : Option ℕ
  pub file_counts_by_kind : Option (Table ℕ)
  pub has_scripts : Option Bool
  pub has_native_binaries : Option Bool
  pub boundedness_markers : Option (List String)
  pub archive_depth_max : Option ℕ
  pub nested_archive_count : Option ℕ
  pub url_like_count : Option ℕ
  pub signature_present : Option String
  pub timestamp_present : Option String
  pub caps_requested : Option ℕ
  pub caps_denied : Option ℕ
  pub denied_cap_codes : Option (List String)
  pub host_release_status : Option String
  pub strict_verify : Option String
  pub strict_execute : Option String

-- `CompareChangeV0`.
pub record CompareChange : Type 0 where
  pub bucket : String
  pub added : List String
  pub removed : List String
  pub counts : Option (Table ℕ)

unfoldable pub filled : List String → List String
filled [] = []
filled (v ∷ vs) = if str_eq v "" then filled vs else v ∷ filled vs

-- `dedupeSort`.
unfoldable pub dedupe_sort : List String → List String
unfolding filled
dedupe_sort values = stable_sort_unique_strings (map string (filled values))

-- `boundedValues`.
unfoldable pub bounded_values : List String → ℕ → List String
bounded_values values max_items =
    if leb (length values) max_items
    then values
    else take max_items values
      ++ str_append "ZZZ_TRUNCATED(+" (str_append (decimal (length values - max_items)) ")") ∷ []

unfoldable pub normalize_list : List String → List String
normalize_list values = bounded_values (dedupe_sort values) max_diff_items

-- The values of the first list that the second does not hold.
unfoldable pub without : List String → List String → List String
without [] other = []
without (v ∷ vs) other = if includes other v then without vs other else v ∷ without vs other

pub record SetDiff : Type 0 where
  pub added : List String
  pub removed : List String

unfoldable pub set_diff : List String → List String → SetDiff
set_diff left right = record { added = without right left; removed = without left right }

-- Whether a difference of sets is one.
unfoldable pub is_diff : SetDiff → Bool
is_diff d = not (is_empty d.added) || not (is_empty d.removed)

abbrev pub keys_of : Option (Table ℕ) → List String
keys_of none = []
keys_of (some t) = map (λ entry. entry.0) t

-- The number under a key, 0 where there is none.
unfoldable pub number_of : Option (Table ℕ) → String → ℕ
number_of none key = 0
number_of (some t) key = or_default 0 (get t key)

-- The keys of both, each once, in their order.
unfoldable pub all_keys : Option (Table ℕ) → Option (Table ℕ) → List String
all_keys left right =
    sort cmp_str (collect (λ s. true) [] (map string (keys_of left ++ keys_of right)))

unfoldable pub any_count_differs : Option (Table ℕ) → Option (Table ℕ) → List String → Bool
any_count_differs left right [] = false
any_count_differs left right (k ∷ ks) =
    not (number_of left k == number_of right k) || any_count_differs left right ks

-- `recordDiff(left, right).changed`.
unfoldable pub record_changed : Option (Table ℕ) → Option (Table ℕ) → Bool
record_changed left right = any_count_differs left right (all_keys left right)

-- The counts of both sides under each key.
unfoldable pub side_counts : Option (Table ℕ) → Option (Table ℕ) → List String → Table ℕ
side_counts left right [] = []
side_counts left right (k ∷ ks) =
    (str_append "left_" k, number_of left k)
    ∷ (str_append "right_" k, number_of right k)
    ∷ side_counts left right ks

-- `(a ?? -1) !== (b ?? -1)`.
unfoldable pub number_differs : Option ℕ → Option ℕ → Bool
number_differs none none = false
number_differs (some a) (some b) = not (a == b)
number_differs _ _ = true

-- `bool(a) !== bool(b)`.
unfoldable pub flag_differs : Option Bool → Option Bool → Bool
flag_differs none none = false
flag_differs (some true) (some true) = false
flag_differs (some false) (some false) = false
flag_differs _ _ = true

-- `(a ?? missing) !== (b ?? missing)`.
unfoldable pub text_differs : String → Option String → Option String → Bool
text_differs missing a b = not (str_eq (or_default missing a) (or_default missing b))

abbrev pub flag_text : Option Bool → String
flag_text none = "unknown"
flag_text (some true) = "true"
flag_text (some false) = "false"

-- `name=value`.
abbrev pub named : String → String → String
named name value = str_append name (str_append "=" value)
