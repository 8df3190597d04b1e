-- ===== src/Reasons.antt =====
-- src/core/trust_algebra_v0.ts: reason codes, deduplicated, sorted and bounded by a budget.
pub mod Collect
pub mod Order
pub mod Normal
pub mod Budget
pub mod Detail
pub mod Join
pub mod Whole
pub mod Fixed
use Prim.Native.String.{◌++◌ as str_append}
use text.Mathlib.Text.{starts_with}
use weft_end.Prelude.{
  ℕ, zero, suc, ◌+◌, ◌-◌, min, Ordering, String, Bool, true, false, not, ◌&&◌, ◌||◌, Option, none,
  some, List, [], ◌∷◌, ◌++◌, map, length, take, leb, ◌==◌, str_eq, if◌then◌else◌,
}
use weft_end.Text.{cmp_str, is_non_empty, includes}
use weft_end.Text.Decimal.{decimal}
use weft_end.Sort.{sort}

-- A value of the type `unknown`: a string, or anything else.
pub data Unknown : Type 0 where
  string : String → Unknown
  other : Unknown

-- The loops of `stableSortUniqueStringsV0` and `normalizeReasonArray`: a value that is a string,
-- passes the test and was not seen before is pushed.
unfoldable pub fresh : (String → Bool) → List String → Unknown → Option String
fresh keep seen other = none
fresh keep seen (string s) = if keep s && not (includes seen s) then some s else none

unfoldable pub collect : (String → Bool) → List String → List Unknown → List String
unfolding fresh
collect keep seen [] = []
collect keep seen (v ∷ vs) = elim (fresh keep seen v) [
  | none ↦ collect keep seen vs
  | some s ↦ s ∷ collect keep (s ∷ seen) vs
]

-- `stableSortUniqueStringsV0`.
unfoldable pub stable_sort_unique_strings : List Unknown → List String
stable_sort_unique_strings xs = sort cmp_str (collect is_non_empty [] xs)

abbrev pub max_reasons_per_block : ℕ
max_reasons_per_block = 32

abbrev pub max_reasons_total : ℕ
max_reasons_total = 2048

abbrev pub max_reason_detail_bytes : ℕ
max_reason_detail_bytes = 512

abbrev pub truncation_code : String
truncation_code = "TRUST_REASONS_TRUNCATED"

-- `formatTruncationReason`.
unfoldable pub format_truncation_reason : ℕ → ℕ → String
format_truncation_reason kept dropped =
    str_append truncation_code
      (str_append ":kept=" (str_append (decimal kept) (str_append ",dropped=" (decimal dropped))))

-- `reasonKey`, on the subject and the locator with their defaults put in.
unfoldable pub reason_key : String → String → String → String
reason_key subject locator code =
    str_append code (str_append "\0" (str_append subject (str_append "\0" locator)))

unfoldable pub cmp_reason : String → String → String → String → Ordering
cmp_reason subject locator a b =
    cmp_str (reason_key subject locator a) (reason_key subject locator b)

-- The values that `normalizeReasonArray` pushes: with `allowTruncationCode` also truncation codes.
unfoldable pub is_reason : Bool → String → Bool
is_reason allow_meta code =
    is_non_empty code && (allow_meta || not (starts_with code truncation_code))

-- `normalizeReasonArray`.
unfoldable pub normalize_reason_array : Bool → String → String → List Unknown → List String
unfolding is_reason
normalize_reason_array allow_meta subject locator xs =
    sort (cmp_reason subject locator) (collect (is_reason allow_meta) [] xs)

pub record ReasonBudget : Type 0 where
  pub max_total : ℕ
  pub used : ℕ

-- `createReasonBudgetV0`.
unfoldable pub create_reason_budget : ℕ → ReasonBudget
create_reason_budget max_total = record { max_total = max_total; used = 0 }

pub record ReasonOptions : Type 0 where
  pub max_per_subject : Option ℕ
  pub budget : Option ReasonBudget
  pub subject : Option String
  pub locator : Option String

-- `x ?? d`.
abbrev pub or_default {ℓ} : {A : Type ℓ} → A → Option A → A
or_default d none = d
or_default d (some x) = x

-- How many codes may still be answered: the limit of the subject and what the budget has left.
unfoldable pub reason_limit : ReasonOptions → ℕ → ℕ
reason_limit opts found =
    let available : ℕ = elim opts.budget [ none ↦ found | some b ↦ b.max_total - b.used ] in
    min (or_default max_reasons_per_block opts.max_per_subject) available

-- The branch of `normalizeReasonCodesV0` for more codes than the limit, which keeps one place for
-- the marker.
unfoldable pub truncate_reasons : String → String → ℕ → List String → List String
truncate_reasons subject locator zero sorted = []
truncate_reasons subject locator (suc kept) sorted =
    let dropped = length sorted - kept in
    let trimmed = take kept sorted ++ format_truncation_reason kept dropped ∷ [] in
    normalize_reason_array true subject locator (map string trimmed)

spend : ℕ → ReasonBudget → ReasonBudget
spend n b = record b { used = min b.max_total (b.used + n) }

-- What `normalizeReasonCodesV0` does with the sorted codes: the bound, and the budget after it.
unfoldable pub bound_reasons : ReasonOptions → List String → List String × Option ReasonBudget
unfolding spend
bound_reasons opts sorted =
    let limit = reason_limit opts (length sorted) in
    let out =
      if leb (length sorted) limit
      then sorted
      else truncate_reasons (or_default "" opts.subject) (or_default "" opts.locator) limit
          sorted in
    let budget : Option ReasonBudget = elim opts.budget [
      | none ↦ none
      | some b ↦ some (spend (length out) b)
    ] in
    (out, budget)

-- `normalizeReasonCodesV0`: the codes, and the budget after them.
unfoldable pub normalize_reason_codes :
    List Unknown → ReasonOptions → List String × Option ReasonBudget
normalize_reason_codes xs opts =
    bound_reasons opts
      (normalize_reason_array false (or_default "" opts.subject) (or_default "" opts.locator) xs)

-- `stableSortUniqueReasonsV0` as the callers use it: codes that are strings, no budget.
unfoldable pub stable_sort_unique_reasons :
    List String → Option String → Option String → List String
stable_sort_unique_reasons xs subject locator =
    (normalize_reason_codes (map string xs)
      (record { max_per_subject = none; budget = none; subject = subject; locator = locator })).0

-- `checkpointEqOrReasonV0`, on strings.
unfoldable pub checkpoint_eq_or_reason : String → String → String → List String
checkpoint_eq_or_reason expected observed reason = elim (str_eq expected observed) [
  | true ↦ []
  | false ↦ reason ∷ []
]

-- `if (test) reasons.push(code)`.
abbrev pub push_if : Bool → String → List String
push_if true code = code ∷ []
push_if false code = []

abbrev pub is_empty {ℓ} : {A : Type ℓ} → List A → Bool
is_empty [] = true
is_empty (x ∷ xs) = false

abbrev pub is_none {ℓ} : {A : Type ℓ} → Option A → Bool
is_none none = true
is_none (some x) = false
