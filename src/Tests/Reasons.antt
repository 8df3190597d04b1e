-- ===== src/Tests/Reasons.antt =====
-- Reason codes, their bounds and the truncation helpers.
use weft_end.Prelude.{
  ℕ, ◌+◌, ◌-◌, ◌≤◌, ◌<◌, String, ◌≡◌, ◌⊎◌, refl, true, none, some, List, [], ◌∷◌, ◌++◌, length,
  take, arith,
}
use weft_end.Text.{cmp_str, is_non_empty, includes}
use weft_end.Text.Decimal.{decimal, units}
use weft_end.Text.Sets.{SameSet}
use weft_end.Bounds.{make_truncation_marker, truncate_text_with_marker}
use weft_end.Bounds.Laws.{truncate_text_bounds}
use weft_end.Reasons.{
  Unknown, string, other, format_truncation_reason, is_reason, ReasonBudget, ReasonOptions,
  reason_limit, normalize_reason_codes, bound_reasons, truncate_reasons, normalize_reason_array,
  collect, cmp_reason, reason_key,
}
use weft_end.Sort.{sort}
use weft_end.Reasons.Collect.{texts}
use weft_end.Reasons.Normal.{normalize_reason_codes_unique}
use weft_end.Reasons.Budget.{
  sorted_codes, length-normalize_reason_codes, normalize_reason_codes_budget,
  normalize_reason_codes_complete,
}

abbrev given : List Unknown
given = string "B" ∷ other ∷ string "A" ∷ string "  " ∷ string "B" ∷ string "C" ∷ []

abbrev again : List Unknown
again = string "C" ∷ string "A" ∷ string "  " ∷ string "B" ∷ []

abbrev opts : ReasonOptions
opts = record {
  max_per_subject = some 2;
  budget = some (record { max_total = 10; used = 3 });
  subject = some "block:1";
  locator = none;
}

-- Three codes and a limit of two: the first one stays, and the marker counts the two others.
truncated :
    (normalize_reason_codes given opts).0 ≡ "A" ∷ "TRUST_REASONS_TRUNCATED:kept=1,dropped=2" ∷ []
unfolding normalize_reason_codes bound_reasons truncate_reasons normalize_reason_array collect sort
    is_non_empty includes cmp_reason reason_key cmp_str reason_limit format_truncation_reason
    decimal
truncated = refl

same_set : SameSet (texts given) (texts again)
unfolding texts includes
same_set a = ground arith

normalize_reason_codes_unique_example :
    normalize_reason_codes given opts ≡ normalize_reason_codes again opts
normalize_reason_codes_unique_example = normalize_reason_codes_unique given again opts same_set

length-normalize_reason_codes_example : length (normalize_reason_codes given opts).0 ≤ 2
length-normalize_reason_codes_example = length-normalize_reason_codes given opts

normalize_reason_codes_budget_example :
    let (codes, after) = normalize_reason_codes given opts in
    (b' : ReasonBudget) × (after ≡ some b')
    × (b'.max_total ≡ 10)
    × (b'.used ≡ 3 + length codes)
    × (b'.used ≤ b'.max_total)
normalize_reason_codes_budget_example =
    normalize_reason_codes_budget given opts (record { max_total = 10; used = 3 }) refl
      (omega arith)

abbrev tight : ReasonOptions
tight = record opts { max_per_subject = some 3 }

normalize_reason_codes_complete_example :
    let found = length (sorted_codes given tight) in
    let limit = reason_limit tight found in
    (includes (normalize_reason_codes given tight).0 "B" ≡ true)
    ⊎ (includes
          (normalize_reason_codes given tight).0
          (format_truncation_reason (limit - 1) (found - (limit - 1)))
        ≡ true)
unfolding reason_limit is_reason includes texts is_non_empty
normalize_reason_codes_complete_example =
    normalize_reason_codes_complete given tight "B" (λ e. absurd (omega arith)) refl refl

abbrev items : List String
items = "a" ∷ "b" ∷ "c" ∷ []

abbrev line : List ℕ
line = units "0123456789ABCDEF"

truncate_text_bounds_example :
    let (kept, dropped) = truncate_text_with_marker line 12 in
    let marker = units (make_truncation_marker dropped) in
    ((length line ≤ 12) × (kept ≡ line) × (dropped ≡ 0))
    ⊎ ((12 < length line)
        × (length kept ≡ 12)
        × (dropped + 12 ≡ length line)
        × (kept ≡ take 12 (take (12 - length marker) line ++ marker)))
truncate_text_bounds_example = truncate_text_bounds line 12
