-- ===== src/Reasons/Fixed.antt =====
-- At most 32 reason codes in normal form are their own normal form.
use weft_end.Prelude.{
  ℕ, zero, suc, ◌≤◌, ◌-◌, take, [], ◌∷◌, ◌++◌, String, ◌≡◌, ap, true, false, leb, Bool-cases, inl,
  inr, Option, none, List, map, length, arith, ◌∙◌, sym,
}
use weft_end.Text.{includes, is_non_empty}
use weft_end.Text.Sets.{Ascends-eq_of_SameSet}
use weft_end.Reasons.{
  normalize_reason_array, stable_sort_unique_reasons, normalize_reason_codes, bound_reasons,
  ReasonOptions, reason_limit, format_truncation_reason, truncate_reasons, is_reason, string,
  or_default, max_reasons_per_block,
}
use weft_end.Reasons.Collect.{texts-map}
use weft_end.Reasons.Order.{cmp_reason-IsOrder}
use weft_end.Reasons.Normal.{normalize_reason_array-Ascends, includes-normalize_reason_array}
use weft_end.Reasons.Whole.{
  normalize_reason_array_short, length-map_string, length-stable_sort_unique_reasons,
}

whole :
    (xs : List String) (subject locator : Option String)
    → length xs ≤ max_reasons_per_block
    → stable_sort_unique_reasons xs subject locator
      ≡ normalize_reason_array false (or_default "" subject) (or_default "" locator) (map string xs)
unfolding stable_sort_unique_reasons normalize_reason_codes bound_reasons reason_limit
whole xs subject locator h = ground (
  arith,
  normalize_reason_array_short (or_default "" subject) (or_default "" locator) (map string xs),
  length-map_string xs,
)

normalize_reason_array_fixed :
    (subject locator : String) (xs : List String)
    → let once = normalize_reason_array false subject locator (map string xs) in
      normalize_reason_array false subject locator (map string once) ≡ once
normalize_reason_array_fixed subject locator xs =
    let once = normalize_reason_array false subject locator (map string xs) in
    Ascends-eq_of_SameSet (cmp_reason-IsOrder subject locator)
      (normalize_reason_array false subject locator (map string once)) once
      (normalize_reason_array-Ascends false subject locator (map string once))
      (normalize_reason_array-Ascends false subject locator (map string xs))
      λ a. ground (
        arith,
        includes-normalize_reason_array false subject locator (map string once) a,
        includes-normalize_reason_array false subject locator (map string xs) a,
        ap (λ ys. includes ys a) (texts-map once),
      )

-- At most 32 codes in normal form stay as they are.
pub stable_sort_unique_reasons_fixed :
    (xs : List String) (subject locator : Option String)
    → length xs ≤ max_reasons_per_block
    → stable_sort_unique_reasons (stable_sort_unique_reasons xs subject locator) subject locator
      ≡ stable_sort_unique_reasons xs subject locator
stable_sort_unique_reasons_fixed xs subject locator h =
    let short = length-stable_sort_unique_reasons xs subject locator h in
    whole (stable_sort_unique_reasons xs subject locator) subject locator (omega (arith, short, h))
    ∙ (ap
          (λ ys.
            normalize_reason_array false (or_default "" subject) (or_default "" locator)
              (map string ys))
          (whole xs subject locator h)
        ∙ (normalize_reason_array_fixed (or_default "" subject) (or_default "" locator) xs
            ∙ sym (whole xs subject locator h)))

truncated-full :
    (subject locator : String) (limit : ℕ) (sorted : List String) (a : String)
    → includes (truncate_reasons subject locator limit sorted) a ≡ true
    → is_non_empty a ≡ true
unfolding truncate_reasons is_reason includes
truncated-full subject locator zero sorted a m = absurd (ground (arith, m))
truncated-full subject locator (suc kept) sorted a m =
    let trimmed = take kept sorted ++ format_truncation_reason kept (length sorted - kept) ∷ [] in
    ground (arith, m, includes-normalize_reason_array true subject locator (map string trimmed) a)

-- A code that is answered is not blank.
pub stable_sort_unique_reasons-full :
    (xs : List String) (subject locator : Option String) (a : String)
    → includes (stable_sort_unique_reasons xs subject locator) a ≡ true
    → is_non_empty a ≡ true
unfolding stable_sort_unique_reasons normalize_reason_codes bound_reasons is_reason includes
stable_sort_unique_reasons-full xs subject locator a m =
    let s = or_default "" subject in
    let l = or_default "" locator in
    let sorted = normalize_reason_array false s l (map string xs) in
    let opts : ReasonOptions = record {
      max_per_subject = none;
      budget = none;
      subject = subject;
      locator = locator;
    } in
    let limit = reason_limit opts (length sorted) in
    elim (Bool-cases (leb (length sorted) limit)) [
      | inl e ↦
          ground (arith, rw e at m, includes-normalize_reason_array false s l (map string xs) a)
      | inr e ↦ truncated-full s l limit sorted a (rw e at m)
    ]
