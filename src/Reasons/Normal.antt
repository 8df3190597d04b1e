-- ===== src/Reasons/Normal.antt =====
-- Normalised codes are one list for each set of accepted inputs.
use weft_end.Prelude.{String, ◌≡◌, Bool, ◌&&◌, List, [], arith, ap, Ordering, false}
use weft_end.Text.{cmp_str, is_non_empty, includes}
use weft_end.Text.Order.{cmp_str-IsOrder}
use weft_end.Text.Sets.{SameSet, Ascends, Ascends-sort, Ascends-eq_of_SameSet, includes-sort}
use weft_end.Sort.{sort, IsOrder}
use weft_end.Reasons.{
  Unknown, collect, stable_sort_unique_strings, is_reason, cmp_reason, normalize_reason_array,
  ReasonOptions, bound_reasons, normalize_reason_codes,
}
use weft_end.Reasons.Collect.{texts, includes-collect, Distinct-collect}
use weft_end.Reasons.Order.{cmp_reason-IsOrder}

module _ {cmp : String → String → Ordering} (order : IsOrder cmp) (keep : String → Bool) where
  Ascends-collected : (xs : List Unknown) → Ascends cmp (sort cmp (collect keep [] xs))
  Ascends-collected xs = Ascends-sort order (collect keep [] xs) (Distinct-collect keep [] xs)

  includes-collected :
      (xs : List Unknown) (a : String)
      → includes (sort cmp (collect keep [] xs)) a ≡ (keep a && includes (texts xs) a)
  unfolding includes
  includes-collected xs a =
      ground (arith, includes-sort cmp (collect keep [] xs) a, includes-collect keep [] xs a)

  collected_unique :
      (xs ys : List Unknown)
      → SameSet (texts xs) (texts ys)
      → sort cmp (collect keep [] xs) ≡ sort cmp (collect keep [] ys)
  collected_unique xs ys same =
      Ascends-eq_of_SameSet order (sort cmp (collect keep [] xs)) (sort cmp (collect keep [] ys))
        (Ascends-collected xs) (Ascends-collected ys)
        λ a. ground (arith, includes-collected xs a, includes-collected ys a, same a)

-- `stableSortUniqueStringsV0` answers the non-blank strings of its input, each once, in strictly
-- ascending order of code units.
pub stable_sort_unique_strings_lem :
    (xs : List Unknown)
    → Ascends cmp_str (stable_sort_unique_strings xs)
      × ((a : String)
          → includes (stable_sort_unique_strings xs) a ≡ (is_non_empty a && includes (texts xs) a))
unfolding stable_sort_unique_strings
stable_sort_unique_strings_lem xs = (
  Ascends-collected cmp_str-IsOrder is_non_empty xs,
  includes-collected cmp_str-IsOrder is_non_empty xs,
)

pub stable_sort_unique_strings_unique :
    (xs ys : List Unknown)
    → SameSet (texts xs) (texts ys)
    → stable_sort_unique_strings xs ≡ stable_sort_unique_strings ys
unfolding stable_sort_unique_strings
stable_sort_unique_strings_unique xs ys same =
    collected_unique cmp_str-IsOrder is_non_empty xs ys same

module _ (allow_meta : Bool) (subject locator : String) where
  pub normalize_reason_array-Ascends :
      (xs : List Unknown)
      → Ascends (cmp_reason subject locator) (normalize_reason_array allow_meta subject locator xs)
  unfolding normalize_reason_array
  normalize_reason_array-Ascends xs =
      Ascends-collected (cmp_reason-IsOrder subject locator) (is_reason allow_meta) xs

  pub includes-normalize_reason_array :
      (xs : List Unknown) (a : String)
      → includes (normalize_reason_array allow_meta subject locator xs) a
        ≡ (is_reason allow_meta a && includes (texts xs) a)
  unfolding normalize_reason_array
  includes-normalize_reason_array xs a =
      includes-collected (cmp_reason-IsOrder subject locator) (is_reason allow_meta) xs a

  pub normalize_reason_array_unique :
      (xs ys : List Unknown)
      → SameSet (texts xs) (texts ys)
      → normalize_reason_array allow_meta subject locator xs
        ≡ normalize_reason_array allow_meta subject locator ys
  unfolding normalize_reason_array
  normalize_reason_array_unique xs ys same =
      collected_unique (cmp_reason-IsOrder subject locator) (is_reason allow_meta) xs ys same

-- Determinism: two inputs with the same strings, in whatever order and however often, have the same
-- codes and leave the same budget, truncated or not.
pub normalize_reason_codes_unique :
    (xs ys : List Unknown) (opts : ReasonOptions)
    → SameSet (texts xs) (texts ys)
    → normalize_reason_codes xs opts ≡ normalize_reason_codes ys opts
unfolding normalize_reason_codes
normalize_reason_codes_unique xs ys opts same =
    ap (bound_reasons opts) (normalize_reason_array_unique false _ _ xs ys same)
