-- ===== src/Reasons/Whole.antt =====
-- Lists of at most 32 reason codes are answered whole, and no list grows.
use weft_end.Prelude.{
  ◌≤◌, String, ◌≡◌, refl, ap, Bool, true, false, ◌&&◌, Option, none, List, [], ◌∷◌, map, length,
  arith,
}
use weft_end.Text.{includes}
use weft_end.Text.Sets.{SameSet}
use weft_end.Sort.{sort, length-sort}
use weft_end.Reasons.{
  is_empty, Unknown, string, other, fresh, collect, is_reason, cmp_reason,
  stable_sort_unique_reasons, normalize_reason_codes, normalize_reason_array, bound_reasons,
  reason_limit, max_reasons_per_block, or_default, ReasonOptions,
}
use weft_end.Reasons.Budget.{sorted_codes, length-codes}
use weft_end.Reasons.Collect.{texts-map}
use weft_end.Reasons.Normal.{normalize_reason_codes_unique, includes-normalize_reason_array}

pub is_empty_iff {ℓ} : {A : Type ℓ} → (xs : List A) → is_empty xs ≡ true → xs ≡ []
is_empty_iff [] h = refl
is_empty_iff (x ∷ xs) h = cc

length-collect :
    (keep : String → Bool) (seen : List String) (xs : List Unknown)
    → length (collect keep seen xs) ≤ length xs
unfolding collect fresh
length-collect keep seen [] = omega arith
length-collect keep seen (other ∷ xs) = omega (arith, length-collect keep seen xs)
length-collect keep seen (string s ∷ xs) =
    ground (arith, length-collect keep seen xs, length-collect keep (s ∷ seen) xs)

pub normalize_reason_array_short :
    (subject locator : String) (xs : List Unknown)
    → length (normalize_reason_array false subject locator xs) ≤ length xs
unfolding normalize_reason_array
normalize_reason_array_short subject locator xs = omega (
  arith,
  length-sort (cmp_reason subject locator) (collect (is_reason false) [] xs),
  length-collect (is_reason false) [] xs,
)

pub length-map_string : (xs : List String) → length (map string xs) ≡ length xs
length-map_string [] = refl
length-map_string (x ∷ xs) = omega (arith, length-map_string xs)

-- At most 32 codes are answered whole.
pub includes-stable_sort_unique_reasons :
    (xs : List String) (subject locator : Option String) (a : String)
    → length xs ≤ max_reasons_per_block
    → includes (stable_sort_unique_reasons xs subject locator) a
      ≡ (is_reason false a && includes xs a)
unfolding stable_sort_unique_reasons normalize_reason_codes bound_reasons reason_limit
includes-stable_sort_unique_reasons xs subject locator a h = ground (
  arith,
  normalize_reason_array_short (or_default "" subject) (or_default "" locator) (map string xs),
  length-map_string xs,
  includes-normalize_reason_array false (or_default "" subject) (or_default "" locator)
      (map string xs) a,
  ap (λ ys. includes ys a) (texts-map xs),
)

pub stable_sort_unique_reasons_unique :
    (xs ys : List String) (subject locator : Option String)
    → SameSet xs ys
    → stable_sort_unique_reasons xs subject locator ≡ stable_sort_unique_reasons ys subject locator
unfolding stable_sort_unique_reasons
stable_sort_unique_reasons_unique xs ys subject locator same =
    ap (λ r. r.0)
      (normalize_reason_codes_unique (map string xs) (map string ys) _
        λ a. ground (arith, texts-map xs, texts-map ys, same a))

pub length-stable_sort_unique_reasons :
    (xs : List String) (subject locator : Option String)
    → length xs ≤ max_reasons_per_block
    → length (stable_sort_unique_reasons xs subject locator) ≤ length xs
unfolding stable_sort_unique_reasons normalize_reason_codes bound_reasons reason_limit
length-stable_sort_unique_reasons xs subject locator h = ground (
  arith,
  normalize_reason_array_short (or_default "" subject) (or_default "" locator) (map string xs),
  length-map_string xs,
)

length_nil {ℓ} : {A : Type ℓ} → (xs : List A) → length xs ≡ 0 → xs ≡ []
length_nil [] h = refl
length_nil (x ∷ xs) h = absurd (omega (arith, h))

-- Where no code is answered no accepted code was given, however many were.
pub stable_sort_unique_reasons_nil :
    (xs : List String) (subject locator : Option String) (a : String)
    → stable_sort_unique_reasons xs subject locator ≡ []
    → is_reason false a ≡ true
    → includes xs a ≡ false
unfolding stable_sort_unique_reasons sorted_codes reason_limit includes
stable_sort_unique_reasons_nil xs subject locator a h accepted =
    let opts : ReasonOptions = record {
      max_per_subject = none;
      budget = none;
      subject = subject;
      locator = locator;
    } in
    let found = length-codes (map string xs) opts in
    let nothing : sorted_codes (map string xs) opts ≡ [] =
      length_nil _ (ground (arith, ap length h, found)) in
    ground (
      arith,
      ap (λ ys. includes ys a) nothing,
      includes-normalize_reason_array false (or_default "" subject) (or_default "" locator)
          (map string xs) a,
      ap (λ ys. includes ys a) (texts-map xs),
    )

pub stable_sort_unique_reasons_of_nil :
    (subject locator : Option String) → stable_sort_unique_reasons [] subject locator ≡ []
unfolding stable_sort_unique_reasons normalize_reason_codes bound_reasons reason_limit
    normalize_reason_array collect sort
stable_sort_unique_reasons_of_nil subject locator = refl
