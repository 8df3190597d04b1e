-- ===== src/Reasons/Join.antt =====
-- src/core/trust_algebra_v0.ts: joins of lists and of decisions, and the check of a sorted list.
use weft_end.Prelude.{
  String, ◌≡◌, ◌↔◌, refl, Bool, true, not, ◌&&◌, List, [], ◌∷◌, ◌++◌, All, length, ◌==◌, str_eq,
  eq_iff, eq_refl, arith, ap₂, ap, if◌then◌else◌, map, subst,
}
use weft_end.Text.{cmp_str, is_non_empty, includes}
use weft_end.Text.Order.{cmp_str-IsOrder}
use weft_end.Text.Sets.{
  Ascends, Ascends-Distinct, Ascends-sort, Ascends-eq_of_SameSet, includes-sort, All-of_includes,
}
use weft_end.Sort.{sort}
use weft_end.Reasons.{Unknown, string, stable_sort_unique_strings}
use weft_end.Reasons.Collect.{collect-All, All-unseen}
use weft_end.Reasons.Normal.{stable_sort_unique_strings_lem}

-- `joinStringsV0` (and `joinReasonsV0`).
unfoldable pub join_strings : List Unknown → List Unknown → List String
join_strings a b = stable_sort_unique_strings (a ++ b)

pub data Decision : Type 0 where
  yes_decision no_decision maybe : Decision

-- `joinDecisionV0`.
unfoldable pub join_decision : Decision → Decision → Decision
join_decision no_decision b = no_decision
join_decision a no_decision = no_decision
join_decision yes_decision yes_decision = yes_decision
join_decision a b = maybe

-- `joinDecisionV0` is a semilattice in which NO absorbs: associative, commutative and idempotent.
pub join_decision_laws :
    (a b c : Decision)
    → (join_decision (join_decision a b) c ≡ join_decision a (join_decision b c))
      × (join_decision a b ≡ join_decision b a)
      × (join_decision a a ≡ a)
      × (join_decision a no_decision ≡ no_decision)
unfolding join_decision
join_decision_laws a b c = ground arith

-- `assertStableSortedUniqueV0` returns, or throws one of two messages.
pub data SortedCheck : Type 0 where
  sorted_unique must_be_unique must_be_sorted : SortedCheck

same_items : List String → List String → Bool
same_items (x ∷ xs) (y ∷ ys) = str_eq x y && same_items xs ys
same_items _ _ = true

unfoldable pub assert_stable_sorted_unique : List String → SortedCheck
unfolding same_items
assert_stable_sorted_unique xs =
    let normalized = stable_sort_unique_strings (map string xs) in
    if not (length normalized == length xs)
    then must_be_unique
    else if same_items normalized xs
    then sorted_unique
    else must_be_sorted

same_items-eq : (xs ys : List String) → length xs ≡ length ys → same_items xs ys ≡ true → xs ≡ ys
unfolding same_items
same_items-eq [] [] h e = refl
same_items-eq [] (y ∷ ys) h e = absurd (omega arith)
same_items-eq (x ∷ xs) [] h e = absurd (omega arith)
same_items-eq (x ∷ xs) (y ∷ ys) h e =
    ap₂ ◌∷◌ ((eq_iff x y).0 (ground arith)) (same_items-eq xs ys (omega arith) (ground arith))

same_items_refl : (xs : List String) → same_items xs xs ≡ true
unfolding same_items
same_items_refl [] = refl
same_items_refl (x ∷ xs) = ground (arith, eq_refl x, same_items_refl xs)

normal_fixed :
    (xs : List String)
    → Ascends cmp_str xs
    → All (λ x. is_non_empty x ≡ true) xs
    → stable_sort_unique_strings (map string xs) ≡ xs
unfolding stable_sort_unique_strings
normal_fixed xs up full =
    let d = Ascends-Distinct cmp_str-IsOrder xs up in
    rw (collect-All is_non_empty [] xs d full (All-unseen xs)) (
      Ascends-eq_of_SameSet cmp_str-IsOrder (sort cmp_str xs) xs (Ascends-sort cmp_str-IsOrder xs d)
        up (includes-sort cmp_str xs))

checked_fixed :
    (xs : List String)
    → assert_stable_sorted_unique xs ≡ sorted_unique
    → stable_sort_unique_strings (map string xs) ≡ xs
unfolding assert_stable_sorted_unique
checked_fixed xs h =
    same_items-eq (stable_sort_unique_strings (map string xs)) xs (ground arith) (ground arith)

-- `assertStableSortedUniqueV0` returns exactly for the lists of non-blank strings in strictly
-- ascending order of code units.
pub assert_stable_sorted_unique_iff :
    (xs : List String)
    → (assert_stable_sorted_unique xs ≡ sorted_unique)
      ↔ (Ascends cmp_str xs × All (λ x. is_non_empty x ≡ true) xs)
unfolding assert_stable_sorted_unique
assert_stable_sorted_unique_iff xs = (
  λ h.
      let e = checked_fixed xs h in
      let (up, members) = stable_sort_unique_strings_lem (map string xs) in
      (
        subst (Ascends cmp_str) e up,
        All-of_includes (λ x. is_non_empty x ≡ true) xs
            λ a m. ground (arith, members a, ap (λ ys. includes ys a) e, m),
      ),
  λ h. rw (normal_fixed xs h.0 h.1) (ground (arith, same_items_refl xs)),
)
