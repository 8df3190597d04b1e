-- ===== src/Compare/Fields.antt =====
-- What the tests of the comparison say of the fields that they compare.
use weft_end.Prelude.{
  neither, ℕ, String, ◌≡◌, refl, sym, ◌∙◌, ap, Bool, true, false, ◌||◌, Option, none, some, List,
  [], ◌∷◌, ◌++◌, map, ◌↔◌, inl, inr, Bool-cases, str_eq, eq_iff, eq_refl, arith,
}
use weft_end.Text.{includes, cmp_str}
use weft_end.Text.Table.{Table, get}
use weft_end.Text.Sets.{SameSet, includes-append, includes-sort}
use weft_end.Reasons.{string, collect, or_default}
use weft_end.Reasons.Whole.{is_empty_iff}
use weft_end.Reasons.Collect.{texts-map, includes-collect}
use weft_end.Compare.{
  without, set_diff, is_diff, number_of, keys_of, all_keys, any_count_differs, record_changed,
  number_differs, flag_differs, text_differs,
}

-- A test that fails exactly where two fields agree.
abbrev pub Tests {ℓ} : Bool → Type ℓ → Type ℓ
Tests test P = (test ≡ false) ↔ P

both_false : (a b : Bool) → a ≡ false → b ≡ false → (a || b) ≡ false
both_false a b h k = ground (arith, h, k)

pub or-Tests {ℓ κ} :
    {P : Type ℓ} → {Q : Type κ} → (a b : Bool) → Tests a P → Tests b Q → Tests (a || b) (P × Q)
or-Tests a b s t =
    ((λ h. let (x, y) = neither a b h in (s.0 x, t.0 y)), λ h. both_false a b (s.1 h.0) (t.1 h.1))

pub or_three-Tests {ℓ κ μ} :
    {P : Type ℓ}
    → {Q : Type κ} → {R : Type μ} → (a b c : Bool) → Tests a P
    → Tests b Q
    → Tests c R
    → Tests (a || b || c) (P × (Q × R))
or_three-Tests a b c s t u =
    let both = or-Tests (a || b) c (or-Tests a b s t) u in
    ((λ h. let x = both.0 h in (x.0.0, (x.0.1, x.1))), λ h. both.1 ((h.0, h.1.0), h.1.1))

pub number_differs-Tests : (a b : Option ℕ) → Tests (number_differs a b) (a ≡ b)
unfolding number_differs
number_differs-Tests none none = ((λ h. refl), λ h. refl)
number_differs-Tests none (some b) = ((λ h. cc), λ h. cc)
number_differs-Tests (some a) none = ((λ h. cc), λ h. cc)
number_differs-Tests (some a) (some b) = ((λ h. ground arith), λ h. ground arith)

pub flag_differs-Tests : (a b : Option Bool) → Tests (flag_differs a b) (a ≡ b)
unfolding flag_differs
flag_differs-Tests a b = ((λ h. ground arith), λ h. ground arith)

pub text_differs-Tests :
    (missing : String) (a b : Option String)
    → Tests (text_differs missing a b) (or_default missing a ≡ or_default missing b)
unfolding text_differs
text_differs-Tests missing a b =
    let same = eq_iff (or_default missing a) (or_default missing b) in
    ((λ h. ground (arith, same)), λ h. ground (arith, same))

without_nil :
    (xs ys : List String) (a : String)
    → without xs ys ≡ []
    → includes xs a ≡ true
    → includes ys a ≡ true
unfolding without includes
without_nil [] ys a h m = cc
without_nil (x ∷ xs) ys a h m = elim (Bool-cases (includes ys x)) [
  | inl e ↦ elim (Bool-cases (str_eq x a)) [
    | inl p ↦ ap (λ z. includes ys z) (sym ((eq_iff x a).0 p)) ∙ e
    | inr p ↦ without_nil xs ys a (ground (arith, h, e)) (ground (arith, m, p))
  ]
  | inr e ↦ absurd (ground (arith, h, e))
]

nil_without :
    (xs ys : List String)
    → ((a : String) → includes xs a ≡ true → includes ys a ≡ true)
    → without xs ys ≡ []
unfolding without includes
nil_without [] ys h = refl
nil_without (x ∷ xs) ys h =
    let rest = nil_without xs ys (λ a m. h a (ground (arith, m))) in
    rw (h x (ground (arith, eq_refl x)), rest) refl

both_or_neither : (a b : Bool) → (a ≡ true → b ≡ true) → (b ≡ true → a ≡ true) → a ≡ b
both_or_neither true b h k = sym (h refl)
both_or_neither false true h k = k refl
both_or_neither false false h k = refl

get_outside :
    (t : Table ℕ) (k : String) → includes (map (λ entry. entry.0) t) k ≡ false → get t k ≡ none
unfolding get includes
get_outside [] k h = refl
get_outside ((x, v) ∷ rest) k h =
    let (e, m) = neither (str_eq x k) _ h in rw e (get_outside rest k m)

count_outside :
    (t : Option (Table ℕ)) (k : String) → includes (keys_of t) k ≡ false → number_of t k ≡ 0
unfolding number_of
count_outside none k h = refl
count_outside (some t) k h = rw (get_outside t k h) refl

no_diff :
    (xs ys : List String)
    → is_diff (set_diff xs ys) ≡ false
    → (without xs ys ≡ []) × (without ys xs ≡ [])
unfolding is_diff set_diff
no_diff xs ys h =
    (is_empty_iff (without xs ys) (ground arith), is_empty_iff (without ys xs) (ground arith))

pub is_diff-Tests : (xs ys : List String) → Tests (is_diff (set_diff xs ys)) (SameSet xs ys)
unfolding is_diff set_diff
is_diff-Tests xs ys = (
  (λ h a.
      let (l, r) = no_diff xs ys h in
      let forth = without_nil xs ys a l in
      let back = without_nil ys xs a r in
      both_or_neither (includes xs a) (includes ys a) forth back),
  λ same.
      let l = nil_without xs ys (λ a m. sym (same a) ∙ m) in
      let r = nil_without ys xs (λ a m. same a ∙ m) in rw (l, r) refl,
)

module _ (left right : Option (Table ℕ)) where
  differs_at :
      (ks : List String) (k : String)
      → any_count_differs left right ks ≡ false
      → includes ks k ≡ true
      → number_of left k ≡ number_of right k
  unfolding any_count_differs includes
  differs_at [] k h m = cc
  differs_at (x ∷ xs) k h m = elim (Bool-cases (str_eq x k)) [
    | inl e ↦ rw (← (eq_iff x k).0 e) (ground (arith, h))
    | inr e ↦ differs_at xs k (ground (arith, h)) (ground (arith, m, e))
  ]

  none_differs :
      (ks : List String)
      → ((k : String) → number_of left k ≡ number_of right k)
      → any_count_differs left right ks ≡ false
  unfolding any_count_differs
  none_differs [] h = refl
  none_differs (x ∷ xs) h = ground (arith, h x, none_differs xs h)

  includes-all_keys :
      (k : String)
      → includes (all_keys left right) k ≡ (includes (keys_of left) k || includes (keys_of right) k)
  unfolding all_keys includes
  includes-all_keys k =
      let keys = keys_of left ++ keys_of right in
      includes-sort cmp_str (collect (λ s. true) [] (map string keys)) k
      ∙ includes-collect (λ s. true) [] (map string keys) k
      ∙ ap (λ ys. includes ys k) (texts-map keys)
      ∙ includes-append (keys_of left) (keys_of right) k

  pub record_changed-Tests :
      Tests (record_changed left right) ((k : String) → number_of left k ≡ number_of right k)
  unfolding record_changed
  record_changed-Tests = (
    (λ h k. elim (Bool-cases (includes (all_keys left right) k)) [
      | inl e ↦ differs_at (all_keys left right) k h e
      | inr e ↦
          let (l, r) =
            neither (includes (keys_of left) k) (includes (keys_of right) k)
              (sym (includes-all_keys k) ∙ e) in
          count_outside left k l ∙ sym (count_outside right k r)
    ]),
    λ same. none_differs (all_keys left right) same,
  )
