-- ===== src/Text/Sets.antt =====
-- Lists of strings as sets: sorted without repetition they are one list for each set.
use weft_end.Prelude.{
  ℕ, zero, suc, take, ◌++◌, Ordering, String, ◌≡◌, ◌≢◌, refl, sym, ap₂, true, false, ◌||◌, List, [],
  ◌∷◌, All, arith, Bool-cases, Ordering-cases, inl, inr, str_eq, eq_iff, eq_refl, ◌∙◌, subst,
}
use weft_end.Text.{includes}
use weft_end.Sort.{IsOrder, insert, sort, All-insert}

abbrev pub Distinct : List String → Type 0
Distinct [] = Unit
Distinct (x ∷ xs) = (includes xs x ≡ false) × Distinct xs

-- The same strings, however often and in whatever order.
abbrev pub SameSet : List String → List String → Type 0
SameSet xs ys = (a : String) → includes xs a ≡ includes ys a

pub All-includes {κ} :
    (P : String → Type κ) (xs : List String) (a : String) → All P xs → includes xs a ≡ true → P a
unfolding includes
All-includes P [] a h m = cc
All-includes P (x ∷ xs) a h m = elim (Bool-cases (str_eq x a)) [
  | inl e ↦ rw (← (eq_iff x a).0 e) h.0
  | inr e ↦ All-includes P xs a h.1 (rw e at m)
]

pub All-of_includes {κ} :
    (P : String → Type κ) (xs : List String)
    → ((a : String) → includes xs a ≡ true → P a)
    → All P xs
unfolding includes
All-of_includes P [] h = tt
All-of_includes P (x ∷ xs) h =
    (h x (ground (arith, eq_iff x x)), All-of_includes P xs (λ a m. h a (ground arith)))

pub includes-take :
    (n : ℕ) (xs : List String) (a : String) → includes xs a ≡ false → includes (take n xs) a ≡ false
unfolding includes
includes-take zero xs a h = refl
includes-take (suc n) [] a h = refl
includes-take (suc n) (x ∷ xs) a h = ground (arith, includes-take n xs a)

pub Distinct-take : (n : ℕ) (xs : List String) → Distinct xs → Distinct (take n xs)
Distinct-take zero xs h = tt
Distinct-take (suc n) [] h = tt
Distinct-take (suc n) (x ∷ xs) h = (includes-take n xs x h.0, Distinct-take n xs h.1)

pub includes-append :
    (xs ys : List String) (a : String) → includes (xs ++ ys) a ≡ (includes xs a || includes ys a)
unfolding includes
includes-append [] ys a = refl
includes-append (x ∷ xs) ys a = ground (arith, includes-append xs ys a)

pub Distinct-snoc :
    (xs : List String) (y : String) → Distinct xs → includes xs y ≡ false → Distinct (xs ++ y ∷ [])
unfolding includes
Distinct-snoc [] y d m = (refl, tt)
Distinct-snoc (x ∷ xs) y d m = (
  ground (arith, includes-append xs (y ∷ []) x, eq_iff y x, eq_iff x y),
  Distinct-snoc xs y d.1 (ground arith),
)

module _ (cmp : String → String → Ordering) where
  pub includes-insert :
      (x : String) (xs : List String) (a : String)
      → includes (insert cmp x xs) a ≡ (str_eq x a || includes xs a)
  unfolding insert includes
  includes-insert x [] a = refl
  includes-insert x (y ∷ ys) a = ground (arith, includes-insert x ys a)

  pub includes-sort : (xs : List String) (a : String) → includes (sort cmp xs) a ≡ includes xs a
  unfolding sort includes
  includes-sort [] a = refl
  includes-sort (x ∷ xs) a = ground (arith, includes-insert x (sort cmp xs) a, includes-sort xs a)

  -- Strictly ascending: each string is smaller than all that follow.
  abbrev pub Ascends : List String → Type 0
  Ascends [] = Unit
  Ascends (x ∷ xs) = All (λ y. cmp x y ≡ Ordering.lt) xs × Ascends xs

module _ {cmp : String → String → Ordering} (order : IsOrder cmp) where
  lt_of_gt : (x y : String) → cmp x y ≡ Ordering.gt → cmp y x ≡ Ordering.lt
  lt_of_gt x y h = ground (arith, order.flips x y)

  All-lt_trans :
      (x y : String) (zs : List String)
      → cmp x y ≡ Ordering.lt
      → All (λ z. cmp y z ≡ Ordering.lt) zs
      → All (λ z. cmp x z ≡ Ordering.lt) zs
  All-lt_trans x y [] h k = tt
  All-lt_trans x y (z ∷ zs) h k = (order.lt_trans x y z h k.0, All-lt_trans x y zs h k.1)

  Ascends-insert :
      (x : String) (xs : List String)
      → includes xs x ≡ false
      → Ascends cmp xs
      → Ascends cmp (insert cmp x xs)
  unfolding insert includes
  Ascends-insert x [] m h = (tt, tt)
  Ascends-insert x (y ∷ ys) m h = elim (Ordering-cases (cmp x y)) [
    | inl e ↦ rw (e, insert) ((e, All-lt_trans x y ys e h.0), h)
    | inr (inl e) ↦ absurd (ground (arith, order.eq_path x y e, eq_iff y x))
    | inr (inr e) ↦
        rw (e, insert)
          (
            All-insert cmp (λ z. cmp y z ≡ Ordering.lt) x ys (lt_of_gt x y e) h.0,
            Ascends-insert x ys (ground arith) h.1,
          )
  ]

  pub Ascends-sort : (xs : List String) → Distinct xs → Ascends cmp (sort cmp xs)
  unfolding sort
  Ascends-sort [] h = tt
  Ascends-sort (x ∷ xs) h =
      Ascends-insert x (sort cmp xs) (includes-sort cmp xs x ∙ h.0) (Ascends-sort xs h.1)

  cmp_self : (x : String) → cmp x x ≢ Ordering.lt
  cmp_self x e = ground (arith, order.flips x x)

  Ascends-head : (x : String) (xs : List String) → Ascends cmp (x ∷ xs) → includes xs x ≡ false
  Ascends-head x xs h = elim (Bool-cases (includes xs x)) [
    | inl m ↦ absurd (cmp_self x (All-includes (λ y. cmp x y ≡ Ordering.lt) xs x h.0 m))
    | inr n ↦ n
  ]

  pub Ascends-Distinct : (xs : List String) → Ascends cmp xs → Distinct xs
  Ascends-Distinct [] h = tt
  Ascends-Distinct (x ∷ xs) h = (Ascends-head x xs h, Ascends-Distinct xs h.1)

  -- The smaller of two heads would be missing from the other list.
  lt_absurd :
      (x y : String) (xs ys : List String)
      → cmp x y ≡ Ordering.lt
      → Ascends cmp (y ∷ ys)
      → SameSet (x ∷ xs) (y ∷ ys)
      → ⊥
  unfolding includes
  lt_absurd x y xs ys e h same = elim (Bool-cases (includes ys x)) [
    | inl m ↦
        let f = All-includes (λ z. cmp y z ≡ Ordering.lt) ys x h.0 m in
        ground (arith, order.flips x y)
    | inr n ↦ ground (arith, same x, eq_refl x, eq_iff y x, order.flips x x)
  ]

  SameSet-tail :
      (x : String) (xs ys : List String)
      → Ascends cmp (x ∷ xs)
      → Ascends cmp (x ∷ ys)
      → SameSet (x ∷ xs) (x ∷ ys)
      → SameSet xs ys
  unfolding includes
  SameSet-tail x xs ys h k same a = elim (Bool-cases (str_eq x a)) [
    | inl e ↦ let p = (eq_iff x a).0 e in rw (← p) (Ascends-head x xs h ∙ sym (Ascends-head x ys k))
    | inr e ↦ ground (arith, same a)
  ]

  pub Ascends-eq_of_SameSet :
      (xs ys : List String) → Ascends cmp xs → Ascends cmp ys → SameSet xs ys → xs ≡ ys
  unfolding includes
  Ascends-eq_of_SameSet [] [] h k same = refl
  Ascends-eq_of_SameSet [] (y ∷ ys) h k same = absurd (ground (arith, same y, eq_refl y))
  Ascends-eq_of_SameSet (x ∷ xs) [] h k same = absurd (ground (arith, same x, eq_refl x))
  Ascends-eq_of_SameSet (x ∷ xs) (y ∷ ys) h k same = elim (Ordering-cases (cmp x y)) [
    | inl e ↦ absurd (lt_absurd x y xs ys e k same)
    | inr (inl e) ↦
        let p = order.eq_path x y e in
        let k' = subst (λ z. Ascends cmp (z ∷ ys)) (sym p) k in
        let same' = subst (λ z. SameSet (x ∷ xs) (z ∷ ys)) (sym p) same in
        ap₂ ◌∷◌ p (Ascends-eq_of_SameSet xs ys h.1 k.1 (SameSet-tail x xs ys h k' same'))
    | inr (inr e) ↦ absurd (lt_absurd y x ys xs (lt_of_gt x y e) h (λ a. sym (same a)))
  ]
