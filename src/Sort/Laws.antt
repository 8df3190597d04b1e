-- ===== src/Sort/Laws.antt =====
-- Sorting permutes the items, and ascends.
use mathlib.Core.List.{Perm}
use mathlib.Core.List.Perm
use weft_end.Prelude.{
  Ordering, ◌≡◌, refl, List, [], ◌∷◌, ap, ◌∙◌, length, All, Ordering-cases, inl, inr, arith, suc,
}
use weft_end.Sort.Order.{insert, sort}

module _ {ℓ} {A : Type ℓ} (cmp : A → A → Ordering) where
  pub length-insert : (x : A) (xs : List A) → length (insert cmp x xs) ≡ suc (length xs)
  unfolding insert
  length-insert x [] = refl
  length-insert x (y ∷ ys) = ground (arith, length-insert x ys)

  pub length-sort : (xs : List A) → length (sort cmp xs) ≡ length xs
  unfolding sort
  length-sort [] = refl
  length-sort (x ∷ xs) = length-insert x (sort cmp xs) ∙ ap suc (length-sort xs)

  pub insert-perm : (x : A) (xs : List A) → Perm (insert cmp x xs) (x ∷ xs)
  unfolding insert
  insert-perm x [] = Perm.refl (x ∷ [])
  insert-perm x (y ∷ ys) = elim (Ordering-cases (cmp x y)) [
    | inl e ↦ rw (e, insert) (Perm.refl (x ∷ y ∷ ys))
    | inr (inl e) ↦ rw (e, insert) (Perm.refl (x ∷ y ∷ ys))
    | inr (inr e) ↦ rw (e, insert) (Perm.trans (Perm.cons y (insert-perm x ys)) (Perm.swap x y ys))
  ]

  pub sort-perm : (xs : List A) → Perm (sort cmp xs) xs
  unfolding sort
  sort-perm [] = Perm.refl []
  sort-perm (x ∷ xs) = Perm.trans (insert-perm x (sort cmp xs)) (Perm.cons x (sort-perm xs))

  module _ {κ} (P : A → Type κ) where
    pub All-insert : (x : A) (xs : List A) → P x → All P xs → All P (insert cmp x xs)
    unfolding insert
    All-insert x [] p h = (p, tt)
    All-insert x (y ∷ ys) p h = elim (Ordering-cases (cmp x y)) [
      | inl e ↦ rw (e, insert) (p, h)
      | inr (inl e) ↦ rw (e, insert) (p, h)
      | inr (inr e) ↦ rw (e, insert) (h.0, All-insert x ys p h.1)
    ]

    pub All-sort : (xs : List A) → All P xs → All P (sort cmp xs)
    unfolding sort
    All-sort [] h = tt
    All-sort (x ∷ xs) h = All-insert x (sort cmp xs) h.0 (All-sort xs h.1)
