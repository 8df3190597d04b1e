-- ===== src/Graph/Whole.antt =====
-- A list of distinct nodes of a manifest that is as long as the manifest holds each of its nodes once.
use mathlib.Core.List.{Perm}
use mathlib.Core.List.Perm
use weft_end.Prelude.{
  ℕ, suc, ◌≤◌, String, ◌≡◌, ◌⊎◌, inl, inr, refl, sym, ◌∙◌, ap, List, [], ◌∷◌, length, map, All,
  arith, subst, eq_refl,
}
use weft_end.Graph.{Node, wrap}
use weft_end.Graph.Counts.{named}
use weft_end.Graph.Start.{Mem, named-Mem}

-- A list is one of its items and the others.
pick :
    (q : Node × ℕ) (ys : List (Node × ℕ))
    → Mem q ys
    → (rest : List (Node × ℕ)) × Perm ys (q ∷ rest)
      × (length ys ≡ suc (length rest))
      × ((x : Node × ℕ) → Mem x ys → (q ≡ x) ⊎ Mem x rest)
pick q [] m = absurd m
pick q (y ∷ ys) (inl p) = (
  ys,
  subst (λ z. Perm (y ∷ ys) (z ∷ ys)) p (Perm.refl (y ∷ ys)),
  refl,
  λ x m. elim m [ inl e ↦ inl (sym p ∙ e) | inr n ↦ inr n ],
)
pick q (y ∷ ys) (inr m) =
    let (rest, same, size, others) = pick q ys m in
    (
      y ∷ rest,
      Perm.trans (Perm.cons y same) (Perm.swap q y rest),
      omega (arith, size),
      λ x n. elim n [
        | inl e ↦ inr (inl e)
        | inr k ↦ elim (others x k) [ inl e ↦ inl e | inr l ↦ inr (inr l) ]
      ],
    )

-- The nodes behind the first one are not the first one, where no identifier occurs twice.
not_first :
    (x z : Node × ℕ) (xs : List (Node × ℕ))
    → ((a : String) → named a (x ∷ xs) ≤ 1)
    → Mem z xs
    → x ≡ z
    → ⊥
unfolding named
not_first x z xs once m e =
    let self = eq_refl x.0.id in
    let here = named-Mem x xs (subst (λ y. Mem y xs) (sym e) m) in
    let o = once x.0.id in ground (arith, self, here, o)

pub distinct-Perm :
    (xs ys : List (Node × ℕ))
    → ((z : Node × ℕ) → Mem z xs → Mem z ys)
    → ((a : String) → named a xs ≤ 1)
    → length xs ≡ length ys
    → Perm xs ys
unfolding named
distinct-Perm [] [] within once h = Perm.refl []
distinct-Perm [] (y ∷ ys) within once h = absurd (omega (arith, h))
distinct-Perm (x ∷ xs) ys within once h =
    let (rest, same, size, others) = pick x ys (within x (inl refl)) in
    let tail =
      distinct-Perm xs rest
        (λ z m. elim (others z (within z (inr m))) [
          | inl e ↦ absurd (not_first x z xs once m e)
          | inr n ↦ n
        ])
        (λ a. let o = once a in omega (arith, o)) (omega (arith, h, size)) in
    Perm.trans (Perm.cons x tail) (Perm.symm same)

pub All-Mem :
    (xs ys : List (Node × ℕ)) → All (λ q. Mem q ys) xs → (z : Node × ℕ) → Mem z xs → Mem z ys
All-Mem [] ys h z m = absurd m
All-Mem (x ∷ xs) ys h z (inl e) = subst (λ y. Mem y ys) e h.0
All-Mem (x ∷ xs) ys h z (inr m) = All-Mem xs ys h.1 z m

pub map-wrap : (i : ℕ) (ns : List Node) → map (λ q. q.0) (wrap i ns) ≡ ns
unfolding wrap
map-wrap i [] = refl
map-wrap i (n ∷ ns) = ap (λ ms. n ∷ ms) (map-wrap (suc i) ns)

pub length-map_node : (qs : List (Node × ℕ)) → length (map (λ q. q.0) qs) ≡ length qs
length-map_node [] = refl
length-map_node (q ∷ qs) = omega (arith, length-map_node qs)
