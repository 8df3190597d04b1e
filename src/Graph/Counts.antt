-- ===== src/Graph/Counts.antt =====
-- How often an identifier occurs in the lists and tables of `validateGraph`.
use weft_end.Prelude.{
  ℕ, ◌+◌, String, ◌≡◌, inl, inr, refl, sym, ◌∙◌, ap, Bool, true, false, List, [], ◌∷◌, ◌++◌, length,
  arith, str_eq, eq_iff, if◌then◌else◌, Bool-cases, Ordering-cases,
}
use weft_end.Text.{includes}
use weft_end.Text.Table.{Table, get, set, get-set}
use weft_end.Sort.{sort, insert}
use weft_end.Reasons.{or_default}
use weft_end.Graph.{Dependency, Node, cmp_node, cmp_dependency, add_dependents}

-- How often a string occurs in a list.
unfoldable pub occ : String → List String → ℕ
occ a [] = 0
occ a (x ∷ xs) = (if str_eq x a then 1 else 0) + occ a xs

-- How many of some nodes have an identifier.
unfoldable pub named : String → List (Node × ℕ) → ℕ
named a [] = 0
named a (n ∷ ns) = (if str_eq n.0.id a then 1 else 0) + named a ns

-- How many dependencies name an identifier.
unfoldable pub needs : String → List Dependency → ℕ
needs k [] = 0
needs k (d ∷ ds) = (if str_eq d.id k then 1 else 0) + needs k ds

-- How many dependencies are not among the identifiers that are done.
unfoldable pub undone : List String → List Dependency → ℕ
undone done [] = 0
undone done (d ∷ ds) = (if includes done d.id then 0 else 1) + undone done ds

abbrev pub count_of : Table ℕ → String → ℕ
count_of t a = or_default 0 (get t a)

abbrev pub dependents_of : Table (List String) → String → List String
dependents_of t k = or_default [] (get t k)

pub includes_of_occ : (a : String) (xs : List String) → occ a xs ≡ 0 → includes xs a ≡ false
unfolding occ includes
includes_of_occ a [] h = refl
includes_of_occ a (x ∷ xs) h = ground (arith, includes_of_occ a xs)

pub undone-cons :
    (k : String) (done : List String) (ds : List Dependency)
    → includes done k ≡ false
    → undone (k ∷ done) ds + needs k ds ≡ undone done ds
unfolding undone needs includes
undone-cons k done [] h = refl
undone-cons k done (d ∷ ds) h = elim (Bool-cases (str_eq k d.id)) [
  | inl e ↦
      let p = (eq_iff k d.id).0 e in
      let q : str_eq d.id k ≡ true = (eq_iff d.id k).1 (sym p) in
      let r : includes done d.id ≡ false = ap (includes done) (sym p) ∙ h in
      rw (e, q, r) (omega (arith, undone-cons k done ds h))
  | inr e ↦
      let q : str_eq d.id k ≡ false = ground (arith, eq_iff k d.id, eq_iff d.id k) in
      rw (e, q) (omega (arith, undone-cons k done ds h))
]

pub undone_nil : (ds : List Dependency) → undone [] ds ≡ length ds
unfolding undone includes
undone_nil [] = refl
undone_nil (d ∷ ds) = omega (arith, undone_nil ds)

pub occ-append : (a : String) (xs ys : List String) → occ a (xs ++ ys) ≡ occ a xs + occ a ys
unfolding occ
occ-append a [] ys = omega arith
occ-append a (x ∷ xs) ys = omega (arith, occ-append a xs ys)

pub named-append :
    (a : String) (xs ys : List (Node × ℕ)) → named a (xs ++ ys) ≡ named a xs + named a ys
unfolding named
named-append a [] ys = omega arith
named-append a (x ∷ xs) ys = omega (arith, named-append a xs ys)

named-insert :
    (a : String) (x : Node × ℕ) (xs : List (Node × ℕ))
    → named a (insert cmp_node x xs) ≡ named a (x ∷ xs)
unfolding named insert
named-insert a x [] = refl
named-insert a x (y ∷ ys) = elim (Ordering-cases (cmp_node x y)) [
  | inl e ↦ rw (e, insert) refl
  | inr (inl e) ↦ rw (e, insert) refl
  | inr (inr e) ↦ rw (e, insert) (omega (arith, named-insert a x ys))
]

pub named-sort : (a : String) (xs : List (Node × ℕ)) → named a (sort cmp_node xs) ≡ named a xs
unfolding named sort
named-sort a [] = refl
named-sort a (x ∷ xs) = omega (arith, named-insert a x (sort cmp_node xs), named-sort a xs)

needs-insert :
    (k : String) (x : Dependency) (xs : List Dependency)
    → needs k (insert cmp_dependency x xs) ≡ needs k (x ∷ xs)
unfolding needs insert
needs-insert k x [] = refl
needs-insert k x (y ∷ ys) = elim (Ordering-cases (cmp_dependency x y)) [
  | inl e ↦ rw (e, insert) refl
  | inr (inl e) ↦ rw (e, insert) refl
  | inr (inr e) ↦ rw (e, insert) (omega (arith, needs-insert k x ys))
]

pub needs-sort : (k : String) (xs : List Dependency) → needs k (sort cmp_dependency xs) ≡ needs k xs
unfolding needs sort
needs-sort k [] = refl
needs-sort k (x ∷ xs) = omega (arith, needs-insert k x (sort cmp_dependency xs), needs-sort k xs)

pub count_of-set :
    (t : Table ℕ) (key a : String) (v : ℕ)
    → count_of (set t key v) a ≡ (if str_eq key a then v else count_of t a)
count_of-set t key a v = elim (Bool-cases (str_eq key a)) [
  | inl m ↦ ground (arith, get-set t key a v)
  | inr m ↦ ground (arith, get-set t key a v)
]

pub dependents_of-set :
    (t : Table (List String)) (key k : String) (v : List String)
    → dependents_of (set t key v) k ≡ (if str_eq key k then v else dependents_of t k)
dependents_of-set t key k v = elim (Bool-cases (str_eq key k)) [
  | inl m ↦ ap (or_default []) (get-set t key k v) ∙ rw m refl
  | inr m ↦ ap (or_default []) (get-set t key k v) ∙ rw m refl
]

occ_if :
    (a id : String) (xs : List String)
    → occ a (xs ++ id ∷ []) ≡ occ a xs + (if str_eq id a then 1 else 0)
unfolding occ
occ_if a id xs = omega (arith, occ-append a xs (id ∷ []))

-- An entry for each dependency on `k`, where `a` is the node.
abbrev pub share : String → String → List Dependency → String → ℕ
share id k ds a = if str_eq id a then needs k ds else 0

pub add_dependents-occ :
    (id k a : String) (ds : List Dependency) (t : Table (List String))
    → occ a (dependents_of (add_dependents id ds t) k) ≡ occ a (dependents_of t k) + share id k ds a
unfolding add_dependents needs
add_dependents-occ id k a [] t = ground arith
add_dependents-occ id k a (d ∷ ds) t =
    let longer = dependents_of t d.id ++ id ∷ [] in
    let rest = add_dependents-occ id k a ds (set t d.id longer) in
    let chosen = λ (b : Bool). occ a (if b then longer else dependents_of t k) in
    let base = ap (occ a) (dependents_of-set t d.id k longer) in
    elim (Bool-cases (str_eq d.id k)) [
      | inl m ↦
          let e = base ∙ ap chosen m in
          let f = ap (λ z. occ a (dependents_of t z)) ((eq_iff d.id k).0 m) in
          elim (Bool-cases (str_eq id a)) [
            | inl n ↦ rw (m, n) (ground (arith, rest, e, occ_if a id (dependents_of t d.id), f, n))
            | inr n ↦ rw (m, n) (ground (arith, rest, e, occ_if a id (dependents_of t d.id), f, n))
          ]
      | inr m ↦ let e = base ∙ ap chosen m in rw m (ground (arith, rest, e))
    ]
