-- ===== src/Graph/Start.antt =====
-- The counts with which the loop of `validateGraph` starts.
use weft_end.Prelude.{
  ℕ, zero, suc, ◌+◌, ◌≤◌, String, ◌≡◌, ◌⊎◌, inl, inr, refl, ◌∙◌, ap, Bool, true, false, List, [],
  ◌∷◌, length, All, arith, str_eq, eq_iff, if◌then◌else◌, Bool-cases, ◌==◌, Ordering-cases,
}
use weft_end.Text.Table.{Table, get, set}
use weft_end.Sort.{sort, insert}
use weft_end.Graph.{
  Node, cmp_node, sort_dependencies, adjacency, indegrees, ready_nodes, find_node, add_dependents,
  cmp_dependency,
}
use weft_end.Graph.Counts.{
  occ, named, needs, count_of, dependents_of, share, count_of-set, add_dependents-occ, needs-sort,
}

-- A node is in a list.
abbrev pub Mem : Node × ℕ → List (Node × ℕ) → Type 0
Mem q [] = ⊥
Mem q (n ∷ ns) = (n ≡ q) ⊎ Mem q ns

Mem-later :
    (q n m : Node × ℕ) (ms : List (Node × ℕ))
    → Mem q (n ∷ m ∷ ms)
    → (Mem q (n ∷ ms) → Mem q (insert cmp_node n ms))
    → (m ≡ q) ⊎ Mem q (insert cmp_node n ms)
Mem-later q n m ms (inl p) enter = inr (enter (inl p))
Mem-later q n m ms (inr (inl p)) enter = inl p
Mem-later q n m ms (inr (inr p)) enter = inr (enter (inr p))

Mem-insert : (q n : Node × ℕ) (ns : List (Node × ℕ)) → Mem q (n ∷ ns) → Mem q (insert cmp_node n ns)
unfolding insert
Mem-insert q n [] h = h
Mem-insert q n (m ∷ ms) h = elim (Ordering-cases (cmp_node n m)) [
  | inl e ↦ rw (e, insert) h
  | inr (inl e) ↦ rw (e, insert) h
  | inr (inr e) ↦ rw (e, insert) (Mem-later q n m ms h (Mem-insert q n ms))
]

pub Mem-sort : (q : Node × ℕ) (ns : List (Node × ℕ)) → Mem q ns → Mem q (sort cmp_node ns)
unfolding sort
Mem-sort q [] h = h
Mem-sort q (n ∷ ns) (inl p) = Mem-insert q n (sort cmp_node ns) (inl p)
Mem-sort q (n ∷ ns) (inr h) = Mem-insert q n (sort cmp_node ns) (inr (Mem-sort q ns h))

pub named-Mem : (q : Node × ℕ) (ns : List (Node × ℕ)) → Mem q ns → 1 ≤ named q.0.id ns
unfolding named
named-Mem q [] h = absurd h
named-Mem q (n ∷ ns) (inl p) =
    let e : str_eq n.0.id q.0.id ≡ true = (eq_iff n.0.id q.0.id).1 (ap (λ z. z.0.id) p) in
    rw e (omega arith)
named-Mem q (n ∷ ns) (inr h) = omega (arith, named-Mem q ns h)

pub find_node-Mem :
    (id : String) (ns : List (Node × ℕ)) (all : List (Node × ℕ))
    → ((q : Node × ℕ) → Mem q ns → Mem q all)
    → All (λ q. Mem q all) (find_node id ns)
unfolding find_node
find_node-Mem id [] all h = tt
find_node-Mem id (n ∷ ns) all h = elim (Bool-cases (str_eq n.0.id id)) [
  | inl e ↦ rw (e, find_node) (h n (inl refl), tt)
  | inr e ↦ rw (e, find_node) (find_node-Mem id ns all (λ q m. h q (inr m)))
]

pub named-find_node :
    (id a : String) (ns : List (Node × ℕ))
    → named a (find_node id ns) ≤ (if str_eq id a then 1 else 0)
unfolding find_node named
named-find_node id a [] = omega arith
named-find_node id a (n ∷ ns) = elim (Bool-cases (str_eq n.0.id id)) [
  | inl e ↦
      let one = λ (z : String). if str_eq z a then suc zero else zero in
      let p = ap one ((eq_iff n.0.id id).0 e) in rw (e, find_node) (omega (arith, p))
  | inr e ↦ rw (e, find_node) (named-find_node id a ns)
]

-- The entries that all nodes of a list leave.
shares : String → String → List (Node × ℕ) → ℕ
shares k a [] = 0
shares k a (n ∷ ns) = share n.0.id k n.0.dependencies a + shares k a ns

adjacency-occ :
    (k a : String) (ns : List (Node × ℕ)) (t : Table (List String))
    → occ a (dependents_of (adjacency ns t) k) ≡ occ a (dependents_of t k) + shares k a ns
unfolding adjacency shares sort_dependencies
adjacency-occ k a [] t = omega arith
adjacency-occ k a (n ∷ ns) t =
    let deps = n.0.dependencies in
    let part = λ (z : ℕ). if str_eq n.0.id a then z else zero in
    omega (
      arith,
      adjacency-occ k a ns (add_dependents n.0.id (sort cmp_dependency deps) t),
      add_dependents-occ n.0.id k a (sort cmp_dependency deps) t,
      ap part (needs-sort k deps),
    )

shares_none : (k a : String) (ns : List (Node × ℕ)) → named a ns ≡ 0 → shares k a ns ≡ 0
unfolding shares named
shares_none k a [] h = refl
shares_none k a (n ∷ ns) h = ground (arith, shares_none k a ns)

shares_one :
    (k : String) (x : Node × ℕ) (ns : List (Node × ℕ))
    → named x.0.id ns ≤ 1
    → Mem x ns
    → shares k x.0.id ns ≡ needs k x.0.dependencies
unfolding shares named
shares_one k x [] h m = absurd m
shares_one k x (n ∷ ns) h (inl p) =
    let e : str_eq n.0.id x.0.id ≡ true = (eq_iff n.0.id x.0.id).1 (ap (λ z. z.0.id) p) in
    let d = ap (λ z. needs k z.0.dependencies) p in
    let none : named x.0.id ns ≡ 0 = ground (arith, e) in
    let less = shares_none k x.0.id ns none in rw e (omega (arith, d, less))
shares_one k x (n ∷ ns) h (inr m) =
    let some = named-Mem x ns m in
    let e : str_eq n.0.id x.0.id ≡ false = ground (arith, some) in
    rw e (omega (arith, shares_one k x ns (omega (arith, h)) m))

indegrees_none :
    (a : String) (ns : List (Node × ℕ)) (t : Table ℕ)
    → named a ns ≡ 0
    → count_of (indegrees ns t) a ≡ count_of t a
unfolding indegrees named
indegrees_none a [] t h = refl
indegrees_none a (n ∷ ns) t h =
    let d = length n.0.dependencies in
    let e : str_eq n.0.id a ≡ false = ground arith in
    let pick = λ (b : Bool). if b then d else count_of t a in
    indegrees_none a ns (set t n.0.id d) (ground arith) ∙ (count_of-set t n.0.id a d ∙ ap pick e)

pub indegrees_one :
    (x : Node × ℕ) (ns : List (Node × ℕ)) (t : Table ℕ)
    → named x.0.id ns ≤ 1
    → Mem x ns
    → count_of (indegrees ns t) x.0.id ≡ length x.0.dependencies
unfolding indegrees named
indegrees_one x [] t h m = absurd m
indegrees_one x (n ∷ ns) t h (inl p) =
    let d = length n.0.dependencies in
    let e : str_eq n.0.id x.0.id ≡ true = (eq_iff n.0.id x.0.id).1 (ap (λ z. z.0.id) p) in
    let pick = λ (b : Bool). if b then d else count_of t x.0.id in
    indegrees_none x.0.id ns (set t n.0.id d) (ground (arith, e))
    ∙ (count_of-set t n.0.id x.0.id d ∙ (ap pick e ∙ ap (λ z. length z.0.dependencies) p))
indegrees_one x (n ∷ ns) t h (inr m) =
    indegrees_one x ns (set t n.0.id (length n.0.dependencies)) (omega (arith, h)) m

-- Each node stands under its dependencies as often as it names them.
pub adjacency-needs :
    (k : String) (x : Node × ℕ) (ns : List (Node × ℕ))
    → named x.0.id ns ≤ 1
    → Mem x ns
    → occ x.0.id (dependents_of (adjacency ns []) k) ≡ needs k x.0.dependencies
adjacency-needs k x ns h m =
    let empty : occ x.0.id (dependents_of [] k) ≡ 0 = unfold occ get in refl in
    omega (arith, empty, adjacency-occ k x.0.id ns [], shares_one k x ns h m)

pub ready_nodes-Mem :
    (t : Table ℕ) (ns all : List (Node × ℕ))
    → ((q : Node × ℕ) → Mem q ns → Mem q all)
    → All (λ q. Mem q all) (ready_nodes t ns)
unfolding ready_nodes
ready_nodes-Mem t [] all h = tt
ready_nodes-Mem t (n ∷ ns) all h =
    let rest = ready_nodes-Mem t ns all (λ q m. h q (inr m)) in
    elim (Bool-cases (count_of t n.0.id == 0)) [
      | inl e ↦ rw (e, ready_nodes) (h n (inl refl), rest)
      | inr e ↦ rw (e, ready_nodes) rest
    ]

pub named-ready_nodes :
    (t : Table ℕ) (a : String) (ns : List (Node × ℕ))
    → (named a (ready_nodes t ns) ≤ named a ns)
      × (1 ≤ named a (ready_nodes t ns) → count_of t a ≡ 0)
unfolding ready_nodes named
named-ready_nodes t a [] = (omega arith, λ h. absurd (omega arith))
named-ready_nodes t a (n ∷ ns) =
    let (less, zeros) = named-ready_nodes t a ns in
    elim (Bool-cases (count_of t n.0.id == 0)) [
      | inl e ↦
          rw (e, ready_nodes, named)
            (
              omega (arith, less),
              λ h. elim (Bool-cases (str_eq n.0.id a)) [
                | inl m ↦ let p = ap (count_of t) ((eq_iff n.0.id a).0 m) in ground (arith, p)
                | inr m ↦ zeros (ground (arith, m))
              ],
            )
      | inr e ↦ rw (e, ready_nodes) (omega (arith, less), zeros)
    ]
