-- ===== src/Graph/Order.antt =====
-- The order that `validateGraph` answers: each node comes after its dependencies.
use weft_end.Prelude.{
  ℕ, zero, suc, ◌+◌, ◌-◌, ◌≤◌, String, ◌≡◌, ◌⊎◌, inl, inr, refl, sym, ◌∙◌, ap, Bool, false, Option,
  none, some, List, [], ◌∷◌, ◌++◌, All, map, All-append, arith, str_eq, eq_iff, eq_refl,
  if◌then◌else◌, Bool-cases, Option-cases, ◌==◌, subst, some_injective, none_is_not_some,
}
use weft_end.Text.Table.{Table, set}
use weft_end.Sort.{sort, All-sort}
use weft_end.Graph.{Node, cmp_node, find_node, release_dependents, kahn}
use weft_end.Graph.Counts.{
  occ, named, needs, undone, count_of, dependents_of, count_of-set, includes_of_occ, undone-cons,
  named-append, named-sort,
}
use weft_end.Graph.Start.{Mem, named-Mem, find_node-Mem, named-find_node}

-- Each node's dependencies are among what is done before it.
abbrev pub InOrder : List String → List Node → Type 0
InOrder done [] = Unit
InOrder done (n ∷ ns) = (undone done n.dependencies ≡ 0) × InOrder (n.id ∷ done) ns

-- The nodes that an order lists, with their indexes: they are of the list, and no identifier occurs
-- twice among them and what is done.
abbrev pub Drawn : List (Node × ℕ) → List String → List Node → Type 0
Drawn ns done topo =
    (drawn : List (Node × ℕ)) × (map (λ q. q.0) drawn ≡ topo)
    × All (λ q. Mem q ns) drawn
    × ((a : String) → named a drawn + occ a done ≤ 1)

-- What holds of the counts and the queue while the dependents `ds` are still to be released:
-- a count is never below what a node waits for; what is queued or done has the count 0, and
-- is it once; the queue holds nodes of the list.
abbrev Holds : List (Node × ℕ) → List String → List String → Table ℕ → List (Node × ℕ) → Type 0
Holds ns done ds indegree queue =
    ((x : Node × ℕ)
      → Mem x ns
      → undone done x.0.dependencies + occ x.0.id ds ≤ count_of indegree x.0.id)
    × ((a : String) → 1 ≤ named a queue + occ a done → count_of indegree a ≡ 0)
    × ((a : String) → named a queue + occ a done ≤ 1)
    × All (λ q. Mem q ns) queue

module _ (ns nodes : List (Node × ℕ)) (part : (q : Node × ℕ) → Mem q nodes → Mem q ns) where
  count_step :
      (indegree : Table ℕ) (d a : String)
      → (count_of (set indegree d (count_of indegree d - 1)) a ≡ count_of indegree a - 1) × (d ≡ a)
        ⊎ (count_of (set indegree d (count_of indegree d - 1)) a ≡ count_of indegree a)
          × (str_eq d a ≡ false)
  count_step indegree d a =
      let v = count_of indegree d - 1 in
      let pick = λ (b : Bool). if b then v else count_of indegree a in
      let s = count_of-set indegree d a v in
      elim (Bool-cases (str_eq d a)) [
        | inl m ↦
            let p = (eq_iff d a).0 m in
            inl (s ∙ (ap pick m ∙ ap (λ z. count_of indegree z - 1) p), p)
        | inr m ↦ inr (s ∙ ap pick m, m)
      ]

  waits_step :
      (done : List String) (d : String) (ds : List String) (indegree : Table ℕ)
      → ((x : Node × ℕ)
          → Mem x ns
          → undone done x.0.dependencies + occ x.0.id (d ∷ ds) ≤ count_of indegree x.0.id)
      → (x : Node × ℕ) → Mem x ns
      → undone done x.0.dependencies + occ x.0.id ds
        ≤ count_of (set indegree d (count_of indegree d - 1)) x.0.id
  unfolding occ
  waits_step done d ds indegree waits x m = elim (count_step indegree d x.0.id) [
    | inl (s, p) ↦ let t = (eq_iff d x.0.id).1 p in let w = waits x m in ground (arith, s, t, w)
    | inr (s, f) ↦ let w = waits x m in ground (arith, s, f, w)
  ]

  entered :
      (queue : List (Node × ℕ)) (d a : String)
      → named a (sort cmp_node (queue ++ find_node d nodes))
        ≤ named a queue + (if str_eq d a then 1 else 0)
  entered queue d a = omega (
    arith,
    named-sort a (queue ++ find_node d nodes),
    named-append a queue (find_node d nodes),
    named-find_node d a nodes,
  )

  release_one :
      (done : List String) (d : String) (ds : List String) (indegree : Table ℕ)
      (queue : List (Node × ℕ))
      → Holds ns done (d ∷ ds) indegree queue
      → let old = count_of indegree d in
        Holds ns done ds
          (set indegree d (old - 1))
          (if old == 1 then sort cmp_node (queue ++ find_node d nodes) else queue)
  release_one done d ds indegree queue (waits, zeros, once, inside) =
      elim (Bool-cases (count_of indegree d == 1)) [
        | inl e ↦ rw e (
          waits_step done d ds indegree waits,
          λ a m. elim (count_step indegree d a) [
            | inl (s, p) ↦ let q = ap (count_of indegree) p in ground (arith, q)
            | inr (s, f) ↦
                let z = zeros a (ground (arith, entered queue d a)) in omega (arith, s, z)
          ],
          λ a. elim (count_step indegree d a) [
            | inl (s, p) ↦
                let q = ap (count_of indegree) p in
                ground (arith, q, entered queue d a, zeros a, eq_iff d a)
            | inr (s, f) ↦ ground (arith, once a, entered queue d a)
          ],
          All-sort cmp_node (λ q. Mem q ns) (queue ++ find_node d nodes)
              (All-append (λ q. Mem q ns) queue (find_node d nodes) inside
                (find_node-Mem d nodes ns part)),
        )
        | inr e ↦ rw e (
          waits_step done d ds indegree waits,
          λ a m. elim (count_step indegree d a) [
            | inl (s, p) ↦ let z = zeros a m in omega (arith, s, z)
            | inr (s, f) ↦ let z = zeros a m in omega (arith, s, z)
          ],
          once,
          inside,
        )
      ]

  release_Holds :
      (done ds : List String) (indegree : Table ℕ) (queue : List (Node × ℕ))
      → Holds ns done ds indegree queue
      → let next = release_dependents nodes ds indegree queue in Holds ns done [] next.0 next.1
  unfolding release_dependents
  release_Holds done [] indegree queue h = h
  release_Holds done (d ∷ ds) indegree queue h =
      release_Holds done ds _ _ (release_one done d ds indegree queue h)

  -- Taking a node from the queue.
  taken :
      (done : List String) (indegree : Table ℕ) (n : Node × ℕ) (queue : List (Node × ℕ))
      (ds : List String)
      → ((x : Node × ℕ) → Mem x ns → occ x.0.id ds ≡ needs n.0.id x.0.dependencies)
      → Holds ns done [] indegree (n ∷ queue)
      → (undone done n.0.dependencies ≡ 0) × Holds ns (n.0.id ∷ done) ds indegree queue
  unfolding named occ
  taken done indegree n queue ds wants (waits, zeros, once, inside) =
      let self = eq_refl n.0.id in
      let here = named-Mem n (n ∷ queue) (inl refl) in
      let z = zeros n.0.id (ground (arith, self)) in
      let w = waits n inside.0 in
      let alone = once n.0.id in
      let fresh = includes_of_occ n.0.id done (ground (arith, self)) in
      (
        omega (arith, z, w),
        (
          λ x m.
              let v = waits x m in
              omega (arith, undone-cons n.0.id done x.0.dependencies fresh, wants x m, v),
          λ a k. zeros a (omega (arith, k)),
          λ a. let o = once a in omega (arith, o),
          inside.1,
        ),
      )

  draw :
      (done : List String) (n : Node × ℕ) (topo : List Node)
      → Mem n ns
      → Drawn ns (n.0.id ∷ done) topo
      → Drawn ns done (n.0 ∷ topo)
  unfolding named occ
  draw done n topo m (drawn, same, inside, once) =
      (n ∷ drawn, ap (λ t. n.0 ∷ t) same, (m, inside), λ a. let o = once a in omega (arith, o))

  module _ (dependents : Table (List String))
      (wants : (k : String) (x : Node × ℕ)
        → Mem x ns
        → occ x.0.id (dependents_of dependents k) ≡ needs k x.0.dependencies) where
    pub kahn-InOrder :
        (fuel : ℕ) (done : List String) (indegree : Table ℕ) (queue : List (Node × ℕ))
        (out : List Node × Table ℕ)
        → Holds ns done [] indegree queue
        → kahn fuel nodes dependents indegree queue ≡ some out
        → InOrder done out.0 × Drawn ns done out.0
    unfolding kahn named
    kahn-InOrder fuel done indegree [] out (waits, zeros, once, inside) e =
        subst (λ o. InOrder done o.0 × Drawn ns done o.0) (some_injective e)
          (tt, ([], refl, tt, once))
    kahn-InOrder zero done indegree (n ∷ queue) out h e = cc
    kahn-InOrder (suc fuel) done indegree (n ∷ queue) out h e =
        let ds = dependents_of dependents n.0.id in
        let (free, held) = taken done indegree n queue ds (wants n.0.id) h in
        let next = release_dependents nodes ds indegree queue in
        let after = release_Holds (n.0.id ∷ done) ds indegree queue held in
        let pass = λ (o : Option (List Node × Table ℕ)).
          elim o as (λ _. Option (List Node × Table ℕ)) [
            | none ↦ none
            | some (topo, counts) ↦ some (n.0 ∷ topo, counts)
          ] in
        elim (Option-cases (kahn fuel nodes dependents next.0 next.1)) [
          | inl k ↦ absurd (none_is_not_some (sym (ap pass k) ∙ e))
          | inr (rest, k) ↦
              let (order, drawn) = kahn-InOrder fuel (n.0.id ∷ done) next.0 next.1 rest after k in
              let (_, _, _, (here, _)) = h in
              subst (λ o. InOrder done o.0 × Drawn ns done o.0)
                (some_injective (sym (ap pass k) ∙ e))
                ((free, order), draw done n rest.0 here drawn)
        ]
