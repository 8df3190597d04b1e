-- ===== src/Graph/Ends.antt =====
-- The loop of `validateGraph` ends: a pass takes a node from the queue, and a node enters the queue
-- only when its count falls to 0.
use weft_end.Prelude.{
  ap, List-cases, ℕ, zero, suc, ◌+◌, ◌-◌, ◌≤◌, String, ◌≡◌, refl, false, Option, none, some, List,
  [], ◌∷◌, ◌++◌, length, length-append, arith, str_eq, ltb, ◌==◌, if◌then◌else◌, Bool-cases, inl,
  inr,
}
use weft_end.Text.Table.{Table, get, set}
use weft_end.Sort.{sort, length-sort}
use weft_end.Reasons.{or_default, is_empty}
use weft_end.Graph.{
  graph_errors, topo_order, cmp_error, Node, GraphManifest, GraphResult, cmp_node, wrap, sort_nodes,
  indegrees, ready_nodes, find_node, release_dependents, kahn, validate_graph, adjacency,
  structure_errors, check_order,
}

mark : ℕ → ℕ
mark v = if ltb 0 v then 1 else 0

-- How many counts are above 0.
positives : Table ℕ → ℕ
positives [] = 0
positives ((k, v) ∷ rest) = mark v + positives rest

mark_zero : mark 0 ≡ 0
unfolding mark
mark_zero = refl

mark_less : (v : ℕ) → mark (v - 1) + (if v == 1 then 1 else 0) ≡ mark v
unfolding mark
mark_less v = ground arith

mark_one : (v : ℕ) → mark v ≤ 1
unfolding mark
mark_one v = ground arith

positives_nil : positives [] ≡ 0
unfolding positives
positives_nil = refl

positives-set :
    (t : Table ℕ) (key : String) (v : ℕ)
    → positives (set t key v) + mark (or_default 0 (get t key)) ≡ positives t + mark v
unfolding positives get set
positives-set [] key v = omega (arith, mark_zero)
positives-set ((k, w) ∷ rest) key v = elim (Bool-cases (str_eq k key)) [
  | inl e ↦ rw (e, set, get) (omega arith)
  | inr e ↦ rw (e, set, get) (omega (arith, positives-set rest key v))
]

positives-set_less :
    (t : Table ℕ) (key : String)
    → positives (set t key (or_default 0 (get t key) - 1))
        + (if or_default 0 (get t key) == 1 then 1 else 0)
      ≡ positives t
positives-set_less t key =
    let old = or_default 0 (get t key) in
    omega (arith, positives-set t key (old - 1), mark_less old)

length-find_node : (id : String) (nodes : List (Node × ℕ)) → length (find_node id nodes) ≤ 1
unfolding find_node
length-find_node id [] = omega arith
length-find_node id (n ∷ ns) = ground (arith, length-find_node id ns)

queue_measure :
    (old : ℕ) (queue : List (Node × ℕ)) (d : String) (nodes : List (Node × ℕ))
    → length (if old == 1 then sort cmp_node (queue ++ find_node d nodes) else queue)
      ≤ length queue + (if old == 1 then 1 else 0)
queue_measure old queue d nodes =
    let longer = queue ++ find_node d nodes in
    elim (Bool-cases (old == 1)) [
      | inl e ↦ rw e (
          omega (
            arith,
            length-sort cmp_node longer,
            length-append queue (find_node d nodes),
            length-find_node d nodes,
          ))
      | inr e ↦ rw e (omega arith)
    ]

release_dependents_measure :
    (nodes : List (Node × ℕ)) (ds : List String) (indegree : Table ℕ) (queue : List (Node × ℕ))
    → let next = release_dependents nodes ds indegree queue in
      positives next.0 + length next.1 ≤ positives indegree + length queue
unfolding release_dependents
release_dependents_measure nodes [] indegree queue = omega arith
release_dependents_measure nodes (d ∷ ds) indegree queue =
    let old = or_default 0 (get indegree d) in
    let longer = queue ++ find_node d nodes in
    let entered : List (Node × ℕ) = if old == 1 then sort cmp_node longer else queue in
    let more : length entered ≤ length queue + (if old == 1 then 1 else 0) =
      queue_measure old queue d nodes in
    omega (
      arith,
      release_dependents_measure nodes ds (set indegree d (old - 1)) entered,
      positives-set_less indegree d,
      more,
    )

kahn_ends :
    (fuel : ℕ) (nodes : List (Node × ℕ)) (dependents : Table (List String)) (indegree : Table ℕ)
    (queue : List (Node × ℕ))
    → positives indegree + length queue ≤ fuel
    → (out : List Node × Table ℕ) × (kahn fuel nodes dependents indegree queue ≡ some out)
      × (length out.0 ≤ positives indegree + length queue)
unfolding kahn
kahn_ends fuel nodes dependents indegree [] h = (([], indegree), refl, omega arith)
kahn_ends zero nodes dependents indegree (n ∷ queue) h = absurd (omega arith)
kahn_ends (suc fuel) nodes dependents indegree (n ∷ queue) h =
    let released = or_default [] (get dependents n.0.id) in
    let next = release_dependents nodes released indegree queue in
    let less = release_dependents_measure nodes released indegree queue in
    let (out, e, short) = kahn_ends fuel nodes dependents next.0 next.1 (omega (arith, less)) in
    let passed =
      ap
        (λ o. elim o as (λ _. Option (List Node × Table ℕ)) [
          | none ↦ none
          | some (topo, counts) ↦ some (n.0 ∷ topo, counts)
        ])
        e in
    ((n.0 ∷ out.0, out.1), passed, omega (arith, less, short))

positives-indegrees :
    (ns : List (Node × ℕ)) (t : Table ℕ) → positives (indegrees ns t) ≤ positives t + length ns
unfolding indegrees
positives-indegrees [] t = omega arith
positives-indegrees (n ∷ ns) t =
    let d = length n.0.dependencies in
    omega (arith, positives-indegrees ns (set t n.0.id d), positives-set t n.0.id d, mark_one d)

length-ready_nodes :
    (indegree : Table ℕ) (ns : List (Node × ℕ)) → length (ready_nodes indegree ns) ≤ length ns
unfolding ready_nodes
length-ready_nodes indegree [] = omega arith
length-ready_nodes indegree (n ∷ ns) = ground (arith, length-ready_nodes indegree ns)

length-wrap : (i : ℕ) (ns : List Node) → length (wrap i ns) ≡ length ns
unfolding wrap
length-wrap i [] = refl
length-wrap i (n ∷ ns) = omega (arith, length-wrap (suc i) ns)

pub length-sort_nodes : (ns : List Node) → length (sort_nodes ns) ≡ length ns
unfolding sort_nodes
length-sort_nodes ns = omega (arith, length-sort cmp_node (wrap 0 ns), length-wrap 0 ns)

-- A result that names its errors, or as many nodes as a manifest without errors of structure has.
abbrev pub Ended : GraphManifest → GraphResult → Type 0
Ended m (graph_errors errors) = 1 ≤ length errors
Ended m (topo_order topo) = (structure_errors m ≡ []) × (length topo ≡ length m.nodes)

check_order-Ended :
    (m : GraphManifest) (topo : List Node) (counts : Table ℕ)
    → structure_errors m ≡ []
    → Ended m (check_order (sort_nodes m.nodes) topo counts)
unfolding check_order
check_order-Ended m topo counts clean =
    elim (Bool-cases (length topo == length (sort_nodes m.nodes))) [
      | inl e ↦ rw (e, check_order) (clean, ground (arith, length-sort_nodes m.nodes))
      | inr e ↦ rw (e, check_order) (omega arith)
    ]

pub clean_run :
    (fuel : ℕ) (m : GraphManifest) (out : List Node × Table ℕ)
    → structure_errors m ≡ []
    → kahn fuel
        (wrap 0 m.nodes)
        (adjacency (sort_nodes m.nodes) [])
        (indegrees (sort_nodes m.nodes) [])
        (sort cmp_node (ready_nodes (indegrees (sort_nodes m.nodes) []) (sort_nodes m.nodes)))
      ≡ some out
    → validate_graph fuel m ≡ some (check_order (sort_nodes m.nodes) out.0 out.1)
unfolding validate_graph
clean_run fuel m out clean e =
    rw (clean, validate_graph)
      (ap
        (λ o. elim o as (λ _. Option GraphResult) [
          | none ↦ none
          | some (topo, counts) ↦ some (check_order (sort_nodes m.nodes) topo counts)
        ])
        e)

pub broken_run :
    (fuel : ℕ) (m : GraphManifest)
    → is_empty (structure_errors m) ≡ false
    → validate_graph fuel m ≡ some (graph_errors (sort cmp_error (structure_errors m)))
unfolding validate_graph
broken_run fuel m broken = rw (broken, validate_graph) refl

-- The loop ends from its start.
pub start_ends :
    (m : GraphManifest)
    → (out : List Node × Table ℕ) × (kahn
          (length m.nodes + length m.nodes)
          (wrap 0 m.nodes)
          (adjacency (sort_nodes m.nodes) [])
          (indegrees (sort_nodes m.nodes) [])
          (sort cmp_node (ready_nodes (indegrees (sort_nodes m.nodes) []) (sort_nodes m.nodes)))
        ≡ some out)
start_ends m =
    let sorted = sort_nodes m.nodes in
    let indegree = indegrees sorted [] in
    let ready = ready_nodes indegree sorted in
    let (out, e, short) =
      kahn_ends (length m.nodes + length m.nodes) (wrap 0 m.nodes) (adjacency sorted []) indegree
        (sort cmp_node ready)
        (omega (
          arith,
          positives-indegrees sorted [],
          positives_nil,
          length-sort cmp_node ready,
          length-ready_nodes indegree sorted,
          length-sort_nodes m.nodes,
        )) in
    (out, e)

-- With two passes of its loop for each node `validateGraph` always answers.
pub validate_graph-Ended :
    (m : GraphManifest)
    → (r : GraphResult) × (validate_graph (length m.nodes + length m.nodes) m ≡ some r) × Ended m r
unfolding validate_graph
validate_graph-Ended m = elim (List-cases (structure_errors m)) [
  | inl clean ↦
      let (out, e) = start_ends m in
      (
        check_order (sort_nodes m.nodes) out.0 out.1,
        clean_run (length m.nodes + length m.nodes) m out clean e,
        check_order-Ended m out.0 out.1 clean,
      )
  | inr (first, others, broken) ↦
      let errors = structure_errors m in
      (
        graph_errors (sort cmp_error errors),
        broken_run (length m.nodes + length m.nodes) m (ap is_empty broken),
        omega (arith, length-sort cmp_error errors, ap length broken),
      )
]
