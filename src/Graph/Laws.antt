-- ===== src/Graph/Laws.antt =====
-- What an order that `validateGraph` answers says of the graph.
use mathlib.Core.List.{Perm}
use mathlib.Core.List.Perm
use weft_end.Prelude.{
  map, ℕ, ◌+◌, ◌≤◌, ◌≡◌, inl, inr, sym, ◌∙◌, ap, some, List, [], length, List-cases, arith, subst,
  some_injective,
}
use weft_end.Text.Table.{Table}
use weft_end.Sort.{sort, All-sort, sort-perm}
use weft_end.Reasons.{is_empty}
use weft_end.Graph.{
  kahn, GraphError, Node, GraphManifest, GraphResult, topo_order, graph_errors, cmp_node, wrap,
  sort_nodes, structure_errors, indegrees, adjacency, ready_nodes, check_order, validate_graph,
}
use weft_end.Graph.Counts.{occ, undone_nil, named-sort}
use weft_end.Graph.Start.{
  Mem, Mem-sort, indegrees_one, adjacency-needs, ready_nodes-Mem, named-ready_nodes,
}
use weft_end.Graph.Order.{InOrder, Drawn, kahn-InOrder}
use weft_end.Graph.Unique.{clean_once}
use weft_end.Graph.Whole.{distinct-Perm, All-Mem, map-wrap, length-map_node}
use weft_end.Graph.Ends.{
  clean_run, broken_run, start_ends, length-sort_nodes, Ended, validate_graph-Ended,
}

clean_order :
    (m : GraphManifest) (out : List Node × Table ℕ)
    → structure_errors m ≡ []
    → kahn
        (length m.nodes + length m.nodes)
        (wrap 0 m.nodes)
        (adjacency (sort_nodes m.nodes) [])
        (indegrees (sort_nodes m.nodes) [])
        (sort cmp_node (ready_nodes (indegrees (sort_nodes m.nodes) []) (sort_nodes m.nodes)))
      ≡ some out
    → InOrder [] out.0 × Drawn (sort_nodes m.nodes) [] out.0
unfolding occ
clean_order m out clean e =
    let sorted = sort_nodes m.nodes in
    let counts = indegrees sorted [] in
    let ready = ready_nodes counts sorted in
    kahn-InOrder sorted (wrap 0 m.nodes) (λ q h. unfold sort_nodes in Mem-sort q (wrap 0 m.nodes) h)
      (adjacency sorted []) (λ k x h. adjacency-needs k x sorted (clean_once m x.0.id clean) h)
      (length m.nodes + length m.nodes) [] counts (sort cmp_node ready) out
      (
        λ x h. omega (
          arith,
          undone_nil x.0.dependencies,
          indegrees_one x sorted [] (clean_once m x.0.id clean) h,
        ),
        λ a h. (named-ready_nodes counts a sorted).1 (omega (arith, named-sort a ready, h)),
        λ a.
            let less = (named-ready_nodes counts a sorted).0 in
            omega (arith, named-sort a ready, less, clean_once m a clean),
        All-sort cmp_node (λ q. Mem q sorted) ready
            (ready_nodes-Mem counts sorted sorted (λ q h. h)),
      )
      e

errors_are_no_order :
    (errors : List GraphError) (order : List Node) → graph_errors errors ≡ topo_order order → ⊥
errors_are_no_order errors order h = cc

check_order_topo :
    (sorted : List (Node × ℕ)) (topo order : List Node) (counts : Table ℕ)
    → check_order sorted topo counts ≡ topo_order order
    → (topo ≡ order) × (length topo ≡ length sorted)
unfolding check_order
check_order_topo sorted topo order counts h = ground arith

-- The nodes that are drawn are all nodes of the manifest where they are as many.
drawn_whole :
    (m : GraphManifest) (topo : List Node)
    → structure_errors m ≡ []
    → Drawn (sort_nodes m.nodes) [] topo
    → length topo ≡ length m.nodes
    → Perm topo m.nodes
unfolding sort_nodes occ
drawn_whole m topo clean (drawn, same, inside, once) size =
    let sorted = sort_nodes m.nodes in
    let whole =
      distinct-Perm drawn sorted (All-Mem drawn sorted inside)
        (λ a. let o = once a in omega (arith, o))
        (omega (arith, ap length same, length-map_node drawn, size, length-sort_nodes m.nodes)) in
    let all = Perm.map (λ q. q.0) (Perm.trans whole (sort-perm cmp_node (wrap 0 m.nodes))) in
    subst (λ t. Perm topo t) (map-wrap 0 m.nodes)
      (subst (λ t. Perm t (map (λ q. q.0) (wrap 0 m.nodes))) same all)

run_topo :
    (m : GraphManifest) (order : List Node)
    → structure_errors m ≡ []
    → validate_graph (length m.nodes + length m.nodes) m ≡ some (topo_order order)
    → InOrder [] order × Perm order m.nodes
run_topo m order clean h =
    let (out, e) = start_ends m in
    let run = clean_run (length m.nodes + length m.nodes) m out clean e in
    let (same, all) =
      check_order_topo (sort_nodes m.nodes) out.0 order out.1 (some_injective (sym run ∙ h)) in
    let (sound, drawn) = clean_order m out clean e in
    let size : length out.0 ≡ length m.nodes = omega (arith, all, length-sort_nodes m.nodes) in
    (
      subst (InOrder []) same sound,
      subst (λ t. Perm t m.nodes) same (drawn_whole m out.0 clean drawn size),
    )

-- In an order that `validateGraph` answers, within two passes of its loop for each node, each node
-- comes after all nodes that it depends on, and the order is a permutation of the manifest's nodes:
-- no node is missing, foreign or there twice.
pub validate_graph-InOrder :
    (m : GraphManifest) (order : List Node)
    → validate_graph (length m.nodes + length m.nodes) m ≡ some (topo_order order)
    → InOrder [] order × Perm order m.nodes
validate_graph-InOrder m order h = elim (List-cases (structure_errors m)) [
  | inl clean ↦ run_topo m order clean h
  | inr (first, others, broken) ↦
      let run = broken_run (length m.nodes + length m.nodes) m (ap is_empty broken) in
      absurd (errors_are_no_order _ order (some_injective (sym run ∙ h)))
]

-- A result that names its errors, or a permutation of the nodes of a manifest without errors of
-- structure, in which each node comes after its dependencies.
abbrev pub Closes : GraphManifest → GraphResult → Type 0
Closes m (graph_errors errors) = 1 ≤ length errors
Closes m (topo_order topo) = (structure_errors m ≡ []) × InOrder [] topo × Perm topo m.nodes

check_order-Closes :
    (m : GraphManifest) (r : GraphResult)
    → Ended m r
    → validate_graph (length m.nodes + length m.nodes) m ≡ some r
    → Closes m r
check_order-Closes m (graph_errors errors) h e = h
check_order-Closes m (topo_order topo) h e =
    let (sound, whole) = validate_graph-InOrder m topo e in (h.0, sound, whole)

-- With two passes of its loop for each node `validateGraph` always answers. It answers either at
-- least one error, or an order, and this only for a manifest with a root, without duplicate and
-- without dangling dependencies: the order is a permutation of the manifest's nodes in which each
-- node comes after the nodes that it depends on.
pub validate_graph-Closes :
    (m : GraphManifest)
    → (r : GraphResult) × (validate_graph (length m.nodes + length m.nodes) m ≡ some r) × Closes m r
validate_graph-Closes m =
    let (r, e, ended) = validate_graph-Ended m in (r, e, check_order-Closes m r ended e)
