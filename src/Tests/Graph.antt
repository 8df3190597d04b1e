-- ===== src/Tests/Graph.antt =====
-- The graph of a manifest.
use mathlib.Core.List.{Perm}
use weft_end.Prelude.{String, ◌≡◌, refl, some, none, [], ◌∷◌, true}
use weft_end.Text.{cmp_str}
use weft_end.Text.Table.{get, set}
use weft_end.Sort.{sort}
use weft_end.Graph.{
  Node, Dependency, GraphManifest, GraphResult, topo_order, graph_errors, cycle_detected,
  validate_graph, cmp_node, cmp_dependency, sort_dependencies, wrap, group_nodes, nodes_by_id,
  root_errors, duplicate_errors, dangling_of, dangling_errors, sort_nodes, adjacency, indegrees,
  ready_nodes, waiting_nodes, release_dependents, kahn, check_order, structure_errors,
}
use weft_end.Graph.Order.{InOrder}
use weft_end.Graph.Laws.{validate_graph-InOrder, validate_graph-Closes, Closes}

abbrev dep : String → Dependency
dep id = record { id = id; role = "uses"; required = true }

abbrev page : Node
page = record { id = "page"; dependencies = dep "style" ∷ dep "block" ∷ [] }

abbrev block : Node
block = record { id = "block"; dependencies = dep "style" ∷ [] }

abbrev style : Node
style = record { id = "style"; dependencies = [] }

abbrev manifest : GraphManifest
manifest = record { root_page_id = "page"; nodes = page ∷ block ∷ style ∷ [] }

ordered : validate_graph 6 manifest ≡ some (topo_order (style ∷ block ∷ page ∷ []))
unfolding validate_graph structure_errors root_errors nodes_by_id group_nodes duplicate_errors
    dangling_errors dangling_of sort_nodes sort_dependencies cmp_node cmp_dependency cmp_str wrap
    adjacency indegrees ready_nodes release_dependents kahn check_order get set sort
ordered = refl

abbrev circle : GraphManifest
circle = record {
  root_page_id = "page";
  nodes = page ∷ style ∷ record { id = "block"; dependencies = dep "page" ∷ [] } ∷ [];
}

cyclic :
    validate_graph 6 circle
    ≡ some
        (graph_errors (record { code = cycle_detected; node_id = some "block"; path = none } ∷ []))
unfolding validate_graph structure_errors root_errors nodes_by_id group_nodes duplicate_errors
    dangling_errors dangling_of sort_nodes sort_dependencies cmp_node cmp_dependency cmp_str wrap
    adjacency indegrees ready_nodes waiting_nodes release_dependents kahn check_order get set sort
cyclic = refl

validate_graph-Closes_example :
    (r : GraphResult) × (validate_graph 6 manifest ≡ some r) × Closes manifest r
validate_graph-Closes_example = validate_graph-Closes manifest

validate_graph-InOrder_example :
    InOrder [] (style ∷ block ∷ page ∷ [])
    × Perm (style ∷ block ∷ page ∷ []) (page ∷ block ∷ style ∷ [])
validate_graph-InOrder_example = validate_graph-InOrder manifest (style ∷ block ∷ page ∷ []) ordered
