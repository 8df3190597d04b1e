-- ===== src/Graph.antt =====
-- src/engine/graph.ts: `validateGraph`, with `sortDependencies` of src/core/canon.ts. A node keeps its
-- identifier and its dependencies, the fields that the function reads; the nodes of a manifest are
-- distinct objects, so that `indexOf` finds the index of a node. `kahn` is the loop, on fuel.
pub mod Ends
pub mod Counts
pub mod Start
pub mod Order
pub mod Whole
pub mod Unique
pub mod Laws
use Prim.Native.String.{then as or_else}
use weft_end.Prelude.{
  ℕ, zero, suc, ◌-◌, Ordering, String, Bool, true, false, not, Option, none, some, List, [], ◌∷◌,
  ◌++◌, length, ltb, ◌==◌, str_eq, if◌then◌else◌,
}
use weft_end.Text.{cmp_str, includes}
use weft_end.Text.Table.{Table, get, set}
use weft_end.Text.Join.{concat}
use weft_end.Text.Decimal.{decimal}
use weft_end.Sort.{sort}
use weft_end.Reasons.{or_default, is_empty, is_none}

pub record Dependency : Type 0 where
  pub id : String
  pub role : String
  pub required : Bool

pub record Node : Type 0 where
  pub id : String
  pub dependencies : List Dependency

pub record GraphManifest : Type 0 where
  pub root_page_id : String
  pub nodes : List Node

-- The codes that `validateGraph` gives.
pub data GraphErrorCode : Type 0 where
  cycle_detected dangling_dependency duplicate_node missing_root : GraphErrorCode

pub record GraphError : Type 0 where
  pub code : GraphErrorCode
  pub node_id : Option String
  pub path : Option String

-- `Result<GraphCheckResult, GraphError[]>`: the order of the nodes, or the errors.
pub data GraphResult : Type 0 where
  topo_order : List Node → GraphResult
  graph_errors : List GraphError → GraphResult

abbrev code_name : GraphErrorCode → String
code_name cycle_detected = "CYCLE_DETECTED"
code_name dangling_dependency = "DANGLING_DEPENDENCY"
code_name duplicate_node = "DUPLICATE_NODE"
code_name missing_root = "MISSING_ROOT"

-- The comparators; `sort` is stable, which is what the indexes of `wrap` are for.
unfoldable pub cmp_dependency : Dependency → Dependency → Ordering
cmp_dependency a b = or_else (cmp_str a.id b.id) (cmp_str a.role b.role)

unfoldable pub cmp_node : Node × ℕ → Node × ℕ → Ordering
cmp_node a b = cmp_str a.0.id b.0.id

unfoldable pub cmp_error : GraphError → GraphError → Ordering
cmp_error a b = or_else (cmp_str (code_name a.code) (code_name b.code)) (
    or_else (cmp_str (or_default "" a.node_id) (or_default "" b.node_id))
      (cmp_str (or_default "" a.path) (or_default "" b.path)))

-- `sortDependencies`.
unfoldable pub sort_dependencies : List Dependency → List Dependency
sort_dependencies deps = sort cmp_dependency deps

-- `wrap`, from an index on.
unfoldable pub wrap {ℓ} : {A : Type ℓ} → ℕ → List A → List (A × ℕ)
wrap i [] = []
wrap i (x ∷ xs) = (x, i) ∷ wrap (suc i) xs

-- `nodesById`.
unfoldable pub group_nodes : List (Node × ℕ) → Table (List (Node × ℕ)) → Table (List (Node × ℕ))
group_nodes [] t = t
group_nodes (n ∷ ns) t = group_nodes ns (set t n.0.id (or_default [] (get t n.0.id) ++ n ∷ []))

unfoldable pub nodes_by_id : List Node → Table (List (Node × ℕ))
nodes_by_id nodes = group_nodes (wrap 0 nodes) []

unfoldable pub root_errors : GraphManifest → List GraphError
root_errors m =
    if is_none (get (nodes_by_id m.nodes) m.root_page_id)
    then record {
      code = missing_root;
      node_id = some m.root_page_id;
      path = some "manifest.rootPageId";
    }
      ∷ []
    else []

copies : List (Node × ℕ) → List GraphError
copies [] = []
copies (n ∷ ns) =
    record {
      code = duplicate_node;
      node_id = some n.0.id;
      path = some (concat ("manifest.nodes[" ∷ decimal n.1 ∷ "].id" ∷ []));
    }
    ∷ copies ns

-- One error for each node after the first of its identifier.
copies_after_first : List (Node × ℕ) → List GraphError
copies_after_first [] = []
copies_after_first (n ∷ ns) = copies ns

unfoldable pub duplicate_errors : Table (List (Node × ℕ)) → List GraphError
unfolding copies_after_first copies
duplicate_errors [] = []
duplicate_errors ((id, entries) ∷ rest) = copies_after_first entries ++ duplicate_errors rest

-- The dependencies of a node that name no node, from an index on.
unfoldable pub dangling_of :
    Table (List (Node × ℕ)) → Node × ℕ → List (Dependency × ℕ) → List GraphError
dangling_of by_id n [] = []
dangling_of by_id n (d ∷ ds) =
    let rest = dangling_of by_id n ds in
    if is_none (get by_id d.0.id)
    then record {
      code = dangling_dependency;
      node_id = some n.0.id;
      path =
          some
            (concat ("manifest.nodes[" ∷ decimal n.1 ∷ "].dependencies[" ∷ decimal d.1 ∷ "]" ∷ []));
    }
      ∷ rest
    else rest

unfoldable pub dangling_errors : Table (List (Node × ℕ)) → List (Node × ℕ) → List GraphError
dangling_errors by_id [] = []
dangling_errors by_id (n ∷ ns) =
    dangling_of by_id n (wrap 0 (sort_dependencies n.0.dependencies)) ++ dangling_errors by_id ns

-- `sortNodesStable`, with the indexes.
unfoldable pub sort_nodes : List Node → List (Node × ℕ)
sort_nodes nodes = sort cmp_node (wrap 0 nodes)

unfoldable pub add_dependents : String → List Dependency → Table (List String) → Table (List String)
add_dependents id [] t = t
add_dependents id (d ∷ ds) t =
    add_dependents id ds (set t d.id (or_default [] (get t d.id) ++ id ∷ []))

-- `adjacency`, where all dependencies exist: the dependents of each node.
unfoldable pub adjacency : List (Node × ℕ) → Table (List String) → Table (List String)
unfolding add_dependents
adjacency [] t = t
adjacency (n ∷ ns) t = adjacency ns (add_dependents n.0.id (sort_dependencies n.0.dependencies) t)

-- `indegree`.
unfoldable pub indegrees : List (Node × ℕ) → Table ℕ → Table ℕ
indegrees [] t = t
indegrees (n ∷ ns) t = indegrees ns (set t n.0.id (length n.0.dependencies))

-- The nodes that wait for nothing.
unfoldable pub ready_nodes : Table ℕ → List (Node × ℕ) → List (Node × ℕ)
ready_nodes indegree [] = []
ready_nodes indegree (n ∷ ns) =
    let rest = ready_nodes indegree ns in
    if or_default 0 (get indegree n.0.id) == 0 then n ∷ rest else rest

unfoldable pub waiting_nodes : Table ℕ → List (Node × ℕ) → List (Node × ℕ)
waiting_nodes indegree [] = []
waiting_nodes indegree (n ∷ ns) =
    let rest = waiting_nodes indegree ns in
    if ltb 0 (or_default 0 (get indegree n.0.id)) then n ∷ rest else rest

unfoldable pub find_node : String → List (Node × ℕ) → List (Node × ℕ)
find_node id [] = []
find_node id (n ∷ ns) = if str_eq n.0.id id then n ∷ [] else find_node id ns

-- The loop over the dependents of a node that was taken: the counts and the queue after it. A count
-- becomes 0 where it was 1; below 0 it would stay, and here it stays 0.
unfoldable pub release_dependents :
    List (Node × ℕ) → List String → Table ℕ → List (Node × ℕ) → Table ℕ × List (Node × ℕ)
unfolding find_node
release_dependents nodes [] indegree queue = (indegree, queue)
release_dependents nodes (d ∷ ds) indegree queue =
    let old = or_default 0 (get indegree d) in
    release_dependents nodes ds (set indegree d (old - 1))
      (if old == 1 then sort cmp_node (queue ++ find_node d nodes) else queue)

-- The loop of the queue: what `topo` gets, and the counts at the end.
unfoldable pub kahn :
    ℕ
    → List (Node × ℕ)
    → Table (List String)
    → Table ℕ
    → List (Node × ℕ)
    → Option (List Node × Table ℕ)
kahn fuel nodes dependents indegree [] = some ([], indegree)
kahn zero nodes dependents indegree (n ∷ queue) = none
kahn (suc fuel) nodes dependents indegree (n ∷ queue) =
    let next = release_dependents nodes (or_default [] (get dependents n.0.id)) indegree queue in
    let rest = kahn fuel nodes dependents next.0 next.1 in
    elim rest [ none ↦ none | some (topo, counts) ↦ some (n.0 ∷ topo, counts) ]

first_id : List (Node × ℕ) → Option String
first_id [] = none
first_id (n ∷ ns) = some n.0.id

-- The order, or the cycle when some nodes are missing from it.
unfoldable pub check_order : List (Node × ℕ) → List Node → Table ℕ → GraphResult
unfolding first_id
check_order sorted topo counts =
    if length topo == length sorted
    then topo_order topo
    else graph_errors (
        record {
          code = cycle_detected;
          node_id = first_id (sort cmp_node (waiting_nodes counts sorted));
          path = none;
        }
        ∷ [])

-- The errors of the structure, in the order in which they are found.
unfoldable pub structure_errors : GraphManifest → List GraphError
structure_errors m =
    let by_id = nodes_by_id m.nodes in
    root_errors m ++ (duplicate_errors by_id ++ dangling_errors by_id (sort_nodes m.nodes))

-- `validateGraph`, with fuel for its loop.
unfoldable pub validate_graph : ℕ → GraphManifest → Option GraphResult
validate_graph fuel m =
    let sorted = sort_nodes m.nodes in
    let errors = structure_errors m in
    let indegree = indegrees sorted [] in
    if is_empty errors
    then elim (kahn fuel (wrap 0 m.nodes) (adjacency sorted []) indegree
        (sort cmp_node (ready_nodes indegree sorted))) [
          | none ↦ none
          | some (topo, counts) ↦ some (check_order sorted topo counts)
        ]
    else some (graph_errors (sort cmp_error errors))
