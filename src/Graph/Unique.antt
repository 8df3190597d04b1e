-- ===== src/Graph/Unique.antt =====
-- A manifest without errors of structure has no identifier twice.
use weft_end.Prelude.{
  eq_iff, ℕ, ◌+◌, ◌≤◌, String, ◌≡◌, inl, inr, refl, ◌∙◌, ap, Option, List, [], ◌∷◌, ◌++◌, length,
  append_is_nil, arith, str_eq, if◌then◌else◌, Bool-cases, length-append,
}
use weft_end.Text.Table.{Table, get, set, get-set}
use weft_end.Reasons.{or_default}
use weft_end.Graph.{
  Node, GraphManifest, wrap, sort_nodes, group_nodes, nodes_by_id, root_errors, duplicate_errors,
  structure_errors,
}
use weft_end.Graph.Counts.{named, named-sort}

abbrev group : Table (List (Node × ℕ)) → String → ℕ
group t a = length (or_default [] (get t a))

group-set :
    (t : Table (List (Node × ℕ))) (key a : String) (v : List (Node × ℕ))
    → group (set t key v) a ≡ (if str_eq key a then length v else group t a)
group-set t key a v =
    let size = λ (o : Option (List (Node × ℕ))). length (or_default [] o) in
    let base = ap size (get-set t key a v) in
    elim (Bool-cases (str_eq key a)) [ inl m ↦ base ∙ rw m refl | inr m ↦ base ∙ rw m refl ]

length-group :
    (ns : List (Node × ℕ)) (t : Table (List (Node × ℕ))) (a : String)
    → group (group_nodes ns t) a ≡ group t a + named a ns
unfolding group_nodes named
length-group [] t a = omega arith
length-group (n ∷ ns) t a =
    let entries = or_default [] (get t n.0.id) in
    let longer = entries ++ n ∷ [] in
    let rest = length-group ns (set t n.0.id longer) a in
    let size = length-append entries (n ∷ []) in
    let now = group-set t n.0.id a longer in
    elim (Bool-cases (str_eq n.0.id a)) [
      | inl m ↦
          let same = ap (group t) ((eq_iff n.0.id a).0 m) in
          rw m (ground (arith, rest, size, now, same))
      | inr m ↦ rw m (ground (arith, rest, now))
    ]

duplicate_errors_nil :
    (t : Table (List (Node × ℕ))) (a : String) → duplicate_errors t ≡ [] → group t a ≤ 1
unfolding duplicate_errors get
duplicate_errors_nil [] a h = omega arith
duplicate_errors_nil ((k, []) ∷ rest) a h = elim (Bool-cases (str_eq k a)) [
  | inl m ↦ rw (m, get) (omega arith)
  | inr m ↦ rw (m, get) (duplicate_errors_nil rest a h)
]
duplicate_errors_nil ((k, n ∷ []) ∷ rest) a h = elim (Bool-cases (str_eq k a)) [
  | inl m ↦ rw (m, get) (omega arith)
  | inr m ↦ rw (m, get) (duplicate_errors_nil rest a h)
]
duplicate_errors_nil ((k, n ∷ n' ∷ ns) ∷ rest) a h = cc

-- Without errors of structure no identifier occurs twice.
pub clean_once :
    (m : GraphManifest) (a : String) → structure_errors m ≡ [] → named a (sort_nodes m.nodes) ≤ 1
unfolding structure_errors nodes_by_id sort_nodes
clean_once m a clean =
    let (root, others) = append_is_nil (root_errors m) _ clean in
    let (twice, dangling) = append_is_nil (duplicate_errors (nodes_by_id m.nodes)) _ others in
    let none : group [] a ≡ 0 = unfold get in refl in
    omega (
      arith,
      named-sort a (wrap 0 m.nodes),
      length-group (wrap 0 m.nodes) [] a,
      duplicate_errors_nil (nodes_by_id m.nodes) a twice,
      none,
    )
