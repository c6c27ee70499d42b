-- ===== src/Dependency.antt =====
-- `OperandDependencyGraph` (libs/query/src/dice/query/OperandDependencyGraph.hpp): the graph of the
-- operands of a query. The Boost graph is its vertices' variables and outgoing edges; an operation
-- that makes a subgraph gives the vertices that it puts into it. Boost's strong components are a
-- parameter: the number of components and the component of each vertex.
use hypertrie.Common.{
  Bool, List, Option, [], contains, false, get_or, if◌then◌else◌, length, none, not, set, some, suc,
  true, zero, ℕ, ◌%◌, ◌++◌, ◌+◌, ◌==◌, ◌>>=◌, ◌||◌, ◌∷◌,
}
use hypertrie.Common.Sets.{set_erase, set_insert}
pub mod Vars
pub mod Prune
pub mod Roots

abbrev pub VariableId : Type 0
VariableId = ℕ

-- `Vertex` is `query::pos_type`, 8 bits wide; the vertices of the Boost graph are not.
abbrev pub to_vertex : ℕ → ℕ
to_vertex v = v % 256

-- An edge as its source stores it.
pub record OutEdge : Type 0 where
  pub target : ℕ
  pub var_id : VariableId
  pub is_opt : Bool

pub record OperandDependencyGraph : Type 0 where
  pub var_ids : List (List VariableId)
  pub out_edges : List (List OutEdge)

unfoldable pub size : OperandDependencyGraph → ℕ
size g = length g.var_ids

unfoldable pub add_operand : List VariableId → OperandDependencyGraph → ℕ × OperandDependencyGraph
add_operand var_ids g = (
  to_vertex (length g.var_ids),
  record { var_ids = g.var_ids ++ (var_ids ∷ []); out_edges = g.out_edges ++ ([] ∷ []) },
)

unfoldable pub add_edge : ℕ → OutEdge → OperandDependencyGraph → OperandDependencyGraph
add_edge source e g = record g {
  out_edges = set g.out_edges source (get_or g.out_edges source [] ++ (e ∷ []));
}

unfoldable pub add_dependency : ℕ → ℕ → VariableId → OperandDependencyGraph → OperandDependencyGraph
unfolding add_edge
add_dependency source target var_id =
    add_edge source (record { target = target; var_id = var_id; is_opt = false })

unfoldable pub add_connection : ℕ → ℕ → VariableId → OperandDependencyGraph → OperandDependencyGraph
unfolding add_edge
add_connection source target var_id =
    add_edge source (record { target = target; var_id = var_id; is_opt = true })

-- The loop over the vertices that keeps those that are not in a set, from vertex `v` on.
unfoldable pub vertices_not_in : ℕ → List (List VariableId) → List ℕ → List ℕ
vertices_not_in v [] vertices = []
vertices_not_in v (_ ∷ var_ids) vertices =
    let rest = vertices_not_in (suc v) var_ids vertices in
    if contains vertices v then rest else v ∷ rest

unfoldable pub remove_vertices : OperandDependencyGraph → List ℕ → List ℕ
unfolding vertices_not_in
remove_vertices g vertices = vertices_not_in 0 g.var_ids vertices

-- `std::any_of` for a variable other than the removed one.
unfoldable pub has_other : VariableId → List VariableId → Bool
has_other var_id [] = false
has_other var_id (v_id ∷ v_ids) = not (v_id == var_id) || has_other var_id v_ids

-- The vertices that are left without the variable, as original positions, and their variables.
unfoldable pub remove_var_id : VariableId → ℕ → List (List VariableId) → List (ℕ × List VariableId)
unfolding has_other set_erase
remove_var_id var_id v [] = []
remove_var_id var_id v (v_ids ∷ rest) =
    let kept = remove_var_id var_id (suc v) rest in
    if has_other var_id v_ids then (to_vertex v, set_erase var_id v_ids) ∷ kept else kept

-- `to_check.push_back` for the targets of the edges that are not optional.
unfoldable pub dependent_targets : List OutEdge → List ℕ
dependent_targets [] = []
dependent_targets (e ∷ edges) =
    let rest = dependent_targets edges in if e.is_opt then rest else to_vertex e.target ∷ rest

-- `while (not to_check.empty())`, with `none` where the fuel ends.
unfoldable pub prune_loop : ℕ → List (List OutEdge) → List ℕ → List ℕ → Option (List ℕ)
unfolding set_insert dependent_targets
prune_loop fuel out_edges [] pruned = some pruned
prune_loop zero out_edges (_ ∷ _) pruned = none
prune_loop (suc fuel) out_edges (operand ∷ to_check) pruned =
    let skipped = prune_loop fuel out_edges to_check pruned in
    let visited =
      prune_loop fuel out_edges (to_check ++ dependent_targets (get_or out_edges operand []))
        (set_insert operand pruned) in
    if contains pruned operand then skipped else visited

-- The number of all edges.
abbrev pub num_edges : List (List OutEdge) → ℕ
num_edges [] = 0
num_edges (edges ∷ rest) = length edges + num_edges rest

-- The loop over the vertices that keeps those that are not pruned, from vertex `v` on.
unfoldable pub not_pruned : ℕ → List (List VariableId) → List ℕ → List ℕ
not_pruned v [] pruned = []
not_pruned v (_ ∷ var_ids) pruned =
    let rest = not_pruned (suc v) var_ids pruned in
    if contains pruned (to_vertex v) then rest else v ∷ rest

unfoldable pub prune_graph : OperandDependencyGraph → List ℕ → Option (List ℕ)
unfolding prune_loop not_pruned
prune_graph g empty_operands =
    prune_loop (length empty_operands + num_edges g.out_edges) g.out_edges empty_operands []
    >>= λ pruned. some (not_pruned 0 g.var_ids pruned)

-- `insert` of a range into a set.
unfoldable pub insert_var_ids : List VariableId → List VariableId → List VariableId
unfolding set_insert
insert_var_ids [] ids = ids
insert_var_ids (v ∷ vs) ids = insert_var_ids vs (set_insert v ids)

unfoldable pub operands_var_ids_set : List (List VariableId) → List VariableId → List VariableId
unfolding insert_var_ids
operands_var_ids_set [] ids = ids
operands_var_ids_set (v_ids ∷ rest) ids = operands_var_ids_set rest (insert_var_ids v_ids ids)

-- The vertices with the variable, from vertex `v` on.
unfoldable pub operands_with_var_id : VariableId → ℕ → List (List VariableId) → List ℕ
operands_with_var_id var_id v [] = []
operands_with_var_id var_id v (v_ids ∷ rest) =
    let operands = operands_with_var_id var_id (suc v) rest in
    if contains v_ids var_id then to_vertex v ∷ operands else operands

-- Those of them that are in the independent strong component.
unfoldable pub isc_operands_with_var_id : List ℕ → VariableId → ℕ → List (List VariableId) → List ℕ
isc_operands_with_var_id isc_ops var_id v [] = []
isc_operands_with_var_id isc_ops var_id v (v_ids ∷ rest) =
    let operands = isc_operands_with_var_id isc_ops var_id (suc v) rest in
    if not (contains isc_ops v)
    then operands
    else if contains v_ids var_id
    then to_vertex v ∷ operands
    else operands

pub record LonelySearch : Type 0 where
  pub visited : List VariableId
  pub lonely : List VariableId

-- The body of the loops of `lonely_var_ids`.
unfoldable pub see_var_id : VariableId → LonelySearch → LonelySearch
unfolding set_erase set_insert
see_var_id var_id s =
    if contains s.lonely var_id
    then record s { lonely = set_erase var_id s.lonely }
    else if not (contains s.visited var_id)
    then record { visited = set_insert var_id s.visited; lonely = set_insert var_id s.lonely }
    else s

unfoldable pub see_var_ids : List VariableId → LonelySearch → LonelySearch
unfolding see_var_id
see_var_ids [] s = s
see_var_ids (v ∷ vs) s = see_var_ids vs (see_var_id v s)

unfoldable pub see_vertices : List (List VariableId) → LonelySearch → LonelySearch
unfolding see_var_ids
see_vertices [] s = s
see_vertices (v_ids ∷ rest) s = see_vertices rest (see_var_ids v_ids s)

unfoldable pub lonely_var_ids : OperandDependencyGraph → List VariableId
unfolding see_vertices
lonely_var_ids g = (see_vertices g.var_ids (record { visited = []; lonely = [] })).lonely

-- `candidates.erase` for the targets in other components than the source's, `own`.
unfoldable pub erase_entered : List ℕ → ℕ → List OutEdge → List ℕ → List ℕ
unfolding set_erase
erase_entered components own [] candidates = candidates
erase_entered components own (e ∷ edges) candidates =
    let entered = get_or components e.target 0 in
    erase_entered components own edges
      (if entered == own then candidates else set_erase entered candidates)

-- The same for all vertices, from vertex `v` on.
unfoldable pub erase_all_entered : List ℕ → ℕ → List (List OutEdge) → List ℕ → List ℕ
unfolding erase_entered
erase_all_entered components v [] candidates = candidates
erase_all_entered components v (edges ∷ rest) candidates =
    erase_all_entered components (suc v) rest
      (erase_entered components (get_or components v 0) edges candidates)

-- The vertices whose component is a candidate, from vertex `v` on.
unfoldable pub in_candidates : List ℕ → List ℕ → ℕ → List (List VariableId) → List ℕ
in_candidates components candidates v [] = []
in_candidates components candidates v (_ ∷ rest) =
    let operands = in_candidates components candidates (suc v) rest in
    if contains candidates (get_or components v 0) then to_vertex v ∷ operands else operands

-- `std::iota`, and the loop that inserts the numbers of the components.
abbrev pub iota : ℕ → ℕ → List ℕ
iota v zero = []
iota v (suc n) = to_vertex v ∷ iota (suc v) n

unfoldable pub isc_operands : ℕ → List ℕ → OperandDependencyGraph → List ℕ
unfolding erase_all_entered in_candidates
isc_operands num_components components g =
    if num_components == 1
    then iota 0 (length g.var_ids)
    else in_candidates components
        (erase_all_entered components 0 g.out_edges (iota 0 num_components)) 0 g.var_ids
