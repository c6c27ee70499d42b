-- ===== src/Subscript/Graph.antt =====
-- `UndirectedGraph` (libs/einsum/src/dice/einsum/internal/util/UndirectedGraph.hpp) over labels. A
-- set is iterated in the order of its list. `none` is a failed `at`, which ends the program.
use hypertrie.Common.{
  List, Option, [], contains, if◌then◌else◌, length, none, some, suc, zero, ℕ, ◌>>=◌, ◌∷◌,
}
use hypertrie.Common.Assoc.{Assoc, at_or, find, insert_or_assign}
use hypertrie.Common.Sets.{set_erase, set_insert, set_of}
use hypertrie.Node.{edges}
pub mod Edges
pub mod Reach
pub mod Growth
pub mod Components

pub record UndirectedGraph : Type 0 where
  pub nodes : List ℕ
  pub edges : Assoc (List ℕ)

abbrev pub empty_graph : UndirectedGraph
empty_graph = record { nodes = []; edges = [] }

-- One direction of `addEdge`.
unfoldable pub add_arc : ℕ → ℕ → UndirectedGraph → UndirectedGraph
unfolding set_insert at_or insert_or_assign
add_arc node_a node_b g = record {
  nodes = set_insert node_a g.nodes;
  edges = insert_or_assign node_a (set_insert node_b (at_or node_a [] g.edges)) g.edges;
}

unfoldable pub add_edge : ℕ → ℕ → UndirectedGraph → UndirectedGraph
unfolding add_arc
add_edge node_a node_b g = add_arc node_b node_a (add_arc node_a node_b g)

-- The inner loop of `addCompleteGraph`.
unfoldable pub add_edges : ℕ → List ℕ → UndirectedGraph → UndirectedGraph
unfolding add_edge
add_edges node_a [] g = g
add_edges node_a (node_b ∷ nodes) g = add_edges node_a nodes (add_edge node_a node_b g)

-- The outer loop, over `from`.
unfoldable pub add_all_edges : List ℕ → List ℕ → UndirectedGraph → UndirectedGraph
unfolding add_edges
add_all_edges [] nodes g = g
add_all_edges (node_a ∷ from) nodes g = add_all_edges from nodes (add_edges node_a nodes g)

unfoldable pub add_complete_graph : List ℕ → UndirectedGraph → UndirectedGraph
unfolding add_all_edges set_of
add_complete_graph new_nodes g =
    let new_nodes_set = set_of new_nodes in add_all_edges new_nodes_set new_nodes_set g

unfoldable pub neighbors : UndirectedGraph → ℕ → Option (List ℕ)
unfolding find
neighbors g node = find node g.edges

-- The state of the search for one component.
pub record Search : Type 0 where
  pub unfinished_nodes : List ℕ
  pub open_nodes : List ℕ
  pub connected_component : List ℕ

-- The body of the loop over the adjacent nodes.
unfoldable pub visit_node : ℕ → Search → Search
unfolding set_insert set_erase
visit_node adj_node s =
    if contains s.unfinished_nodes adj_node
    then record {
      unfinished_nodes = set_erase adj_node s.unfinished_nodes;
      open_nodes = set_insert adj_node s.open_nodes;
      connected_component = set_insert adj_node s.connected_component;
    }
    else s

unfoldable pub visit : List ℕ → Search → Search
unfolding visit_node
visit [] s = s
visit (adj_node ∷ adjacent_nodes) s = visit adjacent_nodes (visit_node adj_node s)

-- `while (not open_nodes.empty())`, with `none` where the fuel ends as well.
unfoldable pub grow : ℕ → UndirectedGraph → Search → Option Search
unfolding set_erase visit neighbors
grow zero g s = elim s.open_nodes [ [] ↦ some s | _ ∷ _ ↦ none ]
grow (suc fuel) g s = elim s.open_nodes [
  | [] ↦ some s
  | node ∷ _ ↦ neighbors g node >>= λ adjacent_nodes.
      grow fuel g (visit adjacent_nodes (record s { open_nodes = set_erase node s.open_nodes }))
]

-- The state after `first_node` is taken out of the unfinished nodes.
unfoldable pub first_search : ℕ → List ℕ → Search
unfolding set_erase
first_search first_node unfinished_nodes = record {
  unfinished_nodes = set_erase first_node unfinished_nodes;
  open_nodes = first_node ∷ [];
  connected_component = first_node ∷ [];
}

-- `while (not unfinished_nodes.empty())`
unfoldable pub components_from : ℕ → UndirectedGraph → List ℕ → Option (List (List ℕ))
unfolding grow first_search
components_from fuel g [] = some []
components_from zero g (_ ∷ _) = none
components_from (suc fuel) g (first_node ∷ unfinished) =
    grow (length (first_node ∷ unfinished)) g (first_search first_node (first_node ∷ unfinished))
    >>= λ s. components_from fuel g s.unfinished_nodes >>= λ connected_components.
        some (s.connected_component ∷ connected_components)

unfoldable pub get_connected_components : UndirectedGraph → Option (List (List ℕ))
unfolding components_from
get_connected_components g = components_from (length g.nodes) g g.nodes
