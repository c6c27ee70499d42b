-- ===== src/Subscript/Graph/Reach.antt =====
-- One component's search: it ends, and it collects exactly the labels that the first one reaches.
use hypertrie.Common.{
  List, [], arith, contains, length, not, true, ℕ, ◌&&◌, ◌+◌, ◌||◌, ◌∷◌, ◌≡◌, ◌≤◌,
}
use hypertrie.Common.Sets.{
  IsDistinct, contains-set_erase, contains-set_insert, count-set_erase, count-set_insert,
  length-set_erase_lt, length-set_insert,
}
use hypertrie.Subscript.Graph.{Search, UndirectedGraph, first_search, visit, visit_node}
use hypertrie.Subscript.Graph.Edges.{has_edge}

pub data Reach (g : UndirectedGraph) (a : ℕ) : ℕ → Type 0 where
  here : Reach g a a
  step : {b c : ℕ} → Reach g a b → has_edge g b c ≡ true → Reach g a c

-- After the labels of `adj` are visited, which are the unfinished ones of them that move.
pub record Visited (adj : List ℕ) (s s' : Search) (a : ℕ) : Type 0 where
  pub unfinished :
      contains s'.unfinished_nodes a ≡ (contains s.unfinished_nodes a && not (contains adj a))
  pub opened :
      contains s'.open_nodes a
      ≡ (contains s.open_nodes a || (contains s.unfinished_nodes a && contains adj a))
  pub collected :
      contains s'.connected_component a
      ≡ (contains s.connected_component a || (contains s.unfinished_nodes a && contains adj a))

pub visit-Visited : (adj : List ℕ) (s : Search) (a : ℕ) → Visited adj s (visit adj s) a
unfolding visit visit_node
visit-Visited [] s a = record {
  unfinished = ground arith;
  opened = ground arith;
  collected = ground arith;
}
visit-Visited (x ∷ adj) s a =
    let rest = visit-Visited adj (visit_node x s) a in
    let erased = contains-set_erase x s.unfinished_nodes a in
    record {
      unfinished = ground (arith, rest.unfinished, erased);
      opened = ground (arith, rest.opened, erased, contains-set_insert x s.open_nodes a);
      collected =
          ground (arith, rest.collected, erased, contains-set_insert x s.connected_component a);
    }

-- Nothing is lost: what leaves the unfinished labels enters the open ones, each at most once.
pub visit-work :
    (adj : List ℕ) (s : Search)
    → length (visit adj s).unfinished_nodes + length (visit adj s).open_nodes
      ≤ length s.unfinished_nodes + length s.open_nodes
unfolding visit visit_node
visit-work [] s = omega arith
visit-work (x ∷ adj) s = ground (
  arith,
  visit-work adj (visit_node x s),
  length-set_erase_lt x s.unfinished_nodes,
  length-set_insert x s.open_nodes,
)

pub record IsDistinctSearch (s : Search) : Type 0 where
  pub unfinished : IsDistinct s.unfinished_nodes
  pub collected : IsDistinct s.connected_component

pub visit-IsDistinctSearch :
    (adj : List ℕ) (s : Search) → IsDistinctSearch s → IsDistinctSearch (visit adj s)
unfolding visit visit_node
visit-IsDistinctSearch [] s d = d
visit-IsDistinctSearch (x ∷ adj) s d = visit-IsDistinctSearch adj (visit_node x s) (record {
  unfinished = λ a. ground (arith, count-set_erase a x s.unfinished_nodes, d.unfinished a);
  collected = λ a. ground (arith, count-set_insert a x s.connected_component, d.collected a);
})

pub first_search-work :
    (first : ℕ) (labels : List ℕ)
    → contains labels first ≡ true
    → length (first_search first labels).unfinished_nodes
        + length (first_search first labels).open_nodes
      ≤ length labels
unfolding first_search
first_search-work first labels m = omega (arith, length-set_erase_lt first labels m)
