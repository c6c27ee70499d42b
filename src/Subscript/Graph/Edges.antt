-- ===== src/Subscript/Graph/Edges.antt =====
-- The graphs that `addEdge` and `addCompleteGraph` build, and the edges that they have.
use hypertrie.Common.{
  Bool, List, [], arith, contains, contains-is_empty, false, is_empty, not, some, true, ℕ, ◌&&◌,
  ◌==◌, ◌||◌, ◌∷◌, ◌≡◌,
}
use hypertrie.Common.Assoc.{at_or, at_or-insert_or_assign, find, find-insert_or_assign}
use hypertrie.Common.Sets.{
  IsDistinct, contains-set_insert, contains-set_of, count-set_insert, set_insert, set_of,
}
use hypertrie.Subscript.Graph.{
  UndirectedGraph, add_all_edges, add_arc, add_complete_graph, add_edge, add_edges, empty_graph,
  neighbors,
}

-- Whether one of the sets has both labels.
abbrev pub together : List (List ℕ) → ℕ → ℕ → Bool
together [] a b = false
together (c ∷ cs) a b = (contains c a && contains c b) || together cs a b

abbrev pub has_edge : UndirectedGraph → ℕ → ℕ → Bool
has_edge g a b = contains (at_or a [] g.edges) b

pub record IsUndirected (g : UndirectedGraph) : Type 0 where
  pub symmetric : (a b : ℕ) → has_edge g a b ≡ true → has_edge g b a ≡ true
  pub inside : (a b : ℕ) → has_edge g a b ≡ true → contains g.nodes b ≡ true
  pub stored : (a : ℕ) → contains g.nodes a ≡ true → neighbors g a ≡ some (at_or a [] g.edges)
  pub distinct : IsDistinct g.nodes

has_edge-add_arc :
    (x y : ℕ) (g : UndirectedGraph) (a b : ℕ)
    → has_edge (add_arc x y g) a b ≡ ((x == a && y == b) || has_edge g a b)
unfolding add_arc
has_edge-add_arc x y g a b = ground (
  arith,
  at_or-insert_or_assign a x (set_insert y (at_or x [] g.edges)) [] g.edges,
  contains-set_insert y (at_or x [] g.edges) b,
)

pub has_edge-add_edge :
    (x y : ℕ) (g : UndirectedGraph) (a b : ℕ)
    → has_edge (add_edge x y g) a b ≡ ((x == a && y == b) || ((y == a && x == b) || has_edge g a b))
unfolding add_edge
has_edge-add_edge x y g a b =
    ground (arith, has_edge-add_arc y x (add_arc x y g) a b, has_edge-add_arc x y g a b)

nodes-add_edge :
    (x y : ℕ) (g : UndirectedGraph) (a : ℕ)
    → contains (add_edge x y g).nodes a ≡ (x == a || (y == a || contains g.nodes a))
unfolding add_edge add_arc
nodes-add_edge x y g a =
    ground (arith, contains-set_insert y (set_insert x g.nodes) a, contains-set_insert x g.nodes a)

stored-add_arc :
    (x y : ℕ) (g : UndirectedGraph) (a : ℕ)
    → (contains g.nodes a ≡ true → neighbors g a ≡ some (at_or a [] g.edges))
    → contains (add_arc x y g).nodes a ≡ true
    → neighbors (add_arc x y g) a ≡ some (at_or a [] (add_arc x y g).edges)
unfolding add_arc neighbors at_or
stored-add_arc x y g a h m = ground (
  arith,
  contains-set_insert x g.nodes a,
  find-insert_or_assign a x (set_insert y (at_or x [] g.edges)) g.edges,
)

pub empty_graph-IsUndirected : IsUndirected empty_graph
unfolding at_or find
empty_graph-IsUndirected = record {
  symmetric = λ a b h. absurd (ground (arith, h));
  inside = λ a b h. absurd (ground (arith, h));
  stored = λ a h. absurd (ground (arith, h));
  distinct = λ a. omega arith;
}

pub add_edge-IsUndirected :
    (x y : ℕ) (g : UndirectedGraph) → IsUndirected g → IsUndirected (add_edge x y g)
add_edge-IsUndirected x y g u = record {
  symmetric = λ a b h.
      ground (arith, has_edge-add_edge x y g a b, has_edge-add_edge x y g b a, u.symmetric a b);
  inside =
      λ a b h. ground (arith, has_edge-add_edge x y g a b, nodes-add_edge x y g b, u.inside a b);
  stored = λ a h.
      unfold add_edge in
      stored-add_arc y x (add_arc x y g) a (stored-add_arc x y g a (u.stored a)) h;
  distinct = λ a.
      unfold add_edge add_arc in
      ground (
        arith,
        count-set_insert a y (set_insert x g.nodes),
        count-set_insert a x g.nodes,
        u.distinct a,
      );
}

module _ (x : ℕ) where
  has_edge-add_edges :
      (ys : List ℕ) (g : UndirectedGraph) (a b : ℕ)
      → has_edge (add_edges x ys g) a b
        ≡ ((x == a && contains ys b) || ((contains ys a && x == b) || has_edge g a b))
  unfolding add_edges
  has_edge-add_edges [] g a b = ground arith
  has_edge-add_edges (y ∷ ys) g a b =
      ground (arith, has_edge-add_edges ys (add_edge x y g) a b, has_edge-add_edge x y g a b)

  nodes-add_edges :
      (ys : List ℕ) (g : UndirectedGraph) (a : ℕ)
      → contains (add_edges x ys g).nodes a
        ≡ ((x == a && not (is_empty ys)) || (contains ys a || contains g.nodes a))
  unfolding add_edges
  nodes-add_edges [] g a = ground arith
  nodes-add_edges (y ∷ ys) g a =
      ground (arith, nodes-add_edges ys (add_edge x y g) a, nodes-add_edge x y g a)

  add_edges-IsUndirected :
      (ys : List ℕ) (g : UndirectedGraph) → IsUndirected g → IsUndirected (add_edges x ys g)
  unfolding add_edges
  add_edges-IsUndirected [] g u = u
  add_edges-IsUndirected (y ∷ ys) g u =
      add_edges-IsUndirected ys (add_edge x y g) (add_edge-IsUndirected x y g u)

has_edge-add_all_edges :
    (xs ys : List ℕ) (g : UndirectedGraph) (a b : ℕ)
    → has_edge (add_all_edges xs ys g) a b
      ≡ ((contains xs a && contains ys b) || ((contains ys a && contains xs b) || has_edge g a b))
unfolding add_all_edges
has_edge-add_all_edges [] ys g a b = ground arith
has_edge-add_all_edges (x ∷ xs) ys g a b =
    ground
      (arith, has_edge-add_all_edges xs ys (add_edges x ys g) a b, has_edge-add_edges x ys g a b)

nodes-add_all_edges :
    (xs ys : List ℕ) (g : UndirectedGraph) (a : ℕ)
    → contains (add_all_edges xs ys g).nodes a ≡ (
        (contains xs a && not (is_empty ys))
        || ((contains ys a && not (is_empty xs)) || contains g.nodes a))
unfolding add_all_edges
nodes-add_all_edges [] ys g a = ground arith
nodes-add_all_edges (x ∷ xs) ys g a =
    ground (arith, nodes-add_all_edges xs ys (add_edges x ys g) a, nodes-add_edges x ys g a)

add_all_edges-IsUndirected :
    (xs ys : List ℕ) (g : UndirectedGraph) → IsUndirected g → IsUndirected (add_all_edges xs ys g)
unfolding add_all_edges
add_all_edges-IsUndirected [] ys g u = u
add_all_edges-IsUndirected (x ∷ xs) ys g u =
    add_all_edges-IsUndirected xs ys (add_edges x ys g) (add_edges-IsUndirected x ys g u)

module _ (xs : List ℕ) (g : UndirectedGraph) where
  pub has_edge-add_complete_graph :
      (a b : ℕ)
      → has_edge (add_complete_graph xs g) a b
        ≡ ((contains xs a && contains xs b) || has_edge g a b)
  unfolding add_complete_graph
  has_edge-add_complete_graph a b = ground (
    arith,
    has_edge-add_all_edges (set_of xs) (set_of xs) g a b,
    contains-set_of xs a,
    contains-set_of xs b,
  )

  pub nodes-add_complete_graph :
      (a : ℕ) → contains (add_complete_graph xs g).nodes a ≡ (contains xs a || contains g.nodes a)
  unfolding add_complete_graph
  nodes-add_complete_graph a = ground (
    arith,
    nodes-add_all_edges (set_of xs) (set_of xs) g a,
    contains-set_of xs a,
    contains-is_empty (set_of xs) a,
  )

  pub add_complete_graph-IsUndirected : IsUndirected g → IsUndirected (add_complete_graph xs g)
  unfolding add_complete_graph
  add_complete_graph-IsUndirected = add_all_edges-IsUndirected (set_of xs) (set_of xs) g
