-- ===== src/Subscript/Make/Graphs.antt =====
-- The dependency graph of a subscript joins the labels that share an operand, and its components are
-- the labels that are linked by a chain of operands.
use hypertrie.Common.{
  List, [], arith, contains, if◌then◌else◌, refl, some, sym, true, ◌||◌, ◌∙◌, ◌∷◌, ◌≡◌,
}
use hypertrie.Common.Assoc.{at_or, find}
use hypertrie.Common.Sets.{count_all}
use hypertrie.Subscript.{Label, OperandSc, RawSubscript}
use hypertrie.Subscript.Graph.{
  UndirectedGraph, add_complete_graph, empty_graph, get_connected_components,
}
use hypertrie.Subscript.Graph.Components.{all_inhabited, get_connected_components-AreClasses}
use hypertrie.Subscript.Graph.Edges.{
  IsUndirected, add_complete_graph-IsUndirected, empty_graph-IsUndirected, has_edge,
  has_edge-add_complete_graph, nodes-add_complete_graph, together,
}
use hypertrie.Subscript.Graph.Reach.{Reach, here, step}
use hypertrie.Subscript.Labels.{occurs}
use hypertrie.Subscript.Make.{add_operands, calc_dependency_graph}

has_edge-add_operands :
    (operands : List OperandSc) (g : UndirectedGraph) (a b : Label)
    → has_edge (add_operands operands g) a b ≡ (together operands a b || has_edge g a b)
unfolding add_operands
has_edge-add_operands [] g a b = refl
has_edge-add_operands (operand ∷ operands) g a b = ground (
  arith,
  has_edge-add_operands operands (add_complete_graph operand g) a b,
  has_edge-add_complete_graph operand g a b,
)

nodes-add_operands :
    (operands : List OperandSc) (g : UndirectedGraph) (a : Label)
    → contains (add_operands operands g).nodes a ≡ (occurs operands a || contains g.nodes a)
unfolding add_operands
nodes-add_operands [] g a = refl
nodes-add_operands (operand ∷ operands) g a = ground (
  arith,
  nodes-add_operands operands (add_complete_graph operand g) a,
  nodes-add_complete_graph operand g a,
)

add_operands-IsUndirected :
    (operands : List OperandSc) (g : UndirectedGraph)
    → IsUndirected g
    → IsUndirected (add_operands operands g)
unfolding add_operands
add_operands-IsUndirected [] g u = u
add_operands-IsUndirected (operand ∷ operands) g u =
    add_operands-IsUndirected operands (add_complete_graph operand g)
      (add_complete_graph-IsUndirected operand g u)

pub has_edge-calc_dependency_graph :
    (s : RawSubscript) (a b : Label)
    → has_edge (calc_dependency_graph s) a b ≡ together s.operands a b
unfolding calc_dependency_graph at_or find
has_edge-calc_dependency_graph s a b =
    ground (arith, has_edge-add_operands s.operands empty_graph a b)

pub nodes-calc_dependency_graph :
    (s : RawSubscript) (a : Label)
    → contains (calc_dependency_graph s).nodes a ≡ occurs s.operands a
unfolding calc_dependency_graph
nodes-calc_dependency_graph s a = ground (arith, nodes-add_operands s.operands empty_graph a)

pub calc_dependency_graph-IsUndirected : (s : RawSubscript) → IsUndirected (calc_dependency_graph s)
unfolding calc_dependency_graph
calc_dependency_graph-IsUndirected s =
    add_operands-IsUndirected s.operands empty_graph empty_graph-IsUndirected

-- Two labels that a chain of operands links, each with a label of the next.
pub data Linked (operands : List OperandSc) (a : Label) : Label → Type 0 where
  alone : Linked operands a a
  chain : {b c : Label} → Linked operands a b → together operands b c ≡ true → Linked operands a c

module _ (s : RawSubscript) where
  abbrev graph : UndirectedGraph
  graph = calc_dependency_graph s

  Linked-Reach : {a b : Label} → Reach graph a b → Linked s.operands a b
  Linked-Reach here = alone
  Linked-Reach (step {b} {c} p e) =
      chain (Linked-Reach p) (sym (has_edge-calc_dependency_graph s b c) ∙ e)

  Reach-Linked : {a b : Label} → Linked s.operands a b → Reach graph a b
  Reach-Linked alone = here
  Reach-Linked (chain {b} {c} p e) =
      step (Reach-Linked p) (has_edge-calc_dependency_graph s b c ∙ e)

  -- `cs` are the sets of labels that are linked, each label of the operands in one of them.
  pub record AreComponents (cs : List (List Label)) : Type 0 where
    pub once : (a : Label) → count_all a cs ≡ (if occurs s.operands a then 1 else 0)
    pub joined : (a b : Label) → together cs a b ≡ true → Linked s.operands a b
    pub complete :
        (a b : Label) → occurs s.operands a ≡ true → Linked s.operands a b → together cs a b ≡ true
    pub inhabited : all_inhabited cs ≡ true

  -- For every raw subscript: `get_connected_components` of its dependency graph ends with sets of
  -- labels, none empty. Each label of the operands stands in them exactly once and no other label
  -- does, and two labels share a set exactly where a chain of operands links them.
  pub get_connected_components-AreComponents :
      (cs : List (List Label)) × (get_connected_components (calc_dependency_graph s) ≡ some cs)
      × AreComponents cs
  get_connected_components-AreComponents =
      let (cs, ends, classes) =
        get_connected_components-AreClasses graph (calc_dependency_graph-IsUndirected s) in
      let nodes = nodes-calc_dependency_graph s in
      (
        cs,
        ends,
        record {
          once = λ a. ground (arith, classes.once a, nodes a);
          joined = λ a b m. Linked-Reach (classes.joined a b m);
          complete = λ a b m p. classes.complete a b (nodes a ∙ m) (Reach-Linked p);
          inhabited = classes.inhabited;
        },
      )
