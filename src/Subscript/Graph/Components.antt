-- ===== src/Subscript/Graph/Components.antt =====
-- The components that `getConnectedComponents` returns are the classes of labels that reach each other.
use hypertrie.Common.{
  Bool, Bool-cases, List, [], arith, contains, contains-is_empty, false, if◌then◌else◌, inl, inr,
  is_empty, length, not, refl, some, suc, true, zero, ℕ, ◌&&◌, ◌∷◌, ◌≡◌, ◌≤◌,
}
use hypertrie.Common.Sets.{IsDistinct, contains-count, count_all, length-subset}
use hypertrie.Subscript.Graph.{
  Search, UndirectedGraph, components_from, first_search, get_connected_components,
}
use hypertrie.Subscript.Graph.Edges.{IsUndirected, has_edge, together}
use hypertrie.Subscript.Graph.Growth.{Inv, Inv-first_search, grow_ends}
use hypertrie.Subscript.Graph.Reach.{Reach, first_search-work, here, step}

-- None of the sets is empty.
abbrev pub all_inhabited : List (List ℕ) → Bool
all_inhabited [] = true
all_inhabited (c ∷ cs) = not (is_empty c) && all_inhabited cs

module _ (g : UndirectedGraph) where
  pub Reach-trans : {a b c : ℕ} → Reach g a b → Reach g b c → Reach g a c
  Reach-trans p here = p
  Reach-trans p (step q e) = step (Reach-trans p q) e

  pub Reach-sym : IsUndirected g → {a b : ℕ} → Reach g a b → Reach g b a
  Reach-sym u here = here
  Reach-sym u (step {b} {c} p e) = Reach-trans (step here (u.symmetric b c e)) (Reach-sym u p)

  -- A set of labels that no edge leaves.
  abbrev pub IsShut : List ℕ → Type 0
  IsShut labels =
      (a b : ℕ) → contains labels a ≡ true → has_edge g a b ≡ true → contains labels b ≡ true

  pub Reach-IsShut :
      (labels : List ℕ)
      → IsShut labels
      → {a b : ℕ} → contains labels a ≡ true
      → Reach g a b
      → contains labels b ≡ true
  Reach-IsShut labels shut m here = m
  Reach-IsShut labels shut m (step {b} {c} p e) = shut b c (Reach-IsShut labels shut m p) e

  -- `cs` are the classes of the labels in `labels`.
  pub record AreClasses (labels : List ℕ) (cs : List (List ℕ)) : Type 0 where
    pub once : (a : ℕ) → count_all a cs ≡ (if contains labels a then 1 else 0)
    pub joined : (a b : ℕ) → together cs a b ≡ true → Reach g a b
    pub complete : (a b : ℕ) → contains labels a ≡ true → Reach g a b → together cs a b ≡ true
    pub inhabited : all_inhabited cs ≡ true

  module _ (u : IsUndirected g) where
    -- The finished search leaves a set that is shut as well, since edges go both ways.
    module _ (first : ℕ) (labels : List ℕ) (shut : IsShut labels) (t : Search)
        (empty : t.open_nodes ≡ []) (i : Inv g u first labels t) where
      collected-IsShut : IsShut t.connected_component
      collected-IsShut a b m e =
          let done : contains t.open_nodes a ≡ false = rw empty refl in
          ground (arith, i.closed a b m e, done)

      unfinished-IsShut : IsShut t.unfinished_nodes
      unfinished-IsShut a b m e = ground (
        arith,
        shut a b,
        i.split a,
        i.split b,
        i.apart a,
        e,
        u.symmetric a b,
        collected-IsShut b a,
      )

      AreClasses-cons :
          (cs : List (List ℕ))
          → AreClasses t.unfinished_nodes cs
          → AreClasses labels (t.connected_component ∷ cs)
      AreClasses-cons cs rest = record {
        once = λ a. ground (
          arith,
          rest.once a,
          i.split a,
          i.apart a,
          contains-count t.connected_component a,
          i.distinct.collected a,
        );
        joined = λ a b e. elim (Bool-cases (together cs a b)) [
          | inl old ↦ rest.joined a b old
          | inr new ↦
              Reach-trans (Reach-sym u (i.sound a (ground (arith, e, new))))
                (i.sound b (ground (arith, e, new)))
        ];
        complete = λ a b m p. elim (Bool-cases (contains t.connected_component a)) [
          | inl here_it_is ↦
              let other = Reach-IsShut t.connected_component collected-IsShut here_it_is p in
              ground (arith, here_it_is, other)
          | inr elsewhere ↦
              let later = rest.complete a b (ground (arith, i.split a, elsewhere, m)) p in
              ground (arith, later)
        ];
        inhabited =
            ground (arith, rest.inhabited, contains-is_empty t.connected_component first i.root);
      }

    classes_from :
        (fuel : ℕ) (labels : List ℕ)
        → IsDistinct labels
        → ((a : ℕ) → contains labels a ≡ true → contains g.nodes a ≡ true)
        → IsShut labels
        → length labels ≤ fuel
        → (cs : List (List ℕ)) × (components_from fuel g labels ≡ some cs) × AreClasses labels cs
    unfolding components_from
    classes_from fuel [] d within shut h = (
      [],
      refl,
      record {
        once = λ a. refl;
        joined = λ a b e. absurd (ground (arith, e));
        complete = λ a b m p. absurd (ground (arith, m));
        inhabited = refl;
      },
    )
    classes_from zero (first ∷ rest) d within shut h = absurd (omega (arith, h))
    classes_from (suc fuel) (first ∷ rest) d within shut h =
        let labels = first ∷ rest in
        let (t, ends, empty, i) =
          grow_ends g u first labels within shut (length labels) (first_search first labels)
            (Inv-first_search g u first labels within shut (ground arith) d)
            (first_search-work first labels (ground arith)) in
        let smaller : length t.unfinished_nodes ≤ fuel = omega (
          arith,
          h,
          length-subset t.unfinished_nodes rest i.distinct.unfinished
              λ a m. ground (arith, i.split a, i.apart a, m, i.root),
        ) in
        let (cs, rest_ends, classes) =
          classes_from fuel t.unfinished_nodes i.distinct.unfinished
            (λ a m. ground (arith, within a, i.split a, m))
            (unfinished-IsShut first labels shut t empty i) smaller in
        (
          t.connected_component ∷ cs,
          rw (ends, rest_ends) refl,
          AreClasses-cons first labels shut t empty i cs classes,
        )

    -- `getConnectedComponents` ends, and its sets are the classes of the nodes.
    pub get_connected_components-AreClasses :
        (cs : List (List ℕ)) × (get_connected_components g ≡ some cs) × AreClasses g.nodes cs
    unfolding get_connected_components
    get_connected_components-AreClasses =
        classes_from (length g.nodes) g.nodes u.distinct (λ a m. m) (λ a b m e. u.inside a b e)
          (omega arith)
