-- ===== src/Subscript/Graph/Growth.antt =====
-- The search for one component ends with the fuel given, with all that its first label reaches.
use hypertrie.Common.{
  Bool-cases, List, List-cases, [], ap, arith, contains, false, inl, inr, length, refl, some, suc,
  true, zero, ℕ, ◌+◌, ◌||◌, ◌∙◌, ◌∷◌, ◌≡◌, ◌≤◌,
}
use hypertrie.Common.Assoc.{at_or}
use hypertrie.Common.Sets.{
  IsDistinct, contains-set_erase, count-set_erase, length-set_erase_lt, set_erase,
}
use hypertrie.Subscript.Graph.{Search, UndirectedGraph, first_search, grow, neighbors, visit}
use hypertrie.Subscript.Graph.Edges.{IsUndirected, has_edge}
use hypertrie.Subscript.Graph.Reach.{
  IsDistinctSearch, Reach, here, step, visit-IsDistinctSearch, visit-Visited, visit-work,
}

round :
    (g : UndirectedGraph) (s : Search) (node : ℕ) (rest adj : List ℕ) (fuel : ℕ)
    → s.open_nodes ≡ node ∷ rest
    → neighbors g node ≡ some adj
    → grow (suc fuel) g s
      ≡ grow fuel g (visit adj (record s { open_nodes = set_erase node s.open_nodes }))
unfolding grow
round g s node rest adj fuel e stored = simp (e, grow, stored)

module _ (g : UndirectedGraph) (u : IsUndirected g) (first : ℕ) (start : List ℕ) where
  -- Of a state of the search that began with the unfinished labels `start`.
  pub record Inv (s : Search) : Type 0 where
    pub split :
        (a : ℕ)
        → contains start a ≡ (contains s.unfinished_nodes a || contains s.connected_component a)
    pub apart :
        (a : ℕ) → contains s.unfinished_nodes a ≡ true → contains s.connected_component a ≡ false
    pub queued : (a : ℕ) → contains s.open_nodes a ≡ true → contains s.connected_component a ≡ true
    pub root : contains s.connected_component first ≡ true
    pub sound : (a : ℕ) → contains s.connected_component a ≡ true → Reach g first a
    pub closed :
        (a b : ℕ)
        → contains s.connected_component a ≡ true
        → has_edge g a b ≡ true
        → (contains s.open_nodes a || contains s.connected_component b) ≡ true
    pub distinct : IsDistinctSearch s

  module _ (within : (a : ℕ) → contains start a ≡ true → contains g.nodes a ≡ true)
      (shut : (a b : ℕ)
        → contains start a ≡ true
        → has_edge g a b ≡ true
        → contains start b ≡ true) where
    pub Inv-first_search :
        contains start first ≡ true → IsDistinct start → Inv (first_search first start)
    unfolding first_search
    Inv-first_search m d =
        let erased = λ (a : ℕ). contains-set_erase first start a in
        record {
          split = λ a. ground (arith, erased a, m);
          apart = λ a. ground (arith, erased a);
          queued = λ a h. h;
          root = ground arith;
          sound = λ a h. let same : a ≡ first = ground (arith, h) in rw same here;
          closed = λ a b h e. ground (arith, h);
          distinct = record {
            unfinished = λ a. ground (arith, count-set_erase a first start, d a);
            collected = λ a. ground arith;
          };
        }

    Inv-visit :
        (s : Search) (node : ℕ) (rest : List ℕ)
        → s.open_nodes ≡ node ∷ rest
        → Inv s
        → Inv
            (visit (at_or node [] g.edges) (record s { open_nodes = set_erase node s.open_nodes }))
    Inv-visit s node rest e i =
        let adj = at_or node [] g.edges in
        let s₀ : Search = record s { open_nodes = set_erase node s.open_nodes } in
        let seen = visit-Visited adj s₀ in
        let popped = contains-set_erase node s.open_nodes in
        let known = i.queued node (rw e (ground arith)) in
        let arc : (a b : ℕ) → a ≡ node → has_edge g a b ≡ contains adj b =
          λ a b same. rw same refl in
        record {
          split = λ a. ground (arith, i.split a, (seen a).unfinished, (seen a).collected);
          apart = λ a h. ground (arith, i.apart a, (seen a).unfinished, (seen a).collected);
          queued = λ a h. ground (arith, i.queued a, (seen a).opened, (seen a).collected, popped a);
          root = ground (arith, i.root, (seen first).collected);
          sound = λ a h. elim (Bool-cases (contains s.connected_component a)) [
            | inl old ↦ i.sound a old
            | inr new ↦
                step (i.sound node known)
                  (arc node a refl ∙ ground (arith, (seen a).collected, new, h))
          ];
          closed = λ a b h edge. ground (
            arith,
            arc a b,
            i.closed a b,
            shut a b,
            i.split a,
            i.split b,
            popped a,
            (seen a).opened,
            (seen a).collected,
            (seen b).collected,
          );
          distinct =
              visit-IsDistinctSearch adj s₀
                (record { unfinished = i.distinct.unfinished; collected = i.distinct.collected });
        }

    -- The unfinished and the open labels together fall by one in every round.
    pub grow_ends :
        (fuel : ℕ) (s : Search)
        → Inv s
        → length s.unfinished_nodes + length s.open_nodes ≤ fuel
        → (t : Search) × (grow fuel g s ≡ some t) × (t.open_nodes ≡ []) × Inv t
    unfolding grow
    grow_ends zero s i h = elim (List-cases s.open_nodes) [
      | inl e ↦ (s, simp (e, grow), e, i)
      | inr (node, rest, e) ↦ absurd (omega (arith, h, ap length e))
    ]
    grow_ends (suc fuel) s i h = elim (List-cases s.open_nodes) [
      | inl e ↦ (s, simp (e, grow), e, i)
      | inr (node, rest, e) ↦
          let adj = at_or node [] g.edges in
          let s₀ : Search = record s { open_nodes = set_erase node s.open_nodes } in
          let popped : contains s.open_nodes node ≡ true = rw e (ground arith) in
          let known = within node (ground (arith, i.split node, i.queued node popped)) in
          let stored = u.stored node known in
          let (t, ends, empty, j) =
            grow_ends fuel (visit adj s₀) (Inv-visit s node rest e i)
              (omega (arith, h, visit-work adj s₀, length-set_erase_lt node s.open_nodes popped)) in
          (t, round g s node rest adj fuel e stored ∙ ends, empty, j)
    ]
