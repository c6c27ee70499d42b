-- ===== src/Dependency/Prune.antt =====
-- `prune_graph` ends, and takes away exactly the operands that depend on an empty one.
use hypertrie.Common.{
  ==_iff, Bool, Bool-cases, List, [], ap, arith, contains, contains-append, false, get_or,
  if◌then◌else◌, inl, inr, leb, length, length-append, ltb, not, refl, some, suc, sym, true, zero,
  ℕ, ◌%◌, ◌&&◌, ◌++◌, ◌+◌, ◌-◌, ◌<◌, ◌==◌, ◌||◌, ◌↔◌, ◌∙◌, ◌∷◌, ◌≡◌, ◌≤◌,
}
use hypertrie.Common.Sets.{contains-set_insert, set_insert}
use hypertrie.Dependency.{
  OperandDependencyGraph, OutEdge, VariableId, dependent_targets, not_pruned, num_edges,
  prune_graph, prune_loop,
}
use hypertrie.Dependency.Roots.{has_target}

-- Whether an edge that is not optional leads to the vertex.
abbrev pub needs : List OutEdge → ℕ → Bool
needs [] w = false
needs (e ∷ edges) w = (not e.is_opt && e.target == w) || needs edges w

-- The operands that are reached from the empty ones by edges that are not optional.
pub data DependsOn (out_edges : List (List OutEdge)) (empty_operands : List ℕ) : ℕ → Type 0 where
  is_itself : {v : ℕ} → contains empty_operands v ≡ true → DependsOn out_edges empty_operands v
  follows :
      {v w : ℕ}
      → DependsOn out_edges empty_operands v
      → needs (get_or out_edges v []) w ≡ true
      → DependsOn out_edges empty_operands w

-- The edges lead to vertices that are in range.
abbrev pub AreNarrow : List OutEdge → Type 0
AreNarrow edges = (w : ℕ) → has_target edges w ≡ true → w < 256

contains-dependent_targets :
    (edges : List OutEdge) (w : ℕ)
    → AreNarrow edges
    → contains (dependent_targets edges) w ≡ needs edges w
unfolding dependent_targets
contains-dependent_targets [] w narrow = refl
contains-dependent_targets (e ∷ edges) w narrow =
    let bound = narrow e.target (ground arith) in
    let small : e.target % 256 ≡ e.target = omega (arith, bound) in
    let rest = contains-dependent_targets edges w (λ v h. narrow v (ground (arith, h))) in
    rw small (ground (arith, rest))

length-dependent_targets : (edges : List OutEdge) → length (dependent_targets edges) ≤ length edges
unfolding dependent_targets
length-dependent_targets [] = omega arith
length-dependent_targets (e ∷ edges) = ground (arith, length-dependent_targets edges)

-- The edges of the vertices that are not pruned, of the vertices from `p` on.
abbrev edges_left : ℕ → List (List OutEdge) → List ℕ → ℕ
edges_left p [] pruned = 0
edges_left p (edges ∷ rest) pruned =
    (if contains pruned p then 0 else length edges) + edges_left (suc p) rest pruned

edges_left-before :
    (p v : ℕ) (out_edges : List (List OutEdge)) (pruned : List ℕ)
    → v < p
    → edges_left p out_edges (set_insert v pruned) ≡ edges_left p out_edges pruned
edges_left-before p v [] pruned lt = refl
edges_left-before p v (edges ∷ rest) pruned lt = ground (
  arith,
  edges_left-before (suc p) v rest pruned (omega (arith, lt)),
  contains-set_insert v pruned p,
  lt,
)

-- Pruning a vertex uses its edges up.
edges_left-set_insert :
    (p v : ℕ) (out_edges : List (List OutEdge)) (pruned : List ℕ)
    → p ≤ v
    → contains pruned v ≡ false
    → edges_left p out_edges (set_insert v pruned) + length (get_or out_edges (v - p) [])
      ≡ edges_left p out_edges pruned
edges_left-set_insert p v [] pruned le fresh = omega arith
edges_left-set_insert p v (edges ∷ rest) pruned le fresh =
    let inserted = contains-set_insert v pruned p in
    elim (Bool-cases (p == v)) [
      | inl e ↦
          let start : v - p ≡ 0 = ground (arith, e) in
          let first : length (get_or (edges ∷ rest) (v - p) []) ≡ length edges =
            ap (λ n. length (get_or (edges ∷ rest) n [])) start in
          let before = edges_left-before (suc p) v rest pruned (ground (arith, e)) in
          let at_p : contains pruned p ≡ contains pruned v =
            ap (contains pruned) ((==_iff p v).0 e) in
          ground (arith, first, before, inserted, e, fresh, at_p)
      | inr e ↦
          let shifted : v - p ≡ suc (v - suc p) = ground (arith, e, le) in
          let later : length (get_or (edges ∷ rest) (v - p) [])
              ≡ length (get_or rest (v - suc p) []) =
            ap (λ n. length (get_or (edges ∷ rest) n [])) shifted in
          let moved = edges_left-set_insert (suc p) v rest pruned (ground (arith, e, le)) fresh in
          ground (arith, later, moved, inserted, e)
    ]

edges_left-none :
    (p : ℕ) (out_edges : List (List OutEdge)) → edges_left p out_edges [] ≡ num_edges out_edges
edges_left-none p [] = refl
edges_left-none p (edges ∷ rest) = omega (arith, edges_left-none (suc p) rest)

contains-pruned :
    (a v : ℕ) (pruned : List ℕ)
    → contains pruned a ≡ true
    → (a == v) ≡ true
    → contains pruned v ≡ true
contains-pruned a v pruned m e = ap (contains pruned) (sym ((==_iff a v).0 e)) ∙ m

module _ (out_edges : List (List OutEdge)) (empty_operands : List ℕ)
    (narrow : (u : ℕ) → AreNarrow (get_or out_edges u [])) where
  record Inv (to_check pruned : List ℕ) : Type 0 where
    started :
        (v : ℕ)
        → contains empty_operands v ≡ true
        → (contains to_check v || contains pruned v) ≡ true
    sound :
        (v : ℕ)
        → (contains to_check v || contains pruned v) ≡ true
        → DependsOn out_edges empty_operands v
    closed :
        (v w : ℕ)
        → contains pruned v ≡ true
        → contains (dependent_targets (get_or out_edges v [])) w ≡ true
        → (contains to_check w || contains pruned w) ≡ true

  Inv-start : Inv empty_operands []
  Inv-start = record {
    started = λ v m. ground (arith, m);
    sound = λ v m. is_itself (ground (arith, m));
    closed = λ v w m e. absurd (ground (arith, m));
  }

  Inv-skip :
      (operand : ℕ) (to_check pruned : List ℕ)
      → contains pruned operand ≡ true
      → Inv (operand ∷ to_check) pruned
      → Inv to_check pruned
  Inv-skip operand to_check pruned m i =
      let stays = λ (v : ℕ). contains-pruned operand v pruned m in
      record {
        started = λ v e. ground (arith, i.started v e, stays v);
        sound = λ v e. i.sound v (ground (arith, e));
        closed = λ v w p e. ground (arith, i.closed v w p e, stays w);
      }

  Inv-visit :
      (operand : ℕ) (to_check pruned : List ℕ)
      → Inv (operand ∷ to_check) pruned
      → Inv
          (to_check ++ dependent_targets (get_or out_edges operand []))
          (set_insert operand pruned)
  Inv-visit operand to_check pruned i =
      let targets = dependent_targets (get_or out_edges operand []) in
      let queue = contains-append to_check targets in
      let added = contains-set_insert operand pruned in
      record {
        started = λ v e. ground (arith, i.started v e, queue v, added v);
        sound = λ v e. elim (Bool-cases (contains (operand ∷ to_check) v || contains pruned v)) [
          | inl old ↦ i.sound v old
          | inr new ↦ follows (i.sound operand (ground arith)) (
              ground (
                arith,
                e,
                new,
                queue v,
                added v,
                contains-dependent_targets (get_or out_edges operand []) v (narrow operand),
              ))
        ];
        closed = λ v w p e.
            let arc : operand ≡ v
                → contains (dependent_targets (get_or out_edges v [])) w ≡ contains targets w =
              λ same. ap (λ n. contains (dependent_targets (get_or out_edges n [])) w) (sym same) in
            ground (arith, i.closed v w, arc, queue w, added v, added w, p, e);
      }

  prune_loop_ends :
      (fuel : ℕ) (to_check pruned : List ℕ)
      → Inv to_check pruned
      → length to_check + edges_left 0 out_edges pruned ≤ fuel
      → (t : List ℕ) × (prune_loop fuel out_edges to_check pruned ≡ some t) × Inv [] t
  unfolding prune_loop
  prune_loop_ends fuel [] pruned i h = (pruned, refl, i)
  prune_loop_ends zero (operand ∷ to_check) pruned i h = absurd (omega (arith, h))
  prune_loop_ends (suc fuel) (operand ∷ to_check) pruned i h =
      elim (Bool-cases (contains pruned operand)) [
        | inl m ↦
            let (t, ends, j) =
              prune_loop_ends fuel to_check pruned (Inv-skip operand to_check pruned m i)
                (omega (arith, h)) in
            (t, rw m ends, j)
        | inr fresh ↦
            let edges = get_or out_edges operand [] in
            let same : operand - 0 ≡ operand = omega arith in
            let place = ap (λ n. length (get_or out_edges n [])) same in
            let used = edges_left-set_insert 0 operand out_edges pruned (omega arith) fresh in
            let longer = length-append to_check (dependent_targets edges) in
            let few = length-dependent_targets edges in
            let (t, ends, j) =
              prune_loop_ends fuel (to_check ++ dependent_targets edges) (set_insert operand pruned)
                (Inv-visit operand to_check pruned i)
                (omega (arith, h, place, used, longer, few)) in
            let visits = λ (b : Bool).
              if b
              then prune_loop fuel out_edges to_check pruned
              else prune_loop fuel out_edges (to_check ++ dependent_targets edges)
                  (set_insert operand pruned) in
            (t, ap visits fresh ∙ ends, j)
      ]

  pruned-DependsOn :
      (pruned : List ℕ)
      → Inv [] pruned
      → {w : ℕ} → DependsOn out_edges empty_operands w
      → contains pruned w ≡ true
  pruned-DependsOn pruned i (is_itself {v} m) = ground (arith, i.started v m)
  pruned-DependsOn pruned i (follows {v} {w} p e) =
      let queued = contains-dependent_targets (get_or out_edges v []) w (narrow v) ∙ e in
      ground (arith, i.closed v w (pruned-DependsOn pruned i p) queued)

not_pruned-contains :
    (p : ℕ) (var_ids : List (List VariableId)) (pruned : List ℕ) (v : ℕ)
    → p + length var_ids ≤ 256
    → contains (not_pruned p var_ids pruned) v
      ≡ (leb p v && (ltb v (p + length var_ids) && not (contains pruned v)))
unfolding not_pruned
not_pruned-contains p [] pruned v b = ground arith
not_pruned-contains p (_ ∷ var_ids) pruned v b =
    let small : p % 256 ≡ p = omega (arith, b) in
    let rest = not_pruned-contains (suc p) var_ids pruned v (omega (arith, b)) in
    rw small (elim (Bool-cases (p == v)) [
      | inl e ↦ let same = ap (contains pruned) ((==_iff p v).0 e) in ground (arith, rest, e, same)
      | inr e ↦ ground (arith, rest, e)
    ])

-- For a graph of at most 256 vertices whose edges lead to vertices of it, and every list of empty
-- operands: `prune_graph` ends, and a vertex of the graph is kept exactly where it is not reached
-- from an empty operand by edges that are not optional.
pub prune_graph-DependsOn :
    (g : OperandDependencyGraph) (empty_operands : List ℕ)
    → length g.var_ids ≤ 256
    → ((u w : ℕ) → has_target (get_or g.out_edges u []) w ≡ true → w < length g.var_ids)
    → (kept : List ℕ) × (prune_graph g empty_operands ≡ some kept)
      × ((v : ℕ)
          → v < length g.var_ids
          → (contains kept v ≡ true) ↔ ¬ DependsOn g.out_edges empty_operands v)
unfolding prune_graph
prune_graph-DependsOn g empty_operands few inside =
    let narrow : (u : ℕ) → AreNarrow (get_or g.out_edges u []) =
      λ u w h. let bound = inside u w h in omega (arith, bound, few) in
    let (pruned, ends, i) =
      prune_loop_ends g.out_edges empty_operands narrow
        (length empty_operands + num_edges g.out_edges) empty_operands []
        (Inv-start g.out_edges empty_operands narrow)
        (omega (arith, edges_left-none 0 g.out_edges)) in
    let kept_at = λ (v : ℕ). not_pruned-contains 0 g.var_ids pruned v (omega (arith, few)) in
    (
      not_pruned 0 g.var_ids pruned,
      rw ends refl,
      λ v lt.
          let kept = kept_at v in
          (
            λ m d.
                let taken = pruned-DependsOn g.out_edges empty_operands narrow pruned i d in
                ground (arith, kept, m, taken),
            λ free. elim (Bool-cases (contains pruned v)) [
              | inl m ↦ absurd (free (i.sound v (ground (arith, m))))
              | inr m ↦ ground (arith, kept, m, lt)
            ],
          ),
    )
