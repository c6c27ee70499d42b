-- ===== src/Tests/Dependencies.antt =====
-- The dependency graph of `a,ab,b`, where the second operand is needed by the third, at concrete
-- inputs.
use hypertrie.Common.{
  List, [], arith, contains, false, get_or, length, refl, some, suc, true, zero, ℕ, ◌<◌, ◌↔◌, ◌∷◌,
  ◌≡◌,
}
use hypertrie.Dependency.{OperandDependencyGraph, isc_operands, lonely_var_ids, prune_graph}
use hypertrie.Dependency.Prune.{DependsOn, prune_graph-DependsOn}
use hypertrie.Dependency.Roots.{component_of, has_target, isc_operands-entered}
use hypertrie.Dependency.Vars.{lonely_var_ids-once}

abbrev sample : OperandDependencyGraph
sample = record {
  var_ids = (97 ∷ []) ∷ (97 ∷ 98 ∷ []) ∷ (98 ∷ 99 ∷ []) ∷ [];
  out_edges =
      (record { target = 1; var_id = 97; is_opt = true } ∷ [])
      ∷ (record { target = 2; var_id = 98; is_opt = false } ∷ [])
      ∷ []
      ∷ [];
}

prune_graph-sample : prune_graph sample (1 ∷ []) ≡ some (0 ∷ [])
unfolding prune_graph
prune_graph-sample = refl

sample-targets :
    (u w : ℕ) → has_target (get_or sample.out_edges u []) w ≡ true → w < length sample.var_ids
sample-targets zero w h = ground (arith, h)
sample-targets (suc zero) w h = ground (arith, h)
sample-targets (suc (suc zero)) w h = absurd (ground (arith, h))
sample-targets (suc (suc (suc u))) w h = absurd (ground (arith, h))

prune_graph-DependsOn_example :
    (kept : List ℕ) × (prune_graph sample (1 ∷ []) ≡ some kept)
    × ((v : ℕ) → v < 3 → (contains kept v ≡ true) ↔ ¬ DependsOn sample.out_edges (1 ∷ []) v)
prune_graph-DependsOn_example = prune_graph-DependsOn sample (1 ∷ []) (omega arith) sample-targets

lonely_var_ids-once_example : contains (lonely_var_ids sample) 99 ≡ true
lonely_var_ids-once_example = lonely_var_ids-once sample 99

-- Boost numbers the strong components of the sample from the last vertex on.
isc_operands-entered_example : (contains (isc_operands 3 (2 ∷ 1 ∷ 0 ∷ []) sample) 0 ≡ true) ↔ (
    (u w : ℕ)
    → has_target (get_or sample.out_edges u []) w ≡ true
    → component_of (2 ∷ 1 ∷ 0 ∷ []) w ≡ 2
    → 2 ≡ component_of (2 ∷ 1 ∷ 0 ∷ []) u)
isc_operands-entered_example =
    isc_operands-entered 3 (2 ∷ 1 ∷ 0 ∷ []) sample 0 (omega arith) (omega arith) (omega arith)
      (omega arith) (omega arith)
