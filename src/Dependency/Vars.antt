-- ===== src/Dependency/Vars.antt =====
-- The variables that stand once, and the operands that have a variable.
use hypertrie.Common.{
  ==_iff, Bool, Bool-cases, List, [], ap, arith, contains, false, if◌then◌else◌, inl, inr, not,
  true, ℕ, ◌==◌, ◌||◌, ◌∷◌, ◌≡◌,
}
use hypertrie.Common.Sets.{contains-set_erase, contains-set_insert, count, count_all}
use hypertrie.Dependency.{
  LonelySearch, OperandDependencyGraph, VariableId, lonely_var_ids, see_var_id, see_var_ids,
  see_vertices,
}

-- One variable of the search: how often it stands decides whether it is lonely.
abbrev pub IsKnown : LonelySearch → VariableId → Type 0
IsKnown s a = contains s.lonely a ≡ true → contains s.visited a ≡ true

abbrev pub lonely_after : LonelySearch → VariableId → ℕ → Bool
lonely_after s a n =
    if contains s.lonely a then n == 0 else if contains s.visited a then false else n == 1

see_var_ids-lonely :
    (vs : List VariableId) (s : LonelySearch) (a : VariableId)
    → IsKnown s a
    → (contains (see_var_ids vs s).lonely a ≡ lonely_after s a (count a vs))
      × (contains (see_var_ids vs s).visited a ≡ (contains s.visited a || not (count a vs == 0)))
unfolding see_var_ids see_var_id
see_var_ids-lonely [] s a k = (ground arith, ground arith)
see_var_ids-lonely (v ∷ vs) s a k =
    let erased = contains-set_erase v s.lonely a in
    let inserted = contains-set_insert v s.lonely a in
    let visits = contains-set_insert v s.visited a in
    elim (Bool-cases (v == a)) [
      | inl e ↦
          let at_lonely = ap (contains s.lonely) ((==_iff v a).0 e) in
          let visited = ap (contains s.visited) ((==_iff v a).0 e) in
          let known : IsKnown (see_var_id v s) a =
            λ m. ground (arith, m, k, erased, inserted, visits, e, at_lonely, visited) in
          let rest = see_var_ids-lonely vs (see_var_id v s) a known in
          (
            ground (arith, rest.0, k, erased, inserted, visits, e, at_lonely, visited),
            ground (arith, rest.1, k, erased, inserted, visits, e, at_lonely, visited),
          )
      | inr e ↦
          let known : IsKnown (see_var_id v s) a =
            λ m. ground (arith, m, k, erased, inserted, visits, e) in
          let rest = see_var_ids-lonely vs (see_var_id v s) a known in
          (
            ground (arith, rest.0, k, erased, inserted, visits, e),
            ground (arith, rest.1, k, erased, inserted, visits, e),
          )
    ]

see_vertices-lonely :
    (var_ids : List (List VariableId)) (s : LonelySearch) (a : VariableId)
    → IsKnown s a
    → contains (see_vertices var_ids s).lonely a ≡ lonely_after s a (count_all a var_ids)
unfolding see_vertices
see_vertices-lonely [] s a k = ground arith
see_vertices-lonely (vs ∷ var_ids) s a k =
    let first = see_var_ids-lonely vs s a k in
    let known : IsKnown (see_var_ids vs s) a = λ m. ground (arith, m, k, first.0, first.1) in
    let rest = see_vertices-lonely var_ids (see_var_ids vs s) a known in
    ground (arith, rest, k, first.0, first.1)

-- A variable is in `lonely_var_ids` exactly where it stands once in all the operands.
pub lonely_var_ids-once :
    (g : OperandDependencyGraph) (a : VariableId)
    → contains (lonely_var_ids g) a ≡ (count_all a g.var_ids == 1)
unfolding lonely_var_ids
lonely_var_ids-once g a =
    ground (arith, see_vertices-lonely g.var_ids (record { visited = []; lonely = [] }) a (λ m. m))
