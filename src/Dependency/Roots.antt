-- ===== src/Dependency/Roots.antt =====
-- The independent strong component is made of the components that no edge enters from another.
use hypertrie.Common.{
  ==_iff, Bool, Bool-cases, List, [], ap, arith, contains, false, get_or, if◌then◌else◌, inl, inr,
  leb, length, ltb, suc, sym, true, zero, ℕ, ◌%◌, ◌&&◌, ◌+◌, ◌<◌, ◌==◌, ◌||◌, ◌↔◌, ◌∙◌, ◌∷◌, ◌≡◌,
  ◌≤◌,
}
use hypertrie.Common.Sets.{contains-set_erase, set_erase}
use hypertrie.Dependency.{
  OperandDependencyGraph, OutEdge, VariableId, erase_all_entered, erase_entered, in_candidates,
  iota, isc_operands,
}

abbrev pub has_target : List OutEdge → ℕ → Bool
has_target [] w = false
has_target (e ∷ edges) w = e.target == w || has_target edges w

abbrev pub component_of : List ℕ → ℕ → ℕ
component_of components v = get_or components v 0

iota-contains : (v n a : ℕ) → v + n ≤ 256 → contains (iota v n) a ≡ (leb v a && ltb a (v + n))
iota-contains v zero a b = ground arith
iota-contains v (suc n) a b =
    let small : v % 256 ≡ v = omega (arith, b) in
    rw small (ground (arith, iota-contains (suc v) n a (omega (arith, b))))

in_candidates-contains :
    (components candidates : List ℕ) (v : ℕ) (var_ids : List (List VariableId)) (a : ℕ)
    → v + length var_ids ≤ 256
    → contains (in_candidates components candidates v var_ids) a
      ≡ (leb v a && (ltb a (v + length var_ids) && contains candidates (component_of components a)))
unfolding in_candidates
in_candidates-contains components candidates v [] a b = ground arith
in_candidates-contains components candidates v (_ ∷ rest) a b =
    let small : v % 256 ≡ v = omega (arith, b) in
    let later = in_candidates-contains components candidates (suc v) rest a (omega (arith, b)) in
    rw small (elim (Bool-cases (v == a)) [
      | inl e ↦
          let same = ap (λ n. contains candidates (component_of components n)) ((==_iff v a).0 e) in
          ground (arith, later, e, same)
      | inr e ↦ ground (arith, later, e)
    ])

module _ (components : List ℕ) where
  erase_entered-keeps_out :
      (own c : ℕ) (edges : List OutEdge) (candidates : List ℕ)
      → contains candidates c ≡ false
      → contains (erase_entered components own edges candidates) c ≡ false
  unfolding erase_entered
  erase_entered-keeps_out own c [] candidates m = m
  erase_entered-keeps_out own c (x ∷ edges) candidates m =
      let entered = component_of components x.target in
      erase_entered-keeps_out own c edges
        (if entered == own then candidates else set_erase entered candidates)
        (ground (arith, m, contains-set_erase entered candidates c))

  -- An edge from another component erases.
  erase_entered-erases :
      (own c : ℕ) (edges : List OutEdge) (candidates : List ℕ) (w : ℕ)
      → has_target edges w ≡ true
      → component_of components w ≡ c
      → (c == own) ≡ false
      → contains (erase_entered components own edges candidates) c ≡ false
  unfolding erase_entered
  erase_entered-erases own c [] candidates w h e other = absurd (ground (arith, h))
  erase_entered-erases own c (x ∷ edges) candidates w h e other =
      let entered = component_of components x.target in
      let next = if entered == own then candidates else set_erase entered candidates in
      elim (Bool-cases (x.target == w)) [
        | inl same ↦
            let at_w = ap (component_of components) ((==_iff x.target w).0 same) in
            erase_entered-keeps_out own c edges next
              (ground (arith, at_w, e, other, contains-set_erase entered candidates c))
        | inr apart ↦ erase_entered-erases own c edges next w (ground (arith, h, apart)) e other
      ]

  -- What no edge from another component enters stays.
  erase_entered-keeps :
      (own c : ℕ) (edges : List OutEdge) (candidates : List ℕ)
      → contains candidates c ≡ true
      → ((w : ℕ) → has_target edges w ≡ true → component_of components w ≡ c → c ≡ own)
      → contains (erase_entered components own edges candidates) c ≡ true
  unfolding erase_entered
  erase_entered-keeps own c [] candidates m free = m
  erase_entered-keeps own c (x ∷ edges) candidates m free =
      let entered = component_of components x.target in
      erase_entered-keeps own c edges
        (if entered == own then candidates else set_erase entered candidates)
        (ground (arith, m, contains-set_erase entered candidates c, free x.target (ground arith)))
        λ w h e. free w (ground (arith, h)) e

  -- `v` is the vertex of the first of the lists of edges.
  erase_all-keeps_out :
      (c v : ℕ) (out_edges : List (List OutEdge)) (candidates : List ℕ)
      → contains candidates c ≡ false
      → contains (erase_all_entered components v out_edges candidates) c ≡ false
  unfolding erase_all_entered
  erase_all-keeps_out c v [] candidates m = m
  erase_all-keeps_out c v (edges ∷ rest) candidates m =
      let own = component_of components v in
      erase_all-keeps_out c (suc v) rest (erase_entered components own edges candidates)
        (erase_entered-keeps_out own c edges candidates m)

  erase_all-erases :
      (c v i : ℕ) (out_edges : List (List OutEdge)) (candidates : List ℕ) (w : ℕ)
      → has_target (get_or out_edges i []) w ≡ true
      → component_of components w ≡ c
      → (c == component_of components (v + i)) ≡ false
      → contains (erase_all_entered components v out_edges candidates) c ≡ false
  unfolding erase_all_entered
  erase_all-erases c v i [] candidates w h e other = absurd (ground (arith, h))
  erase_all-erases c v zero (edges ∷ rest) candidates w h e other =
      let own = component_of components v in
      let start : v + 0 ≡ v = omega arith in
      let same = ap (λ n. c == component_of components n) start in
      erase_all-keeps_out c (suc v) rest (erase_entered components own edges candidates)
        (erase_entered-erases own c edges candidates w h e (sym same ∙ other))
  erase_all-erases c v (suc i) (edges ∷ rest) candidates w h e other =
      let own = component_of components v in
      let moved : suc v + i ≡ v + suc i = omega arith in
      let same = ap (λ n. c == component_of components n) moved in
      erase_all-erases c (suc v) i rest (erase_entered components own edges candidates) w h e
        (same ∙ other)

  erase_all-keeps :
      (c v : ℕ) (out_edges : List (List OutEdge)) (candidates : List ℕ)
      → contains candidates c ≡ true
      → ((i w : ℕ)
          → has_target (get_or out_edges i []) w ≡ true
          → component_of components w ≡ c
          → c ≡ component_of components (v + i))
      → contains (erase_all_entered components v out_edges candidates) c ≡ true
  unfolding erase_all_entered
  erase_all-keeps c v [] candidates m free = m
  erase_all-keeps c v (edges ∷ rest) candidates m free =
      let own = component_of components v in
      let start : v + 0 ≡ v = omega arith in
      let moved : (i : ℕ) → v + suc i ≡ suc v + i = λ i. omega arith in
      erase_all-keeps c (suc v) rest (erase_entered components own edges candidates)
        (erase_entered-keeps own c edges candidates m
          λ w h e. free 0 w h e ∙ ap (component_of components) start)
        λ i w h e. free (suc i) w h e ∙ ap (component_of components) (moved i)

-- With several components, at most 256 of them and at most 256 vertices, and for a vertex of the
-- graph whose component is one of them: the vertex is in the independent strong component exactly
-- where every edge into a vertex of its component comes from that component.
pub isc_operands-entered :
    (num_components : ℕ) (components : List ℕ) (g : OperandDependencyGraph) (v : ℕ)
    → 1 < num_components
    → num_components ≤ 256
    → length g.var_ids ≤ 256
    → v < length g.var_ids
    → component_of components v < num_components
    → (contains (isc_operands num_components components g) v ≡ true) ↔ (
        (u w : ℕ)
        → has_target (get_or g.out_edges u []) w ≡ true
        → component_of components w ≡ component_of components v
        → component_of components v ≡ component_of components u)
unfolding isc_operands
isc_operands-entered num_components components g v several few_components few lt known =
    let c = component_of components v in
    let all = iota 0 num_components in
    let left = erase_all_entered components 0 g.out_edges all in
    let start : contains all c ≡ true =
      ground (arith, iota-contains 0 num_components c (omega (arith, few_components)), known) in
    let isc = in_candidates-contains components left 0 g.var_ids v (omega (arith, few)) in
    let at_u : (u : ℕ) → 0 + u ≡ u = λ u. omega arith in
    (
      λ m u w h e. elim (Bool-cases (c == component_of components u)) [
        | inl same ↦ (==_iff _ _).0 same
        | inr other ↦
            let moved = ap (λ n. c == component_of components n) (at_u u) in
            let gone = erase_all-erases components c 0 u g.out_edges all w h e (moved ∙ other) in
            absurd (ground (arith, several, m, isc, gone))
      ],
      λ free.
          let stays =
            erase_all-keeps components c 0 g.out_edges all start
              λ u w h e. free u w h e ∙ ap (component_of components) (sym (at_u u)) in
          ground (arith, several, isc, lt, stays),
    )
