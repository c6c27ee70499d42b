-- ===== src/Einsum/Operands.antt =====
-- The operands of the next subscript, and the key parts that a join goes through.
use hypertrie.Common.{
  Bool, Bool-cases, List, [], ap, arith, contains, false, inl, inr, is_empty, length, refl, suc,
  sym, true, ℕ, ◌%◌, ◌&&◌, ◌+◌, ◌==◌, ◌∙◌, ◌∷◌, ◌≡◌, ◌≤◌,
}
use hypertrie.Common.Sets.{IsDistinct, length-subset}
use hypertrie.Einsum.{ops_size}
use hypertrie.Einsum.Joins.{
  contains-label_poss, label_poss_from-Labelled, no_labels, other_labels-absent, poss_in, push_some,
}
use hypertrie.Einsum.Meaning.{Matches, Means}
use hypertrie.Einsum.Positions.{length-label_poss_from}
use hypertrie.HashJoin.{free_positions, Diagonals, Promises, join_ops}
use hypertrie.HashJoin.Values.{free_positions-within, all_have, joined}
use hypertrie.Subscript.{OperandSc, label_poss_from, next_operands, other_labels}
use hypertrie.Subscript.Labels.{occurs}
use mathlib.Core.Bool.{true≢false}

and_left : (a b : Bool) → (a && b) ≡ true → a ≡ true
and_left a b e = ground (arith, e)

module _ (ds : Diagonals) (laws : Promises ds) (means : Means ds laws) where
  pub joined-Matches :
      (xs : List ds.Operand) (scs : List OperandSc) (l k : ℕ)
      → Matches ds xs scs
      → Matches ds (joined ds laws xs (poss_in ds laws means scs l) k) (next_operands l scs)
  unfolding next_operands
  joined-Matches [] [] l k fit = fit
  joined-Matches [] (sc ∷ scs) l k (same, fit) = absurd (omega (arith, same))
  joined-Matches (x ∷ xs) [] l k (same, fit) = absurd (omega (arith, same))
  joined-Matches (x ∷ xs) (sc ∷ scs) l k (same, (some_labels, b, deep, fit)) =
      let (rest_same, rest) = joined-Matches xs scs l k (omega (arith, same), fit) in
      let poss = label_poss_from 0 sc l in
      let n = length-label_poss_from 0 sc l in
      elim (Bool-cases (length poss == 0)) [
        | inl unjoined ↦
            let absent : contains sc l ≡ false =
              ground (arith, unjoined, contains-label_poss 0 sc l) in
            let pushed = push_some sc (next_operands l scs) (ground (arith, some_labels)) in
            rw (unjoined, other_labels-absent sc l absent, pushed)
              (ap suc rest_same, (some_labels, b, deep, rest))
        | inr joins ↦
            let free =
              free_positions-within (ds.depth x) (length poss) (ground (arith, joins))
                (omega (arith, n, deep)) (omega (arith, b, deep)) in
            elim (Bool-cases (free_positions (ds.depth x) (length poss) == 0)) [
              | inl whole ↦
                  let none_left =
                    no_labels (other_labels l sc) (ground (arith, n, deep, free, whole)) in
                  rw (joins, whole, none_left) (rest_same, rest)
              | inr left ↦
                  let has = label_poss_from-Labelled ds laws means x sc l b deep joins in
                  let pushed =
                    push_some (other_labels l sc) (next_operands l scs)
                      (ground (arith, n, deep, free, left)) in
                  let less =
                    means.slice_depth x poss k has.valid has.some_poss
                      (ground (arith, left, free)) in
                  rw (joins, left, pushed)
                    (
                      ap suc rest_same,
                      (
                        (ground (arith, n, deep, free, left)),
                        omega (arith, n, b),
                        less ∙ omega (arith, n, deep),
                        rest,
                      ),
                    )
            ]
      ]

  -- The key parts of an operand that has the label.
  keys_within :
      (x : ds.Operand) (poss ks : List ℕ)
      → IsDistinct ks
      → ((k : ℕ) → contains ks k ≡ true → contains (laws.keys (x, poss)) k ≡ true)
      → length ks ≤ ds.size (ds.open_at x poss)
  keys_within x poss ks d within =
      let fewer = length-subset ks (laws.keys (x, poss)) d within in
      let bound = laws.bounds (ds.open_at x poss) in
      let same = ap (λ o. length (laws.keys o)) (laws.opened x poss) in
      omega (arith, fewer, bound, same)

  -- Where an operand has the label: key parts that all joined operands have are key parts that
  -- occur, and no more than the sizes of the diagonals together.
  pub all_have-dom :
      (xs : List ds.Operand) (scs : List OperandSc) (l k : ℕ)
      → Matches ds xs scs
      → occurs scs l ≡ true
      → all_have ds laws xs (poss_in ds laws means scs l) k ≡ true
      → contains means.dom k ≡ true
  all_have-dom xs [] l k fit there all = absurd (true≢false (sym there))
  all_have-dom [] (sc ∷ scs) l k (same, fit) there all = absurd (omega (arith, same))
  all_have-dom (x ∷ xs) (sc ∷ scs) l k (same, (some_labels, b, deep, fit)) there all =
      let has = contains-label_poss 0 sc l in
      elim (Bool-cases (length (label_poss_from 0 sc l) == 0)) [
        | inl unjoined ↦
            all_have-dom xs scs l k (omega (arith, same), fit)
              (ground (arith, has, unjoined, there)) (rw unjoined at all)
        | inr joins ↦
            means.in_dom x (label_poss_from 0 sc l) k
              (label_poss_from-Labelled ds laws means x sc l b deep joins).valid
              (and_left _ _ (rw joins at all))
      ]

  pub length-ops_size :
      (n : ℕ) (xs : List ds.Operand) (scs : List OperandSc) (l : ℕ) (ks : List ℕ)
      → length xs ≡ length scs
      → occurs scs l ≡ true
      → IsDistinct ks
      → ((k : ℕ)
          → contains ks k ≡ true
          → all_have ds laws xs (poss_in ds laws means scs l) k ≡ true)
      → length ks ≤ ops_size ds (join_ops ds n xs (poss_in ds laws means scs l))
  unfolding join_ops ops_size
  length-ops_size n xs [] l ks same there d all = absurd (true≢false (sym there))
  length-ops_size n [] (sc ∷ scs) l ks same there d all = absurd (omega (arith, same))
  length-ops_size n (x ∷ xs) (sc ∷ scs) l ks same there d all =
      let has = contains-label_poss 0 sc l in
      elim (Bool-cases (length (label_poss_from 0 sc l) == 0)) [
        | inl unjoined ↦ rw unjoined (
            length-ops_size ((n + 1) % 256) xs scs l ks (omega (arith, same))
              (ground (arith, has, unjoined, there)) d (λ k e. rw unjoined at (all k e)))
        | inr joins ↦
            let few =
              keys_within x (label_poss_from 0 sc l) ks d
                (λ k e. and_left _ _ (rw joins at (all k e))) in
            elim (Bool-cases (free_positions (ds.depth x) (length (label_poss_from 0 sc l)) == 0)) [
              | inl whole ↦ rw (joins, whole) (omega (arith, few))
              | inr left ↦ rw (joins, left) (omega (arith, few))
            ]
      ]

  pub some_joined :
      (n : ℕ) (xs : List ds.Operand) (scs : List OperandSc) (l : ℕ)
      → length xs ≡ length scs
      → occurs scs l ≡ true
      → is_empty (join_ops ds n xs (poss_in ds laws means scs l)) ≡ false
  unfolding join_ops
  some_joined n xs [] l same there = absurd (true≢false (sym there))
  some_joined n [] (sc ∷ scs) l same there = absurd (omega (arith, same))
  some_joined n (x ∷ xs) (sc ∷ scs) l same there =
      let has = contains-label_poss 0 sc l in
      elim (Bool-cases (length (label_poss_from 0 sc l) == 0)) [
        | inl unjoined ↦ rw unjoined (
            some_joined ((n + 1) % 256) xs scs l (omega (arith, same))
              (ground (arith, has, unjoined, there)))
        | inr joins ↦
            elim (Bool-cases (free_positions (ds.depth x) (length (label_poss_from 0 sc l)) == 0)) [
              | inl whole ↦ rw (joins, whole) refl
              | inr left ↦ rw (joins, left) refl
            ]
      ]
