-- ===== src/Einsum.antt =====
-- The evaluation of a subscript on hypertries where only a value is left to be computed:
-- `single_result` of the operators in libs/einsum/src/dice/einsum/internal/operators, for values that
-- are words. No label of the operands is in the result then, so that the entry's key stays as it is
-- and only its value is passed on. The hypertries are behind the interface of the joins; the
-- operator of Cartesian products is a parameter.
use hypertrie.Common.{
  Bool, List, Option, [], contains, get_or, if◌then◌else◌, length, none, not, some, suc, zero, ℕ,
  ◌%◌, ◌&&◌, ◌+◌, ◌==◌, ◌>>=◌, ◌^◌, ◌∷◌,
}
use hypertrie.HashJoin.{Diagonals, JoinOp, join_ops, rounds, start}
use hypertrie.Subscript.{Label, get_label_poss_in_operands, remove_label}
use hypertrie.Subscript.Kinds.{SubscriptType}
use hypertrie.Subscript.Make.{Subscript, make_subscript}
pub mod Sums
pub mod Positions
pub mod Meaning
pub mod Joins
pub mod Operands
pub mod Step
pub mod Total
pub mod Single
pub mod Kinds
pub mod Count
pub mod Evaluate

-- Estimates are floating point numbers, of which only the order is used here.
pub record Estimates : Type 1 where
  pub Double : Type 0
  pub infinity : Double
  pub less : Double → Double → Bool

module _ (es : Estimates) where
  -- The loop of `getMinCardLabel` over the label set.
  unfoldable pub min_card_label_from :
      (Label → es.Double) → List Label → List Label → Label → es.Double → Label
  min_card_label_from calc_card lonely [] min_label min_cardinality = min_label
  min_card_label_from calc_card lonely (label ∷ labels) min_label min_cardinality =
      let label_cardinality = calc_card label in
      let chosen = not (contains lonely label) && es.less label_cardinality min_cardinality in
      min_card_label_from calc_card lonely labels (if chosen then label else min_label)
        (if chosen then label_cardinality else min_cardinality)

  unfoldable pub get_min_card_label : (Label → es.Double) → Subscript → Label
  unfolding min_card_label_from
  get_min_card_label calc_card s =
      let labels = s.operands_label_set in
      let found =
        min_card_label_from calc_card s.lonely_non_result_labels labels (get_or labels 0 0)
          es.infinity in
      if length labels == 1 then get_or labels 0 0 else found

-- What is used of the hypertries beside the diagonals: `size`, and the cardinality of a label.
pub record Tensors (ds : Diagonals) (es : Estimates) : Type 0 where
  pub size_of : ds.Operand → ℕ
  pub calc_card : List ds.Operand → Subscript → Label → es.Double

module _ (ds : Diagonals) where
  -- `value += entry.value()` over the rounds of a join.
  unfoldable pub sum_results :
      (List ds.Operand → Option ℕ) → List (ℕ × List ds.Operand) → ℕ → Option ℕ
  sum_results sub [] value = some value
  sum_results sub ((current_key_part, sub_operands) ∷ rs) value =
      sub sub_operands >>= λ v. sum_results sub rs (if v == 0 then value else (value + v) % 2 ^ 64)

  unfoldable pub ops_size : List (JoinOp ds) → ℕ
  ops_size [] = 0
  ops_size (op ∷ ops) = ds.size op.diagonal + ops_size ops

module _ (ds : Diagonals) (es : Estimates) (ts : Tensors ds es) where
  -- `JoinOperator::single_result`, with `get_sub_operator` for the next subscript. The rounds are
  -- no more than the sizes of the diagonals together.
  unfoldable pub join_single_result :
      (Subscript → List ds.Operand → Option ℕ) → Subscript → List ds.Operand → Option ℕ
  unfolding get_min_card_label sum_results ops_size
  join_single_result sub s operands =
      let label = get_min_card_label es (ts.calc_card operands s) s in
      let poss = get_label_poss_in_operands s.raw_subscript label in
      make_subscript (remove_label label s.raw_subscript) SubscriptType.none >>= λ next.
      start ds operands poss >>= λ it.
      sum_results ds (sub next) (rounds ds (suc (ops_size ds (join_ops ds 0 operands poss))) it) 0

  unfoldable pub count_single_result : List ds.Operand → ℕ
  count_single_result operands = ts.size_of (get_or operands 0 ds.no_operand)

  abbrev pub entry_generator_single_result : ℕ
  entry_generator_single_result = 1

  -- `get_sub_operator` with `all_result_done`; `none` where the code throws or must not come.
  unfoldable pub by_type :
      (Subscript → List ds.Operand → Option ℕ)
      → (Subscript → List ds.Operand → Option ℕ)
      → SubscriptType
      → Subscript
      → List ds.Operand
      → Option ℕ
  unfolding join_single_result count_single_result
  by_type sub cartesian SubscriptType.join s operands = join_single_result sub s operands
  by_type sub cartesian SubscriptType.count s operands = some (count_single_result operands)
  by_type sub cartesian SubscriptType.cartesian s operands = cartesian s operands
  by_type sub cartesian SubscriptType.entry_generator s operands =
      some entry_generator_single_result
  by_type sub cartesian _ s operands = none

  -- The operators call one another; fuel is for the labels that are left.
  unfoldable pub evaluate :
      (Subscript → List ds.Operand → Option ℕ) → ℕ → Subscript → List ds.Operand → Option ℕ
  unfolding by_type
  evaluate cartesian zero s operands = none
  evaluate cartesian (suc fuel) s operands =
      by_type (evaluate cartesian fuel) cartesian s.type s operands
