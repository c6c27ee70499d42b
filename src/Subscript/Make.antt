-- ===== src/Subscript/Make.antt =====
-- The constructor of `Subscript` (libs/einsum/src/dice/einsum/Subscript.hpp) but for the case
-- `Cartesian` of its `switch`, and its look-ups. `none` is an exception that is thrown, or a failed
-- `at`. The caches are in Cached, and the parts of a Cartesian product, which only a subscript of
-- type `Cartesian` has, in Cartesian.
use hypertrie.Common.{
  List, Option, [], contains, get_or, if◌then◌else◌, length, ltb, not, some, suc, true, ℕ, ◌&&◌,
  ◌++◌, ◌==◌, ◌>>=◌, ◌∷◌,
}
use hypertrie.Common.Assoc.{Assoc, at_or, find, insert_or_assign}
use hypertrie.Common.Sets.{count, set_insert}
use hypertrie.Subscript.{
  Label, OperandSc, RawSubscript, byte, get_label_poss_in_result, get_operands_label_set,
  get_result_label_set, label_count, operands_count,
}
use hypertrie.Subscript.Graph.{
  UndirectedGraph, add_complete_graph, empty_graph, get_connected_components,
}
use hypertrie.Subscript.Kinds.{SubscriptType}
pub mod Graphs
pub mod Positions
pub mod Total
use mathlib.Core.Bool.{Bool}

pub record Subscript : Type 0 where
  pub raw_subscript : RawSubscript
  pub operands_label_set : List Label
  pub result_label_set : List Label
  pub lonely_non_result_labels : List Label
  pub dependency_graph : UndirectedGraph
  pub connected_components : List (List Label)
  pub used_result_poss : List ℕ
  pub label_poss_in_result : Assoc ℕ
  pub operand2result_mapping : List ℕ
  pub poss_of_operands_with_labels : Assoc (List ℕ)
  pub type : SubscriptType
  pub all_result_done : Bool

unfoldable pub add_operands : List OperandSc → UndirectedGraph → UndirectedGraph
unfolding add_complete_graph
add_operands [] g = g
add_operands (operand ∷ operands) g = add_operands operands (add_complete_graph operand g)

unfoldable pub calc_dependency_graph : RawSubscript → UndirectedGraph
unfolding add_operands
calc_dependency_graph s = add_operands s.operands empty_graph

-- The flags `all_in_result` and `none_in_result` after the loop.
unfoldable pub all_in_result : List Label → List Label → Bool
all_in_result [] result_label_set = true
all_in_result (l ∷ ls) result_label_set =
    contains result_label_set l && all_in_result ls result_label_set

unfoldable pub none_in_result : List Label → List Label → Bool
none_in_result [] result_label_set = true
none_in_result (l ∷ ls) result_label_set =
    not (contains result_label_set l) && none_in_result ls result_label_set

unfoldable pub calc_state :
    RawSubscript → List Label → List Label → List (List Label) → SubscriptType
unfolding operands_count label_count all_in_result none_in_result
calc_state s operands_label_set result_label_set connected_components =
    if operands_count s == 0
    then SubscriptType.entry_generator
    else if operands_count s == 1
    then if label_count s 0 == length operands_label_set
      then if all_in_result operands_label_set result_label_set
        then SubscriptType.resolve
        else if none_in_result operands_label_set result_label_set
        then SubscriptType.count
        else SubscriptType.join
      else SubscriptType.join
    else if ltb 1 (length connected_components)
    then SubscriptType.cartesian
    else SubscriptType.join

unfoldable pub calc_all_result_done : List Label → List Label → Bool
calc_all_result_done operand_labels [] = true
calc_all_result_done operand_labels (label ∷ result_labels) =
    not (contains operand_labels label) && calc_all_result_done operand_labels result_labels

-- The loop that fills `used_result_poss`, from position `i` on.
unfoldable pub used_result_poss_from : ℕ → List Label → List Label → List ℕ
used_result_poss_from i [] operands_label_set = []
used_result_poss_from i (label ∷ result) operands_label_set =
    let rest = used_result_poss_from (suc i) result operands_label_set in
    if contains operands_label_set label then byte i ∷ rest else rest

-- `poss_of_operands_with_labels[label].push_back(op_pos)` for the labels of an operand.
unfoldable pub push_operand_pos : ℕ → OperandSc → Assoc (List ℕ) → Assoc (List ℕ)
unfolding insert_or_assign at_or
push_operand_pos op_pos [] poss = poss
push_operand_pos op_pos (label ∷ operand) poss =
    push_operand_pos op_pos operand
      (insert_or_assign label (at_or label [] poss ++ (byte op_pos ∷ [])) poss)

unfoldable pub poss_of_operands_from : ℕ → List OperandSc → Assoc (List ℕ) → Assoc (List ℕ)
unfolding push_operand_pos
poss_of_operands_from op_pos [] poss = poss
poss_of_operands_from op_pos (operand ∷ operands) poss =
    poss_of_operands_from (suc op_pos) operands (push_operand_pos op_pos operand poss)

-- The condition on a label that is not in the result.
unfoldable pub is_lonely : List OperandSc → List ℕ → Label → Bool
is_lonely operands op_poss label =
    length op_poss == 1 && count label (get_or operands (get_or op_poss 0 0) []) == 1

unfoldable pub lonely_labels :
    List Label → List OperandSc → List Label → Assoc (List ℕ) → List Label
unfolding is_lonely set_insert at_or
lonely_labels [] operands result_label_set poss = []
lonely_labels (label ∷ labels) operands result_label_set poss =
    let rest = lonely_labels labels operands result_label_set poss in
    if not (contains result_label_set label) && is_lonely operands (at_or label [] poss) label
    then set_insert label rest
    else rest

-- `getLabelPosInResult` for the labels of the only operand.
unfoldable pub map_labels : List Label → Assoc ℕ → Option (List ℕ)
unfolding find
map_labels [] label_poss_in_result = some []
map_labels (label ∷ labels) label_poss_in_result = find label label_poss_in_result >>= λ pos.
    map_labels labels label_poss_in_result >>= λ poss. some (pos ∷ poss)

-- What the final `switch` computes: `label_poss_in_result` and the mapping.
unfoldable pub result_mappings : SubscriptType → RawSubscript → Option (Assoc ℕ × List ℕ)
unfolding get_label_poss_in_result map_labels
result_mappings SubscriptType.join s = some (get_label_poss_in_result s, [])
result_mappings SubscriptType.resolve s =
    map_labels (get_or s.operands 0 []) (get_label_poss_in_result s) >>= λ mapping.
    some (get_label_poss_in_result s, mapping)
result_mappings _ s = some ([], [])

-- The parameter `type` is only read where it is `CarthesianMapping`.
unfoldable pub chosen_type : SubscriptType → SubscriptType → SubscriptType
chosen_type SubscriptType.carthesian_mapping calculated = SubscriptType.carthesian_mapping
chosen_type _ calculated = calculated

-- The fields, from the components and from what the `switch` computes.
unfoldable pub subscript_of :
    RawSubscript → SubscriptType → List (List Label) → Assoc ℕ × List ℕ → Subscript
unfolding get_operands_label_set get_result_label_set calc_dependency_graph used_result_poss_from
    calc_all_result_done poss_of_operands_from lonely_labels
subscript_of s type components mappings =
    let operands_labels = get_operands_label_set s in
    let result_labels = get_result_label_set s in
    let poss = poss_of_operands_from 0 s.operands [] in
    record {
      raw_subscript = s;
      operands_label_set = operands_labels;
      result_label_set = result_labels;
      lonely_non_result_labels = lonely_labels operands_labels s.operands result_labels poss;
      dependency_graph = calc_dependency_graph s;
      connected_components = components;
      used_result_poss = used_result_poss_from 0 s.result operands_labels;
      label_poss_in_result = mappings.0;
      operand2result_mapping = mappings.1;
      poss_of_operands_with_labels = poss;
      type = type;
      all_result_done = calc_all_result_done operands_labels result_labels;
    }

unfoldable pub make_subscript : RawSubscript → SubscriptType → Option Subscript
unfolding calc_dependency_graph get_connected_components calc_state chosen_type result_mappings
    subscript_of get_operands_label_set get_result_label_set
make_subscript s type = get_connected_components (calc_dependency_graph s) >>= λ components.
    let state =
      chosen_type type
        (calc_state s (get_operands_label_set s) (get_result_label_set s) components) in
    result_mappings state s >>= λ mappings. some (subscript_of s state components mappings)

unfoldable pub get_poss_of_operands_with_label : Subscript → Label → Option (List ℕ)
unfolding find
get_poss_of_operands_with_label s label = find label s.poss_of_operands_with_labels

unfoldable pub is_result_label : Subscript → Label → Bool
is_result_label s label = contains s.result_label_set label

unfoldable pub get_label_pos_in_result : Subscript → Label → Option ℕ
unfolding find
get_label_pos_in_result s label = find label s.label_poss_in_result

unfoldable pub all_labels_used : List Label → List Label → Bool
all_labels_used [] operands_label_set = true
all_labels_used (label ∷ result) operands_label_set =
    contains operands_label_set label && all_labels_used result operands_label_set

unfoldable pub valid : Subscript → Bool
unfolding all_labels_used
valid s = all_labels_used s.raw_subscript.result s.operands_label_set
