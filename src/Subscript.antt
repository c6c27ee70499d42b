-- ===== src/Subscript.antt =====
-- `RawSubscript` (libs/einsum/src/dice/einsum/internal/RawSubscript.hpp): the labels of the operands
-- and of the result of an Einstein summation. A label is the code of a `char`.
pub mod Graph
pub mod Labels
pub mod Kinds
pub mod Make
pub mod Text
pub mod Cartesian
pub mod Cached
use hypertrie.Common.{
  ℕ, zero, suc, ◌+◌, ◌%◌, List, [], ◌∷◌, ◌++◌, Bool, true, false, not, ◌||◌, Option, some, none,
  if◌then◌else◌, ◌==◌, length, get_or, map,
}
use hypertrie.Common.Sets.{set_of, set_insert}
use hypertrie.Common.Assoc.{Assoc, emplace}

abbrev pub Label : Type 0
Label = ℕ

abbrev pub OperandSc : Type 0
OperandSc = List Label

-- The field `hash` is left out: it is computed by dice-hash from the other two.
pub record RawSubscript : Type 0 where
  pub operands : List OperandSc
  pub result : List Label

-- A position as it is stored: `OperandPos` and `LabelPos` are `uint8_t`.
abbrev pub byte : ℕ → ℕ
byte n = n % 256

unfoldable pub operands_count : RawSubscript → ℕ
operands_count s = length s.operands

unfoldable pub label_count : RawSubscript → ℕ → ℕ
label_count s operand_pos = length (get_or s.operands operand_pos [])

unfoldable pub insert_labels : OperandSc → List Label → List Label
unfolding set_insert
insert_labels [] operand_labels = operand_labels
insert_labels (label ∷ operand) operand_labels =
    insert_labels operand (set_insert label operand_labels)

unfoldable pub insert_operands : List OperandSc → List Label → List Label
unfolding insert_labels
insert_operands [] operand_labels = operand_labels
insert_operands (operand ∷ operands) operand_labels =
    insert_operands operands (insert_labels operand operand_labels)

unfoldable pub get_operands_label_set : RawSubscript → List Label
unfolding insert_operands
get_operands_label_set s = insert_operands s.operands []

unfoldable pub get_result_label_set : RawSubscript → List Label
unfolding insert_labels
get_result_label_set s = insert_labels s.result []

-- The loop over the positions of one operand, from `label_pos` on.
unfoldable pub label_poss_from : ℕ → OperandSc → Label → List ℕ
label_poss_from label_pos [] label = []
label_poss_from label_pos (l ∷ operand) label =
    let rest = label_poss_from (suc label_pos) operand label in
    if l == label then byte label_pos ∷ rest else rest

unfoldable pub get_label_poss_in_operands : RawSubscript → Label → List (List ℕ)
unfolding label_poss_from
get_label_poss_in_operands s label = map (λ operand. label_poss_from 0 operand label) s.operands

unfoldable pub label_poss_in_result_from : ℕ → List Label → Assoc ℕ → Assoc ℕ
unfolding emplace
label_poss_in_result_from pos [] m = m
label_poss_in_result_from pos (l ∷ result) m =
    label_poss_in_result_from (suc pos) result (emplace l (byte pos) m)

unfoldable pub get_label_poss_in_result : RawSubscript → Assoc ℕ
unfolding label_poss_in_result_from
get_label_poss_in_result s = label_poss_in_result_from 0 s.result []

-- The inner loop of `removeLabel`.
unfoldable pub other_labels : Label → OperandSc → OperandSc
other_labels label [] = []
other_labels label (current_label ∷ operand) =
    let new_operand = other_labels label operand in
    if current_label == label then new_operand else current_label ∷ new_operand

-- `next_operands.push_back` of an operand that is not empty.
abbrev pub push_non_empty : OperandSc → List OperandSc → List OperandSc
push_non_empty [] operands = operands
push_non_empty (l ∷ ls) operands = (l ∷ ls) ∷ operands

unfoldable pub next_operands : Label → List OperandSc → List OperandSc
unfolding other_labels
next_operands label [] = []
next_operands label (operand ∷ operands) =
    push_non_empty (other_labels label operand) (next_operands label operands)

unfoldable pub remove_label : Label → RawSubscript → RawSubscript
unfolding next_operands
remove_label label s = record { operands = next_operands label s.operands; result = s.result }

-- The comparison of two operands label by label.
unfoldable pub differs_labels : OperandSc → OperandSc → Bool
differs_labels [] op2 = false
differs_labels (l ∷ op1) [] = true
differs_labels (l ∷ op1) (k ∷ op2) = not (l == k) || differs_labels op1 op2

unfoldable pub differs_operands : List OperandSc → List OperandSc → Bool
unfolding differs_labels
differs_operands [] ops2 = false
differs_operands (op1 ∷ ops1) [] = true
differs_operands (op1 ∷ ops1) (op2 ∷ ops2) =
    not (length op1 == length op2) || (differs_labels op1 op2 || differs_operands ops1 ops2)

-- `operator!=`
unfoldable pub differs : RawSubscript → RawSubscript → Bool
unfolding differs_operands differs_labels
differs a b =
    if not (length a.operands == length b.operands)
    then true
    else if not (length a.result == length b.result)
    then true
    else if differs_operands a.operands b.operands
    then true
    else differs_labels a.result b.result
