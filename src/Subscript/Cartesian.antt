-- ===== src/Subscript/Cartesian.antt =====
-- `CartesianSubSubscripts` (libs/einsum/src/dice/einsum/Subscript.hpp): the subscripts of the factors
-- of a Cartesian product, one for each connected component of the labels, and the constructor with
-- them.
use hypertrie.Common.{
  List, Option, [], contains, if◌then◌else◌, map, none, some, suc, zero, ℕ, ◌>>=◌, ◌∷◌,
}
use hypertrie.Subscript.{Label, OperandSc, RawSubscript, byte}
use hypertrie.Subscript.Kinds.{SubscriptType}
use hypertrie.Subscript.Make.{Subscript, make_subscript}
pub mod Parts
pub mod Partition
pub mod Single
pub mod Construct

pub record CartesianSubSubscripts : Type 0 where
  pub sub_subscripts : List Subscript
  pub original_operand_poss_of_sub_subscript : List (List ℕ)
  pub original_result_poss_of_sub_subscript : List (List ℕ)
  pub subscript : Subscript

-- The labels of an operand that are in the subset.
unfoldable pub select_labels : List Label → OperandSc → OperandSc
select_labels label_subset [] = []
select_labels label_subset (label ∷ operand) =
    let op_labels = select_labels label_subset operand in
    if contains label_subset label then label ∷ op_labels else op_labels

-- What a loop of `extractCartesianSubSubscript` selects, with the positions it comes from.
pub record Extract (A : Type 0) : Type 0 where
  pub labels : List A
  pub original_poss : List ℕ

-- `push_back` of an operand that is not empty, and of its position.
abbrev pub push_extract : ℕ → OperandSc → Extract OperandSc → Extract OperandSc
push_extract parent_op_pos [] e = e
push_extract parent_op_pos (l ∷ ls) e = record {
  labels = (l ∷ ls) ∷ e.labels;
  original_poss = byte parent_op_pos ∷ e.original_poss;
}

unfoldable pub extract_operands : ℕ → List OperandSc → List Label → Extract OperandSc
unfolding select_labels
extract_operands parent_op_pos [] label_subset = record { labels = []; original_poss = [] }
extract_operands parent_op_pos (operand ∷ operands) label_subset =
    push_extract parent_op_pos (select_labels label_subset operand)
      (extract_operands (suc parent_op_pos) operands label_subset)

unfoldable pub extract_result : ℕ → List Label → List Label → Extract Label
extract_result result_pos [] label_subset = record { labels = []; original_poss = [] }
extract_result result_pos (label ∷ result) label_subset =
    let rest = extract_result (suc result_pos) result label_subset in
    if contains label_subset label
    then record {
      labels = label ∷ rest.labels;
      original_poss = byte result_pos ∷ rest.original_poss;
    }
    else rest

-- The subscript that `extractCartesianSubSubscript` passes to the constructor.
unfoldable pub sub_raw_subscript : RawSubscript → List Label → RawSubscript
unfolding extract_operands extract_result
sub_raw_subscript s label_subset = record {
  operands = (extract_operands 0 s.operands label_subset).labels;
  result = (extract_result 0 s.result label_subset).labels;
}

-- The subscripts of the components in a row, made by the constructor.
unfoldable pub extract_sub_subscripts :
    (RawSubscript → SubscriptType → Option Subscript)
    → RawSubscript
    → List (List Label)
    → Option (List Subscript)
unfolding sub_raw_subscript
extract_sub_subscripts make s [] = some []
extract_sub_subscripts make s (component ∷ components) =
    make (sub_raw_subscript s component) SubscriptType.none >>= λ sub.
    extract_sub_subscripts make s components >>= λ subs. some (sub ∷ subs)

unfoldable pub cartesian_sub_subscripts :
    (RawSubscript → SubscriptType → Option Subscript) → Subscript → Option CartesianSubSubscripts
unfolding extract_sub_subscripts extract_operands extract_result
cartesian_sub_subscripts make s =
    let raw = s.raw_subscript in
    let components = s.connected_components in
    extract_sub_subscripts make raw components >>= λ subs.
    make
      (record {
        operands = map (λ (sub : Subscript). sub.raw_subscript.result) subs;
        result = raw.result;
      })
      SubscriptType.carthesian_mapping
    >>= λ subscript. some (record {
      sub_subscripts = subs;
      original_operand_poss_of_sub_subscript =
          map (λ c. (extract_operands 0 raw.operands c).original_poss) components;
      original_result_poss_of_sub_subscript =
          map (λ c. (extract_result 0 raw.result c).original_poss) components;
      subscript = subscript;
    })

-- The case `Cartesian` of the constructor's `switch`.
unfoldable pub with_sub_subscripts :
    SubscriptType
    → Subscript
    → Option CartesianSubSubscripts
    → Option (Subscript × Option CartesianSubSubscripts)
with_sub_subscripts SubscriptType.cartesian made sub_subscripts =
    sub_subscripts >>= λ c. some (made, some c)
with_sub_subscripts _ made sub_subscripts = some (made, none)

-- The whole constructor, with the field `cartesian_sub_subscripts`: it calls itself for the factors
-- and for their combination. Fuel is for the calls inside one another.
unfoldable pub construct_subscript :
    ℕ → RawSubscript → SubscriptType → Option (Subscript × Option CartesianSubSubscripts)
unfolding make_subscript cartesian_sub_subscripts with_sub_subscripts
construct_subscript zero s type = none
construct_subscript (suc fuel) s type = make_subscript s type >>= λ made.
    with_sub_subscripts made.type made (
      cartesian_sub_subscripts
        (λ raw next_type. construct_subscript fuel raw next_type >>= λ r. some r.0) made)
