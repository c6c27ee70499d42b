-- ===== src/Subscript/Text.antt =====
-- `to_string` and `from_string` of a subscript (libs/einsum/src/dice/einsum/Subscript.hpp and
-- internal/RawSubscript.hpp). A text is the list of its characters' codes; `none` is a read behind
-- its end. The `assert` on the result's labels is compiled out: an unknown one is label 0.
use hypertrie.Common.{
  List, Option, [], false, if◌then◌else◌, is_none, length, map, none, some, suc, true, zero, ℕ,
  ◌++◌, ◌+◌, ◌==◌, ◌>>=◌, ◌||◌, ◌∷◌,
}
use hypertrie.Common.Assoc.{Assoc, at_or, find, insert_or_assign}
use hypertrie.Subscript.{Label, OperandSc, RawSubscript, byte}
pub mod Order
pub mod RoundTrip

abbrev pub comma : ℕ
comma = 44

abbrev pub dash : ℕ
dash = 45

abbrev pub greater : ℕ
greater = 62

-- The operands, with a comma after each but the last.
unfoldable pub operands_text : List OperandSc → List ℕ
operands_text [] = []
operands_text (operand ∷ []) = operand
operands_text (operand ∷ next ∷ operands) = operand ++ (comma ∷ operands_text (next ∷ operands))

unfoldable pub to_string : RawSubscript → List ℕ
unfolding operands_text
to_string s = operands_text s.operands ++ (dash ∷ greater ∷ s.result)

pub record Labels : Type 0 where
  pub char_mapping : Assoc Label
  pub next_label : Label

-- The test and the insertion for a character; `next_label++` is on a `char`.
unfoldable pub map_char : ℕ → Labels → Labels
unfolding find insert_or_assign
map_char c ls =
    if is_none (find c ls.char_mapping)
    then record {
      char_mapping = insert_or_assign c ls.next_label ls.char_mapping;
      next_label = byte (ls.next_label + 1);
    }
    else ls

pub record ReadOperand : Type 0 where
  pub operand_sc : OperandSc
  pub iter : List ℕ
  pub labels : Labels

-- `while (*iter != ',' and *iter != '-')`
unfoldable pub read_operand : List ℕ → Labels → Option ReadOperand
unfolding map_char at_or
read_operand [] ls = none
read_operand (c ∷ iter) ls =
    let mapped = map_char c ls in
    let rest = read_operand iter mapped in
    if c == comma || c == dash
    then some (record { operand_sc = []; iter = c ∷ iter; labels = ls })
    else rest >>= λ r. some (record r { operand_sc = at_or c 0 mapped.char_mapping ∷ r.operand_sc })

pub record ReadOperands : Type 0 where
  pub operands_sc : List OperandSc
  pub iter : List ℕ
  pub labels : Labels

-- `*iter` and `++iter`
abbrev pub next_char : List ℕ → Option (ℕ × List ℕ)
next_char [] = none
next_char (c ∷ iter) = some (c, iter)

-- `while (*iter != '-')`, with the test after the operand; `none` where the fuel ends as well.
unfoldable pub read_operands : ℕ → List ℕ → Labels → Option ReadOperands
unfolding read_operand
read_operands zero iter ls = none
read_operands (suc fuel) iter ls = next_char iter >>= λ start. elim (start.0 == dash) [
  | true ↦ some (record { operands_sc = []; iter = iter; labels = ls })
  | false ↦ read_operand iter ls >>= λ r. next_char r.iter >>= λ stop. elim (stop.0 == dash) [
    | true ↦ some (record { operands_sc = r.operand_sc ∷ []; iter = r.iter; labels = r.labels })
    | false ↦ read_operands fuel stop.1 r.labels >>= λ rest.
        some (record rest { operands_sc = r.operand_sc ∷ rest.operands_sc })
  ]
]

-- `iter + 2`
abbrev pub skip_arrow : List ℕ → Option (List ℕ)
skip_arrow (_ ∷ _ ∷ iter) = some iter
skip_arrow _ = none

-- `if (operands_sc.empty()) operands_sc.emplace_back()`
abbrev pub or_one_operand : List OperandSc → List OperandSc
or_one_operand [] = [] ∷ []
or_one_operand (operand ∷ operands) = operand ∷ operands

abbrev pub no_labels : Labels
no_labels = record { char_mapping = []; next_label = 97 }

unfoldable pub from_string : List ℕ → Option RawSubscript
unfolding read_operands at_or
from_string subscript_str =
    read_operands (suc (length subscript_str)) subscript_str no_labels >>= λ r.
    skip_arrow r.iter >>= λ result. some (record {
      operands = or_one_operand r.operands_sc;
      result = map (λ c. at_or c 0 r.labels.char_mapping) result;
    })
