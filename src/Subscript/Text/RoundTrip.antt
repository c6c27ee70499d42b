-- ===== src/Subscript/Text/RoundTrip.antt =====
-- `from_string` reads what `to_string` writes, with the labels renumbered.
use hypertrie.Common.{
  Bool, Bool-cases, List, Option, [], ap, append_assoc, arith, contains, false, inl, inr, is_empty,
  length, length-append, map, not, refl, some, suc, sym, true, zero, ℕ, ◌++◌, ◌+◌, ◌==◌, ◌||◌, ◌∙◌,
  ◌∷◌, ◌≡◌, ◌≤◌,
}
use hypertrie.Common.Assoc.{at_or, find}
use hypertrie.Subscript.{OperandSc, RawSubscript, byte}
use hypertrie.Subscript.Labels.{occurs}
use hypertrie.Subscript.Text.{
  Labels, ReadOperand, ReadOperands, comma, dash, from_string, greater, map_char, next_char,
  no_labels, operands_text, or_one_operand, read_operand, read_operands, to_string,
}
use hypertrie.Subscript.Text.Order.{
  Represents, append_new, contains-append_new, contains-extend, extend, extend-Grows, extend_all,
  extend_all-Grows, label_of, label_of-Grows, map_char-Represents, no_labels-Represents,
}

abbrev pub is_stop : ℕ → Bool
is_stop c = c == comma || c == dash

-- None of the labels is a comma or a dash.
abbrev pub AreLabels : OperandSc → Type 0
AreLabels operand = (c : ℕ) → contains operand c ≡ true → is_stop c ≡ false

read_operand-returns :
    (operand : OperandSc) (stop : ℕ) (rest : List ℕ) (ls : Labels) (seen : List ℕ)
    → AreLabels operand
    → is_stop stop ≡ true
    → Represents ls seen
    → (ls' : Labels) × (read_operand (operand ++ (stop ∷ rest)) ls
        ≡ some (record {
          operand_sc = map (label_of (extend seen operand)) operand;
          iter = stop ∷ rest;
          labels = ls';
        }))
      × Represents ls' (extend seen operand)
unfolding read_operand at_or
read_operand-returns [] stop rest ls seen are e r = (ls, rw e refl, r)
read_operand-returns (c ∷ operand) stop rest ls seen are e r =
    let mapped = map_char-Represents c ls seen r in
    let (ls', ends, r') =
      read_operand-returns operand stop rest (map_char c ls) (append_new seen c)
        (λ a m. are a (ground (arith, m))) e mapped in
    let go_on : is_stop c ≡ false = are c (ground arith) in
    let grows = extend-Grows (append_new seen c) operand in
    let label : at_or c 0 (map_char c ls).char_mapping ≡ label_of (extend seen (c ∷ operand)) c =
      let here_now : find c (map_char c ls).char_mapping ≡ some (label_of (append_new seen c) c) =
        mapped.found c ∙ rw (contains-append_new seen c) refl in
      rw (at_or, here_now)
        (ap (λ n. byte (97 + n)) (sym (grows.place c (contains-append_new seen c)))) in
    (ls', rw (go_on, ends, label) refl, r')

-- The operands with their labels given by an order.
abbrev pub relabel : List ℕ → List OperandSc → List OperandSc
relabel order operands = map (map (label_of order)) operands

-- There is an operand, and the last one is not empty.
abbrev pub ends_in_label : List OperandSc → Bool
ends_in_label [] = false
ends_in_label (operand ∷ []) = not (is_empty operand)
ends_in_label (operand ∷ next ∷ operands) = ends_in_label (next ∷ operands)

abbrev pub AllLabels : List OperandSc → Type 0
AllLabels operands = (c : ℕ) → occurs operands c ≡ true → is_stop c ≡ false

-- A round of the loop over the operands, up to the character that stops it.
next_char-start :
    (operand : OperandSc) (stop : ℕ) (rest : List ℕ)
    → AreLabels operand
    → (not (is_empty operand) || not (stop == dash)) ≡ true
    → (start : ℕ × List ℕ) × (next_char (operand ++ (stop ∷ rest)) ≡ some start)
      × ((start.0 == dash) ≡ false)
next_char-start [] stop rest are h = ((stop, rest), refl, ground (arith, h))
next_char-start (c ∷ operand) stop rest are h =
    ((c, operand ++ (stop ∷ rest)), refl, ground (arith, are c (ground arith)))

module _ (fuel : ℕ) (iter : List ℕ) (ls : Labels) (start : ℕ × List ℕ) (r : ReadOperand)
    (starts : next_char iter ≡ some start) (no_dash : (start.0 == dash) ≡ false)
    (reads : read_operand iter ls ≡ some r) where
  last_round :
      (rest : List ℕ)
      → r.iter ≡ dash ∷ rest
      → read_operands (suc fuel) iter ls
        ≡ some (record { operands_sc = r.operand_sc ∷ []; iter = r.iter; labels = r.labels })
  unfolding read_operands
  last_round rest e = ground (arith, starts, no_dash, reads, ap next_char e)

  comma_round :
      (rest : List ℕ) (after : ReadOperands)
      → r.iter ≡ comma ∷ rest
      → read_operands fuel rest r.labels ≡ some after
      → read_operands (suc fuel) iter ls
        ≡ some (record after { operands_sc = r.operand_sc ∷ after.operands_sc })
  unfolding read_operands
  comma_round rest after e ends = grind (arith, starts, no_dash, reads, ap next_char e, ends)

read_operands-returns :
    (operands : List OperandSc) (fuel : ℕ) (result : List ℕ) (ls : Labels) (seen : List ℕ)
    → length operands ≤ fuel
    → ends_in_label operands ≡ true
    → AllLabels operands
    → Represents ls seen
    → (ls' : Labels) × (read_operands fuel (operands_text operands ++ (dash ∷ result)) ls
        ≡ some (record {
          operands_sc = relabel (extend_all seen operands) operands;
          iter = dash ∷ result;
          labels = ls';
        }))
      × Represents ls' (extend_all seen operands)
unfolding read_operands operands_text
read_operands-returns [] fuel result ls seen fits ends are r = absurd (ground (arith, ends))
read_operands-returns (operand ∷ operands) zero result ls seen fits ends are r =
    absurd (omega (arith, fits))
read_operands-returns (operand ∷ []) (suc fuel) result ls seen fits ends are r =
    let labels : AreLabels operand = λ c m. are c (ground (arith, m)) in
    let (start, starts, no_dash) =
      next_char-start operand dash result labels (ground (arith, ends)) in
    let (ls', reads, r') =
      read_operand-returns operand dash result ls seen labels (ground arith) r in
    (
      ls',
      last_round fuel (operand ++ (dash ∷ result)) ls start _ starts no_dash reads result refl,
      r',
    )
read_operands-returns (operand ∷ next ∷ operands) (suc fuel) result ls seen fits ends are r =
    let labels : AreLabels operand = λ c m. are c (ground (arith, m)) in
    let rest = operands_text (next ∷ operands) ++ (dash ∷ result) in
    let (start, starts, no_dash) = next_char-start operand comma rest labels (ground arith) in
    let (ls₁, reads, r₁) =
      read_operand-returns operand comma rest ls seen labels (ground arith) r in
    let (ls', ends', r') =
      read_operands-returns (next ∷ operands) fuel result ls₁ (extend seen operand)
        (omega (arith, fits)) ends (λ c m. are c (ground (arith, m))) r₁ in
    let same =
      label_of-Grows (extend seen operand) (extend_all (extend seen operand) (next ∷ operands))
        operand (extend_all-Grows (extend seen operand) (next ∷ operands))
        (contains-extend seen operand) in
    let assoc = append_assoc operand (comma ∷ operands_text (next ∷ operands)) (dash ∷ result) in
    let round =
      comma_round fuel (operand ++ (comma ∷ rest)) ls start _ starts no_dash reads rest _ refl
        ends' in
    let relabelled : OperandSc → Option ReadOperands = λ labels_read. some (record {
      operands_sc =
          labels_read ∷ relabel (extend_all seen (operand ∷ next ∷ operands)) (next ∷ operands);
      iter = dash ∷ result;
      labels = ls';
    }) in
    (ls', ap (λ t. read_operands (suc fuel) t ls) assoc ∙ round ∙ ap relabelled (sym same), r')

-- The characters of the operands in the order of their first occurrence.
abbrev pub order_of : RawSubscript → List ℕ
order_of s = extend_all [] s.operands

-- The subscript with its labels numbered from `a` on, by first occurrence in the operands.
abbrev pub renumbered : RawSubscript → RawSubscript
renumbered s = record {
  operands = relabel (order_of s) s.operands;
  result = map (label_of (order_of s)) s.result;
}

contains-extend_all :
    (seen : List ℕ) (operands : List OperandSc) (a : ℕ)
    → occurs operands a ≡ true
    → contains (extend_all seen operands) a ≡ true
contains-extend_all seen [] a m = absurd (ground (arith, m))
contains-extend_all seen (operand ∷ operands) a m = elim (Bool-cases (contains operand a)) [
  | inl e ↦
      (extend_all-Grows (extend seen operand) operands).keeps a (contains-extend seen operand a e)
  | inr e ↦ contains-extend_all (extend seen operand) operands a (ground (arith, m, e))
]

map-Represents :
    (result : List ℕ) (ls : Labels) (order : List ℕ)
    → Represents ls order
    → ((c : ℕ) → contains result c ≡ true → contains order c ≡ true)
    → map (λ c. at_or c 0 ls.char_mapping) result ≡ map (label_of order) result
unfolding at_or
map-Represents [] ls order r h = refl
map-Represents (c ∷ result) ls order r h =
    let first : at_or c 0 ls.char_mapping ≡ label_of order c =
      rw (at_or, r.found c, h c (ground arith)) refl in
    let rest = map-Represents result ls order r λ a m. h a (ground (arith, m)) in
    ap (λ l. l ∷ map (λ c. at_or c 0 ls.char_mapping) result) first
    ∙ ap (λ ls. label_of order c ∷ ls) rest

length-operands_text :
    (operands : List OperandSc) → length operands ≤ suc (length (operands_text operands))
unfolding operands_text
length-operands_text [] = omega arith
length-operands_text (operand ∷ []) = omega arith
length-operands_text (operand ∷ next ∷ operands) = omega (
  arith,
  length-operands_text (next ∷ operands),
  length-append operand (comma ∷ operands_text (next ∷ operands)),
)

one_operand-relabel :
    (order : List ℕ) (operands : List OperandSc)
    → ends_in_label operands ≡ true
    → or_one_operand (relabel order operands) ≡ relabel order operands
one_operand-relabel order [] h = absurd (ground (arith, h))
one_operand-relabel order (operand ∷ operands) h = refl

-- Where there is an operand and the last one is not empty, no label is a comma or a dash, and each
-- label of the result is one of an operand: `from_string` of `to_string` gives the subscript with
-- its labels numbered from `a` on in the order of their first occurrence.
pub from_string-to_string :
    (s : RawSubscript)
    → ends_in_label s.operands ≡ true
    → AllLabels s.operands
    → ((c : ℕ) → contains s.result c ≡ true → occurs s.operands c ≡ true)
    → from_string (to_string s) ≡ some (renumbered s)
unfolding from_string to_string
from_string-to_string s ends are used =
    let text = operands_text s.operands ++ (dash ∷ greater ∷ s.result) in
    let fits : length s.operands ≤ suc (length text) = omega (
      arith,
      length-operands_text s.operands,
      length-append (operands_text s.operands) (dash ∷ greater ∷ s.result),
    ) in
    let (ls, reads, r) =
      read_operands-returns s.operands (suc (length text)) (greater ∷ s.result) no_labels [] fits
        ends are no_labels-Represents in
    let result =
      map-Represents s.result ls (order_of s) r
        λ c m. contains-extend_all [] s.operands c (used c m) in
    let operands = one_operand-relabel (order_of s) s.operands ends in
    rw (reads, result, operands) refl
