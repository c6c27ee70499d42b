-- ===== src/Einsum/Kinds.antt =====
-- When a subscript has which type.
use hypertrie.Common.{
  ==_iff, Bool-cases, List, [], arith, contains, false, if◌then◌else◌, inl, inr, length, ltb, refl,
  subst, true, ◌==◌, ◌∷◌, ◌≡◌,
}
use hypertrie.Subscript.{
  Label, RawSubscript, get_operands_label_set, get_result_label_set, label_count, operands_count,
}
use hypertrie.Subscript.Kinds.{SubscriptType}
use hypertrie.Subscript.Make.{all_in_result, calc_state, none_in_result}

pub data Kinds (s : RawSubscript) (t : SubscriptType) : Type 0 where
  of_nothing : (operands_count s == 0) ≡ true → t ≡ SubscriptType.entry_generator → Kinds s t
  of_result :
      (operands_count s == 1) ≡ true
      → all_in_result (get_operands_label_set s) (get_result_label_set s) ≡ true
      → t ≡ SubscriptType.resolve
      → Kinds s t
  of_count :
      (operands_count s == 1) ≡ true
      → (label_count s 0 == length (get_operands_label_set s)) ≡ true
      → t ≡ SubscriptType.count
      → Kinds s t
  of_product : t ≡ SubscriptType.cartesian → Kinds s t
  of_join : (operands_count s == 0) ≡ false → t ≡ SubscriptType.join → Kinds s t

one_operand :
    (s : RawSubscript)
    → (operands_count s == 0) ≡ false
    → (operands_count s == 1) ≡ true
    → (label_count s 0 == length (get_operands_label_set s)) ≡ true
    → Kinds s (
        if all_in_result (get_operands_label_set s) (get_result_label_set s)
        then SubscriptType.resolve
        else if none_in_result (get_operands_label_set s) (get_result_label_set s)
        then SubscriptType.count
        else SubscriptType.join)
one_operand s some_operand one once =
    let labels = get_operands_label_set s in
    let results = get_result_label_set s in
    elim (Bool-cases (all_in_result labels results)) [
      | inl all ↦ rw all (Kinds.of_result one all refl)
      | inr not_all ↦ elim (Bool-cases (none_in_result labels results)) [
        | inl no_one ↦ rw (not_all, no_one) (Kinds.of_count one once refl)
        | inr some_one ↦ rw (not_all, some_one) (Kinds.of_join some_operand refl)
      ]
    ]

pub calc_state-Kinds :
    (s : RawSubscript) (components : List (List Label))
    → Kinds s (calc_state s (get_operands_label_set s) (get_result_label_set s) components)
unfolding calc_state
calc_state-Kinds s components = elim (Bool-cases (operands_count s == 0)) [
  | inl no_operand ↦ rw no_operand (Kinds.of_nothing no_operand refl)
  | inr some_operand ↦ elim (Bool-cases (operands_count s == 1)) [
    | inl one ↦ elim (Bool-cases (label_count s 0 == length (get_operands_label_set s))) [
      | inl once ↦ rw (some_operand, one, once) (one_operand s some_operand one once)
      | inr twice ↦ rw (some_operand, one, twice) (Kinds.of_join some_operand refl)
    ]
    | inr more ↦ elim (Bool-cases (ltb 1 (length components))) [
      | inl several ↦ rw (some_operand, more, several) (Kinds.of_product refl)
      | inr connected ↦ rw (some_operand, more, connected) (Kinds.of_join some_operand refl)
    ]
  ]
]

pub all_in_result-in :
    (ls results : List Label) (a : Label)
    → all_in_result ls results ≡ true
    → contains ls a ≡ true
    → contains results a ≡ true
unfolding all_in_result
all_in_result-in [] results a all there = absurd (ground (arith, there))
all_in_result-in (l ∷ ls) results a all there = elim (Bool-cases (l == a)) [
  | inl same ↦ subst (λ i. contains results i ≡ true) ((==_iff l a).0 same) (ground (arith, all))
  | inr other ↦ all_in_result-in ls results a (ground (arith, all)) (ground (arith, there, other))
]
