-- ===== src/Einsum/Evaluate.antt =====
-- The operators together compute the sum, with fuel for the labels.
use hypertrie.Common.{
  List, Option, [], ap, arith, contains, false, get_or, length, map, refl, some, subst, suc, sym,
  true, zero, ℕ, ◌%◌, ◌<◌, ◌==◌, ◌^◌, ◌∙◌, ◌∷◌, ◌≡◌, ◌≤◌,
}
use hypertrie.Common.Sets.{IsDistinct}
use hypertrie.Einsum.{Estimates, Tensors, by_type, count_single_result, evaluate}
use hypertrie.Einsum.Count.{as_long-IsDistinct, total-keys}
use hypertrie.Einsum.Kinds.{
  Kinds, all_in_result-in, calc_state-Kinds, of_count, of_join, of_nothing, of_product, of_result,
}
use hypertrie.Einsum.Meaning.{Matches, Means, sum_keys, value_at}
use hypertrie.Einsum.Single.{join_single_result-sum}
use hypertrie.Einsum.Sums.{Assignment, total, total-congr, total-perm}
use hypertrie.Einsum.Total.{sum_product}
use hypertrie.HashJoin.{Diagonals, Promises}
use hypertrie.Subscript.{
  Label, OperandSc, RawSubscript, get_operands_label_set, get_result_label_set, insert_operands,
  label_count, operands_count, remove_label,
}
use hypertrie.Subscript.Cached.{length-remove_label_operands, result-remove_label}
use hypertrie.Subscript.Kinds.{SubscriptType}
use hypertrie.Subscript.Labels.{
  contains-get_result_label_set, contains-remove_label, get_operands_label_set-IsDistinct,
  get_operands_label_set-occurs, length-remove_label, occurs,
}
use hypertrie.Subscript.Make.{Subscript, all_in_result, chosen_type}
use hypertrie.Subscript.Make.Total.{IsMade}
use mathlib.Core.Bool.{true≢false}

-- The result has no label of the operands.
abbrev pub NoneInResult : RawSubscript → Type 0
NoneInResult s =
    (m : Label) → contains (get_operands_label_set s) m ≡ true → contains s.result m ≡ false

NoneInResult-remove_label :
    (l : Label) (s : RawSubscript) → NoneInResult s → NoneInResult (remove_label l s)
unfolding remove_label
NoneInResult-remove_label l s apart m there =
    apart m (ground (arith, there, contains-remove_label l s m))

first_occurs :
    (scs : List OperandSc)
    → 0 < length (get_or scs 0 [])
    → occurs scs (get_or (get_or scs 0 []) 0 0) ≡ true
first_occurs [] long = absurd (omega (arith, long))
first_occurs ([] ∷ scs) long = absurd (omega (arith, long))
first_occurs ((l ∷ sc) ∷ scs) long = ground arith

labels_some :
    (s : RawSubscript)
    → 0 < length (get_or s.operands 0 [])
    → contains (get_operands_label_set s) (get_or (get_or s.operands 0 []) 0 0) ≡ true
labels_some s long =
    get_operands_label_set-occurs s (get_or (get_or s.operands 0 []) 0 0)
    ∙ first_occurs s.operands long

contains-some : (ls : List ℕ) (l : ℕ) → contains ls l ≡ true → (length ls == 0) ≡ false
contains-some [] l e = absurd (true≢false (sym e))
contains-some (m ∷ ls) l e = ground arith

nothing : (scs : List OperandSc) → (length scs == 0) ≡ true → scs ≡ []
nothing [] e = refl
nothing (sc ∷ scs) e = absurd (ground (arith, e))

labels_none : (s : RawSubscript) → (length s.operands == 0) ≡ true → get_operands_label_set s ≡ []
unfolding get_operands_label_set insert_operands
labels_none s e = rw (nothing s.operands e) refl

module _ (ds : Diagonals) (laws : Promises ds) (means : Means ds laws) (es : Estimates)
    (ts : Tensors ds es) (cartesian : Subscript → List ds.Operand → Option ℕ) (a : Assignment) where
  -- `size` counts the keys with a value.
  abbrev pub Sizes : Type 0
  Sizes = (x : ds.Operand) → ts.size_of x ≡ sum_keys means.dom (ds.depth x) (means.entry x) % 2 ^ 64

  -- The operator of Cartesian products gives the sum, as a word.
  abbrev pub ProductSums : Type 0
  ProductSums =
      (s : RawSubscript) (made : Subscript) (xs : List ds.Operand)
      → IsMade s SubscriptType.none made
      → made.type ≡ SubscriptType.cartesian
      → NoneInResult s
      → Matches ds xs s.operands
      → cartesian made xs ≡ some (sum_product ds laws means s xs a % 2 ^ 64)

  first_long :
      (xs : List ds.Operand) (scs : List OperandSc)
      → (length scs == 0) ≡ false
      → Matches ds xs scs
      → 0 < length (get_or scs 0 [])
  first_long xs [] e fit = absurd (ground (arith, e))
  first_long [] (sc ∷ scs) e (same, fit) = absurd (omega (arith, same))
  first_long (x ∷ xs) (sc ∷ scs) e (same, (long, b, deep, fit)) = long

  value_at-nothing :
      (xs : List ds.Operand) (scs : List OperandSc)
      → (length scs == 0) ≡ true
      → length xs ≡ length scs
      → value_at ds means.entry xs scs a ≡ 1
  value_at-nothing [] scs e same = refl
  value_at-nothing (x ∷ xs) [] e same = refl
  value_at-nothing (x ∷ xs) (sc ∷ scs) e same = absurd (ground (arith, e))

  value_at-single :
      (xs : List ds.Operand) (scs : List OperandSc) (labels : List ℕ)
      → (length scs == 1) ≡ true
      → Matches ds xs scs
      → (length (get_or scs 0 []) == length labels) ≡ true
      → IsDistinct labels
      → ((m : ℕ) → contains labels m ≡ occurs scs m)
      → total labels means.dom (value_at ds means.entry xs scs) a
        ≡ sum_keys means.dom
            (ds.depth (get_or xs 0 ds.no_operand))
            (means.entry (get_or xs 0 ds.no_operand))
  value_at-single xs [] labels one fit once d same = absurd (ground (arith, one))
  value_at-single [] (sc ∷ scs) labels one (long, fit) once d same = absurd (omega (arith, long))
  value_at-single (x ∷ y ∷ xs) (sc ∷ []) labels one (long, fit) once d same =
      absurd (omega (arith, long))
  value_at-single xs (sc ∷ sc' ∷ scs) labels one fit once d same = absurd (ground (arith, one))
  value_at-single (x ∷ []) (sc ∷ []) labels one (long, (some_labels, b, deep, fit)) once d same =
      let in_sc : (m : ℕ) → contains labels m ≡ contains sc m =
        λ m. let e = same m in ground (arith, e) in
      let distinct =
        as_long-IsDistinct labels sc d (λ m e. sym (in_sc m) ∙ e) (ground (arith, once)) in
      total-perm labels sc means.dom _ a d distinct in_sc
      ∙ total-congr sc means.dom _ (λ c. means.entry x (map c sc)) a (λ c. omega arith)
      ∙ total-keys sc means.dom (means.entry x) a distinct
      ∙ ap (λ n. sum_keys means.dom n (means.entry x)) (sym deep)

  nothing-sum :
      (s : RawSubscript) (xs : List ds.Operand)
      → (operands_count s == 0) ≡ true
      → Matches ds xs s.operands
      → 1 ≡ sum_product ds laws means s xs a % 2 ^ 64
  unfolding operands_count
  nothing-sum s xs no_operand fit =
      rw (labels_none s no_operand, value_at-nothing xs s.operands no_operand fit.0) refl

  count-sum :
      (s : RawSubscript) (xs : List ds.Operand)
      → Sizes
      → (operands_count s == 1) ≡ true
      → (label_count s 0 == length (get_operands_label_set s)) ≡ true
      → Matches ds xs s.operands
      → count_single_result ds es ts xs ≡ sum_product ds laws means s xs a % 2 ^ 64
  unfolding operands_count label_count count_single_result
  count-sum s xs sizes one once fit =
      sizes (get_or xs 0 ds.no_operand)
      ∙ ap (λ n. n % 2 ^ 64)
          (sym (
            value_at-single xs s.operands (get_operands_label_set s) one fit once
              (get_operands_label_set-IsDistinct s) (get_operands_label_set-occurs s)))

  result_apart :
      (s : RawSubscript) (xs : List ds.Operand)
      → (operands_count s == 1) ≡ true
      → all_in_result (get_operands_label_set s) (get_result_label_set s) ≡ true
      → NoneInResult s
      → Matches ds xs s.operands
      → ⊥
  unfolding operands_count
  result_apart s xs one all apart fit =
      let l = get_or (get_or s.operands 0 []) 0 0 in
      let there = labels_some s (first_long xs s.operands (ground (arith, one)) fit) in
      let in_result =
        all_in_result-in (get_operands_label_set s) (get_result_label_set s) l all there in
      true≢false (sym in_result ∙ contains-get_result_label_set s l ∙ apart l there)

  -- For a subscript as the constructor makes it, of at most 256 operands and result labels, with
  -- no label of an operand in the result, and operands with as many positions as labels; where the
  -- diagonals keep what they promise, their slices are those of the tensors that the operands
  -- stand for, `size` is the number of keys with a value, and the operator of Cartesian products
  -- gives the sum for subscripts of its type: with any fuel beyond the number of labels the
  -- operators return the sum, over all assignments of key parts to the labels, of the products of
  -- the operands' values, modulo 2 ^ 64.
  pub evaluate-sum :
      (fuel : ℕ) (s : RawSubscript) (made : Subscript) (xs : List ds.Operand)
      → Sizes
      → ProductSums
      → IsMade s SubscriptType.none made
      → length s.operands ≤ 256
      → length s.result ≤ 256
      → NoneInResult s
      → Matches ds xs s.operands
      → length (get_operands_label_set s) < fuel
      → evaluate ds es ts cartesian fuel made xs ≡ some (sum_product ds laws means s xs a % 2 ^ 64)
  unfolding evaluate by_type chosen_type operands_count
  evaluate-sum zero s made xs sizes products is few few_result apart fit enough =
      absurd (omega (arith, enough))
  evaluate-sum (suc fuel) s made xs sizes products is few few_result apart fit enough =
      let kinds = subst (Kinds s) (sym is.typed) (calc_state-Kinds s made.connected_components) in
      let by = λ (t : SubscriptType).
        by_type ds es ts (evaluate ds es ts cartesian fuel) cartesian t made xs in
      elim kinds [
        | of_nothing no_operand e ↦ ap by e ∙ ap some (nothing-sum s xs no_operand fit)
        | of_count one once e ↦ ap by e ∙ ap some (count-sum s xs sizes one once fit)
        | of_product e ↦ ap by e ∙ products s made xs is e apart fit
        | of_result one all e ↦ absurd (result_apart s xs one all apart fit)
        | of_join some_operand e ↦
            ap by e
            ∙ join_single_result-sum ds laws means es ts (evaluate ds es ts cartesian fuel) a s
                SubscriptType.none made xs is few few_result fit
                (contains-some (get_operands_label_set s) _
                  (labels_some s (first_long xs s.operands some_operand fit)))
                (λ l next ys there is_next fits.
                  let fewer = length-remove_label l s there in
                  evaluate-sum fuel (remove_label l s) next ys sizes products is_next
                    (omega (arith, few, length-remove_label_operands l s))
                    (rw (result-remove_label l s) few_result) (NoneInResult-remove_label l s apart)
                    fits (omega (arith, enough, fewer)))
      ]
