-- ===== src/Einsum/Single.antt =====
-- `JoinOperator::single_result` computes the sum, where the next operator does for the next subscript.
use hypertrie.Common.{
  List, Option, ap, arith, contains, false, length, some, subst, suc, sym, true, ℕ, ◌%◌, ◌==◌,
  ◌>>=◌, ◌^◌, ◌∙◌, ◌≡◌, ◌≤◌,
}
use hypertrie.Einsum.{
  Estimates, Tensors, get_min_card_label, join_single_result, ops_size, sum_results,
}
use hypertrie.Einsum.Joins.{poss_in}
use hypertrie.Einsum.Meaning.{Matches, Means}
use hypertrie.Einsum.Operands.{joined-Matches, length-ops_size, some_joined}
use hypertrie.Einsum.Step.{get_min_card_label-in, sum_results-zero}
use hypertrie.Einsum.Sums.{Assignment}
use hypertrie.Einsum.Total.{slices_at, sum_product, sum_product-join}
use hypertrie.HashJoin.{Diagonals, Promises, join_ops, rounds, start}
use hypertrie.HashJoin.Run.{rounds-all_have}
use hypertrie.Subscript.{
  RawSubscript, get_label_poss_in_operands, get_operands_label_set, remove_label,
}
use hypertrie.Subscript.Cached.{length-remove_label_operands, result-remove_label}
use hypertrie.Subscript.Kinds.{SubscriptType}
use hypertrie.Subscript.Labels.{get_operands_label_set-occurs}
use hypertrie.Subscript.Make.{Subscript, make_subscript}
use hypertrie.Subscript.Make.Total.{IsMade, make_subscript-IsMade}

module _ (ds : Diagonals) (laws : Promises ds) (means : Means ds laws) (es : Estimates)
    (ts : Tensors ds es) (sub : Subscript → List ds.Operand → Option ℕ) (a : Assignment) where
  -- The operator for the next subscript gives the sum, as a word.
  abbrev pub SubSums : RawSubscript → Type 0
  SubSums s =
      (l : ℕ) (next : Subscript) (ys : List ds.Operand)
      → contains (get_operands_label_set s) l ≡ true
      → IsMade (remove_label l s) SubscriptType.none next
      → Matches ds ys (remove_label l s).operands
      → sub next ys ≡ some (sum_product ds laws means (remove_label l s) ys a % 2 ^ 64)

  rounds_sum :
      (s : RawSubscript) (l : ℕ) (next : Subscript) (xs : List ds.Operand)
      → length s.operands ≤ 256
      → Matches ds xs s.operands
      → contains (get_operands_label_set s) l ≡ true
      → IsMade (remove_label l s) SubscriptType.none next
      → SubSums s
      → (start ds xs (poss_in ds laws means s.operands l) >>= λ it.
          sum_results ds
            (sub next)
            (rounds ds
              (suc (ops_size ds (join_ops ds 0 xs (poss_in ds laws means s.operands l))))
              it)
            0)
        ≡ some (sum_product ds laws means s xs a % 2 ^ 64)
  unfolding remove_label
  rounds_sum s l next xs few fit there is sums =
      let poss = poss_in ds laws means s.operands l in
      let occurring = sym (get_operands_label_set-occurs s l) ∙ there in
      let (it, ks, started, d, same, run) =
        rounds-all_have ds laws xs poss (omega (arith, few, fit.0))
          (some_joined ds laws means 0 xs s.operands l fit.0 occurring) in
      let short =
        length-ops_size ds laws means 0 xs s.operands l ks fit.0 occurring d
          (λ k e. sym (same k) ∙ e) in
      let f : ℕ → ℕ =
        λ k. sum_product ds laws means (remove_label l s) (slices_at ds laws means s l xs k) a in
      rw
        (
          started,
          run (suc (ops_size ds (join_ops ds 0 xs poss))) (omega (arith, short)),
          sum_product-join ds laws means s l xs ks a fit there d same,
        )
        (sum_results-zero ds (sub next) f (slices_at ds laws means s l xs) ks (λ k e.
          sums l next (slices_at ds laws means s l xs k) there is
            (joined-Matches ds laws means xs s.operands l k fit)))

  -- What `single_result` does once the label is chosen.
  abbrev after_label : ℕ → List ds.Operand → RawSubscript → Option ℕ
  after_label l xs s = make_subscript (remove_label l s) SubscriptType.none >>= λ next.
      start ds xs (poss_in ds laws means s.operands l) >>= λ it.
      sum_results ds (sub next)
        (rounds ds (suc (ops_size ds (join_ops ds 0 xs (poss_in ds laws means s.operands l)))) it) 0

  after_label-sum :
      (s : RawSubscript) (l : ℕ) (xs : List ds.Operand)
      → length s.operands ≤ 256
      → length s.result ≤ 256
      → Matches ds xs s.operands
      → contains (get_operands_label_set s) l ≡ true
      → SubSums s
      → after_label l xs s ≡ some (sum_product ds laws means s xs a % 2 ^ 64)
  after_label-sum s l xs few few_result fit there sums =
      let (next, found, is_next) =
        make_subscript-IsMade (remove_label l s) SubscriptType.none
          (omega (arith, few, length-remove_label_operands l s))
          (rw (result-remove_label l s) few_result) in
      rw found (rounds_sum s l next xs few fit there is_next sums)

  pub join_single_result-sum :
      (s : RawSubscript) (type : SubscriptType) (made : Subscript) (xs : List ds.Operand)
      → IsMade s type made
      → length s.operands ≤ 256
      → length s.result ≤ 256
      → Matches ds xs s.operands
      → (length (get_operands_label_set s) == 0) ≡ false
      → SubSums s
      → join_single_result ds es ts sub made xs ≡ some (sum_product ds laws means s xs a % 2 ^ 64)
  unfolding join_single_result get_label_poss_in_operands get_min_card_label
  join_single_result-sum s type made xs is few few_result fit some_labels sums =
      let l = get_min_card_label es (ts.calc_card xs made) made in
      let there =
        subst (λ (ls : List ℕ). contains ls l ≡ true) is.label_set
          (get_min_card_label-in es (ts.calc_card xs made) made
            (ap (λ (ls : List ℕ). length ls == 0) is.label_set ∙ some_labels)) in
      ap (after_label l xs) is.raw ∙ after_label-sum s l xs few few_result fit there sums
