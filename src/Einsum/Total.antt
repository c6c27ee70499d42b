-- ===== src/Einsum/Total.antt =====
-- A join gives the sum over all assignments of key parts to its labels.
use hypertrie.Common.{
  Bool-cases, List, [], ap, arith, contains, if◌then◌else◌, inl, inr, refl, sym, true, ℕ, ◌∙◌, ◌∷◌,
  ◌≡◌,
}
use hypertrie.Common.Sets.{IsDistinct, contains-set_erase, count-set_erase, set_erase}
use hypertrie.Einsum.Joins.{poss_in, value_at-joined}
use hypertrie.Einsum.Meaning.{Matches, Means, value_at}
use hypertrie.Einsum.Operands.{all_have-dom}
use hypertrie.Einsum.Sums.{
  Assignment, assign, sum_over, sum_over-congr, sum_over-part, sum_over-zero, total, total-congr,
  total-first, total-perm,
}
use hypertrie.HashJoin.{Diagonals, Promises}
use hypertrie.HashJoin.Values.{all_have, joined}
use hypertrie.Subscript.{RawSubscript, get_operands_label_set, remove_label}
use hypertrie.Subscript.Labels.{
  contains-remove_label, get_operands_label_set-IsDistinct, get_operands_label_set-occurs,
}

total-zero : (ls dom : List ℕ) (a : Assignment) → total ls dom (λ b. 0) a ≡ 0
total-zero [] dom a = refl
total-zero (l ∷ ls) dom a = sum_over-zero dom _ (λ k e. total-zero ls dom (assign l k a))

set_erase-remove_label :
    (s : RawSubscript) (l : ℕ) (m : ℕ)
    → contains (set_erase l (get_operands_label_set s)) m
      ≡ contains (get_operands_label_set (remove_label l s)) m
set_erase-remove_label s l m =
    contains-set_erase l (get_operands_label_set s) m ∙ sym (contains-remove_label l s m)

erased-IsDistinct : (l : ℕ) (ls : List ℕ) → IsDistinct ls → IsDistinct (set_erase l ls)
erased-IsDistinct l ls d n = let once = d n in ground (arith, count-set_erase n l ls, once)

module _ (ds : Diagonals) (laws : Promises ds) (means : Means ds laws) where
  -- The sum over all assignments of the products of the operands' values.
  abbrev pub sum_product : RawSubscript → List ds.Operand → Assignment → ℕ
  sum_product s xs a =
      total (get_operands_label_set s) means.dom (value_at ds means.entry xs s.operands) a

  abbrev pub slices_at : RawSubscript → ℕ → List ds.Operand → ℕ → List ds.Operand
  slices_at s l xs k = joined ds laws xs (poss_in ds laws means s.operands l) k

  sum_product-at :
      (s : RawSubscript) (l k : ℕ) (xs : List ds.Operand) (a : Assignment)
      → Matches ds xs s.operands
      → contains means.dom k ≡ true
      → total
          (set_erase l (get_operands_label_set s))
          means.dom
          (λ b. value_at ds means.entry xs s.operands (assign l k b))
          a
        ≡ (if all_have ds laws xs (poss_in ds laws means s.operands l) k
            then sum_product (remove_label l s) (slices_at s l xs k) a
            else 0)
  unfolding remove_label
  sum_product-at s l k xs a fit in_dom =
      let erased = set_erase l (get_operands_label_set s) in
      let step =
        total-congr erased means.dom _ _ a
          (λ b. value_at-joined ds laws means xs s.operands l k b fit in_dom) in
      elim (Bool-cases (all_have ds laws xs (poss_in ds laws means s.operands l) k)) [
        | inl all ↦ rw all (
            (rw all at step)
            ∙ total-perm erased (get_operands_label_set (remove_label l s)) means.dom _ a
                (erased-IsDistinct l _ (get_operands_label_set-IsDistinct s))
                (get_operands_label_set-IsDistinct (remove_label l s)) (set_erase-remove_label s l))
        | inr some_not ↦ rw some_not ((rw some_not at step) ∙ total-zero erased means.dom a)
      ]

  pub sum_product-join :
      (s : RawSubscript) (l : ℕ) (xs : List ds.Operand) (ks : List ℕ) (a : Assignment)
      → Matches ds xs s.operands
      → contains (get_operands_label_set s) l ≡ true
      → IsDistinct ks
      → ((k : ℕ) → contains ks k ≡ all_have ds laws xs (poss_in ds laws means s.operands l) k)
      → sum_product s xs a
        ≡ sum_over ks (λ k. sum_product (remove_label l s) (slices_at s l xs k) a)
  sum_product-join s l xs ks a fit there d same =
      let occurring = sym (get_operands_label_set-occurs s l) ∙ there in
      let f : ℕ → ℕ = λ k. sum_product (remove_label l s) (slices_at s l xs k) a in
      total-first (get_operands_label_set s) means.dom (value_at ds means.entry xs s.operands) l a
        (get_operands_label_set-IsDistinct s) there
      ∙ sum_over-congr means.dom _ _ (λ k in_dom.
        sum_product-at s l k xs a fit in_dom ∙ ap (λ b. if b then f k else 0) (sym (same k)))
      ∙ sum_over-part means.dom ks f means.dom_distinct d
          (λ k e. all_have-dom ds laws means xs s.operands l k fit occurring (sym (same k) ∙ e))
