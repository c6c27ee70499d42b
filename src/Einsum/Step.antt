-- ===== src/Einsum/Step.antt =====
-- One label of a join: the sum over its key parts of what the next subscript gives.
use hypertrie.Common.{
  Bool-cases, List, Option, [], ap, arith, contains, false, get_or, if◌then◌else◌, inl, inr, length,
  map, not, some, true, ℕ, ◌%◌, ◌&&◌, ◌+◌, ◌==◌, ◌^◌, ◌∙◌, ◌∷◌, ◌≡◌,
}
use hypertrie.Einsum.{Estimates, get_min_card_label, min_card_label_from, sum_results}
use hypertrie.Einsum.Sums.{sum_over}
use hypertrie.HashJoin.{Diagonals}
use hypertrie.Subscript.{Label}
use hypertrie.Subscript.Make.{Subscript}
use mathlib.Core.Bool.{true≢false}

module _ (es : Estimates) (calc_card : Label → es.Double) where
  min_card_label_from-in :
      (lonely labels all : List Label) (l : Label) (c : es.Double)
      → contains all l ≡ true
      → ((a : Label) → contains labels a ≡ true → contains all a ≡ true)
      → contains all (min_card_label_from es calc_card lonely labels l c) ≡ true
  unfolding min_card_label_from
  min_card_label_from-in lonely [] all l c there within = there
  min_card_label_from-in lonely (m ∷ labels) all l c there within =
      let later = λ (a : Label) (e : contains labels a ≡ true). within a (ground (arith, e)) in
      elim (Bool-cases (not (contains lonely m) && es.less (calc_card m) c)) [
        | inl chosen ↦ rw chosen (
            min_card_label_from-in lonely labels all m (calc_card m) (within m (ground arith))
              later)
        | inr other ↦ rw other (min_card_label_from-in lonely labels all l c there later)
      ]

  first_label :
      (labels : List Label)
      → (length labels == 0) ≡ false
      → contains labels (get_or labels 0 0) ≡ true
  first_label [] e = absurd (true≢false e)
  first_label (l ∷ labels) e = ground arith

  -- Where the operands have a label at all, the label that is chosen is one of theirs.
  pub get_min_card_label-in :
      (s : Subscript)
      → (length s.operands_label_set == 0) ≡ false
      → contains s.operands_label_set (get_min_card_label es calc_card s) ≡ true
  unfolding get_min_card_label
  get_min_card_label-in s e = elim (Bool-cases (length s.operands_label_set == 1)) [
    | inl one ↦ rw one (first_label s.operands_label_set e)
    | inr more ↦ rw more (
        min_card_label_from-in s.lonely_non_result_labels s.operands_label_set s.operands_label_set
          (get_or s.operands_label_set 0 0) es.infinity (first_label s.operands_label_set e)
          (λ a h. h))
  ]

module _ (ds : Diagonals) (sub : List ds.Operand → Option ℕ) (f : ℕ → ℕ)
    (at_part : ℕ → List ds.Operand) where
  sum_results-sum :
      (ks : List ℕ) (v : ℕ)
      → ((k : ℕ) → contains ks k ≡ true → sub (at_part k) ≡ some (f k % 2 ^ 64))
      → sum_results ds sub (map (λ k. (k, at_part k)) ks) (v % 2 ^ 64)
        ≡ some ((v + sum_over ks f) % 2 ^ 64)
  unfolding sum_results
  sum_results-sum [] v right = ap (λ n. some (n % 2 ^ 64)) (omega arith)
  sum_results-sum (k ∷ ks) v right =
      let next : (if f k % 2 ^ 64 == 0 then v % 2 ^ 64 else (v % 2 ^ 64 + f k % 2 ^ 64) % 2 ^ 64)
          ≡ (v + f k) % 2 ^ 64 =
        ground arith in
      let rest = sum_results-sum ks (v + f k) (λ j e. right j (ground (arith, e))) in
      rw (right k (ground arith), next) (rest ∙ ap (λ n. some (n % 2 ^ 64)) (omega arith))

  pub sum_results-zero :
      (ks : List ℕ)
      → ((k : ℕ) → contains ks k ≡ true → sub (at_part k) ≡ some (f k % 2 ^ 64))
      → sum_results ds sub (map (λ k. (k, at_part k)) ks) 0 ≡ some (sum_over ks f % 2 ^ 64)
  sum_results-zero ks right =
      let start_at : 0 ≡ 0 % 2 ^ 64 = omega arith in
      ap (sum_results ds sub (map (λ k. (k, at_part k)) ks)) start_at
      ∙ sum_results-sum ks 0 right
      ∙ ap (λ n. some (n % 2 ^ 64)) (omega arith)
