-- ===== src/HashJoin/Store.antt =====
-- Writing the slices of a key part makes the vector that the join gives for it.
use hypertrie.Common.{
  ==_iff, Bool, Bool-cases, List, [], ap, arith, false, get_or, get_or-set, inl, inr, length,
  length-set, refl, set, suc, sym, ℕ, ◌<◌, ◌==◌, ◌||◌, ◌∙◌, ◌∷◌, ◌≡◌,
}
use hypertrie.HashJoin.{Diagonals, JoinOp, Promises, store_slices}
use hypertrie.HashJoin.Sort.{All, any}
use hypertrie.HashJoin.Values.{writes}

module _ (ds : Diagonals) (laws : Promises ds) where
  -- Two vectors of one length with the same operands are equal.
  operands_ext :
      (v w : List ds.Operand)
      → length v ≡ length w
      → ((i : ℕ) → i < length w → get_or v i ds.no_operand ≡ get_or w i ds.no_operand)
      → v ≡ w
  operands_ext [] [] l same = refl
  operands_ext [] (y ∷ w) l same = absurd (omega (arith, l))
  operands_ext (x ∷ v) [] l same = absurd (omega (arith, l))
  operands_ext (x ∷ v) (y ∷ w) l same =
      let first = same 0 (omega arith) in
      let rest = operands_ext v w (omega (arith, l)) (λ i lt. same (suc i) (omega (arith, lt))) in
      cc (first, rest)

  stored :
      (target v : List ds.Operand) (op : JoinOp ds) (i : ℕ) (rest : Bool)
      → length v ≡ length target
      → (op.result_depth == 0) ≡ false
      → op.pos_in_out < length target
      → get_or target op.pos_in_out ds.no_operand ≡ ds.current_hypertrie op.diagonal
      → ((writes ds laws i op || rest) ≡ false
          → get_or v i ds.no_operand ≡ get_or target i ds.no_operand)
      → rest ≡ false
      → get_or (set v op.pos_in_out (ds.current_hypertrie op.diagonal)) i ds.no_operand
        ≡ get_or target i ds.no_operand
  stored target v op i rest l left lt shown same e =
      get_or-set v op.pos_in_out i (ds.current_hypertrie op.diagonal) ds.no_operand
        (omega (arith, l, lt))
      ∙ elim (Bool-cases (op.pos_in_out == i)) [
        | inl at_i ↦
            let here = (==_iff op.pos_in_out i).0 at_i in
            rw at_i (sym shown ∙ ap (λ j. get_or target j ds.no_operand) here)
        | inr other ↦ rw other (same (ground (arith, left, other, e)))
      ]

  -- The operands are written to a vector that differs from the result only there.
  pub store_slices-target :
      (target v : List ds.Operand) (ops : List (JoinOp ds))
      → length v ≡ length target
      → All
          (λ op.
            (op.result_depth == 0) ≡ false
            → (op.pos_in_out < length target)
              × (get_or target op.pos_in_out ds.no_operand ≡ ds.current_hypertrie op.diagonal))
          ops
      → ((i : ℕ)
          → any (writes ds laws i) ops ≡ false
          → get_or v i ds.no_operand ≡ get_or target i ds.no_operand)
      → store_slices ds ops v ≡ target
  unfolding store_slices
  store_slices-target target v [] l placed same = operands_ext v target l (λ i lt. same i refl)
  store_slices-target target v (op ∷ ops) l (here, placed) same =
      elim (Bool-cases (op.result_depth == 0)) [
        | inl whole ↦
            rw whole
              (store_slices-target target v ops l placed (λ i e. same i (ground (arith, whole, e))))
        | inr left ↦
            let (lt, shown) = here left in
            rw left (
              store_slices-target target (set v op.pos_in_out (ds.current_hypertrie op.diagonal))
                ops (length-set v op.pos_in_out _ ∙ l) placed
                (λ i e.
                  stored target v op i (any (writes ds laws i) ops) l left lt shown (same i) e))
      ]
