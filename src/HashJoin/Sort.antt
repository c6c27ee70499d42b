-- ===== src/HashJoin/Sort.antt =====
-- Sorting the operands of a join keeps what holds of all, of any and of every one of them.
use hypertrie.Common.{
  ℕ, ◌+◌, ◌≤◌, if◌then◌else◌, List, Bool, Bool-cases, [], ap, arith, false, inl, inr, is_empty, ltb,
  refl, true, ◌&&◌, ◌||◌, ◌∙◌, ◌∷◌, ◌≡◌,
}
use hypertrie.HashJoin.{Diagonals, JoinOp, insert_op, optimize_operand_order}

abbrev pub All {ℓ κ} : {A : Type ℓ} → (A → Type κ) → List A → Type κ
All P [] = Unit
All P (x ∷ xs) = P x × All P xs

abbrev pub any {ℓ} : {A : Type ℓ} → (A → Bool) → List A → Bool
any p [] = false
any p (x ∷ xs) = p x || any p xs

abbrev pub every {ℓ} : {A : Type ℓ} → (A → Bool) → List A → Bool
every p [] = true
every p (x ∷ xs) = p x && every p xs

module _ (ds : Diagonals) where
  All-insert_op :
      (P : JoinOp ds → Type 0) (op : JoinOp ds) (ops : List (JoinOp ds))
      → P op
      → All P ops
      → All P (insert_op ds op ops)
  unfolding insert_op
  All-insert_op P op [] h hs = (h, tt)
  All-insert_op P op (o ∷ ops) h (h_o, hs) =
      elim (Bool-cases (ltb (ds.size o.diagonal) (ds.size op.diagonal))) [
        | inl less ↦ rw less (h_o, All-insert_op P op ops h hs)
        | inr not_less ↦ rw not_less (h, (h_o, hs))
      ]

  pub All-optimize_operand_order :
      (P : JoinOp ds → Type 0) (ops : List (JoinOp ds))
      → All P ops
      → All P (optimize_operand_order ds ops)
  unfolding optimize_operand_order
  All-optimize_operand_order P [] h = tt
  All-optimize_operand_order P (op ∷ ops) (h, hs) =
      All-insert_op P op (optimize_operand_order ds ops) h (All-optimize_operand_order P ops hs)

  any-insert_op :
      (p : JoinOp ds → Bool) (op : JoinOp ds) (ops : List (JoinOp ds))
      → any p (insert_op ds op ops) ≡ (p op || any p ops)
  unfolding insert_op
  any-insert_op p op [] = refl
  any-insert_op p op (o ∷ ops) = ground (arith, any-insert_op p op ops)

  pub any-optimize_operand_order :
      (p : JoinOp ds → Bool) (ops : List (JoinOp ds))
      → any p (optimize_operand_order ds ops) ≡ any p ops
  unfolding optimize_operand_order
  any-optimize_operand_order p [] = refl
  any-optimize_operand_order p (op ∷ ops) =
      any-insert_op p op (optimize_operand_order ds ops)
      ∙ ap (λ b. p op || b) (any-optimize_operand_order p ops)

  every-insert_op :
      (p : JoinOp ds → Bool) (op : JoinOp ds) (ops : List (JoinOp ds))
      → every p (insert_op ds op ops) ≡ (p op && every p ops)
  unfolding insert_op
  every-insert_op p op [] = refl
  every-insert_op p op (o ∷ ops) = ground (arith, every-insert_op p op ops)

  pub every-optimize_operand_order :
      (p : JoinOp ds → Bool) (ops : List (JoinOp ds))
      → every p (optimize_operand_order ds ops) ≡ every p ops
  unfolding optimize_operand_order
  every-optimize_operand_order p [] = refl
  every-optimize_operand_order p (op ∷ ops) =
      every-insert_op p op (optimize_operand_order ds ops)
      ∙ ap (λ b. p op && b) (every-optimize_operand_order p ops)

  is_empty-insert_op :
      (op : JoinOp ds) (ops : List (JoinOp ds)) → is_empty (insert_op ds op ops) ≡ false
  unfolding insert_op
  is_empty-insert_op op [] = refl
  is_empty-insert_op op (o ∷ ops) = ground arith

  pub is_empty-optimize :
      (ops : List (JoinOp ds)) → is_empty (optimize_operand_order ds ops) ≡ is_empty ops
  unfolding optimize_operand_order
  is_empty-optimize [] = refl
  is_empty-optimize (op ∷ ops) = is_empty-insert_op op (optimize_operand_order ds ops)

  -- Each operand is at most as large as those behind it.
  abbrev pub IsSorted : List (JoinOp ds) → Type 0
  IsSorted [] = Unit
  IsSorted (o ∷ ops) =
      All (λ (p : JoinOp ds). ds.size o.diagonal ≤ ds.size p.diagonal) ops × IsSorted ops

  -- How many operands pass a test.
  abbrev pub count_ops : (JoinOp ds → Bool) → List (JoinOp ds) → ℕ
  count_ops p [] = 0
  count_ops p (o ∷ ops) = (if p o then 1 else 0) + count_ops p ops
