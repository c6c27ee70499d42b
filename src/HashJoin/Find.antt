-- ===== src/HashJoin/Find.antt =====
-- Looking a key part up in the operands of a join: the diagonals move, and stay those of their
-- operands.
use mathlib.Core.Bool.{true≢false}
use hypertrie.Common.{
  Bool, Bool-cases, List, [], ap, contains, inl, inr, refl, sym, true, ℕ, ◌&&◌, ◌||◌, ◌∙◌, ◌∷◌, ◌≡◌,
}
use hypertrie.HashJoin.{Diagonals, JoinOp, Promises, find_in}
use hypertrie.HashJoin.Sort.{All, any, every}
use hypertrie.HashJoin.Values.{IsPlaced, has_part, writes}

module _ (ds : Diagonals) (laws : Promises ds) where
  pub find_in-has_part :
      (k : ℕ) (ops : List (JoinOp ds)) → (find_in ds k ops).0 ≡ every (has_part ds laws k) ops
  unfolding find_in
  find_in-has_part k [] = refl
  find_in-has_part k (op ∷ ops) = elim (Bool-cases (ds.find_part k op.diagonal).0) [
    | inl found ↦ rw (found, ← laws.finds k op.diagonal, found) (find_in-has_part k ops)
    | inr missing ↦ rw (missing, ← laws.finds k op.diagonal, missing) refl
  ]

  -- What is said of operands and does not depend on where their diagonals stand.
  abbrev pub Stable : (JoinOp ds → Type 0) → Type 0
  Stable P =
      (op : JoinOp ds) (d : ds.Diagonal)
      → laws.origin d ≡ laws.origin op.diagonal
      → P op
      → P (record op { diagonal = d })

  abbrev pub IsStable : (JoinOp ds → Bool) → Type 0
  IsStable p =
      (op : JoinOp ds) (d : ds.Diagonal)
      → laws.origin d ≡ laws.origin op.diagonal
      → p (record op { diagonal = d }) ≡ p op

  pub All-find_in :
      (P : JoinOp ds → Type 0) (k : ℕ) (ops : List (JoinOp ds))
      → Stable P
      → All P ops
      → All P (find_in ds k ops).1
  unfolding find_in
  All-find_in P k [] stable h = tt
  All-find_in P k (op ∷ ops) stable (h, hs) =
      let here = stable op (ds.find_part k op.diagonal).1 (laws.probed k op.diagonal) h in
      elim (Bool-cases (ds.find_part k op.diagonal).0) [
        | inl found ↦ rw found (here, All-find_in P k ops stable hs)
        | inr missing ↦ rw missing (here, hs)
      ]

  pub any-find_in :
      (p : JoinOp ds → Bool) (k : ℕ) (ops : List (JoinOp ds))
      → IsStable p
      → any p (find_in ds k ops).1 ≡ any p ops
  unfolding find_in
  any-find_in p k [] stable = refl
  any-find_in p k (op ∷ ops) stable =
      let here = stable op (ds.find_part k op.diagonal).1 (laws.probed k op.diagonal) in
      elim (Bool-cases (ds.find_part k op.diagonal).0) [
        | inl found ↦ rw (found, here) (ap (λ b. p op || b) (any-find_in p k ops stable))
        | inr missing ↦ rw (missing, here) refl
      ]

  pub every-find_in :
      (p : JoinOp ds → Bool) (k : ℕ) (ops : List (JoinOp ds))
      → IsStable p
      → every p (find_in ds k ops).1 ≡ every p ops
  unfolding find_in
  every-find_in p k [] stable = refl
  every-find_in p k (op ∷ ops) stable =
      let here = stable op (ds.find_part k op.diagonal).1 (laws.probed k op.diagonal) in
      elim (Bool-cases (ds.find_part k op.diagonal).0) [
        | inl found ↦ rw (found, here) (ap (λ b. p op && b) (every-find_in p k ops stable))
        | inr missing ↦ rw (missing, here) refl
      ]

  -- The diagonal shows the slice of the key part.
  abbrev pub Shows : ℕ → JoinOp ds → Type 0
  Shows k op = ds.current_hypertrie op.diagonal ≡ laws.slice_of (laws.origin op.diagonal) k

  pub find_in-Shows :
      (k : ℕ) (ops : List (JoinOp ds))
      → (find_in ds k ops).0 ≡ true
      → All (Shows k) (find_in ds k ops).1
  unfolding find_in
  find_in-Shows k [] e = tt
  find_in-Shows k (op ∷ ops) e = elim (Bool-cases (ds.find_part k op.diagonal).0) [
    | inl found ↦ rw found (
      laws.holds k op.diagonal found
          ∙ ap (λ o. laws.slice_of o k) (sym (laws.probed k op.diagonal)),
      find_in-Shows k ops (rw found at e),
    )
    | inr missing ↦ absurd (true≢false (sym (rw missing at e)))
  ]

  pub has_part-IsStable : (k : ℕ) → IsStable (has_part ds laws k)
  has_part-IsStable k op d e = ap (λ o. contains (laws.keys o) k) e

  pub writes-IsStable : (i : ℕ) → IsStable (writes ds laws i)
  writes-IsStable i op d e = refl

  pub IsPlaced-Stable : (out : ℕ → List ds.Operand) → Stable (IsPlaced ds laws out)
  IsPlaced-Stable out op d e placed k left =
      let (lt, here) = placed k left in (lt, here ∙ ap (λ o. laws.slice_of o k) (sym e))
