-- ===== src/Einsum/Meaning.antt =====
-- What the operands of a subscript stand for: tensors with values 0 and 1.
use hypertrie.Common.{
  List, [], contains, false, length, map, suc, true, zero, ℕ, ◌*◌, ◌+◌, ◌-◌, ◌<◌, ◌∷◌, ◌≡◌, ◌≤◌,
}
use hypertrie.Common.Sets.{IsDistinct}
use hypertrie.Einsum.Positions.{AreValid, spread}
use hypertrie.Einsum.Sums.{Assignment, sum_over}
use hypertrie.HashJoin.{Diagonals, Promises}
use hypertrie.Subscript.{OperandSc}

-- The sum over all keys of a length.
abbrev pub sum_keys : List ℕ → ℕ → (List ℕ → ℕ) → ℕ
sum_keys dom zero f = f []
sum_keys dom (suc n) f = sum_over dom (λ k. sum_keys dom n (λ key. f (k ∷ key)))

-- The value at each key, with the key parts that occur, and what the slices at the key parts of a
-- diagonal are: a key part that is missing has no entries, and an operand that is resolved whole
-- has a value that is true.
pub record Means (ds : Diagonals) (laws : Promises ds) : Type 0 where
  pub dom : List ℕ
  pub entry : ds.Operand → List ℕ → ℕ
  pub dom_distinct : IsDistinct dom
  pub slice_depth :
      (x : ds.Operand) (poss : List ℕ) (k : ℕ)
      → AreValid (ds.depth x) poss
      → 0 < length poss
      → length poss < ds.depth x
      → ds.depth (laws.slice_of (x, poss) k) ≡ ds.depth x - length poss
  pub slice_entry :
      (x : ds.Operand) (poss : List ℕ) (k : ℕ) (key : List ℕ)
      → AreValid (ds.depth x) poss
      → 0 < length poss
      → length poss < ds.depth x
      → length key + length poss ≡ ds.depth x
      → contains (laws.keys (x, poss)) k ≡ true
      → entry (laws.slice_of (x, poss) k) key ≡ entry x (spread 0 (ds.depth x) poss k key)
  pub whole :
      (x : ds.Operand) (poss : List ℕ) (k : ℕ)
      → AreValid (ds.depth x) poss
      → 0 < length poss
      → length poss ≡ ds.depth x
      → contains (laws.keys (x, poss)) k ≡ true
      → entry x (spread 0 (ds.depth x) poss k []) ≡ 1
  pub missing :
      (x : ds.Operand) (poss : List ℕ) (k : ℕ) (key : List ℕ)
      → AreValid (ds.depth x) poss
      → 0 < length poss
      → length key + length poss ≡ ds.depth x
      → contains dom k ≡ true
      → contains (laws.keys (x, poss)) k ≡ false
      → entry x (spread 0 (ds.depth x) poss k key) ≡ 0
  pub in_dom :
      (x : ds.Operand) (poss : List ℕ) (k : ℕ)
      → AreValid (ds.depth x) poss
      → contains (laws.keys (x, poss)) k ≡ true
      → contains dom k ≡ true

-- An operand for each list of labels, with as many positions as it has labels, one at least.
abbrev pub Suits : (ds : Diagonals) → List ds.Operand → List OperandSc → Type 0
Suits ds [] scs = Unit
Suits ds (x ∷ xs) [] = Unit
Suits ds (x ∷ xs) (sc ∷ scs) =
    (0 < length sc) × (length sc ≤ 256) × (ds.depth x ≡ length sc) × Suits ds xs scs

abbrev pub Matches : (ds : Diagonals) → List ds.Operand → List OperandSc → Type 0
Matches ds xs scs = (length xs ≡ length scs) × Suits ds xs scs

-- The product of the values of the operands under an assignment of key parts to the labels.
abbrev pub value_at :
    (ds : Diagonals) → (ds.Operand → List ℕ → ℕ) → List ds.Operand → List OperandSc → Assignment → ℕ
value_at ds entry [] scs a = 1
value_at ds entry (x ∷ xs) [] a = 1
value_at ds entry (x ∷ xs) (sc ∷ scs) a = entry x (map a sc) * value_at ds entry xs scs a
