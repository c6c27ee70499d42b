-- ===== src/HashJoin/Values.antt =====
-- Where the slices of a key part are written: the operands that keep positions, in their order.
use mathlib.Core.Bool.{true≢false}
use hypertrie.Common.{
  Bool, Bool-cases, List, [], ap, append_assoc, arith, contains, false, get_or, if◌then◌else◌, inl,
  inr, length, length-append, not, refl, subst, suc, sym, true, zero, ℕ, ◌%◌, ◌&&◌, ◌++◌, ◌+◌, ◌-◌,
  ◌<◌, ◌==◌, ◌||◌, ◌∙◌, ◌∷◌, ◌≡◌, ◌≤◌,
}
use hypertrie.HashJoin.{free_positions, Diagonals, JoinOp, Promises, join_ops, placeholders}
use hypertrie.HashJoin.Sort.{All, any, every}

or_false : (a b : Bool) → (a || b) ≡ false → (a ≡ false) × (b ≡ false)
or_false a b e = ground (arith, e)

get_or-append {ℓ} :
    {A : Type ℓ} (xs : List A) (y : A) (ys : List A) (d : A)
    → get_or (xs ++ (y ∷ ys)) (length xs) d ≡ y
get_or-append [] y ys d = refl
get_or-append (x ∷ xs) y ys d = get_or-append xs y ys d

-- In range the positions that are free are counted.
pub free_positions-within :
    (depth n : ℕ) → 0 < n → n ≤ depth → depth ≤ 256 → free_positions depth n ≡ depth - n
unfolding free_positions
free_positions-within depth n some_joined within narrow = elim (Bool-cases (n == 256)) [
  | inl all ↦ ground (arith, all, within, narrow)
  | inr fewer ↦
      let small : n % 256 ≡ n = ground (arith, fewer, within, narrow) in
      rw small (omega (arith, some_joined, within, narrow))
]

-- What a join gives for a key part: the slices of the operands that are joined, without those that
-- have no position left, and the other operands as they are.
module _ (ds : Diagonals) (laws : Promises ds) where
  abbrev pub joined : List ds.Operand → List (List ℕ) → ℕ → List ds.Operand
  joined [] poss k = []
  joined (x ∷ xs) [] k = []
  joined (x ∷ xs) (join_poss ∷ poss) k =
      let rest = joined xs poss k in
      if length join_poss == 0
      then x ∷ rest
      else if free_positions (ds.depth x) (length join_poss) == 0
      then rest
      else laws.slice_of (x, join_poss) k ∷ rest

  -- Whether every operand that is joined has a slice for the key part.
  abbrev pub all_have : List ds.Operand → List (List ℕ) → ℕ → Bool
  all_have [] poss k = true
  all_have (x ∷ xs) [] k = true
  all_have (x ∷ xs) (join_poss ∷ poss) k =
      let rest = all_have xs poss k in
      if length join_poss == 0 then rest else contains (laws.keys (x, join_poss)) k && rest

  abbrev pub has_part : ℕ → JoinOp ds → Bool
  has_part k op = contains (laws.keys (laws.origin op.diagonal)) k

  abbrev pub writes : ℕ → JoinOp ds → Bool
  writes i op = not (op.result_depth == 0) && op.pos_in_out == i

  -- The operand is written where its slice stands in the result.
  abbrev pub IsPlaced : (ℕ → List ds.Operand) → JoinOp ds → Type 0
  IsPlaced out op =
      (k : ℕ)
      → (op.result_depth == 0) ≡ false
      → (op.pos_in_out < length (out k))
        × (get_or (out k) op.pos_in_out ds.no_operand ≡ laws.slice_of (laws.origin op.diagonal) k)

  pub every-join_ops :
      (n : ℕ) (xs : List ds.Operand) (poss : List (List ℕ)) (k : ℕ)
      → every (has_part k) (join_ops ds n xs poss) ≡ all_have xs poss k
  unfolding join_ops
  every-join_ops n [] poss k = refl
  every-join_ops n (x ∷ xs) [] k = refl
  every-join_ops n (x ∷ xs) (p ∷ poss) k = elim (Bool-cases (length p == 0)) [
    | inl unjoined ↦ rw unjoined (every-join_ops ((n + 1) % 256) xs poss k)
    | inr joins ↦ elim (Bool-cases (free_positions (ds.depth x) (length p) == 0)) [
      | inl whole ↦
          rw (joins, whole, laws.opened x p)
            (ap (λ b. contains (laws.keys (x, p)) k && b) (every-join_ops n xs poss k))
      | inr left ↦
          rw (joins, left, laws.opened x p)
            (ap (λ b. contains (laws.keys (x, p)) k && b)
              (every-join_ops ((n + 1) % 256) xs poss k))
    ]
  ]

  pub joined-ops-IsPlaced :
      (pre : ℕ → List ds.Operand) (n : ℕ) (xs : List ds.Operand) (poss : List (List ℕ))
      → ((k : ℕ) → length (pre k) ≡ n)
      → n + length xs ≤ 256
      → All (IsPlaced (λ k. pre k ++ joined xs poss k)) (join_ops ds (n % 256) xs poss)
  unfolding join_ops
  joined-ops-IsPlaced pre n [] poss l b = tt
  joined-ops-IsPlaced pre n (x ∷ xs) [] l b = tt
  joined-ops-IsPlaced pre n (x ∷ xs) (p ∷ poss) l b =
      let next : (n % 256 + 1) % 256 ≡ (n + 1) % 256 = omega arith in
      let here : n % 256 ≡ n = omega (arith, b) in
      elim (Bool-cases (length p == 0)) [
        | inl unjoined ↦
            let rest =
              joined-ops-IsPlaced (λ k. pre k ++ (x ∷ [])) (n + 1) xs poss
                (λ k. length-append (pre k) (x ∷ []) ∙ ap (λ m. m + 1) (l k)) (omega (arith, b)) in
            rw (unjoined, next) (simp append_assoc at rest)
        | inr joins ↦ elim (Bool-cases (free_positions (ds.depth x) (length p) == 0)) [
          | inl whole ↦
              rw (joins, whole)
                (
                  (λ k left. absurd (true≢false (sym whole ∙ left))),
                  joined-ops-IsPlaced pre n xs poss l (omega (arith, b)),
                )
          | inr left ↦
              let rest =
                joined-ops-IsPlaced (λ k. pre k ++ (laws.slice_of (x, p) k ∷ [])) (n + 1) xs poss
                  (λ k. length-append (pre k) (laws.slice_of (x, p) k ∷ []) ∙ ap (λ m. m + 1) (l k))
                  (omega (arith, b)) in
              rw (joins, left, next, here)
                (
                  (λ k kept. (
                    rw (length-append (pre k) (laws.slice_of (x, p) k ∷ joined xs poss k), l k)
                        (omega arith),
                    (rw
                        (
                          ← l k,
                          get_or-append (pre k) (laws.slice_of (x, p) k) (joined xs poss k)
                              ds.no_operand,
                          laws.opened x p,
                        )
                        refl),
                  )),
                  (simp append_assoc at rest),
                )
        ]
      ]

  -- One position further, behind a first operand.
  shifted :
      (written : ℕ → Bool) (n i : ℕ) (v w : List ds.Operand) (x y : ds.Operand)
      → (i ≡ 0 → x ≡ y)
      → ((j : ℕ)
          → written (n + 1 + j) ≡ false
          → get_or v j ds.no_operand ≡ get_or w j ds.no_operand)
      → written (n + i) ≡ false
      → get_or (x ∷ v) i ds.no_operand ≡ get_or (y ∷ w) i ds.no_operand
  shifted written n zero v w x y first later e = first refl
  shifted written n (suc i) v w x y first later e =
      let one : n + suc i ≡ n + 1 + i = omega arith in
      later i (subst (λ m. written m ≡ false) one e)

  -- Where no operand is written, the constructor's vector has what the result has.
  pub placeholders-joined :
      (n : ℕ) (xs : List ds.Operand) (poss : List (List ℕ)) (k i : ℕ)
      → n + length xs ≤ 256
      → any (writes (n + i)) (join_ops ds (n % 256) xs poss) ≡ false
      → get_or (placeholders ds xs poss) i ds.no_operand ≡ get_or (joined xs poss k) i ds.no_operand
  unfolding join_ops placeholders
  placeholders-joined n [] poss k i b unwritten = refl
  placeholders-joined n (x ∷ xs) [] k i b unwritten = refl
  placeholders-joined n (x ∷ xs) (p ∷ poss) k i b unwritten =
      let next : (n % 256 + 1) % 256 ≡ (n + 1) % 256 = omega arith in
      let here : n % 256 ≡ n = omega (arith, b) in
      elim (Bool-cases (length p == 0)) [
        | inl unjoined ↦
            let later = λ (j : ℕ). placeholders-joined (n + 1) xs poss k j (omega (arith, b)) in
            rw unjoined (
              shifted (λ m. any (writes m) (join_ops ds ((n + 1) % 256) xs poss)) n i
                (placeholders ds xs poss) (joined xs poss k) x x (λ e. refl) later
                (rw (unjoined, next) at unwritten))
        | inr joins ↦ elim (Bool-cases (free_positions (ds.depth x) (length p) == 0)) [
          | inl whole ↦
              let (kept, rest) =
                or_false (not (free_positions (ds.depth x) (length p) == 0) && 255 == n + i)
                  (any (writes (n + i)) (join_ops ds (n % 256) xs poss))
                  (rw (joins, whole) at unwritten) in
              rw (joins, whole) (placeholders-joined n xs poss k i (omega (arith, b)) rest)
          | inr left ↦
              let later = λ (j : ℕ). placeholders-joined (n + 1) xs poss k j (omega (arith, b)) in
              let (kept, rest) =
                or_false (not (free_positions (ds.depth x) (length p) == 0) && n == n + i)
                  (any (writes (n + i)) (join_ops ds ((n + 1) % 256) xs poss))
                  (rw (joins, left, next, here) at unwritten) in
              rw (joins, left)
                (shifted (λ m. any (writes m) (join_ops ds ((n + 1) % 256) xs poss)) n i
                  (placeholders ds xs poss) (joined xs poss k) ds.no_operand
                  (laws.slice_of (x, p) k) (λ e. absurd (ground (arith, e, kept, left))) later rest)
        ]
      ]

  pub length-placeholders :
      (xs : List ds.Operand) (poss : List (List ℕ)) (k : ℕ)
      → length (placeholders ds xs poss) ≡ length (joined xs poss k)
  unfolding placeholders
  length-placeholders [] poss k = refl
  length-placeholders (x ∷ xs) [] k = refl
  length-placeholders (x ∷ xs) (p ∷ poss) k = ground (arith, length-placeholders xs poss k)
