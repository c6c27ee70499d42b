-- ===== src/HashJoin.antt =====
-- `HashJoin` (libs/hypertrie/src/dice/hypertrie/HashJoin.hpp) without optional operands: the key
-- parts for which all operands have a slice, with these slices. The diagonals that it goes through
-- are behind the interface `Diagonals`, with what they promise.
use hypertrie.Common.{
  Bool, List, Option, [], contains, false, if◌then◌else◌, is_empty, length, ltb, none, set, some,
  suc, true, zero, ℕ, ◌%◌, ◌+◌, ◌-◌, ◌==◌, ◌∷◌, ◌≡◌, ◌≤◌,
}
use hypertrie.Common.Sets.{IsDistinct}
use hypertrie.Node.{size}
pub mod Sort
pub mod Values
pub mod Find
pub mod Store
pub mod Ready
pub mod Next
pub mod Run

-- `hypertrie.depth() - size(join_poss)`, as `result_depths_` stores it: in 8 bits.
unfoldable pub free_positions : ℕ → ℕ → ℕ
free_positions depth joined = (depth + (256 - joined % 256)) % 256

-- What HashDiagonal.hpp offers: `open_at` is the constructor, from a hypertrie and positions.
pub record Diagonals : Type 1 where
  pub Operand : Type 0
  pub Diagonal : Type 0
  pub no_operand : Operand
  pub depth : Operand → ℕ
  pub open_at : Operand → List ℕ → Diagonal
  pub begin : Diagonal → Diagonal
  pub increment : Diagonal → Diagonal
  pub ended : Diagonal → Bool
  pub current_key_part : Diagonal → ℕ
  pub current_hypertrie : Diagonal → Operand
  pub find_part : ℕ → Diagonal → Bool × Diagonal
  pub size : Diagonal → ℕ

-- What the lemmas on whole joins rely on, for hypertries with an entry at least: of an empty one
-- the source takes the variant for single entries, with the key part 0. Operand and positions of a diagonal stay what they are; it has a list of key
-- parts, each once, each with a slice; begun, it goes through them and shows the slices, and
-- `find_part` finds them, after which the slice that was found is shown.
pub record Promises (ds : Diagonals) : Type 0 where
  pub origin : ds.Diagonal → ds.Operand × List ℕ
  pub keys : ds.Operand × List ℕ → List ℕ
  pub slice_of : ds.Operand × List ℕ → ℕ → ds.Operand
  pub remaining : ds.Diagonal → List ℕ
  pub opened : (x : ds.Operand) (poss : List ℕ) → origin (ds.open_at x poss) ≡ (x, poss)
  pub begun : (d : ds.Diagonal) → origin (ds.begin d) ≡ origin d
  pub moved : (d : ds.Diagonal) → origin (ds.increment d) ≡ origin d
  pub probed : (k : ℕ) (d : ds.Diagonal) → origin (ds.find_part k d).1 ≡ origin d
  pub distinct : (o : ds.Operand × List ℕ) → IsDistinct (keys o)
  pub begins : (d : ds.Diagonal) → remaining (ds.begin d) ≡ keys (origin d)
  pub ends : (d : ds.Diagonal) → ds.ended d ≡ is_empty (remaining d)
  pub shows :
      (d : ds.Diagonal) (k : ℕ) (ks : List ℕ) → remaining d ≡ k ∷ ks → ds.current_key_part d ≡ k
  pub begins_at :
      (d : ds.Diagonal) (k : ℕ) (ks : List ℕ)
      → remaining (ds.begin d) ≡ k ∷ ks
      → ds.current_hypertrie (ds.begin d) ≡ slice_of (origin d) k
  pub moves_to :
      (d : ds.Diagonal) (k : ℕ) (ks : List ℕ)
      → remaining (ds.increment d) ≡ k ∷ ks
      → ds.current_hypertrie (ds.increment d) ≡ slice_of (origin d) k
  pub steps :
      (d : ds.Diagonal) (k : ℕ) (ks : List ℕ)
      → remaining d ≡ k ∷ ks
      → remaining (ds.increment d) ≡ ks
  pub finds : (k : ℕ) (d : ds.Diagonal) → (ds.find_part k d).0 ≡ contains (keys (origin d)) k
  pub holds :
      (k : ℕ) (d : ds.Diagonal)
      → (ds.find_part k d).0 ≡ true
      → ds.current_hypertrie (ds.find_part k d).1 ≡ slice_of (origin d) k
  pub bounds : (d : ds.Diagonal) → length (keys (origin d)) ≤ ds.size d

module _ (ds : Diagonals) where
  -- An entry of `ops_` with those of `result_depths_` and `pos_in_out_`, which are permuted alike.
  pub record JoinOp : Type 0 where
    pub diagonal : ds.Diagonal
    pub result_depth : ℕ
    pub pos_in_out : ℕ

  -- The iterator; `value` is a pair of the key part and the slices.
  pub record JoinIterator : Type 0 where
    pub ops : List JoinOp
    pub ended : Bool
    pub key_part : ℕ
    pub sub_operands : List ds.Operand

  -- The constructor's loop from `out_pos` on, an 8-bit number; 255 is `max()`.
  unfoldable pub join_ops : ℕ → List ds.Operand → List (List ℕ) → List JoinOp
  unfolding free_positions
  join_ops out_pos [] poss = []
  join_ops out_pos (x ∷ xs) [] = []
  join_ops out_pos (x ∷ xs) (join_poss ∷ poss) =
      let result_depth = free_positions (ds.depth x) (length join_poss) in
      let op : ℕ → JoinOp = λ pos. record {
        diagonal = ds.open_at x join_poss;
        result_depth = result_depth;
        pos_in_out = pos;
      } in
      let next = join_ops ((out_pos + 1) % 256) xs poss in
      let same = join_ops out_pos xs poss in
      if length join_poss == 0
      then next
      else if result_depth == 0
      then op 255 ∷ same
      else op out_pos ∷ next

  unfoldable pub placeholders : List ds.Operand → List (List ℕ) → List ds.Operand
  unfolding free_positions
  placeholders [] poss = []
  placeholders (x ∷ xs) [] = []
  placeholders (x ∷ xs) (join_poss ∷ poss) =
      let rest = placeholders xs poss in
      if length join_poss == 0
      then x ∷ rest
      else if free_positions (ds.depth x) (length join_poss) == 0
      then rest
      else ds.no_operand ∷ rest

  -- `optimizeOperandOrder`: by size. Which of two operands of one size comes first is left open by
  -- `std::sort`; here it is the earlier one.
  unfoldable pub insert_op : JoinOp → List JoinOp → List JoinOp
  insert_op op [] = op ∷ []
  insert_op op (o ∷ ops) =
      let rest = insert_op op ops in
      if ltb (ds.size o.diagonal) (ds.size op.diagonal) then o ∷ rest else op ∷ (o ∷ ops)

  unfoldable pub optimize_operand_order : List JoinOp → List JoinOp
  unfolding insert_op
  optimize_operand_order [] = []
  optimize_operand_order (op ∷ ops) = insert_op op (optimize_operand_order ops)

  -- The loop over all operands but the first, until one has no slice.
  unfoldable pub find_in : ℕ → List JoinOp → Bool × List JoinOp
  find_in k [] = (true, [])
  find_in k (op ∷ ops) =
      let found = ds.find_part k op.diagonal in
      let op' : JoinOp = record op { diagonal = found.1 } in
      let rest = find_in k ops in if found.0 then (rest.0, op' ∷ rest.1) else (false, op' ∷ ops)

  -- The slices of all operands that have positions left.
  unfoldable pub store_slices : List JoinOp → List ds.Operand → List ds.Operand
  store_slices [] out = out
  store_slices (op ∷ ops) out = store_slices ops (
      if op.result_depth == 0
      then out
      else set out op.pos_in_out (ds.current_hypertrie op.diagonal))

  -- The loop of `next`, with fuel for the key parts that are left.
  unfoldable pub next_match : ℕ → JoinOp → List JoinOp → List ds.Operand → JoinIterator
  unfolding find_in store_slices
  next_match zero smallest others out = record {
    ops = smallest ∷ others;
    ended = true;
    key_part = 0;
    sub_operands = out;
  }
  next_match (suc fuel) smallest others out =
      let k = ds.current_key_part smallest.diagonal in
      let found = find_in k others in
      let later =
        next_match fuel (record smallest { diagonal = ds.increment smallest.diagonal }) found.1
          out in
      if ds.ended smallest.diagonal
      then record { ops = smallest ∷ others; ended = true; key_part = 0; sub_operands = out }
      else if found.0
      then record {
        ops = smallest ∷ found.1;
        ended = false;
        key_part = k;
        sub_operands = store_slices (smallest ∷ found.1) out;
      }
      else later

  -- The constructor; without an operand to join, `ops_.front()` is undefined.
  unfoldable pub start : List ds.Operand → List (List ℕ) → Option JoinIterator
  unfolding join_ops placeholders optimize_operand_order next_match
  start xs poss = elim (optimize_operand_order (join_ops 0 xs poss)) [
    | [] ↦ none
    | smallest ∷ others ↦ some (
        next_match (suc (ds.size smallest.diagonal))
          (record smallest { diagonal = ds.begin smallest.diagonal }) others (placeholders xs poss))
  ]

  -- `operator++` where the iterator has not ended.
  unfoldable pub advance : JoinIterator → JoinIterator
  unfolding next_match
  advance it = elim it.ops [
    | [] ↦ it
    | smallest ∷ others ↦
        next_match (suc (ds.size smallest.diagonal))
          (record smallest { diagonal = ds.increment smallest.diagonal }) others it.sub_operands
  ]

  -- What a loop over the join sees, round by round.
  unfoldable pub rounds : ℕ → JoinIterator → List (ℕ × List ds.Operand)
  unfolding advance
  rounds zero it = []
  rounds (suc fuel) it =
      let later = rounds fuel (advance it) in
      if it.ended then [] else (it.key_part, it.sub_operands) ∷ later
