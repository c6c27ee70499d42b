-- ===== src/Key/Diagonal.antt =====
-- `RawKeyPositions` (libs/hypertrie/src/dice/hypertrie/internal/raw/RawDiagonalPositions.hpp): the
-- set of the positions of a diagonal, a bit for each position, packed into bytes.
pub mod Slice
pub mod Positions
pub mod Sub
use hypertrie.Common.{
  ℕ, zero, suc, ◌+◌, ◌-◌, ◌/◌, ◌%◌, List, [], ◌∷◌, Bool, Option, none, some, if◌then◌else◌, ◌==◌,
  length, get_or, set, replicate, ◌>>=◌,
}
use hypertrie.Key.{RawKey}
use hypertrie.Bits.{test_bit, set_bit}

abbrev pub RawKeyPositions : Type 0
RawKeyPositions = List ℕ

abbrev pub no_positions : ℕ → RawKeyPositions
no_positions depth = replicate (if depth == 0 then 0 else depth / 8 + 1) 0

unfoldable pub set_true : ℕ → RawKeyPositions → RawKeyPositions
set_true pos bytes = set bytes (pos / 8) (set_bit (pos % 8) (get_or bytes (pos / 8) 0))

unfoldable pub set_all : List ℕ → RawKeyPositions → RawKeyPositions
unfolding set_true
set_all [] bytes = bytes
set_all (pos ∷ positions) bytes = set_all positions (set_true pos bytes)

unfoldable pub of_positions : ℕ → List ℕ → RawKeyPositions
unfolding set_all
of_positions depth positions = set_all positions (no_positions depth)

-- `operator[]`
unfoldable pub is_set : RawKeyPositions → ℕ → Bool
is_set bytes pos = test_bit (pos % 8) (get_or bytes (pos / 8) 0)

-- The loops take the number of positions that are left and the position. `first_pos` of no
-- position is out of reach in the source; here it is the depth.
unfoldable pub first_from : RawKeyPositions → ℕ → ℕ → ℕ
first_from bytes zero pos = pos
first_from bytes (suc left) pos =
    let next = first_from bytes left (pos + 1) in if is_set bytes pos then pos else next

unfoldable pub first_pos : ℕ → RawKeyPositions → ℕ
unfolding first_from
first_pos depth bytes = first_from bytes depth 0

unfoldable pub sub_from : RawKeyPositions → ℕ → ℕ → ℕ → ℕ → RawKeyPositions → RawKeyPositions
unfolding set_true
sub_from bytes remove_pos zero pos offset sub_poss = sub_poss
sub_from bytes remove_pos (suc left) pos offset sub_poss =
    sub_from bytes remove_pos left (pos + 1) (if pos == remove_pos then 1 else offset) (
      if pos == remove_pos
      then sub_poss
      else if is_set bytes pos
      then set_true (pos - offset) sub_poss
      else sub_poss)

unfoldable pub sub_raw_key_positions : ℕ → RawKeyPositions → ℕ → RawKeyPositions
unfolding sub_from
sub_raw_key_positions depth bytes remove_pos =
    sub_from bytes remove_pos depth 0 0 (no_positions (depth - 1))

unfoldable pub count_from : RawKeyPositions → ℕ → ℕ → ℕ
count_from bytes zero pos = 0
count_from bytes (suc left) pos =
    (if is_set bytes pos then 1 else 0) + count_from bytes left (pos + 1)

unfoldable pub count_positions : ℕ → RawKeyPositions → ℕ
unfolding count_from
count_positions depth bytes = count_from bytes depth 0

-- The loop of `slice` from position `pos` on.
unfoldable pub diagonal_from : RawKeyPositions → ℕ → ℕ → RawKey → Option RawKey
diagonal_from bytes fixed_key_part pos [] = some []
diagonal_from bytes fixed_key_part pos (x ∷ xs) =
    let rest = diagonal_from bytes fixed_key_part (pos + 1) xs in
    if is_set bytes pos
    then (if x == fixed_key_part then rest else none)
    else (rest >>= λ r. some (x ∷ r))

unfoldable pub diagonal_key : ℕ → RawKeyPositions → RawKey → ℕ → Option RawKey
unfolding diagonal_from
diagonal_key fixed_depth bytes raw_key fixed_key_part =
    if fixed_depth == 0 then some raw_key else diagonal_from bytes fixed_key_part 0 raw_key
