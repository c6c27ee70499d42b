-- ===== src/Tests/Keys.antt =====
-- Keys and slice keys at concrete inputs.
use hypertrie.Common.{contains, ◌≡◌, ◌↔◌, refl, arith, [], ◌∷◌, some, none}
use hypertrie.Key.{subkey}
use hypertrie.Key.Slice.{RawSliceKey, slice, of_slice_key, subkey_i}
use hypertrie.Bits.{test_bit, set_bit}
use hypertrie.Key.Diagonal.{RawKeyPositions, of_positions, count_positions, is_set, diagonal_key}
use hypertrie.Key.Diagonal.{sub_raw_key_positions}
use hypertrie.Key.Diagonal.Sub.{before_removal, sub_raw_key_positions-is_set}
use hypertrie.Key.Diagonal.Slice.{fixed_of, diagonal_key-slice}
use hypertrie.Key.Diagonal.Positions.{of_positions-contains}
use hypertrie.Key.Merge.{merge, insert_at}
use hypertrie.Key.Merge.Subkey.{insert_at-subkey}
use hypertrie.Key.Merge.Slice.{slice-merge_iff}
use hypertrie.Key.Merge.SubkeyI.{merge-subkey_i}

abbrev first_and_third : RawSliceKey
first_and_third = record { pos = 0; key_part = 4 } ∷ record { pos = 2; key_part = 6 } ∷ []

from_items : of_slice_key (some 4 ∷ none ∷ some 6 ∷ []) ≡ first_and_third
unfolding of_slice_key
from_items = refl

slice-merge_iff_example :
    (slice first_and_third (4 ∷ 5 ∷ 6 ∷ []) ≡ some (5 ∷ []))
    ↔ (merge first_and_third (5 ∷ []) ≡ 4 ∷ 5 ∷ 6 ∷ [])
slice-merge_iff_example =
    slice-merge_iff first_and_third (4 ∷ 5 ∷ 6 ∷ []) (5 ∷ [])
      (omega arith, omega arith, (omega arith, omega arith, tt)) refl

merge-subkey_i_example :
    merge first_and_third (5 ∷ []) ≡ insert_at 0 4 (merge (subkey_i first_and_third 0) (5 ∷ []))
merge-subkey_i_example =
    merge-subkey_i 0 3 first_and_third (5 ∷ [])
      (omega arith, omega arith, (omega arith, omega arith, tt)) (omega arith) (omega arith)
      (omega arith)

insert_at-subkey_example : insert_at 1 5 (subkey (4 ∷ 5 ∷ 6 ∷ []) 1) ≡ 4 ∷ 5 ∷ 6 ∷ []
insert_at-subkey_example = insert_at-subkey 1 0 (4 ∷ 5 ∷ 6 ∷ []) (omega arith)

abbrev diagonal_positions : RawKeyPositions
diagonal_positions = of_positions 3 (0 ∷ 2 ∷ [])

diagonal_key-slice_example :
    diagonal_key 2 diagonal_positions (4 ∷ 5 ∷ 4 ∷ []) 4
    ≡ slice (fixed_of diagonal_positions 4 3) (4 ∷ 5 ∷ 4 ∷ [])
unfolding of_positions count_positions is_set test_bit set_bit
diagonal_key-slice_example = diagonal_key-slice diagonal_positions 2 4 (4 ∷ 5 ∷ 4 ∷ []) refl

of_positions-contains_example : is_set (of_positions 3 (0 ∷ 2 ∷ [])) 2 ≡ contains (0 ∷ 2 ∷ []) 2
of_positions-contains_example =
    of_positions-contains 3 2 (0 ∷ 2 ∷ []) (omega arith) (omega arith, (omega arith, tt))

sub_raw_key_positions-is_set_example :
    is_set (sub_raw_key_positions 3 diagonal_positions 0) 1
    ≡ is_set diagonal_positions (before_removal 0 1)
sub_raw_key_positions-is_set_example =
    sub_raw_key_positions-is_set diagonal_positions 3 0 1 (omega arith) (omega arith)
