-- ===== src/Key/Slice.antt =====
-- `SliceKey` (libs/hypertrie/src/dice/hypertrie/Key.hpp) and `RawSliceKey`
-- (internal/raw/RawKey.hpp): the key parts that a slice fixes, with their positions.
use hypertrie.Common.{
  ℕ, suc, ◌+◌, ◌-◌, ◌%◌, List, [], ◌∷◌, Option, none, some, ◌==◌, if◌then◌else◌, length, ◌>>=◌,
}
use hypertrie.Key.{RawKey}

abbrev pub SliceKey : Type 0
SliceKey = List (Option ℕ)

-- The items that are `std::nullopt`.
unfoldable pub count_free : SliceKey → ℕ
count_free [] = 0
count_free (none ∷ items) = suc (count_free items)
count_free (some _ ∷ items) = count_free items

unfoldable pub get_fixed_depth : SliceKey → ℕ
unfolding count_free
get_fixed_depth slice_key = length slice_key - count_free slice_key

pub record FixedValue : Type 0 where
  pub pos : ℕ
  pub key_part : ℕ

-- `fixed_depth` is the list's length.
abbrev pub RawSliceKey : Type 0
RawSliceKey = List FixedValue

-- The constructor's loop; `++key_pos` wraps at the width of `pos_type`.
unfoldable pub fixed_from : ℕ → SliceKey → RawSliceKey
fixed_from key_pos [] = []
fixed_from key_pos (none ∷ items) = fixed_from ((key_pos + 1) % 256) items
fixed_from key_pos (some part ∷ items) =
    record { pos = key_pos; key_part = part } ∷ fixed_from ((key_pos + 1) % 256) items

unfoldable pub of_slice_key : SliceKey → RawSliceKey
unfolding fixed_from
of_slice_key slice_key = fixed_from 0 slice_key

-- The loop of `RawSliceKey::slice`: the first argument is `fixed_values` from `ith_fixed` on.
unfoldable pub slice_from : RawSliceKey → ℕ → RawKey → Option RawKey
slice_from fixed key_pos [] = some []
slice_from [] key_pos (x ∷ xs) = slice_from [] (key_pos + 1) xs >>= λ r. some (x ∷ r)
slice_from (f ∷ fs) key_pos (x ∷ xs) =
    let matched = slice_from fs (key_pos + 1) xs in
    let copied = slice_from (f ∷ fs) (key_pos + 1) xs >>= λ r. some (x ∷ r) in
    if f.pos == key_pos then (if f.key_part == x then matched else none) else copied

unfoldable pub slice : RawSliceKey → RawKey → Option RawKey
unfolding slice_from
slice [] raw_key = some raw_key
slice (f ∷ fs) raw_key = slice_from (f ∷ fs) 0 raw_key

-- `pos_type(pos - offset)` of an 8-bit `pos_type`.
abbrev pub shift_pos : ℕ → ℕ → ℕ
shift_pos pos offset = (pos + 256 - offset) % 256

-- The loop of `RawSliceKey::subkey_i` from index `i`.
unfoldable pub subkey_i_from : ℕ → ℕ → ℕ → RawSliceKey → RawSliceKey
subkey_i_from i offset remove_ith [] = []
subkey_i_from i offset remove_ith (f ∷ fs) =
    let removed = subkey_i_from (i + 1) 1 remove_ith fs in
    let kept = subkey_i_from (i + 1) offset remove_ith fs in
    if i == remove_ith then removed else record f { pos = shift_pos f.pos offset } ∷ kept

unfoldable pub subkey_i : RawSliceKey → ℕ → RawSliceKey
unfolding subkey_i_from
subkey_i raw_slice_key remove_ith = subkey_i_from 0 0 remove_ith raw_slice_key
