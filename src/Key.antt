-- ===== src/Key.antt =====
-- Keys: libs/hypertrie/src/dice/hypertrie/Key.hpp and internal/raw/RawKey.hpp. A `RawKey` is the
-- list of its key parts, and its template argument `depth` is the list's length.
pub mod Slice
pub mod Merge
pub mod Diagonal
use hypertrie.Common.{ℕ, ◌+◌, List, [], ◌∷◌, ◌==◌, if◌then◌else◌}

abbrev pub RawKey : Type 0
RawKey = List ℕ

-- The loop of `RawKey::subkey` from index `i`; `j` is the length of what is written so far.
unfoldable pub subkey_from : ℕ → ℕ → RawKey → RawKey
subkey_from i remove_pos [] = []
subkey_from i remove_pos (x ∷ xs) =
    let rest = subkey_from (i + 1) remove_pos xs in if i == remove_pos then rest else x ∷ rest

unfoldable pub subkey : RawKey → ℕ → RawKey
unfolding subkey_from
subkey key remove_pos = subkey_from 0 remove_pos key
