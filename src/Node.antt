-- ===== src/Node.antt =====
-- Nodes: libs/hypertrie/src/dice/hypertrie/internal/raw/node/{ReferenceCounted, SingleEntryNode,
-- FullNode, WithEdges}.hpp. The edges of a full node are a map for each key position, from key
-- parts to child identifiers; at depth 1 there is one map, from key parts to values.
pub mod Cards
use hypertrie.Common.{
  ℕ, zero, suc, ◌+◌, ◌-◌, ◌*◌, ◌%◌, ◌^◌, ◌≡◌, List, [], ◌∷◌, Bool, true, false, Option, none, some,
  if◌then◌else◌, ◌==◌, ltb, get_or, length, map, set, ◌&&◌,
}
use hypertrie.Common.Assoc.{Assoc, find, insert_or_assign, erase}
use hypertrie.Key.{RawKey}
use hypertrie.Key.Slice.{RawSliceKey}
use hypertrie.Trait.{Trait, SingleEntry}

pub record SingleEntryNode : Type 0 where
  pub ref_count : ℕ
  pub entry : SingleEntry

-- `value()` of an entry: always `true` where values are Boolean.
unfoldable pub entry_value : Trait → SingleEntry → ℕ
entry_value t e = if t.is_bool_valued then 1 else e.value

pub record FullNode : Type 0 where
  pub ref_count : ℕ
  pub stored_size : ℕ
  pub edge_maps : List (Assoc ℕ)

-- `edges(pos)`, whose argument is asserted to be below the depth.
unfoldable pub edges : FullNode → ℕ → Assoc ℕ
edges n pos = get_or n.edge_maps pos []

unfoldable pub set_edges : FullNode → ℕ → Assoc ℕ → FullNode
set_edges n pos m = record n { edge_maps = set n.edge_maps pos m }

-- `size()`: counted by the edges at depth 1, stored elsewhere.
unfoldable pub size : ℕ → FullNode → ℕ
unfolding edges
size depth n = if depth == 1 then length (edges n 0) else n.stored_size

-- The child at a position and a key part; `ChildType{}` where there is none.
unfoldable pub child : FullNode → ℕ → ℕ → ℕ
unfolding edges
child n pos key_part = elim (find key_part (edges n pos)) [ none ↦ 0 | some c ↦ c ]

-- `insert_or_assign` and `erase` of a full node of depth 1.
unfoldable pub insert_value : Trait → FullNode → ℕ → ℕ → FullNode
unfolding edges set_edges
insert_value t n key_part value =
    set_edges n 0 (insert_or_assign key_part (if t.is_bool_valued then 1 else value) (edges n 0))

unfoldable pub erase_value : FullNode → ℕ → FullNode
unfolding edges set_edges
erase_value n key_part = set_edges n 0 (erase key_part (edges n 0))

-- `std::numeric_limits<size_t>::max()`
abbrev pub max_size : ℕ
max_size = 2 ^ 64 - 1

-- The loop of `min_card_pos()`, over the maps from position `pos` on; `min_pos` has 8 bits.
unfoldable pub min_card_from : ℕ → ℕ → ℕ → List (Assoc ℕ) → ℕ
min_card_from pos min_pos min_card [] = min_pos
min_card_from pos min_pos min_card (m ∷ ms) =
    min_card_from (pos + 1) (if ltb (length m) min_card then pos % 256 else min_pos)
      (if ltb (length m) min_card then length m else min_card) ms

unfoldable pub min_card_pos : FullNode → ℕ
unfolding min_card_from
min_card_pos n = min_card_from 0 0 max_size n.edge_maps

-- The loop of `min_fixed_keypart_i`: the maps from position `pos` on, the fixed values from index
-- `i` on, and the least cardinality with its index.
unfoldable pub min_fixed_from : ℕ → ℕ → ℕ → ℕ → RawSliceKey → List (Assoc ℕ) → ℕ
min_fixed_from pos i min_i min_card raw_slice_key [] = min_i
min_fixed_from pos i min_i min_card [] (m ∷ ms) = min_i
min_fixed_from pos i min_i min_card (f ∷ fs) (m ∷ ms) =
    let here = pos == f.pos in
    let less = here && ltb (length m) min_card in
    let min_i' = if less then i else min_i in
    let min_card' = if less then length m else min_card in
    let next = min_fixed_from (pos + 1) (i + 1) min_i' min_card' fs ms in
    let same = min_fixed_from (pos + 1) i min_i' min_card' (f ∷ fs) ms in
    if here then next else same

unfoldable pub min_fixed_keypart_i : FullNode → RawSliceKey → ℕ
unfolding min_fixed_from
min_fixed_keypart_i n raw_slice_key = min_fixed_from 0 0 0 max_size raw_slice_key n.edge_maps

-- `getCards()`
unfoldable pub get_cards : FullNode → List ℕ
get_cards n = map length n.edge_maps
