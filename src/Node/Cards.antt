-- ===== src/Node/Cards.antt =====
-- The positions that the reads choose.
use hypertrie.Common.{
  ℕ, ◌+◌, ◌≡◌, ◌<◌, ◌≤◌, arith, List, [], ◌∷◌, if◌then◌else◌, ltb, length, Bool-cases, inl, inr,
  ◌==◌, ◌&&◌,
}
use hypertrie.Common.Assoc.{Assoc}
use hypertrie.Key.Slice.{RawSliceKey}
use hypertrie.Node.{
  FullNode, min_card_from, min_card_pos, min_fixed_from, min_fixed_keypart_i, max_size,
}

min_card_from-lt :
    (pos min_pos min_card : ℕ) (ms : List (Assoc ℕ)) (depth : ℕ)
    → pos + length ms ≡ depth
    → depth ≤ 256
    → min_pos < depth
    → min_card_from pos min_pos min_card ms < depth
unfolding min_card_from
min_card_from-lt pos min_pos min_card [] depth e b h = h
min_card_from-lt pos min_pos min_card (m ∷ ms) depth e b h =
    min_card_from-lt (pos + 1) _ _ ms depth (omega arith) b (ground arith)

-- For a full node with between 1 and 256 maps of edges, `min_card_pos` is a position of the node
-- although the source keeps it in 8 bits.
pub min_card_pos-lt :
    (n : FullNode) (depth : ℕ)
    → length n.edge_maps ≡ depth
    → depth ≤ 256
    → 0 < depth
    → min_card_pos n < depth
unfolding min_card_pos
min_card_pos-lt n depth e b h = min_card_from-lt 0 0 max_size n.edge_maps depth (omega arith) b h

min_fixed_from-lt :
    (pos i min_i min_card : ℕ) (fs : RawSliceKey) (ms : List (Assoc ℕ)) (fixed : ℕ)
    → i + length fs ≡ fixed
    → min_i < fixed
    → min_fixed_from pos i min_i min_card fs ms < fixed
unfolding min_fixed_from
min_fixed_from-lt pos i min_i min_card fs [] fixed e h = h
min_fixed_from-lt pos i min_i min_card [] (m ∷ ms) fixed e h = h
min_fixed_from-lt pos i min_i min_card (f ∷ fs) (m ∷ ms) fixed e h =
    let less = (pos == f.pos) && ltb (length m) min_card in
    let min_i' = if less then i else min_i in
    let min_card' = if less then length m else min_card in
    let bound : min_i' < fixed = ground arith in
    elim (Bool-cases (pos == f.pos)) [
      | inl here ↦ rw here (
          rw here at
            (min_fixed_from-lt (pos + 1) (i + 1) min_i' min_card' fs ms fixed (omega arith) bound))
      | inr there ↦
          rw there
            (rw there at (min_fixed_from-lt (pos + 1) i min_i' min_card' (f ∷ fs) ms fixed e bound))
    ]

-- `min_fixed_keypart_i` of a slice key that fixes something is an index of the slice key, for any
-- full node.
pub min_fixed_keypart_i-lt :
    (n : FullNode) (fs : RawSliceKey) → 0 < length fs → min_fixed_keypart_i n fs < length fs
unfolding min_fixed_keypart_i
min_fixed_keypart_i-lt n fs h =
    min_fixed_from-lt 0 0 0 max_size fs n.edge_maps (length fs) (omega arith) h
