-- ===== src/Context/Diagonal.antt =====
-- `diagonal_slice` (libs/hypertrie/src/dice/hypertrie/internal/raw/node_context/
-- RawHypertrieContext.hpp): the slice that fixes several positions to one key part. Where the
-- source gets a cache for the resulting single entry node, `has_cache` is true.
use hypertrie.Common.{
  ℕ, zero, suc, ◌+◌, ◌-◌, ◌%◌, List, [], ◌∷◌, Bool, true, Option, none, some, if◌then◌else◌, ◌==◌,
  ltb, length, replicate, ◌&&◌, ◌>>=◌,
}
use hypertrie.Common.Assoc.{Assoc}
use hypertrie.Key.{RawKey}
use hypertrie.Key.Diagonal.{RawKeyPositions, is_set, sub_raw_key_positions, diagonal_key}
use hypertrie.Trait.{Trait, SingleEntry, Hash}
use hypertrie.Identifier.{is_empty, is_sen, in_place, encode_single_entry}
use hypertrie.Node.{FullNode, entry_value, max_size}
use hypertrie.Storage.{NodeStorage, NodePtr, NodeContainer, as_full, as_single}
use hypertrie.Context.{
  SliceResult, no_result, make_with_provided_alloc, make_sen_with_stl_alloc, SliceOutcome, result,
  value, resolve, get,
}

-- The loop of `min_card_pos(positions_mask)` (internal/raw/node/WithEdges.hpp).
unfoldable pub masked_min_card_from : RawKeyPositions → ℕ → ℕ → ℕ → List (Assoc ℕ) → ℕ
masked_min_card_from positions_mask pos min_pos min_card [] = min_pos
masked_min_card_from positions_mask pos min_pos min_card (m ∷ ms) =
    let less = is_set positions_mask pos && ltb (length m) min_card in
    masked_min_card_from positions_mask (pos + 1) (if less then pos else min_pos)
      (if less then length m else min_card) ms

unfoldable pub masked_min_card_pos : FullNode → RawKeyPositions → ℕ
unfolding masked_min_card_from
masked_min_card_pos n positions_mask = masked_min_card_from positions_mask 0 0 max_size n.edge_maps

module _ (t : Trait) (h : Hash) (s : NodeStorage) (has_cache : Bool) where
  -- The entry that is left of a single entry node.
  unfoldable pub diagonal_entry : ℕ → RawKey → SingleEntry → SliceResult
  diagonal_entry result_depth key entry =
      let entry' : SingleEntry = record { key = key; value = entry_value t entry } in
      let id = encode_single_entry t h result_depth entry' in
      let node_ptr =
        if in_place t result_depth
        then NodePtr.null
        else NodePtr.single (record { ref_count = 0; entry = entry' }) in
      make_sen_with_stl_alloc (if in_place t result_depth then true else has_cache)
        (record { identifier = id; node_ptr = node_ptr })

  -- `fixed_depth` is the template argument `fixed_keyparts`.
  unfoldable pub diagonal_slice_rek :
      ℕ → ℕ → NodeContainer → RawKeyPositions → ℕ → Option SliceResult
  unfolding diagonal_entry masked_min_card_pos
  diagonal_slice_rek zero fixed_depth nodec diagonal_positions fixed_key_part = none
  diagonal_slice_rek (suc d) fixed_depth nodec diagonal_positions fixed_key_part =
      let of_node = as_single nodec.node_ptr >>= λ n.
      some (elim (diagonal_key fixed_depth diagonal_positions n.entry.key fixed_key_part) [
        | none ↦ no_result
        | some key ↦ diagonal_entry (suc d - fixed_depth) key n.entry
      ]) in
      let inner = as_full nodec.node_ptr >>= λ n.
      let pos = masked_min_card_pos n diagonal_positions in
      let child = resolve t h s (suc d) n (pos % 256) fixed_key_part in
      let deeper =
        diagonal_slice_rek d (fixed_depth - 1) child
          (sub_raw_key_positions (suc d) diagonal_positions pos) fixed_key_part in
      if is_empty child.identifier
      then some no_result
      else if fixed_depth == 1
      then some (make_with_provided_alloc child)
      else deeper in
      if is_sen t nodec.identifier then of_node else inner

  unfoldable pub diagonal_slice : ℕ → ℕ → NodeContainer → RawKeyPositions → ℕ → Option SliceOutcome
  unfolding diagonal_slice_rek
  diagonal_slice depth fixed_depth nodec diagonal_positions fixed_key_part =
      let whole = get t h s depth nodec (replicate depth fixed_key_part) in
      let some_fixed =
        diagonal_slice_rek depth fixed_depth nodec diagonal_positions fixed_key_part in
      if fixed_depth == 0
      then some (result (make_with_provided_alloc nodec))
      else if fixed_depth == depth
      then (whole >>= λ v. some (value v))
      else if is_empty nodec.identifier
      then some (result no_result)
      else (some_fixed >>= λ r. some (result r))
