-- ===== src/Update/Entries.antt =====
-- `apply_fn_entry_insertion` and `apply_fn_entry_erasure` (ApplyUpdate.hpp): the change of one full
-- node, with the requests that it makes of the children. Hash maps are run through in the order in
-- which their keys came in. `none` is a failed lookup that is followed.
use hypertrie.Common.{
  ℕ, zero, suc, ◌+◌, ◌-◌, ◌^◌, ◌%◌, List, [], ◌∷◌, Bool, true, false, not, ◌&&◌, Option, none, some,
  if◌then◌else◌, ◌==◌, length, get_or, ◌>>=◌, is_none,
}
use hypertrie.Common.Assoc.{Assoc, find, insert_or_assign, erase}
use hypertrie.Common.Int.{pos}
use hypertrie.Trait.{Trait, SingleEntry, Hash, bool_valued_and_taggable}
use hypertrie.Identifier.{RawIdentifier, is_empty, is_sen, encode_single_entry}
use hypertrie.Node.{FullNode, edges, set_edges, insert_value, erase_value}
use hypertrie.Storage.{NodeStorage}
use hypertrie.Update.{UpdateRequests, entry_subset_for_pos}
use hypertrie.Update.Requests.{apply_ref_count_delta, add_node, insert_into_node, remove_from_node}

pub data NodeOrigin : Type 0 where
  copied : NodeOrigin
  moved : NodeOrigin
  just_created : NodeOrigin

abbrev pub is_copied : NodeOrigin → Bool
is_copied NodeOrigin.copied = true
is_copied _ = false

abbrev pub is_moved : NodeOrigin → Bool
is_moved NodeOrigin.moved = true
is_moved _ = false

abbrev pub is_just_created : NodeOrigin → Bool
is_just_created NodeOrigin.just_created = true
is_just_created _ = false

-- The node and the requests of its children.
abbrev pub Changed : Type 0
Changed = FullNode × UpdateRequests

abbrev pub ChangedEdges : Type 0
ChangedEdges = Assoc ℕ × UpdateRequests

unfoldable pub insert_values : Trait → List SingleEntry → FullNode → FullNode
insert_values t [] n = n
insert_values t (e ∷ es) n = insert_values t es (insert_value t n (get_or e.key 0 0) e.value)

unfoldable pub erase_values : List SingleEntry → FullNode → FullNode
erase_values [] n = n
erase_values (e ∷ es) n = erase_values es (erase_value n (get_or e.key 0 0))

-- `depth` is above 1, and `s` the node storage.
module _ (t : Trait) (h : Hash) (s : NodeStorage) (depth : ℕ) where
  -- `ht_hsi_depth2`
  unfoldable pub has_in_place_children : Bool
  has_in_place_children = depth == 2 && bool_valued_and_taggable t

  -- The children that a copied node shares with its source.
  unfoldable pub keep_children :
      Assoc (List SingleEntry) → Assoc ℕ → UpdateRequests → UpdateRequests
  keep_children changes [] r = r
  keep_children changes ((key_part, id_child) ∷ m) r =
      let kept = apply_ref_count_delta t h (depth - 1) id_child (pos 1) r in
      keep_children changes m (
        if not (is_none (find key_part changes))
        then r
        else if has_in_place_children && is_sen t id_child
        then r
        else kept)

  unfoldable pub insert_child :
      NodeOrigin → ℕ → List SingleEntry → ChangedEdges → Option ChangedEdges
  insert_child node_origin key_part entries (m, r) =
      let exists = if is_just_created node_origin then none else find key_part m in
      let in_place_child : RawIdentifier = elim entries [
        | [] ↦ 0
        | e ∷ _ ↦ encode_single_entry t h (depth - 1) e
      ] in
      let added = add_node t h (depth - 1) entries (pos 1) r in
      elim exists [
        | some id_child ↦
            (insert_into_node t h (depth - 1) s id_child entries (is_moved node_origin) r
              >>= λ next. some (insert_or_assign key_part next.0 m, next.1))
        | none ↦
            if has_in_place_children && length entries == 1
            then some (insert_or_assign key_part in_place_child m, r)
            else some (insert_or_assign key_part added.0 m, added.1)
      ]

  unfoldable pub insert_children :
      NodeOrigin → Assoc (List SingleEntry) → ChangedEdges → Option ChangedEdges
  unfolding insert_child
  insert_children node_origin [] c = some c
  insert_children node_origin ((key_part, entries) ∷ changes) c =
      insert_child node_origin key_part entries c >>= λ c'. insert_children node_origin changes c'

  -- Positions from `key_pos` on, as many as the first argument says.
  unfoldable pub insert_positions : ℕ → ℕ → NodeOrigin → List SingleEntry → Changed → Option Changed
  unfolding insert_children keep_children
  insert_positions zero key_pos node_origin entries c = some c
  insert_positions (suc more) key_pos node_origin entries (n, r) =
      let changes = entry_subset_for_pos entries key_pos in
      let shared = keep_children changes (edges n key_pos) r in
      insert_children node_origin changes
        (edges n key_pos, if is_copied node_origin then shared else r)
      >>= λ next.
          insert_positions more (key_pos + 1) node_origin entries
            (set_edges n key_pos next.0, next.1)

  -- The edges of a copied node, without the children that the erasure empties.
  unfoldable pub erase_copied :
      Assoc (List SingleEntry) → Assoc ℕ → UpdateRequests → Option ChangedEdges
  erase_copied changes [] r = some ([], r)
  erase_copied changes ((key_part, child_id) ∷ m) r = elim (find key_part changes) [
    | none ↦
        (erase_copied changes m (apply_ref_count_delta t h (depth - 1) child_id (pos 1) r)
          >>= λ rest. some ((key_part, child_id) ∷ rest.0, rest.1))
    | some subset ↦
        (remove_from_node t h (depth - 1) s child_id subset false r >>= λ next.
        erase_copied changes m next.1 >>= λ rest.
        some (if is_empty next.0 then rest.0 else (key_part, next.0) ∷ rest.0, rest.1))
  ]

  unfoldable pub erase_moved : Assoc (List SingleEntry) → ChangedEdges → Option ChangedEdges
  erase_moved [] c = some c
  erase_moved ((key_part, subset) ∷ changes) (m, r) = find key_part m >>= λ child_id.
      remove_from_node t h (depth - 1) s child_id subset true r >>= λ next.
      erase_moved changes
        (if is_empty next.0 then erase key_part m else insert_or_assign key_part next.0 m, next.1)

  unfoldable pub erase_positions : ℕ → ℕ → NodeOrigin → List SingleEntry → Changed → Option Changed
  unfolding erase_copied erase_moved
  erase_positions zero key_pos node_origin entries c = some c
  erase_positions (suc more) key_pos node_origin entries (n, r) =
      let changes = entry_subset_for_pos entries key_pos in
      (if is_copied node_origin
        then erase_copied changes (edges n key_pos) r
        else erase_moved changes (edges n key_pos, r))
      >>= λ next.
          erase_positions more (key_pos + 1) node_origin entries
            (set_edges n key_pos next.0, next.1)

  -- Sizes are 64-bit words.
  unfoldable pub apply_fn_entry_insertion : NodeOrigin → List SingleEntry → Changed → Option Changed
  unfolding insert_positions insert_values
  apply_fn_entry_insertion node_origin entries (n, r) =
      let grown : FullNode = record n { stored_size = (n.stored_size + length entries) % 2 ^ 64 } in
      if depth == 1
      then some (insert_values t entries n, r)
      else insert_positions depth 0 node_origin entries (grown, r)

  unfoldable pub apply_fn_entry_erasure : NodeOrigin → List SingleEntry → Changed → Option Changed
  unfolding erase_positions erase_values
  apply_fn_entry_erasure node_origin entries (n, r) =
      let shrunk : FullNode = record n {
        stored_size = (n.stored_size + 2 ^ 64 - length entries) % 2 ^ 64;
      } in
      if depth == 1
      then some (erase_values entries n, r)
      else erase_positions depth 0 node_origin entries (shrunk, r)
