-- ===== src/Update/Requests/Remaining.antt =====
-- `retrieve_remaining_single_entry_impl` (UpdateRequests.hpp): the entry that is left in a full
-- node when all others are erased.
use hypertrie.Common.{
  ℕ, zero, suc, ◌+◌, List, [], ◌∷◌, Option, none, some, if◌then◌else◌, ◌==◌, ◌&&◌, ltb, get_or,
  contains, ◌>>=◌, map,
}
use hypertrie.Common.Assoc.{Assoc, find}
use hypertrie.Trait.{Trait, SingleEntry, Hash, bool_valued_and_taggable}
use hypertrie.Identifier.{is_sen, get_entry}
use hypertrie.Key.Merge.{insert_at}
use hypertrie.Node.{FullNode, edges, get_cards}
use hypertrie.Storage.{NodeStorage}
use hypertrie.Update.{entry_subset_for_pos}

-- `std::distance(begin, max_element(...))`: the first index of the greatest item. The first
-- argument is the index of the first item of the list.
unfoldable pub max_from : ℕ → ℕ → ℕ → List ℕ → ℕ
max_from i max_i greatest [] = max_i
max_from i max_i greatest (c ∷ cards) =
    let better = max_from (i + 1) i c cards in
    let same = max_from (i + 1) max_i greatest cards in if ltb greatest c then better else same

unfoldable pub max_card_pos : List ℕ → ℕ
unfolding max_from
max_card_pos [] = 0
max_card_pos (c ∷ cards) = max_from 1 0 c cards

-- The loop at depth 1: the first edge whose key part is not removed.
unfoldable pub remaining_value : Trait → List ℕ → Assoc ℕ → Option SingleEntry
remaining_value t removed_parts [] = none
remaining_value t removed_parts ((key_part, value) ∷ m) =
    let rest = remaining_value t removed_parts m in
    if contains removed_parts key_part
    then rest
    else some (record { key = key_part ∷ []; value = if t.is_bool_valued then 1 else value })

unfoldable pub combine_res : ℕ → ℕ → SingleEntry → SingleEntry
combine_res key_part key_pos sub_res = record sub_res {
  key = insert_at key_pos key_part sub_res.key;
}

module _ (t : Trait) (h : Hash) (s : NodeStorage) where
  -- The loop at greater depths over the edges of position `key_pos`. `retrieve` is the recursive
  -- call on the children, whose depth is `child_depth`.
  unfoldable pub remaining_child :
      (FullNode → List SingleEntry → Option (Option SingleEntry))
      → ℕ
      → ℕ
      → Assoc (List SingleEntry)
      → Assoc ℕ
      → Option (Option SingleEntry)
  remaining_child retrieve child_depth key_pos removed_parts [] = some none
  remaining_child retrieve child_depth key_pos removed_parts ((key_part, child_id) ∷ m) =
      let rest = remaining_child retrieve child_depth key_pos removed_parts m in
      let untouched : Option SingleEntry =
        if child_depth == 1 && bool_valued_and_taggable t
        then some (get_entry t h child_depth child_id)
        else (find child_id (s.single_entry_nodes child_depth) >>= λ n. some n.entry) in
      let deeper : List SingleEntry → Option (Option SingleEntry) =
        λ next_entries. find child_id (s.full_nodes child_depth) >>= λ n. retrieve n next_entries in
      elim (find key_part removed_parts) [
        | none ↦ (untouched >>= λ e. some (some (combine_res key_part key_pos e)))
        | some next_entries ↦
            if is_sen t child_id
            then rest
            else (deeper next_entries >>= λ sub_entry. elim sub_entry [
              | none ↦ rest
              | some e ↦ some (some (combine_res key_part key_pos e))
            ])
      ]

  unfoldable pub retrieve_remaining_single_entry :
      ℕ → FullNode → List SingleEntry → Option (Option SingleEntry)
  unfolding remaining_child max_card_pos
  retrieve_remaining_single_entry zero fn entries = none
  retrieve_remaining_single_entry (suc zero) fn entries =
      some (remaining_value t (map (λ (e : SingleEntry). get_or e.key 0 0) entries) (edges fn 0))
  retrieve_remaining_single_entry (suc (suc d)) fn entries =
      let key_pos = max_card_pos (get_cards fn) in
      remaining_child (retrieve_remaining_single_entry (suc d)) (suc d) key_pos
        (entry_subset_for_pos entries key_pos) (edges fn key_pos)
