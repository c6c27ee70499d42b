-- ===== src/Update/Set.antt =====
-- The operations of `RawHypertrieContext` (libs/hypertrie/src/dice/hypertrie/internal/raw/
-- node_context/RawHypertrieContext.hpp) that count, resize or write: the node that a pointer points
-- to is the one stored under the container's identifier.
pub mod Empty
use hypertrie.Common.{
  ℕ, zero, suc, ◌+◌, ◌-◌, ◌%◌, ◌^◌, List, [], ◌∷◌, Bool, true, false, ◌&&◌, Option, none, some,
  if◌then◌else◌, ◌==◌, ltb, ◌>>=◌,
}
use hypertrie.Common.Assoc.{find, insert_or_assign}
use hypertrie.Common.Int.{negsuc}
use hypertrie.Key.{RawKey}
use hypertrie.Trait.{Trait, SingleEntry, Hash}
use hypertrie.Identifier.{is_empty, is_sen, in_place}
use hypertrie.Node.{FullNode, SingleEntryNode, size}
use hypertrie.Storage.{NodeStorage, NodeContainer, as_full}
use hypertrie.Context.{get}
use hypertrie.Update.{no_requests}
use hypertrie.Update.Requests.{apply_ref_count_delta}
use hypertrie.Update.Apply.{
  with_full_nodes, with_single_entry_nodes, consume_and_execute, insert_entries_into_node,
  erase_entries_from_node,
}

module _ (t : Trait) (h : Hash) (depth : ℕ) where
  -- The stored node's count becomes `change` of what it was.
  unfoldable pub recount : (ℕ → ℕ) → NodeContainer → NodeStorage → Option NodeStorage
  unfolding with_full_nodes with_single_entry_nodes
  recount change nodec s =
      let id = nodec.identifier in
      let fns = s.full_nodes depth in
      let sens = s.single_entry_nodes depth in
      if is_sen t id
      then (find id sens >>= λ n. some (
          with_single_entry_nodes depth
            (insert_or_assign id (record n { ref_count = change n.ref_count }) sens) s))
      else (find id fns >>= λ n. some (
          with_full_nodes depth
            (insert_or_assign id (record n { ref_count = change n.ref_count }) fns) s))

  unfoldable pub inc_ref_count : NodeContainer → NodeStorage → Option NodeStorage
  unfolding recount
  inc_ref_count nodec s = recount (λ ref_count. (ref_count + 1) % 2 ^ 64) nodec s

  unfoldable pub ref_count_of : NodeContainer → NodeStorage → Option ℕ
  ref_count_of nodec s =
      if is_sen t nodec.identifier
      then (find nodec.identifier (s.single_entry_nodes depth) >>= λ n. some n.ref_count)
      else (find nodec.identifier (s.full_nodes depth) >>= λ n. some n.ref_count)

  unfoldable pub decr_ref_count : NodeContainer → NodeStorage → Option NodeStorage
  unfolding recount ref_count_of
  decr_ref_count nodec s = ref_count_of nodec s >>= λ ref_count.
      if ltb 1 ref_count
      then recount (λ c. c - 1) nodec s
      else consume_and_execute t h depth s
          (apply_ref_count_delta t h depth nodec.identifier (negsuc 0) no_requests)

  unfoldable pub size_of : NodeContainer → Option ℕ
  size_of nodec =
      if is_sen t nodec.identifier
      then some (if is_empty nodec.identifier then 0 else 1)
      else if is_empty nodec.identifier
      then some 0
      else (as_full nodec.node_ptr >>= λ n. some (size depth n))

  -- A Boolean-valued entry has the value `true` whatever it is made with.
  unfoldable pub entry_of : RawKey → ℕ → SingleEntry
  entry_of key value = record { key = key; value = if t.is_bool_valued then 1 else value }

  -- `set` returns the previous value, and leaves the storage and the container.
  abbrev pub Written : Type 0
  Written = ℕ × (NodeStorage × NodeContainer)

  -- What `set` does after it has read the old value.
  unfoldable pub write : RawKey → ℕ → ℕ → NodeStorage × NodeContainer → Option Written
  unfolding entry_of
  write key value old_value (s, nodec) =
      let removed = erase_entries_from_node t h depth s nodec (entry_of key 1 ∷ []) >>= λ after.
      some (old_value, after) in
      let inserted =
        insert_entries_into_node t h depth s nodec (entry_of key value ∷ []) >>= λ after.
        some (old_value, after) in
      if value == old_value
      then some (value, (s, nodec))
      else if value == 0
      then if t.is_bool_valued then removed else some (old_value, (s, nodec))
      else if old_value == 0
      then inserted
      else some (old_value, (s, nodec))

  unfoldable pub set_value : RawKey → ℕ → NodeStorage × NodeContainer → Option Written
  unfolding write entry_of
  set_value key value (s, nodec) =
      let prepared =
        if in_place t depth && is_empty nodec.identifier
        then insert_entries_into_node t h depth s nodec (entry_of key value ∷ [])
        else some (s, nodec) in
      prepared >>= λ st. get t h st.0 depth st.1 key >>= λ old_value. write key value old_value st
