-- ===== src/Context.antt =====
-- Reading: libs/hypertrie/src/dice/hypertrie/internal/raw/node_context/{RawHypertrieContext,
-- SliceResult}.hpp. `none` is the dereference of a null pointer. A read takes the trait, the hash
-- functions and the node storage as section parameters.
pub mod Rep
pub mod Get
pub mod Keys
pub mod RepLaws
pub mod Slice
pub mod SliceRek
pub mod Diagonal
use hypertrie.Common.{
  ℕ, zero, suc, ◌+◌, ◌-◌, List, [], ◌∷◌, Bool, true, false, Option, none, some, if◌then◌else◌, ◌==◌,
  ◌&&◌, get_or, length, list_eq, ◌>>=◌, map,
}
use hypertrie.Key.{RawKey, subkey}
use hypertrie.Key.Slice.{FixedValue, RawSliceKey, slice, subkey_i}
use hypertrie.Key.Merge.SubkeyI.{no_value}
use hypertrie.Trait.{Trait, SingleEntry, Hash, bool_valued_and_taggable}
use hypertrie.Identifier.{RawIdentifier, is_empty, is_sen, in_place, get_entry, encode_single_entry}
use hypertrie.Node.{
  FullNode, SingleEntryNode, entry_value, child, min_card_pos, min_fixed_keypart_i,
}
use hypertrie.Storage.{
  NodeStorage, NodePtr, NodeContainer, no_node, lookup, lookup_full, as_full, as_single,
}

pub record SliceResult : Type 0 where
  pub container : NodeContainer
  pub uses_provided_alloc : Bool
  pub managed : Bool

-- `SliceResult{}`
abbrev pub no_result : SliceResult
no_result = record { container = no_node; uses_provided_alloc = true; managed = true }

unfoldable pub make_with_provided_alloc : NodeContainer → SliceResult
make_with_provided_alloc c = record { container = c; uses_provided_alloc = true; managed = true }

unfoldable pub make_sen_with_stl_alloc : Bool → NodeContainer → SliceResult
make_sen_with_stl_alloc managed c = record {
  container = c;
  uses_provided_alloc = false;
  managed = managed;
}

-- A slice that fixes every key part is a value.
pub data SliceOutcome : Type 0 where
  result : SliceResult → SliceOutcome
  value : ℕ → SliceOutcome

module _ (t : Trait) (h : Hash) (s : NodeStorage) where
  -- `resolve` of a full node above depth 1, after the test that the container is not empty.
  unfoldable pub resolve : ℕ → FullNode → ℕ → ℕ → NodeContainer
  resolve depth n pos key_part =
      let id = child n pos key_part in
      if depth == 2 && bool_valued_and_taggable t
      then if is_sen t id
        then record { identifier = id; node_ptr = NodePtr.null }
        else record { identifier = id; node_ptr = lookup_full s 1 id }
      else if is_empty id
      then no_node
      else lookup t s (depth - 1) id

  -- `get(SENContainer, key)`
  unfoldable pub get_sen : ℕ → NodeContainer → RawKey → Option ℕ
  get_sen depth nodec key =
      let of_node = as_single nodec.node_ptr >>= λ n.
      some (if list_eq n.entry.key key then entry_value t n.entry else 0) in
      let inline = get_or (get_entry t h depth nodec.identifier).key 0 0 == get_or key 0 0 in
      if is_empty nodec.identifier
      then some 0
      else if in_place t depth
      then some (if inline then 1 else 0)
      else of_node

  -- `get(NodeContainer, key)`, with `get(FNContainer, key)` in place. There is no depth 0.
  unfoldable pub get : ℕ → NodeContainer → RawKey → Option ℕ
  get zero nodec key = none
  get (suc zero) nodec key =
      let leaf = as_full nodec.node_ptr >>= λ n. some (child n 0 (get_or key 0 0)) in
      if is_sen t nodec.identifier
      then get_sen 1 nodec key
      else if is_empty nodec.identifier
      then some 0
      else leaf
  get (suc (suc d)) nodec key =
      let inner = as_full nodec.node_ptr >>= λ n.
      let pos = min_card_pos n in
      get (suc d) (resolve (suc (suc d)) n pos (get_or key pos 0)) (subkey key pos) in
      if is_sen t nodec.identifier
      then get_sen (suc (suc d)) nodec key
      else if is_empty nodec.identifier
      then some 0
      else inner

  -- The entry left of a single entry by a slice: its own identifier and node.
  unfoldable pub sliced_entry : ℕ → RawKey → SingleEntry → SliceResult
  sliced_entry result_depth key entry =
      let entry' : SingleEntry = record { key = key; value = entry_value t entry } in
      let id = encode_single_entry t h result_depth entry' in
      if in_place t result_depth
      then make_with_provided_alloc (record { identifier = id; node_ptr = NodePtr.null })
      else make_sen_with_stl_alloc false (record {
        identifier = id;
        node_ptr = NodePtr.single (record { ref_count = 0; entry = entry' });
      })

  -- `slice(SENContainer, raw_slice_key)` where some key parts are fixed, and not all.
  unfoldable pub slice_sen : ℕ → NodeContainer → RawSliceKey → Option SliceResult
  unfolding sliced_entry
  slice_sen depth nodec raw_slice_key =
      let of_node = as_single nodec.node_ptr >>= λ n. some (elim (slice raw_slice_key n.entry.key) [
        | none ↦ no_result
        | some key ↦ sliced_entry (depth - length raw_slice_key) key n.entry
      ]) in
      if is_empty nodec.identifier then some no_result else of_node

  unfoldable pub slice_rek : ℕ → NodeContainer → RawSliceKey → Option SliceResult
  slice_rek zero nodec raw_slice_key = none
  slice_rek (suc d) nodec raw_slice_key =
      let inner = as_full nodec.node_ptr >>= λ n.
      let i = min_fixed_keypart_i n raw_slice_key in
      let fixed = get_or raw_slice_key i no_value in
      let next = resolve (suc d) n fixed.pos fixed.key_part in
      let deeper = slice_rek d next (subkey_i raw_slice_key i) in
      if is_empty next.identifier
      then some no_result
      else if length raw_slice_key == 1
      then some (make_with_provided_alloc next)
      else deeper in
      if is_sen t nodec.identifier then slice_sen (suc d) nodec raw_slice_key else inner

  -- `slice(NodeContainer, raw_slice_key)`
  unfoldable pub slice_node : ℕ → NodeContainer → RawSliceKey → Option SliceOutcome
  slice_node depth nodec raw_slice_key =
      let whole = get depth nodec (map (λ (f : FixedValue). f.key_part) raw_slice_key) in
      let some_fixed = slice_rek depth nodec raw_slice_key in
      if length raw_slice_key == 0
      then some (result (make_with_provided_alloc nodec))
      else if length raw_slice_key == depth
      then (whole >>= λ v. some (value v))
      else if is_empty nodec.identifier
      then some (result no_result)
      else (some_fixed >>= λ r. some (result r))
