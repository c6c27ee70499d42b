-- ===== src/Hypertrie.antt =====
-- `const_Hypertrie` and `Hypertrie` (libs/hypertrie/src/dice/hypertrie/Hypertrie.hpp): the operations
-- of the public type on the node that it holds. The context is the node storage `s`; a hypertrie of
-- one entry can be without one, and then owns its node.
use hypertrie.Common.{
  Bool, List, Option, [], false, if◌then◌else◌, length, map, none, not, replicate, some, true, ℕ,
  ◌&&◌, ◌-◌, ◌==◌, ◌>>=◌, ◌||◌, ◌∷◌,
}
use hypertrie.Context.{SliceOutcome, SliceResult, get, get_sen, slice_node, slice_sen}
use hypertrie.Identifier.{encode_single_entry, in_place, is_empty, is_sen}
use hypertrie.Key.{RawKey}
use hypertrie.Key.Slice.{SliceKey, get_fixed_depth, of_slice_key}
use hypertrie.Node.{edges, size}
use hypertrie.Storage.{NodeContainer, NodePtr, NodeStorage, as_full, no_node}
use hypertrie.Trait.{Hash, Trait}
use hypertrie.Update.Set.{decr_ref_count, inc_ref_count, set_value}
pub mod Fill
pub mod Contents
pub mod Results
pub mod Slices
pub mod Counts

-- `scalar` is the node pointer of a hypertrie of depth 0, read as a value.
pub record Hypertrie : Type 0 where
  pub node_container : NodeContainer
  pub scalar : ℕ
  pub contextless : Bool
  pub managed : Bool
  pub depth : ℕ

-- The constructor from a depth, and that of a hypertrie in a context.
unfoldable pub empty_hypertrie : ℕ → Hypertrie
empty_hypertrie depth = record {
  node_container = no_node;
  scalar = 0;
  contextless = true;
  managed = true;
  depth = depth;
}

unfoldable pub in_context : ℕ → NodeContainer → Hypertrie
in_context depth c = record {
  node_container = c;
  scalar = 0;
  contextless = false;
  managed = true;
  depth = depth;
}

unfoldable pub unmanaged : ℕ → NodeContainer → Hypertrie
unmanaged depth c = record {
  node_container = c;
  scalar = 0;
  contextless = true;
  managed = false;
  depth = depth;
}

-- `operator[](SliceKey)` returns a hypertrie or a value.
pub data Sliced : Type 0 where
  trie : Hypertrie → Sliced
  scalar_value : ℕ → Sliced

-- The key parts of a slice key that fixes all of them.
unfoldable pub key_of : SliceKey → RawKey
key_of [] = []
key_of (none ∷ items) = key_of items
key_of (some part ∷ items) = part ∷ key_of items

module _ (t : Trait) where
  unfoldable pub hypertrie_size : Hypertrie → Option ℕ
  hypertrie_size x =
      let counted = as_full x.node_container.node_ptr >>= λ n. some (size x.depth n) in
      if is_empty x.node_container.identifier
      then some 0
      else if x.depth == 0 || is_sen t x.node_container.identifier
      then some 1
      else counted

  unfoldable pub hypertrie_cards : Hypertrie → List ℕ → Option (List ℕ)
  unfolding hypertrie_size
  hypertrie_cards x positions =
      let counted = as_full x.node_container.node_ptr >>= λ n.
      some (map (λ pos. length (edges n pos)) positions) in
      if length positions == 0
      then some []
      else if is_empty x.node_container.identifier
      then some (replicate (length positions) 0)
      else if x.depth == 1
      then (hypertrie_size x >>= λ n. some (n ∷ []))
      else (hypertrie_size x >>= λ n.
          if n == 1 then some (replicate (length positions) 1) else counted)

module _ (t : Trait) (h : Hash) where
  -- `operator[](Key)`
  unfoldable pub at : NodeStorage → Hypertrie → RawKey → Option ℕ
  at s x key =
      if x.depth == 0
      then some x.scalar
      else if x.contextless
      then get_sen t h s x.depth x.node_container key
      else get t h s x.depth x.node_container key

  -- The hypertrie of a result that is no value.
  unfoldable pub of_result : ℕ → SliceResult → Hypertrie
  unfolding empty_hypertrie in_context unmanaged
  of_result result_depth r =
      if is_empty r.container.identifier
      then empty_hypertrie result_depth
      else if r.uses_provided_alloc
      then in_context result_depth r.container
      else unmanaged result_depth r.container

  unfoldable pub of_outcome : ℕ → SliceOutcome → Sliced
  unfolding of_result
  of_outcome result_depth (SliceOutcome.result r) = trie (of_result result_depth r)
  of_outcome result_depth (SliceOutcome.value v) = scalar_value v

  -- A slice of a node without a context.
  unfoldable pub of_lone_result : ℕ → SliceResult → Hypertrie
  unfolding empty_hypertrie unmanaged
  of_lone_result result_depth r =
      if is_empty r.container.identifier
      then empty_hypertrie result_depth
      else unmanaged result_depth r.container

  -- `operator[](SliceKey)`
  unfoldable pub slice_at : NodeStorage → Hypertrie → SliceKey → Option Sliced
  unfolding at of_outcome of_lone_result empty_hypertrie key_of get_fixed_depth of_slice_key
  slice_at s x slice_key =
      let fixed_depth = get_fixed_depth slice_key in
      let result_depth = x.depth - fixed_depth in
      let raw_slice_key = of_slice_key slice_key in
      let whole = at s x (key_of slice_key) >>= λ v. some (scalar_value v) in
      let lone = slice_sen t h s x.depth x.node_container raw_slice_key >>= λ r.
      some (trie (of_lone_result result_depth r)) in
      let shared = slice_node t h s x.depth x.node_container raw_slice_key >>= λ r.
      some (of_outcome result_depth r) in
      if fixed_depth == 0
      then some (if x.depth == 0 then scalar_value x.scalar else trie x)
      else if fixed_depth == x.depth
      then whole
      else if is_empty x.node_container.identifier
      then some (trie (empty_hypertrie result_depth))
      else if x.contextless
      then lone
      else shared

  -- `Hypertrie::set`, which returns the value before it; at depth 0 the identifier only tells
  -- whether there is an entry.
  unfoldable pub hypertrie_set :
      RawKey → ℕ → NodeStorage × Hypertrie → Option (ℕ × (NodeStorage × Hypertrie))
  unfolding set_value encode_single_entry
  hypertrie_set key new_value (s, x) =
      let id =
        if new_value == 0
        then 0
        else encode_single_entry t h 0 (record { key = []; value = new_value }) in
      let written = set_value t h x.depth key new_value (s, x.node_container) >>= λ r.
      some (r.0, (r.1.0, record x { node_container = r.1.1 })) in
      if x.depth == 0
      then some (
        x.scalar,
        (
          s,
          record x {
            node_container = record { identifier = id; node_ptr = NodePtr.null };
            scalar = new_value;
          },
        ),
      )
      else written

  -- The copy constructor of `Hypertrie` and its destructor keep count of the node.
  unfoldable pub counts_node : Hypertrie → Bool
  counts_node x =
      not (is_empty x.node_container.identifier)
      && not (x.depth == 0)
      && not (in_place t x.depth && is_sen t x.node_container.identifier)

  unfoldable pub copy_hypertrie : NodeStorage × Hypertrie → Option (NodeStorage × Hypertrie)
  unfolding counts_node inc_ref_count
  copy_hypertrie (s, x) =
      let counted = inc_ref_count t h x.depth x.node_container s >>= λ s'. some (s', x) in
      if counts_node x then counted else some (s, x)

  unfoldable pub destroy_hypertrie : NodeStorage × Hypertrie → Option NodeStorage
  unfolding counts_node decr_ref_count
  destroy_hypertrie (s, x) =
      let counted = decr_ref_count t h x.depth x.node_container s in
      if counts_node x then counted else some s
