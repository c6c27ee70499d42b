-- ===== src/Context/Rep.antt =====
-- What a node stands for: a function from the keys of its depth to values, 0 where the key is not
-- an entry. `Rep` is the invariant of the node storage that the reads rely on.
use hypertrie.Common.{
  ℕ, zero, suc, ◌<◌, ◌≡◌, ◌⊎◌, true, false, if◌then◌else◌, ◌==◌, length, get_or, list_eq,
}
use hypertrie.Key.{RawKey}
use hypertrie.Key.Merge.{insert_at}
use hypertrie.Trait.{Trait, Hash, bool_valued_and_taggable}
use hypertrie.Bits.{test_bit}
use hypertrie.Identifier.{is_empty, is_sen, is_fn, in_place, get_entry, tag_pos}
use hypertrie.Node.{FullNode, SingleEntryNode, entry_value, child}
use hypertrie.Storage.{NodeStorage, NodePtr, NodeContainer}
use hypertrie.Context.{resolve}

-- Key parts leave the tag bit free where the trait makes use of it.
abbrev pub IsTaggable : Trait → RawKey → Type 0
IsTaggable t key =
    (i : ℕ) → bool_valued_and_taggable t ≡ true → test_bit (tag_pos t) (get_or key i 0) ≡ false

module _ (t : Trait) (h : Hash) (s : NodeStorage) where
  -- Nodes of at most one entry.
  pub data Small (depth : ℕ) (c : NodeContainer) (f : RawKey → ℕ) : Type 0 where
    absent :
        is_empty c.identifier ≡ true → ((k : RawKey) → length k ≡ depth → f k ≡ 0) → Small depth c f
    stored :
        (n : SingleEntryNode)
        → is_sen t c.identifier ≡ true
        → in_place t depth ≡ false
        → c.node_ptr ≡ NodePtr.single n
        → length n.entry.key ≡ depth
        → IsTaggable t n.entry.key
        → ((k : RawKey)
            → length k ≡ depth
            → f k ≡ (if list_eq n.entry.key k then entry_value t n.entry else 0))
        → Small depth c f
    inline :
        is_sen t c.identifier ≡ true
        → in_place t depth ≡ true
        → ((k : RawKey)
            → length k ≡ depth
            → f k ≡ (
                if get_or (get_entry t h depth c.identifier).key 0 0 == get_or k 0 0 then 1 else 0))
        → Small depth c f

  pub record Leaf (c : NodeContainer) (f : RawKey → ℕ) : Type 0 where
    pub node : FullNode
    pub tagged : is_fn t c.identifier ≡ true
    pub pointer : c.node_ptr ≡ NodePtr.full node
    pub reads : (k : RawKey) → length k ≡ 1 → f k ≡ child node 0 (get_or k 0 0)

  pub record Inner (depth : ℕ) (c : NodeContainer) (n : FullNode) : Type 0 where
    pub tagged : is_fn t c.identifier ≡ true
    pub pointer : c.node_ptr ≡ NodePtr.full n
    pub width : length n.edge_maps ≡ depth

  -- The container `c` stands for `f` on the keys of length `depth`: by each position, the children
  -- of a full node stand for the slices of `f`.
  abbrev pub Rep : ℕ → NodeContainer → (RawKey → ℕ) → Type 0
  Rep zero c f = ⊥
  Rep (suc zero) c f = Small 1 c f ⊎ Leaf c f
  Rep (suc (suc d)) c f =
      Small (suc (suc d)) c f
      ⊎ ((n : FullNode) × Inner (suc (suc d)) c n
          × ((pos key_part : ℕ)
              → pos < suc (suc d)
              → Rep (suc d) (resolve t h s (suc (suc d)) n pos key_part)
                  (λ k. f (insert_at pos key_part k))))
