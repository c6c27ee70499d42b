-- ===== src/Storage.antt =====
-- Where nodes are kept: libs/hypertrie/src/dice/hypertrie/internal/raw/node/{NodeStorage,
-- SpecificNodeStorage, NodeContainer}.hpp. Each depth has a map from identifiers to full nodes and
-- one to single entry nodes. A node pointer is modelled by the node that it points to.
use hypertrie.Common.{ℕ, Option, none, some, if◌then◌else◌}
use hypertrie.Common.Assoc.{Assoc, find}
use hypertrie.Trait.{Trait}
use hypertrie.Identifier.{RawIdentifier, is_empty, is_fn}
use hypertrie.Node.{FullNode, SingleEntryNode}

pub record NodeStorage : Type 0 where
  pub full_nodes : ℕ → Assoc FullNode
  pub single_entry_nodes : ℕ → Assoc SingleEntryNode

pub data NodePtr : Type 0 where
  null : NodePtr
  full : FullNode → NodePtr
  single : SingleEntryNode → NodePtr

pub record NodeContainer : Type 0 where
  pub identifier : RawIdentifier
  pub node_ptr : NodePtr

-- `NodeContainer{}`
abbrev pub no_node : NodeContainer
no_node = record { identifier = 0; node_ptr = NodePtr.null }

-- Dereferencing, as the kind of node that the code takes the pointer for.
abbrev pub as_full : NodePtr → Option FullNode
as_full (NodePtr.full n) = some n
as_full _ = none

abbrev pub as_single : NodePtr → Option SingleEntryNode
as_single (NodePtr.single n) = some n
as_single _ = none

-- `lookup<depth, FullNode>`
unfoldable pub lookup_full : NodeStorage → ℕ → RawIdentifier → NodePtr
lookup_full s depth id = elim (find id (s.full_nodes depth)) [
  | none ↦ NodePtr.null
  | some n ↦ NodePtr.full n
]

-- `lookup<depth, SingleEntryNode>`
unfoldable pub lookup_single : NodeStorage → ℕ → RawIdentifier → NodePtr
lookup_single s depth id = elim (find id (s.single_entry_nodes depth)) [
  | none ↦ NodePtr.null
  | some n ↦ NodePtr.single n
]

-- A container of what was found, and an empty one where nothing was.
unfoldable pub container_of : RawIdentifier → NodePtr → NodeContainer
container_of id ptr = elim ptr [
  | NodePtr.null ↦ no_node
  | other ↦ record { identifier = id; node_ptr = other }
]

unfoldable pub lookup : Trait → NodeStorage → ℕ → RawIdentifier → NodeContainer
unfolding container_of lookup_full lookup_single
lookup t s depth id =
    if is_empty id
    then no_node
    else if is_fn t id
    then container_of id (lookup_full s depth id)
    else container_of id (lookup_single s depth id)
