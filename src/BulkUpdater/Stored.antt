-- ===== src/BulkUpdater/Stored.antt =====
-- The context that the updater writes to: `get` and `insert` of RawHypertrieContext on a node storage
-- and the container of a node. A call that fails leaves `none`.
use hypertrie.Common.{Bool, Option, [], false, none, not, some, ℕ, ◌==◌, ◌>>=◌, ◌∷◌}
use hypertrie.BulkUpdater.{BulkContext}
use hypertrie.Context.{get}
use hypertrie.Identifier.{of_entries}
use hypertrie.Storage.{NodeContainer, NodeStorage}
use hypertrie.Trait.{Hash, SingleEntry, Trait}
use hypertrie.Update.Apply.{insert_entries_into_node}

-- The value as a `bool`.
unfoldable is_stored : Option ℕ → Bool
is_stored none = false
is_stored (some value) = not (value == 0)

module _ (t : Trait) (h : Hash) (depth : ℕ) where
  unfoldable pub raw_context : BulkContext (Option (NodeStorage × NodeContainer)) SingleEntry
  unfolding is_stored
  raw_context = record {
    get = λ stored_now e. is_stored (stored_now >>= λ st. get t h st.0 depth st.1 e.key);
    insert = λ stored_now entries.
        stored_now >>= λ st. insert_entries_into_node t h depth st.0 st.1 entries;
    identify = λ e. of_entries t h depth (e ∷ []);
  }
