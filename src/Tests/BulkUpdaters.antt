-- ===== src/Tests/BulkUpdaters.antt =====
-- Bulk inserters at concrete inputs, with numbers for the entries and their identifiers.
use hypertrie.Common.{List, Option, [], contains, refl, some, ℕ, ◌++◌, ◌∷◌, ◌≡◌}
use hypertrie.BulkUpdater.{BulkContext, BulkUpdaterMode, run}
use hypertrie.BulkUpdater.Stored.{raw_context}
use hypertrie.Storage.{NodeContainer, NodeStorage, no_node}
use hypertrie.Tests.Sample.{long_trait, sample_hash}
use hypertrie.Trait.{SingleEntry}

abbrev numbers : BulkContext (List ℕ) ℕ
numbers = record {
  get = λ stored e. contains stored e;
  insert = λ stored entries. entries ++ stored;
  identify = λ e. e;
}

abbrev nine : List ℕ
nine = 1 ∷ 2 ∷ 3 ∷ 4 ∷ 5 ∷ 6 ∷ 7 ∷ 8 ∷ 8 ∷ []

-- The entry with which the seen ones are forgotten is queued once more, and written twice.
run-forgets :
    run numbers BulkUpdaterMode.insert_entries 2 nine (1 ∷ 2 ∷ 3 ∷ 4 ∷ 5 ∷ 6 ∷ 7 ∷ [])
    ≡ 8 ∷ 8 ∷ 1 ∷ 2 ∷ 3 ∷ 4 ∷ 5 ∷ 6 ∷ 7 ∷ []
unfolding run
run-forgets = refl

-- A bulk remover that is given a stored entry inserts it.
run-removes : run numbers BulkUpdaterMode.remove_entries 1 (1 ∷ []) (1 ∷ 2 ∷ []) ≡ 1 ∷ 1 ∷ 2 ∷ []
unfolding run
run-removes = refl

-- The updater on the node storage itself: keys of depth 1, one of them twice, in bulks of two, so
-- that the seen ones are forgotten once.
abbrev leaf : ℕ → SingleEntry
leaf a = record { key = a ∷ []; value = 7 }

abbrev no_nodes : NodeStorage
no_nodes = record { full_nodes = λ d. []; single_entry_nodes = λ d. [] }

abbrev leaves : BulkContext (Option (NodeStorage × NodeContainer)) SingleEntry
leaves = raw_context long_trait sample_hash 1

abbrev nine_leaves : List SingleEntry
nine_leaves = leaf 1 ∷ leaf 2 ∷ leaf 3 ∷ leaf 4 ∷ leaf 5 ∷ leaf 6 ∷ leaf 7 ∷ leaf 8 ∷ leaf 8 ∷ []

abbrev no_leaves : Option (NodeStorage × NodeContainer)
no_leaves = some (no_nodes, no_node)
