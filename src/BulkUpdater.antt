-- ===== src/BulkUpdater.antt =====
-- `SynchronousRawHypertrieBulkUpdater`
-- (libs/hypertrie/src/dice/hypertrie/internal/raw/node_context/SynchronousRawBulkUpdater.hpp): entries
-- are queued without those that were seen, and written in bulks. The context that it writes to is an
-- interface, which Stored fills with the node storage; the statistics that it reports are left out.
use hypertrie.Common.{
  Bool, List, [], contains, if◌then◌else◌, is_empty, leb, length, not, ℕ, ◌*◌, ◌++◌, ◌==◌, ◌∷◌,
}
use hypertrie.Common.Sets.{set_insert}
pub mod Stored
pub mod Queue
pub mod Run

pub data BulkUpdaterMode : Type 0 where
  insert_entries : BulkUpdaterMode
  remove_entries : BulkUpdaterMode

-- What is used of the context: `get` of an entry's key and `insert` of entries, and the identifier of
-- an entry.
pub record BulkContext (S E : Type 0) : Type 0 where
  pub get : S → E → Bool
  pub insert : S → List E → S
  pub identify : E → ℕ

pub record BulkUpdater (S E : Type 0) : Type 0 where
  pub new_entries : List E
  pub de_duplication : List ℕ
  pub stored : S

-- `bulk_size_` and `deduplication_max_size_`, as the constructor sets them.
pub record BulkSizes : Type 0 where
  pub bulk_size : ℕ
  pub deduplication_max_size : ℕ

unfoldable pub bulk_sizes : ℕ → BulkSizes
bulk_sizes bulk_size = record {
  bulk_size = if bulk_size == 0 then 1 else bulk_size;
  deduplication_max_size = 4 * bulk_size;
}

module _ {S E : Type 0} (context : BulkContext S E) where
  unfoldable pub flush : BulkUpdater S E → BulkUpdater S E
  flush u =
      if is_empty u.new_entries
      then u
      else record u { new_entries = []; stored = context.insert u.stored u.new_entries }

  -- Whether the entry has to be written in the given mode.
  unfoldable pub is_wanted : BulkUpdaterMode → Bool → Bool
  is_wanted BulkUpdaterMode.insert_entries already_stored = not already_stored
  is_wanted BulkUpdaterMode.remove_entries already_stored = already_stored

  unfoldable pub push_entry : BulkSizes → E → BulkUpdater S E → BulkUpdater S E
  unfolding flush
  push_entry sizes entry u =
      let pushed = record u { new_entries = u.new_entries ++ (entry ∷ []) } in
      if leb sizes.bulk_size (length pushed.new_entries) then flush pushed else pushed

  unfoldable pub add : BulkUpdaterMode → BulkSizes → E → BulkUpdater S E → BulkUpdater S E
  unfolding push_entry is_wanted set_insert
  add mode sizes entry u =
      let entry_hash = context.identify entry in
      let seen = set_insert entry_hash u.de_duplication in
      let kept = if length seen == sizes.deduplication_max_size then [] else seen in
      let noted = record u { de_duplication = kept } in
      if contains u.de_duplication entry_hash
      then noted
      else if is_wanted mode (context.get u.stored entry)
      then push_entry sizes entry noted
      else noted

  -- A caller that adds entries in a row.
  unfoldable pub add_all : BulkUpdaterMode → BulkSizes → List E → BulkUpdater S E → BulkUpdater S E
  unfolding add
  add_all mode sizes [] u = u
  add_all mode sizes (entry ∷ entries) u = add_all mode sizes entries (add mode sizes entry u)

  -- From the constructor to the destructor.
  unfoldable pub run : BulkUpdaterMode → ℕ → List E → S → S
  unfolding add_all flush bulk_sizes
  run mode bulk_size entries stored =
      (flush (
        add_all mode (bulk_sizes bulk_size) entries
          (record { new_entries = []; de_duplication = []; stored = stored }))).stored
