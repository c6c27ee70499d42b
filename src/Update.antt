-- ===== src/Update.antt =====
-- Updates: libs/hypertrie/src/dice/hypertrie/internal/raw/node_context/update_details. The nodes of
-- one depth are updated at a time: requests are collected (Requests), turned into a plan (Plan) and
-- executed on the node storage (Apply), which collects the requests of the next smaller depth.
pub mod Subset
pub mod Requests
pub mod Plan
pub mod Entries
pub mod Apply
pub mod Set
use hypertrie.Common.{ℕ, ◌+◌, List, [], ◌∷◌, ◌++◌, Option, none, some, get_or, if◌then◌else◌}
use hypertrie.Common.Assoc.{Assoc, insert_or_assign, at_or}
use hypertrie.Common.Int.{ℤ, pos}
use hypertrie.Key.{subkey}
use hypertrie.Trait.{SingleEntry}
use hypertrie.Identifier.{RawIdentifier}

pub record SenChange : Type 0 where
  pub ref_count_delta : ℤ
  pub entry : Option SingleEntry

-- `SENChange{}`
abbrev pub no_change : SenChange
no_change = record { ref_count_delta = pos 0; entry = none }

pub data EntriesUpdateMode : Type 0 where
  insertion : EntriesUpdateMode
  erasure : EntriesUpdateMode

pub record FnEntriesUpdateData : Type 0 where
  pub entries : List SingleEntry
  pub mode : EntriesUpdateMode

-- `in_place_entries` is what the source keeps in `sen_changes_` where single entries are stored in
-- place: the entries of identifiers. A set is the list of its elements.
pub record UpdateRequests : Type 0 where
  pub sen_changes : Assoc SenChange
  pub in_place_entries : Assoc SingleEntry
  pub fn_update_entries : Assoc (Assoc FnEntriesUpdateData)
  pub fn_creations : Assoc (List SingleEntry)
  pub fn_deltas : Assoc ℤ
  pub fn_deletion_candidates : List RawIdentifier
  pub fn_move_target_candidates : List RawIdentifier
  pub fn_potentially_new : List RawIdentifier

abbrev pub no_requests : UpdateRequests
no_requests = record {
  sen_changes = [];
  in_place_entries = [];
  fn_update_entries = [];
  fn_creations = [];
  fn_deltas = [];
  fn_deletion_candidates = [];
  fn_move_target_candidates = [];
  fn_potentially_new = [];
}

-- `ret[e.key()[pos]].emplace_back(e.key().subkey(pos), e.value())`
unfoldable pub emplace_entry : ℕ → SingleEntry → Assoc (List SingleEntry) → Assoc (List SingleEntry)
unfolding at_or
emplace_entry key_pos e ret =
    let part = get_or e.key key_pos 0 in
    insert_or_assign part (at_or part [] ret ++ (record e { key = subkey e.key key_pos } ∷ [])) ret

unfoldable pub entry_subset_from :
    ℕ → List SingleEntry → Assoc (List SingleEntry) → Assoc (List SingleEntry)
unfolding emplace_entry
entry_subset_from key_pos [] ret = ret
entry_subset_from key_pos (e ∷ es) ret = entry_subset_from key_pos es (emplace_entry key_pos e ret)

unfoldable pub entry_subset_for_pos : List SingleEntry → ℕ → Assoc (List SingleEntry)
unfolding entry_subset_from
entry_subset_for_pos entries key_pos = entry_subset_from key_pos entries []
