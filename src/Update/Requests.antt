-- ===== src/Update/Requests.antt =====
-- `UpdateRequests` (UpdateRequests.hpp): the changes asked of the nodes of one depth. `none` is
-- a failed `at`, which ends the program, or a null pointer that is followed.
pub mod Remaining
pub mod Deltas
use hypertrie.Common.{
  ℕ, ◌+◌, ◌-◌, List, [], ◌∷◌, ◌++◌, Bool, true, false, ◌||◌, Option, none, some, if◌then◌else◌,
  ◌==◌, length, get_or, contains, ◌>>=◌,
}
use hypertrie.Common.Assoc.{at_or, Assoc, find, insert_or_assign, emplace}
use hypertrie.Common.Int.{ℤ, pos, negsuc, ◌+ℤ◌, is_zero, is_negative}
use hypertrie.Trait.{Trait, SingleEntry, Hash}
use hypertrie.Identifier.{
  RawIdentifier, seed, is_empty, is_sen, is_fn, in_place, of_entries, get_entry, combine,
  encode_single_entry, retag_as_sen,
}
use hypertrie.Node.{FullNode, SingleEntryNode, size}
use hypertrie.Storage.{NodeStorage}
use hypertrie.Update.{SenChange, no_change, EntriesUpdateMode, FnEntriesUpdateData, UpdateRequests}
use hypertrie.Update.Requests.Remaining.{retrieve_remaining_single_entry}
use hypertrie.Common.Sets.{set_insert}

module _ (t : Trait) (h : Hash) (depth : ℕ) where
  unfoldable pub apply_ref_count_delta : RawIdentifier → ℤ → UpdateRequests → UpdateRequests
  unfolding at_or set_insert
  apply_ref_count_delta id delta r =
      let deltas = insert_or_assign id (at_or id (pos 0) r.fn_deltas +ℤ delta) r.fn_deltas in
      let change = at_or id no_change r.sen_changes in
      let change' : SenChange = record change {
        ref_count_delta = change.ref_count_delta +ℤ delta;
      } in
      if is_zero delta
      then r
      else if is_fn t id
      then if is_negative delta
        then record r {
          fn_deltas = deltas;
          fn_deletion_candidates = set_insert id r.fn_deletion_candidates;
        }
        else record r {
          fn_deltas = deltas;
          fn_potentially_new = set_insert id r.fn_potentially_new;
        }
      else if in_place t depth
      then r
      else record r { sen_changes = insert_or_assign id change' r.sen_changes }

  unfoldable pub add_node : List SingleEntry → ℤ → UpdateRequests → RawIdentifier × UpdateRequests
  unfolding at_or
  add_node entries n r =
      let id_after = of_entries t h depth entries in
      let change = at_or id_after no_change r.sen_changes in
      let change' : SenChange = record {
        ref_count_delta = change.ref_count_delta +ℤ n;
        entry = elim entries [ [] ↦ none | e ∷ _ ↦ some e ];
      } in
      if length entries == 1
      then if in_place t depth
        then (id_after, r)
        else (id_after, record r { sen_changes = insert_or_assign id_after change' r.sen_changes })
      else (
        id_after,
        apply_ref_count_delta id_after (pos 1)
            (record r { fn_creations = emplace id_after entries r.fn_creations }),
      )

  -- The change of a SEN with its entry, found or made from the stored node.
  unfoldable pub sen_change_of :
      NodeStorage → RawIdentifier → UpdateRequests → Option (SenChange × SingleEntry)
  sen_change_of s source_id r =
      let stored : Option SingleEntry =
        find source_id (s.single_entry_nodes depth) >>= λ n. some n.entry in
      elim (find source_id r.sen_changes) [
        | none ↦ (stored >>= λ e. some (record { ref_count_delta = pos 0; entry = some e }, e))
        | some change ↦ elim change.entry [
          | none ↦ (stored >>= λ e. some (record change { entry = some e }, e))
          | some e ↦ some (change, e)
        ]
      ]

  unfoldable pub insert_into_node :
      NodeStorage
      → RawIdentifier
      → List SingleEntry
      → Bool
      → UpdateRequests
      → Option (RawIdentifier × UpdateRequests)
  unfolding at_or set_insert
  insert_into_node s source_id entries node_before_needs_decrement r =
      let target_id = combine t h depth (of_entries t h depth entries) source_id false in
      let r₁ = apply_ref_count_delta target_id (pos 1) r in
      let promoted : SingleEntry → UpdateRequests → UpdateRequests = λ e r'. record r' {
        fn_creations = emplace target_id (entries ++ (e ∷ [])) r'.fn_creations;
      } in
      let decremented : UpdateRequests = apply_ref_count_delta source_id (negsuc 0) (record r₁ {
        fn_move_target_candidates = set_insert target_id r₁.fn_move_target_candidates;
      }) in
      let r₂ = if node_before_needs_decrement then decremented else r₁ in
      let changes = at_or source_id [] r₂.fn_update_entries in
      let update : FnEntriesUpdateData = record {
        entries = entries;
        mode = EntriesUpdateMode.insertion;
      } in
      if is_sen t source_id
      then if in_place t depth
        then some (target_id, promoted (get_entry t h depth source_id) r₁)
        else (sen_change_of s source_id r₁ >>= λ found.
            let change = found.0 in
            let delta =
              if node_before_needs_decrement
              then change.ref_count_delta +ℤ negsuc 0
              else change.ref_count_delta in
            some (
              target_id,
              promoted found.1 (record r₁ {
                sen_changes =
                    insert_or_assign source_id (record change { ref_count_delta = delta })
                      r₁.sen_changes;
              }),
            ))
      else some (
        target_id,
        record r₂ {
          fn_update_entries =
              insert_or_assign source_id (emplace target_id update changes) r₂.fn_update_entries;
        },
      )

  -- The part of `remove_from_node` for a target of one entry.
  unfoldable pub becomes_single :
      NodeStorage
      → FullNode
      → RawIdentifier
      → List SingleEntry
      → UpdateRequests
      → Option (RawIdentifier × UpdateRequests)
  becomes_single s fn target_id entries r =
      let remaining : Option SingleEntry =
        retrieve_remaining_single_entry t h s depth fn entries >>= λ e. e in
      let with_change : SenChange → RawIdentifier × UpdateRequests = λ change.
        (target_id, record r { sen_changes = insert_or_assign target_id change r.sen_changes }) in
      if in_place t depth
      then elim (find target_id r.in_place_entries) [
        | some e ↦ some (of_entries t h depth (e ∷ []), r)
        | none ↦
            (remaining >>= λ e. some (
              of_entries t h depth (e ∷ []),
              record r { in_place_entries = insert_or_assign target_id e r.in_place_entries },
            ))
      ]
      else elim (find target_id r.sen_changes) [
        | some change ↦
            some (with_change (record change { ref_count_delta = change.ref_count_delta +ℤ pos 1 }))
        | none ↦ elim (find target_id (s.single_entry_nodes depth)) [
          | some n ↦ some (with_change (record { ref_count_delta = pos 1; entry = some n.entry }))
          | none ↦
              (remaining >>= λ e.
              some (with_change (record { ref_count_delta = pos 1; entry = some e })))
        ]
      ]

  unfoldable pub remove_from_node :
      NodeStorage
      → RawIdentifier
      → List SingleEntry
      → Bool
      → UpdateRequests
      → Option (RawIdentifier × UpdateRequests)
  unfolding at_or set_insert becomes_single
  remove_from_node s source_id entries node_before_needs_decrement r =
      let change = at_or source_id no_change r.sen_changes in
      let removed : SenChange = record {
        ref_count_delta =
            if node_before_needs_decrement
            then change.ref_count_delta +ℤ negsuc 0
            else change.ref_count_delta;
        entry = elim entries [ [] ↦ none | e ∷ _ ↦ some e ];
      } in
      let target_id = combine t h depth (of_entries t h depth entries) source_id false in
      let r₁ =
        if node_before_needs_decrement then apply_ref_count_delta source_id (negsuc 0) r else r in
      let updated : UpdateRequests =
        let r₂ = apply_ref_count_delta target_id (pos 1) r₁ in
        record r₂ {
          fn_move_target_candidates = set_insert target_id r₂.fn_move_target_candidates;
          fn_update_entries =
              insert_or_assign source_id
                (emplace target_id (record { entries = entries; mode = EntriesUpdateMode.erasure })
                  (at_or source_id [] r₂.fn_update_entries))
                r₂.fn_update_entries;
        } in
      if is_sen t source_id
      then some (
        seed,
        if in_place t depth
            then r
            else record r { sen_changes = insert_or_assign source_id removed r.sen_changes },
      )
      else if is_empty target_id
      then some (target_id, r₁)
      else (find source_id (s.full_nodes depth) >>= λ fn.
          if size depth fn == length entries + 1
          then becomes_single s fn (retag_as_sen t target_id) entries r₁
          else if size depth fn == length entries
          then some (seed, r₁)
          else some (target_id, updated))
