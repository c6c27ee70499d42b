-- ===== src/Update/Apply.antt =====
-- `ApplyUpdate` and `apply_update` (ApplyUpdate.hpp): a plan is executed on the node storage, depth
-- by depth from the updated node down. `none` is a failed lookup that is followed.
pub mod Sens
use hypertrie.Common.{
  ℕ, zero, suc, ◌+◌, ◌-◌, ◌^◌, ◌%◌, List, [], ◌∷◌, Bool, true, false, not, ◌&&◌, ◌||◌, Option, none,
  some, if◌then◌else◌, ◌==◌, length, replicate, contains, is_none, ◌>>=◌,
}
use hypertrie.Common.Assoc.{Assoc, find, insert_or_assign, emplace, erase}
use hypertrie.Common.Int.{ℤ, pos, negsuc, is_zero, is_negative}
use hypertrie.Trait.{Trait, SingleEntry, Hash, bool_valued_and_taggable}
use hypertrie.Identifier.{RawIdentifier, is_empty, is_sen, in_place}
use hypertrie.Node.{FullNode, SingleEntryNode, edges}
use hypertrie.Storage.{NodeStorage, NodePtr, NodeContainer, no_node, lookup, lookup_full}
use hypertrie.Update.{SenChange, EntriesUpdateMode, UpdateRequests, no_requests}
use hypertrie.Update.Requests.{apply_ref_count_delta, add_node, insert_into_node, remove_from_node}
use hypertrie.Update.Plan.{FnCreation, FnEntriesUpdate, UpdatePlan, plan_of}
use hypertrie.Update.Entries.{
  NodeOrigin, Changed, has_in_place_children, apply_fn_entry_insertion, apply_fn_entry_erasure,
}
use hypertrie.Common.Sets.{set_insert}

-- A signed 64-bit number as an unsigned one, and its sum with a count of references.
unfoldable pub to_size : ℤ → ℕ
to_size (pos n) = n % 2 ^ 64
to_size (negsuc n) = 2 ^ 64 - 1 - n % 2 ^ 64

unfoldable pub add_delta : ℕ → ℤ → ℕ
unfolding to_size
add_delta ref_count delta = (ref_count + to_size delta) % 2 ^ 64

-- What the execution changes; `requests` are those of the next depth.
pub record Execution : Type 0 where
  pub storage : NodeStorage
  pub requests : UpdateRequests
  pub done_fns : List RawIdentifier

-- The steps of a loop, from left to right.
unfoldable pub run_all {ℓ κ} :
    {A : Type ℓ} {S : Type κ} → (A → S → Option S) → List A → S → Option S
run_all step [] st = some st
run_all step (a ∷ rest) st = step a st >>= λ st'. run_all step rest st'

unfoldable pub with_full_nodes : ℕ → Assoc FullNode → NodeStorage → NodeStorage
with_full_nodes depth m s = record s { full_nodes = λ d. if d == depth then m else s.full_nodes d }

unfoldable pub with_single_entry_nodes : ℕ → Assoc SingleEntryNode → NodeStorage → NodeStorage
with_single_entry_nodes depth m s = record s {
  single_entry_nodes = λ d. if d == depth then m else s.single_entry_nodes d;
}

module _ (t : Trait) (h : Hash) (depth : ℕ) where
  unfoldable pub new_full_node : ℕ → FullNode
  new_full_node ref_count = record {
    ref_count = ref_count;
    stored_size = 0;
    edge_maps = replicate depth [];
  }

  unfoldable pub create_fn : Assoc ℤ → FnCreation → Execution → Option Execution
  unfolding new_full_node to_size set_insert with_full_nodes
  create_fn fn_deltas creation_plan st = find creation_plan.id fn_deltas >>= λ delta.
      apply_fn_entry_insertion t h st.storage depth NodeOrigin.just_created creation_plan.entries
        (new_full_node (to_size delta), st.requests)
      >>= λ changed. some (record {
        storage =
            with_full_nodes depth (emplace creation_plan.id changed.0 (st.storage.full_nodes depth))
              st.storage;
        requests = changed.1;
        done_fns = set_insert creation_plan.id st.done_fns;
      })

  -- The `switch` over the mode.
  unfoldable pub apply_entries :
      NodeStorage → NodeOrigin → FnEntriesUpdate → Changed → Option Changed
  apply_entries s node_origin update c = elim update.mode [
    | EntriesUpdateMode.insertion ↦
        apply_fn_entry_insertion t h s depth node_origin update.entries c
    | EntriesUpdateMode.erasure ↦ apply_fn_entry_erasure t h s depth node_origin update.entries c
  ]

  unfoldable pub copy_update_fn_to_fn : Assoc ℤ → FnEntriesUpdate → Execution → Option Execution
  unfolding apply_entries to_size set_insert with_full_nodes
  copy_update_fn_to_fn fn_deltas update st =
      let fns = st.storage.full_nodes depth in
      find update.source_id fns >>= λ source. find update.target_id fn_deltas >>= λ ref_count.
      apply_entries st.storage NodeOrigin.copied update (source, st.requests) >>= λ changed.
      some (record {
        storage =
            with_full_nodes depth
              (emplace update.target_id (record (changed.0) { ref_count = to_size ref_count }) fns)
              st.storage;
        requests = changed.1;
        done_fns = set_insert update.target_id st.done_fns;
      })

  unfoldable pub move_update_fn_to_fn : Assoc ℤ → FnEntriesUpdate → Execution → Option Execution
  unfolding apply_entries to_size set_insert with_full_nodes
  move_update_fn_to_fn fn_deltas update st =
      let fns = st.storage.full_nodes depth in
      find update.source_id fns >>= λ source. find update.target_id fn_deltas >>= λ ref_count.
      apply_entries st.storage NodeOrigin.moved update (source, st.requests) >>= λ changed.
      some (record {
        storage =
            with_full_nodes depth
              (emplace update.target_id (record (changed.0) { ref_count = to_size ref_count })
                (erase update.source_id fns))
              st.storage;
        requests = changed.1;
        done_fns = set_insert update.target_id (set_insert update.source_id st.done_fns);
      })

  -- The children of one position lose a reference.
  unfoldable pub release_children : Assoc ℕ → UpdateRequests → UpdateRequests
  release_children [] r = r
  release_children ((key_part, id_child) ∷ m) r =
      let released = apply_ref_count_delta t h (depth - 1) id_child (negsuc 0) r in
      release_children m
        (if depth == 2 && bool_valued_and_taggable t && is_sen t id_child then r else released)

  unfoldable pub release_positions : ℕ → ℕ → FullNode → UpdateRequests → UpdateRequests
  unfolding release_children
  release_positions zero key_pos n r = r
  release_positions (suc more) key_pos n r =
      release_positions more (key_pos + 1) n (release_children (edges n key_pos) r)

  unfoldable pub delete_fn : RawIdentifier → Execution → Option Execution
  unfolding release_positions with_full_nodes
  delete_fn id st =
      let fns = st.storage.full_nodes depth in
      find id fns >>= λ node. some (record st {
        storage = with_full_nodes depth (erase id fns) st.storage;
        requests = if depth == 1 then st.requests else release_positions depth 0 node st.requests;
      })

  -- The loop's body over the deltas: nodes that are done are left alone.
  unfoldable pub update_ref_count : ℕ × ℤ → Execution → Option Execution
  unfolding add_delta set_insert with_full_nodes
  update_ref_count (id, delta) st =
      let fns = st.storage.full_nodes depth in
      if contains st.done_fns id
      then some st
      else (find id fns >>= λ n. some (record st {
        storage =
            with_full_nodes depth
              (insert_or_assign id (record n { ref_count = add_delta n.ref_count delta }) fns)
              st.storage;
        done_fns = set_insert id st.done_fns;
      }))

  unfoldable pub apply_sen_update : ℕ × SenChange → NodeStorage → Option NodeStorage
  unfolding add_delta to_size with_single_entry_nodes
  apply_sen_update (node_id, update) s =
      let sens = s.single_entry_nodes depth in
      let created = update.entry >>= λ e. some (
        with_single_entry_nodes depth
          (emplace node_id (record { ref_count = to_size update.ref_count_delta; entry = e }) sens)
          s) in
      let counted : SingleEntryNode → NodeStorage = λ n.
        let ref_count = add_delta n.ref_count update.ref_count_delta in
        with_single_entry_nodes depth
          (if ref_count == 0
            then erase node_id sens
            else insert_or_assign node_id (record n { ref_count = ref_count }) sens)
          s in
      if is_zero update.ref_count_delta
      then some s
      else if is_negative update.ref_count_delta || not (is_none (find node_id sens))
      then (find node_id sens >>= λ n. some (counted n))
      else created

  -- The steps of `consume_and_execute` at one depth.
  unfoldable pub execute_plan : UpdatePlan → NodeStorage → Option Execution
  unfolding run_all create_fn copy_update_fn_to_fn move_update_fn_to_fn delete_fn update_ref_count
      apply_sen_update
  execute_plan plan s =
      run_all (create_fn plan.fn_deltas) plan.fn_create
        (record { storage = s; requests = no_requests; done_fns = [] })
      >>= λ st₁. run_all (copy_update_fn_to_fn plan.fn_deltas) plan.fn_update_copy st₁ >>= λ st₂.
          run_all (move_update_fn_to_fn plan.fn_deltas) plan.fn_update_move st₂ >>= λ st₃.
          run_all delete_fn plan.fn_delete st₃ >>= λ st₄.
          run_all update_ref_count plan.fn_deltas st₄ >>= λ st₅.
          (if in_place t depth
            then some st₅.storage
            else run_all apply_sen_update plan.sen_changes st₅.storage)
          >>= λ s'. some (record st₅ { storage = s' })

module _ (t : Trait) (h : Hash) where
  unfoldable pub consume_and_execute : ℕ → NodeStorage → UpdateRequests → Option NodeStorage
  unfolding execute_plan
  consume_and_execute zero s ur = some s
  consume_and_execute (suc d) s ur = plan_of (s.full_nodes (suc d)) ur >>= λ plan.
      execute_plan t h (suc d) plan s >>= λ st. consume_and_execute d st.storage st.requests

  -- The requests that `apply_update` makes of the updated node.
  unfoldable pub request_update :
      EntriesUpdateMode
      → ℕ
      → NodeStorage
      → RawIdentifier
      → List SingleEntry
      → Option (RawIdentifier × UpdateRequests)
  request_update mode depth s id entries = elim mode [
    | EntriesUpdateMode.insertion ↦
        if is_empty id
        then some (add_node t h depth entries (pos 1) no_requests)
        else insert_into_node t h depth s id entries true no_requests
    | EntriesUpdateMode.erasure ↦ remove_from_node t h depth s id entries true no_requests
  ]

  -- The container of the target, where the updated storage `s` has it.
  unfoldable pub target_container : ℕ → NodeStorage → RawIdentifier → NodeContainer
  target_container depth s target_id =
      if is_empty target_id
      then no_node
      else if in_place t depth
      then if is_sen t target_id
        then record { identifier = target_id; node_ptr = NodePtr.null }
        else record { identifier = target_id; node_ptr = lookup_full s 1 target_id }
      else lookup t s depth target_id

  unfoldable pub apply_update :
      EntriesUpdateMode
      → ℕ
      → NodeStorage
      → NodeContainer
      → List SingleEntry
      → Option (NodeStorage × NodeContainer)
  apply_update mode depth s nodec entries =
      let updated = request_update mode depth s nodec.identifier entries >>= λ requested.
      consume_and_execute depth s requested.1 >>= λ s'.
      some (s', target_container depth s' requested.0) in
      if length entries == 0 then some (s, nodec) else updated

  unfoldable pub insert_entries_into_node :
      ℕ → NodeStorage → NodeContainer → List SingleEntry → Option (NodeStorage × NodeContainer)
  unfolding apply_update
  insert_entries_into_node = apply_update EntriesUpdateMode.insertion

  unfoldable pub erase_entries_from_node :
      ℕ → NodeStorage → NodeContainer → List SingleEntry → Option (NodeStorage × NodeContainer)
  unfolding apply_update
  erase_entries_from_node = apply_update EntriesUpdateMode.erasure
