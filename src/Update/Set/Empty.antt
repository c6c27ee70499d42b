-- ===== src/Update/Set/Empty.antt =====
-- `set` of an empty hypertrie of depth 1 whose single entries are stored in place.
use hypertrie.Common.{
  ℕ, zero, suc, ◌≤◌, ◌≡◌, refl, arith, ap, ◌∙◌, [], ◌∷◌, true, false, some, ◌>>=◌, ==_refl,
}
use hypertrie.Trait.{Trait, SingleEntry, Hash, bool_valued_and_taggable}
use hypertrie.Bits.{test_bit}
use hypertrie.Identifier.{
  RawIdentifier, is_empty, in_place, tag_pos, tag_as_sen, of_entries, get_entry,
  encode_single_entry,
}
use hypertrie.Identifier.Tag.{is_empty-tag_as_sen, is_sen-tag_as_sen, fn-sen, fn_self}
use hypertrie.Storage.{NodeStorage, NodePtr, NodeContainer, no_node}
use hypertrie.Context.{get, get_sen}
use hypertrie.Update.{EntriesUpdateMode, no_requests}
use hypertrie.Update.Requests.{add_node, remove_from_node}
use hypertrie.Update.Plan.{
  plan_of, delete_candidates, plan_updates, to_be_created, plan_creations, drop_unchanged,
}
use hypertrie.Update.Apply.{
  run_all, execute_plan, consume_and_execute, request_update, target_container, apply_update,
  insert_entries_into_node, erase_entries_from_node,
}
use hypertrie.Update.Set.{entry_of, set_value}

module _ (t : Trait) (h : Hash) (inside : in_place t 1 ≡ true) where
  nothing_asked : (s : NodeStorage) → consume_and_execute t h 1 s no_requests ≡ some s
  unfolding consume_and_execute execute_plan run_all plan_of delete_candidates plan_updates
      to_be_created plan_creations drop_unchanged
  nothing_asked s = rw inside

  -- The container of one entry.
  abbrev one : ℕ → NodeContainer
  one key_part = record { identifier = tag_as_sen t key_part; node_ptr = NodePtr.null }

  applied :
      (mode : EntriesUpdateMode) (s : NodeStorage) (nodec : NodeContainer) (e : SingleEntry)
      (id : RawIdentifier)
      → request_update t h mode 1 s nodec.identifier (e ∷ []) ≡ some (id, no_requests)
      → apply_update t h mode 1 s nodec (e ∷ []) ≡ some (s, target_container t h 1 s id)
  unfolding apply_update
  applied mode s nodec e id requested = rw (requested, nothing_asked s)

  inserted :
      (s : NodeStorage) (e : SingleEntry) (key_part : ℕ)
      → e.key ≡ key_part ∷ []
      → insert_entries_into_node t h 1 s no_node (e ∷ []) ≡ some (s, one key_part)
  unfolding insert_entries_into_node request_update add_node is_empty
  inserted s e key_part k =
      applied EntriesUpdateMode.insertion s no_node e (tag_as_sen t key_part) (rw (inside, of_one))
      ∙ ap (λ c. some (s, c)) target
    where
      of_one : of_entries t h 1 (e ∷ []) ≡ tag_as_sen t key_part
      of_one = unfold of_entries encode_single_entry in rw (inside, k) refl

      target : target_container t h 1 s (tag_as_sen t key_part) ≡ one key_part
      target =
          unfold target_container in
          rw (is_empty-tag_as_sen t key_part, inside, is_sen-tag_as_sen t key_part) refl

  erased :
      (s : NodeStorage) (e : SingleEntry) (key_part : ℕ)
      → erase_entries_from_node t h 1 s (one key_part) (e ∷ []) ≡ some (s, no_node)
  unfolding erase_entries_from_node request_update remove_from_node
  erased s e key_part =
      applied EntriesUpdateMode.erasure s (one key_part) e 0
        (rw (is_sen-tag_as_sen t key_part, inside))
      ∙ (unfold target_container is_empty in refl)

  read_back :
      (s : NodeStorage) (key_part : ℕ)
      → test_bit (tag_pos t) key_part ≡ false
      → get t h s 1 (one key_part) (key_part ∷ []) ≡ some 1
  unfolding get get_sen get_entry
  read_back s key_part free =
      rw
        (
          is_sen-tag_as_sen t key_part,
          is_empty-tag_as_sen t key_part,
          inside,
          fn-sen t key_part,
          fn_self t key_part free,
          ==_refl key_part,
        )
        refl

  is_bool : t.is_bool_valued ≡ true
  unfolding in_place bool_valued_and_taggable
  is_bool = ground (arith, inside)

  -- Where single entries of depth 1 are stored in place, and for a key part that leaves the tag
  -- bit free: `set` of an empty container to `false` or `true` succeeds and returns `true` as the
  -- old value, in both cases.
  pub set_value-of_empty :
      (s : NodeStorage) (key_part value : ℕ)
      → test_bit (tag_pos t) key_part ≡ false
      → value ≤ 1
      → (set_value t h 1 (key_part ∷ []) value (s, no_node) >>= λ w. some w.0) ≡ some 1
  unfolding set_value is_empty entry_of
  set_value-of_empty s key_part zero free bound =
      rw
        (
          inside,
          inserted s (entry_of t h 1 (key_part ∷ []) 0) key_part refl,
          read_back s key_part free,
          erased s (entry_of t h 1 (key_part ∷ []) 1) key_part,
          is_bool,
        )
        refl
  set_value-of_empty s key_part (suc zero) free bound =
      rw
        (
          inside,
          inserted s (entry_of t h 1 (key_part ∷ []) 1) key_part refl,
          read_back s key_part free,
        )
        refl
  set_value-of_empty s key_part (suc (suc value)) free bound = absurd (omega (arith, bound))
