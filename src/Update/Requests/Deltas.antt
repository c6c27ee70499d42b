-- ===== src/Update/Requests/Deltas.antt =====
-- What the requests say of reference counts and of identifiers.
use hypertrie.Common.{
  ℕ, ◌≡◌, sym, ap, ◌∙◌, List, ◌++◌, Bool, true, false, ◌&&◌, if◌then◌else◌, ◌==◌, ==_iff, some,
  Bool-cases, Option-cases, is_none, inl, inr, ◌>>=◌,
}
use mathlib.Core.Bool.{false≢true}
use hypertrie.Common.Assoc.{find, at_or, insert_or_assign, at_or-insert_or_assign}
use hypertrie.Common.Int.{ℤ, pos, ◌+ℤ◌, is_zero, is_negative}
use hypertrie.Trait.{Trait, SingleEntry, Hash, IsInvertible}
use hypertrie.Identifier.{RawIdentifier, is_empty, is_sen, is_fn, in_place, of_entries, combine}
use hypertrie.Identifier.Total.{AreStorable}
use hypertrie.Identifier.Union.{combine-of_entries}
use hypertrie.Node.{SingleEntryNode}
use hypertrie.Storage.{NodeStorage}
use hypertrie.Update.{UpdateRequests}
use hypertrie.Update.Requests.{apply_ref_count_delta, insert_into_node, sen_change_of}

module _ (t : Trait) (h : Hash) (depth : ℕ) where
  -- A change that is not zero is added to what is recorded for its identifier if that is a full
  -- node's; what is recorded for other full nodes, and by single entry nodes, stays.
  pub apply_ref_count_delta-fn_deltas :
      (id other : RawIdentifier) (delta : ℤ) (r : UpdateRequests)
      → is_zero delta ≡ false
      → at_or other (pos 0) (apply_ref_count_delta t h depth id delta r).fn_deltas ≡ (
          if is_fn t id && id == other
          then at_or other (pos 0) r.fn_deltas +ℤ delta
          else at_or other (pos 0) r.fn_deltas)
  unfolding apply_ref_count_delta
  apply_ref_count_delta-fn_deltas id other delta r nz = elim (Bool-cases (is_fn t id)) [
    | inl fn ↦ elim (Bool-cases (is_negative delta)) [
      | inl neg ↦ rw (apply_ref_count_delta, nz, fn, neg) (bound id other delta r)
      | inr positive ↦ rw (apply_ref_count_delta, nz, fn, positive) (bound id other delta r)
    ]
    | inr sen ↦ elim (Bool-cases (in_place t depth)) [
      | inl inside ↦ rw (apply_ref_count_delta, nz, sen, inside)
      | inr outside ↦ rw (apply_ref_count_delta, nz, sen, outside)
    ]
  ]
    where
      bound :
          (id other : RawIdentifier) (delta : ℤ) (r : UpdateRequests)
          → at_or other
              (pos 0)
              (insert_or_assign id (at_or id (pos 0) r.fn_deltas +ℤ delta) r.fn_deltas)
            ≡ (if id == other
                then at_or other (pos 0) r.fn_deltas +ℤ delta
                else at_or other (pos 0) r.fn_deltas)
      bound id other delta r =
          at_or-insert_or_assign other id _ (pos 0) r.fn_deltas ∙ elim (Bool-cases (id == other)) [
            | inl same ↦
                rw same (ap (λ z. at_or z (pos 0) r.fn_deltas +ℤ delta) ((==_iff id other).0 same))
            | inr different ↦ rw different
          ]

  -- The stored single entry nodes have the identifier's node, where it is one and not in place.
  abbrev pub HasSource : NodeStorage → RawIdentifier → Type 0
  HasSource s id =
      is_sen t id ≡ true
      → in_place t depth ≡ false
      → (n : SingleEntryNode) × (find id (s.single_entry_nodes depth) ≡ some n)

  sen_change_of_lem :
      (s : NodeStorage) (id : RawIdentifier) (r : UpdateRequests) (n : SingleEntryNode)
      → find id (s.single_entry_nodes depth) ≡ some n
      → is_none (sen_change_of t h depth s id r) ≡ false
  unfolding sen_change_of
  sen_change_of_lem s id r n stored = elim (Option-cases (find id r.sen_changes)) [
    | inl missing ↦ rw (sen_change_of, missing, stored)
    | inr (change, there) ↦ elim (Option-cases change.entry) [
      | inl none_there ↦ rw (sen_change_of, there, none_there, stored)
      | inr (e, some_there) ↦ rw (sen_change_of, there, some_there)
    ]
  ]

  insert_into_node_lem :
      (s : NodeStorage) (source_id : RawIdentifier) (entries : List SingleEntry) (flag : Bool)
      (r : UpdateRequests)
      → HasSource s source_id
      → (insert_into_node t h depth s source_id entries flag r >>= λ result. some result.0)
        ≡ some (combine t h depth (of_entries t h depth entries) source_id false)
  unfolding insert_into_node
  insert_into_node_lem s source_id entries flag r stored = elim (Bool-cases (is_sen t source_id)) [
    | inr fn ↦ rw (insert_into_node, fn)
    | inl sen ↦ elim (Bool-cases (in_place t depth)) [
      | inl inside ↦ rw (insert_into_node, sen, inside)
      | inr outside ↦
          let (n, there) = stored sen outside in
          let r₁ =
            apply_ref_count_delta t h depth
              (combine t h depth (of_entries t h depth entries) source_id false) (pos 1) r in
          elim (Option-cases (sen_change_of t h depth s source_id r₁)) [
            | inl failed ↦
                absurd
                  (false≢true (sym (sen_change_of_lem s source_id r₁ n there) ∙ ap is_none failed))
            | inr (found, ran) ↦ rw (insert_into_node, sen, outside, ran)
          ]
    ]
  ]

  -- For storable entries and an invertible hash, and where a source that is a single entry node
  -- out of place is stored: asking to insert `xs` into the node of `ys` succeeds and returns the
  -- identifier of `xs ++ ys`. The identifiers of `xs` and of `ys` are not empty.
  pub insert_into_node-of_entries :
      IsInvertible h
      → (s : NodeStorage) (xs ys : List SingleEntry) (flag : Bool) (r : UpdateRequests)
      → AreStorable t depth xs
      → AreStorable t depth ys
      → is_empty (of_entries t h depth xs) ≡ false
      → is_empty (of_entries t h depth ys) ≡ false
      → HasSource s (of_entries t h depth ys)
      → (insert_into_node t h depth s (of_entries t h depth ys) xs flag r >>= λ result.
          some result.0)
        ≡ some (of_entries t h depth (xs ++ ys))
  insert_into_node-of_entries inv s xs ys flag r sx sy nx ny stored =
      insert_into_node_lem s (of_entries t h depth ys) xs flag r stored
      ∙ ap some (combine-of_entries t h inv depth xs ys sx sy nx ny)
