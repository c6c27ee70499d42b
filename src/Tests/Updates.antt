-- ===== src/Tests/Updates.antt =====
-- Requests, plans and their execution at concrete inputs.
use hypertrie.Common.{
  [], arith, false, if◌then◌else◌, none, refl, some, true, ℕ, ◌&&◌, ◌++◌, ◌==◌, ◌>>=◌, ◌∷◌, ◌≡◌,
}
use hypertrie.Bits.{clear_bit, test_bit}
use hypertrie.Bits.Xor.{xor}
use hypertrie.Common.Assoc.{Assoc, at_or, find}
use hypertrie.Common.Int.{is_negative, is_zero, negsuc, pos, ◌+ℤ◌}
use hypertrie.Identifier.{
  hash_and_combine, hash_loop, in_place, is_empty, is_fn, is_sen, of_entries, tag_as_fn, tag_pos,
}
use hypertrie.Node.{FullNode}
use hypertrie.Storage.{NodeStorage, no_node}
use hypertrie.Tests.Sample.{
  long_trait, sample_hash, sample_hash-IsInvertible, entry, storage, tagged_trait,
}
use hypertrie.Trait.{bool_valued_and_taggable, taggable_key_part}
use hypertrie.Update.{EntriesUpdateMode, UpdateRequests, entry_subset_for_pos, no_requests}
use hypertrie.Update.Apply.{apply_sen_update}
use hypertrie.Update.Apply.Sens.{apply_sen_update-counted}
use hypertrie.Update.Plan.{UpdatePlan, plan_of}
use hypertrie.Update.Plan.Partition.{IsPartition, plan_of-IsPartition}
use hypertrie.Update.Requests.{apply_ref_count_delta, insert_into_node}
use hypertrie.Update.Requests.Deltas.{apply_ref_count_delta-fn_deltas, insert_into_node-of_entries}
use hypertrie.Update.Set.{set_value}
use hypertrie.Update.Set.Empty.{set_value-of_empty}
use hypertrie.Update.Subset.{at_or-entry_subset_for_pos, entries_at}
use mathlib.Core.Bool.{false≢true}

-- A node that loses its only reference and is the source of a new node.
abbrev stored_fns : Assoc FullNode
stored_fns =
    (5, record { ref_count = 1; stored_size = 0; edge_maps = ((2, 7) ∷ (3, 8) ∷ []) ∷ [] }) ∷ []

abbrev moving : UpdateRequests
moving = record no_requests {
  fn_update_entries =
      (
        5,
        (
          6,
          record {
            entries = record { key = 4 ∷ []; value = 1 } ∷ [];
            mode = EntriesUpdateMode.insertion;
          },
        )
            ∷ [],
      )
      ∷ [];
  fn_deltas = (5, negsuc 0) ∷ (6, pos 1) ∷ [];
  fn_deletion_candidates = 5 ∷ [];
  fn_potentially_new = 6 ∷ [];
}

plan_of-IsPartition_example :
    (p : UpdatePlan) × (plan_of stored_fns moving ≡ some p) × IsPartition stored_fns moving p
unfolding find
plan_of-IsPartition_example = plan_of-IsPartition stored_fns moving ((_, refl), tt)

at_or-entry_subset_for_pos_example :
    at_or 1 [] (entry_subset_for_pos (entry 1 2 7 ∷ entry 4 2 5 ∷ entry 1 3 8 ∷ []) 0)
    ≡ entries_at 0 1 (entry 1 2 7 ∷ entry 4 2 5 ∷ entry 1 3 8 ∷ [])
at_or-entry_subset_for_pos_example =
    at_or-entry_subset_for_pos (entry 1 2 7 ∷ entry 4 2 5 ∷ entry 1 3 8 ∷ []) 0 1

apply_ref_count_delta-fn_deltas_example :
    at_or 6 (pos 0) (apply_ref_count_delta long_trait sample_hash 2 6 (negsuc 0) moving).fn_deltas
    ≡ (if is_fn long_trait 6 && 6 == 6
        then at_or 6 (pos 0) moving.fn_deltas +ℤ negsuc 0
        else at_or 6 (pos 0) moving.fn_deltas)
unfolding is_zero
apply_ref_count_delta-fn_deltas_example =
    apply_ref_count_delta-fn_deltas long_trait sample_hash 2 6 6 (negsuc 0) moving refl

insert_into_node-of_entries_example :
    (insert_into_node long_trait sample_hash 2 storage
        (of_entries long_trait sample_hash 2 (entry 1 2 7 ∷ entry 1 3 8 ∷ []))
        (entry 2 3 9 ∷ entry 2 4 1 ∷ [])
        true
        no_requests
      >>= λ result. some result.0)
    ≡ some (
        of_entries long_trait sample_hash 2
          ((entry 2 3 9 ∷ entry 2 4 1 ∷ []) ++ (entry 1 2 7 ∷ entry 1 3 8 ∷ [])))
unfolding is_empty is_sen of_entries hash_and_combine hash_loop tag_as_fn tag_pos clear_bit test_bit
    xor in_place bool_valued_and_taggable
insert_into_node-of_entries_example =
    insert_into_node-of_entries long_trait sample_hash 2 sample_hash-IsInvertible storage
      (entry 2 3 9 ∷ entry 2 4 1 ∷ []) (entry 1 2 7 ∷ entry 1 3 8 ∷ []) true no_requests
      (λ e. absurd (false≢true e), (λ e. absurd (false≢true e), tt))
      (λ e. absurd (false≢true e), (λ e. absurd (false≢true e), tt)) refl refl
      (λ e. absurd (false≢true e))

apply_sen_update-counted_example :
    (s' : NodeStorage) × (apply_sen_update long_trait sample_hash 1
        (9223372036854775814, record { ref_count_delta = negsuc 0; entry = none })
        storage
      ≡ some s')
    × (find 9223372036854775814 (s'.single_entry_nodes 1) ≡ none)
    × ((d : ℕ)
        → (s'.full_nodes d ≡ storage.full_nodes d)
          × ((d == 1) ≡ false → s'.single_entry_nodes d ≡ storage.single_entry_nodes d))
unfolding find is_zero is_negative ◌+ℤ◌
apply_sen_update-counted_example =
    apply_sen_update-counted long_trait sample_hash 1 storage 9223372036854775814
      9223372036854775814 (record { ref_count_delta = negsuc 0; entry = none })
      (record { ref_count = 1; entry = record { key = 1 ∷ []; value = 7 } }) refl refl (omega arith)
      (omega arith) refl

set_value-of_empty_example :
    (set_value tagged_trait sample_hash 1 (4 ∷ []) 0 (storage, no_node) >>= λ w. some w.0) ≡ some 1
unfolding test_bit tag_pos in_place bool_valued_and_taggable taggable_key_part
set_value-of_empty_example =
    set_value-of_empty tagged_trait sample_hash refl storage 4 0 refl (omega arith)
