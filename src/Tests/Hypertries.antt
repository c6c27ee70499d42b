-- ===== src/Tests/Hypertries.antt =====
-- Hypertries at concrete inputs: the sample of depth 2 with the entries (1, 2) -> 7 and
-- (1, 3) -> 8.
use hypertrie.Common.{[], arith, false, none, refl, some, true, ◌∷◌, ◌≡◌}
use hypertrie.Bits.{test_bit}
use hypertrie.Common.Assoc.{find}
use hypertrie.Context.{get, get_sen, resolve}
use hypertrie.Hypertrie.{
  Hypertrie, Sliced, copy_hypertrie, counts_node, destroy_hypertrie, slice_at,
}
use hypertrie.Hypertrie.Contents.{Holds}
use hypertrie.Hypertrie.Counts.{destroy-copy_hypertrie}
use hypertrie.Hypertrie.Slices.{Agrees, slice_at-Holds}
use hypertrie.Identifier.{in_place, is_empty, is_fn, is_sen, tag_pos}
use hypertrie.Key.{subkey}
use hypertrie.Key.Slice.{SliceKey}
use hypertrie.Node.{child, edges, entry_value, min_card_pos}
use hypertrie.Storage.{NodeStorage, container_of, lookup, lookup_full, lookup_single}
use hypertrie.Tests.Sample.{contents, long_trait, root, root-Rep, sample_hash, storage}
use hypertrie.Trait.{bool_valued_and_taggable, taggable_key_part}
use hypertrie.Update.Set.{ref_count_of}

abbrev sample : Hypertrie
sample = record {
  node_container = root;
  scalar = 0;
  contextless = false;
  managed = true;
  depth = 2;
}

abbrev second_three : SliceKey
second_three = none ∷ some 3 ∷ []

sample-Holds : Holds long_trait sample_hash storage sample contents
sample-Holds = record {
  deep = omega arith;
  short = omega arith;
  rep = root-Rep;
  lone = λ e. absurd (ground (arith, e));
}

slice_at-Holds_example :
    (out : Sliced) × (slice_at long_trait sample_hash storage sample second_three ≡ some out)
    × Agrees long_trait sample_hash storage second_three contents out
slice_at-Holds_example =
    slice_at-Holds long_trait sample_hash storage sample contents second_three sample-Holds refl

-- A slice of both positions is the value.
slice_at-whole :
    slice_at long_trait sample_hash storage sample (some 1 ∷ some 3 ∷ [])
    ≡ some (Sliced.scalar_value 8)
unfolding slice_at get child edges find min_card_pos subkey resolve lookup lookup_full lookup_single
    container_of is_empty is_sen is_fn tag_pos test_bit bool_valued_and_taggable taggable_key_part
    get_sen entry_value in_place
slice_at-whole = refl

destroy-copy_hypertrie_example :
    (s₁ s₂ : NodeStorage) × (copy_hypertrie long_trait sample_hash (storage, sample)
      ≡ some (s₁, sample))
    × (ref_count_of long_trait sample_hash 2 root s₁ ≡ some 2)
    × (destroy_hypertrie long_trait sample_hash (s₁, sample) ≡ some s₂)
    × (ref_count_of long_trait sample_hash 2 root s₂ ≡ some 1)
unfolding counts_node ref_count_of is_empty is_sen in_place tag_pos test_bit find
    bool_valued_and_taggable taggable_key_part
destroy-copy_hypertrie_example =
    destroy-copy_hypertrie long_trait sample_hash storage sample 1 refl refl (omega arith)
      (omega arith)
