-- ===== src/Tests/Reads.antt =====
-- Reads of the sample storage.
use hypertrie.Common.{◌≡◌, refl, arith, [], ◌∷◌, some}
use hypertrie.Key.Slice.{RawSliceKey}
use hypertrie.Key.Merge.{merge}
use hypertrie.Identifier.{is_empty}
use hypertrie.Context.{SliceResult, get, slice_rek}
use hypertrie.Context.Rep.{Rep}
use hypertrie.Context.Get.{get-Rep}
use hypertrie.Context.SliceRek.{slice_rek-Rep}
use hypertrie.Tests.Sample.{long_trait, sample_hash, storage, root, contents, root-Rep}

abbrev second_is_three : RawSliceKey
second_is_three = record { pos = 1; key_part = 3 } ∷ []

get-Rep_example : get long_trait sample_hash storage 2 root (1 ∷ 3 ∷ []) ≡ some 8
get-Rep_example =
    get-Rep long_trait sample_hash storage 2 root contents (omega arith) root-Rep (1 ∷ 3 ∷ []) refl

slice_rek-Rep_example :
    (r : SliceResult) × (slice_rek long_trait sample_hash storage 2 root second_is_three ≡ some r)
    × Rep long_trait sample_hash storage 1 r.container (λ k. contents (merge second_is_three k))
unfolding is_empty
slice_rek-Rep_example =
    slice_rek-Rep long_trait sample_hash storage 2 1 root contents second_is_three (omega arith)
      root-Rep refl (omega arith, omega arith, tt) refl (omega arith) (omega arith)
