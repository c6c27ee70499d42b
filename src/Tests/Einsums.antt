-- ===== src/Tests/Einsums.antt =====
-- "ab,b->" with tensors over the key parts 0 and 1. A tensor stands for a hypertrie: its value at
-- each key.
use mathlib.Core.Bool.{true≢false}
use hypertrie.Common.{
  Bool, List, Option, [], ap, arith, contains, contains-filter, false, filter, get_or,
  if◌then◌else◌, is_empty, leb, length, ltb, refl, some, sym, true, ℕ, ◌%◌, ◌&&◌, ◌+◌, ◌-◌, ◌==◌,
  ◌>>=◌, ◌^◌, ◌∙◌, ◌∷◌, ◌≡◌,
}
use hypertrie.Common.Sets.{IsDistinct, count-filter}
use hypertrie.Einsum.{Estimates, Tensors, evaluate}
use hypertrie.Einsum.Meaning.{Means, sum_keys}
use hypertrie.Einsum.Positions.{spread}
use hypertrie.Einsum.Total.{sum_product}
use hypertrie.HashJoin.{Diagonals, Promises, rounds, start}
use hypertrie.Subscript.{
  RawSubscript, get_label_poss_in_operands, get_operands_label_set, remove_label,
}
use hypertrie.Subscript.Kinds.{SubscriptType}
use hypertrie.Subscript.Make.{Subscript, make_subscript}

record Tensor : Type 0 where
  dims : ℕ
  value : List ℕ → Bool

record TensorCursor : Type 0 where
  place : Tensor × List ℕ
  ahead : List ℕ
  shown : Tensor

abbrev no_tensor : Tensor
no_tensor = record { dims = 0; value = λ key. false }

two_parts : List ℕ
two_parts = 0 ∷ 1 ∷ []

slice_tensor : Tensor × List ℕ → ℕ → Tensor
unfolding spread
slice_tensor o k = record {
  dims = o.0.dims - length o.1;
  value = λ key. o.0.value (spread 0 o.0.dims o.1 k key);
}

-- All key parts of a slice that has positions left: such a slice may have no entry.
parts_of : Tensor × List ℕ → List ℕ
unfolding two_parts spread
parts_of o =
    if length o.1 == o.0.dims
    then filter (λ k. o.0.value (spread 0 o.0.dims o.1 k [])) two_parts
    else two_parts

shown_tensor : Tensor × List ℕ → List ℕ → Tensor
unfolding slice_tensor
shown_tensor o [] = no_tensor
shown_tensor o (k ∷ ks) = slice_tensor o k

tensor_cursor : Tensor × List ℕ → List ℕ → TensorCursor
unfolding shown_tensor
tensor_cursor o ks = record { place = o; ahead = ks; shown = shown_tensor o ks }

parts_after : List ℕ → List ℕ
parts_after [] = []
parts_after (k ∷ ks) = ks

tensors : Diagonals
unfolding tensor_cursor parts_of parts_after slice_tensor
tensors = record {
  Operand = Tensor;
  Diagonal = TensorCursor;
  no_operand = no_tensor;
  depth = λ x. x.dims;
  open_at = λ x poss. tensor_cursor (x, poss) [];
  begin = λ d. tensor_cursor d.place (parts_of d.place);
  increment = λ d. tensor_cursor d.place (parts_after d.ahead);
  ended = λ d. is_empty d.ahead;
  current_key_part = λ d. get_or d.ahead 0 0;
  current_hypertrie = λ d. d.shown;
  find_part = λ k d. (contains (parts_of d.place) k, record d { shown = slice_tensor d.place k });
  size = λ d. length (parts_of d.place);
}

two_parts-IsDistinct : IsDistinct two_parts
unfolding two_parts
two_parts-IsDistinct a = ground arith

parts_of-IsDistinct : (o : Tensor × List ℕ) → IsDistinct (parts_of o)
unfolding parts_of
parts_of-IsDistinct o a =
    let once = two_parts-IsDistinct a in
    let fewer = count-filter (λ k. o.0.value (spread 0 o.0.dims o.1 k [])) two_parts a in
    ground (arith, once, fewer)

tensors-Promises : Promises tensors
unfolding tensors tensor_cursor
tensors-Promises = record {
  origin = λ d. d.place;
  keys = parts_of;
  slice_of = slice_tensor;
  remaining = λ d. d.ahead;
  opened = λ x poss. refl;
  begun = λ d. refl;
  moved = λ d. refl;
  probed = λ k d. refl;
  distinct = parts_of-IsDistinct;
  begins = λ d. refl;
  ends = λ d. refl;
  shows = λ d k ks e. ap (λ l. get_or l 0 0) e;
  begins_at = λ d k ks e. ap (shown_tensor d.place) e;
  moves_to = λ d k ks e. ap (shown_tensor d.place) e;
  steps = λ d k ks e. ap parts_after e;
  finds = λ k d. refl;
  holds = λ k d e. refl;
  bounds = λ d. omega arith;
}

tensor_entry : Tensor → List ℕ → ℕ
tensor_entry x key = if x.value key then 1 else 0

parts_of-whole :
    (x : Tensor) (poss : List ℕ) (k : ℕ)
    → length poss ≡ x.dims
    → contains (parts_of (x, poss)) k
      ≡ (x.value (spread 0 x.dims poss k []) && contains two_parts k)
unfolding parts_of
parts_of-whole x poss k all =
    let filtered = contains-filter (λ j. x.value (spread 0 x.dims poss j [])) two_parts k in
    ground (arith, all, filtered)

parts_of-within :
    (x : Tensor) (poss : List ℕ) (k : ℕ)
    → contains (parts_of (x, poss)) k ≡ true
    → contains two_parts k ≡ true
unfolding parts_of
parts_of-within x poss k there =
    let filtered = contains-filter (λ j. x.value (spread 0 x.dims poss j [])) two_parts k in
    ground (arith, there, filtered)

parts_of-partial :
    (x : Tensor) (poss : List ℕ) → (length poss == x.dims) ≡ false → parts_of (x, poss) ≡ two_parts
unfolding parts_of
parts_of-partial x poss e = rw e refl

tensor_entry-missing :
    (x : Tensor) (poss : List ℕ) (k : ℕ) (key : List ℕ)
    → length key + length poss ≡ x.dims
    → contains two_parts k ≡ true
    → contains (parts_of (x, poss)) k ≡ false
    → tensor_entry x (spread 0 x.dims poss k key) ≡ 0
unfolding tensor_entry
tensor_entry-missing x poss k [] long in_dom absent =
    let stored = parts_of-whole x poss k (omega (arith, long)) in
    ground (arith, stored, in_dom, absent)
tensor_entry-missing x poss k (j ∷ key) long in_dom absent =
    let partial = parts_of-partial x poss (ground (arith, long)) in
    absurd (true≢false (sym in_dom ∙ ap (λ l. contains l k) (sym partial) ∙ absent))

tensors-Means : Means tensors tensors-Promises
unfolding tensors tensors-Promises slice_tensor tensor_entry
tensors-Means = record {
  dom = two_parts;
  entry = tensor_entry;
  dom_distinct = two_parts-IsDistinct;
  slice_depth = λ x poss k fits some_poss left. refl;
  slice_entry = λ x poss k key fits some_poss left long there. refl;
  whole = λ x poss k fits some_poss all there.
      let stored = parts_of-whole x poss k all in ground (arith, stored, there);
  missing = λ x poss k key fits some_poss long in_dom absent.
      tensor_entry-missing x poss k key long in_dom absent;
  in_dom = λ x poss k fits there. parts_of-within x poss k there;
}

abbrev naturals : Estimates
naturals = record { Double = ℕ; infinity = 1000; less = ltb }

sized_tensors : Tensors tensors naturals
unfolding tensors tensor_entry two_parts
sized_tensors = record {
  size_of = λ (x : Tensor). sum_keys two_parts x.dims (tensor_entry x) % 2 ^ 64;
  calc_card = λ xs s l. l;
}

no_part : ℕ → ℕ
no_part l = 0

-- The operator of Cartesian products, by its sum.
product_sums : Subscript → List tensors.Operand → Option ℕ
unfolding tensors
product_sums made xs =
    some (sum_product tensors tensors-Promises tensors-Means made.raw_subscript xs no_part % 2 ^ 64)

abbrev a_b_b : RawSubscript
a_b_b = record { operands = (97 ∷ 98 ∷ []) ∷ (98 ∷ []) ∷ []; result = [] }

-- The first one is true at 0,0 and 0,1 and 1,1; the second one at 1.
two_tensors : List tensors.Operand
unfolding tensors
two_tensors =
    record { dims = 2; value = λ key. leb (get_or key 0 0) (get_or key 1 0) }
    ∷ record { dims = 1; value = λ key. get_or key 0 0 == 1 }
    ∷ []

evaluate-a_b_b :
    make_subscript a_b_b SubscriptType.none
      >>= (λ made. evaluate tensors naturals sized_tensors product_sums 3 made two_tensors)
    ≡ some 2
unfolding make_subscript evaluate tensors sized_tensors product_sums two_tensors start rounds
    get_operands_label_set get_label_poss_in_operands remove_label
evaluate-a_b_b = refl
