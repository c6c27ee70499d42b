-- ===== src/Product.antt =====
-- `FullCartesianResult` (libs/einsum/src/dice/einsum/internal/operators/CartesianOperator.hpp): the
-- iterator over the combinations of the results of the factors, which writes the keys into the
-- entry that is shared with the caller. The values are 64-bit words.
use hypertrie.Common.{
  Bool, List, [], false, get_or, if◌then◌else◌, length, replicate, set, suc, true, ℕ, ◌%◌, ◌*◌, ◌/◌,
  ◌==◌, ◌^◌, ◌∷◌,
}
pub mod Digits
pub mod Enumeration
pub mod Values

pub record SubEntry : Type 0 where
  pub key : List ℕ
  pub value : ℕ

-- A factor: its entries, and the positions of the result that its keys are written to.
pub record Factor : Type 0 where
  pub sub_result : List SubEntry
  pub result_mapping : List ℕ

abbrev pub no_entry : SubEntry
no_entry = record { key = []; value = 0 }

abbrev pub word : ℕ → ℕ
word n = n % 2 ^ 64

unfoldable pub update_entry_key : List ℕ → List ℕ → List ℕ → List ℕ
update_entry_key [] source_key sink = sink
update_entry_key (pos ∷ original_result_poss) [] sink = sink
update_entry_key (pos ∷ original_result_poss) (part ∷ source_key) sink =
    update_entry_key original_result_poss source_key (set sink pos part)

-- The fields that change.
pub record FullCartesianResult : Type 0 where
  pub entry : List ℕ
  pub value : ℕ
  pub ended : Bool
  pub iter_poss : List ℕ

-- The loop over the factors after the one that moved: their keys are written again.
unfoldable pub rewrite_rest : List Factor → List ℕ → List ℕ → List ℕ
unfolding update_entry_key
rewrite_rest [] iter_poss entry = entry
rewrite_rest (f ∷ factors) [] entry = entry
rewrite_rest (f ∷ factors) (iter_pos ∷ iter_poss) entry =
    rewrite_rest factors iter_poss
      (update_entry_key f.result_mapping (get_or f.sub_result iter_pos no_entry).key entry)

-- `operator++` from one factor on; where all are carried over, it has ended.
unfoldable pub increment_from : List Factor → List ℕ → List ℕ → ℕ → FullCartesianResult
unfolding update_entry_key rewrite_rest
increment_from [] iter_poss entry value = record {
  entry = entry;
  value = value;
  ended = true;
  iter_poss = [];
}
increment_from (f ∷ factors) [] entry value = record {
  entry = entry;
  value = value;
  ended = true;
  iter_poss = [];
}
increment_from (f ∷ factors) (iter_pos ∷ iter_poss) entry value =
    let last_entry = get_or f.sub_result iter_pos no_entry in
    let carry_over = suc iter_pos == length f.sub_result in
    let next_pos = if carry_over then 0 else suc iter_pos in
    let current_entry = get_or f.sub_result next_pos no_entry in
    let entry₁ = update_entry_key f.result_mapping current_entry.key entry in
    let value₁ = word (value * current_entry.value) / last_entry.value in
    let carried = increment_from factors iter_poss entry₁ value₁ in
    if carry_over then record carried { iter_poss = next_pos ∷ carried.iter_poss } else record {
      entry = rewrite_rest factors iter_poss entry₁;
      value = value₁;
      ended = false;
      iter_poss = next_pos ∷ iter_poss;
    }

unfoldable pub increment : List Factor → FullCartesianResult → FullCartesianResult
unfolding increment_from
increment factors r = increment_from factors r.iter_poss r.entry r.value

-- The loop of `restart`.
unfoldable pub restart_from : List Factor → List ℕ → ℕ → List ℕ × ℕ
unfolding update_entry_key
restart_from [] entry value = (entry, value)
restart_from (f ∷ factors) entry value =
    let current_entry = get_or f.sub_result 0 no_entry in
    restart_from factors (update_entry_key f.result_mapping current_entry.key entry)
      (word (value * current_entry.value))

unfoldable pub restart : List Factor → List ℕ → FullCartesianResult
unfolding restart_from
restart factors entry =
    let started = restart_from factors entry 1 in
    record {
      entry = started.0;
      value = started.1;
      ended = false;
      iter_poss = replicate (length factors) 0;
    }
