-- ===== src/Identifier.antt =====
-- Node identifiers: libs/hypertrie/src/dice/hypertrie/internal/raw/node/Identifier.hpp. An
-- identifier is its hash, a 64-bit word with a tag bit that tells single entry nodes (SEN) from
-- full nodes (FN). A trait, the hash functions and the depth are section parameters, as they are
-- template parameters of the source.
pub mod Tag
pub mod Total
pub mod Union
pub mod Entries
pub mod Order
use hypertrie.Common.{
  ℕ, zero, suc, ◌+◌, List, [], ◌∷◌, Bool, true, false, not, ◌&&◌, ◌==◌, if◌then◌else◌, get_or,
  Option, none, some,
}
use hypertrie.Trait.{Trait, SingleEntry, Hash, bool_valued_and_taggable}
use hypertrie.Bits.{test_bit, set_bit, clear_bit}

abbrev pub RawIdentifier : Type 0
RawIdentifier = ℕ

-- `htt_t::key_part_tagging_bit` where key parts are taggable, and 63 otherwise.
unfoldable pub tag_pos : Trait → ℕ
tag_pos t = elim t.key_part_tagging_bit [ none ↦ 63 | some bit ↦ bit ]

-- `size_t(0) & ~(1UL << tag_pos)`
abbrev pub seed : ℕ
seed = 0

unfoldable pub is_empty : RawIdentifier → Bool
is_empty id = id == seed

unfoldable pub is_sen : Trait → RawIdentifier → Bool
is_sen t id = not (is_empty id) && test_bit (tag_pos t) id

unfoldable pub is_fn : Trait → RawIdentifier → Bool
is_fn t id = not (is_empty id) && not (test_bit (tag_pos t) id)

unfoldable pub tag_as_sen : Trait → ℕ → ℕ
tag_as_sen t hash = set_bit (tag_pos t) hash

unfoldable pub tag_as_fn : Trait → ℕ → ℕ
tag_as_fn t hash = clear_bit (tag_pos t) hash

-- `in_place_node`
unfoldable pub in_place : Trait → ℕ → Bool
in_place t depth = bool_valued_and_taggable t && depth == 1

module _ (t : Trait) (h : Hash) (depth : ℕ) where
  unfoldable pub hash_and_combine : SingleEntry → ℕ → ℕ
  hash_and_combine entry from = h.invertible_combine from (h.entry_hash entry)

  -- `unsafe_copy_cast` reads a key part as the word that it is.
  unfoldable pub encode_single_entry : SingleEntry → ℕ
  encode_single_entry entry =
      if in_place t depth
      then tag_as_sen t (get_or entry.key 0 0)
      else tag_as_sen t (hash_and_combine entry seed)

  unfoldable pub hash_loop : ℕ → List SingleEntry → ℕ
  hash_loop hash [] = hash
  hash_loop hash (entry ∷ entries) = hash_loop (hash_and_combine entry hash) entries

  -- `hash_iterable`, the constructor from entries.
  unfoldable pub of_entries : List SingleEntry → RawIdentifier
  unfolding hash_loop
  of_entries [] = seed
  of_entries (entry ∷ []) =
      if in_place t depth
      then encode_single_entry entry
      else tag_as_sen t (hash_loop seed (entry ∷ []))
  of_entries (entry ∷ other ∷ entries) = tag_as_fn t (hash_loop seed (entry ∷ other ∷ entries))

  -- `get_entry`, of identifiers that hold their entry in place.
  unfoldable pub get_entry : RawIdentifier → SingleEntry
  get_entry id = record { key = tag_as_fn t id ∷ []; value = 1 }

  -- The hash that a part of `combine` brings in: of an in-place entry, its hash.
  unfoldable pub combinable : RawIdentifier → ℕ
  combinable id =
      if in_place t depth && is_sen t id then hash_and_combine (get_entry id) seed else id

  unfoldable pub combine : RawIdentifier → RawIdentifier → Bool → RawIdentifier
  unfolding combinable
  combine id other becomes_sen =
      let combined =
        h.invertible_combine (h.invertible_combine seed (combinable id)) (combinable other) in
      if is_empty id
      then other
      else if is_empty other
      then id
      else if becomes_sen
      then tag_as_sen t combined
      else tag_as_fn t combined

  unfoldable pub add_entry : RawIdentifier → SingleEntry → RawIdentifier
  add_entry id entry =
      if is_empty id
      then encode_single_entry entry
      else if is_sen t id && in_place t depth
      then tag_as_fn t (hash_and_combine (get_entry id) (hash_and_combine entry seed))
      else tag_as_fn t (hash_and_combine entry id)

  unfoldable pub remove_entry : RawIdentifier → SingleEntry → Bool → RawIdentifier
  remove_entry id entry becomes_sen =
      let hash = hash_and_combine entry id in
      if becomes_sen then tag_as_sen t hash else tag_as_fn t hash

  unfoldable pub change_value : RawIdentifier → SingleEntry → ℕ → RawIdentifier
  change_value id old_entry new_value =
      let hash =
        hash_and_combine old_entry (hash_and_combine (record old_entry { value = new_value }) id) in
      if is_sen t id then tag_as_sen t hash else tag_as_fn t hash

unfoldable pub retag_as_sen : Trait → RawIdentifier → RawIdentifier
retag_as_sen t id = tag_as_sen t id
