-- ===== src/Tests/Identifiers.antt =====
-- Identifiers at concrete inputs.
use hypertrie.Common.{
  ℕ, ◌≡◌, ◌≢◌, refl, [], ◌∷◌, true, false, length, ◌==◌, if◌then◌else◌, sym, ◌∙◌,
}
use mathlib.Core.List.Permᴰ
use hypertrie.Bits.Xor.{xor}
use mathlib.Core.Bool.{false≢true}
use mathlib.Core.List.{Perm}
use hypertrie.Trait.{SingleEntry, bool_valued_and_taggable, taggable_key_part}
use hypertrie.Bits.{test_bit, set_bit, clear_bit}
use hypertrie.Identifier.{
  of_entries, combine, add_entry, remove_entry, change_value, retag_as_sen, in_place, is_empty,
  encode_single_entry, tag_as_fn, tag_as_sen, tag_pos, hash_loop, hash_and_combine,
}
use hypertrie.Identifier.Total.{AreStorable}
use hypertrie.Identifier.Union.{combine-of_entries, combine-removes}
use hypertrie.Identifier.Order.{of_entries-perm}
use hypertrie.Identifier.Entries.{
  add_entry-of_entries, remove_entry-of_entries, change_value-of_entries,
}
use hypertrie.Tests.Sample.{long_trait, tagged_trait, sample_hash, sample_hash-IsInvertible, entry}

-- Depth 1 of a Boolean-valued trait with tags: entries are in place.
abbrev part : ℕ → SingleEntry
part k = record { key = k ∷ []; value = 1 }

tags_free : AreStorable tagged_trait 1 (part 2 ∷ part 3 ∷ [])
unfolding test_bit tag_pos
tags_free = (λ e. (2, refl, refl), (λ e. (3, refl, refl), tt))

not_in_place : in_place long_trait 2 ≡ false
unfolding in_place bool_valued_and_taggable
not_in_place = refl

two_there : is_empty (of_entries tagged_trait sample_hash 1 (part 2 ∷ [])) ≡ false
unfolding is_empty of_entries in_place encode_single_entry tag_as_sen tag_pos set_bit test_bit
    bool_valued_and_taggable taggable_key_part
two_there = refl

three_there : is_empty (of_entries tagged_trait sample_hash 1 (part 3 ∷ [])) ≡ false
unfolding is_empty of_entries in_place encode_single_entry tag_as_sen tag_pos set_bit test_bit
    bool_valued_and_taggable taggable_key_part
three_there = refl

first_there : is_empty (of_entries long_trait sample_hash 2 (entry 1 2 7 ∷ [])) ≡ false
unfolding is_empty of_entries in_place hash_and_combine hash_loop tag_as_sen tag_pos set_bit
    test_bit bool_valued_and_taggable taggable_key_part xor
first_there = refl

both_there : is_empty (of_entries long_trait sample_hash 2 (entry 1 2 7 ∷ entry 1 3 8 ∷ [])) ≡ false
unfolding is_empty of_entries hash_and_combine hash_loop tag_as_fn tag_pos clear_bit test_bit xor
both_there = refl

out_of_place : in_place long_trait 2 ≢ true
out_of_place e = false≢true (sym not_in_place ∙ e)

swapped : Perm (entry 1 2 7 ∷ entry 1 3 8 ∷ []) (entry 1 3 8 ∷ entry 1 2 7 ∷ [])
swapped = ∣ Permᴰ.swap refl refl ∣₁

combine-of_entries_example :
    combine tagged_trait sample_hash 1
      (of_entries tagged_trait sample_hash 1 (part 2 ∷ []))
      (of_entries tagged_trait sample_hash 1 (part 3 ∷ []))
      false
    ≡ of_entries tagged_trait sample_hash 1 (part 2 ∷ part 3 ∷ [])
combine-of_entries_example =
    combine-of_entries tagged_trait sample_hash sample_hash-IsInvertible 1 (part 2 ∷ [])
      (part 3 ∷ []) (tags_free.0, tt) (tags_free.1.0, tt) two_there three_there

combine-removes_example :
    (let target =
        combine long_trait sample_hash 2
          (of_entries long_trait sample_hash 2 (entry 1 2 7 ∷ []))
          (of_entries long_trait sample_hash 2 (entry 1 2 7 ∷ entry 1 3 8 ∷ []))
          false in
      if length (entry 1 3 8 ∷ []) == 1 then retag_as_sen long_trait target else target)
    ≡ of_entries long_trait sample_hash 2 (entry 1 3 8 ∷ [])
combine-removes_example =
    combine-removes long_trait sample_hash sample_hash-IsInvertible 2 (entry 1 2 7 ∷ [])
      (entry 1 3 8 ∷ []) (λ e. absurd (out_of_place e), tt)
      (λ e. absurd (out_of_place e), (λ e. absurd (out_of_place e), tt)) first_there both_there
      (λ e. not_in_place)

add_entry-of_entries_example :
    add_entry tagged_trait sample_hash 1
      (of_entries tagged_trait sample_hash 1 (part 3 ∷ []))
      (part 2)
    ≡ of_entries tagged_trait sample_hash 1 (part 2 ∷ part 3 ∷ [])
add_entry-of_entries_example =
    add_entry-of_entries tagged_trait sample_hash sample_hash-IsInvertible 1 (part 2) (part 3 ∷ [])
      (tags_free.1.0, tt) (λ e. three_there)

remove_entry-of_entries_example :
    remove_entry long_trait sample_hash 2
      (of_entries long_trait sample_hash 2 (entry 1 2 7 ∷ entry 1 3 8 ∷ []))
      (entry 1 2 7)
      true
    ≡ of_entries long_trait sample_hash 2 (entry 1 3 8 ∷ [])
remove_entry-of_entries_example =
    remove_entry-of_entries long_trait sample_hash sample_hash-IsInvertible 2 (entry 1 2 7)
      (entry 1 3 8) [] not_in_place

change_value-of_entries_example :
    change_value long_trait sample_hash 2
      (of_entries long_trait sample_hash 2 (entry 1 2 7 ∷ entry 1 3 8 ∷ []))
      (entry 1 2 7)
      9
    ≡ of_entries long_trait sample_hash 2 (entry 1 2 9 ∷ entry 1 3 8 ∷ [])
change_value-of_entries_example =
    change_value-of_entries long_trait sample_hash sample_hash-IsInvertible 2 (entry 1 2 7) 9
      (entry 1 3 8 ∷ []) not_in_place

of_entries-perm_example :
    of_entries long_trait sample_hash 2 (entry 1 2 7 ∷ entry 1 3 8 ∷ [])
    ≡ of_entries long_trait sample_hash 2 (entry 1 3 8 ∷ entry 1 2 7 ∷ [])
of_entries-perm_example =
    of_entries-perm long_trait sample_hash sample_hash-IsInvertible 2
      (entry 1 2 7 ∷ entry 1 3 8 ∷ []) (entry 1 3 8 ∷ entry 1 2 7 ∷ []) swapped
