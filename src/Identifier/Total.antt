-- ===== src/Identifier/Total.antt =====
-- What an identifier of entries holds, up to its tag: the combined hashes of the entries.
use hypertrie.Common.{
  ℕ, ◌≡◌, arith, true, false, ◌∙◌, sym, ap, List, [], ◌∷◌, ◌++◌, get_or, Bool-cases, inl, inr,
}
use hypertrie.Trait.{Trait, SingleEntry, Hash, IsInvertible}
use hypertrie.Bits.{test_bit}
use hypertrie.Identifier.{
  is_empty, is_sen, tag_pos, tag_as_sen, tag_as_fn, in_place, hash_and_combine, encode_single_entry,
  hash_loop, of_entries, get_entry, combinable,
}
use hypertrie.Identifier.Tag.{is_sen-tag_as_sen, is_sen-tag_as_fn, fn-sen, fn-fn, fn_self}

-- Where single entries are stored in place, an entry is one key part with its tag bit unset. The
-- source asserts this.
abbrev pub IsStorable : Trait → ℕ → SingleEntry → Type 0
IsStorable t depth e =
    in_place t depth ≡ true
    → (k : ℕ) × (e ≡ record { key = k ∷ []; value = 1 }) × (test_bit (tag_pos t) k ≡ false)

abbrev pub AreStorable : Trait → ℕ → List SingleEntry → Type 0
AreStorable t depth [] = Unit {0}
AreStorable t depth (e ∷ es) = IsStorable t depth e × AreStorable t depth es

-- The untagged hash of entries, in no order.
unfoldable pub total : Hash → List SingleEntry → ℕ
total h [] = 0
total h (e ∷ es) = h.invertible_combine (h.entry_hash e) (total h es)

module _ (t : Trait) (h : Hash) (inv : IsInvertible h) (depth : ℕ) where
  pub comb-zero : (a : ℕ) → h.invertible_combine a 0 ≡ a
  comb-zero a = inv.comm a 0 ∙ inv.zero_left a

  pub hash_loop-total :
      (acc : ℕ) (es : List SingleEntry)
      → hash_loop t h depth acc es ≡ h.invertible_combine acc (total h es)
  unfolding hash_loop hash_and_combine total
  hash_loop-total acc [] = sym (comb-zero acc)
  hash_loop-total acc (e ∷ es) =
      hash_loop-total (h.invertible_combine acc (h.entry_hash e)) es
      ∙ inv.assoc acc (h.entry_hash e) (total h es)

  pub total-append :
      (xs ys : List SingleEntry)
      → total h (xs ++ ys) ≡ h.invertible_combine (total h xs) (total h ys)
  unfolding total
  total-append [] ys = sym (inv.zero_left (total h ys))
  total-append (x ∷ xs) ys =
      ap (h.invertible_combine (h.entry_hash x)) (total-append xs ys)
      ∙ sym (inv.assoc (h.entry_hash x) (total h xs) (total h ys))

  pub of_entries-many :
      (e e' : SingleEntry) (es : List SingleEntry)
      → of_entries t h depth (e ∷ e' ∷ es) ≡ tag_as_fn t (total h (e ∷ e' ∷ es))
  unfolding of_entries
  of_entries-many e e' es =
      ap (tag_as_fn t) (hash_loop-total 0 (e ∷ e' ∷ es) ∙ inv.zero_left (total h (e ∷ e' ∷ es)))

  pub of_entries-one :
      (e : SingleEntry)
      → in_place t depth ≡ false
      → of_entries t h depth (e ∷ []) ≡ tag_as_sen t (total h (e ∷ []))
  unfolding of_entries
  of_entries-one e out =
      rw out (ap (tag_as_sen t) (hash_loop-total 0 (e ∷ []) ∙ inv.zero_left (total h (e ∷ []))))

  -- An in-place entry is read back.
  pub get_entry-encode :
      (e : SingleEntry)
      → in_place t depth ≡ true
      → IsStorable t depth e
      → get_entry t h depth (encode_single_entry t h depth e) ≡ e
  unfolding get_entry encode_single_entry
  get_entry-encode e inside stored =
      let (k, shape, untagged) = stored inside in
      rw (inside, shape, fn-sen t k, fn_self t k untagged)

  combinable-fn : (a : ℕ) → combinable t h depth (tag_as_fn t a) ≡ tag_as_fn t a
  unfolding combinable
  combinable-fn a = rw (is_sen-tag_as_fn t a) (ground arith)

  combinable-outside : (a : ℕ) → in_place t depth ≡ false → combinable t h depth a ≡ a
  unfolding combinable
  combinable-outside a out = rw out

  combinable-inside :
      (e : SingleEntry)
      → in_place t depth ≡ true
      → IsStorable t depth e
      → combinable t h depth (encode_single_entry t h depth e) ≡ h.entry_hash e
  unfolding combinable
  combinable-inside e inside stored =
      let sen : is_sen t (encode_single_entry t h depth e) ≡ true =
        unfold encode_single_entry in rw inside (is_sen-tag_as_sen t (get_or e.key 0 0)) in
      rw (inside, sen, get_entry-encode e inside stored)
        (unfold hash_and_combine in inv.zero_left (h.entry_hash e))

  -- Up to the tag, an identifier contributes the hash of its entries.
  pub combinable-of_entries :
      (es : List SingleEntry)
      → AreStorable t depth es
      → tag_as_fn t (combinable t h depth (of_entries t h depth es)) ≡ tag_as_fn t (total h es)
  combinable-of_entries [] s =
      let none_there : combinable t h depth 0 ≡ 0 =
        unfold combinable is_sen is_empty in ground arith in
      unfold of_entries total in rw none_there
  combinable-of_entries (e ∷ []) s = elim (Bool-cases (in_place t depth)) [
    | inl inside ↦
        let e₁ : of_entries t h depth (e ∷ []) ≡ encode_single_entry t h depth e =
          unfold of_entries in rw inside in
        ap (tag_as_fn t) (
          ap (combinable t h depth) e₁
          ∙ combinable-inside e inside s.0
          ∙ (unfold total in sym (comb-zero (h.entry_hash e))))
    | inr outside ↦
        rw (combinable-outside (of_entries t h depth (e ∷ [])) outside, of_entries-one e outside)
          (fn-sen t (total h (e ∷ [])))
  ]
  combinable-of_entries (e ∷ e' ∷ es) s =
      rw (of_entries-many e e' es, combinable-fn (total h (e ∷ e' ∷ es)))
        (fn-fn t (total h (e ∷ e' ∷ es)))
