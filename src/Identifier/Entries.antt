-- ===== src/Identifier/Entries.antt =====
-- Adding, removing and changing one entry changes an identifier to that of the resulting entries.
use hypertrie.Common.{
  ℕ, ◌≡◌, ◌≢◌, refl, arith, false, ◌∙◌, sym, ap, List, [], ◌∷◌, ◌&&◌, Bool-cases, inl, inr, length,
  ◌==◌, and_comm,
}
use hypertrie.Trait.{Trait, SingleEntry, Hash, IsInvertible}
use hypertrie.Identifier.{
  RawIdentifier, is_empty, is_sen, tag_as_fn, in_place, hash_and_combine, encode_single_entry,
  hash_loop, of_entries, get_entry, combinable, add_entry, remove_entry, change_value,
}
use hypertrie.Identifier.Tag.{
  is_sen-tag_as_sen, is_sen-tag_as_fn, fn-sen, fn-fn, sen_congr, fn-combine,
}
use hypertrie.Identifier.Total.{
  AreStorable, total, of_entries-many, of_entries-one, combinable-of_entries,
}

module _ (t : Trait) (h : Hash) (inv : IsInvertible h) (depth : ℕ) where
  -- `add_entry` adds the entry's hash to what the identifier stands for.
  add_entry-total :
      (id : RawIdentifier) (e : SingleEntry) (x : ℕ)
      → is_empty id ≡ false
      → tag_as_fn t (combinable t h depth id) ≡ tag_as_fn t x
      → add_entry t h depth id e ≡ tag_as_fn t (h.invertible_combine (h.entry_hash e) x)
  add_entry-total id e x n c = elim (Bool-cases (is_sen t id && in_place t depth)) [
    | inl both ↦
        let inner = h.entry_hash (get_entry t h depth id) in
        let here : combinable t h depth id ≡ inner =
          unfold combinable hash_and_combine in
          rw (and_comm (in_place t depth) (is_sen t id), both) (inv.zero_left inner) in
        let opened : add_entry t h depth id e
            ≡ tag_as_fn t (h.invertible_combine (h.invertible_combine 0 (h.entry_hash e)) inner) =
          unfold add_entry hash_and_combine in rw (n, both) in
        opened
        ∙ ap (λ z. tag_as_fn t (h.invertible_combine z inner)) (inv.zero_left (h.entry_hash e))
        ∙ fn-combine t h inv (h.entry_hash e) inner
        ∙ ap (h.invertible_combine (tag_as_fn t (h.entry_hash e))) (ap (tag_as_fn t) (sym here) ∙ c)
        ∙ sym (fn-combine t h inv (h.entry_hash e) x)
    | inr one ↦
        let here : combinable t h depth id ≡ id =
          unfold combinable in rw (and_comm (in_place t depth) (is_sen t id), one) in
        let opened : add_entry t h depth id e
            ≡ tag_as_fn t (h.invertible_combine id (h.entry_hash e)) =
          unfold add_entry hash_and_combine in rw (n, one) in
        opened
        ∙ ap (tag_as_fn t) (inv.comm id (h.entry_hash e))
        ∙ fn-combine t h inv (h.entry_hash e) id
        ∙ ap (h.invertible_combine (tag_as_fn t (h.entry_hash e))) (ap (tag_as_fn t) (sym here) ∙ c)
        ∙ sym (fn-combine t h inv (h.entry_hash e) x)
  ]

  -- For storable entries and an invertible hash: adding an entry to the identifier of entries
  -- gives the identifier of all of them, where the identifier of at least one entry is not the
  -- empty one.
  pub add_entry-of_entries :
      (e : SingleEntry) (es : List SingleEntry)
      → AreStorable t depth es
      → (es ≢ [] → is_empty (of_entries t h depth es) ≡ false)
      → add_entry t h depth (of_entries t h depth es) e ≡ of_entries t h depth (e ∷ es)
  unfolding total
  add_entry-of_entries e [] s n =
      unfold add_entry of_entries hash_loop encode_single_entry is_empty in ground arith
  add_entry-of_entries e (x ∷ es) s n =
      add_entry-total (of_entries t h depth (x ∷ es)) e (total h (x ∷ es)) (n (λ p. cc))
        (combinable-of_entries t h inv depth (x ∷ es) s)
      ∙ sym (of_entries-many t h inv depth e x es)

  -- Combining the hash of an entry in a second time takes the entry out.
  remove-total :
      (a : ℕ) (e : SingleEntry) (es : List SingleEntry)
      → tag_as_fn t a ≡ tag_as_fn t (total h (e ∷ es))
      → tag_as_fn t (h.invertible_combine a (h.entry_hash e)) ≡ tag_as_fn t (total h es)
  unfolding total
  remove-total a e es same =
      let he = h.entry_hash e in
      let rest = total h es in
      fn-combine t h inv a he
      ∙ ap (λ z. h.invertible_combine z (tag_as_fn t he)) same
      ∙ sym (fn-combine t h inv (h.invertible_combine he rest) he)
      ∙ ap (tag_as_fn t) (
          inv.comm (h.invertible_combine he rest) he
          ∙ sym (inv.assoc he he rest)
          ∙ ap (λ z. h.invertible_combine z rest) (inv.self_inverse he)
          ∙ inv.zero_left rest)

  change-total :
      (a : ℕ) (e new : SingleEntry) (es : List SingleEntry)
      → tag_as_fn t a ≡ tag_as_fn t (total h (e ∷ es))
      → tag_as_fn t
          (h.invertible_combine (h.invertible_combine a (h.entry_hash new)) (h.entry_hash e))
        ≡ tag_as_fn t (total h (new ∷ es))
  change-total a e new es same =
      let he = h.entry_hash e in
      let hn = h.entry_hash new in
      ap (tag_as_fn t) (
        inv.assoc a hn he
        ∙ ap (h.invertible_combine a) (inv.comm hn he)
        ∙ sym (inv.assoc a he hn)
        ∙ inv.comm (h.invertible_combine a he) hn)
      ∙ fn-combine t h inv hn (h.invertible_combine a he)
      ∙ ap (h.invertible_combine (tag_as_fn t hn)) (remove-total a e es same)
      ∙ sym (fn-combine t h inv hn (total h es))
      ∙ (unfold total in refl)

  -- For an invertible hash, and entries not stored in place: removing an entry from the identifier
  -- of it and at least one more gives the identifier of the rest, with the flag set exactly where
  -- one entry is left.
  pub remove_entry-of_entries :
      (e x : SingleEntry) (es : List SingleEntry)
      → in_place t depth ≡ false
      → remove_entry t h depth (of_entries t h depth (e ∷ x ∷ es)) e (length (x ∷ es) == 1)
        ≡ of_entries t h depth (x ∷ es)
  unfolding remove_entry hash_and_combine
  remove_entry-of_entries e x [] out =
      rw (of_entries-many t h inv depth e x [], of_entries-one t h inv depth x out)
        (sen_congr t _ _ (remove-total _ e (x ∷ []) (fn-fn t _)))
  remove_entry-of_entries e x (y ∷ es) out =
      let many : (length (x ∷ y ∷ es) == 1) ≡ false = ground arith in
      rw (many, of_entries-many t h inv depth e x (y ∷ es), of_entries-many t h inv depth x y es)
        (remove-total _ e (x ∷ y ∷ es) (fn-fn t _))

  -- For an invertible hash, and entries not stored in place: changing the value of an entry in an
  -- identifier gives the identifier of the entries with the changed one.
  pub change_value-of_entries :
      (e : SingleEntry) (v : ℕ) (es : List SingleEntry)
      → in_place t depth ≡ false
      → change_value t h depth (of_entries t h depth (e ∷ es)) e v
        ≡ of_entries t h depth (record e { value = v } ∷ es)
  unfolding change_value hash_and_combine
  change_value-of_entries e v [] out =
      let new : SingleEntry = record e { value = v } in
      rw
        (
          of_entries-one t h inv depth e out,
          of_entries-one t h inv depth new out,
          is_sen-tag_as_sen t (total h (e ∷ [])),
        )
        (sen_congr t _ _ (change-total _ e new [] (fn-sen t _)))
  change_value-of_entries e v (x ∷ es) out =
      let new : SingleEntry = record e { value = v } in
      rw
        (
          of_entries-many t h inv depth e x es,
          of_entries-many t h inv depth new x es,
          is_sen-tag_as_fn t (total h (e ∷ x ∷ es)),
        )
        (change-total _ e new (x ∷ es) (fn-fn t _))
