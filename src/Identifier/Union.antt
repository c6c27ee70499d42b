-- ===== src/Identifier/Union.antt =====
-- Identifiers stand for sets of entries: `combine` is their union, and takes entries away.
use hypertrie.Common.{
  ℕ, ◌≡◌, refl, arith, false, ◌∙◌, sym, ap, List, [], ◌∷◌, ◌++◌, if◌then◌else◌, length, ◌≤◌,
  length-append, ◌==◌,
}
use mathlib.Core.Path.{ap₂}
use hypertrie.Trait.{Trait, SingleEntry, Hash, IsInvertible}
use hypertrie.Identifier.{
  RawIdentifier, is_empty, tag_as_fn, in_place, of_entries, combinable, combine, retag_as_sen,
}
use hypertrie.Identifier.Tag.{sen-fn, fn-zero, fn-combine}
use hypertrie.Identifier.Total.{
  AreStorable, total, total-append, of_entries-many, of_entries-one, combinable-of_entries,
}

module _ (t : Trait) (h : Hash) (inv : IsInvertible h) (depth : ℕ) where
  -- `combine` of two identifiers that stand for something, up to its tag.
  combine-totals :
      (a b : RawIdentifier) (x y : ℕ)
      → is_empty a ≡ false
      → is_empty b ≡ false
      → tag_as_fn t (combinable t h depth a) ≡ tag_as_fn t x
      → tag_as_fn t (combinable t h depth b) ≡ tag_as_fn t y
      → combine t h depth a b false ≡ tag_as_fn t (h.invertible_combine x y)
  combine-totals a b x y na nb ea eb =
      let opened : combine t h depth a b false
          ≡ tag_as_fn t (
              h.invertible_combine (h.invertible_combine 0 (combinable t h depth a))
                (combinable t h depth b)) =
        unfold combine in rw (na, nb) in
      opened
      ∙ ap (λ z. tag_as_fn t (h.invertible_combine z (combinable t h depth b)))
          (inv.zero_left (combinable t h depth a))
      ∙ fn-combine t h inv (combinable t h depth a) (combinable t h depth b)
      ∙ ap₂ h.invertible_combine ea eb
      ∙ sym (fn-combine t h inv x y)

  of_entries-fn :
      (es : List SingleEntry) → 2 ≤ length es → of_entries t h depth es ≡ tag_as_fn t (total h es)
  of_entries-fn [] l = absurd (omega arith)
  of_entries-fn (e ∷ []) l = absurd (omega arith)
  of_entries-fn (e ∷ e' ∷ es) l = of_entries-many t h inv depth e e' es

  length-of-not-empty :
      (es : List SingleEntry) → is_empty (of_entries t h depth es) ≡ false → 1 ≤ length es
  unfolding of_entries is_empty
  length-of-not-empty [] e = cc
  length-of-not-empty (x ∷ es) e = omega arith

  -- For storable entries and an invertible hash: combining the identifiers of `xs` and `ys`, none
  -- of them empty, gives the identifier of `xs ++ ys`.
  pub combine-of_entries :
      (xs ys : List SingleEntry)
      → AreStorable t depth xs
      → AreStorable t depth ys
      → is_empty (of_entries t h depth xs) ≡ false
      → is_empty (of_entries t h depth ys) ≡ false
      → combine t h depth (of_entries t h depth xs) (of_entries t h depth ys) false
        ≡ of_entries t h depth (xs ++ ys)
  combine-of_entries xs ys sx sy nx ny =
      combine-totals _ _ (total h xs) (total h ys) nx ny (combinable-of_entries t h inv depth xs sx)
        (combinable-of_entries t h inv depth ys sy)
      ∙ ap (tag_as_fn t) (sym (total-append t h inv depth xs ys))
      ∙ sym (
          of_entries-fn (xs ++ ys) (
            omega
              (arith, length-append xs ys, length-of-not-empty xs nx, length-of-not-empty ys ny)))

  -- Combining the identifier of some entries of a node with the node's leaves the other entries.
  combine-of_removed :
      (xs ys : List SingleEntry)
      → AreStorable t depth xs
      → AreStorable t depth (xs ++ ys)
      → is_empty (of_entries t h depth xs) ≡ false
      → is_empty (of_entries t h depth (xs ++ ys)) ≡ false
      → combine t h depth (of_entries t h depth xs) (of_entries t h depth (xs ++ ys)) false
        ≡ tag_as_fn t (total h ys)
  combine-of_removed xs ys sx sxy nx nxy =
      combine-totals _ _ (total h xs) (total h (xs ++ ys)) nx nxy
        (combinable-of_entries t h inv depth xs sx)
        (combinable-of_entries t h inv depth (xs ++ ys) sxy)
      ∙ ap (λ z. tag_as_fn t (h.invertible_combine (total h xs) z))
          (total-append t h inv depth xs ys)
      ∙ ap (tag_as_fn t) (
          sym (inv.assoc (total h xs) (total h xs) (total h ys))
          ∙ ap (λ z. h.invertible_combine z (total h ys)) (inv.self_inverse (total h xs))
          ∙ inv.zero_left (total h ys))

  -- For storable entries and an invertible hash: combining the identifier of `xs` with that of `xs
  -- ++ ys` gives the identifier of `ys`, once it is tagged as a SEN if `ys` is one entry. Neither
  -- identifier combined is empty, and one entry that is left is not stored in place.
  pub combine-removes :
      (xs ys : List SingleEntry)
      → AreStorable t depth xs
      → AreStorable t depth (xs ++ ys)
      → is_empty (of_entries t h depth xs) ≡ false
      → is_empty (of_entries t h depth (xs ++ ys)) ≡ false
      → (length ys ≡ 1 → in_place t depth ≡ false)
      → (let target =
            combine t h depth (of_entries t h depth xs) (of_entries t h depth (xs ++ ys)) false in
          if length ys == 1 then retag_as_sen t target else target)
        ≡ of_entries t h depth ys
  combine-removes xs [] sx sxy nx nxy out =
      rw (combine-of_removed xs [] sx sxy nx nxy) (unfold total of_entries in fn-zero t)
  combine-removes xs (y ∷ []) sx sxy nx nxy out =
      rw (combine-of_removed xs (y ∷ []) sx sxy nx nxy, of_entries-one t h inv depth y (out refl))
        (unfold retag_as_sen in sen-fn t (total h (y ∷ [])))
  combine-removes xs (y ∷ y' ∷ ys) sx sxy nx nxy out =
      let many : (length (y ∷ y' ∷ ys) == 1) ≡ false = ground arith in
      rw many (
        combine-of_removed xs (y ∷ y' ∷ ys) sx sxy nx nxy
        ∙ sym (of_entries-many t h inv depth y y' ys))
