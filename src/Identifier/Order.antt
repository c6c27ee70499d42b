-- ===== src/Identifier/Order.antt =====
-- The identifier does not depend on the order in which the entries come.
use mathlib.Core.List.{Perm, Permᴰ}
use mathlib.Core.Path.{ap₂}
use mathlib.Core.Logic.{∥∥₁_elim}
use native.Mathlib.Nat.{ℕ_set}
use hypertrie.Common.{
  ℕ, suc, ◌≡◌, refl, arith, ap, ◌∙◌, sym, List, [], ◌∷◌, length, Bool-cases, inl, inr,
}
use hypertrie.Trait.{Trait, SingleEntry, Hash, IsInvertible}
use hypertrie.Identifier.{in_place, encode_single_entry, of_entries}
use hypertrie.Identifier.Total.{total, of_entries-one, of_entries-many}

-- The encoding of the only entry, where there is one.
single : Trait → Hash → ℕ → List SingleEntry → ℕ
single t h depth (e ∷ []) = encode_single_entry t h depth e
single t h depth es = 0

module _ (t : Trait) (h : Hash) (inv : IsInvertible h) (depth : ℕ) where
  total-perm : {xs ys : List SingleEntry} → Permᴰ xs ys → total h xs ≡ total h ys
  unfolding total
  total-perm Permᴰ.nil = refl
  total-perm (Permᴰ.cons {l₁} {l₂} e p) =
      ap (λ a. h.invertible_combine (h.entry_hash a) (total h l₁)) e
      ∙ ap (h.invertible_combine (h.entry_hash _)) (total-perm p)
  total-perm (Permᴰ.swap {a} {b} {a'} {b'} {l} e e') =
      ap₂
        (λ x y.
          h.invertible_combine (h.entry_hash x) (h.invertible_combine (h.entry_hash y) (total h l)))
        e e'
      ∙ sym (inv.assoc (h.entry_hash b') (h.entry_hash a') (total h l))
      ∙ ap (λ z. h.invertible_combine z (total h l)) (inv.comm (h.entry_hash b') (h.entry_hash a'))
      ∙ inv.assoc (h.entry_hash a') (h.entry_hash b') (total h l)
  total-perm (Permᴰ.trans p q) = total-perm p ∙ total-perm q

  length-perm : {xs ys : List SingleEntry} → Permᴰ xs ys → length xs ≡ length ys
  length-perm Permᴰ.nil = refl
  length-perm (Permᴰ.cons e p) = ap suc (length-perm p)
  length-perm (Permᴰ.swap e e') = refl
  length-perm (Permᴰ.trans p q) = length-perm p ∙ length-perm q

  single-cons :
      (a b : SingleEntry) (xs ys : List SingleEntry)
      → a ≡ b
      → length xs ≡ length ys
      → single t h depth (a ∷ xs) ≡ single t h depth (b ∷ ys)
  unfolding single
  single-cons a b [] [] e l = ap (encode_single_entry t h depth) e
  single-cons a b [] (y ∷ ys) e l = absurd (omega arith)
  single-cons a b (x ∷ xs) [] e l = absurd (omega arith)
  single-cons a b (x ∷ xs) (y ∷ ys) e l = refl

  single-perm : {xs ys : List SingleEntry} → Permᴰ xs ys → single t h depth xs ≡ single t h depth ys
  single-perm Permᴰ.nil = refl
  single-perm (Permᴰ.cons e p) = single-cons _ _ _ _ e (length-perm p)
  single-perm (Permᴰ.swap e e') = unfold single in refl
  single-perm (Permᴰ.trans p q) = single-perm p ∙ single-perm q

  of_entries-parts :
      (xs ys : List SingleEntry)
      → length xs ≡ length ys
      → total h xs ≡ total h ys
      → single t h depth xs ≡ single t h depth ys
      → of_entries t h depth xs ≡ of_entries t h depth ys
  of_entries-parts [] [] l tot s = refl
  of_entries-parts [] (y ∷ ys) l tot s = absurd (omega arith)
  of_entries-parts (x ∷ xs) [] l tot s = absurd (omega arith)
  of_entries-parts (x ∷ []) (y ∷ y' ∷ ys) l tot s = absurd (omega arith)
  of_entries-parts (x ∷ x' ∷ xs) (y ∷ []) l tot s = absurd (omega arith)
  of_entries-parts (x ∷ []) (y ∷ []) l tot s = elim (Bool-cases (in_place t depth)) [
    | inl inside ↦ unfold of_entries single in rw inside s
    | inr outside ↦
        rw (of_entries-one t h inv depth x outside, of_entries-one t h inv depth y outside, tot)
  ]
  of_entries-parts (x ∷ x' ∷ xs) (y ∷ y' ∷ ys) l tot s =
      rw (of_entries-many t h inv depth x x' xs, of_entries-many t h inv depth y y' ys, tot)

  -- For an invertible hash, lists of entries that are permutations of each other have the same
  -- identifier.
  pub of_entries-perm :
      (xs ys : List SingleEntry) → Perm xs ys → of_entries t h depth xs ≡ of_entries t h depth ys
  of_entries-perm xs ys p =
      ∥∥₁_elim p (ℕ_set _ _)
        (λ q. of_entries-parts xs ys (length-perm q) (total-perm q) (single-perm q))
