-- ===== src/Context/Keys.antt =====
-- Slicing keys, as the comparison of keys that a single entry node answers by.
use hypertrie.Common.{
  ℕ, zero, suc, ◌+◌, ◌≡◌, inl, inr, refl, ap, sym, ◌∙◌, [], ◌∷◌, false, some, none, length, get_or,
  list_eq, list_eq_iff, bool_ext, Bool-cases,
}
use hypertrie.Key.{RawKey}
use hypertrie.Key.Slice.{RawSliceKey, slice}
use hypertrie.Key.Merge.{insert_at, merge, IsAscending}
use hypertrie.Key.Merge.Slice.{slice_sound, slice-merge_iff}
use hypertrie.Trait.{Trait}
use hypertrie.Bits.{test_bit}
use hypertrie.Identifier.{tag_pos}
use hypertrie.Context.Rep.{IsTaggable}

-- Slicing a key and comparing with the rest is comparing the key with the rest filled in.
pub slice-list_eq :
    (fs : RawSliceKey) (key rest k : RawKey)
    → IsAscending 0 (length key) fs
    → length k + length fs ≡ length key
    → slice fs key ≡ some rest
    → list_eq key (merge fs k) ≡ list_eq rest k
slice-list_eq fs key rest k a l run =
    bool_ext _ _
      (λ same.
        let again =
          (slice-merge_iff fs key k a l).1 (sym ((list_eq_iff key (merge fs k)).0 same)) in
        (list_eq_iff rest k).1 (some_inj (sym run ∙ again)))
      (λ same.
        (list_eq_iff key (merge fs k)).1
          (sym (slice_sound fs key rest a run) ∙ ap (merge fs) ((list_eq_iff rest k).0 same)))
  where
    some_inj : {x y : RawKey} → some x ≡ some y → x ≡ y
    some_inj e = cc

pub slice-list_eq-none :
    (fs : RawSliceKey) (key k : RawKey)
    → IsAscending 0 (length key) fs
    → length k + length fs ≡ length key
    → slice fs key ≡ none
    → list_eq key (merge fs k) ≡ false
slice-list_eq-none fs key k a l run = elim (Bool-cases (list_eq key (merge fs k))) [
  | inl same ↦
      let again = (slice-merge_iff fs key k a l).1 (sym ((list_eq_iff key (merge fs k)).0 same)) in
      cc
  | inr other ↦ other
]

-- The parts of a key are among those of the key with more parts filled in.
get_or-insert_at_from :
    (p a i : ℕ) (xs : RawKey) → (j : ℕ) × (get_or (insert_at p a xs) j 0 ≡ get_or xs i 0)
get_or-insert_at_from zero a i xs = (suc i, refl)
get_or-insert_at_from (suc p) a i [] = (suc i, refl)
get_or-insert_at_from (suc p) a zero (x ∷ xs) = (0, refl)
get_or-insert_at_from (suc p) a (suc i) (x ∷ xs) =
    let (j, e) = get_or-insert_at_from p a i xs in (suc j, e)

pub IsTaggable-merge :
    (t : Trait) (fs : RawSliceKey) (xs : RawKey) → IsTaggable t (merge fs xs) → IsTaggable t xs
IsTaggable-merge t [] xs g i b = g i b
IsTaggable-merge t (f ∷ fs) xs g i b =
    let (j, e) = get_or-insert_at_from f.pos f.key_part i xs in
    ap (test_bit (tag_pos t)) (sym e) ∙ IsTaggable-merge t fs (insert_at f.pos f.key_part xs) g j b
