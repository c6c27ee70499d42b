-- ===== src/Context/Slice.antt =====
-- Slicing a single entry node gives a node for what is left of its entry.
use hypertrie.Common.{
  ℕ, zero, suc, ◌+◌, ◌-◌, ◌<◌, ◌≡◌, inl, inr, refl, arith, ap, sym, ◌∙◌, [], ◌∷◌, true, false, some,
  if◌then◌else◌, ◌==◌, length, get_or, list_eq, Bool-cases, Option-cases, subst,
}
use hypertrie.Key.{RawKey}
use hypertrie.Key.Slice.{RawSliceKey, slice}
use hypertrie.Key.Merge.{merge, length-merge, IsAscending}
use hypertrie.Key.Merge.Slice.{slice_sound}
use hypertrie.Key.Merge.SubkeyI.{no_value}
use hypertrie.Trait.{Trait, Hash, SingleEntry, bool_valued_and_taggable}
use hypertrie.Bits.{test_bit}
use hypertrie.Identifier.{
  is_empty, is_sen, in_place, tag_pos, tag_as_sen, get_entry, hash_and_combine, encode_single_entry,
  seed,
}
use hypertrie.Identifier.Tag.{is_sen-tag_as_sen, fn-sen, fn_self}
use hypertrie.Node.{SingleEntryNode, entry_value}
use hypertrie.Storage.{NodeStorage, NodePtr, NodeContainer, no_node}
use hypertrie.Context.{
  SliceResult, no_result, make_with_provided_alloc, make_sen_with_stl_alloc, sliced_entry,
  slice_sen,
}
use hypertrie.Context.Rep.{IsTaggable, Small, absent, stored, inline}
use hypertrie.Context.Get.{not_empty_of_sen}
use hypertrie.Context.Keys.{slice-list_eq, slice-list_eq-none, IsTaggable-merge}
use hypertrie.Context.RepLaws.{Small-congr}

list_eq-one :
    (xs ys : RawKey)
    → length xs ≡ 1
    → length ys ≡ 1
    → list_eq xs ys ≡ get_or xs 0 0 == get_or ys 0 0
list_eq-one (x ∷ []) (y ∷ []) l m = ground arith
list_eq-one [] ys l m = absurd (omega arith)
list_eq-one (x ∷ []) [] l m = absurd (omega arith)
list_eq-one (x ∷ []) (y ∷ y' ∷ ys) l m = absurd (omega arith)
list_eq-one (x ∷ x' ∷ xs) ys l m = absurd (omega arith)

pub pos-lt :
    (i low high : ℕ) (fs : RawSliceKey)
    → IsAscending low high fs
    → i < length fs
    → (get_or fs i no_value).pos < high
pos-lt i low high [] a lt = absurd (omega arith)
pos-lt zero low high (f ∷ fs) a lt = a.1
pos-lt (suc i) low high (f ∷ fs) a lt = pos-lt i (suc f.pos) high fs a.2 (omega arith)

pub in_place-one :
    (t : Trait) (d : ℕ) → in_place t d ≡ true → (d ≡ 1) × (bool_valued_and_taggable t ≡ true)
unfolding in_place
in_place-one t d e = ground arith

bool_of_taggable : (t : Trait) → bool_valued_and_taggable t ≡ true → t.is_bool_valued ≡ true
unfolding bool_valued_and_taggable
bool_of_taggable t e = ground arith

module _ (t : Trait) (h : Hash) (s : NodeStorage) where
  sliced_entry-inside :
      (rd : ℕ) (key : RawKey) (e : SingleEntry)
      → in_place t rd ≡ true
      → (sliced_entry t h s rd key e).container
        ≡ record { identifier = tag_as_sen t (get_or key 0 0); node_ptr = NodePtr.null }
  unfolding sliced_entry make_with_provided_alloc encode_single_entry
  sliced_entry-inside rd key e inside = rw inside

  sliced_entry-outside :
      (rd : ℕ) (key : RawKey) (e : SingleEntry)
      → in_place t rd ≡ false
      → let e' : SingleEntry = record { key = key; value = entry_value t e } in
        (sliced_entry t h s rd key e).container ≡ record {
          identifier = tag_as_sen t (hash_and_combine t h rd e' seed);
          node_ptr = NodePtr.single (record { ref_count = 0; entry = e' });
        }
  unfolding sliced_entry make_sen_with_stl_alloc encode_single_entry
  sliced_entry-outside rd key e outside = rw outside

  get_entry-part :
      (rd : ℕ) (x : ℕ)
      → test_bit (tag_pos t) x ≡ false
      → get_or (get_entry t h rd (tag_as_sen t x)).key 0 0 ≡ x
  unfolding get_entry
  get_entry-part rd x e = fn-sen t x ∙ fn_self t x e

  -- The entry that is left stands for what it says of the keys of its depth.
  sliced_entry-Small :
      (rd : ℕ) (key : RawKey) (e : SingleEntry)
      → length key ≡ rd
      → IsTaggable t key
      → Small t h s rd
          (sliced_entry t h s rd key e).container
          (λ k. if list_eq key k then entry_value t e else 0)
  sliced_entry-Small rd key e l g = elim (Bool-cases (in_place t rd)) [
    | inl inside ↦
        let (one, taggable) = in_place-one t rd inside in
        let value : entry_value t e ≡ 1 = unfold entry_value in rw (bool_of_taggable t taggable) in
        rw (sliced_entry-inside rd key e inside) (
          inline (is_sen-tag_as_sen t (get_or key 0 0)) inside (λ k m. rw (
            value,
            list_eq-one key k (l ∙ one) (m ∙ one),
            get_entry-part rd (get_or key 0 0) (g 0 taggable),
          )))
    | inr outside ↦
        let e' : SingleEntry = record { key = key; value = entry_value t e } in
        let kept : entry_value t e' ≡ entry_value t e = unfold entry_value in ground arith in
        rw (sliced_entry-outside rd key e outside) (
          stored (record { ref_count = 0; entry = e' })
            (is_sen-tag_as_sen t (hash_and_combine t h rd e' seed)) outside refl l g
            (λ k m. rw kept))
  ]

  pub absent_slice :
      (rd : ℕ) (f : RawKey → ℕ)
      → ((k : RawKey) → length k ≡ rd → f k ≡ 0)
      → Small t h s rd no_node f
  absent_slice rd f z = absent (unfold is_empty in refl) z

  pub slice_sen-stored :
      (d rd : ℕ) (c : NodeContainer) (n : SingleEntryNode) (fs : RawSliceKey)
      → is_sen t c.identifier ≡ true
      → c.node_ptr ≡ NodePtr.single n
      → length n.entry.key ≡ d
      → IsTaggable t n.entry.key
      → IsAscending 0 d fs
      → rd + length fs ≡ d
      → (r : SliceResult) × (slice_sen t h s d c fs ≡ some r)
        × Small t h s rd r.container
            (λ k. if list_eq n.entry.key (merge fs k) then entry_value t n.entry else 0)
  slice_sen-stored d rd c n fs q p w g a l =
      let asc = subst (λ z. IsAscending 0 z fs) (sym w) a in
      elim (Option-cases (slice fs n.entry.key)) [
        | inl nothing ↦ (
          no_result,
          (unfold slice_sen in rw (not_empty_of_sen t h s c.identifier q, p, nothing)),
          absent_slice rd _
              (λ k m. rw (slice-list_eq-none fs n.entry.key k asc (omega arith) nothing)),
        )
        | inr (key, run) ↦
            let whole = slice_sound fs n.entry.key key asc run in
            let len = length-merge fs key in
            let short : length key ≡ rd = omega (arith, ap length whole) in
            let tg = IsTaggable-merge t fs key (subst (IsTaggable t) (sym whole) g) in
            let e : d - length fs ≡ rd = omega arith in
            (
              sliced_entry t h s rd key n.entry,
              (unfold slice_sen in rw (not_empty_of_sen t h s c.identifier q, p, run, e)),
              Small-congr t h s rd _ _ _
                  (λ k m. rw (slice-list_eq fs n.entry.key key k asc (omega arith) run))
                  (sliced_entry-Small rd key n.entry short tg),
            )
      ]
