-- ===== src/Hypertrie/Slices.antt =====
-- `operator[](SliceKey)` gives the hypertrie that stands for the slice.
use mathlib.Core.Bool.{true≢false}
use hypertrie.Common.{
  Bool-cases, [], ap, arith, false, inl, inr, length, refl, some, subst, sym, ℕ, ℕ-cases, ◌-◌, ◌<◌,
  ◌==◌, ◌∙◌, ◌≡◌, ◌≤◌,
}
use hypertrie.Context.{SliceOutcome, SliceResult, slice_node, slice_rek, slice_sen}
use hypertrie.Context.Rep.{Rep}
use hypertrie.Context.RepLaws.{Rep-congr, Rep-empty}
use hypertrie.Context.SliceRek.{slice_rek-Rep}
use hypertrie.Hypertrie.{
  Hypertrie, Sliced, at, empty_hypertrie, of_lone_result, of_outcome, of_result, slice_at,
}
use hypertrie.Hypertrie.Contents.{
  Holds, IsLone, at-Holds, slice_rek-IsLone, slice_rek-sen, slice_sen-IsLone,
}
use hypertrie.Hypertrie.Fill.{
  count_free-le, fill, fill-free, key_of-fill, length-fill, length-of_slice_key, merge-of_slice_key,
  of_slice_key-IsAscending,
}
use hypertrie.Hypertrie.Results.{
  empty_hypertrie-Holds, of_lone_result-Holds, of_lone_result-depth, of_result-Holds,
  of_result-depth,
}
use hypertrie.Identifier.{is_empty}
use hypertrie.Key.{RawKey}
use hypertrie.Key.Merge.{IsAscending}
use hypertrie.Key.Slice.{SliceKey, count_free, get_fixed_depth, of_slice_key}
use hypertrie.Storage.{NodeStorage}
use hypertrie.Trait.{Hash, Trait}

module _ (t : Trait) (h : Hash) (s : NodeStorage) where
  -- What is asked of a slice: a hypertrie of the free positions that stands for the keys that the
  -- slice key fills, or the value of the key that it gives.
  abbrev pub Agrees : SliceKey → (RawKey → ℕ) → Sliced → Type 0
  Agrees items f (Sliced.trie y) =
      (y.depth ≡ count_free items)
      × Holds t h s y (λ k. f (fill items k))
      × ((k : RawKey) → length k ≡ count_free items → at t h s y k ≡ some (f (fill items k)))
  Agrees items f (Sliced.scalar_value v) = (count_free items ≡ 0) × (v ≡ f (fill items []))

  Agrees-trie :
      (items : SliceKey) (f : RawKey → ℕ) (y : Hypertrie)
      → y.depth ≡ count_free items
      → Holds t h s y (λ k. f (fill items k))
      → Agrees items f (Sliced.trie y)
  Agrees-trie items f y d holds =
      (d, holds, λ k l. at-Holds t h s y (λ k'. f (fill items k')) k holds (l ∙ sym d))

  -- A node of several positions, some of them fixed.
  mixed_slice :
      (x : Hypertrie) (f : RawKey → ℕ) (items : SliceKey)
      → Holds t h s x f
      → length items ≡ x.depth
      → 0 < count_free items
      → count_free items < length items
      → is_empty x.node_container.identifier ≡ false
      → (r : SliceResult) × (slice_rek t h s x.depth x.node_container (of_slice_key items) ≡ some r)
        × Rep t h s (count_free items) r.container (λ k. f (fill items k))
  mixed_slice x f items holds l free fixed there =
      let short : length items ≤ 256 = let b = holds.short in omega (arith, l, b) in
      let counted = length-of_slice_key items in
      let (r, run, rep) =
        slice_rek-Rep t h s x.depth (count_free items) x.node_container f (of_slice_key items)
          holds.short holds.rep there
          (subst (λ d. IsAscending 0 d (of_slice_key items)) l
            (of_slice_key-IsAscending items short))
          (omega (arith, counted, l)) free (omega (arith, counted, fixed)) in
      (
        r,
        run,
        Rep-congr t h s (count_free items) r.container _ _
            (λ k m. ap f (merge-of_slice_key items k short m)) rep,
      )

  slice_node-run :
      (x : Hypertrie) (items : SliceKey) (r : SliceResult)
      → length items ≡ x.depth
      → 0 < count_free items
      → count_free items < length items
      → is_empty x.node_container.identifier ≡ false
      → slice_rek t h s x.depth x.node_container (of_slice_key items) ≡ some r
      → slice_node t h s x.depth x.node_container (of_slice_key items)
        ≡ some (SliceOutcome.result r)
  unfolding slice_node
  slice_node-run x items r l free fixed there run =
      let counted = length-of_slice_key items in
      let some_fixed : (length (of_slice_key items) == 0) ≡ false =
        let ne : 0 < length (of_slice_key items) = omega (arith, counted, fixed) in ground arith in
      let not_all : (length (of_slice_key items) == x.depth) ≡ false =
        let ne : length (of_slice_key items) < x.depth = omega (arith, counted, free, l) in
        ground arith in
      rw (some_fixed, not_all, there, run) refl

  Holds-congr :
      (x : Hypertrie) (f g : RawKey → ℕ)
      → ((k : RawKey) → length k ≡ x.depth → f k ≡ g k)
      → Holds t h s x f
      → Holds t h s x g
  Holds-congr x f g e holds = record {
    deep = holds.deep;
    short = holds.short;
    rep = Rep-congr t h s x.depth x.node_container f g e holds.rep;
    lone = holds.lone;
  }

  slice_sen-run :
      (x : Hypertrie) (items : SliceKey) (r : SliceResult)
      → 0 < x.depth
      → is_empty x.node_container.identifier ≡ false
      → IsLone t x.node_container
      → slice_rek t h s x.depth x.node_container (of_slice_key items) ≡ some r
      → slice_sen t h s x.depth x.node_container (of_slice_key items) ≡ some r
  slice_sen-run x items r deep there (inl gone) run = absurd (true≢false (sym gone ∙ there))
  slice_sen-run x items r deep there (inr q) run = elim (ℕ-cases x.depth) [
    | inl none_of ↦ absurd (omega (arith, deep, none_of))
    | inr (d, e) ↦
        subst (λ n. slice_sen t h s n x.node_container (of_slice_key items) ≡ some r) (sym e)
          (sym (slice_rek-sen t h s d x.node_container (of_slice_key items) q)
            ∙ subst (λ n. slice_rek t h s n x.node_container (of_slice_key items) ≡ some r) e run)
  ]

  slice_at-mixed :
      (x : Hypertrie) (f : RawKey → ℕ) (items : SliceKey)
      → Holds t h s x f
      → length items ≡ x.depth
      → 0 < count_free items
      → count_free items < length items
      → (y : Hypertrie) × (slice_at t h s x items ≡ some (Sliced.trie y))
        × (y.depth ≡ count_free items)
        × Holds t h s y (λ k. f (fill items k))
  unfolding slice_at get_fixed_depth of_outcome
  slice_at-mixed x f items holds l free fixed =
      let some_fixed : (length items - count_free items == 0) ≡ false = ground (arith, fixed) in
      let not_all : (length items - count_free items == x.depth) ≡ false =
        ground (arith, fixed, free, l) in
      let rd : x.depth - (length items - count_free items) ≡ count_free items =
        omega (arith, l, fixed) in
      let inside : count_free items ≤ 256 = let b = holds.short in omega (arith, fixed, l, b) in
      elim (Bool-cases (is_empty x.node_container.identifier)) [
        | inl gone ↦ (
          empty_hypertrie (count_free items),
          rw (some_fixed, not_all, gone, rd) refl,
          (unfold empty_hypertrie in refl),
          empty_hypertrie-Holds t h s (count_free items) _ free inside (λ k m.
              Rep-empty t h s x.depth x.node_container f holds.rep gone (fill items k)
                (length-fill items k m ∙ l)),
        )
        | inr there ↦
            let (r, run, rep) = mixed_slice x f items holds l free fixed there in
            elim (Bool-cases x.contextless) [
              | inl alone ↦
                  let lone_run = slice_sen-run x items r holds.deep there (holds.lone alone) run in
                  (
                    of_lone_result t h (count_free items) r,
                    rw (some_fixed, not_all, there, alone, lone_run, rd) refl,
                    of_lone_result-depth t h s (count_free items) r,
                    of_lone_result-Holds t h s (count_free items) r _ free inside rep (
                        slice_sen-IsLone t h s x.depth x.node_container (of_slice_key items) r
                          lone_run),
                  )
              | inr shared ↦
                  let shared_run = slice_node-run x items r l free fixed there run in
                  (
                    of_result t h (count_free items) r,
                    rw (some_fixed, not_all, there, shared, shared_run, rd) refl,
                    of_result-depth t h s (count_free items) r,
                    of_result-Holds t h s (count_free items) r _ free inside rep (
                        slice_rek-IsLone t h s x.depth x.node_container (of_slice_key items) r run),
                  )
            ]
      ]

  -- For a hypertrie of depth 1 to 256 that stands for `f`, and a slice key of its depth: the slice
  -- exists. Where a position is free it is a hypertrie of as many positions as are free, which
  -- stands for `f` on the keys that the slice key fills and gives its values when they are looked
  -- up; where none is, it is the value of `f` at the key that the slice key gives.
  pub slice_at-Holds :
      (x : Hypertrie) (f : RawKey → ℕ) (items : SliceKey)
      → Holds t h s x f
      → length items ≡ x.depth
      → (out : Sliced) × (slice_at t h s x items ≡ some out) × Agrees items f out
  unfolding slice_at get_fixed_depth of_outcome
  slice_at-Holds x f items holds l =
      let deep = holds.deep in
      let at_most = count_free-le items in
      elim (Bool-cases (length items - count_free items == 0)) [
        | inl none_fixed ↦
            let all : count_free items ≡ length items = ground (arith, none_fixed, at_most) in
            let positive : (x.depth == 0) ≡ false = ground (arith, deep) in
            (
              Sliced.trie x,
              rw (none_fixed, positive) refl,
              Agrees-trie items f x (omega (arith, all, l))
                  (Holds-congr x f _ (λ k m. ap f (sym (fill-free items k (m ∙ sym l) all))) holds),
            )
        | inr some_fixed ↦ elim (Bool-cases (length items - count_free items == x.depth)) [
          | inl all_fixed ↦
              let none_free : count_free items ≡ 0 = ground (arith, all_fixed, at_most, l) in
              let whole = length-fill items [] (sym none_free) ∙ l in
              (
                Sliced.scalar_value (f (fill items [])),
                rw
                    (
                      some_fixed,
                      all_fixed,
                      key_of-fill items none_free,
                      at-Holds t h s x f (fill items []) holds whole,
                    )
                    refl,
                (none_free, refl),
              )
          | inr mixed ↦
              let free : 0 < count_free items = ground (arith, mixed, at_most, l, deep) in
              let fixed : count_free items < length items = ground (arith, some_fixed) in
              let (y, run, d, holds_y) = slice_at-mixed x f items holds l free fixed in
              (Sliced.trie y, run, Agrees-trie items f y d holds_y)
        ]
      ]
