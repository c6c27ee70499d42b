-- ===== src/Hypertrie/Results.antt =====
-- The hypertries that `operator[](SliceKey)` makes of the results of slices.
use mathlib.Core.Bool.{true≢false}
use hypertrie.Common.{Bool-cases, arith, false, inl, inr, length, refl, sym, ℕ, ◌<◌, ◌≡◌, ◌≤◌}
use hypertrie.Context.{SliceResult}
use hypertrie.Context.Rep.{Rep}
use hypertrie.Context.RepLaws.{Rep-empty, Rep-of_Small}
use hypertrie.Context.Slice.{absent_slice}
use hypertrie.Hypertrie.{empty_hypertrie, in_context, of_lone_result, of_result, unmanaged}
use hypertrie.Hypertrie.Contents.{Holds, IsLone}
use hypertrie.Identifier.{is_empty}
use hypertrie.Key.{RawKey}
use hypertrie.Storage.{NodeStorage, no_node}
use hypertrie.Trait.{Hash, Trait}

module _ (t : Trait) (h : Hash) (s : NodeStorage) where
  pub empty_hypertrie-Holds :
      (rd : ℕ) (f : RawKey → ℕ)
      → 0 < rd
      → rd ≤ 256
      → ((k : RawKey) → length k ≡ rd → f k ≡ 0)
      → Holds t h s (empty_hypertrie rd) f
  unfolding empty_hypertrie
  empty_hypertrie-Holds rd f pos b none_of = record {
    deep = pos;
    short = b;
    rep = Rep-of_Small t h s rd no_node f pos (absent_slice t h s rd f none_of);
    lone = λ e. inl (unfold is_empty in refl);
  }

  pub of_lone_result-Holds :
      (rd : ℕ) (r : SliceResult) (f : RawKey → ℕ)
      → 0 < rd
      → rd ≤ 256
      → Rep t h s rd r.container f
      → IsLone t r.container
      → Holds t h s (of_lone_result t h rd r) f
  unfolding of_lone_result
  of_lone_result-Holds rd r f pos b rep lone = elim (Bool-cases (is_empty r.container.identifier)) [
    | inl gone ↦
        rw gone (empty_hypertrie-Holds rd f pos b (Rep-empty t h s rd r.container f rep gone))
    | inr there ↦
        rw there (unfold unmanaged in record { deep = pos; short = b; rep = rep; lone = λ e. lone })
  ]

  pub of_result-Holds :
      (rd : ℕ) (r : SliceResult) (f : RawKey → ℕ)
      → 0 < rd
      → rd ≤ 256
      → Rep t h s rd r.container f
      → (r.uses_provided_alloc ≡ false → IsLone t r.container)
      → Holds t h s (of_result t h rd r) f
  unfolding of_result
  of_result-Holds rd r f pos b rep lone = elim (Bool-cases (is_empty r.container.identifier)) [
    | inl gone ↦
        rw gone (empty_hypertrie-Holds rd f pos b (Rep-empty t h s rd r.container f rep gone))
    | inr there ↦ elim (Bool-cases r.uses_provided_alloc) [
      | inl given ↦
          rw (there, given)
            (unfold in_context in
              record { deep = pos; short = b; rep = rep; lone = λ e. absurd (true≢false (sym e)) })
      | inr own ↦
          rw (there, own)
            (unfold unmanaged in record { deep = pos; short = b; rep = rep; lone = λ e. lone own })
    ]
  ]

  pub of_result-depth : (rd : ℕ) (r : SliceResult) → (of_result t h rd r).depth ≡ rd
  unfolding of_result empty_hypertrie in_context unmanaged
  of_result-depth rd r = ground arith

  pub of_lone_result-depth : (rd : ℕ) (r : SliceResult) → (of_lone_result t h rd r).depth ≡ rd
  unfolding of_lone_result empty_hypertrie unmanaged
  of_lone_result-depth rd r = ground arith
