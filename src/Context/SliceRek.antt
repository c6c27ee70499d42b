-- ===== src/Context/SliceRek.antt =====
-- `slice_rek` gives a node that stands for the slice of what the node stands for.
use mathlib.Core.Bool.{false≢true}
use hypertrie.Common.{
  ℕ, zero, suc, ◌+◌, ◌<◌, ◌≤◌, ◌≡◌, inl, inr, refl, arith, ap, sym, ◌∙◌, [], ◌∷◌, false, some,
  if◌then◌else◌, ◌==◌, length, get_or, Bool-cases, ==_iff, ◌≢◌, subst,
}
use hypertrie.Key.{RawKey}
use hypertrie.Key.Slice.{FixedValue, RawSliceKey, subkey_i}
use hypertrie.Key.Merge.{insert_at, merge, length-merge, IsAscending}
use hypertrie.Key.Merge.SubkeyI.{no_value, merge-subkey_i, subkey_i-IsAscending}
use hypertrie.Trait.{Trait, Hash}
use hypertrie.Identifier.{is_empty}
use hypertrie.Node.{FullNode, min_fixed_keypart_i}
use hypertrie.Node.Cards.{min_fixed_keypart_i-lt}
use hypertrie.Storage.{NodeStorage, NodeContainer, no_node}
use hypertrie.Context.{SliceResult, no_result, make_with_provided_alloc, resolve, slice_rek}
use hypertrie.Context.Rep.{Small, absent, stored, inline, Inner, Rep}
use hypertrie.Context.Get.{fn_tests}
use hypertrie.Context.RepLaws.{Small-congr, Rep-of_Small, Rep-congr, Rep-empty}
use hypertrie.Context.Slice.{pos-lt, slice_sen-stored, absent_slice, in_place-one}

nil_of_length : (fs : RawSliceKey) → length fs ≡ 0 → fs ≡ []
nil_of_length [] e = refl
nil_of_length (f ∷ fs) e = absurd (omega arith)

module _ (t : Trait) (h : Hash) (s : NodeStorage) where
  -- The result of a slice: no null pointer is followed, and the node stands for the slice.
  abbrev pub Slices : ℕ → ℕ → NodeContainer → RawSliceKey → (RawKey → ℕ) → Type 0
  Slices d rd c fs f =
      (r : SliceResult) × (slice_rek t h s d c fs ≡ some r)
      × Rep t h s rd r.container (λ k. f (merge fs k))

  slice_rek-Small :
      (d rd : ℕ) (c : NodeContainer) (f : RawKey → ℕ) (fs : RawSliceKey)
      → Small t h s (suc (suc d)) c f
      → is_empty c.identifier ≡ false
      → IsAscending 0 (suc (suc d)) fs
      → rd + length fs ≡ suc (suc d)
      → 0 < rd
      → Slices (suc (suc d)) rd c fs f
  slice_rek-Small d rd c f fs (absent q z) e a l pos = absurd (false≢true (sym e ∙ q))
  slice_rek-Small d rd c f fs (inline q inside r) e a l pos =
      absurd (omega (arith, (in_place-one t (suc (suc d)) inside).0))
  slice_rek-Small d rd c f fs (stored n q out p w g reads) e a l pos =
      let (r, run, small) = slice_sen-stored t h s (suc (suc d)) rd c n fs q p w g a l in
      (
        r,
        (unfold slice_rek in rw q run),
        Rep-of_Small t h s rd r.container _ pos (
            Small-congr t h s rd _ _ _
              (λ k m. sym (reads (merge fs k) (omega (arith, length-merge fs k)))) small),
      )

  -- One round at a full node.
  slice_rek-Inner :
      (d : ℕ) (c : NodeContainer) (n : FullNode) (fs : RawSliceKey)
      → Inner t h s (suc d) c n
      → let i = min_fixed_keypart_i n fs in
        let fixed = get_or fs i no_value in
        let next = resolve t h s (suc d) n fixed.pos fixed.key_part in
        slice_rek t h s (suc d) c fs ≡ (
          if is_empty next.identifier
          then some no_result
          else if length fs == 1
          then some (make_with_provided_alloc next)
          else slice_rek t h s d next (subkey_i fs i))
  unfolding slice_rek
  slice_rek-Inner d c n fs inner = rw ((fn_tests t h s c.identifier inner.tagged).0, inner.pointer)

  -- Let a container that is not empty stand for `f` on the keys of length `d`, `d` at most 256,
  -- and let the fixed values ascend below `d`, at least one and fewer than `d`. Then `slice_rek`
  -- returns a result, and its container stands for `f` on the keys that the slice key fills in.
  -- The hash functions need no law.
  pub slice_rek-Rep :
      (d rd : ℕ) (c : NodeContainer) (f : RawKey → ℕ) (fs : RawSliceKey)
      → d ≤ 256
      → Rep t h s d c f
      → is_empty c.identifier ≡ false
      → IsAscending 0 d fs
      → rd + length fs ≡ d
      → 0 < rd
      → 0 < length fs
      → Slices d rd c fs f
  slice_rek-Rep zero rd c f fs b r e a l pos some_fixed = absurd r
  slice_rek-Rep (suc zero) rd c f fs b r e a l pos some_fixed = absurd (omega arith)
  slice_rek-Rep (suc (suc d)) rd c f fs b (inl small) e a l pos some_fixed =
      slice_rek-Small d rd c f fs small e a l pos
  slice_rek-Rep (suc (suc d)) rd c f fs b (inr (n, inner, children)) e a l pos some_fixed =
      elim (Bool-cases (is_empty next.identifier)) [
        | inl gone ↦ (
          no_result,
          step ∙ rw gone,
          Rep-of_Small t h s rd no_node _ pos (
              absent_slice t h s rd _ (λ k m.
                ap f (moved k m)
                ∙ Rep-empty t h s (suc d) next _ child gone _ (omega (arith, below k m)))),
        )
        | inr there ↦ elim (Bool-cases (length fs == 1)) [
          | inl one ↦
              let rde : rd ≡ suc d = omega (arith, (==_iff (length fs) 1).0 one) in
              let none_left = nil_of_length (subkey_i fs i) (omega (arith, rest.1)) in
              (
                make_with_provided_alloc next,
                step ∙ rw (there, one),
                (unfold make_with_provided_alloc in
                    subst (λ z. Rep t h s z next (λ k. f (merge fs k))) (sym rde)
                      (Rep-congr t h s (suc d) next _ _
                        (λ k m. ap f (
                          sym (
                            moved k (m ∙ sym rde)
                            ∙ ap (λ z. insert_at fixed.pos fixed.key_part (merge z k)) none_left)))
                        child)),
              )
          | inr more ↦
              let many : length fs ≢ 1 = λ q. false≢true (sym more ∙ (==_iff (length fs) 1).1 q) in
              let (r, run, rep) =
                slice_rek-Rep (suc d) rd next _ (subkey_i fs i) (omega arith) child there rest.0
                  (omega (arith, rest.1)) pos (omega (arith, rest.1, many)) in
              (
                r,
                step ∙ rw (there, more) run,
                Rep-congr t h s rd r.container _ _ (λ k m. ap f (sym (moved k m))) rep,
              )
        ]
      ]
    where
      i : ℕ
      i = min_fixed_keypart_i n fs

      lt : i < length fs
      lt = min_fixed_keypart_i-lt n fs some_fixed

      fixed : FixedValue
      fixed = get_or fs i no_value

      next : NodeContainer
      next = resolve t h s (suc (suc d)) n fixed.pos fixed.key_part

      step : slice_rek t h s (suc (suc d)) c fs ≡ (
          if is_empty next.identifier
          then some no_result
          else if length fs == 1
          then some (make_with_provided_alloc next)
          else slice_rek t h s (suc d) next (subkey_i fs i))
      step = slice_rek-Inner (suc d) c n fs inner

      child : Rep t h s (suc d) next (λ k. f (insert_at fixed.pos fixed.key_part k))
      child = children fixed.pos fixed.key_part (pos-lt i 0 (suc (suc d)) fs a lt)

      rest : IsAscending 0 (suc d) (subkey_i fs i) × (suc (length (subkey_i fs i)) ≡ length fs)
      rest = subkey_i-IsAscending i (suc d) fs a b lt

      moved :
          (k : RawKey)
          → length k ≡ rd
          → merge fs k ≡ insert_at fixed.pos fixed.key_part (merge (subkey_i fs i) k)
      moved k m = merge-subkey_i i (suc (suc d)) fs k a b (omega arith) lt

      below : (k : RawKey) → length k ≡ rd → length (merge (subkey_i fs i) k) ≡ suc d
      below k m = omega (arith, length-merge (subkey_i fs i) k, rest.1)
