-- ===== src/Hypertrie/Contents.antt =====
-- What a hypertrie holds: a value for each key of its depth, in its context or in its own node.
use mathlib.Core.Bool.{true≢false}
use hypertrie.Common.{
  Bool-cases, Option-cases, ap, arith, false, get_or, inl, inr, length, none, refl, some,
  some-ne-none, suc, sym, true, zero, ℕ, ◌-◌, ◌<◌, ◌==◌, ◌∙◌, ◌≡◌, ◌≤◌, ◌⊎◌,
}
use hypertrie.Context.{
  SliceResult, get, get_sen, make_sen_with_stl_alloc, make_with_provided_alloc, no_result, resolve,
  slice_rek, slice_sen, sliced_entry,
}
use hypertrie.Context.Get.{get-Rep}
use hypertrie.Context.Rep.{Rep}
use hypertrie.Context.RepLaws.{Rep-empty}
use hypertrie.Hypertrie.{Hypertrie, at}
use hypertrie.Identifier.{encode_single_entry, in_place, is_empty, is_sen}
use hypertrie.Identifier.Tag.{is_sen-tag_as_sen}
use hypertrie.Key.{RawKey}
use hypertrie.Key.Merge.SubkeyI.{no_value}
use hypertrie.Key.Slice.{RawSliceKey, slice, subkey_i}
use hypertrie.Node.{min_fixed_keypart_i}
use hypertrie.Storage.{NodeContainer, NodeStorage, as_full, as_single}
use hypertrie.Trait.{Hash, SingleEntry, Trait}

get-sen :
    (t : Trait) (h : Hash) (s : NodeStorage) (d : ℕ) (c : NodeContainer) (key : RawKey)
    → is_sen t c.identifier ≡ true
    → get t h s (suc d) c key ≡ get_sen t h s (suc d) c key
unfolding get
get-sen t h s zero c key q = rw q
get-sen t h s (suc d) c key q = rw q

pub slice_rek-sen :
    (t : Trait) (h : Hash) (s : NodeStorage) (d : ℕ) (c : NodeContainer) (fs : RawSliceKey)
    → is_sen t c.identifier ≡ true
    → slice_rek t h s (suc d) c fs ≡ slice_sen t h s (suc d) c fs
unfolding slice_rek
slice_rek-sen t h s d c fs q = rw q

-- A node on its own: none, or one of a single entry.
abbrev pub IsLone : Trait → NodeContainer → Type 0
IsLone t c = (is_empty c.identifier ≡ true) ⊎ (is_sen t c.identifier ≡ true)

sliced_entry-is_sen :
    (t : Trait) (h : Hash) (s : NodeStorage) (rd : ℕ) (key : RawKey) (e : SingleEntry)
    → is_sen t (sliced_entry t h s rd key e).container.identifier ≡ true
unfolding sliced_entry make_with_provided_alloc make_sen_with_stl_alloc encode_single_entry
sliced_entry-is_sen t h s rd key e = elim (Bool-cases (in_place t rd)) [
  | inl inside ↦ rw inside (is_sen-tag_as_sen t (get_or key 0 0))
  | inr outside ↦ rw outside (is_sen-tag_as_sen t _)
]

-- The result of slicing a single entry node is such a node.
pub slice_sen-IsLone :
    (t : Trait) (h : Hash) (s : NodeStorage) (d : ℕ) (c : NodeContainer) (fs : RawSliceKey)
    (r : SliceResult)
    → slice_sen t h s d c fs ≡ some r
    → IsLone t r.container
slice_sen-IsLone t h s d c fs r e = elim (Bool-cases (is_empty c.identifier)) [
  | inl gone ↦
      let run : slice_sen t h s d c fs ≡ some no_result = unfold slice_sen in rw gone in
      let same : r ≡ no_result = cc (e, run) in rw same (inl (unfold is_empty in refl))
  | inr there ↦ elim (Option-cases (as_single c.node_ptr)) [
    | inl dangling ↦
        let run : slice_sen t h s d c fs ≡ none = unfold slice_sen in rw (there, dangling) in
        absurd (some-ne-none (sym e ∙ run))
    | inr (n, p) ↦ elim (Option-cases (slice fs n.entry.key)) [
      | inl nothing ↦
          let run : slice_sen t h s d c fs ≡ some no_result =
            unfold slice_sen in rw (there, p, nothing) in
          let same : r ≡ no_result = cc (e, run) in rw same (inl (unfold is_empty in refl))
      | inr (key, left) ↦
          let run : slice_sen t h s d c fs ≡ some (sliced_entry t h s (d - length fs) key n.entry) =
            unfold slice_sen in rw (there, p, left) in
          let same : r ≡ sliced_entry t h s (d - length fs) key n.entry = cc (e, run) in
          rw same (inr (sliced_entry-is_sen t h s (d - length fs) key n.entry))
    ]
  ]
]

-- A result that is not in the storage is a node on its own.
pub slice_rek-IsLone :
    (t : Trait) (h : Hash) (s : NodeStorage) (d : ℕ) (c : NodeContainer) (fs : RawSliceKey)
    (r : SliceResult)
    → slice_rek t h s d c fs ≡ some r
    → r.uses_provided_alloc ≡ false
    → IsLone t r.container
unfolding slice_rek make_with_provided_alloc
slice_rek-IsLone t h s zero c fs r e own = absurd (some-ne-none (sym e))
slice_rek-IsLone t h s (suc d) c fs r e own = elim (Bool-cases (is_sen t c.identifier)) [
  | inl q ↦ slice_sen-IsLone t h s (suc d) c fs r (sym (slice_rek-sen t h s d c fs q) ∙ e)
  | inr q ↦ elim (Option-cases (as_full c.node_ptr)) [
    | inl dangling ↦
        let run : slice_rek t h s (suc d) c fs ≡ none = rw (q, dangling) in
        absurd (some-ne-none (sym e ∙ run))
    | inr (n, p) ↦
        let i = min_fixed_keypart_i n fs in
        let fixed = get_or fs i no_value in
        let next = resolve t h s (suc d) n fixed.pos fixed.key_part in
        elim (Bool-cases (is_empty next.identifier)) [
          | inl gone ↦
              let run : slice_rek t h s (suc d) c fs ≡ some no_result = rw (q, p, gone) in
              let same : r ≡ no_result = cc (e, run) in rw same (inl (unfold is_empty in refl))
          | inr there ↦ elim (Bool-cases (length fs == 1)) [
            | inl one ↦
                let run : slice_rek t h s (suc d) c fs ≡ some (make_with_provided_alloc next) =
                  rw (q, p, there, one) in
                let same : r ≡ make_with_provided_alloc next = cc (e, run) in
                absurd
                  (true≢false (sym (ap (λ (x : SliceResult). x.uses_provided_alloc) same) ∙ own))
            | inr more ↦
                let run : slice_rek t h s (suc d) c fs ≡ slice_rek t h s d next (subkey_i fs i) =
                  rw (q, p, there, more) in
                slice_rek-IsLone t h s d next (subkey_i fs i) r (sym run ∙ e) own
          ]
        ]
  ]
]

module _ (t : Trait) (h : Hash) (s : NodeStorage) where
  -- The hypertrie stands for `f` on the keys of its depth, and owns its node where it has no
  -- context.
  pub record Holds (x : Hypertrie) (f : RawKey → ℕ) : Type 0 where
    pub deep : 0 < x.depth
    pub short : x.depth ≤ 256
    pub rep : Rep t h s x.depth x.node_container f
    pub lone : x.contextless ≡ true → IsLone t x.node_container

  get_sen-empty :
      (d : ℕ) (c : NodeContainer) (key : RawKey)
      → is_empty c.identifier ≡ true
      → get_sen t h s d c key ≡ some 0
  unfolding get_sen
  get_sen-empty d c key gone = rw gone

  get_sen-lone :
      (d : ℕ) (c : NodeContainer) (f : RawKey → ℕ) (key : RawKey)
      → 0 < d
      → d ≤ 256
      → Rep t h s d c f
      → IsLone t c
      → length key ≡ d
      → get_sen t h s d c key ≡ some (f key)
  get_sen-lone zero c f key pos b rep lone l = absurd (omega (arith, pos))
  get_sen-lone (suc d) c f key pos b rep (inl gone) l =
      get_sen-empty (suc d) c key gone ∙ ap some (sym (Rep-empty t h s (suc d) c f rep gone key l))
  get_sen-lone (suc d) c f key pos b rep (inr q) l =
      sym (get-sen t h s d c key q) ∙ get-Rep t h s (suc d) c f b rep key l

  -- A look-up gives the value.
  pub at-Holds :
      (x : Hypertrie) (f : RawKey → ℕ) (key : RawKey)
      → Holds x f
      → length key ≡ x.depth
      → at t h s x key ≡ some (f key)
  unfolding at
  at-Holds x f key holds l =
      let deep : (x.depth == 0) ≡ false = let p = holds.deep in ground arith in
      elim (Bool-cases x.contextless) [
        | inl alone ↦
            rw (deep, alone)
              (get_sen-lone x.depth x.node_container f key holds.deep holds.short holds.rep
                (holds.lone alone) l)
        | inr shared ↦
            rw (deep, shared) (get-Rep t h s x.depth x.node_container f holds.short holds.rep key l)
      ]
