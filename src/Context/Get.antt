-- ===== src/Context/Get.antt =====
-- `get` reads what the node stands for, whichever positions it resolves by.
use hypertrie.Common.{
  ℕ, zero, suc, ◌≤◌, ◌≡◌, inl, inr, arith, ap, sym, ◌∙◌, true, false, some, length, get_or,
}
use mathlib.Core.Bool.{false≢true}
use hypertrie.Key.{RawKey, subkey}
use hypertrie.Key.Merge.{insert_at, length-insert_at}
use hypertrie.Key.Merge.Subkey.{insert_at-subkey}
use hypertrie.Trait.{Trait, Hash}
use hypertrie.Identifier.{RawIdentifier, is_empty, is_sen, is_fn}
use hypertrie.Node.{FullNode, min_card_pos}
use hypertrie.Node.Cards.{min_card_pos-lt}
use hypertrie.Storage.{NodeStorage, NodeContainer}
use hypertrie.Context.{resolve, get, get_sen}
use hypertrie.Context.Rep.{Small, absent, stored, inline, Leaf, Inner, Rep}

module _ (t : Trait) (h : Hash) (s : NodeStorage) where
  pub not_sen_of_empty : (id : RawIdentifier) → is_empty id ≡ true → is_sen t id ≡ false
  unfolding is_sen
  not_sen_of_empty id e = rw e

  pub not_empty_of_sen : (id : RawIdentifier) → is_sen t id ≡ true → is_empty id ≡ false
  unfolding is_sen
  not_empty_of_sen id e = ground arith

  pub fn_tests :
      (id : RawIdentifier) → is_fn t id ≡ true → (is_sen t id ≡ false) × (is_empty id ≡ false)
  unfolding is_sen is_fn
  fn_tests id e = ground arith

  get_sen-Small :
      (d : ℕ) (c : NodeContainer) (f : RawKey → ℕ)
      → Small t h s d c f
      → is_sen t c.identifier ≡ true
      → (key : RawKey) → length key ≡ d
      → get_sen t h s d c key ≡ some (f key)
  unfolding get_sen
  get_sen-Small d c f (absent e z) q key l = absurd (false≢true (sym (not_sen_of_empty _ e) ∙ q))
  get_sen-Small d c f (stored n q' out p w g r) q key l =
      rw (not_empty_of_sen c.identifier q, out, p) (ap some (sym (r key l)))
  get_sen-Small d c f (inline q' inside r) q key l =
      rw (not_empty_of_sen c.identifier q, inside) (ap some (sym (r key l)))

  get-Small_one :
      (c : NodeContainer) (f : RawKey → ℕ)
      → Small t h s 1 c f
      → (key : RawKey) → length key ≡ 1
      → get t h s 1 c key ≡ some (f key)
  unfolding get
  get-Small_one c f (absent e z) key l =
      rw (not_sen_of_empty c.identifier e, e) (ap some (sym (z key l)))
  get-Small_one c f (stored n q out p w g r) key l =
      rw q (get_sen-Small 1 c f (stored n q out p w g r) q key l)
  get-Small_one c f (inline q inside r) key l =
      rw q (get_sen-Small 1 c f (inline q inside r) q key l)

  get-Small :
      (d : ℕ) (c : NodeContainer) (f : RawKey → ℕ)
      → Small t h s (suc (suc d)) c f
      → (key : RawKey) → length key ≡ suc (suc d)
      → get t h s (suc (suc d)) c key ≡ some (f key)
  unfolding get
  get-Small d c f (absent e z) key l =
      rw (not_sen_of_empty c.identifier e, e) (ap some (sym (z key l)))
  get-Small d c f (stored n q out p w g r) key l =
      rw q (get_sen-Small (suc (suc d)) c f (stored n q out p w g r) q key l)
  get-Small d c f (inline q inside r) key l =
      rw q (get_sen-Small (suc (suc d)) c f (inline q inside r) q key l)

  get-Leaf :
      (c : NodeContainer) (f : RawKey → ℕ)
      → Leaf t h s c f
      → (key : RawKey) → length key ≡ 1
      → get t h s 1 c key ≡ some (f key)
  unfolding get
  get-Leaf c f leaf key l =
      let (no_sen, no_empty) = fn_tests c.identifier leaf.tagged in
      rw (no_sen, no_empty, leaf.pointer) (ap some (sym (leaf.reads key l)))

  get-Inner :
      (d : ℕ) (c : NodeContainer) (n : FullNode) (key : RawKey)
      → Inner t h s (suc (suc d)) c n
      → get t h s (suc (suc d)) c key
        ≡ get t h s
            (suc d)
            (resolve t h s (suc (suc d)) n (min_card_pos n) (get_or key (min_card_pos n) 0))
            (subkey key (min_card_pos n))
  unfolding get
  get-Inner d c n key inner =
      let (no_sen, no_empty) = fn_tests c.identifier inner.tagged in
      rw (no_sen, no_empty, inner.pointer)

  -- Where a container stands for `f` on the keys of length `d`, `d` at most 256, `get` returns `f
  -- key` for every key of length `d`: no pointer that it follows is null, and the positions that
  -- it resolves by make no difference.
  pub get-Rep :
      (d : ℕ) (c : NodeContainer) (f : RawKey → ℕ)
      → d ≤ 256
      → Rep t h s d c f
      → (key : RawKey) → length key ≡ d
      → get t h s d c key ≡ some (f key)
  get-Rep zero c f b r key l = absurd r
  get-Rep (suc zero) c f b (inl small) key l = get-Small_one c f small key l
  get-Rep (suc zero) c f b (inr leaf) key l = get-Leaf c f leaf key l
  get-Rep (suc (suc d)) c f b (inl small) key l = get-Small d c f small key l
  get-Rep (suc (suc d)) c f b (inr (n, inner, children)) key l =
      let pos = min_card_pos n in
      let lt = min_card_pos-lt n (suc (suc d)) inner.width b (omega arith) in
      let whole = insert_at-subkey pos 0 key (omega arith) in
      let shorter = length-insert_at pos (get_or key pos 0) (subkey key pos) in
      get-Inner d c n key inner
      ∙ get-Rep (suc d) _ (λ k. f (insert_at pos (get_or key pos 0) k)) (omega arith)
          (children pos (get_or key pos 0) lt) (subkey key pos) (omega (arith, ap length whole))
      ∙ ap (λ k. some (f k)) whole
