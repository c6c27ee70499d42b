-- ===== src/Context/RepLaws.antt =====
-- What containers stand for, up to the keys of their depth.
use mathlib.Core.Bool.{false≢true}
use hypertrie.Common.{ℕ, zero, suc, ◌<◌, ◌≡◌, inl, inr, arith, sym, ◌∙◌, true, length}
use hypertrie.Key.{RawKey}
use hypertrie.Key.Merge.{insert_at, length-insert_at}
use hypertrie.Trait.{Trait, Hash}
use hypertrie.Identifier.{is_empty}
use hypertrie.Storage.{NodeStorage, NodeContainer}
use hypertrie.Context.Rep.{Small, absent, stored, inline, Rep}
use hypertrie.Context.Get.{not_empty_of_sen, fn_tests}

module _ (t : Trait) (h : Hash) (s : NodeStorage) where
  pub Rep-of_Small :
      (d : ℕ) (c : NodeContainer) (f : RawKey → ℕ) → 0 < d → Small t h s d c f → Rep t h s d c f
  Rep-of_Small zero c f lt r = absurd (omega arith)
  Rep-of_Small (suc zero) c f lt r = inl r
  Rep-of_Small (suc (suc d)) c f lt r = inl r

  pub Small-congr :
      (d : ℕ) (c : NodeContainer) (f g : RawKey → ℕ)
      → ((k : RawKey) → length k ≡ d → f k ≡ g k)
      → Small t h s d c f
      → Small t h s d c g
  Small-congr d c f g e (absent q z) = absent q (λ k l. sym (e k l) ∙ z k l)
  Small-congr d c f g e (stored n q out p w tg r) =
      stored n q out p w tg (λ k l. sym (e k l) ∙ r k l)
  Small-congr d c f g e (inline q inside r) = inline q inside (λ k l. sym (e k l) ∙ r k l)

  -- What a node stands for is fixed on the keys of its depth alone.
  pub Rep-congr :
      (d : ℕ) (c : NodeContainer) (f g : RawKey → ℕ)
      → ((k : RawKey) → length k ≡ d → f k ≡ g k)
      → Rep t h s d c f
      → Rep t h s d c g
  Rep-congr zero c f g e r = r
  Rep-congr (suc zero) c f g e (inl small) = inl (Small-congr 1 c f g e small)
  Rep-congr (suc zero) c f g e (inr leaf) = inr (record {
    node = leaf.node;
    tagged = leaf.tagged;
    pointer = leaf.pointer;
    reads = λ k l. sym (e k l) ∙ leaf.reads k l;
  })
  Rep-congr (suc (suc d)) c f g e (inl small) = inl (Small-congr (suc (suc d)) c f g e small)
  Rep-congr (suc (suc d)) c f g e (inr (n, inner, children)) = inr (
    n,
    inner,
    λ pos part lt.
        Rep-congr (suc d) _ _ _
          (λ k l. e (insert_at pos part k) (omega (arith, length-insert_at pos part k)))
          (children pos part lt),
  )

  Small-empty :
      (d : ℕ) (c : NodeContainer) (f : RawKey → ℕ)
      → Small t h s d c f
      → is_empty c.identifier ≡ true
      → (k : RawKey) → length k ≡ d
      → f k ≡ 0
  Small-empty d c f (absent q z) e = z
  Small-empty d c f (stored n q out p w tg r) e =
      absurd (false≢true (sym (not_empty_of_sen t h s _ q) ∙ e))
  Small-empty d c f (inline q inside r) e =
      absurd (false≢true (sym (not_empty_of_sen t h s _ q) ∙ e))

  -- An empty container stands for no entries.
  pub Rep-empty :
      (d : ℕ) (c : NodeContainer) (f : RawKey → ℕ)
      → Rep t h s d c f
      → is_empty c.identifier ≡ true
      → (k : RawKey) → length k ≡ d
      → f k ≡ 0
  Rep-empty zero c f r e = absurd r
  Rep-empty (suc zero) c f (inl small) e = Small-empty 1 c f small e
  Rep-empty (suc zero) c f (inr leaf) e =
      absurd (false≢true (sym (fn_tests t h s _ leaf.tagged).1 ∙ e))
  Rep-empty (suc (suc d)) c f (inl small) e = Small-empty (suc (suc d)) c f small e
  Rep-empty (suc (suc d)) c f (inr (n, inner, children)) e =
      absurd (false≢true (sym (fn_tests t h s _ inner.tagged).1 ∙ e))
