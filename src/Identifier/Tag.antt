-- ===== src/Identifier/Tag.antt =====
-- How the tags and the combination of hashes go together.
use hypertrie.Common.{ℕ, ◌≡◌, arith, true, false, ◌∙◌, sym, ap}
use hypertrie.Trait.{Trait, Hash, IsInvertible}
use hypertrie.Bits.{
  test_bit, test_bit-set_bit, test_bit-clear_bit, clear_bit-set_bit, clear_bit-clear_bit,
  set_bit-clear_bit, set_bit-ne-zero, clear_bit-zero, clear_bit_self,
}
use hypertrie.Identifier.{is_empty, is_sen, tag_pos, tag_as_sen, tag_as_fn}

module _ (t : Trait) where
  pub is_empty-tag_as_sen : (a : ℕ) → is_empty (tag_as_sen t a) ≡ false
  unfolding is_empty tag_as_sen
  is_empty-tag_as_sen a = ground (arith, set_bit-ne-zero (tag_pos t) a)

  -- What is tagged as a SEN is one, and no FN.
  pub is_sen-tag_as_sen : (a : ℕ) → is_sen t (tag_as_sen t a) ≡ true
  unfolding is_sen
  is_sen-tag_as_sen a =
      rw (is_empty-tag_as_sen a) (unfold tag_as_sen in test_bit-set_bit (tag_pos t) a)

  pub is_sen-tag_as_fn : (a : ℕ) → is_sen t (tag_as_fn t a) ≡ false
  unfolding is_sen tag_as_fn
  is_sen-tag_as_fn a = ground (arith, test_bit-clear_bit (tag_pos t) a)

  -- Tagging forgets the tag before, and nothing else.
  pub fn-sen : (a : ℕ) → tag_as_fn t (tag_as_sen t a) ≡ tag_as_fn t a
  unfolding tag_as_sen tag_as_fn
  fn-sen a = clear_bit-set_bit (tag_pos t) a

  pub fn-fn : (a : ℕ) → tag_as_fn t (tag_as_fn t a) ≡ tag_as_fn t a
  unfolding tag_as_fn
  fn-fn a = clear_bit-clear_bit (tag_pos t) a

  pub sen-fn : (a : ℕ) → tag_as_sen t (tag_as_fn t a) ≡ tag_as_sen t a
  unfolding tag_as_sen tag_as_fn
  sen-fn a = set_bit-clear_bit (tag_pos t) a

  pub fn_self : (a : ℕ) → test_bit (tag_pos t) a ≡ false → tag_as_fn t a ≡ a
  unfolding tag_as_fn
  fn_self a e = clear_bit_self (tag_pos t) a e

  pub fn-zero : tag_as_fn t 0 ≡ 0
  unfolding tag_as_fn
  fn-zero = clear_bit-zero (tag_pos t)

  -- Hashes that agree up to the tag agree once tagged.
  pub sen_congr : (a b : ℕ) → tag_as_fn t a ≡ tag_as_fn t b → tag_as_sen t a ≡ tag_as_sen t b
  sen_congr a b e = sym (sen-fn a) ∙ ap (tag_as_sen t) e ∙ sen-fn b

  module _ (h : Hash) (inv : IsInvertible h) where
    -- The tags of what is combined do not matter, up to the tag.
    pub fn-combine :
        (a b : ℕ)
        → tag_as_fn t (h.invertible_combine a b)
          ≡ h.invertible_combine (tag_as_fn t a) (tag_as_fn t b)
    unfolding tag_as_fn
    fn-combine a b = inv.bitwise (tag_pos t) a b
