-- ===== src/Trait.antt =====
-- What a hypertrie is instantiated with: `Hypertrie_t` (libs/hypertrie/src/dice/hypertrie/
-- Hypertrie_trait.hpp), `SingleEntry` (internal/raw/node/SingleEntry.hpp) and the hash functions
-- of the library dice-hash. Key parts and values are 64-bit words; `value_type{}` is 0 and `true`
-- is 1.
use hypertrie.Common.{ℕ, ◌≡◌, Option, none, some, Bool, true, false, ◌&&◌}
use hypertrie.Key.{RawKey}
use hypertrie.Bits.{clear_bit}

pub record Trait : Type 0 where
  pub is_bool_valued : Bool
  -- `none` is the -1 of the source
  pub key_part_tagging_bit : Option ℕ

unfoldable pub taggable_key_part : Trait → Bool
taggable_key_part t = elim t.key_part_tagging_bit [ none ↦ false | some _ ↦ true ]

-- `HypertrieTrait_bool_valued_and_taggable_key_part`
unfoldable pub bool_valued_and_taggable : Trait → Bool
unfolding taggable_key_part
bool_valued_and_taggable t = t.is_bool_valued && taggable_key_part t

pub record SingleEntry : Type 0 where
  pub key : RawKey
  pub value : ℕ

-- The hash of an entry and `hash_invertible_combine` of two words, which dice-hash provides.
pub record Hash : Type 0 where
  pub entry_hash : SingleEntry → ℕ
  pub invertible_combine : ℕ → ℕ → ℕ

-- dice-hash documents the combination as the bitwise exclusive or of its arguments.
pub record IsInvertible (h : Hash) : Type 0 where
  pub comm : (a b : ℕ) → h.invertible_combine a b ≡ h.invertible_combine b a
  pub assoc :
      (a b c : ℕ)
      → h.invertible_combine (h.invertible_combine a b) c
        ≡ h.invertible_combine a (h.invertible_combine b c)
  pub zero_left : (a : ℕ) → h.invertible_combine 0 a ≡ a
  pub self_inverse : (a : ℕ) → h.invertible_combine a a ≡ 0
  pub bitwise :
      (t a b : ℕ)
      → clear_bit t (h.invertible_combine a b)
        ≡ h.invertible_combine (clear_bit t a) (clear_bit t b)
