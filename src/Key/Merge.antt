-- ===== src/Key/Merge.antt =====
-- What keys and slice keys mean: a position is filled back by `insert_at`, a slice key by `merge`.
pub mod Subkey
pub mod Slice
pub mod SubkeyI
use hypertrie.Common.{
  ℕ, zero, suc, ◌+◌, ◌-◌, ◌<◌, ◌≤◌, ◌≡◌, List, [], ◌∷◌, length, refl, arith, ap, ◌∙◌,
}
use hypertrie.Key.{RawKey}
use hypertrie.Key.Slice.{FixedValue, RawSliceKey}

abbrev pub insert_at : ℕ → ℕ → RawKey → RawKey
insert_at zero a xs = a ∷ xs
insert_at (suc p) a [] = a ∷ []
insert_at (suc p) a (x ∷ xs) = x ∷ insert_at p a xs

-- The key whose fixed positions hold the fixed parts and whose other positions hold `rest`.
abbrev pub merge : RawSliceKey → RawKey → RawKey
merge [] rest = rest
merge (f ∷ fs) rest = merge fs (insert_at f.pos f.key_part rest)

-- Positions ascend from `low` and stay below `high`.
abbrev pub IsAscending : ℕ → ℕ → RawSliceKey → Type 0
IsAscending low high [] = Unit {0}
IsAscending low high (f ∷ fs) = (low ≤ f.pos) × (f.pos < high) × IsAscending (suc f.pos) high fs

pub IsAscending-weaken :
    (low low' high : ℕ) (fs : RawSliceKey)
    → low' ≤ low
    → IsAscending low high fs
    → IsAscending low' high fs
IsAscending-weaken low low' high [] h a = tt
IsAscending-weaken low low' high (f ∷ fs) h a = (omega arith, a.1, a.2)

pub length-insert_at : (p a : ℕ) (xs : RawKey) → length (insert_at p a xs) ≡ suc (length xs)
length-insert_at zero a xs = refl
length-insert_at (suc p) a [] = refl
length-insert_at (suc p) a (x ∷ xs) = ap suc (length-insert_at p a xs)

pub length-merge : (fs : RawSliceKey) (xs : RawKey) → length (merge fs xs) ≡ length fs + length xs
length-merge [] xs = omega arith
length-merge (f ∷ fs) xs =
    omega
      (arith, length-merge fs (insert_at f.pos f.key_part xs), length-insert_at f.pos f.key_part xs)

-- Distinct positions between two bounds are no more than the bounds leave room for.
pub length-IsAscending :
    (low high : ℕ) (fs : RawSliceKey)
    → low ≤ high
    → IsAscending low high fs
    → length fs + low ≤ high
length-IsAscending low high [] h a = omega arith
length-IsAscending low high (f ∷ fs) h a =
    omega (arith, length-IsAscending (suc f.pos) high fs a.1 a.2)

-- A later insertion moves before an earlier one.
pub insert_at_comm :
    (p q a b : ℕ) (xs : RawKey)
    → p ≤ q
    → q ≤ length xs
    → insert_at (suc q) b (insert_at p a xs) ≡ insert_at p a (insert_at q b xs)
insert_at_comm zero q a b xs h l = refl
insert_at_comm (suc p) zero a b xs h l = absurd (omega arith)
insert_at_comm (suc p) (suc q) a b [] h l = absurd (omega arith)
insert_at_comm (suc p) (suc q) a b (x ∷ xs) h l =
    ap (◌∷◌ x) (insert_at_comm p q a b xs (omega arith) (omega arith))
