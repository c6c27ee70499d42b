-- ===== src/Key/Diagonal/Slice.antt =====
-- A diagonal slices a key the way the slice key does that fixes its positions to one key part.
use hypertrie.Common.{
  ℕ, zero, suc, ◌+◌, ◌≤◌, ◌≡◌, refl, arith, sym, ◌∙◌, [], ◌∷◌, false, Option, some, if◌then◌else◌,
  ◌==◌, ==_refl, length, ◌>>=◌, Bool-cases, inl, inr,
}
use hypertrie.Key.{RawKey}
use hypertrie.Key.Slice.{RawSliceKey, slice, slice_from}
use hypertrie.Key.Diagonal.{
  RawKeyPositions, is_set, count_from, count_positions, diagonal_from, diagonal_key,
}

-- The positions that are set, fixed to one key part.
abbrev fixed_at : RawKeyPositions → ℕ → ℕ → ℕ → RawSliceKey
fixed_at bytes part zero pos = []
fixed_at bytes part (suc left) pos =
    let rest = fixed_at bytes part left (pos + 1) in
    if is_set bytes pos then record { pos = pos; key_part = part } ∷ rest else rest

abbrev pub fixed_of : RawKeyPositions → ℕ → ℕ → RawSliceKey
fixed_of bytes part depth = fixed_at bytes part depth 0

-- No fixed position is before `low`.
abbrev StartsAt : ℕ → RawSliceKey → Type 0
StartsAt low [] = Unit {0}
StartsAt low (f ∷ fs) = low ≤ f.pos

weaken : (low low' : ℕ) (fs : RawSliceKey) → low' ≤ low → StartsAt low fs → StartsAt low' fs
weaken low low' [] l s = tt
weaken low low' (f ∷ fs) l s = omega (arith, l, s)

fixed_at-StartsAt :
    (part left pos : ℕ) (d : RawKeyPositions) → StartsAt pos (fixed_at d part left pos)
fixed_at-StartsAt part zero pos d = tt
fixed_at-StartsAt part (suc left) pos d = elim (Bool-cases (is_set d pos)) [
  | inl e ↦ rw e (omega arith)
  | inr e ↦ rw e (
      weaken (pos + 1) pos (fixed_at d part left (pos + 1)) (omega arith)
        (fixed_at-StartsAt part left (pos + 1) d))
]

copied :
    (fs : RawSliceKey) (pos x : ℕ) (xs : RawKey)
    → StartsAt (pos + 1) fs
    → slice_from fs pos (x ∷ xs) ≡ (slice_from fs (pos + 1) xs >>= λ r. some (x ∷ r))
unfolding slice_from
copied [] pos x xs s = refl
copied (f ∷ fs) pos x xs s =
    let other : (f.pos == pos) ≡ false = ground (arith, s) in rw (slice_from, other) refl

diagonal_from_lem :
    (d : RawKeyPositions) (part pos : ℕ) (xs : RawKey)
    → diagonal_from d part pos xs ≡ slice_from (fixed_at d part (length xs) pos) pos xs
unfolding diagonal_from slice_from
diagonal_from_lem d part pos [] = refl
diagonal_from_lem d part pos (x ∷ xs) = elim (Bool-cases (is_set d pos)) [
  | inl e ↦ rw (e, slice_from, ==_refl pos, diagonal_from_lem d part (pos + 1) xs) (ground arith)
  | inr e ↦
      rw (e, diagonal_from_lem d part (pos + 1) xs)
        (sym (
          copied (fixed_at d part (length xs) (pos + 1)) pos x xs
            (fixed_at-StartsAt part (length xs) (pos + 1) d)))
]

length-fixed_at :
    (d : RawKeyPositions) (part left pos : ℕ)
    → length (fixed_at d part left pos) ≡ count_from d left pos
unfolding count_from
length-fixed_at d part zero pos = refl
length-fixed_at d part (suc left) pos = elim (Bool-cases (is_set d pos)) [
  | inl e ↦ rw e (omega (arith, length-fixed_at d part left (pos + 1)))
  | inr e ↦ rw e (omega (arith, length-fixed_at d part left (pos + 1)))
]

from_start :
    (fs : RawSliceKey) (fixed_depth : ℕ) (key : RawKey) (r : Option RawKey)
    → length fs ≡ fixed_depth
    → r ≡ slice_from fs 0 key
    → (if fixed_depth == 0 then some key else r) ≡ slice fs key
unfolding slice
from_start [] fixed_depth key r l e = ground (arith, l)
from_start (f ∷ fs) fixed_depth key r l e =
    let some_fixed : (fixed_depth == 0) ≡ false = ground (arith, l) in rw some_fixed e

-- Where `fixed_depth` is the number of set positions below the length of a key, slicing the key by
-- the diagonal and a key part gives what the slice key gives that fixes each set position to that
-- key part.
pub diagonal_key-slice :
    (d : RawKeyPositions) (fixed_depth part : ℕ) (key : RawKey)
    → count_positions (length key) d ≡ fixed_depth
    → diagonal_key fixed_depth d key part ≡ slice (fixed_of d part (length key)) key
unfolding diagonal_key count_positions
diagonal_key-slice d fixed_depth part key c =
    from_start (fixed_of d part (length key)) fixed_depth key (diagonal_from d part 0 key)
      (length-fixed_at d part (length key) 0 ∙ c) (diagonal_from_lem d part 0 key)
