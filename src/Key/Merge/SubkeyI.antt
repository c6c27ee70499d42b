-- ===== src/Key/Merge/SubkeyI.antt =====
-- `RawSliceKey::subkey_i` takes one fixed value out of a slice key and moves the later ones down.
use hypertrie.Common.{
  ℕ, zero, suc, ◌+◌, ◌-◌, ◌<◌, ◌≤◌, ◌≡◌, [], ◌∷◌, length, refl, arith, ap, ◌==◌, ◌∙◌, get_or, true,
  false,
}
use hypertrie.Key.{RawKey}
use hypertrie.Key.Slice.{FixedValue, RawSliceKey, subkey_i, subkey_i_from, shift_pos}
use hypertrie.Key.Merge.{
  insert_at, merge, IsAscending, IsAscending-weaken, length-IsAscending, length-insert_at,
  insert_at_comm,
}
use hypertrie.Key.Merge.Slice.{down}

-- What stands for a fixed value out of range.
abbrev pub no_value : FixedValue
no_value = record { pos = 0; key_part = 0 }

merge-insert_at :
    (p a high : ℕ) (fs : RawSliceKey) (rest : RawKey)
    → IsAscending (suc p) high fs
    → high ≤ suc (length rest + length fs)
    → suc p ≤ high
    → merge fs (insert_at p a rest) ≡ insert_at p a (merge (down 1 fs) rest)
merge-insert_at p a high [] rest asc l b = refl
merge-insert_at p a high (f ∷ fs) rest asc l b =
    let room = length-IsAscending (suc f.pos) high fs asc.1 asc.2 in
    let e : f.pos ≡ suc (f.pos - 1) = omega arith in
    let grown = length-insert_at (f.pos - 1) f.key_part rest in
    ap (λ q. merge fs (insert_at q f.key_part (insert_at p a rest))) e
    ∙ ap (merge fs) (insert_at_comm p (f.pos - 1) a f.key_part rest (omega arith) (omega arith))
    ∙ merge-insert_at p a high fs (insert_at (f.pos - 1) f.key_part rest)
        (IsAscending-weaken (suc f.pos) (suc p) high fs (omega arith) asc.2) (omega arith) b

subkey_i_from-past :
    (j i low high : ℕ) (fs : RawSliceKey)
    → i < j
    → 1 ≤ low
    → IsAscending low high fs
    → high ≤ 256
    → subkey_i_from j 1 i fs ≡ down 1 fs
unfolding subkey_i_from
subkey_i_from-past j i low high [] lt pos asc h = refl
subkey_i_from-past j i low high (f ∷ fs) lt pos asc h =
    let e : shift_pos f.pos 1 ≡ f.pos - 1 = omega arith in
    ground (
      arith,
      e,
      subkey_i_from-past (j + 1) i (suc f.pos) high fs (omega arith) (omega arith) asc.2 h,
    )

merge-subkey_i_from :
    (j k i low high : ℕ) (fs : RawSliceKey) (rest : RawKey)
    → k ≡ j + i
    → IsAscending low high fs
    → high ≤ 256
    → high ≤ length fs + length rest
    → i < length fs
    → merge fs rest
      ≡ insert_at
          (get_or fs i no_value).pos
          (get_or fs i no_value).key_part
          (merge (subkey_i_from j 0 k fs) rest)
unfolding subkey_i_from
merge-subkey_i_from j k i low high [] rest e asc h l lt = absurd (omega arith)
merge-subkey_i_from j k zero low high (f ∷ fs) rest e asc h l lt =
    let same : (j == k) ≡ true = ground arith in
    rw (same, subkey_i_from-past (j + 1) k (suc f.pos) high fs (omega arith) (omega arith) asc.2 h)
      (merge-insert_at f.pos f.key_part high fs rest asc.2 (omega arith) asc.1)
merge-subkey_i_from j k (suc i) low high (f ∷ fs) rest e asc h l lt =
    let other : (j == k) ≡ false = ground arith in
    let kept : shift_pos f.pos 0 ≡ f.pos = omega arith in
    rw (other, kept)
      (merge-subkey_i_from (j + 1) k i (suc f.pos) high fs (insert_at f.pos f.key_part rest)
        (omega arith) asc.2 h (omega (arith, length-insert_at f.pos f.key_part rest)) (omega arith))

-- For fixed positions ascending below `high`, `high` at most 256 and at most the length of the
-- whole key: the slice key filled with a rest is what `subkey_i` filled with the rest is, after
-- the part taken away is inserted at its position.
pub merge-subkey_i :
    (i high : ℕ) (fs : RawSliceKey) (rest : RawKey)
    → IsAscending 0 high fs
    → high ≤ 256
    → high ≤ length fs + length rest
    → i < length fs
    → merge fs rest
      ≡ insert_at
          (get_or fs i no_value).pos
          (get_or fs i no_value).key_part
          (merge (subkey_i fs i) rest)
unfolding subkey_i
merge-subkey_i i high fs rest asc h l lt =
    merge-subkey_i_from 0 i i 0 high fs rest (omega arith) asc h l lt

down-IsAscending :
    (low high : ℕ) (fs : RawSliceKey)
    → IsAscending (suc low) (suc high) fs
    → IsAscending low high (down 1 fs)
down-IsAscending low high [] a = tt
down-IsAscending low high (f ∷ fs) a =
    let e : suc (f.pos - 1) ≡ f.pos = omega arith in
    let rest = down-IsAscending f.pos high fs a.2 in
    (
      omega arith,
      omega arith,
      IsAscending-weaken f.pos (suc (f.pos - 1)) high (down 1 fs) (omega arith) rest,
    )

length-down : (k : ℕ) (fs : RawSliceKey) → length (down k fs) ≡ length fs
length-down k [] = refl
length-down k (f ∷ fs) = ap suc (length-down k fs)

subkey_i_from-IsAscending :
    (j k i low high : ℕ) (fs : RawSliceKey)
    → k ≡ j + i
    → IsAscending low (suc high) fs
    → suc high ≤ 256
    → i < length fs
    → IsAscending low high (subkey_i_from j 0 k fs)
      × (suc (length (subkey_i_from j 0 k fs)) ≡ length fs)
unfolding subkey_i_from
subkey_i_from-IsAscending j k i low high [] e asc h lt = absurd (omega arith)
subkey_i_from-IsAscending j k zero low high (f ∷ fs) e asc h lt =
    let same : (j == k) ≡ true = ground arith in
    rw
      (
        same,
        subkey_i_from-past (j + 1) k (suc f.pos) (suc high) fs (omega arith) (omega arith) asc.2 h,
      )
      (
        IsAscending-weaken f.pos low high (down 1 fs) asc.0 (down-IsAscending f.pos high fs asc.2),
        ap suc (length-down 1 fs),
      )
subkey_i_from-IsAscending j k (suc i) low high (f ∷ fs) e asc h lt =
    let other : (j == k) ≡ false = ground arith in
    let kept : shift_pos f.pos 0 ≡ f.pos = omega arith in
    let room = length-IsAscending (suc f.pos) (suc high) fs asc.1 asc.2 in
    let ih =
      subkey_i_from-IsAscending (j + 1) k i (suc f.pos) high fs (omega arith) asc.2 h
        (omega arith) in
    rw (other, kept) ((asc.0, omega arith, ih.0), ap suc ih.1)

-- What `subkey_i` leaves ascends within the keys that are one part shorter.
pub subkey_i-IsAscending :
    (i high : ℕ) (fs : RawSliceKey)
    → IsAscending 0 (suc high) fs
    → suc high ≤ 256
    → i < length fs
    → IsAscending 0 high (subkey_i fs i) × (suc (length (subkey_i fs i)) ≡ length fs)
unfolding subkey_i
subkey_i-IsAscending i high fs asc h lt =
    subkey_i_from-IsAscending 0 i i 0 high fs (omega arith) asc h lt
