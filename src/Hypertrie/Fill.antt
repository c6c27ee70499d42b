-- ===== src/Hypertrie/Fill.antt =====
-- What a slice key means: the positions that it leaves free are filled, in order, by a shorter key.
use hypertrie.Common.{
  [], ap, append_assoc, arith, length, length-append, length-eq-zero, none, refl, some, subst, suc,
  sym, ℕ, ◌%◌, ◌++◌, ◌+◌, ◌∷◌, ◌≡◌, ◌≤◌,
}
use hypertrie.Hypertrie.{key_of}
use hypertrie.Key.{RawKey}
use hypertrie.Key.Merge.{IsAscending, IsAscending-weaken, insert_at, merge}
use hypertrie.Key.Slice.{SliceKey, count_free, fixed_from, of_slice_key}

abbrev pub fill : SliceKey → RawKey → RawKey
fill [] rest = []
fill (some part ∷ items) rest = part ∷ fill items rest
fill (none ∷ items) [] = []
fill (none ∷ items) (x ∷ rest) = x ∷ fill items rest

pub length-fill :
    (items : SliceKey) (rest : RawKey)
    → length rest ≡ count_free items
    → length (fill items rest) ≡ length items
unfolding count_free
length-fill [] rest l = refl
length-fill (some part ∷ items) rest l = ap suc (length-fill items rest l)
length-fill (none ∷ items) [] l = absurd (omega (arith, l))
length-fill (none ∷ items) (x ∷ rest) l = ap suc (length-fill items rest (omega (arith, l)))

pub count_free-le : (items : SliceKey) → count_free items ≤ length items
unfolding count_free
count_free-le [] = omega arith
count_free-le (none ∷ items) = omega (arith, count_free-le items)
count_free-le (some part ∷ items) = omega (arith, count_free-le items)

length-fixed_from :
    (p : ℕ) (items : SliceKey) → length (fixed_from p items) + count_free items ≡ length items
unfolding fixed_from count_free
length-fixed_from p [] = omega arith
length-fixed_from p (none ∷ items) = omega (arith, length-fixed_from ((p + 1) % 256) items)
length-fixed_from p (some part ∷ items) = omega (arith, length-fixed_from ((p + 1) % 256) items)

fixed_from-IsAscending :
    (p : ℕ) (items : SliceKey)
    → p + length items ≤ 256
    → IsAscending p (p + length items) (fixed_from (p % 256) items)
unfolding fixed_from
fixed_from-IsAscending p [] b = tt
fixed_from-IsAscending p (none ∷ items) b =
    let next : (p % 256 + 1) % 256 ≡ (p + 1) % 256 = omega arith in
    let whole : p + 1 + length items ≡ p + suc (length items) = omega arith in
    let rest = fixed_from-IsAscending (p + 1) items (omega (arith, b)) in
    rw (next, ← whole) (IsAscending-weaken (p + 1) p _ _ (omega arith) rest)
fixed_from-IsAscending p (some part ∷ items) b =
    let here : p % 256 ≡ p = omega (arith, b) in
    let whole : p + 1 + length items ≡ p + suc (length items) = omega arith in
    let one : p + 1 ≡ suc p = omega arith in
    let rest = fixed_from-IsAscending (p + 1) items (omega (arith, b)) in
    rw here (
      omega arith,
      omega arith,
      subst (λ n. IsAscending n (p + suc (length items)) (fixed_from ((p + 1) % 256) items)) one
          (rw (← whole) rest),
    )

pub of_slice_key-IsAscending :
    (items : SliceKey) → length items ≤ 256 → IsAscending 0 (length items) (of_slice_key items)
unfolding of_slice_key
of_slice_key-IsAscending items b =
    let whole : 0 + length items ≡ length items = omega arith in
    rw (← whole) (fixed_from-IsAscending 0 items (omega (arith, b)))

insert_at-append :
    (pre rest : RawKey) (a : ℕ) → insert_at (length pre) a (pre ++ rest) ≡ pre ++ (a ∷ rest)
insert_at-append [] rest a = refl
insert_at-append (x ∷ pre) rest a = ap (◌∷◌ x) (insert_at-append pre rest a)

merge-fixed_from :
    (pre : RawKey) (items : SliceKey) (rest : RawKey)
    → length pre + length items ≤ 256
    → length rest ≡ count_free items
    → merge (fixed_from (length pre % 256) items) (pre ++ rest) ≡ pre ++ fill items rest
unfolding fixed_from count_free
merge-fixed_from pre [] rest b l = ap (λ r. pre ++ r) (length-eq-zero rest l)
merge-fixed_from pre (none ∷ items) [] b l = absurd (omega (arith, l))
merge-fixed_from pre (none ∷ items) (x ∷ rest) b l =
    let longer : length (pre ++ (x ∷ [])) ≡ length pre + 1 = length-append pre (x ∷ []) in
    let next : (length pre % 256 + 1) % 256 ≡ (length pre + 1) % 256 = omega arith in
    let tail =
      merge-fixed_from (pre ++ (x ∷ [])) items rest (omega (arith, longer, b)) (omega (arith, l)) in
    rw next (
      subst
        (λ n. merge (fixed_from (n % 256) items) (pre ++ (x ∷ rest)) ≡ pre ++ (x ∷ fill items rest))
        longer (simp append_assoc at tail))
merge-fixed_from pre (some part ∷ items) rest b l =
    let longer : length (pre ++ (part ∷ [])) ≡ length pre + 1 = length-append pre (part ∷ []) in
    let here : length pre % 256 ≡ length pre = omega (arith, b) in
    let tail = merge-fixed_from (pre ++ (part ∷ [])) items rest (omega (arith, longer, b)) l in
    rw (here, insert_at-append pre rest part)
      (subst
        (λ n.
          merge (fixed_from (n % 256) items) (pre ++ (part ∷ rest))
          ≡ pre ++ (part ∷ fill items rest))
        longer (simp append_assoc at tail))

pub merge-of_slice_key :
    (items : SliceKey) (rest : RawKey)
    → length items ≤ 256
    → length rest ≡ count_free items
    → merge (of_slice_key items) rest ≡ fill items rest
unfolding of_slice_key
merge-of_slice_key items rest b l = merge-fixed_from [] items rest (omega (arith, b)) l

pub length-of_slice_key :
    (items : SliceKey) → length (of_slice_key items) + count_free items ≡ length items
unfolding of_slice_key
length-of_slice_key items = length-fixed_from 0 items

pub fill-free :
    (items : SliceKey) (k : RawKey)
    → length k ≡ length items
    → count_free items ≡ length items
    → fill items k ≡ k
unfolding count_free
fill-free [] k l c = sym (length-eq-zero k l)
fill-free (some part ∷ items) k l c = absurd (omega (arith, c, count_free-le items))
fill-free (none ∷ items) [] l c = absurd (omega (arith, l))
fill-free (none ∷ items) (x ∷ k) l c =
    ap (◌∷◌ x) (fill-free items k (omega (arith, l)) (omega (arith, c)))

pub key_of-fill : (items : SliceKey) → count_free items ≡ 0 → key_of items ≡ fill items []
unfolding key_of count_free
key_of-fill [] c = refl
key_of-fill (some part ∷ items) c = ap (◌∷◌ part) (key_of-fill items c)
key_of-fill (none ∷ items) c = absurd (omega (arith, c))
