-- ===== src/Key/Merge/Slice.antt =====
-- `RawSliceKey::slice` is the inverse of `merge`.
use hypertrie.Common.{
  ℕ, suc, ◌+◌, ◌-◌, ◌≡◌, [], ◌∷◌, length, refl, arith, ap, ◌==◌, Option, some, none, ◌>>=◌, ◌↔◌,
  ◌∙◌, ◌≢◌, Bool, true, false, ==_iff, sym, if◌then◌else◌,
}
use mathlib.Core.Path.{ap₂}
use native.Mathlib.Decide.{ℕ_discrete as dec_eq}
use hypertrie.Key.{RawKey}
use hypertrie.Key.Slice.{FixedValue, RawSliceKey, slice, slice_from}
use hypertrie.Key.Merge.{insert_at, merge, IsAscending, IsAscending-weaken, length-IsAscending}

-- The slice key of what is left from key position `k` on.
abbrev pub down : ℕ → RawSliceKey → RawSliceKey
down k [] = []
down k (f ∷ fs) = record f { pos = f.pos - k } ∷ down k fs

down-zero : (fs : RawSliceKey) → down 0 fs ≡ fs
down-zero [] = refl
down-zero (f ∷ fs) = ground (arith, down-zero fs)

merge-down-cons :
    (k high x : ℕ) (fs : RawSliceKey) (r : RawKey)
    → IsAscending (suc k) high fs
    → merge (down k fs) (x ∷ r) ≡ x ∷ merge (down (k + 1) fs) r
merge-down-cons k high x [] r a = refl
merge-down-cons k high x (f ∷ fs) r a =
    let e : f.pos - k ≡ suc (f.pos - (k + 1)) = omega arith in
    ap (λ p. merge (down k fs) (insert_at p f.key_part (x ∷ r))) e
    ∙ merge-down-cons k high x fs (insert_at (f.pos - (k + 1)) f.key_part r)
        (IsAscending-weaken _ _ high fs (omega arith) a.2)

-- One round of the loop at a fixed position, and at a free one.
slice_from-fixed :
    (f : FixedValue) (fs : RawSliceKey) (k x : ℕ) (xs : RawKey)
    → f.pos ≡ k
    → slice_from (f ∷ fs) k (x ∷ xs) ≡ (if f.key_part == x then slice_from fs (k + 1) xs else none)
unfolding slice_from
slice_from-fixed f fs k x xs e = ground arith

slice_from-free :
    (f : FixedValue) (fs : RawSliceKey) (k x : ℕ) (xs : RawKey)
    → f.pos ≢ k
    → slice_from (f ∷ fs) k (x ∷ xs) ≡ (slice_from (f ∷ fs) (k + 1) xs >>= λ r. some (x ∷ r))
unfolding slice_from
slice_from-free f fs k x xs e = ground arith

cons-eq-some :
    (x : ℕ) (o : Option RawKey) (r : RawKey)
    → (o >>= λ r. some (x ∷ r)) ≡ some r
    → (r' : RawKey) × (o ≡ some r') × (r ≡ x ∷ r')
cons-eq-some x none r h = cc
cons-eq-some x (some r') r h = (r', refl, cc)

if-eq-some :
    (c : Bool) (o : Option RawKey) (r : RawKey)
    → (if c then o else none) ≡ some r
    → (c ≡ true) × (o ≡ some r)
if-eq-some true o r h = (refl, h)
if-eq-some false o r h = cc

cons-injective : {x y : ℕ} {xs ys : RawKey} → x ∷ xs ≡ y ∷ ys → (x ≡ y) × (xs ≡ ys)
cons-injective h = (cc, cc)

slice_from_sound :
    (fs : RawSliceKey) (k high : ℕ) (xs r : RawKey)
    → IsAscending k high fs
    → high ≡ k + length xs
    → slice_from fs k xs ≡ some r
    → merge (down k fs) r ≡ xs
unfolding slice_from
slice_from_sound [] k high [] r a e h = ground arith
slice_from_sound (f ∷ fs) k high [] r a e h = absurd (omega arith)
slice_from_sound [] k high (x ∷ xs) r a e h =
    let (r', p, q) = cons-eq-some x (slice_from [] (k + 1) xs) r h in
    q ∙ ap (◌∷◌ x) (slice_from_sound [] (k + 1) high xs r' tt (omega arith) p)
slice_from_sound (f ∷ fs) k high (x ∷ xs) r a e h = elim (dec_eq f.pos k) [
  | yes p ↦ at_fixed p (λ n run. slice_from_sound fs (k + 1) high xs r n (omega arith) run)
  | no p ↦
      let (r', u, q) =
        cons-eq-some x (slice_from (f ∷ fs) (k + 1) xs) r
          (rw (slice_from-free f fs k x xs p) at h) in
      ap (merge (down k (f ∷ fs))) q
      ∙ merge-down-cons k high x (f ∷ fs) r' (omega arith, a.1, a.2)
      ∙ ap (◌∷◌ x)
          (slice_from_sound (f ∷ fs) (k + 1) high xs r' (omega arith, a.1, a.2) (omega arith) u)
]
  where
    at_fixed :
        f.pos ≡ k
        → (IsAscending (k + 1) high fs
            → slice_from fs (k + 1) xs ≡ some r
            → merge (down (k + 1) fs) r ≡ xs)
        → merge (down k (f ∷ fs)) r ≡ x ∷ xs
    at_fixed p ih =
        let step = slice_from-fixed f fs k x xs p in
        let (same, run) = if-eq-some (f.key_part == x) _ r (rw step at h) in
        let later = IsAscending-weaken (suc f.pos) (suc k) high fs (omega arith) a.2 in
        let next = IsAscending-weaken (suc f.pos) (k + 1) high fs (omega arith) a.2 in
        let e' : f.pos - k ≡ 0 = omega arith in
        ap (λ q. merge (down k fs) (insert_at q f.key_part r)) e'
        ∙ merge-down-cons k high f.key_part fs r later
        ∙ ap₂ ◌∷◌ ((==_iff f.key_part x).0 same) (ih next run)

slice_from_complete :
    (fs : RawSliceKey) (k high : ℕ) (xs r : RawKey)
    → IsAscending k high fs
    → high ≡ k + length xs
    → length r + length fs ≡ length xs
    → merge (down k fs) r ≡ xs
    → slice_from fs k xs ≡ some r
unfolding slice_from
slice_from_complete [] k high [] r a e l h = ap some (sym h)
slice_from_complete (f ∷ fs) k high [] r a e l h = absurd (omega arith)
slice_from_complete [] k high (x ∷ xs) r a e l h =
    rw (slice_from_complete [] (k + 1) high xs xs tt (omega arith) (omega arith) refl)
      (ap some (sym h))
slice_from_complete (f ∷ fs) k high (x ∷ xs) r a e l h = elim (dec_eq f.pos k) [
  | yes p ↦
      at_fixed p (λ n m. slice_from_complete fs (k + 1) high xs r n (omega arith) (omega arith) m)
  | no p ↦ at_free r l h p (λ r' n m.
      slice_from_complete (f ∷ fs) (k + 1) high xs r' (omega arith, a.1, a.2) (omega arith) n m)
]
  where
    at_fixed :
        f.pos ≡ k
        → (IsAscending (k + 1) high fs
            → merge (down (k + 1) fs) r ≡ xs
            → slice_from fs (k + 1) xs ≡ some r)
        → slice_from (f ∷ fs) k (x ∷ xs) ≡ some r
    at_fixed p ih =
        let later = IsAscending-weaken (suc f.pos) (suc k) high fs (omega arith) a.2 in
        let next = IsAscending-weaken (suc f.pos) (k + 1) high fs (omega arith) a.2 in
        let e' : f.pos - k ≡ 0 = omega arith in
        let m : f.key_part ∷ merge (down (k + 1) fs) r ≡ x ∷ xs =
          sym (merge-down-cons k high f.key_part fs r later)
          ∙ ap (λ q. merge (down k fs) (insert_at q f.key_part r)) (sym e')
          ∙ h in
        slice_from-fixed f fs k x xs p
        ∙ rw ((==_iff f.key_part x).1 (cons-injective m).0) (ih next (cons-injective m).1)

    at_free :
        (r : RawKey)
        → length r + length (f ∷ fs) ≡ length (x ∷ xs)
        → merge (down k (f ∷ fs)) r ≡ x ∷ xs
        → f.pos ≢ k
        → ((r' : RawKey)
            → length r' + length (f ∷ fs) ≡ length xs
            → merge (down (k + 1) (f ∷ fs)) r' ≡ xs
            → slice_from (f ∷ fs) (k + 1) xs ≡ some r')
        → slice_from (f ∷ fs) k (x ∷ xs) ≡ some r
    at_free [] l h p ih = absurd (
        omega
          (arith, length-IsAscending (k + 1) high (f ∷ fs) (omega arith) (omega arith, a.1, a.2)))
    at_free (y ∷ r') l h p ih =
        let m = sym (merge-down-cons k high y (f ∷ fs) r' (omega arith, a.1, a.2)) ∙ h in
        slice_from-free f fs k x xs p
        ∙ rw (ih r' (omega arith) (cons-injective m).1)
            (ap (λ z. some (z ∷ r')) (sym (cons-injective m).0))

-- For ascending fixed positions below the length of the key, and a rest of the remaining length:
-- slicing the key gives the rest exactly where the slice key filled with the rest is the key.
pub slice-merge_iff :
    (fs : RawSliceKey) (key rest : RawKey)
    → IsAscending 0 (length key) fs
    → length rest + length fs ≡ length key
    → (slice fs key ≡ some rest) ↔ (merge fs rest ≡ key)
unfolding slice
slice-merge_iff [] key rest a l = (λ h. cc, λ h. cc)
slice-merge_iff (f ∷ fs) key rest a l = (
  λ h.
      rw (down-zero (f ∷ fs)) at
        (slice_from_sound (f ∷ fs) 0 (length key) key rest a (omega arith) h),
  λ h.
      slice_from_complete (f ∷ fs) 0 (length key) key rest a (omega arith) l
        (ap (λ z. merge z rest) (down-zero (f ∷ fs)) ∙ h),
)

-- A key that slices to `rest` is `rest` with the fixed parts filled in.
pub slice_sound :
    (fs : RawSliceKey) (key rest : RawKey)
    → IsAscending 0 (length key) fs
    → slice fs key ≡ some rest
    → merge fs rest ≡ key
unfolding slice
slice_sound [] key rest a h = cc
slice_sound (f ∷ fs) key rest a h =
    rw (down-zero (f ∷ fs)) at (slice_from_sound (f ∷ fs) 0 (length key) key rest a (omega arith) h)
