-- ===== src/Key/Merge/Subkey.antt =====
-- `RawKey::subkey` takes out one position and keeps the others.
use hypertrie.Common.{ℕ, zero, suc, ◌+◌, ◌<◌, ◌≤◌, ◌≡◌, [], ◌∷◌, length, refl, arith, get_or}
use hypertrie.Key.{RawKey, subkey, subkey_from}
use hypertrie.Key.Merge.{insert_at}

subkey_from_past : (i p : ℕ) (xs : RawKey) → p < i → subkey_from i p xs ≡ xs
unfolding subkey_from
subkey_from_past i p [] h = refl
subkey_from_past i p (x ∷ xs) h = ground (arith, subkey_from_past (i + 1) p xs)

subkey_from-insert_at :
    (i q p a : ℕ) (xs : RawKey)
    → q ≡ i + p
    → p ≤ length xs
    → subkey_from i q (insert_at p a xs) ≡ xs
unfolding subkey_from
subkey_from-insert_at i q zero a xs e h = ground (arith, subkey_from_past (i + 1) q xs)
subkey_from-insert_at i q (suc p) a [] e h = absurd (omega arith)
subkey_from-insert_at i q (suc p) a (x ∷ xs) e h =
    ground (arith, subkey_from-insert_at (i + 1) q p a xs)

-- Taking a position out undoes filling it.
pub subkey-insert_at : (p a : ℕ) (xs : RawKey) → p ≤ length xs → subkey (insert_at p a xs) p ≡ xs
unfolding subkey
subkey-insert_at p a xs h = subkey_from-insert_at 0 p p a xs (omega arith) h

pub get_or-insert_at : (p a d : ℕ) (xs : RawKey) → p ≤ length xs → get_or (insert_at p a xs) p d ≡ a
get_or-insert_at zero a d xs h = refl
get_or-insert_at (suc p) a d [] h = absurd (omega arith)
get_or-insert_at (suc p) a d (x ∷ xs) h = get_or-insert_at p a d xs (omega arith)

insert_at-subkey_from :
    (i q p d : ℕ) (xs : RawKey)
    → q ≡ i + p
    → p < length xs
    → insert_at p (get_or xs p d) (subkey_from i q xs) ≡ xs
unfolding subkey_from
insert_at-subkey_from i q p d [] e h = absurd (omega arith)
insert_at-subkey_from i q zero d (x ∷ xs) e h = ground (arith, subkey_from_past (i + 1) q xs)
insert_at-subkey_from i q (suc p) d (x ∷ xs) e h =
    ground (arith, insert_at-subkey_from (i + 1) q p d xs)

-- For a position inside the key, inserting the key part of that position into `subkey` gives the
-- key back.
pub insert_at-subkey :
    (p d : ℕ) (xs : RawKey) → p < length xs → insert_at p (get_or xs p d) (subkey xs p) ≡ xs
unfolding subkey
insert_at-subkey p d xs h = insert_at-subkey_from 0 p p d xs (omega arith) h
