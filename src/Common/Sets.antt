-- ===== src/Common/Sets.antt =====
-- The hash sets of numbers: lists with no number twice, in the order of their iteration.
use Prim.Native.Nat.{ℕ, suc, ◌+◌, ◌≤◌, ◌<◌}
use mathlib.Core.Path.{◌≡◌, refl}
use mathlib.Core.Bool.{Bool, true, false, not, ◌&&◌, ◌||◌}
use mathlib.Core.List.{List, [], ◌∷◌}
use native.Mathlib.Omega.{arith}
use hypertrie.Common.Tests.{◌==◌, if◌then◌else◌}
use hypertrie.Common.Lists.{contains, filter, length}

-- `insert`
unfoldable pub set_insert : ℕ → List ℕ → List ℕ
set_insert a xs = if contains xs a then xs else a ∷ xs

-- `erase`
unfoldable pub set_erase : ℕ → List ℕ → List ℕ
set_erase a [] = []
set_erase a (x ∷ xs) = if x == a then set_erase a xs else x ∷ set_erase a xs

-- The set of the elements of a list.
unfoldable pub set_of : List ℕ → List ℕ
set_of [] = []
set_of (x ∷ xs) = set_insert x (set_of xs)

-- The number of places where `a` stands.
abbrev pub count : ℕ → List ℕ → ℕ
count a [] = 0
count a (x ∷ xs) = (if x == a then 1 else 0) + count a xs

-- How often a number stands in the lists, all of them together.
abbrev pub count_all : ℕ → List (List ℕ) → ℕ
count_all a [] = 0
count_all a (c ∷ cs) = count a c + count_all a cs

abbrev pub IsDistinct : List ℕ → Type 0
IsDistinct xs = (a : ℕ) → count a xs ≤ 1

pub contains-count :
    (xs : List ℕ) (a : ℕ) → contains xs a ≡ (if count a xs == 0 then false else true)
contains-count [] a = refl
contains-count (x ∷ xs) a = ground (arith, contains-count xs a)

pub count-set_erase :
    (a x : ℕ) (xs : List ℕ) → count a (set_erase x xs) ≡ (if x == a then 0 else count a xs)
unfolding set_erase
count-set_erase a x [] = ground arith
count-set_erase a x (y ∷ ys) = ground (arith, count-set_erase a x ys)

pub count-set_insert :
    (a x : ℕ) (xs : List ℕ)
    → count a (set_insert x xs) ≡ (if x == a && count a xs == 0 then 1 else count a xs)
unfolding set_insert
count-set_insert a x xs = ground (arith, contains-count xs x)

pub contains-set_insert :
    (x : ℕ) (xs : List ℕ) (a : ℕ) → contains (set_insert x xs) a ≡ (x == a || contains xs a)
unfolding set_insert
contains-set_insert x xs a = ground (arith)

pub contains-set_erase :
    (x : ℕ) (xs : List ℕ) (a : ℕ) → contains (set_erase x xs) a ≡ (not (x == a) && contains xs a)
unfolding set_erase
contains-set_erase x [] a = ground arith
contains-set_erase x (y ∷ ys) a = ground (arith, contains-set_erase x ys a)

pub contains-set_of : (xs : List ℕ) (a : ℕ) → contains (set_of xs) a ≡ contains xs a
unfolding set_of
contains-set_of [] a = refl
contains-set_of (x ∷ xs) a =
    ground (arith, contains-set_insert x (set_of xs) a, contains-set_of xs a)

pub set_of-IsDistinct : (xs : List ℕ) → IsDistinct (set_of xs)
unfolding set_of
set_of-IsDistinct [] a = omega arith
set_of-IsDistinct (x ∷ xs) a =
    ground (arith, count-set_insert a x (set_of xs), set_of-IsDistinct xs a)

pub length-set_insert : (x : ℕ) (xs : List ℕ) → length (set_insert x xs) ≤ suc (length xs)
unfolding set_insert
length-set_insert x xs = ground arith

pub length-set_erase : (x : ℕ) (xs : List ℕ) → length (set_erase x xs) ≤ length xs
unfolding set_erase
length-set_erase x [] = omega arith
length-set_erase x (y ∷ ys) = ground (arith, length-set_erase x ys)

-- Erasing an element makes the set smaller.
pub length-set_erase_lt :
    (x : ℕ) (xs : List ℕ) → contains xs x ≡ true → length (set_erase x xs) < length xs
unfolding set_erase
length-set_erase_lt x [] h = absurd (ground (arith, h))
length-set_erase_lt x (y ∷ ys) h = ground (arith, length-set_erase x ys, length-set_erase_lt x ys)

-- A set is no larger than a list that has all its elements.
pub length-subset :
    (xs ys : List ℕ)
    → IsDistinct xs
    → ((a : ℕ) → contains xs a ≡ true → contains ys a ≡ true)
    → length xs ≤ length ys
length-subset [] ys d within = omega arith
length-subset (x ∷ xs) ys d within =
    let smaller = length-set_erase_lt x ys (within x (ground arith)) in
    let rest =
      length-subset xs (set_erase x ys) (λ a. ground (arith, d a))
        λ a h. ground (arith, contains-set_erase x ys a, within a, contains-count xs a, d x) in
    omega (arith, smaller, rest)

pub count-filter : (p : ℕ → Bool) (xs : List ℕ) (a : ℕ) → count a (filter p xs) ≤ count a xs
count-filter p [] a = omega arith
count-filter p (x ∷ xs) a = ground (arith, count-filter p xs a)
