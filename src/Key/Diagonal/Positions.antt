-- ===== src/Key/Diagonal/Positions.antt =====
-- The packed bits hold the positions that they are made of.
use hypertrie.Common.{
  ℕ, zero, suc, ◌+◌, ◌/◌, ◌%◌, ◌<◌, ◌≡◌, refl, arith, ap, ◌∙◌, List, [], ◌∷◌, Bool, true, false,
  ◌||◌, ◌==◌, length, get_or, replicate, contains, get_or-set, length-set, length-replicate, ==_iff,
  Bool-cases, inl, inr,
}
use hypertrie.Bits.{test_bit, set_bit, test_bit-set_bit_iff}
use hypertrie.Key.Diagonal.{RawKeyPositions, set_true, set_all, of_positions, is_set}

same_byte :
    (p q : ℕ) (before : Bool) → q / 8 ≡ p / 8 → (q % 8 == p % 8 || before) ≡ (q == p || before)
same_byte p q before e = ground (arith, e)

other_byte : (p q : ℕ) (before : Bool) → (q / 8 == p / 8) ≡ false → before ≡ (q == p || before)
other_byte p q before e = ground (arith, e)

or_swap : (a b c : Bool) → (b || (a || c)) ≡ ((a || b) || c)
or_swap true true c = refl
or_swap true false c = refl
or_swap false true c = refl
or_swap false false c = refl

test_bit-zero : (k : ℕ) → test_bit k 0 ≡ false
unfolding test_bit
test_bit-zero zero = refl
test_bit-zero (suc k) = test_bit-zero k

get_or-replicate : (n j a : ℕ) → get_or (replicate n a) j a ≡ a
get_or-replicate zero j a = refl
get_or-replicate (suc n) zero a = refl
get_or-replicate (suc n) (suc j) a = get_or-replicate n j a

pub is_set-set_true :
    (p q : ℕ) (d : RawKeyPositions)
    → q / 8 < length d
    → is_set (set_true q d) p ≡ (q == p || is_set d p)
unfolding is_set set_true
is_set-set_true p q d lt =
    let placed = get_or-set d (q / 8) (p / 8) (set_bit (q % 8) (get_or d (q / 8) 0)) 0 lt in
    elim (Bool-cases (q / 8 == p / 8)) [
      | inl e ↦
          let same = (==_iff (q / 8) (p / 8)).0 e in
          rw
            (
              is_set,
              set_true,
              placed,
              e,
              same,
              test_bit-set_bit_iff (p % 8) (q % 8) (get_or d (p / 8) 0),
            )
            (same_byte p q (test_bit (p % 8) (get_or d (p / 8) 0)) same)
      | inr e ↦
          rw (is_set, set_true, placed, e)
            (other_byte p q (test_bit (p % 8) (get_or d (p / 8) 0)) e)
    ]

pub clear : (p n : ℕ) → is_set (replicate n 0) p ≡ false
clear p n = unfold is_set in rw (get_or-replicate n (p / 8) 0) (test_bit-zero (p % 8))

-- All positions fit.
abbrev pub AreBelow : ℕ → List ℕ → Type 0
AreBelow depth [] = Unit {0}
AreBelow depth (pos ∷ positions) = (pos < depth) × AreBelow depth positions

set_all-contains :
    (depth p : ℕ) (positions : List ℕ) (d : RawKeyPositions)
    → AreBelow depth positions
    → length d ≡ depth / 8 + 1
    → is_set (set_all positions d) p ≡ (contains positions p || is_set d p)
unfolding set_all
set_all-contains depth p [] d b l = refl
set_all-contains depth p (q ∷ positions) d (lt, b) l =
    set_all-contains depth p positions (set_true q d) b
      ((unfold set_true in length-set d (q / 8) _) ∙ l)
    ∙ ap (λ z. contains positions p || z) (is_set-set_true p q d (omega (arith, lt, l)))
    ∙ or_swap (q == p) (contains positions p) (is_set d p)

-- For a depth above 0 and positions below it, the bit of a position is set in the packed bytes
-- exactly where the position is one of those that they are made of.
pub of_positions-contains :
    (depth p : ℕ) (positions : List ℕ)
    → 0 < depth
    → AreBelow depth positions
    → is_set (of_positions depth positions) p ≡ contains positions p
unfolding of_positions
of_positions-contains depth p positions some_depth b =
    let some_bytes : (depth == 0) ≡ false = ground (arith, some_depth) in
    rw some_bytes (
      set_all-contains depth p positions (replicate (depth / 8 + 1) 0) b
        (length-replicate (depth / 8 + 1) 0)
      ∙ ap (λ z. contains positions p || z) (clear p (depth / 8 + 1))
      ∙ or_false (contains positions p))
  where
    or_false : (c : Bool) → (c || false) ≡ c
    or_false true = refl
    or_false false = refl
