-- ===== src/Bits.antt =====
-- Single bits of a word, by the recursion on its binary digits: `h & (1 << t)`, `h | (1 << t)` and
-- `h & ~(1 << t)`.
pub mod Xor
use hypertrie.Common.{
  ℕ, zero, suc, ◌+◌, ◌*◌, ◌/◌, ◌%◌, ◌≡◌, ◌≢◌, refl, arith, Bool, true, false, ◌||◌, ◌==◌, ◌<◌, ap,
}

unfoldable pub test_bit : ℕ → ℕ → Bool
test_bit zero h = h % 2 == 1
test_bit (suc t) h = test_bit t (h / 2)

unfoldable pub set_bit : ℕ → ℕ → ℕ
set_bit zero h = h / 2 * 2 + 1
set_bit (suc t) h = 2 * set_bit t (h / 2) + h % 2

unfoldable pub clear_bit : ℕ → ℕ → ℕ
clear_bit zero h = h / 2 * 2
clear_bit (suc t) h = 2 * clear_bit t (h / 2) + h % 2

pub half-double : (a b : ℕ) → b < 2 → (2 * a + b) / 2 ≡ a
half-double a b h = omega arith

odd-double : (a b : ℕ) → b < 2 → (2 * a + b) % 2 ≡ b
odd-double a b h = omega arith

half_odd : (h : ℕ) → (h / 2 * 2 + 1) / 2 ≡ h / 2
half_odd h = omega arith

pub test_bit-set_bit : (t h : ℕ) → test_bit t (set_bit t h) ≡ true
unfolding test_bit set_bit
test_bit-set_bit zero h = ground arith
test_bit-set_bit (suc t) h =
    rw (half-double (set_bit t (h / 2)) (h % 2) (omega arith)) (test_bit-set_bit t (h / 2))

pub test_bit-clear_bit : (t h : ℕ) → test_bit t (clear_bit t h) ≡ false
unfolding test_bit clear_bit
test_bit-clear_bit zero h = ground arith
test_bit-clear_bit (suc t) h =
    rw (half-double (clear_bit t (h / 2)) (h % 2) (omega arith)) (test_bit-clear_bit t (h / 2))

pub clear_bit-set_bit : (t h : ℕ) → clear_bit t (set_bit t h) ≡ clear_bit t h
unfolding clear_bit set_bit
clear_bit-set_bit zero h = omega arith
clear_bit-set_bit (suc t) h = rw (
  half-double (set_bit t (h / 2)) (h % 2) (omega arith),
  odd-double (set_bit t (h / 2)) (h % 2) (omega arith),
  clear_bit-set_bit t (h / 2),
)

pub clear_bit-clear_bit : (t h : ℕ) → clear_bit t (clear_bit t h) ≡ clear_bit t h
unfolding clear_bit
clear_bit-clear_bit zero h = omega arith
clear_bit-clear_bit (suc t) h = rw (
  half-double (clear_bit t (h / 2)) (h % 2) (omega arith),
  odd-double (clear_bit t (h / 2)) (h % 2) (omega arith),
  clear_bit-clear_bit t (h / 2),
)

pub set_bit-clear_bit : (t h : ℕ) → set_bit t (clear_bit t h) ≡ set_bit t h
unfolding set_bit clear_bit
set_bit-clear_bit zero h = omega arith
set_bit-clear_bit (suc t) h = rw (
  half-double (clear_bit t (h / 2)) (h % 2) (omega arith),
  odd-double (clear_bit t (h / 2)) (h % 2) (omega arith),
  set_bit-clear_bit t (h / 2),
)

pub set_bit-ne-zero : (t h : ℕ) → set_bit t h ≢ 0
unfolding set_bit
set_bit-ne-zero zero h = omega arith
set_bit-ne-zero (suc t) h = omega (arith, set_bit-ne-zero t (h / 2))

pub clear_bit-zero : (t : ℕ) → clear_bit t 0 ≡ 0
unfolding clear_bit
clear_bit-zero zero = refl
clear_bit-zero (suc t) = rw (clear_bit-zero t)

-- A word whose bit is clear is not changed by clearing it.
pub clear_bit_self : (t h : ℕ) → test_bit t h ≡ false → clear_bit t h ≡ h
unfolding test_bit clear_bit
clear_bit_self zero h e = ground arith
clear_bit_self (suc t) h e = omega (arith, clear_bit_self t (h / 2) e)

-- Setting a bit leaves the other bits.
pub test_bit-set_bit_iff : (a b h : ℕ) → test_bit a (set_bit b h) ≡ (b == a || test_bit a h)
unfolding test_bit set_bit
test_bit-set_bit_iff zero zero h = ground arith
test_bit-set_bit_iff zero (suc b) h =
    rw (odd-double (set_bit b (h / 2)) (h % 2) (omega arith)) (ground arith)
test_bit-set_bit_iff (suc a) zero h = rw (half_odd h) (ground arith)
test_bit-set_bit_iff (suc a) (suc b) h =
    rw (half-double (set_bit b (h / 2)) (h % 2) (omega arith), test_bit-set_bit_iff a b (h / 2))
      (ground arith)
