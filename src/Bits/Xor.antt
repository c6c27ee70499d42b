-- ===== src/Bits/Xor.antt =====
-- The exclusive or of two words by the recursion on their digits, with the laws that
-- `hash_invertible_combine` of dice-hash has. Fuel `a + b` is enough: each round halves both.
use hypertrie.Common.{ℕ, zero, suc, ◌+◌, ◌*◌, ◌/◌, ◌%◌, ◌≡◌, ◌≤◌, refl, arith, ap, ◌∙◌, sym}
use hypertrie.Bits.{clear_bit, clear_bit-zero, half-double}

xor_digits : ℕ → ℕ → ℕ → ℕ
xor_digits zero a b = 0
xor_digits (suc n) a b = 2 * xor_digits n (a / 2) (b / 2) + (a % 2 + b % 2) % 2

unfoldable pub xor : ℕ → ℕ → ℕ
unfolding xor_digits
xor a b = xor_digits (a + b) a b

xor_digits-zero : (n : ℕ) → xor_digits n 0 0 ≡ 0
unfolding xor_digits
xor_digits-zero zero = refl
xor_digits-zero (suc n) = omega (arith, xor_digits-zero n)

xor_digits_fuel : (n m a b : ℕ) → a + b ≤ n → a + b ≤ m → xor_digits n a b ≡ xor_digits m a b
unfolding xor_digits
xor_digits_fuel zero m a b h k =
    let p : a ≡ 0 = omega arith in
    let q : b ≡ 0 = omega arith in rw (p, q) (sym (xor_digits-zero m))
xor_digits_fuel (suc n) zero a b h k =
    let p : a ≡ 0 = omega arith in
    let q : b ≡ 0 = omega arith in rw (p, q) (omega (arith, xor_digits-zero n))
xor_digits_fuel (suc n) (suc m) a b h k =
    rw (xor_digits_fuel n m (a / 2) (b / 2) (omega arith) (omega arith))

-- With fuel for the larger of two runs both agree with `xor`.
xor-eq-digits : (n a b : ℕ) → a + b ≤ n → xor a b ≡ xor_digits n a b
unfolding xor
xor-eq-digits n a b h = xor_digits_fuel (a + b) n a b (omega arith) h

xor_digits_comm : (n a b : ℕ) → xor_digits n a b ≡ xor_digits n b a
unfolding xor_digits
xor_digits_comm zero a b = refl
xor_digits_comm (suc n) a b = omega (arith, xor_digits_comm n (a / 2) (b / 2))

xor_digits_self : (n a : ℕ) → xor_digits n a a ≡ 0
unfolding xor_digits
xor_digits_self zero a = refl
xor_digits_self (suc n) a = omega (arith, xor_digits_self n (a / 2))

xor_digits-zero_left : (n a : ℕ) → a ≤ n → xor_digits n 0 a ≡ a
unfolding xor_digits
xor_digits-zero_left zero a h = omega arith
xor_digits-zero_left (suc n) a h = omega (arith, xor_digits-zero_left n (a / 2) (omega arith))

xor_digits-le : (n a b : ℕ) → xor_digits n a b ≤ a + b
unfolding xor_digits
xor_digits-le zero a b = omega arith
xor_digits-le (suc n) a b = omega (arith, xor_digits-le n (a / 2) (b / 2))

xor_digits_assoc :
    (n a b c : ℕ) → xor_digits n (xor_digits n a b) c ≡ xor_digits n a (xor_digits n b c)
unfolding xor_digits
xor_digits_assoc zero a b c = refl
xor_digits_assoc (suc n) a b c =
    let left = xor_digits n (a / 2) (b / 2) in
    let right = xor_digits n (b / 2) (c / 2) in
    let e₁ : (2 * left + (a % 2 + b % 2) % 2) / 2 ≡ left = omega arith in
    let e₂ : (2 * right + (b % 2 + c % 2) % 2) / 2 ≡ right = omega arith in
    rw (e₁, e₂) (omega (arith, xor_digits_assoc n (a / 2) (b / 2) (c / 2)))

pub xor_comm : (a b : ℕ) → xor a b ≡ xor b a
xor_comm a b =
    xor-eq-digits (a + b) a b (omega arith)
    ∙ xor_digits_comm (a + b) a b
    ∙ sym (xor-eq-digits (a + b) b a (omega arith))

pub xor_assoc : (a b c : ℕ) → xor (xor a b) c ≡ xor a (xor b c)
xor_assoc a b c =
    let n = a + b + c in
    let p = xor-eq-digits n a b (omega arith) in
    let q = xor-eq-digits n b c (omega arith) in
    let le₁ = xor_digits-le n a b in
    let le₂ = xor_digits-le n b c in
    rw (p, q)
      (xor-eq-digits n (xor_digits n a b) c (omega arith)
        ∙ xor_digits_assoc n a b c
        ∙ sym (xor-eq-digits n a (xor_digits n b c) (omega arith)))

pub zero-xor : (a : ℕ) → xor 0 a ≡ a
zero-xor a = xor-eq-digits a 0 a (omega arith) ∙ xor_digits-zero_left a a (omega arith)

pub xor_self : (a : ℕ) → xor a a ≡ 0
xor_self a = xor-eq-digits (a + a) a a (omega arith) ∙ xor_digits_self (a + a) a

clear_bit-le : (t h : ℕ) → clear_bit t h ≤ h
unfolding clear_bit
clear_bit-le zero h = omega arith
clear_bit-le (suc t) h = omega (arith, clear_bit-le t (h / 2))

clear_bit-xor_digits :
    (t n a b : ℕ) → clear_bit t (xor_digits n a b) ≡ xor_digits n (clear_bit t a) (clear_bit t b)
unfolding clear_bit xor_digits
clear_bit-xor_digits zero zero a b = refl
clear_bit-xor_digits (suc t) zero a b = omega (arith, clear_bit-zero t)
clear_bit-xor_digits zero (suc n) a b =
    let p : a / 2 * 2 / 2 ≡ a / 2 = omega arith in
    let q : b / 2 * 2 / 2 ≡ b / 2 = omega arith in rw (p, q) (omega arith)
clear_bit-xor_digits (suc t) (suc n) a b =
    let x = xor_digits n (a / 2) (b / 2) in
    let p = half-double x ((a % 2 + b % 2) % 2) (omega arith) in
    let q = half-double (clear_bit t (a / 2)) (a % 2) (omega arith) in
    let r = half-double (clear_bit t (b / 2)) (b % 2) (omega arith) in
    rw (p, q, r) (omega (arith, clear_bit-xor_digits t n (a / 2) (b / 2)))

pub clear_bit-xor : (t a b : ℕ) → clear_bit t (xor a b) ≡ xor (clear_bit t a) (clear_bit t b)
clear_bit-xor t a b =
    let p = clear_bit-le t a in
    let q = clear_bit-le t b in
    ap (clear_bit t) (xor-eq-digits (a + b) a b (omega arith))
    ∙ clear_bit-xor_digits t (a + b) a b
    ∙ sym (xor-eq-digits (a + b) (clear_bit t a) (clear_bit t b) (omega arith))
