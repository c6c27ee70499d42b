-- ===== src/Product/Values.antt =====
-- The values of the iterator: products of 64-bit words, which `operator++` divides by the value of
-- the result that it leaves.
use native.Mathlib.Nat.{mod-eq_of_lt, mul-div_cancel, mul-le-mul, mul-pos}
use hypertrie.Common.{
  Bool-cases, List, [], ap, arith, get_or, inl, inr, length, refl, replicate, suc, zero, ℕ, ◌*◌,
  ◌/◌, ◌<◌, ◌==◌, ◌^◌, ◌∙◌, ◌∷◌, ◌≡◌, ◌≤◌,
}
use hypertrie.Product.{
  Factor, SubEntry, increment, increment_from, no_entry, restart, restart_from, word,
}
use hypertrie.Product.Digits.{AreInside, total}
use hypertrie.Product.Enumeration.{AllInhabited, after, after-IsCombination}

abbrev pub value_at : Factor → ℕ → ℕ
value_at f p = (get_or f.sub_result p no_entry).value

-- The product of the values of the results at the positions.
abbrev pub product : List Factor → List ℕ → ℕ
product [] ps = 1
product (f ∷ fs) [] = 1
product (f ∷ fs) (p ∷ ps) = value_at f p * product fs ps

-- No value is 0, as `operator++` asserts, and none exceeds the bound.
abbrev pub EntriesWithin : ℕ → List SubEntry → Type 0
EntriesWithin b [] = Unit
EntriesWithin b (e ∷ es) = (0 < e.value) × (e.value ≤ b) × EntriesWithin b es

abbrev pub AreWithin : ℕ → List Factor → Type 0
AreWithin b [] = Unit
AreWithin b (f ∷ fs) = EntriesWithin b f.sub_result × AreWithin b fs

-- The bound of a product of values, one of each factor.
abbrev pub product_bound : ℕ → List Factor → ℕ
product_bound b [] = 1
product_bound b (f ∷ fs) = b * product_bound b fs

entry_within :
    (b : ℕ) (es : List SubEntry) (p : ℕ)
    → EntriesWithin b es
    → p < length es
    → (0 < (get_or es p no_entry).value) × ((get_or es p no_entry).value ≤ b)
entry_within b [] p h lt = absurd (omega (arith, lt))
entry_within b (e ∷ es) zero (pos_e, le, h) lt = (pos_e, le)
entry_within b (e ∷ es) (suc p) (pos_e, le, h) lt = entry_within b es p h (omega (arith, lt))

product-le :
    (b : ℕ) (fs : List Factor) (ps : List ℕ)
    → AreWithin b fs
    → AreInside fs ps
    → product fs ps ≤ product_bound b fs
product-le b [] ps w h = omega arith
product-le b (f ∷ fs) [] w h = absurd (ground (arith, h))
product-le b (f ∷ fs) (p ∷ ps) (w, ws) (lt, h) =
    mul-le-mul (entry_within b f.sub_result p w lt).1 (product-le b fs ps ws h)

-- A step of one factor: the product with the new value, where the old one is divided out.
exchange :
    (c last rest current : ℕ)
    → 0 < last
    → c * (last * rest) * current < 2 ^ 64
    → word (c * (last * rest) * current) / last ≡ c * current * rest
exchange c last rest current nonzero fits =
    let order : c * (last * rest) * current ≡ c * current * rest * last = omega arith in
    ap (λ n. n / last) (mod-eq_of_lt fits ∙ order) ∙ mul-div_cancel (c * current * rest) nonzero

-- The largest product that a step computes before it divides.
step-le :
    (c last rest current b bound : ℕ)
    → last ≤ b
    → rest ≤ bound
    → current ≤ b
    → c * (last * rest) * current ≤ c * (b * bound) * b
step-le c last rest current b bound l r k = mul-le-mul (mul-le-mul (omega arith) (mul-le-mul l r)) k

-- The value after a step of one factor, from its old position to a new one.
moved :
    (b c : ℕ) (f : Factor) (fs : List Factor) (p q : ℕ) (ps : List ℕ)
    → AreWithin b (f ∷ fs)
    → AreInside (f ∷ fs) (p ∷ ps)
    → q < length f.sub_result
    → c * product_bound b (f ∷ fs) * b < 2 ^ 64
    → word (c * product (f ∷ fs) (p ∷ ps) * value_at f q) / value_at f p
      ≡ c * value_at f q * product fs ps
moved b c f fs p q ps (w, ws) (lt, h) lt_q fits =
    let (positive_p, le_p) = entry_within b f.sub_result p w lt in
    let (positive_q, le_q) = entry_within b f.sub_result q w lt_q in
    let bounded =
      step-le c (value_at f p) (product fs ps) (value_at f q) b (product_bound b fs) le_p
        (product-le b fs ps ws h) le_q in
    exchange c (value_at f p) (product fs ps) (value_at f q) positive_p
      (omega (arith, bounded, fits))

-- What is left for the other factors once one has moved.
room : (b c v bound : ℕ) → v ≤ b → c * (b * bound) * b < 2 ^ 64 → c * v * bound * b < 2 ^ 64
room b c v bound le fits =
    let bounded : c * v * bound * b ≤ c * b * bound * b =
      mul-le-mul (mul-le-mul (mul-le-mul (omega arith) le) (omega arith)) (omega arith) in
    omega (arith, bounded, fits)

pub value-increment_from :
    (b c : ℕ) (fs : List Factor) (ps entry : List ℕ)
    → AreWithin b fs
    → AreInside fs ps
    → c * product_bound b fs * b < 2 ^ 64
    → (increment_from fs ps entry (c * product fs ps)).value
      ≡ c * product fs (increment_from fs ps entry (c * product fs ps)).iter_poss
unfolding increment_from
value-increment_from b c [] [] entry w h fits = refl
value-increment_from b c [] (p ∷ ps) entry w h fits = absurd (ground (arith, h))
value-increment_from b c (f ∷ fs) [] entry w h fits = absurd (ground (arith, h))
value-increment_from b c (f ∷ fs) (p ∷ ps) entry w (lt, h) fits =
    elim (Bool-cases (suc p == length f.sub_result)) [
      | inl carry ↦
          let first : 0 < length f.sub_result = omega (arith, lt) in
          let le = (entry_within b f.sub_result 0 w.0 first).1 in
          rw (carry, moved b c f fs p 0 ps w (lt, h) first fits)
            (value-increment_from b (c * value_at f 0) fs ps _ w.1 h
                (room b c (value_at f 0) (product_bound b fs) le fits)
              ∙ omega arith)
      | inr stay ↦
          let next : suc p < length f.sub_result = ground (arith, stay, lt) in
          rw (stay, moved b c f fs p (suc p) ps w (lt, h) next fits) (omega arith)
    ]

product_bound-pos : (b : ℕ) (fs : List Factor) → 0 < b → 0 < product_bound b fs
product_bound-pos b [] h = omega arith
product_bound-pos b (f ∷ fs) h = mul-pos h (product_bound-pos b fs h)

value-restart_from :
    (b c : ℕ) (fs : List Factor) (entry : List ℕ)
    → AreWithin b fs
    → AllInhabited fs
    → c * product_bound b fs * b < 2 ^ 64
    → (restart_from fs entry c).1 ≡ c * product fs (replicate (length fs) 0)
unfolding restart_from
value-restart_from b c [] entry w h fits = omega arith
value-restart_from b c (f ∷ fs) entry (w, ws) (lt, h) fits =
    let v = value_at f 0 in
    let (v_pos, le) = entry_within b f.sub_result 0 w lt in
    let b_pos : 0 < b = omega (arith, v_pos, le) in
    let bound_pos = product_bound-pos b fs b_pos in
    let bounded : c * (v * 1) * 1 ≤ c * (b * product_bound b fs) * b =
      step-le c v 1 1 b (product_bound b fs) le bound_pos b_pos in
    let small : c * v < 2 ^ 64 = omega (arith, bounded, fits) in
    rw (restart_from, mod-eq_of_lt small)
      (value-restart_from b (c * v) fs _ ws h (room b c v (product_bound b fs) le fits)
        ∙ omega arith)

-- For factors that all have results, with values from 1 to a bound, and where the product of as
-- many bounds as there are factors, times the bound once more, is below 2 ^ 64: after any number
-- of steps below the number of combinations the value of the iterator is the product of the values
-- of the results that it stands on.
pub after-value :
    (b : ℕ) (fs : List Factor) (entry : List ℕ) (k : ℕ)
    → AllInhabited fs
    → AreWithin b fs
    → product_bound b fs * b < 2 ^ 64
    → k < total fs
    → (after fs entry k).value ≡ product fs (after fs entry k).iter_poss
unfolding restart increment
after-value b fs entry zero inhabited w fits lt =
    value-restart_from b 1 fs entry w inhabited (omega (arith, fits)) ∙ omega arith
after-value b fs entry (suc k) inhabited w fits lt =
    let r = after fs entry k in
    let c = after-IsCombination fs entry inhabited k (omega (arith, lt)) in
    let before = after-value b fs entry k inhabited w fits (omega (arith, lt)) in
    let as_product : r.value ≡ 1 * product fs r.iter_poss = omega (arith, before) in
    rw as_product (
      value-increment_from b 1 fs r.iter_poss r.entry w c.inside (omega (arith, fits))
      ∙ omega arith)
