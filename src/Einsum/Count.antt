-- ===== src/Einsum/Count.antt =====
-- A single operand with every label once: the sum over the assignments is the sum over its keys.
use hypertrie.Common.{
  ==_iff, List, [], arith, contains, false, length, map, refl, true, ℕ, ◌+◌, ◌==◌, ◌∙◌, ◌∷◌, ◌≡◌,
}
use hypertrie.Common.Sets.{
  IsDistinct, contains-count, contains-set_erase, count, count-set_erase, length-subset, set_erase,
}
use hypertrie.Einsum.Joins.{map-assign}
use hypertrie.Einsum.Meaning.{sum_keys}
use hypertrie.Einsum.Sums.{Assignment, sum_over-congr, total, total-assign, total-congr}
use hypertrie.Subscript.{OperandSc}

equal_refl : (n : ℕ) → (n == n) ≡ true
equal_refl n = (==_iff n n).1 refl

pub total-keys :
    (sc : OperandSc) (dom : List ℕ) (f : List ℕ → ℕ) (a : Assignment)
    → IsDistinct sc
    → total sc dom (λ b. f (map b sc)) a ≡ sum_keys dom (length sc) f
total-keys [] dom f a d = refl
total-keys (m ∷ sc) dom f a d =
    let absent : contains sc m ≡ false =
      let once = d m in ground (arith, contains-count sc m, once) in
    let rest : IsDistinct sc = λ n. let once = d n in ground (arith, once) in
    sum_over-congr dom _ _ λ k in_dom.
      total-assign sc dom (λ b. f (map b (m ∷ sc))) m k a absent
      ∙ total-congr sc dom _ (λ b. f (k ∷ map b sc)) a
          (λ b. rw (equal_refl m, map-assign sc m k b absent) refl)
      ∙ total-keys sc dom (λ key. f (k ∷ key)) a rest

length-set_erase-count : (a : ℕ) (xs : List ℕ) → length (set_erase a xs) + count a xs ≡ length xs
unfolding set_erase
length-set_erase-count a [] = omega arith
length-set_erase-count a (x ∷ xs) = ground (arith, length-set_erase-count a xs)

-- A list as long as its set has nothing twice.
pub as_long-IsDistinct :
    (xs ys : List ℕ)
    → IsDistinct xs
    → ((a : ℕ) → contains xs a ≡ true → contains ys a ≡ true)
    → length ys ≡ length xs
    → IsDistinct ys
as_long-IsDistinct xs ys d within long a =
    let fewer =
      length-subset (set_erase a xs) (set_erase a ys)
        (λ n. let once = d n in ground (arith, count-set_erase n a xs, once))
        (λ n e.
          ground (arith, e, within n, contains-set_erase a xs n, contains-set_erase a ys n)) in
    let once = d a in
    omega (arith, fewer, once, long, length-set_erase-count a xs, length-set_erase-count a ys)
