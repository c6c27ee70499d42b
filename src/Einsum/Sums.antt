-- ===== src/Einsum/Sums.antt =====
-- Sums over assignments of key parts to labels.
use mathlib.Core.Bool.{true≢false}
use hypertrie.Common.{
  ==_iff, Bool-cases, List, [], ap, arith, contains, false, fun_ext, if◌then◌else◌, inl, inr, refl,
  subst, sym, true, ℕ, ◌+◌, ◌==◌, ◌∙◌, ◌∷◌, ◌≡◌,
}
use hypertrie.Common.Sets.{
  IsDistinct, contains-count, contains-set_erase, count-set_erase, set_erase,
}

abbrev pub sum_over : List ℕ → (ℕ → ℕ) → ℕ
sum_over [] f = 0
sum_over (x ∷ xs) f = f x + sum_over xs f

pub sum_over-congr :
    (xs : List ℕ) (f g : ℕ → ℕ)
    → ((k : ℕ) → contains xs k ≡ true → f k ≡ g k)
    → sum_over xs f ≡ sum_over xs g
sum_over-congr [] f g same = refl
sum_over-congr (x ∷ xs) f g same =
    let first = same x (ground arith) in
    let rest = sum_over-congr xs f g (λ k e. same k (ground (arith, e))) in
    omega (arith, first, rest)

pub sum_over-zero :
    (xs : List ℕ) (f : ℕ → ℕ) → ((k : ℕ) → contains xs k ≡ true → f k ≡ 0) → sum_over xs f ≡ 0
sum_over-zero [] f none_of = refl
sum_over-zero (x ∷ xs) f none_of =
    let first = none_of x (ground arith) in
    let rest = sum_over-zero xs f (λ k e. none_of k (ground (arith, e))) in
    omega (arith, first, rest)

sum_over-add :
    (xs : List ℕ) (f g : ℕ → ℕ) → sum_over xs (λ k. f k + g k) ≡ sum_over xs f + sum_over xs g
sum_over-add [] f g = omega arith
sum_over-add (x ∷ xs) f g = omega (arith, sum_over-add xs f g)

pub sum_over-swap :
    (xs ys : List ℕ) (f : ℕ → ℕ → ℕ)
    → sum_over xs (λ i. sum_over ys (λ j. f i j)) ≡ sum_over ys (λ j. sum_over xs (λ i. f i j))
sum_over-swap [] ys f = sym (sum_over-zero ys (λ j. 0) (λ k e. refl))
sum_over-swap (x ∷ xs) ys f =
    ap (λ n. sum_over ys (λ j. f x j) + n) (sum_over-swap xs ys f)
    ∙ sym (sum_over-add ys (λ j. f x j) (λ j. sum_over xs (λ i. f i j)))

abbrev pub Assignment : Type 0
Assignment = ℕ → ℕ

abbrev pub assign : ℕ → ℕ → Assignment → Assignment
assign l k a m = if l == m then k else a m

assign_comm :
    (l m k j : ℕ) (a : Assignment)
    → (l == m) ≡ false
    → assign m j (assign l k a) ≡ assign l k (assign m j a)
assign_comm l m k j a e = fun_ext (λ n. ground (arith, e))

-- The sum of `f` over all assignments of key parts of `dom` to the labels.
abbrev pub total : List ℕ → List ℕ → (Assignment → ℕ) → Assignment → ℕ
total [] dom f a = f a
total (l ∷ ls) dom f a = sum_over dom (λ k. total ls dom f (assign l k a))

pub total-congr :
    (ls dom : List ℕ) (f g : Assignment → ℕ) (a : Assignment)
    → ((b : Assignment) → f b ≡ g b)
    → total ls dom f a ≡ total ls dom g a
total-congr ls dom f g a same = ap (λ h. total ls dom h a) (fun_ext same)

pub total-assign :
    (ls dom : List ℕ) (f : Assignment → ℕ) (l k : ℕ) (a : Assignment)
    → contains ls l ≡ false
    → total ls dom f (assign l k a) ≡ total ls dom (λ b. f (assign l k b)) a
total-assign [] dom f l k a e = refl
total-assign (m ∷ ls) dom f l k a e =
    let other : (l == m) ≡ false = ground (arith, e) in
    sum_over-congr dom _ _ λ j in_dom.
      ap (total ls dom f) (assign_comm l m k j a other)
      ∙ total-assign ls dom f l k (assign m j a) (ground (arith, e))

set_erase-absent : (l : ℕ) (ls : List ℕ) → contains ls l ≡ false → set_erase l ls ≡ ls
unfolding set_erase
set_erase-absent l [] e = refl
set_erase-absent l (m ∷ ls) e = ground (arith, e, set_erase-absent l ls)

-- Any label can be summed over first.
pub total-first :
    (ls dom : List ℕ) (f : Assignment → ℕ) (l : ℕ) (a : Assignment)
    → IsDistinct ls
    → contains ls l ≡ true
    → total ls dom f a ≡ sum_over dom (λ k. total (set_erase l ls) dom (λ b. f (assign l k b)) a)
unfolding set_erase
total-first [] dom f l a d e = absurd (ground (arith, e))
total-first (m ∷ ls) dom f l a d e = elim (Bool-cases (m == l)) [
  | inl same ↦
      let at_l = (==_iff m l).0 same in
      let absent : contains ls l ≡ false =
        let once = d l in ground (arith, contains-count ls l, once, same) in
      rw (same, set_erase-absent l ls absent, at_l)
        (sum_over-congr dom _ _ λ k in_dom. total-assign ls dom f l k a absent)
  | inr other ↦
      let rest : IsDistinct ls = λ n. let once = d n in ground (arith, once) in
      rw other (
        sum_over-congr dom _ _
          (λ j in_dom. total-first ls dom f l (assign m j a) rest (ground (arith, e, other)))
        ∙ sum_over-swap dom dom
            (λ j k. total (set_erase l ls) dom (λ b. f (assign l k b)) (assign m j a)))
]

-- The order of the labels does not matter.
pub total-perm :
    (ls ms dom : List ℕ) (f : Assignment → ℕ) (a : Assignment)
    → IsDistinct ls
    → IsDistinct ms
    → ((l : ℕ) → contains ls l ≡ contains ms l)
    → total ls dom f a ≡ total ms dom f a
total-perm [] [] dom f a d d' same = refl
total-perm [] (m ∷ ms) dom f a d d' same = absurd (let e = same m in ground (arith, e))
total-perm (l ∷ ls) ms dom f a d d' same =
    let absent : contains ls l ≡ false =
      let once = d l in ground (arith, contains-count ls l, once) in
    let rest : IsDistinct ls = λ n. let once = d n in ground (arith, once) in
    let there : contains ms l ≡ true = let e = same l in ground (arith, e) in
    sum_over-congr dom _ _ (λ k in_dom.
      total-assign ls dom f l k a absent
      ∙ total-perm ls (set_erase l ms) dom (λ b. f (assign l k b)) a rest
          (λ n. let once = d' n in ground (arith, count-set_erase n l ms, once))
          (λ n.
            let e = same n in
            elim (Bool-cases (l == n)) [
              | inl at_n ↦
                  let here = (==_iff l n).0 at_n in
                  subst (λ i. contains ls i ≡ contains (set_erase l ms) i) here
                    (ground (arith, absent, contains-set_erase l ms l))
              | inr other ↦ ground (arith, e, other, contains-set_erase l ms n)
            ]))
    ∙ sym (total-first ms dom f l a d' there)

sum_over-erase :
    (xs : List ℕ) (y : ℕ) (f : ℕ → ℕ)
    → IsDistinct xs
    → contains xs y ≡ true
    → sum_over xs f ≡ f y + sum_over (set_erase y xs) f
unfolding set_erase
sum_over-erase [] y f d e = absurd (ground (arith, e))
sum_over-erase (x ∷ xs) y f d e = elim (Bool-cases (x == y)) [
  | inl same ↦
      let at_y = (==_iff x y).0 same in
      let absent : contains xs y ≡ false =
        let once = d y in ground (arith, contains-count xs y, once, same) in
      rw (same, set_erase-absent y xs absent, at_y) refl
  | inr other ↦
      let rest : IsDistinct xs = λ n. let once = d n in ground (arith, once) in
      let later = sum_over-erase xs y f rest (ground (arith, e, other)) in
      rw other (omega (arith, later))
]

-- The sum over a set that is a part of another one.
pub sum_over-part :
    (xs ys : List ℕ) (f : ℕ → ℕ)
    → IsDistinct xs
    → IsDistinct ys
    → ((k : ℕ) → contains ys k ≡ true → contains xs k ≡ true)
    → sum_over xs (λ k. if contains ys k then f k else 0) ≡ sum_over ys f
sum_over-part xs [] f d d' within = sum_over-zero xs (λ k. 0) (λ k e. refl)
sum_over-part xs (y ∷ ys) f d d' within =
    let h : ℕ → ℕ = λ k. if contains (y ∷ ys) k then f k else 0 in
    let absent : contains ys y ≡ false =
      let once = d' y in ground (arith, contains-count ys y, once) in
    let first = sum_over-erase xs y h d (within y (ground arith)) in
    let at_y : h y ≡ f y = ground arith in
    let same =
      sum_over-congr (set_erase y xs) h (λ k. if contains ys k then f k else 0)
        (λ k e. ground (arith, e, contains-set_erase y xs k)) in
    let rest =
      sum_over-part (set_erase y xs) ys f
        (λ n. let once = d n in ground (arith, count-set_erase n y xs, once))
        (λ n. let once = d' n in ground (arith, once))
        (λ k e. elim (Bool-cases (y == k)) [
          | inl at_k ↦ absurd (
              true≢false
                (sym (subst (λ i. contains ys i ≡ true) (sym ((==_iff y k).0 at_k)) e) ∙ absent))
          | inr other ↦
              let there = within k (ground (arith, e)) in
              ground (arith, there, other, contains-set_erase y xs k)
        ]) in
    omega (arith, first, at_y, same, rest)
