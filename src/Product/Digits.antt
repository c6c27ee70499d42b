-- ===== src/Product/Digits.antt =====
-- The positions of the iterator as the digits of a number, which each step of it raises by one.
use hypertrie.Common.{
  ==_iff, Bool-cases, List, [], ap, arith, false, inl, inr, length, refl, suc, true, ℕ, ◌*◌, ◌+◌,
  ◌-◌, ◌<◌, ◌==◌, ◌∷◌, ◌≡◌,
}
use hypertrie.Product.{Factor, FullCartesianResult, increment_from}

-- Each position is one of its factor's results.
abbrev pub AreInside : List Factor → List ℕ → Type 0
AreInside [] [] = Unit
AreInside [] (p ∷ ps) = true ≡ false
AreInside (f ∷ fs) [] = true ≡ false
AreInside (f ∷ fs) (p ∷ ps) = (p < length f.sub_result) × AreInside fs ps

-- The number of combinations, and the number of a combination.
abbrev pub total : List Factor → ℕ
total [] = 1
total (f ∷ fs) = length f.sub_result * total fs

abbrev pub index : List Factor → List ℕ → ℕ
index [] ps = 0
index (f ∷ fs) [] = 0
index (f ∷ fs) (p ∷ ps) = p + length f.sub_result * index fs ps

-- A larger second digit makes up for every first one.
digits_lt : (n p i j : ℕ) → p < n → i < j → p + n * i < n * j
digits_lt n p i j lt h =
    let gap : n * (i + 1 + (j - (i + 1))) ≡ n * i + n + n * (j - (i + 1)) = omega arith in
    let whole : i + 1 + (j - (i + 1)) ≡ j = omega (arith, h) in
    let same = ap (λ k. n * k) whole in omega (arith, gap, same, lt)

digits-injective : (n p q i j : ℕ) → p < n → q < n → p + n * i ≡ q + n * j → (p ≡ q) × (i ≡ j)
digits-injective n p q i j lp lq e = elim (Bool-cases (i == j)) [
  | inl same ↦
      let at_j : i ≡ j = (==_iff i j).0 same in
      let parts = ap (λ k. n * k) at_j in (omega (arith, e, parts), at_j)
  | inr other ↦
      let smaller = digits_lt n p i j lp in
      let larger = digits_lt n q j i lq in absurd (ground (arith, other, smaller, larger, e))
]

pub index-lt : (fs : List Factor) (ps : List ℕ) → AreInside fs ps → index fs ps < total fs
index-lt [] [] h = omega arith
index-lt [] (p ∷ ps) h = absurd (ground (arith, h))
index-lt (f ∷ fs) [] h = absurd (ground (arith, h))
index-lt (f ∷ fs) (p ∷ ps) (lt, h) =
    digits_lt (length f.sub_result) p (index fs ps) (total fs) lt (index-lt fs ps h)

pub index-injective :
    (fs : List Factor) (ps qs : List ℕ)
    → AreInside fs ps
    → AreInside fs qs
    → index fs ps ≡ index fs qs
    → ps ≡ qs
index-injective [] [] [] h k e = refl
index-injective [] (p ∷ ps) qs h k e = absurd (ground (arith, h))
index-injective [] [] (q ∷ qs) h k e = absurd (ground (arith, k))
index-injective (f ∷ fs) [] qs h k e = absurd (ground (arith, h))
index-injective (f ∷ fs) (p ∷ ps) [] h k e = absurd (ground (arith, k))
index-injective (f ∷ fs) (p ∷ ps) (q ∷ qs) (lp, h) (lq, k) e =
    let (first, rest) =
      digits-injective (length f.sub_result) p q (index fs ps) (index fs qs) lp lq e in
    let later = index-injective fs ps qs h k rest in cc (first, later)

-- One step: the number of the combination rises by one, or was the last.
pub record Steps (fs : List Factor) (ps : List ℕ) (r : FullCartesianResult) : Type 0 where
  pub inside : AreInside fs r.iter_poss
  pub rises : r.ended ≡ false → index fs r.iter_poss ≡ index fs ps + 1
  pub last : r.ended ≡ true → index fs ps + 1 ≡ total fs

Steps-carry :
    (f : Factor) (fs : List Factor) (p : ℕ) (ps : List ℕ) (r : FullCartesianResult)
    → suc p ≡ length f.sub_result
    → Steps fs ps r
    → Steps (f ∷ fs) (p ∷ ps) (record r { iter_poss = 0 ∷ r.iter_poss })
Steps-carry f fs p ps r whole s =
    let n = length f.sub_result in
    let spread : n * (index fs ps + 1) ≡ n * index fs ps + n = omega arith in
    record {
      inside = (omega (arith, whole), s.inside);
      rises = λ e. let next = ap (λ k. n * k) (s.rises e) in omega (arith, next, spread, whole);
      last = λ e. let next = ap (λ k. n * k) (s.last e) in omega (arith, next, spread, whole);
    }

Steps-stay :
    (f : Factor) (fs : List Factor) (p : ℕ) (ps : List ℕ) (entry : List ℕ) (value : ℕ)
    → suc p < length f.sub_result
    → AreInside fs ps
    → Steps
        (f ∷ fs)
        (p ∷ ps)
        (record { entry = entry; value = value; ended = false; iter_poss = suc p ∷ ps })
Steps-stay f fs p ps entry value lt h = record {
  inside = (lt, h);
  rises = λ e. omega arith;
  last = λ e. absurd (ground (arith, e));
}

pub increment_from-Steps :
    (fs : List Factor) (ps entry : List ℕ) (value : ℕ)
    → AreInside fs ps
    → Steps fs ps (increment_from fs ps entry value)
unfolding increment_from
increment_from-Steps [] [] entry value h = record {
  inside = tt;
  rises = λ e. absurd (ground (arith, e));
  last = λ e. omega arith;
}
increment_from-Steps [] (p ∷ ps) entry value h = absurd (ground (arith, h))
increment_from-Steps (f ∷ fs) [] entry value h = absurd (ground (arith, h))
increment_from-Steps (f ∷ fs) (p ∷ ps) entry value (lt, h) =
    elim (Bool-cases (suc p == length f.sub_result)) [
      | inl carry ↦
          rw carry
            (Steps-carry f fs p ps _ ((==_iff _ _).0 carry) (increment_from-Steps fs ps _ _ h))
      | inr stay ↦ rw stay (Steps-stay f fs p ps _ _ (ground (arith, stay, lt)) h)
    ]
