-- ===== src/Product/Enumeration.antt =====
-- The iterator gives every combination of the results of the factors once, and then ends.
use hypertrie.Common.{
  Bool-cases, List, [], ap, arith, false, inl, inr, length, refl, replicate, subst, suc, sym, true,
  zero, ℕ, ℕ-cases, ◌*◌, ◌<◌, ◌==◌, ◌∙◌, ◌∷◌, ◌≡◌,
}
use hypertrie.Product.{
  Factor, FullCartesianResult, increment, increment_from, restart, restart_from, rewrite_rest,
}
use hypertrie.Product.Digits.{
  AreInside, increment_from-Steps, index, index-injective, index-lt, total,
}

-- The state after `restart` and `k` calls of `operator++`.
abbrev pub after : List Factor → List ℕ → ℕ → FullCartesianResult
after fs entry zero = restart fs entry
after fs entry (suc k) = increment fs (after fs entry k)

-- No factor is without results, as the constructor asserts.
abbrev pub AllInhabited : List Factor → Type 0
AllInhabited [] = Unit
AllInhabited (f ∷ fs) = (0 < length f.sub_result) × AllInhabited fs

zeros-AreInside : (fs : List Factor) → AllInhabited fs → AreInside fs (replicate (length fs) 0)
zeros-AreInside [] h = tt
zeros-AreInside (f ∷ fs) (lt, h) = (lt, zeros-AreInside fs h)

index-zeros : (fs : List Factor) → index fs (replicate (length fs) 0) ≡ 0
index-zeros [] = refl
index-zeros (f ∷ fs) =
    let rest = ap (λ k. length f.sub_result * k) (index-zeros fs) in
    let none_of : length f.sub_result * 0 ≡ 0 = omega arith in omega (arith, rest, none_of)

-- The keys of the current results are written to the entry, those of the last factor at last.
entry-increment_from :
    (fs : List Factor) (ps entry : List ℕ) (value : ℕ)
    → (increment_from fs ps entry value).entry
      ≡ rewrite_rest fs (increment_from fs ps entry value).iter_poss entry
unfolding increment_from rewrite_rest
entry-increment_from [] ps entry value = refl
entry-increment_from (f ∷ fs) [] entry value = refl
entry-increment_from (f ∷ fs) (p ∷ ps) entry value =
    elim (Bool-cases (suc p == length f.sub_result)) [
      | inl carry ↦ rw carry (entry-increment_from fs ps _ _)
      | inr stay ↦ rw stay refl
    ]

entry-restart_from :
    (fs : List Factor) (entry : List ℕ) (value : ℕ)
    → (restart_from fs entry value).0 ≡ rewrite_rest fs (replicate (length fs) 0) entry
unfolding restart_from rewrite_rest
entry-restart_from [] entry value = refl
entry-restart_from (f ∷ fs) entry value = entry-restart_from fs _ _

-- Combination number `k`, while the iterator runs.
pub record IsCombination (fs : List Factor) (k : ℕ) (r : FullCartesianResult) : Type 0 where
  pub running : r.ended ≡ false
  pub inside : AreInside fs r.iter_poss
  pub number : index fs r.iter_poss ≡ k
  pub written : (before : List ℕ) × (r.entry ≡ rewrite_rest fs r.iter_poss before)

module _ (fs : List Factor) (entry : List ℕ) (inhabited : AllInhabited fs) where
  pub after-IsCombination : (k : ℕ) → k < total fs → IsCombination fs k (after fs entry k)
  unfolding restart increment
  after-IsCombination zero lt = record {
    running = refl;
    inside = zeros-AreInside fs inhabited;
    number = index-zeros fs;
    written = (entry, entry-restart_from fs entry 1);
  }
  after-IsCombination (suc k) lt =
      let r = after fs entry k in
      let c = after-IsCombination k (omega (arith, lt)) in
      let s = increment_from-Steps fs r.iter_poss r.entry r.value c.inside in
      let runs : (increment_from fs r.iter_poss r.entry r.value).ended ≡ false =
        elim (Bool-cases (increment_from fs r.iter_poss r.entry r.value).ended) [
          | inl over ↦
              let last = s.last over in
              let number = c.number in absurd (omega (arith, last, number, lt))
          | inr on ↦ on
        ] in
      record {
        running = runs;
        inside = s.inside;
        number = let rises = s.rises runs in let number = c.number in omega (arith, rises, number);
        written = (r.entry, entry-increment_from fs r.iter_poss r.entry r.value);
      }

  ends_after : (k : ℕ) → suc k ≡ total fs → (after fs entry (suc k)).ended ≡ true
  unfolding increment
  ends_after k e =
      let r = after fs entry k in
      let c = after-IsCombination k (omega (arith, e)) in
      let s = increment_from-Steps fs r.iter_poss r.entry r.value c.inside in
      elim (Bool-cases (increment_from fs r.iter_poss r.entry r.value).ended) [
        | inl over ↦ over
        | inr on ↦
            let rises = s.rises on in
            let number = c.number in
            let bound =
              index-lt fs (increment_from fs r.iter_poss r.entry r.value).iter_poss s.inside in
            absurd (omega (arith, rises, number, bound, e))
      ]

-- For factors that all have results, and a choice of one result of each: there is exactly one
-- number of steps below the number of all combinations after which the iterator stands on this
-- choice. It has not ended there, its entry is one with the keys of these results written to it,
-- and it has ended after as many steps as there are combinations.
pub after-each_once :
    (fs : List Factor) (entry ps : List ℕ)
    → AllInhabited fs
    → AreInside fs ps
    → (k : ℕ) × (k < total fs)
      × IsCombination fs k (after fs entry k)
      × ((after fs entry k).iter_poss ≡ ps)
      × ((j : ℕ) → j < total fs → (after fs entry j).iter_poss ≡ ps → j ≡ k)
      × ((after fs entry (total fs)).ended ≡ true)
after-each_once fs entry ps inhabited inside =
    let k = index fs ps in
    let lt = index-lt fs ps inside in
    let c = after-IsCombination fs entry inhabited k lt in
    (
      k,
      lt,
      c,
      index-injective fs (after fs entry k).iter_poss ps c.inside inside c.number,
      λ j lt_j same.
          let d = after-IsCombination fs entry inhabited j lt_j in
          sym d.number ∙ ap (index fs) same,
      elim (ℕ-cases (total fs)) [
        | inl e ↦ absurd (omega (arith, lt, e))
        | inr (m, e) ↦
            subst (λ n. (after fs entry n).ended ≡ true) (sym e)
              (ends_after fs entry inhabited m (sym e))
      ],
    )
