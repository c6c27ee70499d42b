-- ===== src/Tests/Products.antt =====
-- Two factors with two and three results, at concrete inputs.
use hypertrie.Common.{List, [], arith, false, refl, true, ℕ, ◌<◌, ◌^◌, ◌∷◌, ◌≡◌}
use hypertrie.Product.{Factor, increment, restart}
use hypertrie.Product.Enumeration.{IsCombination, after, after-each_once}
use hypertrie.Product.Values.{after-value}

abbrev factors : List Factor
factors =
    record {
      sub_result = record { key = 5 ∷ []; value = 2 } ∷ record { key = 6 ∷ []; value = 3 } ∷ [];
      result_mapping = 1 ∷ [];
    }
    ∷ record {
      sub_result =
          record { key = 7 ∷ []; value = 1 }
          ∷ record { key = 8 ∷ []; value = 5 }
          ∷ record { key = 9 ∷ []; value = 4 }
          ∷ [];
      result_mapping = 0 ∷ [];
    }
    ∷ []

-- The fourth combination: the second result of each.
fourth-factors :
    after factors (0 ∷ 0 ∷ []) 3
    ≡ record { entry = 8 ∷ 6 ∷ []; value = 15; ended = false; iter_poss = 1 ∷ 1 ∷ [] }
unfolding restart increment
fourth-factors = refl

after-each_once_example :
    (k : ℕ) × (k < 6)
    × IsCombination factors k (after factors (0 ∷ 0 ∷ []) k)
    × ((after factors (0 ∷ 0 ∷ []) k).iter_poss ≡ 1 ∷ 2 ∷ [])
    × ((j : ℕ) → j < 6 → (after factors (0 ∷ 0 ∷ []) j).iter_poss ≡ 1 ∷ 2 ∷ [] → j ≡ k)
    × ((after factors (0 ∷ 0 ∷ []) 6).ended ≡ true)
after-each_once_example =
    after-each_once factors (0 ∷ 0 ∷ []) (1 ∷ 2 ∷ []) (omega arith, (omega arith, tt))
      (omega arith, (omega arith, tt))

after-value_example : (after factors (0 ∷ 0 ∷ []) 3).value ≡ 15
unfolding increment restart
after-value_example =
    after-value 5 factors (0 ∷ 0 ∷ []) 3 (omega arith, (omega arith, tt))
      (
        (omega arith, omega arith, (omega arith, omega arith, tt)),
        (
          (omega arith, omega arith, (omega arith, omega arith, (omega arith, omega arith, tt))),
          tt,
        ),
      )
      (omega arith) (omega arith)

-- Two results of one factor with the value 2 ^ 40: the value of the second is computed as 0.
abbrev large_factor : List Factor
large_factor =
    record {
      sub_result =
          record { key = 5 ∷ []; value = 2 ^ 40 } ∷ record { key = 6 ∷ []; value = 2 ^ 40 } ∷ [];
      result_mapping = 0 ∷ [];
    }
    ∷ []

lost_value : (after large_factor (0 ∷ []) 1).value ≡ 0
unfolding restart increment
lost_value = refl
