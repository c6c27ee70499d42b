-- ===== src/Common/Assoc.antt =====
-- The hash maps and hash sets of the program: association lists under natural numbers.
use Prim.Native.Nat.{ℕ}
use mathlib.Core.Path.{◌≡◌, refl}
use mathlib.Core.List.{List, [], ◌∷◌}
use mathlib.Core.Option.{Option, none, some}
use native.Mathlib.Omega.{arith}
use mathlib.Core.Logic.{inl, inr}
use hypertrie.Common.Tests.{Bool-cases, ◌==◌, if◌then◌else◌}

abbrev pub Assoc {ℓ} : Type ℓ → Type ℓ
Assoc V = List (ℕ × V)

module _ {ℓ} {V : Type ℓ} where
  unfoldable pub find : ℕ → Assoc V → Option V
  find k [] = none
  find k ((j, v) ∷ m) = if j == k then some v else find k m

  -- `m[k] = v` and `insert_or_assign`
  unfoldable pub insert_or_assign : ℕ → V → Assoc V → Assoc V
  insert_or_assign k v [] = (k, v) ∷ []
  insert_or_assign k v ((j, w) ∷ m) = if j == k then (k, v) ∷ m else (j, w) ∷ insert_or_assign k v m

  -- `emplace`: only where the key is absent
  unfoldable pub emplace : ℕ → V → Assoc V → Assoc V
  emplace k v [] = (k, v) ∷ []
  emplace k v ((j, w) ∷ m) = if j == k then (j, w) ∷ m else (j, w) ∷ emplace k v m

  -- `erase`, which also takes away a second binding
  unfoldable pub erase : ℕ → Assoc V → Assoc V
  erase k [] = []
  erase k ((j, w) ∷ m) = if j == k then erase k m else (j, w) ∷ erase k m

  pub find-insert_or_assign :
      (j k : ℕ) (v : V) (m : Assoc V)
      → find j (insert_or_assign k v m) ≡ (if k == j then some v else find j m)
  unfolding find insert_or_assign
  find-insert_or_assign j k v [] = refl
  find-insert_or_assign j k v ((i, w) ∷ m) = ground (arith, find-insert_or_assign j k v m)

  pub find-emplace :
      (j k : ℕ) (v : V) (m : Assoc V)
      → find j (emplace k v m)
        ≡ (if k == j then elim (find j m) [ none ↦ some v | some w ↦ some w ] else find j m)
  unfolding find emplace
  find-emplace j k v [] = ground arith
  find-emplace j k v ((i, w) ∷ m) = ground (arith, find-emplace j k v m)

  pub find-erase :
      (j k : ℕ) (m : Assoc V) → find j (erase k m) ≡ (if k == j then none else find j m)
  unfolding find erase
  find-erase j k [] = ground arith
  find-erase j k ((i, w) ∷ m) = ground (arith, find-erase j k m)

  abbrev pub or_default : V → Option V → V
  or_default d none = d
  or_default d (some v) = v

  -- `m[k]`, where a missing value is the default `d`.
  unfoldable pub at_or : ℕ → V → Assoc V → V
  at_or k d m = or_default d (find k m)

  pub at_or-insert_or_assign :
      (j k : ℕ) (v d : V) (m : Assoc V)
      → at_or j d (insert_or_assign k v m) ≡ (if k == j then v else at_or j d m)
  unfolding at_or
  at_or-insert_or_assign j k v d m = elim (Bool-cases (k == j)) [
    | inl e ↦ rw (at_or, find-insert_or_assign j k v m, e)
    | inr e ↦ rw (at_or, find-insert_or_assign j k v m, e)
  ]
