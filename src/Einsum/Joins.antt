-- ===== src/Einsum/Joins.antt =====
-- One key part of a join: the value of the operands and that of the slices.
use hypertrie.Common.{
  Bool, Bool-cases, List, [], ap, arith, contains, false, if◌then◌else◌, inl, inr, length, map, not,
  refl, subst, suc, sym, true, ℕ, ◌*◌, ◌+◌, ◌<◌, ◌==◌, ◌∙◌, ◌∷◌, ◌≡◌, ◌≤◌,
}
use hypertrie.Einsum.Meaning.{Matches, Means, value_at}
use hypertrie.Einsum.Positions.{
  AreValid, contains-label_poss_from, label_poss_from-AreValid, length-label_poss_from, spread,
  spread-labels,
}
use hypertrie.Einsum.Sums.{Assignment, assign}
use hypertrie.HashJoin.{free_positions, Diagonals, Promises}
use hypertrie.HashJoin.Values.{free_positions-within, all_have, joined}
use hypertrie.Subscript.{OperandSc, label_poss_from, next_operands, other_labels, push_non_empty}
use mathlib.Core.Bool.{true≢false}

pub contains-label_poss :
    (pos : ℕ) (sc : OperandSc) (l : ℕ)
    → (length (label_poss_from pos sc l) == 0) ≡ not (contains sc l)
unfolding label_poss_from
contains-label_poss pos [] l = refl
contains-label_poss pos (m ∷ sc) l = ground (arith, contains-label_poss (suc pos) sc l)

pub other_labels-absent : (sc : OperandSc) (l : ℕ) → contains sc l ≡ false → other_labels l sc ≡ sc
unfolding other_labels
other_labels-absent [] l e = refl
other_labels-absent (m ∷ sc) l e = ground (arith, e, other_labels-absent sc l)

pub map-assign :
    (sc : OperandSc) (l k : ℕ) (a : Assignment)
    → contains sc l ≡ false
    → map (assign l k a) sc ≡ map a sc
map-assign [] l k a e = refl
map-assign (m ∷ sc) l k a e =
    let other : (l == m) ≡ false = ground (arith, e) in
    rw other (ap (◌∷◌ (a m)) (map-assign sc l k a (ground (arith, e))))

length-map_key : (sc : OperandSc) (a : Assignment) → length (map a sc) ≡ length sc
length-map_key [] a = refl
length-map_key (m ∷ sc) a = ap suc (length-map_key sc a)

pub push_some :
    (sc : OperandSc) (scs : List OperandSc)
    → (length sc == 0) ≡ false
    → push_non_empty sc scs ≡ sc ∷ scs
push_some [] scs e = absurd (true≢false e)
push_some (m ∷ sc) scs e = refl

pub no_labels : (sc : OperandSc) → (length sc == 0) ≡ true → sc ≡ []
no_labels [] e = refl
no_labels (m ∷ sc) e = absurd (ground (arith, e))

times_if : (b : Bool) (e u : ℕ) → e * (if b then u else 0) ≡ (if b then e * u else 0)
times_if true e u = refl
times_if false e u = omega arith

times_zero : (u : ℕ) → 0 * u ≡ 0
times_zero u = omega arith

times_one : (u : ℕ) → 1 * u ≡ u
times_one u = omega arith

module _ (ds : Diagonals) (laws : Promises ds) (means : Means ds laws) where
  abbrev pub poss_in : List OperandSc → ℕ → List (List ℕ)
  poss_in scs l = map (λ sc. label_poss_from 0 sc l) scs

  -- What is known of an operand that has the label.
  pub record Labelled (x : ds.Operand) (sc : OperandSc) (l : ℕ) : Type 0 where
    pub valid : AreValid (ds.depth x) (label_poss_from 0 sc l)
    pub some_poss : 0 < length (label_poss_from 0 sc l)
    pub long : length (other_labels l sc) + length (label_poss_from 0 sc l) ≡ ds.depth x
    pub filled :
        (k : ℕ) (a : Assignment)
        → spread 0 (ds.depth x) (label_poss_from 0 sc l) k (map a (other_labels l sc))
          ≡ map (assign l k a) sc

  pub label_poss_from-Labelled :
      (x : ds.Operand) (sc : OperandSc) (l : ℕ)
      → length sc ≤ 256
      → ds.depth x ≡ length sc
      → (length (label_poss_from 0 sc l) == 0) ≡ false
      → Labelled x sc l
  label_poss_from-Labelled x sc l b deep e = record {
    valid =
        subst (λ n. AreValid n (label_poss_from 0 sc l)) (sym deep)
          (label_poss_from-AreValid sc l b);
    some_poss = ground (arith, e);
    long = let n = length-label_poss_from 0 sc l in omega (arith, n, deep);
    filled = λ k a. rw deep (
        spread-labels 0 sc (label_poss_from 0 sc l) l k a
          (λ i lt. contains-label_poss_from 0 sc l i (omega (arith, b)) lt));
  }

  -- The operands without the label are left as they are.
  pub value_at-joined :
      (xs : List ds.Operand) (scs : List OperandSc) (l k : ℕ) (a : Assignment)
      → Matches ds xs scs
      → contains means.dom k ≡ true
      → value_at ds means.entry xs scs (assign l k a) ≡ (
          if all_have ds laws xs (poss_in scs l) k
          then value_at ds means.entry (joined ds laws xs (poss_in scs l) k) (next_operands l scs) a
          else 0)
  unfolding next_operands
  value_at-joined [] scs l k a fit in_dom = refl
  value_at-joined (x ∷ xs) [] l k a (same, fit) in_dom = absurd (omega (arith, same))
  value_at-joined (x ∷ xs) (sc ∷ scs) l k a (same, (some_labels, b, deep, fit)) in_dom =
      let rest = value_at-joined xs scs l k a (omega (arith, same), fit) in_dom in
      let poss = label_poss_from 0 sc l in
      let n = length-label_poss_from 0 sc l in
      elim (Bool-cases (length poss == 0)) [
        | inl unjoined ↦
            let absent : contains sc l ≡ false =
              ground (arith, unjoined, contains-label_poss 0 sc l) in
            let pushed = push_some sc (next_operands l scs) (ground (arith, some_labels)) in
            rw (unjoined, other_labels-absent sc l absent, pushed, map-assign sc l k a absent, rest)
              (times_if _ _ _)
        | inr joins ↦
            let free =
              free_positions-within (ds.depth x) (length poss) (ground (arith, joins))
                (omega (arith, n, deep)) (omega (arith, b, deep)) in
            let has = label_poss_from-Labelled x sc l b deep joins in
            let keys = laws.keys (x, poss) in
            elim (Bool-cases (contains keys k)) [
              | inr missing ↦
                  let nothing =
                    means.missing x poss k (map a (other_labels l sc)) has.valid has.some_poss
                      (ap (λ m. m + length poss) (length-map_key (other_labels l sc) a) ∙ has.long)
                      in_dom missing in
                  rw (joins, missing, ← has.filled k a, nothing) (times_zero _)
              | inl there ↦ elim (Bool-cases (free_positions (ds.depth x) (length poss) == 0)) [
                | inl whole ↦
                    let none_left =
                      no_labels (other_labels l sc) (ground (arith, n, deep, free, whole)) in
                    let one =
                      means.whole x poss k has.valid has.some_poss
                        (ground (arith, n, deep, free, whole, none_left)) there in
                    let filled = has.filled k a in
                    rw (joins, there, whole, ← filled, none_left, one, rest) (times_one _)
                | inr left ↦
                    let pushed =
                      push_some (other_labels l sc) (next_operands l scs)
                        (ground (arith, n, deep, free, left)) in
                    let sliced =
                      means.slice_entry x poss k (map a (other_labels l sc)) has.valid has.some_poss
                        (ground (arith, left, free))
                        (ap (λ m. m + length poss) (length-map_key (other_labels l sc) a)
                          ∙ has.long)
                        there in
                    rw (joins, there, left, pushed, sliced, has.filled k a, rest) (times_if _ _ _)
              ]
            ]
      ]
