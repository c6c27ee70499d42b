-- ===== src/Einsum/Positions.antt =====
-- The positions of a label in an operand, and the keys that they are filled into.
use hypertrie.Common.{
  Bool-cases, List, [], ap, arith, contains, false, get_or, if◌then◌else◌, inl, inr, length, map,
  refl, suc, sym, true, zero, ℕ, ◌%◌, ◌+◌, ◌<◌, ◌==◌, ◌∙◌, ◌∷◌, ◌≡◌, ◌≤◌,
}
use hypertrie.Common.Sets.{IsDistinct, contains-count}
use hypertrie.Einsum.Sums.{Assignment, assign}
use hypertrie.Subscript.{OperandSc, label_poss_from, other_labels}

-- The key that has `k` at the positions and the other key parts in their order, from `pos` on.
unfoldable pub spread : ℕ → ℕ → List ℕ → ℕ → List ℕ → List ℕ
spread pos zero poss k key = []
spread pos (suc n) poss k [] =
    let rest = spread (suc pos) n poss k [] in if contains poss pos then k ∷ rest else []
spread pos (suc n) poss k (x ∷ key) =
    let here = spread (suc pos) n poss k (x ∷ key) in
    let other = spread (suc pos) n poss k key in if contains poss pos then k ∷ here else x ∷ other

spread-here :
    (pos n : ℕ) (poss : List ℕ) (k : ℕ) (key : List ℕ)
    → contains poss pos ≡ true
    → spread pos (suc n) poss k key ≡ k ∷ spread (suc pos) n poss k key
unfolding spread
spread-here pos n poss k [] e = rw e refl
spread-here pos n poss k (x ∷ key) e = rw e refl

pub spread-labels :
    (pos : ℕ) (sc : OperandSc) (poss : List ℕ) (l k : ℕ) (a : Assignment)
    → ((i : ℕ) → i < length sc → contains poss (pos + i) ≡ get_or sc i 0 == l)
    → spread pos (length sc) poss k (map a (other_labels l sc)) ≡ map (assign l k a) sc
unfolding spread other_labels
spread-labels pos [] poss l k a at_poss = refl
spread-labels pos (m ∷ sc) poss l k a at_poss =
    let zero_on : pos + 0 ≡ pos = omega arith in
    let here : contains poss pos ≡ m == l =
      ap (contains poss) (sym zero_on) ∙ at_poss 0 (omega arith) in
    let rest = spread-labels (suc pos) sc poss l k a (λ i lt.
      let on : pos + suc i ≡ suc pos + i = omega arith in
      ap (contains poss) (sym on) ∙ at_poss (suc i) (omega (arith, lt))) in
    elim (Bool-cases (m == l)) [
      | inl same ↦
          let flip : (l == m) ≡ true = ground (arith, same) in
          rw (same, flip)
            (spread-here pos (length sc) poss k (map a (other_labels l sc)) (here ∙ same)
              ∙ ap (◌∷◌ k) rest)
      | inr other ↦
          let flip : (l == m) ≡ false = ground (arith, other) in
          rw (other, flip, here ∙ other) (ap (◌∷◌ (a m)) rest)
    ]

pub length-label_poss_from :
    (pos : ℕ) (sc : OperandSc) (l : ℕ)
    → length (label_poss_from pos sc l) + length (other_labels l sc) ≡ length sc
unfolding label_poss_from other_labels
length-label_poss_from pos [] l = omega arith
length-label_poss_from pos (m ∷ sc) l = ground (arith, length-label_poss_from (suc pos) sc l)

label_poss_from-before :
    (pos : ℕ) (sc : OperandSc) (l p : ℕ)
    → pos + length sc ≤ 256
    → p < pos
    → contains (label_poss_from pos sc l) p ≡ false
unfolding label_poss_from
label_poss_from-before pos [] l p b lt = refl
label_poss_from-before pos (m ∷ sc) l p b lt =
    let small : pos % 256 ≡ pos = omega (arith, b) in
    let rest = label_poss_from-before (suc pos) sc l p (omega (arith, b)) (omega (arith, lt)) in
    rw small (ground (arith, rest, lt))

pub contains-label_poss_from :
    (pos : ℕ) (sc : OperandSc) (l i : ℕ)
    → pos + length sc ≤ 256
    → i < length sc
    → contains (label_poss_from pos sc l) (pos + i) ≡ get_or sc i 0 == l
unfolding label_poss_from
contains-label_poss_from pos [] l i b lt = absurd (omega (arith, lt))
contains-label_poss_from pos (m ∷ sc) l zero b lt =
    let small : pos % 256 ≡ pos = omega (arith, b) in
    let zero_on : pos + 0 ≡ pos = omega arith in
    let rest = label_poss_from-before (suc pos) sc l pos (omega (arith, b)) (omega arith) in
    rw (small, zero_on) (ground (arith, rest))
contains-label_poss_from pos (m ∷ sc) l (suc i) b lt =
    let small : pos % 256 ≡ pos = omega (arith, b) in
    let on : pos + suc i ≡ suc pos + i = omega arith in
    let rest = contains-label_poss_from (suc pos) sc l i (omega (arith, b)) (omega (arith, lt)) in
    rw (small, on) (ground (arith, rest))

-- Positions of a key of the given length, each once.
abbrev pub AreValid : ℕ → List ℕ → Type 0
AreValid depth poss = IsDistinct poss × ((p : ℕ) → contains poss p ≡ true → p < depth)

label_poss_from-within :
    (pos : ℕ) (sc : OperandSc) (l p : ℕ)
    → pos + length sc ≤ 256
    → contains (label_poss_from pos sc l) p ≡ true
    → p < pos + length sc
unfolding label_poss_from
label_poss_from-within pos [] l p b e = absurd (ground (arith, e))
label_poss_from-within pos (m ∷ sc) l p b e =
    let small : pos % 256 ≡ pos = omega (arith, b) in
    let later = label_poss_from-within (suc pos) sc l p (omega (arith, b)) in
    ground (arith, later, small, e)

label_poss_from-IsDistinct :
    (pos : ℕ) (sc : OperandSc) (l : ℕ)
    → pos + length sc ≤ 256
    → IsDistinct (label_poss_from pos sc l)
unfolding label_poss_from
label_poss_from-IsDistinct pos [] l b p = omega arith
label_poss_from-IsDistinct pos (m ∷ sc) l b p =
    let small : pos % 256 ≡ pos = omega (arith, b) in
    let later = label_poss_from-IsDistinct (suc pos) sc l (omega (arith, b)) p in
    let none_before = label_poss_from-before (suc pos) sc l pos (omega (arith, b)) (omega arith) in
    let rest = label_poss_from (suc pos) sc l in
    rw small (ground (arith, later, none_before, contains-count rest pos, contains-count rest p))

pub label_poss_from-AreValid :
    (sc : OperandSc) (l : ℕ) → length sc ≤ 256 → AreValid (length sc) (label_poss_from 0 sc l)
label_poss_from-AreValid sc l b = (
  label_poss_from-IsDistinct 0 sc l (omega (arith, b)),
  λ p e. let lt = label_poss_from-within 0 sc l p (omega (arith, b)) e in omega (arith, lt),
)
