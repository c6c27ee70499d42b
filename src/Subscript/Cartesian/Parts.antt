-- ===== src/Subscript/Cartesian/Parts.antt =====
-- The components part the operands: each one that has labels goes whole to exactly one component.
use hypertrie.Common.{
  ==_iff, Bool, Bool-cases, List, [], ap, arith, bool_ext, contains, false, get_or, if◌then◌else◌,
  inl, inr, is_empty, leb, length, ltb, not, refl, suc, true, zero, ℕ, ◌&&◌, ◌+◌, ◌-◌, ◌<◌, ◌==◌,
  ◌∙◌, ◌∷◌, ◌≡◌, ◌≤◌,
}
use hypertrie.Common.Sets.{contains-count, count, count_all}
use hypertrie.Subscript.{Label, OperandSc, RawSubscript, byte}
use hypertrie.Subscript.Cartesian.{
  Extract, extract_operands, extract_result, push_extract, select_labels,
}
use hypertrie.Subscript.Graph.Edges.{together}
use hypertrie.Subscript.Labels.{contains-get_or}
use hypertrie.Subscript.Make.Graphs.{AreComponents, alone, chain}
use hypertrie.Subscript.Make.Positions.{occurs-count_all}

pub select_labels-contains :
    (c : List Label) (operand : OperandSc) (a : Label)
    → contains (select_labels c operand) a ≡ (contains c a && contains operand a)
unfolding select_labels
select_labels-contains c [] a = ground arith
select_labels-contains c (l ∷ operand) a = elim (Bool-cases (l == a)) [
  | inl e ↦
      let same : contains c l ≡ contains c a = ap (contains c) ((==_iff l a).0 e) in
      ground (arith, select_labels-contains c operand a, e, same)
  | inr e ↦ ground (arith, select_labels-contains c operand a, e)
]

-- All labels of an operand are in the set, or none is.
abbrev pub takes : List Label → OperandSc → Bool
takes c [] = false
takes c (l ∷ operand) = contains c l

abbrev pub IsWhole : List Label → OperandSc → Type 0
IsWhole c operand = select_labels c operand ≡ (if takes c operand then operand else [])

-- A set that no operand leaves.
abbrev pub Keeps : List Label → List OperandSc → Type 0
Keeps c operands = (a b : Label) → together operands a b ≡ true → contains c a ≡ contains c b

select_labels-all :
    (c : List Label) (operand : OperandSc)
    → ((a : Label) → contains operand a ≡ true → contains c a ≡ true)
    → select_labels c operand ≡ operand
unfolding select_labels
select_labels-all c [] h = refl
select_labels-all c (l ∷ operand) h =
    let rest = select_labels-all c operand λ a m. h a (ground (arith, m)) in
    ground (arith, rest, h l (ground arith))

select_labels-none :
    (c : List Label) (operand : OperandSc)
    → ((a : Label) → contains operand a ≡ true → contains c a ≡ false)
    → select_labels c operand ≡ []
unfolding select_labels
select_labels-none c [] h = refl
select_labels-none c (l ∷ operand) h =
    let rest = select_labels-none c operand λ a m. h a (ground (arith, m)) in
    ground (arith, rest, h l (ground arith))

select_labels-IsWhole :
    (c : List Label) (operand : OperandSc)
    → ((a b : Label)
        → (contains operand a && contains operand b) ≡ true
        → contains c a ≡ contains c b)
    → IsWhole c operand
select_labels-IsWhole c [] h = unfold select_labels in refl
select_labels-IsWhole c (l ∷ operand) h = elim (Bool-cases (contains c l)) [
  | inl e ↦ rw e (select_labels-all c (l ∷ operand) λ a m. h a l (ground (arith, m)) ∙ e)
  | inr e ↦ rw e (select_labels-none c (l ∷ operand) λ a m. h a l (ground (arith, m)) ∙ e)
]

pub together-count_all :
    (cs : List (List Label)) (a b : Label) → together cs a b ≡ true → 0 < count_all a cs
together-count_all [] a b h = absurd (ground (arith, h))
together-count_all (c ∷ cs) a b h = ground (arith, h, contains-count c a, together-count_all cs a b)

-- Sets that have a label at most once: what it shares a set with is in each set that has it.
pub together-get_or :
    (cs : List (List Label)) (i : ℕ) (a b : Label)
    → count_all a cs ≤ 1
    → contains (get_or cs i []) a ≡ true
    → together cs a b ≡ true
    → contains (get_or cs i []) b ≡ true
together-get_or [] i a b once m h = absurd (ground (arith, m))
together-get_or (c ∷ cs) zero a b once m h =
    ground (arith, once, m, h, contains-count c a, together-count_all cs a b)
together-get_or (c ∷ cs) (suc i) a b once m h =
    let later = contains-get_or cs i a m in
    let rest = together-get_or cs i a b (ground (arith, once)) m in
    ground (arith, once, h, rest, contains-count c a, occurs-count_all cs a, later)

together_sym : (cs : List (List Label)) (a b : Label) → together cs a b ≡ together cs b a
together_sym [] a b = refl
together_sym (c ∷ cs) a b = ground (arith, together_sym cs a b)

pub together-operand :
    (operands : List OperandSc) (j : ℕ) (a b : Label)
    → (contains (get_or operands j []) a && contains (get_or operands j []) b) ≡ true
    → together operands a b ≡ true
together-operand [] j a b h = absurd (ground (arith, h))
together-operand (operand ∷ operands) zero a b h = ground (arith, h)
together-operand (operand ∷ operands) (suc j) a b h =
    ground (arith, together-operand operands j a b h)

module _ (s : RawSubscript) (cs : List (List Label)) (are : AreComponents s cs) where
  pub component-Keeps : (i : ℕ) → Keeps (get_or cs i []) s.operands
  component-Keeps i a b h =
      let half : (a b : Label)
          → together s.operands a b ≡ true
          → contains (get_or cs i []) a ≡ true
          → contains (get_or cs i []) b ≡ true =
        λ a b h m. together-get_or cs i a b (ground (arith, are.once a)) m (
          are.complete a b
            (ground (arith, together-count_all s.operands a b h, occurs-count_all s.operands a))
            (chain alone h)) in
      bool_ext _ _ (half a b h) (half b a (together_sym s.operands b a ∙ h))

  pub whole : (i j : ℕ) → IsWhole (get_or cs i []) (get_or s.operands j [])
  whole i j =
      select_labels-IsWhole (get_or cs i []) (get_or s.operands j [])
        λ a b h. component-Keeps i a b (together-operand s.operands j a b h)

-- How many of the sets have the label, each counted once.
abbrev pub sets_with : Label → List (List Label) → ℕ
sets_with a [] = 0
sets_with a (c ∷ cs) = (if contains c a then 1 else 0) + sets_with a cs

pub sets_with-count_all :
    (a : Label) (cs : List (List Label)) → count_all a cs ≤ 1 → sets_with a cs ≡ count_all a cs
sets_with-count_all a [] h = refl
sets_with-count_all a (c ∷ cs) h =
    ground (arith, contains-count c a, sets_with-count_all a cs (ground (arith, h)))

count-push_extract :
    (p : ℕ) (selected : OperandSc) (e : Extract OperandSc) (j : ℕ)
    → count j (push_extract p selected e).original_poss
      ≡ (if not (is_empty selected) && byte p == j then 1 else 0) + count j e.original_poss
count-push_extract p [] e j = ground arith
count-push_extract p (l ∷ ls) e j = refl

-- The positions that are stored with an extract: those of the operands that give it a label.
pub count-extract_operands :
    (p : ℕ) (operands : List OperandSc) (c : List Label) (j : ℕ)
    → p + length operands ≤ 256
    → count j (extract_operands p operands c).original_poss ≡ (
        if leb p j
          && (ltb j (p + length operands)
              && not (is_empty (select_labels c (get_or operands (j - p) []))))
        then 1
        else 0)
unfolding extract_operands
count-extract_operands p [] c j fits = ground arith
count-extract_operands p (operand ∷ operands) c j fits =
    let stored : byte p ≡ p = omega (arith, fits) in
    let rest = count-extract_operands (suc p) operands c j (omega (arith, fits)) in
    let pushed =
      count-push_extract p (select_labels c operand) (extract_operands (suc p) operands c) j in
    elim (Bool-cases (ltb p j)) [
      | inl later ↦
          let shifted : j - p ≡ suc (j - suc p) = ground (arith, later) in
          let same : get_or (operand ∷ operands) (j - p) [] ≡ get_or operands (j - suc p) [] =
            ap (λ n. get_or (operand ∷ operands) n []) shifted in
          ground (arith, rest, pushed, same, later, stored)
      | inr not_later ↦ elim (Bool-cases (p == j)) [
        | inl e ↦
            let start : j - p ≡ 0 = ground (arith, e) in
            let first : get_or (operand ∷ operands) (j - p) [] ≡ operand =
              ap (λ n. get_or (operand ∷ operands) n []) start in
            ground (arith, rest, pushed, e, first, stored)
        | inr e ↦ ground (arith, rest, pushed, e, not_later, stored)
      ]
    ]

pub count-extract_result :
    (p : ℕ) (result : List Label) (c : List Label) (j : ℕ)
    → p + length result ≤ 256
    → count j (extract_result p result c).original_poss ≡ (
        if leb p j && (ltb j (p + length result) && contains c (get_or result (j - p) 0))
        then 1
        else 0)
unfolding extract_result
count-extract_result p [] c j fits = ground arith
count-extract_result p (l ∷ result) c j fits =
    let stored : byte p ≡ p = omega (arith, fits) in
    let rest = count-extract_result (suc p) result c j (omega (arith, fits)) in
    elim (Bool-cases (ltb p j)) [
      | inl later ↦
          let shifted : j - p ≡ suc (j - suc p) = ground (arith, later) in
          let same : get_or (l ∷ result) (j - p) 0 ≡ get_or result (j - suc p) 0 =
            ap (λ n. get_or (l ∷ result) n 0) shifted in
          ground (arith, rest, same, later, stored)
      | inr not_later ↦ elim (Bool-cases (p == j)) [
        | inl e ↦
            let start : j - p ≡ 0 = ground (arith, e) in
            let first : get_or (l ∷ result) (j - p) 0 ≡ l =
              ap (λ n. get_or (l ∷ result) n 0) start in
            ground (arith, rest, e, first, stored)
        | inr e ↦ ground (arith, rest, e, not_later, stored)
      ]
    ]
