-- ===== src/Subscript/Cartesian/Partition.antt =====
-- The factors of a Cartesian product together have each operand that has labels, once and whole, and
-- each position of the result with a label of the operands once.
use hypertrie.Common.{
  Bool-cases, List, List-cases, [], ap, arith, contains, false, get_or, if◌then◌else◌, inl, inr,
  is_empty, length, map, not, refl, subst, suc, true, ℕ, ◌-◌, ◌<◌, ◌∙◌, ◌∷◌, ◌≡◌, ◌≤◌,
}
use hypertrie.Common.Sets.{count, count_all}
use hypertrie.Subscript.{Label, OperandSc, RawSubscript}
use hypertrie.Subscript.Cartesian.{extract_operands, extract_result, select_labels}
use hypertrie.Subscript.Cartesian.Parts.{
  IsWhole, count-extract_operands, count-extract_result, sets_with, sets_with-count_all, whole,
}
use hypertrie.Subscript.Labels.{contains-get_or, occurs}
use hypertrie.Subscript.Make.Graphs.{AreComponents}

not-is_empty_whole :
    (c : List Label) (l : Label) (rest : OperandSc)
    → IsWhole c (l ∷ rest)
    → not (is_empty (select_labels c (l ∷ rest))) ≡ contains c l
not-is_empty_whole c l rest h =
    rw h (elim (Bool-cases (contains c l)) [ inl e ↦ rw e refl | inr e ↦ rw e refl ])

abbrev pub operand_poss_of : RawSubscript → List (List Label) → List (List ℕ)
operand_poss_of s cs = map (λ c. (extract_operands 0 s.operands c).original_poss) cs

abbrev pub result_poss_of : RawSubscript → List (List Label) → List (List ℕ)
result_poss_of s cs = map (λ c. (extract_result 0 s.result c).original_poss) cs

module _ (s : RawSubscript) (j : ℕ) where
  same_place : j - 0 ≡ j
  same_place = omega arith

  unshifted : get_or s.operands (j - 0) [] ≡ get_or s.operands j []
  unshifted = ap (λ n. get_or s.operands n []) same_place

  count_all-operand_poss :
      (l : Label) (rest : OperandSc) (cs : List (List Label))
      → length s.operands ≤ 256
      → j < length s.operands
      → get_or s.operands j [] ≡ l ∷ rest
      → ((i : ℕ) → IsWhole (get_or cs i []) (l ∷ rest))
      → count_all j (operand_poss_of s cs) ≡ sets_with l cs
  count_all-operand_poss l rest [] fits lt e whole = refl
  count_all-operand_poss l rest (c ∷ cs) fits lt e whole =
      let in_first : count j (extract_operands 0 s.operands c).original_poss
          ≡ (if contains c l then 1 else 0) =
        let place : get_or s.operands (j - 0) [] ≡ l ∷ rest = unshifted ∙ e in
        let selected : not (is_empty (select_labels c (get_or s.operands (j - 0) [])))
            ≡ contains c l =
          rw place (not-is_empty_whole c l rest (whole 0)) in
        ground
          (arith, count-extract_operands 0 s.operands c j (omega (arith, fits)), selected, lt) in
      let later = count_all-operand_poss l rest cs fits lt e (λ i. whole (suc i)) in
      omega (arith, in_first, later)

  count_all-no_labels :
      (cs : List (List Label))
      → length s.operands ≤ 256
      → get_or s.operands j [] ≡ []
      → count_all j (operand_poss_of s cs) ≡ 0
  count_all-no_labels [] fits e = refl
  count_all-no_labels (c ∷ cs) fits e =
      let in_first : count j (extract_operands 0 s.operands c).original_poss ≡ 0 =
        let place : get_or s.operands (j - 0) [] ≡ [] = unshifted ∙ e in
        let selected : not (is_empty (select_labels c (get_or s.operands (j - 0) []))) ≡ false =
          unfold select_labels in rw place refl in
        ground (arith, count-extract_operands 0 s.operands c j (omega (arith, fits)), selected) in
      omega (arith, in_first, count_all-no_labels cs fits e)

  count_all-result_poss :
      (cs : List (List Label))
      → length s.result ≤ 256
      → j < length s.result
      → count_all j (result_poss_of s cs) ≡ sets_with (get_or s.result j 0) cs
  count_all-result_poss [] fits lt = refl
  count_all-result_poss (c ∷ cs) fits lt =
      let place = ap (λ n. get_or s.result n 0) same_place in
      ground (
        arith,
        lt,
        place,
        count-extract_result 0 s.result c j (omega (arith, fits)),
        count_all-result_poss cs fits lt,
      )

-- For the components of a raw subscript of at most 256 operands, and the position of an operand:
-- the position is stored with exactly one of the extracted sub-subscripts where the operand has
-- labels, and with none where it has not; and what any component selects from the operand is all
-- of it or nothing.
pub operand_poss-once :
    (s : RawSubscript) (cs : List (List Label)) (j : ℕ)
    → AreComponents s cs
    → length s.operands ≤ 256
    → j < length s.operands
    → (count_all j (operand_poss_of s cs) ≡ (if is_empty (get_or s.operands j []) then 0 else 1))
      × ((i : ℕ) → IsWhole (get_or cs i []) (get_or s.operands j []))
operand_poss-once s cs j are fits lt = (
  elim (List-cases (get_or s.operands j [])) [
    | inl e ↦ rw e (count_all-no_labels s j cs fits e)
    | inr (l, rest, e) ↦
        let occurs_here : occurs s.operands l ≡ true =
          contains-get_or s.operands j l (rw e (ground arith)) in
        let once : count_all l cs ≡ 1 = ground (arith, are.once l, occurs_here) in
        let counted =
          count_all-operand_poss s j l rest cs fits lt e
            λ i. subst (IsWhole (get_or cs i [])) e (whole s cs are i j) in
        rw e (counted ∙ sets_with-count_all l cs (omega (arith, once)) ∙ once)
  ],
  λ i. whole s cs are i j,
)

-- For the components of a raw subscript of at most 256 result labels, and a position of the
-- result: it is stored with exactly one of the extracted sub-subscripts where an operand has the
-- label, and with none otherwise.
pub result_poss-once :
    (s : RawSubscript) (cs : List (List Label)) (j : ℕ)
    → AreComponents s cs
    → length s.result ≤ 256
    → j < length s.result
    → count_all j (result_poss_of s cs) ≡ (if occurs s.operands (get_or s.result j 0) then 1 else 0)
result_poss-once s cs j are fits lt =
    let once = are.once (get_or s.result j 0) in
    count_all-result_poss s j cs fits lt
    ∙ sets_with-count_all (get_or s.result j 0) cs (ground (arith, once))
    ∙ once
