-- ===== src/Subscript/Make/Positions.antt =====
-- The positions that a subscript keeps: of the operands with a label, and of labels in the result.
use hypertrie.Common.{
  ==_iff, Bool-cases, List, [], ap, append-nil, append_assoc, arith, bool_ext, contains, false,
  get_or, if◌then◌else◌, inl, inr, is_empty, leb, length, length-append, length-eq-zero,
  length-replicate, ltb, not, refl, replicate, suc, sym, true, ℕ, ℕ-cases, ◌&&◌, ◌++◌, ◌+◌, ◌-◌,
  ◌==◌, ◌↔◌, ◌∙◌, ◌∷◌, ◌≡◌, ◌≤◌,
}
use hypertrie.Common.Assoc.{Assoc, at_or, at_or-insert_or_assign, find, insert_or_assign}
use hypertrie.Common.Sets.{contains-count, contains-set_insert, count, count_all}
use hypertrie.Subscript.{
  Label, OperandSc, RawSubscript, byte, get_operands_label_set, get_result_label_set,
}
use hypertrie.Subscript.Labels.{
  contains-get_result_label_set, get_operands_label_set-occurs, occurs,
}
use hypertrie.Subscript.Make.{
  calc_all_result_done, is_lonely, lonely_labels, poss_of_operands_from, push_operand_pos,
  used_result_poss_from,
}

-- Position `op_pos` and those after it, each as often as the label stands in the operand there.
abbrev pub operand_poss : ℕ → List OperandSc → Label → List ℕ
operand_poss op_pos [] l = []
operand_poss op_pos (operand ∷ operands) l =
    replicate (count l operand) op_pos ++ operand_poss (suc op_pos) operands l

at_or-push_operand_pos :
    (p : ℕ) (operand : OperandSc) (poss : Assoc (List ℕ)) (l : Label)
    → at_or l [] (push_operand_pos p operand poss)
      ≡ at_or l [] poss ++ replicate (count l operand) (byte p)
unfolding push_operand_pos
at_or-push_operand_pos p [] poss l = sym (append-nil _)
at_or-push_operand_pos p (k ∷ operand) poss l =
    let one = at_or-insert_or_assign l k (at_or k [] poss ++ (byte p ∷ [])) [] poss in
    let rest =
      at_or-push_operand_pos p operand (insert_or_assign k (at_or k [] poss ++ (byte p ∷ [])) poss)
        l in
    elim (Bool-cases (k == l)) [
      | inl e ↦
          let same = (==_iff k l).0 e in
          let one_more : suc (count l operand) ≡ 1 + count l operand = omega arith in
          rw (rest, one, e, same)
            (append_assoc (at_or l [] poss) (byte p ∷ []) (replicate (count l operand) (byte p))
              ∙ ap (λ n. at_or l [] poss ++ replicate n (byte p)) one_more)
      | inr e ↦ rw (rest, one, e) (ap (λ n. at_or l [] poss ++ replicate n (byte p)) (omega arith))
    ]

at_or-poss_of_operands_from :
    (p : ℕ) (operands : List OperandSc) (poss : Assoc (List ℕ)) (l : Label)
    → p + length operands ≤ 256
    → at_or l [] (poss_of_operands_from p operands poss)
      ≡ at_or l [] poss ++ operand_poss p operands l
unfolding poss_of_operands_from
at_or-poss_of_operands_from p [] poss l fits = sym (append-nil _)
at_or-poss_of_operands_from p (operand ∷ operands) poss l fits =
    let stored : byte p ≡ p = omega (arith, fits) in
    let rest =
      at_or-poss_of_operands_from (suc p) operands (push_operand_pos p operand poss) l
        (omega (arith, fits)) in
    rest
    ∙ ap (λ ps. ps ++ operand_poss (suc p) operands l)
        (at_or-push_operand_pos p operand poss l
          ∙ ap (λ n. at_or l [] poss ++ replicate (count l operand) n) stored)
    ∙ append_assoc (at_or l [] poss) (replicate (count l operand) p)
        (operand_poss (suc p) operands l)

length-operand_poss :
    (p : ℕ) (operands : List OperandSc) (l : Label)
    → length (operand_poss p operands l) ≡ count_all l operands
length-operand_poss p [] l = refl
length-operand_poss p (operand ∷ operands) l = omega (
  arith,
  length-append (replicate (count l operand) p) (operand_poss (suc p) operands l),
  length-replicate (count l operand) p,
  length-operand_poss (suc p) operands l,
)

-- A label that stands once in the operands has one position, of the operand where it stands once.
operand_poss-single :
    (p : ℕ) (operands : List OperandSc) (l : Label)
    → count_all l operands ≡ 1
    → (i : ℕ) × (operand_poss p operands l ≡ (p + i) ∷ []) × (count l (get_or operands i []) ≡ 1)
operand_poss-single p [] l h = absurd (omega (arith, h))
operand_poss-single p (operand ∷ operands) l h = elim (ℕ-cases (count l operand)) [
  | inl e ↦
      let (i, single, one) = operand_poss-single (suc p) operands l (omega (arith, h, e)) in
      (suc i, rw (e, single) (ap (λ n. n ∷ []) (omega arith)), one)
  | inr (m, e) ↦
      let m0 : m ≡ 0 = omega (arith, h, e) in
      let none_after =
        length-eq-zero (operand_poss (suc p) operands l)
          (omega (arith, length-operand_poss (suc p) operands l, h, e)) in
      (
        0,
        ap (λ n. replicate n p ++ operand_poss (suc p) operands l) (e ∙ ap suc m0)
            ∙ ap (λ ps. p ∷ ps) none_after
            ∙ ap (λ n. n ∷ []) (omega arith),
        omega (arith, e, h),
      )
]

contains-lonely_labels :
    (labels : List Label) (operands : List OperandSc) (result : List Label) (poss : Assoc (List ℕ))
    (a : Label)
    → contains (lonely_labels labels operands result poss) a
      ≡ (contains labels a && (not (contains result a) && is_lonely operands (at_or a [] poss) a))
unfolding lonely_labels
contains-lonely_labels [] operands result poss a = refl
contains-lonely_labels (l ∷ labels) operands result poss a =
    let rest = contains-lonely_labels labels operands result poss a in
    let inserted = contains-set_insert l (lonely_labels labels operands result poss) a in
    elim (Bool-cases (l == a)) [
      | inl e ↦
          let same = (==_iff l a).0 e in
          let moved : is_lonely operands (at_or l [] poss) l
              ≡ is_lonely operands (at_or a [] poss) a =
            rw same refl in
          ground (arith, rest, inserted, e, moved)
      | inr e ↦ ground (arith, rest, inserted, e)
    ]

is_lonely-count_all :
    (operands : List OperandSc) (l : Label)
    → is_lonely operands (operand_poss 0 operands l) l ≡ (count_all l operands == 1)
unfolding is_lonely
is_lonely-count_all operands l = elim (Bool-cases (count_all l operands == 1)) [
  | inl e ↦
      let (i, single, one) = operand_poss-single 0 operands l ((==_iff _ 1).0 e) in
      let here_only : operand_poss 0 operands l ≡ i ∷ [] =
        single ∙ ap (λ n. n ∷ []) (omega arith) in
      rw (here_only, e, one) refl
  | inr e ↦ ground (arith, e, length-operand_poss 0 operands l)
]

pub occurs-count_all :
    (operands : List OperandSc) (l : Label)
    → occurs operands l ≡ (if count_all l operands == 0 then false else true)
occurs-count_all [] l = ground arith
occurs-count_all (operand ∷ operands) l =
    ground (arith, contains-count operand l, occurs-count_all operands l)

-- The loop for `used_result_poss` finds the positions of the result whose label an operand has.
pub contains-used_result_poss_from :
    (i : ℕ) (result labels : List Label) (j : ℕ)
    → i + length result ≤ 256
    → contains (used_result_poss_from i result labels) j
      ≡ (leb i j && (ltb j (i + length result) && contains labels (get_or result (j - i) 0)))
unfolding used_result_poss_from
contains-used_result_poss_from i [] labels j fits = ground arith
contains-used_result_poss_from i (l ∷ result) labels j fits =
    let stored : byte i ≡ i = omega (arith, fits) in
    let rest = contains-used_result_poss_from (suc i) result labels j (omega (arith, fits)) in
    elim (Bool-cases (ltb i j)) [
      | inl later ↦
          let shifted : j - i ≡ suc (j - suc i) = ground (arith, later) in
          let same : get_or (l ∷ result) (j - i) 0 ≡ get_or result (j - suc i) 0 =
            ap (λ n. get_or (l ∷ result) n 0) shifted in
          ground (arith, rest, same, later, stored)
      | inr not_later ↦ elim (Bool-cases (i == j)) [
        | inl e ↦
            let start : j - i ≡ 0 = ground (arith, e) in
            let first : get_or (l ∷ result) (j - i) 0 ≡ l =
              ap (λ n. get_or (l ∷ result) n 0) start in
            ground (arith, rest, e, first, stored)
        | inr e ↦ ground (arith, rest, e, not_later, stored)
      ]
    ]

all_result_done_iff :
    (labels result : List Label)
    → (calc_all_result_done labels result ≡ true)
      ↔ ((a : Label) → contains result a ≡ true → contains labels a ≡ false)
unfolding calc_all_result_done
all_result_done_iff labels [] = (λ h a m. absurd (ground (arith, m)), λ h. refl)
all_result_done_iff labels (l ∷ result) =
    let (fwd, back) = all_result_done_iff labels result in
    (
      λ h a m. elim (Bool-cases (l == a)) [
        | inl e ↦ let same = (==_iff l a).0 e in rw (sym same) (ground (arith, h))
        | inr e ↦ fwd (ground (arith, h)) a (ground (arith, m, e))
      ],
      λ h.
          let first = h l (ground arith) in
          let rest = back λ a m. h a (ground (arith, m)) in ground (arith, first, rest),
    )

-- A set of the result's labels serves as well as the result.
pub all_result_done-set :
    (labels : List Label) (s : RawSubscript)
    → calc_all_result_done labels (get_result_label_set s) ≡ calc_all_result_done labels s.result
all_result_done-set labels s =
    let via_set = all_result_done_iff labels (get_result_label_set s) in
    let result = all_result_done_iff labels s.result in
    let same = contains-get_result_label_set s in
    bool_ext _ _ (λ h. result.1 λ a m. via_set.0 h a (same a ∙ m))
      λ h. via_set.1 λ a m. result.0 h a (sym (same a) ∙ m)

pub all_result_done-used :
    (i : ℕ) (result labels : List Label)
    → calc_all_result_done labels result ≡ is_empty (used_result_poss_from i result labels)
unfolding used_result_poss_from calc_all_result_done
all_result_done-used i [] labels = refl
all_result_done-used i (l ∷ result) labels =
    ground (arith, all_result_done-used (suc i) result labels)

-- The labels that stand once in all the operands, and not in the result.
pub contains-lonely :
    (s : RawSubscript) (a : Label)
    → length s.operands ≤ 256
    → contains
        (lonely_labels
          (get_operands_label_set s)
          s.operands
          (get_result_label_set s)
          (poss_of_operands_from 0 s.operands []))
        a
      ≡ (count_all a s.operands == 1 && not (contains s.result a))
unfolding at_or find
contains-lonely s a fits =
    let poss = poss_of_operands_from 0 s.operands [] in
    let at = at_or-poss_of_operands_from 0 s.operands [] a (omega (arith, fits)) in
    let lonely : is_lonely s.operands (at_or a [] poss) a ≡ (count_all a s.operands == 1) =
      rw at (is_lonely-count_all s.operands a) in
    ground (
      arith,
      lonely,
      contains-lonely_labels (get_operands_label_set s) s.operands (get_result_label_set s) poss a,
      contains-get_result_label_set s a,
      get_operands_label_set-occurs s a,
      occurs-count_all s.operands a,
    )
