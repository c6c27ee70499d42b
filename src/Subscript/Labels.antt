-- ===== src/Subscript/Labels.antt =====
-- What the label sets, positions and `removeLabel` of a subscript hold.
use hypertrie.Common.{
  Bool, List, [], arith, contains, false, get_or, length, not, refl, suc, true, zero, ℕ, ◌&&◌, ◌<◌,
  ◌==◌, ◌||◌, ◌↔◌, ◌∷◌, ◌≡◌,
}
use hypertrie.Common.Sets.{
  IsDistinct, contains-set_erase, contains-set_insert, count-set_insert, length-set_erase_lt,
  length-subset, set_erase, set_insert,
}
use hypertrie.Subscript.{
  Label, OperandSc, RawSubscript, differs, differs_labels, differs_operands, get_operands_label_set,
  get_result_label_set, insert_labels, insert_operands, next_operands, other_labels, push_non_empty,
  remove_label,
}

-- Whether some operand has the label.
abbrev pub occurs : List OperandSc → Label → Bool
occurs [] a = false
occurs (operand ∷ operands) a = contains operand a || occurs operands a

contains-insert_labels :
    (ls labels : List Label) (a : Label)
    → contains (insert_labels ls labels) a ≡ (contains ls a || contains labels a)
unfolding insert_labels
contains-insert_labels [] labels a = refl
contains-insert_labels (l ∷ ls) labels a =
    ground
      (arith, contains-insert_labels ls (set_insert l labels) a, contains-set_insert l labels a)

contains-insert_operands :
    (operands : List OperandSc) (labels : List Label) (a : Label)
    → contains (insert_operands operands labels) a ≡ (occurs operands a || contains labels a)
unfolding insert_operands
contains-insert_operands [] labels a = refl
contains-insert_operands (operand ∷ operands) labels a = ground (
  arith,
  contains-insert_operands operands (insert_labels operand labels) a,
  contains-insert_labels operand labels a,
)

pub get_operands_label_set-occurs :
    (s : RawSubscript) (a : Label) → contains (get_operands_label_set s) a ≡ occurs s.operands a
unfolding get_operands_label_set
get_operands_label_set-occurs s a = ground (arith, contains-insert_operands s.operands [] a)

pub contains-get_result_label_set :
    (s : RawSubscript) (a : Label) → contains (get_result_label_set s) a ≡ contains s.result a
unfolding get_result_label_set
contains-get_result_label_set s a = ground (arith, contains-insert_labels s.result [] a)

insert_labels-IsDistinct :
    (ls labels : List Label) → IsDistinct labels → IsDistinct (insert_labels ls labels)
unfolding insert_labels
insert_labels-IsDistinct [] labels d = d
insert_labels-IsDistinct (l ∷ ls) labels d =
    insert_labels-IsDistinct ls (set_insert l labels)
      λ a. ground (arith, count-set_insert a l labels, d a)

insert_operands-IsDistinct :
    (operands : List OperandSc) (labels : List Label)
    → IsDistinct labels
    → IsDistinct (insert_operands operands labels)
unfolding insert_operands
insert_operands-IsDistinct [] labels d = d
insert_operands-IsDistinct (operand ∷ operands) labels d =
    insert_operands-IsDistinct operands (insert_labels operand labels)
      (insert_labels-IsDistinct operand labels d)

pub get_operands_label_set-IsDistinct : (s : RawSubscript) → IsDistinct (get_operands_label_set s)
unfolding get_operands_label_set
get_operands_label_set-IsDistinct s = insert_operands-IsDistinct s.operands [] λ a. omega arith

contains-other_labels :
    (l : Label) (operand : OperandSc) (a : Label)
    → contains (other_labels l operand) a ≡ (not (l == a) && contains operand a)
unfolding other_labels
contains-other_labels l [] a = ground arith
contains-other_labels l (k ∷ operand) a = ground (arith, contains-other_labels l operand a)

occurs-push_non_empty :
    (operand : OperandSc) (operands : List OperandSc) (a : Label)
    → occurs (push_non_empty operand operands) a ≡ (contains operand a || occurs operands a)
occurs-push_non_empty [] operands a = refl
occurs-push_non_empty (l ∷ ls) operands a = refl

occurs-next_operands :
    (l : Label) (operands : List OperandSc) (a : Label)
    → occurs (next_operands l operands) a ≡ (not (l == a) && occurs operands a)
unfolding next_operands
occurs-next_operands l [] a = ground arith
occurs-next_operands l (operand ∷ operands) a = ground (
  arith,
  occurs-push_non_empty (other_labels l operand) (next_operands l operands) a,
  contains-other_labels l operand a,
  occurs-next_operands l operands a,
)

-- After `removeLabel` the operands have the labels that they had, but for the removed one.
pub contains-remove_label :
    (l : Label) (s : RawSubscript) (a : Label)
    → contains (get_operands_label_set (remove_label l s)) a
      ≡ (not (l == a) && contains (get_operands_label_set s) a)
unfolding remove_label
contains-remove_label l s a = ground (
  arith,
  get_operands_label_set-occurs (remove_label l s) a,
  get_operands_label_set-occurs s a,
  occurs-next_operands l s.operands a,
)

-- For a label of the operands: without it they have exactly one label less.
pub length-remove_label :
    (l : Label) (s : RawSubscript)
    → contains (get_operands_label_set s) l ≡ true
    → suc (length (get_operands_label_set (remove_label l s))) ≡ length (get_operands_label_set s)
length-remove_label l s h =
    let before = get_operands_label_set s in
    let after = get_operands_label_set (remove_label l s) in
    let none_left =
      length-subset after (set_erase l before) (get_operands_label_set-IsDistinct _)
        λ a m. ground (arith, contains-remove_label l s a, contains-set_erase l before a, m) in
    let none_lost =
      length-subset before (l ∷ after) (get_operands_label_set-IsDistinct s)
        λ a m. ground (arith, contains-remove_label l s a, m) in
    omega (arith, none_left, none_lost, length-set_erase_lt l before h)

-- No operand is empty.
abbrev pub AllNonEmpty : List OperandSc → Type 0
AllNonEmpty [] = Unit
AllNonEmpty (operand ∷ operands) = (0 < length operand) × AllNonEmpty operands

differs_labels_iff :
    (a b : OperandSc) → length a ≡ length b → (differs_labels a b ≡ false) ↔ (a ≡ b)
unfolding differs_labels
differs_labels_iff [] [] h = ground arith
differs_labels_iff [] (y ∷ b) h = absurd (omega (arith, h))
differs_labels_iff (x ∷ a) [] h = absurd (omega (arith, h))
differs_labels_iff (x ∷ a) (y ∷ b) h = ground (arith, differs_labels_iff a b (omega (arith, h)))

differs_operands_iff :
    (a b : List OperandSc) → length a ≡ length b → (differs_operands a b ≡ false) ↔ (a ≡ b)
unfolding differs_operands
differs_operands_iff [] [] h = ground arith
differs_operands_iff [] (y ∷ b) h = absurd (omega (arith, h))
differs_operands_iff (x ∷ a) [] h = absurd (omega (arith, h))
differs_operands_iff (x ∷ a) (y ∷ b) h =
    ground (arith, differs_operands_iff a b (omega (arith, h)), differs_labels_iff x y)

-- `operator!=` of two raw subscripts is false exactly where they are equal.
pub differs_iff : (a b : RawSubscript) → (differs a b ≡ false) ↔ (a ≡ b)
unfolding differs
differs_iff a b =
    ground (arith, differs_operands_iff a.operands b.operands, differs_labels_iff a.result b.result)

pub contains-get_or :
    (operands : List OperandSc) (i : ℕ) (a : Label)
    → contains (get_or operands i []) a ≡ true
    → occurs operands a ≡ true
contains-get_or [] i a m = absurd (ground (arith, m))
contains-get_or (operand ∷ operands) zero a m = ground (arith, m)
contains-get_or (operand ∷ operands) (suc i) a m = ground (arith, contains-get_or operands i a m)
