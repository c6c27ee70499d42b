-- ===== src/Subscript/Make/Total.antt =====
-- The constructor returns a subscript whatever the labels are, and what its fields hold.
use hypertrie.Common.{
  ==_iff, Bool-cases, List, [], ap, arith, contains, get_or, inl, inr, is_empty, length, ltb, map,
  none, not, refl, some, suc, sym, true, ℕ, ◌&&◌, ◌+◌, ◌-◌, ◌==◌, ◌∙◌, ◌∷◌, ◌≡◌, ◌≤◌,
}
use hypertrie.Common.Assoc.{Assoc, emplace, find, find-emplace}
use hypertrie.Common.Sets.{count_all}
use hypertrie.Subscript.{
  Label, RawSubscript, byte, get_label_poss_in_result, get_operands_label_set, get_result_label_set,
  label_poss_in_result_from, operands_count,
}
use hypertrie.Subscript.Kinds.{SubscriptType}
use hypertrie.Subscript.Labels.{
  contains-get_or, contains-get_result_label_set, get_operands_label_set-occurs, occurs,
}
use hypertrie.Subscript.Make.{
  Subscript, all_in_result, calc_state, chosen_type, make_subscript, map_labels, result_mappings,
  subscript_of,
}
use hypertrie.Subscript.Make.Graphs.{AreComponents, get_connected_components-AreComponents}
use hypertrie.Subscript.Make.Positions.{
  all_result_done-set, all_result_done-used, contains-lonely, contains-used_result_poss_from,
}

-- A label that is already mapped keeps its position.
find-label_poss_kept :
    (p : ℕ) (result : List Label) (m : Assoc ℕ) (l v : ℕ)
    → find l m ≡ some v
    → find l (label_poss_in_result_from p result m) ≡ some v
unfolding label_poss_in_result_from
find-label_poss_kept p [] m l v h = h
find-label_poss_kept p (k ∷ result) m l v h =
    find-label_poss_kept (suc p) result (emplace k (byte p) m) l v
      (ground (arith, find-emplace l k (byte p) m, h))

-- A label of the result is mapped to a position where it stands.
find-label_poss :
    (p : ℕ) (result : List Label) (m : Assoc ℕ) (l : Label)
    → find l m ≡ none
    → contains result l ≡ true
    → p + length result ≤ 256
    → (i : ℕ) × (find l (label_poss_in_result_from p result m) ≡ some (p + i))
      × (get_or result i 0 ≡ l)
unfolding label_poss_in_result_from
find-label_poss p [] m l h c fits = absurd (ground (arith, c))
find-label_poss p (k ∷ result) m l h c fits = elim (Bool-cases (k == l)) [
  | inl e ↦
      let placed : find l (emplace k (byte p) m) ≡ some (byte p) =
        ground (arith, find-emplace l k (byte p) m, h, e) in
      (
        0,
        find-label_poss_kept (suc p) result (emplace k (byte p) m) l (byte p) placed
            ∙ ap some (omega (arith, fits)),
        (==_iff k l).0 e,
      )
  | inr e ↦
      let missing : find l (emplace k (byte p) m) ≡ none =
        ground (arith, find-emplace l k (byte p) m, h, e) in
      let (i, found, stands) =
        find-label_poss (suc p) result (emplace k (byte p) m) l missing (ground (arith, c, e))
          (omega (arith, fits)) in
      (suc i, found ∙ ap some (omega arith), stands)
]

-- The labels of a list that are found at positions of the result.
map_labels_returns :
    (s : RawSubscript) (labels : List Label)
    → length s.result ≤ 256
    → ((a : Label) → contains labels a ≡ true → contains s.result a ≡ true)
    → (poss : List ℕ) × (map_labels labels (get_label_poss_in_result s) ≡ some poss)
      × (map (λ i. get_or s.result i 0) poss ≡ labels)
unfolding map_labels get_label_poss_in_result
map_labels_returns s [] fits h = ([], refl, refl)
map_labels_returns s (l ∷ labels) fits h =
    let (i, found, stands) =
      find-label_poss 0 s.result [] l refl (h l (ground arith)) (omega (arith, fits)) in
    let (poss, ends, maps) = map_labels_returns s labels fits λ a m. h a (ground (arith, m)) in
    let at_i : 0 + i ≡ i = omega arith in
    ((0 + i) ∷ poss, rw (found, ends) refl, cc (at_i, stands, maps))

all_in_result-contains :
    (labels result : List Label) (a : Label)
    → all_in_result labels result ≡ true
    → contains labels a ≡ true
    → contains result a ≡ true
unfolding all_in_result
all_in_result-contains [] result a h m = absurd (ground (arith, m))
all_in_result-contains (l ∷ labels) result a h m = elim (Bool-cases (l == a)) [
  | inl e ↦ let same = (==_iff l a).0 e in rw (sym same) (ground (arith, h))
  | inr e ↦ all_in_result-contains labels result a (ground (arith, h)) (ground (arith, m, e))
]

-- Only one operand, whose labels are in the result, is resolved.
state-resolve :
    (s : RawSubscript) (components : List (List Label)) (a : Label)
    → calc_state s (get_operands_label_set s) (get_result_label_set s) components
      ≡ SubscriptType.resolve
    → contains (get_or s.operands 0 []) a ≡ true
    → contains s.result a ≡ true
unfolding calc_state operands_count
state-resolve s components a h m =
    let inside = all_in_result-contains (get_operands_label_set s) (get_result_label_set s) a in
    let first = contains-get_or s.operands 0 a in
    ground (
      arith,
      inside,
      h,
      m,
      first,
      get_operands_label_set-occurs s a,
      contains-get_result_label_set s a,
    )

-- Where the mapping is computed, it leads each label of the operand to a place of the result.
abbrev MapsOperand : RawSubscript → SubscriptType → List ℕ → Type 0
MapsOperand s type mapping =
    type ≡ SubscriptType.resolve → map (λ i. get_or s.result i 0) mapping ≡ get_or s.operands 0 []

result_mappings_return :
    (type : SubscriptType) (s : RawSubscript)
    → length s.result ≤ 256
    → (type ≡ SubscriptType.resolve
        → (a : Label) → contains (get_or s.operands 0 []) a ≡ true
        → contains s.result a ≡ true)
    → (m : Assoc ℕ × List ℕ) × (result_mappings type s ≡ some m) × MapsOperand s type m.1
unfolding result_mappings
result_mappings_return SubscriptType.resolve s fits h =
    let (poss, ends, maps) = map_labels_returns s (get_or s.operands 0 []) fits (h refl) in
    ((get_label_poss_in_result s, poss), rw ends refl, λ _. maps)
result_mappings_return SubscriptType.join s fits h =
    ((get_label_poss_in_result s, []), refl, λ e. cc)
result_mappings_return SubscriptType.none s fits h = (([], []), refl, λ e. cc)
result_mappings_return SubscriptType.cartesian s fits h = (([], []), refl, λ e. cc)
result_mappings_return SubscriptType.count s fits h = (([], []), refl, λ e. cc)
result_mappings_return SubscriptType.entry_generator s fits h = (([], []), refl, λ e. cc)
result_mappings_return SubscriptType.carthesian_mapping s fits h = (([], []), refl, λ e. cc)

chosen_type-resolve :
    (type calculated : SubscriptType)
    → chosen_type type calculated ≡ SubscriptType.resolve
    → calculated ≡ SubscriptType.resolve
unfolding chosen_type
chosen_type-resolve SubscriptType.carthesian_mapping calculated h = cc
chosen_type-resolve SubscriptType.none calculated h = h
chosen_type-resolve SubscriptType.join calculated h = h
chosen_type-resolve SubscriptType.cartesian calculated h = h
chosen_type-resolve SubscriptType.resolve calculated h = h
chosen_type-resolve SubscriptType.count calculated h = h
chosen_type-resolve SubscriptType.entry_generator calculated h = h

-- The fields of the subscript that the constructor makes of `s`.
pub record IsMade (s : RawSubscript) (type : SubscriptType) (made : Subscript) : Type 0 where
  pub raw : made.raw_subscript ≡ s
  pub label_set : made.operands_label_set ≡ get_operands_label_set s
  pub components : AreComponents s made.connected_components
  pub lonely :
      (a : Label)
      → contains made.lonely_non_result_labels a
        ≡ (count_all a s.operands == 1 && not (contains s.result a))
  pub mapping : MapsOperand s made.type made.operand2result_mapping
  pub used :
      (j : ℕ)
      → contains made.used_result_poss j
        ≡ (ltb j (length s.result) && occurs s.operands (get_or s.result j 0))
  pub done : made.all_result_done ≡ is_empty made.used_result_poss
  pub typed :
      made.type
      ≡ chosen_type type (
          calc_state s
            (get_operands_label_set s)
            (get_result_label_set s)
            made.connected_components)

-- With at most 256 operands and 256 result labels, and for every type asked for: the constructor
-- returns a subscript that holds the raw one, its set of labels and its components. Lonely are the
-- labels that stand once in all the operands and not in the result; the positions used are those
-- of result labels that an operand has, and all results are done where there is none; where the
-- type is `Resolve`, the mapping leads each label of the operand to a position of the result where
-- it stands; and the type is the one calculated unless `CarthesianMapping` was asked for.
pub make_subscript-IsMade :
    (s : RawSubscript) (type : SubscriptType)
    → length s.operands ≤ 256
    → length s.result ≤ 256
    → (made : Subscript) × (make_subscript s type ≡ some made) × IsMade s type made
unfolding make_subscript subscript_of
make_subscript-IsMade s type fits fits_result =
    let (components, found, are) = get_connected_components-AreComponents s in
    let labels = get_operands_label_set s in
    let calculated = calc_state s labels (get_result_label_set s) components in
    let (m, mapped, maps) =
      result_mappings_return (chosen_type type calculated) s fits_result
        λ e a. state-resolve s components a (chosen_type-resolve type calculated e) in
    (
      subscript_of s (chosen_type type calculated) components m,
      rw (found, mapped) refl,
      record {
        raw = refl;
        label_set = refl;
        components = are;
        lonely = λ a. contains-lonely s a fits;
        mapping = maps;
        used = λ j.
            let same : j - 0 ≡ j = omega arith in
            let place = ap (λ n. get_or s.result n 0) same in
            ground (
              arith,
              contains-used_result_poss_from 0 s.result labels j (omega (arith, fits_result)),
              get_operands_label_set-occurs s (get_or s.result j 0),
              place,
            );
        done = all_result_done-set labels s ∙ all_result_done-used 0 s.result labels;
        typed = refl;
      },
    )
