-- ===== src/Subscript/Cartesian/Single.antt =====
-- The factors of a Cartesian product are no Cartesian products themselves: the labels of a component
-- stay linked by the operands that the factor keeps.
use hypertrie.Common.{
  List, [], arith, contains, get_or, length, refl, some, suc, sym, true, ℕ, ◌&&◌, ◌<◌, ◌||◌, ◌∙◌,
  ◌∷◌, ◌≡◌, ◌≢◌, ◌≤◌,
}
use hypertrie.Common.Sets.{contains-count, count_all}
use hypertrie.Subscript.{Label, OperandSc, RawSubscript}
use hypertrie.Subscript.Cartesian.{
  Extract, extract_operands, extract_result, push_extract, select_labels, sub_raw_subscript,
}
use hypertrie.Subscript.Cartesian.Parts.{
  component-Keeps, select_labels-contains, together-get_or, together-operand,
}
use hypertrie.Subscript.Graph.Components.{all_inhabited}
use hypertrie.Subscript.Graph.Edges.{together}
use hypertrie.Subscript.Kinds.{SubscriptType}
use hypertrie.Subscript.Labels.{occurs}
use hypertrie.Subscript.Make.{Subscript, calc_state, chosen_type, make_subscript}
use hypertrie.Subscript.Make.Graphs.{AreComponents, Linked, alone, chain}
use hypertrie.Subscript.Make.Total.{IsMade, make_subscript-IsMade}

occurs-push_extract :
    (p : ℕ) (operand : OperandSc) (e : Extract OperandSc) (a b : Label)
    → (occurs (push_extract p operand e).labels a ≡ (contains operand a || occurs e.labels a))
      × (together (push_extract p operand e).labels a b
          ≡ ((contains operand a && contains operand b) || together e.labels a b))
occurs-push_extract p [] e a b = (refl, refl)
occurs-push_extract p (l ∷ ls) e a b = (refl, refl)

module _ (c : List Label) (a b : Label) where
  occurs-extract_operands :
      (p : ℕ) (operands : List OperandSc)
      → (occurs (extract_operands p operands c).labels a ≡ (contains c a && occurs operands a))
        × (together (extract_operands p operands c).labels a b
            ≡ ((contains c a && contains c b) && together operands a b))
  unfolding extract_operands
  occurs-extract_operands p [] = (ground arith, ground arith)
  occurs-extract_operands p (operand ∷ operands) =
      let rest = occurs-extract_operands (suc p) operands in
      let pushed =
        occurs-push_extract p (select_labels c operand) (extract_operands (suc p) operands c) a b in
      let has_a = select_labels-contains c operand a in
      let has_b = select_labels-contains c operand b in
      (ground (arith, rest.0, pushed.0, has_a), ground (arith, rest.1, pushed.1, has_a, has_b))

length-push_extract :
    (p : ℕ) (operand : OperandSc) (e : Extract OperandSc)
    → length (push_extract p operand e).labels ≤ suc (length e.labels)
length-push_extract p [] e = omega arith
length-push_extract p (l ∷ ls) e = omega arith

length-extract_operands :
    (p : ℕ) (operands : List OperandSc) (c : List Label)
    → length (extract_operands p operands c).labels ≤ length operands
unfolding extract_operands
length-extract_operands p [] c = omega arith
length-extract_operands p (operand ∷ operands) c = omega (
  arith,
  length-extract_operands (suc p) operands c,
  length-push_extract p (select_labels c operand) (extract_operands (suc p) operands c),
)

length-extract_result :
    (p : ℕ) (result c : List Label) → length (extract_result p result c).labels ≤ length result
unfolding extract_result
length-extract_result p [] c = omega arith
length-extract_result p (l ∷ result) c = ground (arith, length-extract_result (suc p) result c)

-- Sets with no label in common, of which any two labels share one, are at most one set.
one_class :
    (cs : List (List Label))
    → all_inhabited cs ≡ true
    → ((a : Label) → count_all a cs ≤ 1)
    → ((a b : Label) → 0 < count_all a cs → 0 < count_all b cs → together cs a b ≡ true)
    → length cs ≤ 1
one_class [] inh once all = omega arith
one_class (c ∷ []) inh once all = omega arith
one_class ([] ∷ d ∷ cs) inh once all = absurd (ground (arith, inh))
one_class ((a ∷ c) ∷ [] ∷ cs) inh once all = absurd (ground (arith, inh))
one_class ((a ∷ c) ∷ (b ∷ d) ∷ cs) inh once all =
    let sets = (a ∷ c) ∷ (b ∷ d) ∷ cs in
    let both = all a b (ground arith) (ground arith) in
    let meets = together-get_or sets 0 a b (once a) (ground arith) both in
    absurd (ground (arith, meets, once b, contains-count c b))

module _ (s : RawSubscript) (cs : List (List Label)) (are : AreComponents s cs) (i : ℕ) where
  abbrev component : List Label
  component = get_or cs i []

  abbrev sub : RawSubscript
  sub = sub_raw_subscript s component

  occurs-sub : (a : Label) → occurs sub.operands a ≡ (contains component a && occurs s.operands a)
  unfolding sub_raw_subscript
  occurs-sub a = (occurs-extract_operands component a a 0 s.operands).0

  together-sub :
      (a b : Label)
      → together sub.operands a b
        ≡ ((contains component a && contains component b) && together s.operands a b)
  unfolding sub_raw_subscript
  together-sub a b = (occurs-extract_operands component a b 0 s.operands).1

  Linked-sub :
      {a b : Label}
      → contains component a ≡ true
      → Linked s.operands a b
      → (contains component b ≡ true) × Linked sub.operands a b
  Linked-sub m alone = (m, alone)
  Linked-sub m (chain {b} {c} p e) =
      let (m', q) = Linked-sub m p in
      let next : contains component c ≡ true = sym (component-Keeps s cs are i b c e) ∙ m' in
      (next, chain q (ground (arith, together-sub b c, m', next, e)))

  one_component : (cs' : List (List Label)) → AreComponents sub cs' → length cs' ≤ 1
  one_component cs' are' =
      let inside : (a : Label)
          → 0 < count_all a cs'
          → (contains component a && occurs s.operands a) ≡ true =
        λ a h. ground (arith, are'.once a, occurs-sub a, h) in
      one_class cs' are'.inhabited (λ a. ground (arith, are'.once a))
        λ a b ha hb.
          let both : (contains component a && contains component b) ≡ true =
            ground (arith, inside a ha, inside b hb) in
          let linked = are.joined a b (together-operand cs i a b both) in
          are'.complete a b (ground (arith, occurs-sub a, inside a ha))
            (Linked-sub (ground (arith, both)) linked).1

calc_state-cartesian :
    (s : RawSubscript) (labels result : List Label) (cs : List (List Label))
    → calc_state s labels result cs ≡ SubscriptType.cartesian
    → 1 < length cs
unfolding calc_state
calc_state-cartesian s labels result cs h = ground (arith, h)

pub sub_raw_subscript-IsMade :
    (s : RawSubscript) (cs : List (List Label)) (i : ℕ)
    → AreComponents s cs
    → length s.operands ≤ 256
    → length s.result ≤ 256
    → (made : Subscript) × (make_subscript (sub_raw_subscript s (get_or cs i [])) SubscriptType.none
        ≡ some made)
      × IsMade (sub_raw_subscript s (get_or cs i [])) SubscriptType.none made
      × (made.type ≢ SubscriptType.cartesian)
unfolding sub_raw_subscript chosen_type
sub_raw_subscript-IsMade s cs i are fits fits_result =
    let c = get_or cs i [] in
    let (made, ends, is_made) =
      make_subscript-IsMade (sub_raw_subscript s c) SubscriptType.none
        (omega (arith, fits, length-extract_operands 0 s.operands c))
        (omega (arith, fits_result, length-extract_result 0 s.result c)) in
    (
      made,
      ends,
      is_made,
      λ e.
          let single = one_component s cs are i made.connected_components is_made.components in
          let several =
            calc_state-cartesian (sub_raw_subscript s c) _ _ made.connected_components
              (sym is_made.typed ∙ e) in
          absurd (omega (arith, single, several)),
    )
