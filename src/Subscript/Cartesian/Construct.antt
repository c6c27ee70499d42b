-- ===== src/Subscript/Cartesian/Construct.antt =====
-- The whole constructor returns, with the factors of a Cartesian product.
use hypertrie.Common.{
  List, Option, [], ap, arith, false, get_or, inl, inr, length, map, none, refl, some, suc, sym,
  true, zero, ℕ, ◌<◌, ◌>>=◌, ◌∙◌, ◌∷◌, ◌≡◌, ◌≢◌, ◌≤◌, ◌⊎◌,
}
use hypertrie.Subscript.{Label, RawSubscript}
use hypertrie.Subscript.Cartesian.{
  CartesianSubSubscripts, cartesian_sub_subscripts, construct_subscript, extract_operands,
  extract_result, extract_sub_subscripts, sub_raw_subscript, with_sub_subscripts,
}
use hypertrie.Subscript.Cartesian.Single.{sub_raw_subscript-IsMade}
use hypertrie.Subscript.Kinds.{SubscriptType}
use hypertrie.Subscript.Make.{Subscript, chosen_type, make_subscript, result_mappings, subscript_of}
use hypertrie.Subscript.Make.Graphs.{get_connected_components-AreComponents}
use hypertrie.Subscript.Make.Total.{IsMade, make_subscript-IsMade}

with_sub_subscripts-other :
    (type : SubscriptType) (made : Subscript) (c : Option CartesianSubSubscripts)
    → (type ≢ SubscriptType.cartesian)
    → with_sub_subscripts type made c ≡ some (made, none)
unfolding with_sub_subscripts
with_sub_subscripts-other SubscriptType.none made c other = refl
with_sub_subscripts-other SubscriptType.join made c other = refl
with_sub_subscripts-other SubscriptType.cartesian made c other = absurd (other refl)
with_sub_subscripts-other SubscriptType.resolve made c other = refl
with_sub_subscripts-other SubscriptType.count made c other = refl
with_sub_subscripts-other SubscriptType.entry_generator made c other = refl
with_sub_subscripts-other SubscriptType.carthesian_mapping made c other = refl

-- A call of the constructor from itself.
abbrev make : ℕ → RawSubscript → SubscriptType → Option Subscript
make fuel s type = construct_subscript fuel s type >>= λ r. some r.0

make-other :
    (fuel : ℕ) (s : RawSubscript) (type : SubscriptType) (made : Subscript)
    → make_subscript s type ≡ some made
    → (made.type ≢ SubscriptType.cartesian)
    → make (suc fuel) s type ≡ some made
unfolding construct_subscript
make-other fuel s type made ends other =
    rw
      (
        ends,
        with_sub_subscripts-other made.type made (cartesian_sub_subscripts (make fuel) made) other,
      )
      refl

-- A subscript for each component, and none of them is a product again.
abbrev pub AreFactors : RawSubscript → List (List Label) → List Subscript → Type 0
AreFactors s [] [] = Unit
AreFactors s [] (sub ∷ subs) = false ≡ true
AreFactors s (c ∷ cs) [] = false ≡ true
AreFactors s (c ∷ cs) (sub ∷ subs) =
    IsMade (sub_raw_subscript s c) SubscriptType.none sub
    × (sub.type ≢ SubscriptType.cartesian)
    × AreFactors s cs subs

abbrev Factor : RawSubscript → List Label → Type 0
Factor s c =
    (made : Subscript) × (make_subscript (sub_raw_subscript s c) SubscriptType.none ≡ some made)
    × IsMade (sub_raw_subscript s c) SubscriptType.none made
    × (made.type ≢ SubscriptType.cartesian)

extract_sub_subscripts-AreFactors :
    (fuel : ℕ) (s : RawSubscript) (cs : List (List Label))
    → ((i : ℕ) → i < length cs → Factor s (get_or cs i []))
    → (subs : List Subscript) × (extract_sub_subscripts (make (suc fuel)) s cs ≡ some subs)
      × AreFactors s cs subs
unfolding extract_sub_subscripts
extract_sub_subscripts-AreFactors fuel s [] factor = ([], refl, tt)
extract_sub_subscripts-AreFactors fuel s (c ∷ cs) factor =
    let (sub, ends, is_made, other) = factor 0 (omega arith) in
    let (subs, rest_ends, rest) =
      extract_sub_subscripts-AreFactors fuel s cs (λ i lt. factor (suc i) (omega (arith, lt))) in
    (
      sub ∷ subs,
      (rw (make-other fuel (sub_raw_subscript s c) SubscriptType.none sub ends other, rest_ends)
          refl),
      (is_made, other, rest),
    )

-- The combination of the factors is made for any number of them.
make_mapping :
    (s : RawSubscript)
    → (made : Subscript) × (make_subscript s SubscriptType.carthesian_mapping ≡ some made)
      × (made.raw_subscript ≡ s)
      × (made.type ≡ SubscriptType.carthesian_mapping)
unfolding make_subscript chosen_type result_mappings subscript_of
make_mapping s =
    let (components, found, are) = get_connected_components-AreComponents s in
    (subscript_of s SubscriptType.carthesian_mapping components ([], []), rw found refl, refl, refl)

-- What is kept with a subscript of type `Cartesian`: the factors of its components in order, and
-- their combination, which has their results for operands.
pub record AreSubSubscripts (s : RawSubscript) (made : Subscript) (c : CartesianSubSubscripts)
    : Type 0 where
  pub factors : AreFactors s made.connected_components c.sub_subscripts
  pub combines : c.subscript.raw_subscript ≡ record {
    operands = map (λ (sub : Subscript). sub.raw_subscript.result) c.sub_subscripts;
    result = s.result;
  }
  pub combination : c.subscript.type ≡ SubscriptType.carthesian_mapping

cartesian_sub_subscripts-return :
    (fuel : ℕ) (s : RawSubscript) (type : SubscriptType) (made : Subscript)
    → IsMade s type made
    → length s.operands ≤ 256
    → length s.result ≤ 256
    → (c : CartesianSubSubscripts) × (cartesian_sub_subscripts (make (suc fuel)) made ≡ some c)
      × AreSubSubscripts s made c
unfolding cartesian_sub_subscripts
cartesian_sub_subscripts-return fuel s type made is_made fits fits_result =
    let (subs, ends, factors) =
      extract_sub_subscripts-AreFactors fuel s made.connected_components (λ i lt.
        sub_raw_subscript-IsMade s made.connected_components i is_made.components fits
          fits_result) in
    let raw : RawSubscript = record {
      operands = map (λ (sub : Subscript). sub.raw_subscript.result) subs;
      result = s.result;
    } in
    let (mapping, mapped, same, combination) = make_mapping raw in
    let product : mapping.type ≢ SubscriptType.cartesian =
      λ e. absurd (let clash = sym combination ∙ e in cc clash) in
    let called = make-other fuel raw SubscriptType.carthesian_mapping mapping mapped product in
    let combined : RawSubscript → List Subscript → Subscript → CartesianSubSubscripts =
      λ r sub_subscripts subscript. record {
        sub_subscripts = sub_subscripts;
        original_operand_poss_of_sub_subscript =
            map (λ c. (extract_operands 0 r.operands c).original_poss) made.connected_components;
        original_result_poss_of_sub_subscript =
            map (λ c. (extract_result 0 r.result c).original_poss) made.connected_components;
        subscript = subscript;
      } in
    let body : RawSubscript → Option CartesianSubSubscripts = λ r.
      extract_sub_subscripts (make (suc fuel)) r made.connected_components >>= λ found.
      make (suc fuel)
        (record {
          operands = map (λ (sub : Subscript). sub.raw_subscript.result) found;
          result = r.result;
        })
        SubscriptType.carthesian_mapping
      >>= λ subscript. some (combined r found subscript) in
    (
      combined s subs mapping,
      ap body is_made.raw ∙ (rw (ends, called) refl),
      record { factors = factors; combines = same; combination = combination },
    )

cartesian_or_not :
    (type : SubscriptType) → (type ≡ SubscriptType.cartesian) ⊎ (type ≢ SubscriptType.cartesian)
cartesian_or_not SubscriptType.none = inr (λ e. absurd (cc e))
cartesian_or_not SubscriptType.join = inr (λ e. absurd (cc e))
cartesian_or_not SubscriptType.cartesian = inl refl
cartesian_or_not SubscriptType.resolve = inr (λ e. absurd (cc e))
cartesian_or_not SubscriptType.count = inr (λ e. absurd (cc e))
cartesian_or_not SubscriptType.entry_generator = inr (λ e. absurd (cc e))
cartesian_or_not SubscriptType.carthesian_mapping = inr (λ e. absurd (cc e))

-- What the constructor keeps beside the subscript.
abbrev pub Keeps : RawSubscript → Subscript → Option CartesianSubSubscripts → Type 0
Keeps s made kept =
    ((c : CartesianSubSubscripts) × (made.type ≡ SubscriptType.cartesian)
      × (kept ≡ some c)
      × AreSubSubscripts s made c)
    ⊎ ((made.type ≢ SubscriptType.cartesian) × (kept ≡ none))

-- With at most 256 operands and 256 result labels, for every type asked for, and fuel for two
-- calls inside one another or more: the constructor returns a subscript that holds the raw one,
-- its set of labels and its components. Lonely are the labels that stand once in all the operands
-- and not in the result; the positions used are those of result labels that an operand has, and
-- all results are done where there is none; where the type is `Resolve`, the mapping leads each
-- label of the operand to a position of the result where it stands; and the type is the one
-- calculated unless `CarthesianMapping` was asked for. Where it is `Cartesian`, the factors are
-- kept, each the subscript that the constructor makes of what is extracted for a component and
-- none of them of type `Cartesian`, with a subscript that has their results for operands and the
-- type `CarthesianMapping`; elsewhere nothing is kept.
pub construct_subscript-IsMade :
    (fuel : ℕ) (s : RawSubscript) (type : SubscriptType)
    → 1 < fuel
    → length s.operands ≤ 256
    → length s.result ≤ 256
    → (made : Subscript) × (kept : Option CartesianSubSubscripts) × (construct_subscript fuel s type
        ≡ some (made, kept))
      × IsMade s type made
      × Keeps s made kept
unfolding construct_subscript with_sub_subscripts
construct_subscript-IsMade zero s type enough fits fits_result = absurd (omega (arith, enough))
construct_subscript-IsMade (suc zero) s type enough fits fits_result =
    absurd (omega (arith, enough))
construct_subscript-IsMade (suc (suc fuel)) s type enough fits fits_result =
    let (made, ends, is_made) = make_subscript-IsMade s type fits fits_result in
    elim (cartesian_or_not made.type) [
      | inl e ↦
          let (c, returns, are) =
            cartesian_sub_subscripts-return fuel s type made is_made fits fits_result in
          (
            made,
            some c,
            (rw ends (
                ap
                  (λ t.
                    with_sub_subscripts t made (cartesian_sub_subscripts (make (suc fuel)) made))
                  e
                ∙ rw returns refl)),
            is_made,
            inl (c, e, refl, are),
          )
      | inr other ↦ (
        made,
        none,
        (rw ends (
            with_sub_subscripts-other made.type made
              (cartesian_sub_subscripts (make (suc fuel)) made) other)),
        is_made,
        inr (other, refl),
      )
    ]
