-- ===== src/Subscript/Cached.antt =====
-- The caches of `Subscript` (libs/einsum/src/dice/einsum/Subscript.hpp): `removeLabel` and
-- `getLabelPossInOperands` keep what they compute, beside the fields of `Make`.
use hypertrie.Common.{
  Bool-cases, List, Option, [], ap, arith, inl, inr, length, none, refl, some, suc, sym, ℕ, ◌==◌,
  ◌>>=◌, ◌∙◌, ◌∷◌, ◌≡◌, ◌≤◌,
}
use hypertrie.Common.Assoc.{Assoc, emplace, find, find-emplace}
use hypertrie.Subscript.{
  Label, OperandSc, RawSubscript, get_label_poss_in_operands, next_operands, other_labels,
  push_non_empty, remove_label,
}
use hypertrie.Subscript.Kinds.{SubscriptType}
use hypertrie.Subscript.Make.{Subscript, make_subscript}
use hypertrie.Subscript.Make.Total.{make_subscript-IsMade}

-- The two branches of `removeLabel` on what is found.
unfoldable pub sub_or_make :
    RawSubscript → Label → Assoc Subscript → Option Subscript → Option (Subscript × Assoc Subscript)
unfolding make_subscript remove_label emplace
sub_or_make s label sub_subscripts (some sub) = some (sub, sub_subscripts)
sub_or_make s label sub_subscripts none =
    make_subscript (remove_label label s) SubscriptType.none >>= λ sub.
    some (sub, emplace label sub sub_subscripts)

-- The field `sub_subscripts` maps a removed label to the subscript without it.
unfoldable pub remove_label_cached :
    RawSubscript → Label → Assoc Subscript → Option (Subscript × Assoc Subscript)
unfolding find sub_or_make
remove_label_cached s label sub_subscripts =
    sub_or_make s label sub_subscripts (find label sub_subscripts)

-- The two branches on what is found.
unfoldable pub poss_or_compute :
    RawSubscript
    → Label
    → Assoc (List (List ℕ))
    → Option (List (List ℕ))
    → List (List ℕ) × Assoc (List (List ℕ))
unfolding get_label_poss_in_operands emplace
poss_or_compute s label cache (some poss) = (poss, cache)
poss_or_compute s label cache none =
    let poss = get_label_poss_in_operands s label in (poss, emplace label poss cache)

-- The field `label_poss_in_operands`.
unfoldable pub get_label_poss_in_operands_cached :
    RawSubscript → Label → Assoc (List (List ℕ)) → List (List ℕ) × Assoc (List (List ℕ))
unfolding find poss_or_compute
get_label_poss_in_operands_cached s label cache = poss_or_compute s label cache (find label cache)

-- What is cached for a label is what would be computed for it.
abbrev pub IsSubCache : RawSubscript → Assoc Subscript → Type 0
IsSubCache s cache =
    (label : Label) (sub : Subscript)
    → find label cache ≡ some sub
    → make_subscript (remove_label label s) SubscriptType.none ≡ some sub

abbrev pub IsPossCache : RawSubscript → Assoc (List (List ℕ)) → Type 0
IsPossCache s cache =
    (label : Label) (poss : List (List ℕ))
    → find label cache ≡ some poss
    → get_label_poss_in_operands s label ≡ poss

length-push_non_empty :
    (operand : OperandSc) (operands : List OperandSc)
    → length (push_non_empty operand operands) ≤ suc (length operands)
length-push_non_empty [] operands = omega arith
length-push_non_empty (l ∷ ls) operands = omega arith

length-next_operands :
    (label : Label) (operands : List OperandSc)
    → length (next_operands label operands) ≤ length operands
unfolding next_operands
length-next_operands label [] = omega arith
length-next_operands label (operand ∷ operands) = omega (
  arith,
  length-next_operands label operands,
  length-push_non_empty (other_labels label operand) (next_operands label operands),
)

pub length-remove_label_operands :
    (label : Label) (s : RawSubscript) → length (remove_label label s).operands ≤ length s.operands
unfolding remove_label
length-remove_label_operands label s = length-next_operands label s.operands

pub result-remove_label :
    (label : Label) (s : RawSubscript) → (remove_label label s).result ≡ s.result
unfolding remove_label
result-remove_label label s = refl

-- The subscript without the label is returned, and cached.
abbrev pub Returned : RawSubscript → Label → Option (Subscript × Assoc Subscript) → Type 0
Returned s label o =
    (sub : Subscript) × (cache' : Assoc Subscript) × (o ≡ some (sub, cache'))
    × (make_subscript (remove_label label s) SubscriptType.none ≡ some sub)
    × IsSubCache s cache'
    × (find label cache' ≡ some sub)

emplace-IsSubCache :
    (s : RawSubscript) (label : Label) (cache : Assoc Subscript) (sub : Subscript)
    → find label cache ≡ none
    → make_subscript (remove_label label s) SubscriptType.none ≡ some sub
    → IsSubCache s cache
    → IsSubCache s (emplace label sub cache)
emplace-IsSubCache s label cache sub e made is k v h =
    let stored = find-emplace k label sub cache in
    elim (Bool-cases (label == k)) [
      | inl same ↦
          let at_k : k ≡ label = ground (arith, same) in
          let value : sub ≡ v = ground (arith, stored, h, same, e, at_k) in
          rw at_k (made ∙ ap some value)
      | inr other ↦ is k v (ground (arith, stored, h, other))
    ]

sub_or_make-Returned :
    (s : RawSubscript) (label : Label) (cache : Assoc Subscript) (o : Option Subscript)
    → length s.operands ≤ 256
    → length s.result ≤ 256
    → find label cache ≡ o
    → IsSubCache s cache
    → Returned s label (sub_or_make s label cache o)
unfolding sub_or_make
sub_or_make-Returned s label cache (some sub) fits fits_result e is =
    (sub, cache, refl, is label sub e, is, e)
sub_or_make-Returned s label cache none fits fits_result e is =
    let (sub, made, _) =
      make_subscript-IsMade (remove_label label s) SubscriptType.none
        (omega (arith, fits, length-remove_label_operands label s))
        (rw (result-remove_label label s) fits_result) in
    let stored = find-emplace label label sub cache in
    (
      sub,
      emplace label sub cache,
      ap (λ o. o >>= λ made_sub. some (made_sub, emplace label made_sub cache)) made,
      made,
      emplace-IsSubCache s label cache sub e made is,
      ground (arith, stored, e),
    )

-- With at most 256 operands and result labels, and a cache whose entries are the subscripts
-- without their label: `removeLabel` returns the subscript without the label, which stands in the
-- new cache, and all entries of that are right again.
pub remove_label_cached-IsSubCache :
    (s : RawSubscript) (label : Label) (cache : Assoc Subscript)
    → length s.operands ≤ 256
    → length s.result ≤ 256
    → IsSubCache s cache
    → Returned s label (remove_label_cached s label cache)
unfolding remove_label_cached
remove_label_cached-IsSubCache s label cache fits fits_result is =
    sub_or_make-Returned s label cache (find label cache) fits fits_result refl is

poss_or_compute-IsPossCache :
    (s : RawSubscript) (label : Label) (cache : Assoc (List (List ℕ))) (o : Option (List (List ℕ)))
    → find label cache ≡ o
    → IsPossCache s cache
    → ((poss_or_compute s label cache o).0 ≡ get_label_poss_in_operands s label)
      × IsPossCache s (poss_or_compute s label cache o).1
unfolding poss_or_compute
poss_or_compute-IsPossCache s label cache (some poss) e is = (sym (is label poss e), is)
poss_or_compute-IsPossCache s label cache none e is = (
  refl,
  λ k v h.
      let poss = get_label_poss_in_operands s label in
      let stored = find-emplace k label poss cache in
      elim (Bool-cases (label == k)) [
        | inl same ↦
            let at_k : k ≡ label = ground (arith, same) in
            let value : poss ≡ v = ground (arith, stored, h, same, e, at_k) in rw at_k value
        | inr other ↦ is k v (ground (arith, stored, h, other))
      ],
)

-- With a cache whose entries are the positions of their label: `getLabelPossInOperands` returns
-- the positions of the label, and the entries of the new cache are right again.
pub get_label_poss_in_operands_cached-IsPossCache :
    (s : RawSubscript) (label : Label) (cache : Assoc (List (List ℕ)))
    → IsPossCache s cache
    → ((get_label_poss_in_operands_cached s label cache).0 ≡ get_label_poss_in_operands s label)
      × IsPossCache s (get_label_poss_in_operands_cached s label cache).1
unfolding get_label_poss_in_operands_cached
get_label_poss_in_operands_cached-IsPossCache s label cache is =
    poss_or_compute-IsPossCache s label cache (find label cache) refl is
