-- ===== src/Tests/Subscripts.antt =====
-- Subscripts at concrete inputs: `ab,bc,d->ad`, which is a Cartesian product of `ab,bc->a` and `d->d`.
use hypertrie.Common.{
  List, Option, [], arith, contains, get_or, length, none, not, refl, some, subst, suc, sym, ℕ,
  ◌&&◌, ◌==◌, ◌∙◌, ◌∷◌, ◌≡◌,
}
use hypertrie.Common.Assoc.{find}
use hypertrie.Common.Sets.{count_all}
use hypertrie.Subscript.{
  RawSubscript, get_label_poss_in_operands, get_operands_label_set, remove_label,
}
use hypertrie.Subscript.Cached.{
  IsPossCache, Returned, get_label_poss_in_operands_cached,
  get_label_poss_in_operands_cached-IsPossCache, remove_label_cached,
  remove_label_cached-IsSubCache,
}
use hypertrie.Subscript.Cartesian.{CartesianSubSubscripts, construct_subscript}
use hypertrie.Subscript.Cartesian.Construct.{Keeps, construct_subscript-IsMade}
use hypertrie.Subscript.Cartesian.Partition.{
  operand_poss-once, operand_poss_of, result_poss-once, result_poss_of,
}
use hypertrie.Subscript.Cartesian.Parts.{IsWhole}
use hypertrie.Subscript.Graph.{get_connected_components}
use hypertrie.Subscript.Kinds.{SubscriptType}
use hypertrie.Subscript.Labels.{contains-remove_label, length-remove_label}
use hypertrie.Subscript.Make.{Subscript, calc_dependency_graph}
use hypertrie.Subscript.Make.Graphs.{AreComponents, get_connected_components-AreComponents}
use hypertrie.Subscript.Make.Total.{IsMade}
use hypertrie.Subscript.Text.{from_string, to_string}
use hypertrie.Subscript.Text.RoundTrip.{from_string-to_string}

abbrev sample : RawSubscript
sample = record {
  operands = (97 ∷ 98 ∷ []) ∷ (98 ∷ 99 ∷ []) ∷ (100 ∷ []) ∷ [];
  result = 97 ∷ 100 ∷ [];
}

-- `bb->b` and the text of `x,yx->y`
abbrev single : RawSubscript
single = record { operands = (98 ∷ 98 ∷ []) ∷ []; result = 98 ∷ [] }

abbrev swapped : RawSubscript
swapped = record { operands = (120 ∷ []) ∷ (121 ∷ 120 ∷ []) ∷ []; result = 121 ∷ [] }

abbrev factors : List (List ℕ)
factors = (100 ∷ []) ∷ (97 ∷ 98 ∷ 99 ∷ []) ∷ []

components-sample : get_connected_components (calc_dependency_graph sample) ≡ some factors
unfolding get_connected_components calc_dependency_graph
components-sample = refl

some-injective {ℓ} : {A : Type ℓ} (a b : A) → some a ≡ some b → a ≡ b
some-injective a b e = ground (arith, e)

factors-AreComponents : AreComponents sample factors
factors-AreComponents =
    let (cs, ends, are) = get_connected_components-AreComponents sample in
    subst (AreComponents sample) (some-injective cs factors (sym ends ∙ components-sample)) are

get_connected_components-AreComponents_example :
    (cs : List (List ℕ)) × (get_connected_components (calc_dependency_graph sample) ≡ some cs)
    × AreComponents sample cs
get_connected_components-AreComponents_example = get_connected_components-AreComponents sample

construct_subscript-IsMade_example :
    (made : Subscript) × (kept : Option CartesianSubSubscripts) × (construct_subscript 2 sample
        SubscriptType.none
      ≡ some (made, kept))
    × IsMade sample SubscriptType.none made
    × Keeps sample made kept
construct_subscript-IsMade_example =
    construct_subscript-IsMade 2 sample SubscriptType.none (omega arith) (omega arith) (omega arith)

-- With one call less the factors are not made: the sample is a product.
construct_subscript-short : construct_subscript 1 sample SubscriptType.none ≡ none
unfolding construct_subscript get_connected_components
construct_subscript-short = refl

operand_poss-once_example :
    (count_all 1 (operand_poss_of sample factors) ≡ 1)
    × ((i : ℕ) → IsWhole (get_or factors i []) (98 ∷ 99 ∷ []))
operand_poss-once_example =
    operand_poss-once sample factors 1 factors-AreComponents (omega arith) (omega arith)

result_poss-once_example : count_all 1 (result_poss_of sample factors) ≡ 1
result_poss-once_example =
    result_poss-once sample factors 1 factors-AreComponents (omega arith) (omega arith)

contains-remove_label_example :
    contains (get_operands_label_set (remove_label 98 sample)) 99
    ≡ (not (98 == 99) && contains (get_operands_label_set sample) 99)
contains-remove_label_example = contains-remove_label 98 sample 99

length-remove_label_example :
    suc (length (get_operands_label_set (remove_label 98 sample)))
    ≡ length (get_operands_label_set sample)
length-remove_label_example = length-remove_label 98 sample (unfold get_operands_label_set in refl)

remove_label_cached-IsSubCache_example : Returned sample 98 (remove_label_cached sample 98 [])
remove_label_cached-IsSubCache_example =
    remove_label_cached-IsSubCache sample 98 [] (omega arith) (omega arith)
      λ l v h. absurd (unfold find in cc h)

get_label_poss_in_operands_cached-IsPossCache_example :
    ((get_label_poss_in_operands_cached sample 98 []).0 ≡ get_label_poss_in_operands sample 98)
    × IsPossCache sample (get_label_poss_in_operands_cached sample 98 []).1
get_label_poss_in_operands_cached-IsPossCache_example =
    get_label_poss_in_operands_cached-IsPossCache sample 98 [] λ l v h. absurd (unfold find in cc h)

text-sample : to_string swapped ≡ 120 ∷ 44 ∷ 121 ∷ 120 ∷ 45 ∷ 62 ∷ 121 ∷ []
unfolding to_string
text-sample = refl

from_string-to_string_example :
    from_string (to_string swapped)
    ≡ some (record { operands = (97 ∷ []) ∷ (98 ∷ 97 ∷ []) ∷ []; result = 98 ∷ [] })
from_string-to_string_example =
    from_string-to_string swapped refl (λ c m. ground (arith, m)) λ c m. ground (arith, m)
