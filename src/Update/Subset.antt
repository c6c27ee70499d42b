-- ===== src/Update/Subset.antt =====
-- What `entry_subset_for_pos` groups.
use hypertrie.Common.{
  ℕ, ◌≡◌, refl, sym, ap, ◌∙◌, List, [], ◌∷◌, ◌++◌, if◌then◌else◌, ◌==◌, ==_iff, get_or, filter, map,
  Bool-cases, inl, inr,
}
use mathlib.Core.List.{append-nil, append_assoc}
use hypertrie.Common.Assoc.{Assoc, find, at_or, at_or-insert_or_assign}
use hypertrie.Key.{subkey}
use hypertrie.Trait.{SingleEntry}
use hypertrie.Update.{emplace_entry, entry_subset_from, entry_subset_for_pos}

-- An entry without the key part at a position.
abbrev pub below : ℕ → SingleEntry → SingleEntry
below key_pos e = record e { key = subkey e.key key_pos }

-- The entries with a key part at a position, without it, in order.
abbrev pub entries_at : ℕ → ℕ → List SingleEntry → List SingleEntry
entries_at key_pos part es =
    map (below key_pos) (filter (λ (e : SingleEntry). get_or e.key key_pos 0 == part) es)

emplaced :
    (key_pos part : ℕ) (e : SingleEntry) (ret : Assoc (List SingleEntry))
    → at_or part [] (emplace_entry key_pos e ret) ≡ (
        if get_or e.key key_pos 0 == part
        then at_or part [] ret ++ (below key_pos e ∷ [])
        else at_or part [] ret)
unfolding emplace_entry
emplaced key_pos part e ret =
    at_or-insert_or_assign part (get_or e.key key_pos 0) _ [] ret
    ∙ elim (Bool-cases (get_or e.key key_pos 0 == part)) [
      | inl here ↦ rw here (
          ap (λ z. at_or z [] ret ++ (below key_pos e ∷ []))
            ((==_iff (get_or e.key key_pos 0) part).0 here))
      | inr other ↦ rw other
    ]

subset_from :
    (key_pos part : ℕ) (es : List SingleEntry) (ret : Assoc (List SingleEntry))
    → at_or part [] (entry_subset_from key_pos es ret)
      ≡ at_or part [] ret ++ entries_at key_pos part es
unfolding entry_subset_from
subset_from key_pos part [] ret = sym (append-nil _)
subset_from key_pos part (e ∷ es) ret = elim (Bool-cases (get_or e.key key_pos 0 == part)) [
  | inl here ↦ rw here (
      subset_from key_pos part es (emplace_entry key_pos e ret)
      ∙ ap (λ z. z ++ entries_at key_pos part es) (emplaced key_pos part e ret ∙ rw here refl)
      ∙ append_assoc (at_or part [] ret) (below key_pos e ∷ []) (entries_at key_pos part es))
  | inr other ↦ rw other (
      subset_from key_pos part es (emplace_entry key_pos e ret)
      ∙ ap (λ z. z ++ entries_at key_pos part es) (emplaced key_pos part e ret ∙ rw other refl))
]

-- `entry_subset_for_pos` has under each key part the entries with that key part at the position,
-- in the order of the entries and without the key part; nothing where there are none.
pub at_or-entry_subset_for_pos :
    (es : List SingleEntry) (key_pos part : ℕ)
    → at_or part [] (entry_subset_for_pos es key_pos) ≡ entries_at key_pos part es
unfolding entry_subset_for_pos at_or find
at_or-entry_subset_for_pos es key_pos part = subset_from key_pos part es []
