-- ===== src/Tests/Sample.antt =====
-- Hash functions that satisfy what the development asks of dice-hash, and a small node storage:
-- a hypertrie of depth 2 with the entries (1, 2) -> 7 and (1, 3) -> 8.
use native.Mathlib.Decide.{ℕ_discrete as dec_eq}
use hypertrie.Common.{
  ℕ, zero, suc, ◌+◌, ◌*◌, ◌^◌, ◌<◌, ◌≡◌, inl, inr, refl, arith, ap, sym, ◌∙◌, [], ◌∷◌, true, false,
  some, none, if◌then◌else◌, ◌==◌, length, get_or, list_eq, subst,
}
use mathlib.Core.Bool.{false≢true}
use hypertrie.Common.Assoc.{find}
use hypertrie.Key.{RawKey}
use hypertrie.Key.Merge.{insert_at}
use hypertrie.Bits.{test_bit}
use hypertrie.Bits.Xor.{xor, xor_comm, xor_assoc, zero-xor, xor_self, clear_bit-xor}
use hypertrie.Trait.{
  Trait, SingleEntry, Hash, IsInvertible, taggable_key_part, bool_valued_and_taggable,
}
use hypertrie.Identifier.{is_empty, is_sen, is_fn, tag_pos, in_place}
use hypertrie.Node.{FullNode, SingleEntryNode, entry_value, child, edges}
use hypertrie.Storage.{
  NodeStorage, NodePtr, NodeContainer, lookup, lookup_full, lookup_single, container_of,
}
use hypertrie.Context.{resolve}
use hypertrie.Context.Rep.{absent, stored, Rep}

abbrev pub long_trait : Trait
long_trait = record { is_bool_valued = false; key_part_tagging_bit = none }

abbrev pub tagged_trait : Trait
tagged_trait = record { is_bool_valued = true; key_part_tagging_bit = some 63 }

abbrev pub sample_hash : Hash
sample_hash = record {
  entry_hash = λ e. 10 * get_or e.key 0 0 + 3 * get_or e.key 1 0 + e.value;
  invertible_combine = xor;
}

pub sample_hash-IsInvertible : IsInvertible sample_hash
sample_hash-IsInvertible = record {
  comm = xor_comm;
  assoc = xor_assoc;
  zero_left = zero-xor;
  self_inverse = xor_self;
  bitwise = clear_bit-xor;
}

abbrev pub entry : ℕ → ℕ → ℕ → SingleEntry
entry a b v = record { key = a ∷ b ∷ []; value = v }

abbrev single_at : ℕ → ℕ → SingleEntryNode
single_at a v = record { ref_count = 1; entry = record { key = a ∷ []; value = v } }

abbrev leaf_node : FullNode
leaf_node = record { ref_count = 1; stored_size = 0; edge_maps = ((2, 7) ∷ (3, 8) ∷ []) ∷ [] }

abbrev pub root_node : FullNode
root_node = record {
  ref_count = 1;
  stored_size = 2;
  edge_maps = ((1, 5) ∷ []) ∷ ((2, 2 ^ 63 + 6) ∷ (3, 2 ^ 63 + 7) ∷ []) ∷ [];
}

abbrev pub storage : NodeStorage
storage = record {
  full_nodes = λ depth. if depth == 1 then (5, leaf_node) ∷ [] else (9, root_node) ∷ [];
  single_entry_nodes = λ depth.
      if depth == 1 then (2 ^ 63 + 6, single_at 1 7) ∷ (2 ^ 63 + 7, single_at 1 8) ∷ [] else [];
}

abbrev pub root : NodeContainer
root = record { identifier = 9; node_ptr = NodePtr.full root_node }

-- What the storage is meant to hold.
abbrev pub contents : RawKey → ℕ
contents k = if list_eq (1 ∷ 2 ∷ []) k then 7 else if list_eq (1 ∷ 3 ∷ []) k then 8 else 0

child_at : ℕ → ℕ → NodeContainer
unfolding resolve lookup lookup_full lookup_single container_of is_empty is_sen is_fn tag_pos
    test_bit child edges find bool_valued_and_taggable taggable_key_part
child_at pos part = resolve long_trait sample_hash storage 2 root_node pos part

child-first : child_at 0 1 ≡ record { identifier = 5; node_ptr = NodePtr.full leaf_node }
unfolding child_at
child-first = refl

child-second :
    (child_at 1 2 ≡ record { identifier = 2 ^ 63 + 6; node_ptr = NodePtr.single (single_at 1 7) })
    × (child_at 1 3 ≡ record { identifier = 2 ^ 63 + 7; node_ptr = NodePtr.single (single_at 1 8) })
unfolding child_at
child-second = (refl, refl)

gone : (pos part : ℕ) → child root_node pos part ≡ 0 → (child_at pos part).identifier ≡ 0
unfolding child_at resolve is_empty bool_valued_and_taggable
gone pos part e = rw e

first_child : (part : ℕ) → child root_node 0 part ≡ (if 1 == part then 5 else 0)
unfolding child edges find
first_child part = ground arith

second_child :
    (part : ℕ)
    → child root_node 1 part
      ≡ (if 2 == part then 2 ^ 63 + 6 else if 3 == part then 2 ^ 63 + 7 else 0)
unfolding child edges find
second_child part = ground arith

-- The entries by their first and by their second key part.
by_first :
    (part : ℕ) (k : RawKey)
    → length k ≡ 1
    → contents (insert_at 0 part k) ≡ (
        if 1 == part
        then (if 2 == get_or k 0 0 then 7 else if 3 == get_or k 0 0 then 8 else 0)
        else 0)
by_first part [] l = ground (arith, l)
by_first part (a ∷ []) l = ground arith
by_first part (a ∷ (b ∷ k)) l = absurd (omega (arith, l))

by_second :
    (part : ℕ) (k : RawKey)
    → length k ≡ 1
    → contents (insert_at 1 part k) ≡ (
        if 2 == part
        then (if list_eq (1 ∷ []) k then 7 else 0)
        else if 3 == part
        then (if list_eq (1 ∷ []) k then 8 else 0)
        else 0)
by_second part [] l = ground (arith, l)
by_second part (a ∷ []) l = ground arith
by_second part (a ∷ (b ∷ k)) l = absurd (omega (arith, l))

leaf_reads :
    (k : RawKey) → length k ≡ 1 → contents (insert_at 0 1 k) ≡ child leaf_node 0 (get_or k 0 0)
unfolding child edges find
leaf_reads [] l = ground (arith, l)
leaf_reads (a ∷ []) l = ground arith
leaf_reads (a ∷ (b ∷ k)) l = absurd (omega (arith, l))

first-Rep :
    (part : ℕ)
    → Rep long_trait sample_hash storage 1 (child_at 0 part) (λ k. contents (insert_at 0 part k))
unfolding is_fn is_empty tag_pos test_bit
first-Rep part = elim (dec_eq 1 part) [
  | yes e ↦
      subst
        (λ p. Rep long_trait sample_hash storage 1 (child_at 0 p) (λ k. contents (insert_at 0 p k)))
        e
        (subst (λ c. Rep long_trait sample_hash storage 1 c (λ k. contents (insert_at 0 1 k)))
          (sym child-first)
          (inr (record { node = leaf_node; tagged = refl; pointer = refl; reads = leaf_reads })))
  | no n ↦ inl (
      absent (ap is_empty (gone 0 part (first_child part ∙ ground (arith, n))))
        (λ k l. by_first part k l ∙ ground (arith, n)))
]

second-Rep :
    (part : ℕ)
    → Rep long_trait sample_hash storage 1 (child_at 1 part) (λ k. contents (insert_at 1 part k))
unfolding is_sen is_empty tag_pos test_bit entry_value in_place bool_valued_and_taggable
    taggable_key_part
second-Rep part = elim (dec_eq 2 part) [
  | yes e ↦
      subst
        (λ p. Rep long_trait sample_hash storage 1 (child_at 1 p) (λ k. contents (insert_at 1 p k)))
        e
        (subst (λ c. Rep long_trait sample_hash storage 1 c (λ k. contents (insert_at 1 2 k)))
          (sym child-second.0)
          (inl (
            stored (single_at 1 7) refl refl refl refl (λ i q. absurd (false≢true q))
              (by_second 2))))
  | no n ↦ elim (dec_eq 3 part) [
    | yes e ↦
        subst
          (λ p.
            Rep long_trait sample_hash storage 1 (child_at 1 p) (λ k. contents (insert_at 1 p k)))
          e
          (subst (λ c. Rep long_trait sample_hash storage 1 c (λ k. contents (insert_at 1 3 k)))
            (sym child-second.1)
            (inl (
              stored (single_at 1 8) refl refl refl refl (λ i q. absurd (false≢true q))
                (by_second 3))))
    | no m ↦ inl (
        absent (ap is_empty (gone 1 part (second_child part ∙ ground (arith, n, m))))
          (λ k l. by_second part k l ∙ ground (arith, n, m)))
  ]
]

pub root-Rep : Rep long_trait sample_hash storage 2 root contents
unfolding child_at is_fn is_empty tag_pos test_bit
root-Rep = inr (root_node, record { tagged = refl; pointer = refl; width = refl }, children)
  where
    children :
        (pos part : ℕ)
        → pos < 2
        → Rep long_trait sample_hash storage 1
            (resolve long_trait sample_hash storage 2 root_node pos part)
            (λ k. contents (insert_at pos part k))
    children zero part lt = first-Rep part
    children (suc zero) part lt = second-Rep part
    children (suc (suc pos)) part lt = absurd (omega (arith, lt))
