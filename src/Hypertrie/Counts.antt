-- ===== src/Hypertrie/Counts.antt =====
-- The reference count of the node of a hypertrie that is copied and destroyed.
use hypertrie.Common.{
  ==_refl, Bool-cases, Option-cases, ap, arith, inl, inr, ltb, none, refl, some, some-ne-none, sym,
  true, ℕ, ◌%◌, ◌+◌, ◌-◌, ◌<◌, ◌^◌, ◌∙◌, ◌≡◌,
}
use hypertrie.Common.Assoc.{find, find-insert_or_assign, insert_or_assign}
use hypertrie.Hypertrie.{Hypertrie, copy_hypertrie, counts_node, destroy_hypertrie}
use hypertrie.Identifier.{is_sen}
use hypertrie.Node.{FullNode, SingleEntryNode}
use hypertrie.Storage.{NodeContainer, NodeStorage}
use hypertrie.Trait.{Hash, Trait}
use hypertrie.Update.Apply.{with_full_nodes, with_single_entry_nodes}
use hypertrie.Update.Set.{decr_ref_count, inc_ref_count, recount, ref_count_of}

module _ (t : Trait) (h : Hash) (d : ℕ) where
  ref_count_of-recount :
      (change : ℕ → ℕ) (c : NodeContainer) (s : NodeStorage) (n : ℕ)
      → ref_count_of t h d c s ≡ some n
      → (s' : NodeStorage) × (recount t h d change c s ≡ some s')
        × (ref_count_of t h d c s' ≡ some (change n))
  unfolding ref_count_of recount with_full_nodes with_single_entry_nodes
  ref_count_of-recount change c s n e = elim (Bool-cases (is_sen t c.identifier)) [
    | inl q ↦ elim (Option-cases (find c.identifier (s.single_entry_nodes d))) [
      | inl missing ↦
          let run : ref_count_of t h d c s ≡ none = rw (q, missing) in
          absurd (some-ne-none (sym e ∙ run))
      | inr (m, there) ↦
          let run : ref_count_of t h d c s ≡ some m.ref_count = rw (q, there) in
          let same : n ≡ m.ref_count = cc (e, run) in
          let m' : SingleEntryNode = record m { ref_count = change m.ref_count } in
          let found = find-insert_or_assign c.identifier c.identifier m' (s.single_entry_nodes d) in
          (
            with_single_entry_nodes d (insert_or_assign c.identifier m' (s.single_entry_nodes d)) s,
            rw (q, there) refl,
            rw (q, ==_refl d, found, ==_refl c.identifier, same) refl,
          )
    ]
    | inr q ↦ elim (Option-cases (find c.identifier (s.full_nodes d))) [
      | inl missing ↦
          let run : ref_count_of t h d c s ≡ none = rw (q, missing) in
          absurd (some-ne-none (sym e ∙ run))
      | inr (m, there) ↦
          let run : ref_count_of t h d c s ≡ some m.ref_count = rw (q, there) in
          let same : n ≡ m.ref_count = cc (e, run) in
          let m' : FullNode = record m { ref_count = change m.ref_count } in
          let found = find-insert_or_assign c.identifier c.identifier m' (s.full_nodes d) in
          (
            with_full_nodes d (insert_or_assign c.identifier m' (s.full_nodes d)) s,
            rw (q, there) refl,
            rw (q, ==_refl d, found, ==_refl c.identifier, same) refl,
          )
    ]
  ]

-- For a hypertrie whose node is counted, with a count from 1 on that leaves room in a word: the
-- copy constructor succeeds and counts one more, and the destructor of the copy succeeds, too, and
-- leaves the count that there was.
pub destroy-copy_hypertrie :
    (t : Trait) (h : Hash) (s : NodeStorage) (x : Hypertrie) (n : ℕ)
    → counts_node t h x ≡ true
    → ref_count_of t h x.depth x.node_container s ≡ some n
    → 0 < n
    → n + 1 < 2 ^ 64
    → (s₁ s₂ : NodeStorage) × (copy_hypertrie t h (s, x) ≡ some (s₁, x))
      × (ref_count_of t h x.depth x.node_container s₁ ≡ some (n + 1))
      × (destroy_hypertrie t h (s₁, x) ≡ some s₂)
      × (ref_count_of t h x.depth x.node_container s₂ ≡ some n)
unfolding copy_hypertrie destroy_hypertrie inc_ref_count decr_ref_count
destroy-copy_hypertrie t h s x n counted e positive room =
    let c = x.node_container in
    let (s₁, inc, more) = ref_count_of-recount t h x.depth (λ k. (k + 1) % 2 ^ 64) c s n e in
    let fits : (n + 1) % 2 ^ 64 ≡ n + 1 = omega (arith, room) in
    let more₁ : ref_count_of t h x.depth c s₁ ≡ some (n + 1) = more ∙ ap some fits in
    let (s₂, dec, less) = ref_count_of-recount t h x.depth (λ k. k - 1) c s₁ (n + 1) more₁ in
    let many : ltb 1 (n + 1) ≡ true = ground (arith, positive) in
    let back : n + 1 - 1 ≡ n = omega arith in
    (
      s₁,
      s₂,
      rw (counted, inc) refl,
      more₁,
      rw (counted, more₁, many, dec) refl,
      less ∙ ap some back,
    )
