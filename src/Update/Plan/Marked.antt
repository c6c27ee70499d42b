-- ===== src/Update/Plan/Marked.antt =====
-- Which nodes the loop over the deletion candidates deletes.
use hypertrie.Common.{
  ℕ, ◌≡◌, refl, arith, subst, List, [], ◌∷◌, Bool, true, false, not, ◌&&◌, ◌||◌, Option, none, some,
  if◌then◌else◌, ◌==◌, ==_iff, contains, Bool-cases, Option-cases, inl, inr,
}
use hypertrie.Common.Assoc.{Assoc, find, erase, find-erase}
use hypertrie.Common.Int.{ℤ, pos, ◌+ℤ◌, is_zero}
use hypertrie.Node.{FullNode}
use hypertrie.Update.Plan.{Deletions, delete_candidate, delete_candidates}
use hypertrie.Common.Sets.{IsDistinct, count, count-set_insert, set_insert}

-- The change to the count of references is not zero and takes the count to zero.
abbrev pub dies_with : Option FullNode → Option ℤ → Bool
dies_with _ none = false
dies_with none (some delta) = false
dies_with (some n) (some delta) = not (is_zero delta) && is_zero (pos n.ref_count +ℤ delta)

abbrev pub dies : Assoc FullNode → Assoc ℤ → ℕ → Bool
dies fns deltas id = dies_with (find id fns) (find id deltas)

-- What the loop's run over `ids` does to the deleted nodes.
abbrev pub Marks : Assoc FullNode → List ℕ → Deletions → Deletions → Type 0
Marks fns ids d d' =
    (a : ℕ)
    → count a d'.fn_delete
      ≡ (if contains ids a && dies fns d.fn_deltas a then 1 else count a d.fn_delete)

-- One step: the nodes marked, and the changes that are left.
record Step (fns : Assoc FullNode) (x : ℕ) (d d' : Deletions) : Type 0 where
  run : delete_candidate fns x d ≡ some d'
  marks :
      (a : ℕ)
      → count a d'.fn_delete ≡ (if x == a && dies fns d.fn_deltas a then 1 else count a d.fn_delete)
  left : (a : ℕ) → dies fns d'.fn_deltas a ≡ (if x == a then false else dies fns d.fn_deltas a)

dies-erase :
    (fns : Assoc FullNode) (deltas : Assoc ℤ) (x a : ℕ)
    → dies fns (erase x deltas) a ≡ (if x == a then false else dies fns deltas a)
dies-erase fns deltas x a = elim (Bool-cases (x == a)) [
  | inl e ↦ rw (dies, find-erase a x deltas, e)
  | inr e ↦ rw (dies, find-erase a x deltas, e)
]

-- Where the candidate itself does not die, nothing is marked.
unmarked :
    (fns : Assoc FullNode) (deltas : Assoc ℤ) (x a c : ℕ)
    → dies fns deltas x ≡ false
    → c ≡ (if x == a && dies fns deltas a then 1 else c)
unmarked fns deltas x a c e = elim (Bool-cases (x == a)) [
  | inl same ↦
      let dead : dies fns deltas a ≡ false =
        subst (λ z. dies fns deltas z ≡ false) ((==_iff x a).0 same) e in
      rw (same, dead)
  | inr other ↦ rw other
]

unchanged :
    (fns : Assoc FullNode) (deltas : Assoc ℤ) (x a : ℕ)
    → dies fns deltas x ≡ false
    → dies fns deltas a ≡ (if x == a then false else dies fns deltas a)
unchanged fns deltas x a e = elim (Bool-cases (x == a)) [
  | inl same ↦ rw same (subst (λ z. dies fns deltas z ≡ false) ((==_iff x a).0 same) e)
  | inr other ↦ rw other
]

marked :
    (fns : Assoc FullNode) (deltas : Assoc ℤ) (x a : ℕ) (ids : List ℕ)
    → IsDistinct ids
    → dies fns deltas x ≡ true
    → count a (set_insert x ids) ≡ (if x == a && dies fns deltas a then 1 else count a ids)
marked fns deltas x a ids distinct e = elim (Bool-cases (x == a)) [
  | inl same ↦
      let dead : dies fns deltas a ≡ true =
        subst (λ z. dies fns deltas z ≡ true) ((==_iff x a).0 same) e in
      rw (same, dead) (ground (arith, count-set_insert a x ids, distinct a))
  | inr other ↦ rw other (ground (arith, count-set_insert a x ids))
]

delete_candidate_lem :
    (fns : Assoc FullNode) (x : ℕ) (n : FullNode) (d : Deletions)
    → find x fns ≡ some n
    → IsDistinct d.fn_delete
    → (d' : Deletions) × Step fns x d d'
unfolding delete_candidate
delete_candidate_lem fns x n d stored distinct = elim (Option-cases (find x d.fn_deltas)) [
  | inl missing ↦
      let alive : dies fns d.fn_deltas x ≡ false = rw (dies, missing, dies_with) in
      (
        d,
        record {
          run = rw (delete_candidate, missing);
          marks = λ a. unmarked fns d.fn_deltas x a (count a d.fn_delete) alive;
          left = λ a. unchanged fns d.fn_deltas x a alive;
        },
      )
  | inr (delta, found) ↦ elim (Bool-cases (is_zero delta)) [
    | inl z ↦
        let alive : dies fns d.fn_deltas x ≡ false = rw (dies, found, stored, z) in
        (
          record d { fn_deltas = erase x d.fn_deltas },
          record {
            run = rw (delete_candidate, found, z);
            marks = λ a. unmarked fns d.fn_deltas x a (count a d.fn_delete) alive;
            left = λ a. dies-erase fns d.fn_deltas x a;
          },
        )
    | inr nz ↦ elim (Bool-cases (is_zero (pos n.ref_count +ℤ delta))) [
      | inl dead ↦
          let dying : dies fns d.fn_deltas x ≡ true = rw (dies, found, stored, nz, dead) in
          (
            record { fn_delete = set_insert x d.fn_delete; fn_deltas = erase x d.fn_deltas },
            record {
              run = rw (delete_candidate, found, nz, stored, dead);
              marks = λ a. marked fns d.fn_deltas x a d.fn_delete distinct dying;
              left = λ a. dies-erase fns d.fn_deltas x a;
            },
          )
      | inr living ↦
          let alive : dies fns d.fn_deltas x ≡ false = rw (dies, found, stored, nz, living) in
          (
            d,
            record {
              run = rw (delete_candidate, found, nz, stored, living);
              marks = λ a. unmarked fns d.fn_deltas x a (count a d.fn_delete) alive;
              left = λ a. unchanged fns d.fn_deltas x a alive;
            },
          )
    ]
  ]
]

abbrev pub AreStored : Assoc FullNode → List ℕ → Type 0
AreStored fns [] = Unit {0}
AreStored fns (id ∷ ids) = ((n : FullNode) × (find id fns ≡ some n)) × AreStored fns ids

Step-IsDistinct :
    (fns : Assoc FullNode) (x : ℕ) (d d' : Deletions)
    → Step fns x d d'
    → IsDistinct d.fn_delete
    → IsDistinct d'.fn_delete
Step-IsDistinct fns x d d' step distinct a = rw (step.marks a) (ground (arith, distinct a))

then_marks :
    (c c' c'' : ℕ) (same inside dying : Bool)
    → c' ≡ (if same && dying then 1 else c)
    → c'' ≡ (if inside && (if same then false else dying) then 1 else c')
    → c'' ≡ (if (same || inside) && dying then 1 else c)
then_marks c c' c'' true inside dying e f = ground (arith, e, f)
then_marks c c' c'' false inside dying e f = ground (arith, e, f)

pub delete_candidates_lem :
    (fns : Assoc FullNode) (ids : List ℕ) (d : Deletions)
    → AreStored fns ids
    → IsDistinct d.fn_delete
    → (d' : Deletions) × (delete_candidates fns ids d ≡ some d')
      × Marks fns ids d d'
      × IsDistinct d'.fn_delete
unfolding delete_candidates
delete_candidates_lem fns [] d stored distinct = (d, refl, (λ a. refl), distinct)
delete_candidates_lem fns (x ∷ ids) d ((n, here), stored) distinct =
    let (d₁, step) = delete_candidate_lem fns x n d here distinct in
    let (d₂, run, marks, distinct₂) =
      delete_candidates_lem fns ids d₁ stored (Step-IsDistinct fns x d d₁ step distinct) in
    (
      d₂,
      rw step.run run,
      (λ a.
          then_marks (count a d.fn_delete) (count a d₁.fn_delete) (count a d₂.fn_delete) (x == a)
            (contains ids a) (dies fns d.fn_deltas a) (step.marks a)
            (rw (step.left a) at (marks a))),
      distinct₂,
    )
