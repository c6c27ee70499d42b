-- ===== src/Update/Apply/Sens.antt =====
-- What an update does to a single entry node and its count of references.
use hypertrie.Common.{
  ◌∙◌, ℕ, ◌^◌, ◌<◌, ◌≡◌, refl, arith, ap, Bool, true, false, ◌||◌, if◌then◌else◌, ◌==◌, Option,
  none, some, Bool-cases, inl, inr,
}
use hypertrie.Common.Assoc.{Assoc, find, insert_or_assign, erase, find-insert_or_assign, find-erase}
use hypertrie.Common.Int.{ℤ, pos, negsuc, ◌+ℤ◌, is_zero, is_negative, positive}
use hypertrie.Trait.{Trait, Hash}
use hypertrie.Node.{SingleEntryNode}
use hypertrie.Storage.{NodeStorage}
use hypertrie.Update.{SenChange}
use hypertrie.Update.Apply.{to_size, add_delta, with_single_entry_nodes, apply_sen_update}

-- Words count like integers while the count is neither negative nor out of range.
pub add_delta-+ℤ :
    (ref_count : ℕ) (delta : ℤ)
    → positive (pos ref_count +ℤ delta) < 2 ^ 63
    → is_negative (pos ref_count +ℤ delta) ≡ false
    → ref_count < 2 ^ 63
    → add_delta ref_count delta ≡ positive (pos ref_count +ℤ delta)
unfolding add_delta to_size ◌+ℤ◌ is_negative
add_delta-+ℤ ref_count (pos k) b n c = ground arith
add_delta-+ℤ ref_count (negsuc k) b n c = ground arith

-- The count of references after an update, and the node that is left.
abbrev pub counted : SingleEntryNode → ℤ → Option SingleEntryNode
counted n delta =
    let ref_count = positive (pos n.ref_count +ℤ delta) in
    if ref_count == 0 then none else some (record n { ref_count = ref_count })

found_after :
    (m : Assoc SingleEntryNode) (id other c : ℕ) (n : SingleEntryNode)
    → find other (if c == 0 then erase id m else insert_or_assign id n m)
      ≡ (if id == other then (if c == 0 then none else some n) else find other m)
found_after m id other c n = elim (Bool-cases (c == 0)) [
  | inl e ↦ rw e (find-erase other id m)
  | inr e ↦ rw e (find-insert_or_assign other id n m)
]

module _ (t : Trait) (h : Hash) (depth : ℕ) where
  here :
      (s : NodeStorage) (m : Assoc SingleEntryNode)
      → (with_single_entry_nodes depth m s).single_entry_nodes depth ≡ m
  unfolding with_single_entry_nodes
  here s m = ground arith

  -- For a stored single entry node, a change that is not zero, and a count of references below 2 ^
  -- 63 before the update and from 0 to below 2 ^ 63 after it: the update succeeds, takes the node
  -- away where the new count is 0, keeps it with the new count elsewhere, and changes no other
  -- single entry node, no full node and nothing of another depth.
  pub apply_sen_update-counted :
      (s : NodeStorage) (id other : ℕ) (update : SenChange) (n : SingleEntryNode)
      → find id (s.single_entry_nodes depth) ≡ some n
      → is_zero update.ref_count_delta ≡ false
      → n.ref_count < 2 ^ 63
      → positive (pos n.ref_count +ℤ update.ref_count_delta) < 2 ^ 63
      → is_negative (pos n.ref_count +ℤ update.ref_count_delta) ≡ false
      → (s' : NodeStorage) × (apply_sen_update t h depth (id, update) s ≡ some s')
        × (find other (s'.single_entry_nodes depth) ≡ (
            if id == other
            then counted n update.ref_count_delta
            else find other (s.single_entry_nodes depth)))
        × ((d : ℕ)
            → (s'.full_nodes d ≡ s.full_nodes d)
              × ((d == depth) ≡ false → s'.single_entry_nodes d ≡ s.single_entry_nodes d))
  unfolding apply_sen_update with_single_entry_nodes
  apply_sen_update-counted s id other update n stored nz b b' neg =
      let m = s.single_entry_nodes depth in
      let c = positive (pos n.ref_count +ℤ update.ref_count_delta) in
      let kept : SingleEntryNode = record n { ref_count = c } in
      (
        with_single_entry_nodes depth (if c == 0 then erase id m else insert_or_assign id kept m) s,
        (rw
            (
              nz,
              stored,
              or_true (is_negative update.ref_count_delta),
              add_delta-+ℤ n.ref_count update.ref_count_delta b' neg b,
            )
            refl),
        ap (find other) (here s _) ∙ found_after m id other c kept,
        λ d. (refl, (λ apart. rw apart refl)),
      )
    where
      or_true : (c : Bool) → (c || true) ≡ true
      or_true true = refl
      or_true false = refl
