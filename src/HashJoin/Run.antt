-- ===== src/HashJoin/Run.antt =====
-- A loop over a join sees the key parts that all joined operands have, each once, with the slices.
use mathlib.Core.Bool.{true≢false}
use hypertrie.Common.{
  List, List-cases, [], ap, arith, contains, contains-filter, false, filter, inl, inr, is_empty,
  length, map, refl, some, subst, suc, sym, zero, ℕ, ◌&&◌, ◌<◌, ◌∙◌, ◌∷◌, ◌≡◌, ◌≤◌,
}
use hypertrie.Common.Sets.{IsDistinct, count-filter}
use hypertrie.HashJoin.{
  Diagonals, JoinIterator, JoinOp, Promises, advance, join_ops, next_match, optimize_operand_order,
  placeholders, rounds, start,
}
use hypertrie.HashJoin.Next.{Shows-moved, next_match-Standing}
use hypertrie.HashJoin.Ready.{
  Fits-placeholders, Fits-target, Ready, Ready-moved, Standing, Stands, target, wanted,
}
use hypertrie.HashJoin.Sort.{
  All-optimize_operand_order, any-optimize_operand_order, every, every-optimize_operand_order,
  is_empty-optimize,
}
use hypertrie.HashJoin.Values.{
  IsPlaced, all_have, every-join_ops, has_part, joined, joined-ops-IsPlaced, writes,
}

module _ (ds : Diagonals) (laws : Promises ds) (xs : List ds.Operand) (poss : List (List ℕ)) where
  advance-Standing :
      (it : JoinIterator ds) (k : ℕ) (ms : List ℕ)
      → length xs ≤ 256
      → Stands ds laws xs poss it k ms
      → Standing ds laws xs poss (advance ds it) ms
  unfolding advance
  advance-Standing it k ms b st =
      let s = st.smallest in
      let moved : JoinOp ds = record s { diagonal = ds.increment s.diagonal } in
      let same = laws.moved s.diagonal in
      let few = st.few in
      let bound = laws.bounds s.diagonal in
      rw (st.operands, ← st.matches, st.values)
        (next_match-Standing ds laws xs poss (suc (ds.size s.diagonal)) moved st.others
          (target ds laws xs poss k) st.rest
          (Ready-moved ds laws xs poss s (ds.increment s.diagonal) st.others same st.ready)
          (Fits-target ds laws xs poss k b)
          (record {
            left = laws.steps s.diagonal k st.rest st.remains;
            shown =
                Shows-moved ds laws xs poss s st.rest (laws.steps s.diagonal k st.rest st.remains);
            inside = λ j e. rw same (st.within j e);
            at_most = rw same (omega (arith, few));
          })
          (omega (arith, few, bound)))

  rounds-going :
      (fuel : ℕ) (it : JoinIterator ds)
      → it.ended ≡ false
      → rounds ds (suc fuel) it ≡ (it.key_part, it.sub_operands) ∷ rounds ds fuel (advance ds it)
  unfolding rounds
  rounds-going fuel it on = rw on refl

  rounds-Standing :
      (fuel : ℕ) (it : JoinIterator ds) (ms : List ℕ)
      → length xs ≤ 256
      → Standing ds laws xs poss it ms
      → length ms < fuel
      → rounds ds fuel it ≡ map (λ k. (k, target ds laws xs poss k)) ms
  unfolding rounds
  rounds-Standing zero it ms b st lt = absurd (omega (arith, lt))
  rounds-Standing (suc fuel) it [] b st lt = rw st refl
  rounds-Standing (suc fuel) it (k ∷ ms) b st lt =
      let later =
        rounds-Standing fuel (advance ds it) ms b (advance-Standing it k ms b st)
          (omega (arith, lt)) in
      rounds-going fuel it st.going ∙ (λ i. (st.part i, st.values i) ∷ later i)

  Ready-start :
      length xs ≤ 256 → Ready ds laws xs poss (optimize_operand_order ds (join_ops ds 0 xs poss))
  Ready-start b = record {
    placed =
        All-optimize_operand_order ds (IsPlaced ds laws (target ds laws xs poss))
          (join_ops ds 0 xs poss)
          (joined-ops-IsPlaced ds laws (λ k. []) 0 xs poss (λ k. refl) (omega (arith, b)));
    writing = λ i. any-optimize_operand_order ds (writes ds laws i) (join_ops ds 0 xs poss);
    having = λ k.
        every-optimize_operand_order ds (has_part ds laws k) (join_ops ds 0 xs poss)
        ∙ every-join_ops ds laws 0 xs poss k;
  }

  -- A key part that all have is one of the first operand's.
  all_in_first :
      (s : JoinOp ds) (others : List (JoinOp ds)) (k : ℕ)
      → Ready ds laws xs poss (s ∷ others)
      → (contains (laws.keys (laws.origin s.diagonal)) k && wanted ds laws xs poss k)
        ≡ wanted ds laws xs poss k
  all_in_first s others k ready =
      let all : has_part ds laws k s && every (has_part ds laws k) others
          ≡ wanted ds laws xs poss k =
        ready.having k in
      ground (arith, all)

  -- For at most 256 operands, one of which is joined at least: the iterator is made, and there is
  -- a list of key parts, each in it once, and exactly those that all joined operands have, such
  -- that a loop over the join sees these key parts in this order, each with the slices of the
  -- joined operands that keep a position and with the other operands, in the order of the
  -- operands. The loop ends after them.
  pub rounds-all_have :
      length xs ≤ 256
      → is_empty (join_ops ds 0 xs poss) ≡ false
      → (it : JoinIterator ds) × (ks : List ℕ) × (start ds xs poss ≡ some it)
        × IsDistinct ks
        × ((k : ℕ) → contains ks k ≡ all_have ds laws xs poss k)
        × ((fuel : ℕ)
            → length ks < fuel
            → rounds ds fuel it ≡ map (λ k. (k, joined ds laws xs poss k)) ks)
  unfolding start
  rounds-all_have b some_joined =
      elim (List-cases (optimize_operand_order ds (join_ops ds 0 xs poss))) [
        | inl nothing ↦ absurd (
            true≢false (
              sym (ap is_empty nothing)
              ∙ is_empty-optimize ds (join_ops ds 0 xs poss)
              ∙ some_joined))
        | inr (s, others, e) ↦
            let begun : JoinOp ds = record s { diagonal = ds.begin s.diagonal } in
            let ready = subst (Ready ds laws xs poss) e (Ready-start b) in
            let same = laws.begun s.diagonal in
            let ks = laws.keys (laws.origin s.diagonal) in
            let bound = laws.bounds s.diagonal in
            let it =
              next_match ds (suc (ds.size s.diagonal)) begun others (placeholders ds xs poss) in
            let st =
              next_match-Standing ds laws xs poss (suc (ds.size s.diagonal)) begun others
                (placeholders ds xs poss) ks
                (Ready-moved ds laws xs poss s (ds.begin s.diagonal) others same ready)
                (Fits-placeholders ds laws xs poss b)
                (record {
                  left = laws.begins s.diagonal;
                  shown = λ k rest e'.
                      laws.begins_at s.diagonal k rest (laws.begins s.diagonal ∙ e')
                      ∙ ap (λ o. laws.slice_of o k) (sym same);
                  inside = λ j h. rw same h;
                  at_most = rw same (omega arith);
                })
                (omega (arith, bound)) in
            (
              it,
              filter (wanted ds laws xs poss) ks,
              rw (e, start) refl,
              (λ a.
                  let once = laws.distinct (laws.origin s.diagonal) a in
                  omega (arith, count-filter (wanted ds laws xs poss) ks a, once)),
              (λ k. contains-filter (wanted ds laws xs poss) ks k ∙ all_in_first s others k ready),
              (λ fuel lt. rounds-Standing fuel it (filter (wanted ds laws xs poss) ks) b st lt),
            )
      ]
