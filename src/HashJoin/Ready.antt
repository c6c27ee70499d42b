-- ===== src/HashJoin/Ready.antt =====
-- The state of a join between two rounds: its operands, wherever their diagonals stand, and the
-- vector of slices.
use hypertrie.Common.{
  Bool, List, [], ap, arith, contains, false, filter, get_or, length, subst, sym, true, ℕ, ◌&&◌,
  ◌+◌, ◌<◌, ◌==◌, ◌||◌, ◌∙◌, ◌∷◌, ◌≡◌, ◌≤◌,
}
use hypertrie.HashJoin.{
  Diagonals, JoinIterator, JoinOp, Promises, find_in, join_ops, placeholders, store_slices,
}
use hypertrie.HashJoin.Find.{
  All-find_in, IsPlaced-Stable, Shows, any-find_in, every-find_in, has_part-IsStable,
  writes-IsStable,
}
use hypertrie.HashJoin.Sort.{All, any, every}
use hypertrie.HashJoin.Store.{store_slices-target}
use hypertrie.HashJoin.Values.{
  IsPlaced, all_have, has_part, joined, length-placeholders, placeholders-joined, writes,
}

module _ (ds : Diagonals) (laws : Promises ds) (xs : List ds.Operand) (poss : List (List ℕ)) where
  abbrev pub target : ℕ → List ds.Operand
  target k = joined ds laws xs poss k

  abbrev pub wanted : ℕ → Bool
  wanted k = all_have ds laws xs poss k

  abbrev pub is_written : ℕ → Bool
  is_written i = any (writes ds laws i) (join_ops ds 0 xs poss)

  -- The operands of the join, wherever their diagonals stand.
  pub record Ready (ops : List (JoinOp ds)) : Type 0 where
    pub placed : All (IsPlaced ds laws target) ops
    pub writing : (i : ℕ) → any (writes ds laws i) ops ≡ is_written i
    pub having : (k : ℕ) → every (has_part ds laws k) ops ≡ wanted k

  -- A vector that holds the operands that are not joined.
  pub record Fits (v : List ds.Operand) : Type 0 where
    pub long : (k : ℕ) → length v ≡ length (target k)
    pub kept :
        (k i : ℕ)
        → is_written i ≡ false
        → get_or v i ds.no_operand ≡ get_or (target k) i ds.no_operand

  -- The iterator at a key part, with those that are still to come.
  pub record Stands (it : JoinIterator ds) (k : ℕ) (ms : List ℕ) : Type 0 where
    pub going : it.ended ≡ false
    pub part : it.key_part ≡ k
    pub values : it.sub_operands ≡ target k
    pub smallest : JoinOp ds
    pub others : List (JoinOp ds)
    pub operands : it.ops ≡ smallest ∷ others
    pub ready : Ready (smallest ∷ others)
    pub rest : List ℕ
    pub remains : laws.remaining smallest.diagonal ≡ k ∷ rest
    pub matches : filter wanted rest ≡ ms
    pub within :
        (j : ℕ)
        → contains rest j ≡ true
        → contains (laws.keys (laws.origin smallest.diagonal)) j ≡ true
    pub few : length rest < length (laws.keys (laws.origin smallest.diagonal))

  abbrev pub Standing : JoinIterator ds → List ℕ → Type 0
  Standing it [] = it.ended ≡ true
  Standing it (k ∷ ms) = Stands it k ms

  pub Ready-find_in :
      (k : ℕ) (s : JoinOp ds) (others : List (JoinOp ds))
      → Ready (s ∷ others)
      → Ready (s ∷ (find_in ds k others).1)
  Ready-find_in k s others ready = record {
    placed = (
      ready.placed.0,
      All-find_in ds laws (IsPlaced ds laws target) k others (IsPlaced-Stable ds laws target)
          ready.placed.1,
    );
    writing = λ i.
        ap (λ b. writes ds laws i s || b)
          (any-find_in ds laws (writes ds laws i) k others (writes-IsStable ds laws i))
        ∙ ready.writing i;
    having = λ j.
        ap (λ b. has_part ds laws j s && b)
          (every-find_in ds laws (has_part ds laws j) k others (has_part-IsStable ds laws j))
        ∙ ready.having j;
  }

  pub Ready-moved :
      (s : JoinOp ds) (d : ds.Diagonal) (others : List (JoinOp ds))
      → laws.origin d ≡ laws.origin s.diagonal
      → Ready (s ∷ others)
      → Ready (record s { diagonal = d } ∷ others)
  Ready-moved s d others e ready = record {
    placed = (IsPlaced-Stable ds laws target s d e ready.placed.0, ready.placed.1);
    writing = ready.writing;
    having = λ j.
        ap (λ b. b && every (has_part ds laws j) others) (has_part-IsStable ds laws j s d e)
        ∙ ready.having j;
  }

  pub placed-shown :
      (k : ℕ) (ops : List (JoinOp ds))
      → All (IsPlaced ds laws target) ops
      → All (Shows ds laws k) ops
      → All
          (λ (op : JoinOp ds).
            (op.result_depth == 0) ≡ false
            → (op.pos_in_out < length (target k))
              × (get_or (target k) op.pos_in_out ds.no_operand ≡ ds.current_hypertrie op.diagonal))
          ops
  placed-shown k [] placed shows = tt
  placed-shown k (op ∷ ops) (here, placed) (shown, shows) = (
    λ left. let (lt, at_pos) = here k left in (lt, at_pos ∙ sym shown),
    placed-shown k ops placed shows,
  )

  -- What `store_slices` makes where all operands show the slice of the key part.
  pub stored_values :
      (k : ℕ) (ops : List (JoinOp ds)) (v : List ds.Operand)
      → Ready ops
      → All (Shows ds laws k) ops
      → Fits v
      → store_slices ds ops v ≡ target k
  stored_values k ops v ready shows fits =
      store_slices-target ds laws (target k) v ops (fits.long k)
        (placed-shown k ops ready.placed shows) (λ i e. fits.kept k i (sym (ready.writing i) ∙ e))

  pub unwritten :
      (k i : ℕ)
      → length xs ≤ 256
      → is_written i ≡ false
      → get_or (placeholders ds xs poss) i ds.no_operand ≡ get_or (target k) i ds.no_operand
  unwritten k i b e =
      let at_i : 0 + i ≡ i = omega arith in
      placeholders-joined ds laws 0 xs poss k i (omega (arith, b))
        (subst (λ j. any (writes ds laws j) (join_ops ds 0 xs poss) ≡ false) (sym at_i) e)

  pub Fits-placeholders : length xs ≤ 256 → Fits (placeholders ds xs poss)
  Fits-placeholders b = record {
    long = λ k. length-placeholders ds laws xs poss k;
    kept = λ k i e. unwritten k i b e;
  }

  pub Fits-target : (j : ℕ) → length xs ≤ 256 → Fits (target j)
  Fits-target j b = record {
    long = λ k. sym (length-placeholders ds laws xs poss j) ∙ length-placeholders ds laws xs poss k;
    kept = λ k i e. sym (unwritten j i b e) ∙ unwritten k i b e;
  }
