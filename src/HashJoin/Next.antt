-- ===== src/HashJoin/Next.antt =====
-- `next` goes on to the next key part that all joined operands have.
use hypertrie.Common.{
  Bool-cases, List, [], ap, arith, contains, false, filter, inl, inr, is_empty, length, refl, suc,
  sym, true, zero, ℕ, ◌&&◌, ◌<◌, ◌∙◌, ◌∷◌, ◌≡◌, ◌≤◌,
}
use hypertrie.HashJoin.{Diagonals, JoinOp, Promises, find_in, next_match, store_slices}
use hypertrie.HashJoin.Find.{Shows, find_in-Shows, find_in-has_part}
use hypertrie.HashJoin.Ready.{
  Fits, Ready, Ready-find_in, Ready-moved, Standing, stored_values, wanted,
}
use hypertrie.HashJoin.Sort.{every}
use hypertrie.HashJoin.Values.{has_part}

module _ (ds : Diagonals) (laws : Promises ds) (xs : List ds.Operand) (poss : List (List ℕ)) where
  -- The rounds of the loop in `next`.
  pub next_match-ended :
      (fuel : ℕ) (s : JoinOp ds) (others : List (JoinOp ds)) (v : List ds.Operand)
      → laws.remaining s.diagonal ≡ []
      → (next_match ds (suc fuel) s others v).ended ≡ true
  unfolding next_match
  next_match-ended fuel s others v e =
      let over : ds.ended s.diagonal ≡ true = laws.ends s.diagonal ∙ ap is_empty e in rw over refl

  pub next_match-found :
      (fuel k : ℕ) (rest : List ℕ) (s : JoinOp ds) (others : List (JoinOp ds)) (v : List ds.Operand)
      → laws.remaining s.diagonal ≡ k ∷ rest
      → (find_in ds k others).0 ≡ true
      → next_match ds (suc fuel) s others v ≡ record {
        ops = s ∷ (find_in ds k others).1;
        ended = false;
        key_part = k;
        sub_operands = store_slices ds (s ∷ (find_in ds k others).1) v;
      }
  unfolding next_match
  next_match-found fuel k rest s others v e found =
      let on : ds.ended s.diagonal ≡ false = laws.ends s.diagonal ∙ ap is_empty e in
      rw (on, laws.shows s.diagonal k rest e, found) refl

  pub next_match-missing :
      (fuel k : ℕ) (rest : List ℕ) (s : JoinOp ds) (others : List (JoinOp ds)) (v : List ds.Operand)
      → laws.remaining s.diagonal ≡ k ∷ rest
      → (find_in ds k others).0 ≡ false
      → next_match ds (suc fuel) s others v
        ≡ next_match ds fuel
            (record s { diagonal = ds.increment s.diagonal })
            (find_in ds k others).1
            v
  unfolding next_match
  next_match-missing fuel k rest s others v e missing =
      let on : ds.ended s.diagonal ≡ false = laws.ends s.diagonal ∙ ap is_empty e in
      rw (on, laws.shows s.diagonal k rest e, missing) refl

  -- The key parts that the smallest operand has left are among its key parts.
  pub record Among (s : JoinOp ds) (ks : List ℕ) : Type 0 where
    pub left : laws.remaining s.diagonal ≡ ks
    pub shown : (k : ℕ) (rest : List ℕ) → ks ≡ k ∷ rest → Shows ds laws k s
    pub inside :
        (j : ℕ) → contains ks j ≡ true → contains (laws.keys (laws.origin s.diagonal)) j ≡ true
    pub at_most : length ks ≤ length (laws.keys (laws.origin s.diagonal))

  pub Shows-moved :
      (s : JoinOp ds) (ks : List ℕ)
      → laws.remaining (ds.increment s.diagonal) ≡ ks
      → (k : ℕ) (rest : List ℕ) → ks ≡ k ∷ rest
      → Shows ds laws k (record s { diagonal = ds.increment s.diagonal })
  Shows-moved s ks left k rest e =
      laws.moves_to s.diagonal k rest (left ∙ e)
      ∙ ap (λ o. laws.slice_of o k) (sym (laws.moved s.diagonal))

  pub Among-moved :
      (s : JoinOp ds) (k : ℕ) (rest : List ℕ)
      → Among s (k ∷ rest)
      → Among (record s { diagonal = ds.increment s.diagonal }) rest
  Among-moved s k rest among =
      let same = laws.moved s.diagonal in
      record {
        left = laws.steps s.diagonal k rest among.left;
        shown = Shows-moved s rest (laws.steps s.diagonal k rest among.left);
        inside = λ j e. rw same (among.inside j (ground (arith, e)));
        at_most = let few = among.at_most in rw same (omega (arith, few));
      }

  -- Whether the other operands have a key part of the smallest one.
  pub found-wanted :
      (s : JoinOp ds) (others : List (JoinOp ds)) (k : ℕ) (rest : List ℕ)
      → Ready ds laws xs poss (s ∷ others)
      → Among s (k ∷ rest)
      → wanted ds laws xs poss k ≡ (find_in ds k others).0
  found-wanted s others k rest ready among =
      let first : has_part ds laws k s ≡ true = among.inside k (ground arith) in
      sym (ready.having k)
      ∙ ap (λ b. b && every (has_part ds laws k) others) first
      ∙ sym (find_in-has_part ds laws k others)

  pub next_match-Standing :
      (fuel : ℕ) (s : JoinOp ds) (others : List (JoinOp ds)) (v : List ds.Operand) (ks : List ℕ)
      → Ready ds laws xs poss (s ∷ others)
      → Fits ds laws xs poss v
      → Among s ks
      → length ks < fuel
      → Standing ds laws xs poss
          (next_match ds fuel s others v)
          (filter (wanted ds laws xs poss) ks)
  next_match-Standing zero s others v ks ready fits among lt = absurd (omega (arith, lt))
  next_match-Standing (suc fuel) s others v [] ready fits among lt =
      next_match-ended fuel s others v among.left
  next_match-Standing (suc fuel) s others v (k ∷ rest) ready fits among lt =
      let want = found-wanted s others k rest ready among in
      elim (Bool-cases (find_in ds k others).0) [
        | inl found ↦
            let shown = among.shown k rest refl in
            let after = Ready-find_in ds laws xs poss k s others ready in
            let few = among.at_most in
            rw (want, found, next_match-found fuel k rest s others v among.left found)
              (record {
                going = refl;
                part = refl;
                values =
                    stored_values ds laws xs poss k (s ∷ (find_in ds k others).1) v after
                      (shown, find_in-Shows ds laws k others found) fits;
                smallest = s;
                others = (find_in ds k others).1;
                operands = refl;
                ready = after;
                rest = rest;
                remains = among.left;
                matches = refl;
                within = λ j e. among.inside j (ground (arith, e));
                few = omega (arith, few);
              })
        | inr missing ↦
            rw (want, missing, next_match-missing fuel k rest s others v among.left missing)
              (next_match-Standing fuel (record s { diagonal = ds.increment s.diagonal })
                (find_in ds k others).1 v rest
                (Ready-moved ds laws xs poss s (ds.increment s.diagonal) (find_in ds k others).1
                  (laws.moved s.diagonal) (Ready-find_in ds laws xs poss k s others ready))
                fits (Among-moved s k rest among) (omega (arith, lt)))
      ]
