-- ===== src/Key/Diagonal/Sub.antt =====
-- Taking a position out of a diagonal moves the later positions down by one.
use hypertrie.Common.{
  ℕ, zero, suc, ◌+◌, ◌-◌, ◌/◌, ◌<◌, ◌≤◌, ◌≡◌, refl, arith, ap, sym, ◌∙◌, Bool, true, false, ◌||◌,
  ◌&&◌, if◌then◌else◌, ◌==◌, ltb, leb, length, length-set, length-replicate, Bool-cases, inl, inr,
  ==_iff, subst,
}
use mathlib.Core.Bool.{false≢true}
use hypertrie.Key.Diagonal.{
  RawKeyPositions, no_positions, set_true, sub_from, sub_raw_key_positions, is_set,
}
use hypertrie.Key.Diagonal.Positions.{is_set-set_true, clear}

-- Where a position of the smaller key stood before.
abbrev pub before_removal : ℕ → ℕ → ℕ
before_removal remove_pos p = if ltb p remove_pos then p else p + 1

inside : ℕ → ℕ → ℕ → Bool
inside p pos left = leb pos p && ltb p (pos + left)

abbrev offset_at : ℕ → ℕ → ℕ
offset_at remove_pos pos = if ltb remove_pos pos then 1 else 0

-- One position more, where it is not one of the diagonal.
skip :
    (b held : Bool) (q pos left : ℕ)
    → ((q == pos) ≡ true → held ≡ false)
    → (b || (inside q (pos + 1) left && held)) ≡ (b || (inside q pos (suc left) && held))
unfolding inside
skip b true q pos left h = ground (arith, h)
skip b false q pos left h = ground arith

take_in :
    (b held : Bool) (q pos left : ℕ)
    → ((q == pos) ≡ true → held ≡ true)
    → (((q == pos) || b) || (inside q (pos + 1) left && held))
      ≡ (b || (inside q pos (suc left) && held))
unfolding inside
take_in b true q pos left h = ground (arith, h)
take_in b false q pos left h = ground (arith, h)

moved_down :
    (remove_pos p pos : ℕ)
    → (pos == remove_pos) ≡ false
    → (pos - offset_at remove_pos pos == p) ≡ (before_removal remove_pos p == pos)
moved_down remove_pos p pos e = ground (arith, e)

never_removed :
    (remove_pos p pos : ℕ)
    → (pos == remove_pos) ≡ true
    → (before_removal remove_pos p == pos) ≡ false
never_removed remove_pos p pos e = ground (arith, e)

next_offset :
    (remove_pos pos : ℕ)
    → (if pos == remove_pos then 1 else offset_at remove_pos pos) ≡ offset_at remove_pos (pos + 1)
next_offset remove_pos pos = ground arith

fits :
    (remove_pos pos depth size : ℕ)
    → (pos == remove_pos) ≡ false
    → pos < depth
    → remove_pos < depth
    → (2 ≤ depth → size ≡ (depth - 1) / 8 + 1)
    → (pos - offset_at remove_pos pos) / 8 < size
fits remove_pos pos depth size e lt lt' enough =
    let two : 2 ≤ depth = ground (arith, e, lt, lt') in
    let below : pos - offset_at remove_pos pos ≤ depth - 1 = ground (arith, e, lt, lt') in
    omega (arith, enough two, below)

sub_from-step :
    (d : RawKeyPositions) (remove_pos p depth left pos : ℕ) (acc : RawKeyPositions)
    → pos + suc left ≡ depth
    → remove_pos < depth
    → (2 ≤ depth → length acc ≡ (depth - 1) / 8 + 1)
    → ((acc' : RawKeyPositions)
        → (2 ≤ depth → length acc' ≡ (depth - 1) / 8 + 1)
        → is_set (sub_from d remove_pos left (pos + 1) (offset_at remove_pos (pos + 1)) acc') p ≡ (
            is_set acc' p
            || (inside (before_removal remove_pos p) (pos + 1) left
                && is_set d (before_removal remove_pos p))))
    → is_set (sub_from d remove_pos (suc left) pos (offset_at remove_pos pos) acc) p ≡ (
        is_set acc p
        || (inside (before_removal remove_pos p) pos (suc left)
            && is_set d (before_removal remove_pos p)))
unfolding sub_from
sub_from-step d remove_pos p depth left pos acc l lt enough rest =
    elim (Bool-cases (pos == remove_pos)) [
      | inl e ↦ rw e (
          go acc e 1 refl enough
          ∙ skip (is_set acc p) (is_set d q) q pos left
              (λ same. absurd (false≢true (sym (never_removed remove_pos p pos e) ∙ same))))
      | inr e ↦ elim (Bool-cases (is_set d pos)) [
        | inl held ↦
            rw (e, held)
              (go moved e (offset_at remove_pos pos) refl
                  (λ two. (unfold set_true in length-set acc _ _) ∙ enough two)
                ∙ ap (λ z. z || (inside q (pos + 1) left && is_set d q))
                    (is_set-set_true p (pos - offset_at remove_pos pos) acc
                        (fits remove_pos pos depth (length acc) e (omega (arith, l)) lt enough)
                      ∙ ap (λ z. z || is_set acc p) (moved_down remove_pos p pos e))
                ∙ take_in (is_set acc p) (is_set d q) q pos left
                    (λ same. subst (λ z. is_set d z ≡ true) (sym ((==_iff q pos).0 same)) held))
        | inr unset ↦
            rw (e, unset)
              (go acc e (offset_at remove_pos pos) refl enough
                ∙ skip (is_set acc p) (is_set d q) q pos left
                    (λ same. subst (λ z. is_set d z ≡ false) (sym ((==_iff q pos).0 same)) unset))
      ]
    ]
  where
    q : ℕ
    q = before_removal remove_pos p

    moved : RawKeyPositions
    moved = set_true (pos - offset_at remove_pos pos) acc

    go :
        {b : Bool} (acc' : RawKeyPositions)
        → (pos == remove_pos) ≡ b
        → (offset : ℕ) → offset ≡ (if b then 1 else offset_at remove_pos pos)
        → (2 ≤ depth → length acc' ≡ (depth - 1) / 8 + 1)
        → is_set (sub_from d remove_pos left (pos + 1) offset acc') p
          ≡ (is_set acc' p || (inside q (pos + 1) left && is_set d q))
    go acc' e offset o ok =
        ap (λ z. is_set (sub_from d remove_pos left (pos + 1) z acc') p)
          (o
            ∙ ap (λ c. if c then 1 else offset_at remove_pos pos) (sym e)
            ∙ next_offset remove_pos pos)
        ∙ rest acc' ok

sub_from_lem :
    (d : RawKeyPositions) (remove_pos p depth left pos : ℕ) (acc : RawKeyPositions)
    → pos + left ≡ depth
    → remove_pos < depth
    → (2 ≤ depth → length acc ≡ (depth - 1) / 8 + 1)
    → is_set (sub_from d remove_pos left pos (offset_at remove_pos pos) acc) p ≡ (
        is_set acc p
        || (inside (before_removal remove_pos p) pos left
            && is_set d (before_removal remove_pos p)))
unfolding sub_from
sub_from_lem d remove_pos p depth zero pos acc l lt enough = unfold inside in ground arith
sub_from_lem d remove_pos p depth (suc left) pos acc l lt enough =
    sub_from-step d remove_pos p depth left pos acc l lt enough
      (λ acc' ok. sub_from_lem d remove_pos p depth left (pos + 1) acc' (omega (arith, l)) lt ok)

-- For a removed position below the depth, a position of the key without it is set in
-- `sub_raw_key_positions` exactly where its old position was set: the same before the removed one,
-- one more after it.
pub sub_raw_key_positions-is_set :
    (d : RawKeyPositions) (depth remove_pos p : ℕ)
    → remove_pos < depth
    → p + 1 < depth
    → is_set (sub_raw_key_positions depth d remove_pos) p ≡ is_set d (before_removal remove_pos p)
unfolding sub_raw_key_positions
sub_raw_key_positions-is_set d depth remove_pos p lt lt' =
    ap (λ o. is_set (sub_from d remove_pos depth 0 o (no_positions (depth - 1))) p) zero_offset
    ∙ sub_from_lem d remove_pos p depth depth 0 (no_positions (depth - 1)) (omega arith) lt
        (λ two. some_bytes two)
    ∙ (rw (clear p (if depth - 1 == 0 then 0 else (depth - 1) / 8 + 1), all_inside) refl)
  where
    zero_offset : 0 ≡ offset_at remove_pos 0
    zero_offset = ground arith

    some_bytes : 2 ≤ depth → length (no_positions (depth - 1)) ≡ (depth - 1) / 8 + 1
    some_bytes two =
        let more : (depth - 1 == 0) ≡ false = ground (arith, two) in
        rw more (length-replicate ((depth - 1) / 8 + 1) 0)

    all_inside : inside (before_removal remove_pos p) 0 depth ≡ true
    all_inside = unfold inside in ground (arith, lt, lt')
