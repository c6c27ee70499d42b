-- ===== src/Update/Plan/Targets.antt =====
-- The loops over the updates keep what is planned: a target moves from the pending ones to the
-- copies or the moves, a source from the deletions to the moves.
use hypertrie.Common.{
  ℕ, ◌+◌, ◌≡◌, refl, arith, ◌∙◌, List, [], ◌∷◌, ◌++◌, Bool, true, if◌then◌else◌, ◌==◌, contains,
  map, Bool-cases, inl, inr,
}
use mathlib.Core.Bool.{false≢true}
use hypertrie.Common.Assoc.{Assoc}
use hypertrie.Update.{FnEntriesUpdateData}
use hypertrie.Update.Plan.{FnEntriesUpdate, Updates, plan_target, plan_targets, plan_updates}
use hypertrie.Common.Sets.{IsDistinct, contains-count, count, count-set_erase, set_erase}

abbrev pub targets_of : List FnEntriesUpdate → List ℕ
targets_of = map (λ (u : FnEntriesUpdate). u.target_id)

abbrev pub sources_of : List FnEntriesUpdate → List ℕ
sources_of = map (λ (u : FnEntriesUpdate). u.source_id)

-- How often a node is planned, and how often it is deleted or moved.
abbrev pub planned : ℕ → Updates → ℕ
planned a u =
    count a (targets_of u.fn_update_copy)
    + count a (targets_of u.fn_update_move)
    + count a u.pending

abbrev pub doomed : ℕ → Updates → ℕ
doomed a u = count a (sources_of u.fn_update_move) + count a u.fn_delete

pub record Keeps (u u' : Updates) : Type 0 where
  pub same_planned : (a : ℕ) → planned a u' ≡ planned a u
  pub same_doomed : (a : ℕ) → doomed a u' ≡ doomed a u
  pub pending_distinct : IsDistinct u'.pending
  pub delete_distinct : IsDistinct u'.fn_delete

count_targets :
    (a : ℕ) (us : List FnEntriesUpdate) (u : FnEntriesUpdate)
    → count a (targets_of (us ++ (u ∷ [])))
      ≡ count a (targets_of us) + (if u.target_id == a then 1 else 0)
count_targets a [] u = ground arith
count_targets a (v ∷ us) u = omega (arith, count_targets a us u)

count_sources :
    (a : ℕ) (us : List FnEntriesUpdate) (u : FnEntriesUpdate)
    → count a (sources_of (us ++ (u ∷ [])))
      ≡ count a (sources_of us) + (if u.source_id == a then 1 else 0)
count_sources a [] u = ground arith
count_sources a (v ∷ us) u = omega (arith, count_sources a us u)

-- A member of a distinct list occurs once.
once : (xs : List ℕ) (a : ℕ) → IsDistinct xs → contains xs a ≡ true → count a xs ≡ 1
once xs a d e = ground (arith, d a, contains-count xs a)

erase-IsDistinct : (x : ℕ) (xs : List ℕ) → IsDistinct xs → IsDistinct (set_erase x xs)
erase-IsDistinct x xs d a = ground (arith, d a, count-set_erase a x xs)

taken :
    (a x : ℕ) (xs : List ℕ)
    → IsDistinct xs
    → contains xs x ≡ true
    → (if x == a then 1 else 0) + count a (set_erase x xs) ≡ count a xs
taken a x xs d e = ground (arith, count-set_erase a x xs, once xs x d e)

pub Keeps-refl : (u : Updates) → IsDistinct u.pending → IsDistinct u.fn_delete → Keeps u u
Keeps-refl u p d = record {
  same_planned = λ a. refl;
  same_doomed = λ a. refl;
  pending_distinct = p;
  delete_distinct = d;
}

pub Keeps-trans : (u v w : Updates) → Keeps u v → Keeps v w → Keeps u w
Keeps-trans u v w k l = record {
  same_planned = λ a. l.same_planned a ∙ k.same_planned a;
  same_doomed = λ a. l.same_doomed a ∙ k.same_doomed a;
  pending_distinct = l.pending_distinct;
  delete_distinct = l.delete_distinct;
}

-- A source that is still marked for moving is still to be deleted.
abbrev Movable : ℕ → Bool → Updates → Type 0
Movable source_id flag u = flag ≡ true → contains u.fn_delete source_id ≡ true

plan_target-Keeps :
    (source_id : ℕ) (flag : Bool) (target_id : ℕ) (req : FnEntriesUpdateData) (u : Updates)
    → IsDistinct u.pending
    → IsDistinct u.fn_delete
    → Movable source_id flag u
    → (let next = plan_target source_id flag target_id req u in
        Keeps u next.0 × Movable source_id next.1 next.0)
unfolding plan_target
plan_target-Keeps source_id flag target_id req u p d mv =
    elim (Bool-cases (contains u.pending target_id)) [
      | inr absent ↦ rw absent (Keeps-refl u p d, mv)
      | inl there ↦ elim (Bool-cases flag) [
        | inl move ↦
            rw (there, move)
              (
                record {
                  same_planned = λ a. omega (
                    arith,
                    taken a target_id u.pending p there,
                    count_targets a u.fn_update_move (update there),
                  );
                  same_doomed = λ a. omega (
                    arith,
                    taken a source_id u.fn_delete d (mv move),
                    count_sources a u.fn_update_move (update there),
                  );
                  pending_distinct = erase-IsDistinct target_id u.pending p;
                  delete_distinct = erase-IsDistinct source_id u.fn_delete d;
                },
                λ e. absurd (false≢true e),
              )
        | inr copy ↦
            rw (there, copy)
              (
                record {
                  same_planned = λ a. omega (
                    arith,
                    taken a target_id u.pending p there,
                    count_targets a u.fn_update_copy (update there),
                  );
                  same_doomed = λ a. refl;
                  pending_distinct = erase-IsDistinct target_id u.pending p;
                  delete_distinct = d;
                },
                λ e. absurd (false≢true e),
              )
      ]
    ]
  where
    update : contains u.pending target_id ≡ true → FnEntriesUpdate
    update e = record {
      source_id = source_id;
      target_id = target_id;
      entries = req.entries;
      mode = req.mode;
    }

plan_targets-Keeps :
    (source_id : ℕ) (targets : Assoc FnEntriesUpdateData) (flag : Bool) (u : Updates)
    → IsDistinct u.pending
    → IsDistinct u.fn_delete
    → Movable source_id flag u
    → Keeps u (plan_targets source_id flag targets u)
unfolding plan_targets
plan_targets-Keeps source_id [] flag u p d mv = Keeps-refl u p d
plan_targets-Keeps source_id ((target_id, req) ∷ targets) flag u p d mv =
    let (k, mv') = plan_target-Keeps source_id flag target_id req u p d mv in
    Keeps-trans u _ _ k
      (plan_targets-Keeps source_id targets _ _ k.pending_distinct k.delete_distinct mv')

-- The loops over all sources keep what is planned and what is doomed.
pub plan_updates-Keeps :
    (sources : Assoc (Assoc FnEntriesUpdateData)) (u : Updates)
    → IsDistinct u.pending
    → IsDistinct u.fn_delete
    → Keeps u (plan_updates sources u)
unfolding plan_updates
plan_updates-Keeps [] u p d = Keeps-refl u p d
plan_updates-Keeps ((source_id, targets) ∷ sources) u p d =
    let k = plan_targets-Keeps source_id targets (contains u.fn_delete source_id) u p d (λ e. e) in
    Keeps-trans u _ _ k (plan_updates-Keeps sources _ k.pending_distinct k.delete_distinct)
