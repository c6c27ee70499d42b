-- ===== src/Update/Plan/Partition.antt =====
-- What a plan does with the identifiers that were asked for.
use hypertrie.Common.{
  ℕ, ◌+◌, ◌≡◌, refl, arith, ap, ◌∙◌, List, [], ◌∷◌, Bool, true, false, ◌&&◌, ◌||◌, some,
  if◌then◌else◌, ◌==◌, ==_iff, contains, map, subst, Bool-cases, inl, inr,
}
use hypertrie.Common.Assoc.{Assoc}
use hypertrie.Node.{FullNode}
use hypertrie.Trait.{SingleEntry}
use hypertrie.Update.{UpdateRequests}
use hypertrie.Update.Plan.{
  FnCreation, UpdatePlan, Updates, to_be_created, plan_updates, plan_creations, drop_unchanged,
  plan_of, is_missing,
}
use hypertrie.Update.Plan.Targets.{targets_of, sources_of, plan_updates-Keeps}
use hypertrie.Update.Plan.Marked.{dies, AreStored, delete_candidates_lem}
use hypertrie.Common.Sets.{IsDistinct, count, count-set_insert}

-- Each node that is asked for and not stored is created, copied or moved to once, and no other
-- node is; each node whose count of references goes to zero is deleted or moved from once, and no
-- other node is.
pub record IsPartition (fns : Assoc FullNode) (ur : UpdateRequests) (p : UpdatePlan) : Type 0 where
  pub creates :
      (id : ℕ)
      → count id (map (λ (c : FnCreation). c.id) p.fn_create)
          + count id (targets_of p.fn_update_copy)
          + count id (targets_of p.fn_update_move)
        ≡ (if contains ur.fn_potentially_new id && is_missing fns id then 1 else 0)
  pub deletes :
      (id : ℕ)
      → count id (sources_of p.fn_update_move) + count id p.fn_delete
        ≡ (if contains ur.fn_deletion_candidates id && dies fns ur.fn_deltas id then 1 else 0)

created_one :
    (c : ℕ) (same inside missing : Bool)
    → c ≡ (if inside && missing then 1 else 0)
    → (same ≡ true → missing ≡ true)
    → (if same && c == 0 then 1 else c) ≡ (if (same || inside) && missing then 1 else 0)
created_one c true inside missing e m = rw (m refl) (ground (arith, e, m refl))
created_one c false inside missing e m = ground (arith, e)

not_created :
    (c : ℕ) (same inside missing : Bool)
    → c ≡ (if inside && missing then 1 else 0)
    → (same ≡ true → missing ≡ false)
    → c ≡ (if (same || inside) && missing then 1 else 0)
not_created c true inside missing e m = ground (arith, e, m refl)
not_created c false inside missing e m = ground (arith, e)

count-to_be_created :
    (fns : Assoc FullNode) (ids : List ℕ) (a : ℕ)
    → count a (to_be_created fns ids) ≡ (if contains ids a && is_missing fns a then 1 else 0)
unfolding to_be_created
count-to_be_created fns [] a = refl
count-to_be_created fns (x ∷ ids) a = elim (Bool-cases (is_missing fns x)) [
  | inl absent ↦
      rw (to_be_created, absent)
        (count-set_insert a x (to_be_created fns ids)
          ∙ created_one (count a (to_be_created fns ids)) (x == a) (contains ids a)
              (is_missing fns a) (count-to_be_created fns ids a)
              (λ same. subst (λ z. is_missing fns z ≡ true) ((==_iff x a).0 same) absent))
  | inr there ↦
      rw (to_be_created, there)
        (not_created (count a (to_be_created fns ids)) (x == a) (contains ids a) (is_missing fns a)
          (count-to_be_created fns ids a)
          (λ same. subst (λ z. is_missing fns z ≡ false) ((==_iff x a).0 same) there))
]

ids-plan_creations :
    (m : Assoc (List SingleEntry)) (ids : List ℕ)
    → map (λ (c : FnCreation). c.id) (plan_creations m ids) ≡ ids
unfolding plan_creations
ids-plan_creations m [] = refl
ids-plan_creations m (id ∷ ids) = ap (λ z. id ∷ z) (ids-plan_creations m ids)

-- Where each deletion candidate is a stored full node, a plan is made. For every identifier: among
-- the nodes to be created, copied to and moved to it occurs once if it is asked for as new and is
-- not stored, and not otherwise; among the nodes moved from and deleted it occurs once if it is a
-- candidate whose change is not zero and takes its count of references to zero, and not otherwise.
pub plan_of-IsPartition :
    (fns : Assoc FullNode) (ur : UpdateRequests)
    → AreStored fns ur.fn_deletion_candidates
    → (p : UpdatePlan) × (plan_of fns ur ≡ some p) × IsPartition fns ur p
unfolding plan_of
plan_of-IsPartition fns ur stored =
    let (d, run, marks, distinct) =
      delete_candidates_lem fns ur.fn_deletion_candidates
        (record { fn_delete = []; fn_deltas = ur.fn_deltas }) stored (λ a. omega arith) in
    let pending : IsDistinct (to_be_created fns ur.fn_potentially_new) =
      λ a. ground (arith, count-to_be_created fns ur.fn_potentially_new a) in
    let start : Updates = record {
      pending = to_be_created fns ur.fn_potentially_new;
      fn_delete = d.fn_delete;
      fn_update_copy = [];
      fn_update_move = [];
    } in
    let u = plan_updates ur.fn_update_entries start in
    let keeps = plan_updates-Keeps ur.fn_update_entries start pending distinct in
    let plan : UpdatePlan = record {
      fn_create = plan_creations ur.fn_creations u.pending;
      fn_update_copy = u.fn_update_copy;
      fn_update_move = u.fn_update_move;
      fn_delete = u.fn_delete;
      fn_deltas = d.fn_deltas;
      sen_changes = drop_unchanged ur.sen_changes;
    } in
    (
      plan,
      rw run refl,
      record {
        creates = λ id. rw (ids-plan_creations ur.fn_creations u.pending) (
            omega (arith, keeps.same_planned id, count-to_be_created fns ur.fn_potentially_new id));
        deletes = λ id. omega (arith, keeps.same_doomed id, marks id);
      },
    )
