-- ===== src/Update/Plan.antt =====
-- `UpdatePlan` (UpdatePlan.hpp): which full nodes are created from entries, by copying or by moving
-- another node, and which are deleted. `fns` are the full nodes stored for the depth.
pub mod Targets
pub mod Marked
pub mod Partition
use hypertrie.Common.{
  ℕ, ◌+◌, List, [], ◌∷◌, ◌++◌, Bool, true, false, not, ◌&&◌, ◌||◌, Option, none, some,
  if◌then◌else◌, ◌==◌, contains, is_none, ◌>>=◌,
}
use hypertrie.Common.Assoc.{Assoc, find, erase}
use hypertrie.Common.Int.{ℤ, pos, ◌+ℤ◌, is_zero}
use hypertrie.Trait.{SingleEntry}
use hypertrie.Identifier.{RawIdentifier}
use hypertrie.Node.{FullNode}
use hypertrie.Update.{SenChange, EntriesUpdateMode, FnEntriesUpdateData, UpdateRequests}
use hypertrie.Common.Sets.{set_erase, set_insert}

pub record FnCreation : Type 0 where
  pub entries : List SingleEntry
  pub id : RawIdentifier

pub record FnEntriesUpdate : Type 0 where
  pub source_id : RawIdentifier
  pub target_id : RawIdentifier
  pub entries : List SingleEntry
  pub mode : EntriesUpdateMode

pub record UpdatePlan : Type 0 where
  pub fn_create : List FnCreation
  pub fn_update_copy : List FnEntriesUpdate
  pub fn_update_move : List FnEntriesUpdate
  pub fn_delete : List RawIdentifier
  pub fn_deltas : Assoc ℤ
  pub sen_changes : Assoc SenChange

-- `!fns.count(id)`
abbrev pub is_missing : Assoc FullNode → RawIdentifier → Bool
is_missing fns id = is_none (find id fns)

unfoldable pub to_be_created : Assoc FullNode → List RawIdentifier → List RawIdentifier
unfolding set_insert
to_be_created fns [] = []
to_be_created fns (id ∷ ids) =
    let rest = to_be_created fns ids in if is_missing fns id then set_insert id rest else rest

-- The deleted nodes and the deltas that are left, while the candidates are run through.
pub record Deletions : Type 0 where
  pub fn_delete : List RawIdentifier
  pub fn_deltas : Assoc ℤ

-- The loop's body.
unfoldable pub delete_candidate : Assoc FullNode → RawIdentifier → Deletions → Option Deletions
unfolding set_insert
delete_candidate fns source_fn d = elim (find source_fn d.fn_deltas) [
  | none ↦ some d
  | some delta ↦
      if is_zero delta
      then some (record d { fn_deltas = erase source_fn d.fn_deltas })
      else (find source_fn fns >>= λ n. some (
          if is_zero (pos n.ref_count +ℤ delta)
          then record {
            fn_delete = set_insert source_fn d.fn_delete;
            fn_deltas = erase source_fn d.fn_deltas;
          }
          else d))
]

unfoldable pub delete_candidates :
    Assoc FullNode → List RawIdentifier → Deletions → Option Deletions
unfolding delete_candidate
delete_candidates fns [] d = some d
delete_candidates fns (id ∷ ids) d =
    delete_candidate fns id d >>= λ d'. delete_candidates fns ids d'

-- What the loops over the updates change.
pub record Updates : Type 0 where
  pub pending : List RawIdentifier
  pub fn_delete : List RawIdentifier
  pub fn_update_copy : List FnEntriesUpdate
  pub fn_update_move : List FnEntriesUpdate

-- The body of the inner loop, for one target; the flag says whether the source can be moved.
unfoldable pub plan_target :
    RawIdentifier → Bool → RawIdentifier → FnEntriesUpdateData → Updates → Updates × Bool
unfolding set_erase
plan_target source_id move_one_source target_id update_req u =
    let update : FnEntriesUpdate = record {
      source_id = source_id;
      target_id = target_id;
      entries = update_req.entries;
      mode = update_req.mode;
    } in
    let pending = set_erase target_id u.pending in
    if not (contains u.pending target_id)
    then (u, move_one_source)
    else if move_one_source
    then (
      record u {
        pending = pending;
        fn_delete = set_erase source_id u.fn_delete;
        fn_update_move = u.fn_update_move ++ (update ∷ []);
      },
      false,
    )
    else (
      record u { pending = pending; fn_update_copy = u.fn_update_copy ++ (update ∷ []) },
      move_one_source,
    )

-- The targets of one source.
unfoldable pub plan_targets : RawIdentifier → Bool → Assoc FnEntriesUpdateData → Updates → Updates
unfolding plan_target
plan_targets source_id move_one_source [] u = u
plan_targets source_id move_one_source ((target_id, update_req) ∷ targets) u =
    let next = plan_target source_id move_one_source target_id update_req u in
    plan_targets source_id next.1 targets next.0

unfoldable pub plan_updates : Assoc (Assoc FnEntriesUpdateData) → Updates → Updates
unfolding plan_targets
plan_updates [] u = u
plan_updates ((source_id, targets) ∷ sources) u =
    plan_updates sources (plan_targets source_id (contains u.fn_delete source_id) targets u)

unfoldable pub plan_creations : Assoc (List SingleEntry) → List RawIdentifier → List FnCreation
plan_creations fn_creations [] = []
plan_creations fn_creations (id ∷ ids) =
    record { entries = elim (find id fn_creations) [ none ↦ [] | some es ↦ es ]; id = id }
    ∷ plan_creations fn_creations ids

unfoldable pub drop_unchanged : Assoc SenChange → Assoc SenChange
drop_unchanged [] = []
drop_unchanged ((id, change) ∷ changes) =
    let rest = drop_unchanged changes in
    if is_zero change.ref_count_delta then rest else (id, change) ∷ rest

unfoldable pub plan_of : Assoc FullNode → UpdateRequests → Option UpdatePlan
unfolding to_be_created delete_candidates plan_updates plan_creations drop_unchanged
plan_of fns ur =
    delete_candidates fns ur.fn_deletion_candidates
      (record { fn_delete = []; fn_deltas = ur.fn_deltas })
    >>= λ d.
        let u = plan_updates ur.fn_update_entries (record {
          pending = to_be_created fns ur.fn_potentially_new;
          fn_delete = d.fn_delete;
          fn_update_copy = [];
          fn_update_move = [];
        }) in
        some (record {
          fn_create = plan_creations ur.fn_creations u.pending;
          fn_update_copy = u.fn_update_copy;
          fn_update_move = u.fn_update_move;
          fn_delete = u.fn_delete;
          fn_deltas = d.fn_deltas;
          sen_changes = drop_unchanged ur.sen_changes;
        })
