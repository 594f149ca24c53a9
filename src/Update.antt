-- ===== src/Update.antt =====
-- handleUpdatedAllocations of deploy/allocations.go and handleUpdatedAllocationsWithPolicy of
-- deploy/allocations_lifecycle.go: which live allocations of a job are restarted, which are reloaded,
-- and in which order. They are on the rows of Deploy, the decision of Policy and the batches of
-- Rollout. The policy and the globs are those of the job's row, and a look-up in the table hash gives
-- none where there is no row. Whether a read of the loops succeeds is a parameter, by what is read; the
-- reads before the loops succeed. What encoding/json makes of the text of a manifest is a parameter.
pub mod Chosen
pub mod Agree
pub mod Ran
mod Tests
use maand.Prelude.{
  String, Bool, true, false, not, ◌&&◌, Option, none, some, List, [], ◌∷◌, ◌++◌, ◌==◌,
  comparable_String, if◌then◌else◌, Map, lookup, put, Result, ok, err, ◌>>=◌,
}
use maand.Text.{is_empty}
use maand.Utils.{none_of, unique, difference}
use maand.Placement.{normalize_deploy_version}
use maand.Deploy.{
  Allocation, HashRow, HashTable, default_allocation_version, select_new_version, non_removed,
  is_updated, is_version_pending, workers_where, get_new_allocations,
}
use maand.Policy.{
  FileManifest, rollout_action_sync, rollout_action_restart, rollout_action_reload,
  resolve_update_action,
}
use maand.Rollout.Steps.{Event, Outcome, finished, Queries, rollout_restart_batches}

pub data UpdateError : Type 0 where
  no_allocation bad_manifest database_error : UpdateError

-- The reads of the loops, by the worker or by the allocation's id.
pub data Read : Type 0 where
  read_allocation_id read_hash read_versions read_files : String → Read

abbrev pub answered : Bool → Result UpdateError (Unit {0})
answered true = ok tt
answered false = err database_error

-- `a.job = ? AND a.removed = 0 AND a.disabled = 0`
abbrev pub is_active : String → Allocation → Bool
is_active job a = non_removed job a && not a.disabled

unfoldable pub get_updated_allocations : String → List Allocation → HashTable → List String
get_updated_allocations job allocations t =
    workers_where (λ a. is_updated (lookup a.alloc_id t) && is_active job a) allocations

unfoldable pub get_version_pending_allocations : String → List Allocation → HashTable → List String
get_version_pending_allocations job allocations t =
    workers_where (λ a. is_active job a && is_version_pending a.new_version (lookup a.alloc_id t))
      allocations

unfoldable pub get_active_allocations : String → List Allocation → List String
get_active_allocations job allocations = workers_where (is_active job) allocations

unfoldable pub allocations_needing_restart :
    Bool → String → List Allocation → HashTable → List String
unfolding get_updated_allocations get_version_pending_allocations get_active_allocations
allocations_needing_restart force job allocations t =
    let new_allocations = get_new_allocations job allocations t in
    if force
    then difference (get_active_allocations job allocations) new_allocations
    else difference
        (unique (
          get_updated_allocations job allocations t
          ++ get_version_pending_allocations job allocations t))
        new_allocations

unfoldable pub get_allocation_id : String → String → List Allocation → Result UpdateError String
get_allocation_id worker_ip job [] = err no_allocation
get_allocation_id worker_ip job (a ∷ allocations) =
    let rest = get_allocation_id worker_ip job allocations in
    if a.job == job && a.worker_ip == worker_ip then ok a.alloc_id else rest

-- `ifnull(previous_hash, '')`
abbrev pub or_empty : Option String → String
or_empty none = ""
or_empty (some hash) = hash

-- GetAllocationHash: the current hash, the previous one, and whether there is a row.
abbrev pub get_allocation_hash : Option HashRow → String × String × Bool
get_allocation_hash none = ("", "", false)
get_allocation_hash (some row) = (row.current_hash, or_empty row.previous_hash, true)

abbrev pub normalize_stored_version : Option String → String
normalize_stored_version none = default_allocation_version
normalize_stored_version (some value) = normalize_deploy_version value

-- `ifnull(h.current_version, '')`, which the version is read from; no row is NULL.
abbrev pub stored_version : Option HashRow → Option String
stored_version none = none
stored_version (some row) = some (or_empty row.current_version)

unfoldable pub allocation_needs_version_rollout : String → List Allocation → Option HashRow → Bool
unfolding select_new_version
allocation_needs_version_rollout alloc_id allocations row = not (
    normalize_stored_version (stored_version row)
    == normalize_stored_version (select_new_version alloc_id allocations))

pub record AllocationFileManifests : Type 0 where
  pub current : FileManifest
  pub previous : FileManifest
  pub has_current_files : Bool
  pub has_previous_files : Bool

pub record Split : Type 0 where
  pub restart_workers : List String
  pub reload_workers : List String

abbrev pub add_worker : String → String → Split → Split
add_worker action worker_ip s =
    if action == rollout_action_sync
    then s
    else if action == rollout_action_restart
    then record s { restart_workers = worker_ip ∷ s.restart_workers }
    else record s { reload_workers = worker_ip ∷ s.reload_workers }

-- `byAction[action] = append(byAction[action], workerIP)`
abbrev pub or_none : Option (List String) → List String
or_none none = []
or_none (some workers) = workers

abbrev pub append_worker : String → String → Map String (List String) → Map String (List String)
append_worker action worker_ip by_action =
    put action (or_none (lookup action by_action) ++ worker_ip ∷ []) by_action

-- The condition of handleUpdatedAllocations and the reasons of allocationRolloutReason, where `force`
-- makes no difference.
abbrev pub hash_changed : Option HashRow → Bool
hash_changed row =
    let (current, previous, found) = get_allocation_hash row in
    found && (not (is_empty previous) && not (previous == current))

unfoldable pub allocation_rollout_reason :
    (Read → Bool)
    → String
    → List Allocation
    → Option HashRow
    → Bool
    → Result UpdateError (Bool × Bool)
unfolding allocation_needs_version_rollout
allocation_rollout_reason reads alloc_id allocations row force =
    let (current, previous, found) = get_allocation_hash row in
    answered (reads (read_hash alloc_id)) >>= λ _.
    if found && (not (is_empty previous) && not (current == previous))
    then ok (true, false)
    else answered (reads (read_versions alloc_id)) >>= λ _. ok (
        if allocation_needs_version_rollout alloc_id allocations row
        then (false, true)
        else if force
        then (false, false)
        else (false, false))

module _ (decode : String → Result UpdateError FileManifest) where
  -- ParseFileManifest
  unfoldable pub parse_file_manifest : Option String → Result UpdateError (FileManifest × Bool)
  parse_file_manifest none = ok ([], false)
  parse_file_manifest (some raw) =
      if is_empty raw then ok ([], false) else decode raw >>= λ manifest. ok (manifest, true)

  unfoldable pub get_allocation_file_manifests :
      Option HashRow → Result UpdateError AllocationFileManifests
  unfolding parse_file_manifest
  get_allocation_file_manifests none = ok (record {
    current = [];
    previous = [];
    has_current_files = false;
    has_previous_files = false;
  })
  get_allocation_file_manifests (some row) =
      parse_file_manifest row.current_files >>= λ (current, has_current).
      parse_file_manifest row.previous_files >>= λ (previous, has_previous). ok (record {
        current = current;
        previous = previous;
        has_current_files = has_current;
        has_previous_files = has_previous;
      })

  module _ (reads : Read → Bool) (sync_only : Bool) (policy : String) (globs : List String)
      (job : String) (allocations : List Allocation) (t : HashTable) where
    -- GetAllocationID, whose statement may fail.
    unfoldable pub find_allocation_id : String → Result UpdateError String
    unfolding get_allocation_id
    find_allocation_id worker_ip = answered (reads (read_allocation_id worker_ip)) >>= λ _.
        get_allocation_id worker_ip job allocations

    unfoldable pub find_file_manifests : String → Result UpdateError AllocationFileManifests
    unfolding get_allocation_file_manifests
    find_file_manifests alloc_id = answered (reads (read_files alloc_id)) >>= λ _.
        get_allocation_file_manifests (lookup alloc_id t)

    -- resolveAllocationLifecycle
    unfoldable pub resolve_allocation_lifecycle :
        String → Bool → Bool → Result UpdateError (String × List String)
    unfolding find_allocation_id find_file_manifests
    resolve_allocation_lifecycle worker_ip changed version_only =
        find_allocation_id worker_ip >>= λ alloc_id. find_file_manifests alloc_id >>= λ manifests.
        ok (
          resolve_update_action sync_only policy globs manifests.previous manifests.current changed
            version_only (not manifests.has_previous_files))

    -- The body of the loop of handleUpdatedAllocations, up to the action.
    unfoldable pub update_action : String → Result UpdateError String
    unfolding find_allocation_id allocation_needs_version_rollout find_file_manifests
    update_action worker_ip = find_allocation_id worker_ip >>= λ alloc_id.
        let row = lookup alloc_id t in
        let changed = hash_changed row in
        let version_only =
          allocation_needs_version_rollout alloc_id allocations row && not changed in
        answered (reads (read_hash alloc_id)) >>= λ _.
        answered (reads (read_versions alloc_id)) >>= λ _.
        find_file_manifests alloc_id >>= λ manifests. ok (
          (resolve_update_action sync_only policy globs manifests.previous manifests.current changed
            version_only (not manifests.has_previous_files)).0)

    -- The loop of handleUpdatedAllocations.
    unfoldable pub split_workers : List String → Result UpdateError Split
    unfolding update_action
    split_workers [] = ok (record { restart_workers = []; reload_workers = [] })
    split_workers (worker_ip ∷ workers) =
        let rest = split_workers workers in
        update_action worker_ip >>= λ action. rest >>= λ s. ok (add_worker action worker_ip s)

    -- The body of the loop of handleUpdatedAllocationsWithPolicy, up to the action.
    unfoldable pub lifecycle_action : Bool → String → Result UpdateError String
    unfolding resolve_allocation_lifecycle allocation_rollout_reason
    lifecycle_action force worker_ip = find_allocation_id worker_ip >>= λ alloc_id.
        allocation_rollout_reason reads alloc_id allocations (lookup alloc_id t) force
        >>= λ (changed, version_only).
            resolve_allocation_lifecycle worker_ip changed version_only >>= λ (action, paths).
            ok action

    -- The loop of handleUpdatedAllocationsWithPolicy.
    unfoldable pub by_actions :
        Bool
        → Map String (List String)
        → List String
        → Result UpdateError (Map String (List String))
    unfolding lifecycle_action
    by_actions force by_action [] = ok by_action
    by_actions force by_action (worker_ip ∷ workers) =
        lifecycle_action force worker_ip >>= λ action. elim (action == rollout_action_sync) [
          | true ↦ by_actions force by_action workers
          | false ↦ by_actions force (append_worker action worker_ip by_action) workers
        ]

-- What has been done to the workers, and how it ended.
pub record Handled : Type 0 where
  pub reloads : List Event
  pub restarts : List Event
  pub outcome : Outcome

-- The rollouts with the commands reload and restart. Whether an event succeeds may depend on all that has
-- been done, and the answers of the database on the rollout.
module _ {E : Type 0} (succeeds : List Event → List Event → Bool) (db : String → Queries E)
    (job : String) where
  unfoldable pub roll_out : String → List Event → List String → List Event × Outcome
  unfolding rollout_restart_batches
  roll_out action before workers =
      if none_of workers
      then ([], finished)
      else rollout_restart_batches (succeeds before) (db action) job workers

  unfoldable pub then_restart : List String → List Event × Outcome → Handled
  unfolding roll_out
  then_restart workers (reloads, finished) =
      let (restarts, outcome) = roll_out rollout_action_restart reloads workers in
      record { reloads = reloads; restarts = restarts; outcome = outcome }
  then_restart workers (reloads, failure) = record {
    reloads = reloads;
    restarts = [];
    outcome = failure;
  }

  unfoldable pub reload_and_restart : Split → Handled
  unfolding then_restart
  reload_and_restart s =
      then_restart s.restart_workers (roll_out rollout_action_reload [] s.reload_workers)

  unfoldable pub handle_updated_allocations :
      (String → Result UpdateError FileManifest)
      → (Read → Bool)
      → Bool
      → Bool
      → String
      → List String
      → List Allocation
      → HashTable
      → Result UpdateError Handled
  unfolding allocations_needing_restart split_workers reload_and_restart
  handle_updated_allocations decode reads force sync_only policy globs allocations t =
      let updated = allocations_needing_restart force job allocations t in
      if none_of updated
      then ok (record { reloads = []; restarts = []; outcome = finished })
      else split_workers decode reads sync_only policy globs job allocations t updated >>= λ s.
          ok (reload_and_restart s)
