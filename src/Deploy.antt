-- ===== src/Deploy.antt =====
-- data/hash_allocation.go, data/allocation_version.go and the queries of data/job.go and
-- deploy/rollout.go on them: what is staged and what is live on each allocation. Each statement is on
-- one namespace `<job>_allocation` of the table hash, so the table here is the rows of one namespace by
-- their key, the allocation's id. NULL is none. The statements succeed; encoded file manifests are
-- texts. The pair (job, worker) is a key of the table allocations, so a loop over the workers of a job
-- with GetAllocationID is one over its rows.
pub mod Needs
pub mod Promoted
pub mod Settled
mod Tests
use maand.Prelude.{
  String, Bool, true, false, not, ◌&&◌, ◌||◌, Option, none, some, List, [], ◌∷◌, ◌==◌,
  comparable_String, if◌then◌else◌, Map, lookup, put, delete,
}

pub record Allocation : Type 0 where
  pub alloc_id : String
  pub job : String
  pub worker_ip : String
  pub removed : Bool
  pub disabled : Bool
  pub new_version : Option String

pub record HashRow : Type 0 where
  pub current_hash : String
  pub previous_hash : Option String
  pub current_files : Option String
  pub previous_files : Option String
  pub current_version : Option String

abbrev pub HashTable : Type 0
HashTable = Map String HashRow

abbrev pub default_allocation_version : String
default_allocation_version = "0.0.0"

-- `ifnull(version, '0.0.0')`
abbrev pub or_default : Option String → String
or_default none = default_allocation_version
or_default (some version) = version

-- The INSERT and the UPDATE of UpdateAllocationPlan.
abbrev pub planned : String → String → Option HashRow → HashRow
planned hash files none = record {
  current_hash = hash;
  previous_hash = none;
  current_files = some files;
  previous_files = none;
  current_version = some default_allocation_version;
}
planned hash files (some row) = record row { current_hash = hash; current_files = some files }

unfoldable pub update_allocation_plan : String → String → String → HashTable → HashTable
update_allocation_plan key hash files t = put key (planned hash files (lookup key t)) t

-- `UPDATE hash SET … WHERE namespace = ? AND key = ?`
abbrev pub update_row : (HashRow → HashRow) → String → HashTable → HashTable
update_row change key t = elim (lookup key t) [ none ↦ t | some row ↦ put key (change row) t ]

-- `(SELECT new_version FROM allocations WHERE alloc_id = ?)`
unfoldable pub select_new_version : String → List Allocation → Option String
select_new_version key [] = none
select_new_version key (a ∷ allocations) =
    let rest = select_new_version key allocations in
    if a.alloc_id == key then a.new_version else rest

abbrev pub promoted : String → HashRow → HashRow
promoted version row = record row {
  previous_hash = some row.current_hash;
  previous_files = row.current_files;
  current_version = some version;
}

unfoldable pub promote_allocation_state : List Allocation → String → HashTable → HashTable
unfolding select_new_version
promote_allocation_state allocations key t =
    update_row (promoted (or_default (select_new_version key allocations))) key t

unfoldable pub mark_allocation_start_pending : String → HashTable → HashTable
mark_allocation_start_pending key t =
    update_row (λ row. record row { previous_hash = none; previous_files = none }) key t

unfoldable pub clear_allocation_live_state : String → HashTable → HashTable
clear_allocation_live_state key t =
    update_row
      (λ row. record row { previous_hash = none; previous_files = none; current_version = none })
      key t

unfoldable pub remove_allocation_hash : String → HashTable → HashTable
remove_allocation_hash key t = delete key t

-- The condition of GetNonRemovedAllocations.
abbrev pub non_removed : String → Allocation → Bool
non_removed job a = a.job == job && not a.removed

-- updateJobAllocationHashes and promoteAllocationHash, without the entries of the key-value store. The
-- tree of a worker's staged files has a hash and a manifest.
module _ (tree_hash tree_files : String → String) where
  unfoldable pub update_job_allocation_hashes : String → List Allocation → HashTable → HashTable
  update_job_allocation_hashes job [] t = t
  update_job_allocation_hashes job (a ∷ workers) t = update_job_allocation_hashes job workers (
      if non_removed job a
      then update_allocation_plan a.alloc_id (tree_hash a.worker_ip) (tree_files a.worker_ip) t
      else t)

unfoldable pub promote_allocation_hash :
    List Allocation → String → List Allocation → HashTable → HashTable
promote_allocation_hash allocations job [] t = t
promote_allocation_hash allocations job (a ∷ workers) t =
    promote_allocation_hash allocations job workers
      (if non_removed job a then promote_allocation_state allocations a.alloc_id t else t)

-- The joins of the queries, on one allocation and its row of hash.
abbrev pub is_new : Option HashRow → Bool
is_new none = false
is_new (some row) = elim row.previous_hash [ none ↦ true | some hash ↦ false ]

abbrev pub is_updated : Option HashRow → Bool
is_updated none = false
is_updated (some row) = elim row.previous_hash [
  | none ↦ false
  | some hash ↦ not (hash == row.current_hash)
]

abbrev pub running_version : Option HashRow → String
running_version none = default_allocation_version
running_version (some row) = or_default row.current_version

abbrev pub is_version_pending : Option String → Option HashRow → Bool
is_version_pending new_version row = not (running_version row == or_default new_version)

abbrev pub has_no_row : Option HashRow → Bool
has_no_row none = true
has_no_row (some row) = false

unfoldable pub workers_where : (Allocation → Bool) → List Allocation → List String
workers_where p [] = []
workers_where p (a ∷ allocations) =
    let rest = workers_where p allocations in if p a then a.worker_ip ∷ rest else rest

unfoldable pub get_new_allocations : String → List Allocation → HashTable → List String
get_new_allocations job allocations t =
    workers_where (λ a. is_new (lookup a.alloc_id t) && (non_removed job a && not a.disabled))
      allocations

unfoldable pub get_updated_non_removed_allocations :
    String → List Allocation → HashTable → List String
get_updated_non_removed_allocations job allocations t =
    workers_where (λ a. is_updated (lookup a.alloc_id t) && non_removed job a) allocations

unfoldable pub get_version_pending_non_removed_allocations :
    String → List Allocation → HashTable → List String
get_version_pending_non_removed_allocations job allocations t =
    workers_where (λ a. non_removed job a && is_version_pending a.new_version (lookup a.alloc_id t))
      allocations

-- The loop of JobNeedsRollout over the allocations.
unfoldable pub hash_row_missing : String → List Allocation → HashTable → Bool
hash_row_missing job [] t = false
hash_row_missing job (a ∷ allocations) t =
    let rest = hash_row_missing job allocations t in
    if non_removed job a && has_no_row (lookup a.alloc_id t) then true else rest

abbrev pub some_workers : List String → Bool
some_workers [] = false
some_workers (worker ∷ workers) = true

-- JobNeedsRollout
unfoldable pub job_needs_rollout : String → List Allocation → HashTable → Bool
unfolding hash_row_missing get_new_allocations get_updated_non_removed_allocations
    get_version_pending_non_removed_allocations
job_needs_rollout job allocations t =
    if hash_row_missing job allocations t
    then true
    else if some_workers (get_new_allocations job allocations t)
    then true
    else if some_workers (get_updated_non_removed_allocations job allocations t)
    then true
    else some_workers (get_version_pending_non_removed_allocations job allocations t)
