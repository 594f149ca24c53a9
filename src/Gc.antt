-- ===== src/Gc.antt =====
-- gc/allocations.go and gc/references.go with the namespaces of data/bucket_meta.go: what a build leaves
-- of removed allocations, and its removal. The statements succeed.
pub mod References
pub mod Orphans
pub mod Rows
mod Tests
use maand.Prelude.{
  String, Bool, true, false, not, ◌&&◌, ◌||◌, Option, none, some, List, [], ◌∷◌, ◌++◌, ◌==◌,
  comparable_String, comparable_pair, if◌then◌else◌, contains, add, Map, lookup, put,
}
use maand.Text.{concat_text}
use maand.Deploy.{HashTable, remove_allocation_hash}
use maand.Kv.{Store, purge_namespace}
use maand.Placement.{AllocationRow, AllocationTable}
use maand.Placement.Reenabled.{HashTables, hashes_of}
use maand.Rollout.{job_catalog_namespace}
use maand.Runtime.Access.{vars_job_namespace, secret_job_namespace}

pub record RemovedAllocation : Type 0 where
  pub worker_ip : String
  pub job : String

unfoldable pub list_removed_allocations : AllocationTable → List RemovedAllocation
list_removed_allocations [] = []
list_removed_allocations (((ip, job), row) ∷ t) =
    let rest = list_removed_allocations t in
    if row.removed then record { worker_ip = ip; job = job } ∷ rest else rest

-- The loop of purgeRemovedAllocations over the removed rows: the table hash.
unfoldable pub remove_hashes : AllocationTable → HashTables → HashTables
remove_hashes [] hashes = hashes
remove_hashes (((ip, job), row) ∷ t) hashes = remove_hashes t (
    if row.removed
    then put job (remove_allocation_hash row.alloc_id (hashes_of job hashes)) hashes
    else hashes)

-- `DELETE FROM allocations WHERE removed = 1`
unfoldable pub delete_removed : AllocationTable → AllocationTable
delete_removed [] = []
delete_removed ((key, row) ∷ t) =
    let rest = delete_removed t in if row.removed then rest else (key, row) ∷ rest

unfoldable pub purge_removed_allocations :
    AllocationTable → HashTables → AllocationTable × HashTables
unfolding remove_hashes delete_removed
purge_removed_allocations t hashes = (delete_removed t, remove_hashes t hashes)

abbrev pub allocation_namespace : RemovedAllocation → String
allocation_namespace a =
    concat_text "maand/job/" (concat_text a.job (concat_text "/worker/" a.worker_ip))

abbrev pub worker_namespace : String → String
worker_namespace ip = concat_text "maand/worker/" ip

abbrev pub worker_tags_namespace : String → String
worker_tags_namespace ip = concat_text "maand/worker/" (concat_text ip "/tags")

unfoldable pub build_job_kv_namespaces : String → List String
build_job_kv_namespaces job = job_catalog_namespace job ∷ concat_text "vars/bucket/job/" job ∷ []

unfoldable pub job_command_kv_namespaces : String → List String
job_command_kv_namespaces job = vars_job_namespace job ∷ secret_job_namespace job ∷ []

unfoldable pub job_kv_namespaces : String → List String
unfolding build_job_kv_namespaces job_command_kv_namespaces
job_kv_namespaces job = build_job_kv_namespaces job ++ job_command_kv_namespaces job

-- JobHasActiveAllocations
unfoldable pub job_has_active_allocations : String → AllocationTable → Bool
job_has_active_allocations job [] = false
job_has_active_allocations job (((ip, j), row) ∷ t) =
    (j == job && (not row.removed && not row.disabled)) || job_has_active_allocations job t

unfoldable pub purge_all : List String → Store → Store
purge_all [] s = s
purge_all (namespace ∷ namespaces) s = purge_all namespaces (purge_namespace namespace s)

-- The first loop of purgeRemovedAllocationReferences: the workers that are not in the catalog, and the
-- store.
unfoldable pub purge_allocations :
    List String → List RemovedAllocation → List String → Store → List String × Store
purge_allocations catalog [] off s = (off, s)
purge_allocations catalog (a ∷ allocs) off s =
    purge_allocations catalog allocs
      (if contains a.worker_ip catalog then off else add a.worker_ip off)
      (purge_namespace (allocation_namespace a) s)

unfoldable pub purge_workers : List String → Store → Store
purge_workers [] s = s
purge_workers (ip ∷ ips) s =
    purge_workers ips
      (purge_namespace (worker_tags_namespace ip) (purge_namespace (worker_namespace ip) s))

-- The loop of purgeRemovedJobNamespaces, with the jobs seen.
unfoldable pub purge_jobs : AllocationTable → List String → List RemovedAllocation → Store → Store
unfolding purge_all job_kv_namespaces job_has_active_allocations
purge_jobs t seen [] s = s
purge_jobs t seen (a ∷ allocs) s = purge_jobs t (add a.job seen) allocs (
    if contains a.job seen || job_has_active_allocations a.job t
    then s
    else purge_all (job_kv_namespaces a.job) s)

-- purgeRemovedAllocationReferences, before it persists the store
unfoldable pub purge_removed_allocation_references :
    List String → AllocationTable → List RemovedAllocation → Store → Store
unfolding purge_allocations purge_workers purge_jobs
purge_removed_allocation_references catalog t [] s = s
purge_removed_allocation_references catalog t (a ∷ allocs) s =
    let (off, s') = purge_allocations catalog (a ∷ allocs) [] s in
    purge_jobs t [] (a ∷ allocs) (purge_workers off s')
