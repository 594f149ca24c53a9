-- ===== src/Placement.antt =====
-- build/build_allocations.go: which jobs a worker gets. The tables are lists of rows, and the table
-- allocations is a map by its primary key, the worker and the job. The statements succeed.
pub mod Counting
pub mod Matching
pub mod Rows
pub mod Placed
pub mod Reenabled
mod Tests
use maand.Prelude.{
  ℕ, String, Bool, true, false, not, ◌&&◌, ◌||◌, Option, none, some, List, [], ◌∷◌, ◌++◌, ◌==◌,
  nat_beq, comparable_String, comparable_pair, if◌then◌else◌, contains, Map, lookup, put, length,
}
use maand.Text.{concat_text, is_empty, trim_space, equal_fold}
use maand.Utils.{unique, difference, keep_if, none_of}
use maand.Deploy.{HashTable, default_allocation_version, mark_allocation_start_pending}

pub record JobRow : Type 0 where
  pub job_id : String
  pub name : String
  pub version : String

pub record WorkerRow : Type 0 where
  pub worker_id : String
  pub worker_ip : String

-- The selectors by job_id and the labels by worker_id; the workers in the order of their positions.
pub record Catalog : Type 0 where
  pub jobs : List JobRow
  pub job_selectors : List (String × String)
  pub workers : List WorkerRow
  pub worker_labels : List (String × String)

pub record AllocationRow : Type 0 where
  pub alloc_id : String
  pub disabled : Bool
  pub removed : Bool
  pub deployment_seq : ℕ
  pub new_version : String

abbrev pub AllocationTable : Type 0
AllocationTable = Map (String × String) AllocationRow

-- workspace/disabled.json: jobs with the workers to disable them on, none for all, and whole workers.
pub record DisabledAllocations : Type 0 where
  pub jobs : Map String (List String)
  pub workers : List String

-- The values of the rows with a key.
unfoldable pub values_of : String → List (String × String) → List String
values_of key [] = []
values_of key ((k, value) ∷ rows) =
    let rest = values_of key rows in if k == key then value ∷ rest else rest

unfoldable pub all_values : List (String × String) → List String
all_values [] = []
all_values ((k, value) ∷ rows) = value ∷ all_values rows

-- `worker_labels wl_sub JOIN worker a ON wl_sub.worker_id = a.worker_id … a.worker_ip = ?`
unfoldable pub labels_of : String → List WorkerRow → List (String × String) → List String
unfolding values_of
labels_of ip [] rows = []
labels_of ip (w ∷ workers) rows =
    let rest = labels_of ip workers rows in
    if w.worker_ip == ip then values_of w.worker_id rows ++ rest else rest

unfoldable pub worker_ips : List WorkerRow → List String
worker_ips [] = []
worker_ips (w ∷ workers) = w.worker_ip ∷ worker_ips workers

-- `COUNT(DISTINCT …)`
abbrev pub count_distinct : List String → ℕ
count_distinct values = length (unique values)

-- The joins and the condition of matchingJobsByLabelsQuery, for the selectors of one job: some selector
-- is a label of some worker, and as many of them are labels of this worker as there are.
unfoldable pub selectors_match : List String → List String → List String → Bool
unfolding keep_if
selectors_match selectors all_labels labels =
    not (none_of (keep_if true all_labels selectors))
    && nat_beq (count_distinct selectors) (count_distinct (keep_if true selectors labels))

unfoldable pub matching_names : Catalog → String → List JobRow → List String
unfolding selectors_match values_of all_values labels_of
matching_names c ip [] = []
matching_names c ip (job ∷ jobs) =
    let rest = matching_names c ip jobs in
    if selectors_match (values_of job.job_id c.job_selectors) (all_values c.worker_labels)
      (labels_of ip c.workers c.worker_labels)
    then job.name ∷ rest
    else rest

-- matchingJobsByLabelsQuery
unfoldable pub matching_jobs : Catalog → String → List String
unfolding matching_names
matching_jobs c ip = unique (matching_names c ip c.jobs)

-- NormalizeDeployVersion
unfoldable pub normalize_deploy_version : String → String
normalize_deploy_version raw =
    if is_empty (trim_space raw) || equal_fold (trim_space raw) "unknown"
    then default_allocation_version
    else trim_space raw

-- `SELECT version FROM job WHERE name = ?`
unfoldable pub get_job_version : String → List JobRow → String
get_job_version name [] = ""
get_job_version name (job ∷ jobs) =
    let rest = get_job_version name jobs in if job.name == name then job.version else rest

-- TargetJobVersion, of a job that has a row
unfoldable pub target_job_version : Catalog → String → String
unfolding normalize_deploy_version get_job_version
target_job_version c job = normalize_deploy_version (get_job_version job c.jobs)

abbrev pub alloc_id_in : Option AllocationRow → String
alloc_id_in none = ""
alloc_id_in (some row) = row.alloc_id

-- The id of a worker's allocation of a job: the old one, or a hash of their names.
abbrev pub kept_id : (String → String) → String → String → Option AllocationRow → String
kept_id hash_uuid ip job row =
    if is_empty (alloc_id_in row)
    then hash_uuid (concat_text job (concat_text "|" ip))
    else alloc_id_in row

abbrev pub placed_row :
    (String → String) → Catalog → String → String → Option AllocationRow → AllocationRow
placed_row hash_uuid c ip job row = record {
  alloc_id = kept_id hash_uuid ip job row;
  disabled = false;
  removed = false;
  deployment_seq = 0;
  new_version = target_job_version c job;
}

-- The loop over the rows of the query, with its INSERT OR REPLACE.
unfoldable pub upsert_all :
    (String → String) → Catalog → String → List String → AllocationTable → AllocationTable
unfolding target_job_version
upsert_all hash_uuid c ip [] t = t
upsert_all hash_uuid c ip (job ∷ jobs) t =
    upsert_all hash_uuid c ip jobs
      (put (ip, job) (placed_row hash_uuid c ip job (lookup (ip, job) t)) t)

-- `UPDATE allocations SET … WHERE …`, with the condition on the key
unfoldable pub update_where :
    (String → String → Bool) → (AllocationRow → AllocationRow) → AllocationTable → AllocationTable
update_where p change [] = []
update_where p change (((ip, job), row) ∷ t) =
    ((ip, job), if p ip job then change row else row) ∷ update_where p change t

abbrev pub mark_removed : AllocationRow → AllocationRow
mark_removed row = record row { removed = true }

abbrev pub mark_disabled : AllocationRow → AllocationRow
mark_disabled row = record row { disabled = true }

-- GetAllocatedJobs
unfoldable pub get_allocated_jobs : String → AllocationTable → List String
get_allocated_jobs ip [] = []
get_allocated_jobs ip (((worker_ip, job), row) ∷ t) =
    let rest = get_allocated_jobs ip t in if worker_ip == ip then job ∷ rest else rest

unfoldable pub remove_jobs : String → List String → AllocationTable → AllocationTable
unfolding update_where
remove_jobs ip [] t = t
remove_jobs ip (name ∷ names) t =
    remove_jobs ip names (update_where (λ i j. j == name && i == ip) mark_removed t)

-- One round of the loop of BuildAllocations over the workers.
unfoldable pub place_worker :
    (String → String) → Catalog → String → AllocationTable → AllocationTable
unfolding upsert_all remove_jobs matching_jobs get_allocated_jobs
place_worker hash_uuid c ip t =
    let placed = upsert_all hash_uuid c ip (matching_jobs c ip) t in
    remove_jobs ip (difference (get_allocated_jobs ip placed) (matching_jobs c ip)) placed

unfoldable pub place_workers :
    (String → String) → Catalog → List String → AllocationTable → AllocationTable
unfolding place_worker
place_workers hash_uuid c [] t = t
place_workers hash_uuid c (ip ∷ ips) t =
    place_workers hash_uuid c ips (place_worker hash_uuid c ip t)

unfoldable pub disable_workers : List String → AllocationTable → AllocationTable
unfolding update_where
disable_workers [] t = t
disable_workers (ip ∷ ips) t = disable_workers ips (update_where (λ i j. i == ip) mark_disabled t)

unfoldable pub disable_on : String → List String → AllocationTable → AllocationTable
unfolding update_where
disable_on name [] t = t
disable_on name (ip ∷ ips) t =
    disable_on name ips (update_where (λ i j. j == name && i == ip) mark_disabled t)

abbrev pub disable_job : String → List String → AllocationTable → AllocationTable
disable_job name ips t =
    if none_of ips then update_where (λ i j. j == name) mark_disabled t else disable_on name ips t

unfoldable pub disable_jobs : Map String (List String) → AllocationTable → AllocationTable
unfolding disable_on
disable_jobs [] t = t
disable_jobs ((name, ips) ∷ jobs) t = disable_jobs jobs (disable_job name ips t)

-- BuildAllocations up to markReenabledAllocations: the table allocations.
unfoldable pub place :
    (String → String) → Catalog → DisabledAllocations → AllocationTable → AllocationTable
unfolding place_workers disable_workers disable_jobs worker_ips
place hash_uuid c config t =
    let ips = worker_ips c.workers in
    let placed = place_workers hash_uuid c ips t in
    let kept = update_where (λ i j. not (contains i ips)) mark_removed placed in
    disable_jobs config.jobs (disable_workers config.workers kept)
