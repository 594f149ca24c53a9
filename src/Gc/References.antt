-- ===== src/Gc/References.antt =====
-- What is left in the store after purgeRemovedAllocationReferences of gc/references.go.
use maand.Prelude.{
  String, Bool, true, false, not, ◌&&◌, ◌||◌, List, [], ◌∷◌, ◌≡◌, refl, ap, ◌∙◌, arith, ◌==◌,
  ==_iff, comparable_String, if◌then◌else◌, contains, add, contains-add,
}
use maand.Kv.{Store, get}
use maand.Placement.{AllocationTable}
use maand.Gc.{
  RemovedAllocation, allocation_namespace, job_kv_namespaces, job_has_active_allocations, purge_all,
  purge_allocations, purge_workers, purge_jobs, purge_removed_allocation_references,
}
use maand.Gc.Orphans.{
  without, without_twice, get-purge_all, some_removed, worker_has, get-purge_workers,
  get-purge_allocations, off_workers, no_text,
}

by_kind :
    (p q r ps qs rs : Bool)
    → (((p || ps) || (q || qs)) || (r || rs)) ≡ ((p || q || r) || ((ps || qs) || rs))
by_kind true q r ps qs rs = refl
by_kind false true r ps qs rs = ground arith
by_kind false false r ps qs rs = ground arith

module _ (t : AllocationTable) (m : String) where
  -- A namespace of a job that has no active allocation.
  unfoldable pub job_orphaned : String → Bool
  job_orphaned job = not (job_has_active_allocations job t) && contains m (job_kv_namespaces job)

  abbrev new_job : List String → RemovedAllocation → Bool
  new_job seen a = not (contains a.job seen) && job_orphaned a.job

  -- A job that has been seen adds nothing to what it has added.
  seen_before :
      (job : String) (seen : List String) (allocs : List RemovedAllocation)
      → let own = not (contains job seen) && job_orphaned job in
        (own || some_removed (new_job (add job seen)) allocs)
        ≡ (own || some_removed (new_job seen) allocs)
  unfolding some_removed
  seen_before job seen [] = refl
  seen_before job seen (a ∷ allocs) = ground (
    arith,
    seen_before job seen allocs,
    contains-add job a.job seen,
    ==_iff a.job job,
    λ (p : a.job ≡ job). ap (λ (x : String). contains x seen) p,
    λ (p : a.job ≡ job). ap job_orphaned p,
  )

  get-job :
      (job k : String) (seen : List String) (s : Store)
      → get m k (
          if contains job seen || job_has_active_allocations job t
          then s
          else purge_all (job_kv_namespaces job) s)
        ≡ without (not (contains job seen) && job_orphaned job) (get m k s)
  unfolding job_orphaned
  get-job job k seen s = split (contains job seen) (job_has_active_allocations job t)
    where
      split :
          (x y : Bool)
          → get m k (if x || y then s else purge_all (job_kv_namespaces job) s)
            ≡ without (not x && (not y && contains m (job_kv_namespaces job))) (get m k s)
      split true y = refl
      split false true = refl
      split false false = get-purge_all (job_kv_namespaces job) m k s

  get-purge_jobs :
      (k : String) (seen : List String) (allocs : List RemovedAllocation) (s : Store)
      → get m k (purge_jobs t seen allocs s)
        ≡ without (some_removed (new_job seen) allocs) (get m k s)
  unfolding purge_jobs some_removed
  get-purge_jobs k seen [] s = refl
  get-purge_jobs k seen (a ∷ allocs) s =
      let own = new_job seen a in
      get-purge_jobs k (add a.job seen) allocs _
      ∙ ap (without (some_removed (new_job (add a.job seen)) allocs)) (get-job a.job k seen s)
      ∙ without_twice (some_removed (new_job (add a.job seen)) allocs) own (get m k s)
      ∙ ap (λ b. without b (get m k s)) (seen_before a.job seen allocs)

  -- A namespace of a removed allocation, of its worker if that left the catalog, or of its job if that
  -- has no active allocation.
  abbrev pub orphaned : List String → RemovedAllocation → Bool
  orphaned catalog a =
      m == allocation_namespace a
      || (not (contains a.worker_ip catalog) && worker_has m a.worker_ip)
      || job_orphaned a.job

  orphaned_parts :
      (catalog : List String) (allocs : List RemovedAllocation)
      → ((some_removed (λ a. m == allocation_namespace a) allocs
            || some_removed
                (λ a. not (contains a.worker_ip catalog) && worker_has m a.worker_ip)
                allocs)
          || some_removed (new_job []) allocs)
        ≡ some_removed (orphaned catalog) allocs
  unfolding some_removed contains
  orphaned_parts catalog [] = refl
  orphaned_parts catalog (a ∷ allocs) =
      by_kind (m == allocation_namespace a)
        (not (contains a.worker_ip catalog) && worker_has m a.worker_ip) (job_orphaned a.job)
        (some_removed (λ a. m == allocation_namespace a) allocs)
        (some_removed (λ a. not (contains a.worker_ip catalog) && worker_has m a.worker_ip) allocs)
        (some_removed (new_job []) allocs)
      ∙ ap (λ b. orphaned catalog a || b) (orphaned_parts catalog allocs)

  -- After the purge of removed allocations a key is not found if its namespace is one of a removed
  -- allocation, one of its worker where that is not in the catalog, or one of its job where the job has
  -- no active allocation; any other key is found as before.
  pub get-purge_references :
      (catalog : List String) (allocs : List RemovedAllocation) (k : String) (s : Store)
      → get m k (purge_removed_allocation_references catalog t allocs s)
        ≡ without (some_removed (orphaned catalog) allocs) (get m k s)
  unfolding purge_removed_allocation_references
  get-purge_references catalog [] k s = unfold some_removed in refl
  get-purge_references catalog (a ∷ allocs) k s =
      let all = a ∷ allocs in
      let first = purge_allocations catalog all [] s in
      let here = some_removed (λ a. m == allocation_namespace a) all in
      let away =
        some_removed (λ a. not (contains a.worker_ip catalog) && worker_has m a.worker_ip) all in
      let jobs = some_removed (new_job []) all in
      get-purge_jobs k [] all (purge_workers first.0 first.1)
      ∙ ap (without jobs) (
          get-purge_workers first.0 m k first.1
          ∙ ap (λ b. without b (get m k first.1))
              (off_workers (worker_has m) catalog all [] s ∙ no_text (worker_has m) away)
          ∙ ap (without away) (get-purge_allocations catalog all [] m k s)
          ∙ without_twice away here (get m k s))
      ∙ without_twice jobs (here || away) (get m k s)
      ∙ ap (λ b. without b (get m k s)) (orphaned_parts catalog all)
