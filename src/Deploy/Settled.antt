-- ===== src/Deploy/Settled.antt =====
-- A whole deploy of a job: updateJobAllocationHashes and then promoteAllocationHash of
-- deploy/hashes.go, and JobNeedsRollout of deploy/rollout.go behind them.
use maand.Prelude.{
  String, true, false, Option, none, some, List, [], ◌∷◌, ◌≡◌, refl, ◌∙◌, arith, ==_iff, ==_refl,
  comparable_String, lookup, contains, Distinct, Bool-cases, inl, inr,
}
use maand.Deploy.{
  Allocation, HashRow, HashTable, or_default, update_allocation_plan, select_new_version,
  non_removed, update_job_allocation_hashes, promote_allocation_hash, has_no_row, job_needs_rollout,
}
use maand.Deploy.Needs.{allocation_pending, some_pending, job_needs_rollout-some_pending}
use maand.Deploy.Promoted.{is_live, plan-has_row, rows_exist, rows_live, promote_all-rows_live}

unfoldable pub ids : List Allocation → List String
ids [] = []
ids (a ∷ allocations) = a.alloc_id ∷ ids allocations

plan-keeps_row :
    (key hash files k : String) (t : HashTable)
    → has_no_row (lookup k t) ≡ false
    → has_no_row (lookup k (update_allocation_plan key hash files t)) ≡ false
plan-keeps_row key hash files k t there = plan-has_row key hash files k t (ground (arith, there))

module _ (tree_hash tree_files : String → String) (job : String) where
  abbrev hashes : List Allocation → HashTable → HashTable
  hashes workers t = update_job_allocation_hashes tree_hash tree_files job workers t

  hashes-keeps_row :
      (workers : List Allocation) (k : String) (t : HashTable)
      → has_no_row (lookup k t) ≡ false
      → has_no_row (lookup k (hashes workers t)) ≡ false
  unfolding update_job_allocation_hashes
  hashes-keeps_row [] k t there = there
  hashes-keeps_row (a ∷ workers) k t there = elim (Bool-cases (non_removed job a)) [
    | inl on ↦ rw on (
        hashes-keeps_row workers k _
          (plan-keeps_row a.alloc_id (tree_hash a.worker_ip) (tree_files a.worker_ip) k t there))
    | inr off ↦ rw off (hashes-keeps_row workers k t there)
  ]

  hashes-rows_exist :
      (workers : List Allocation) (t : HashTable) → rows_exist job workers (hashes workers t) ≡ true
  unfolding update_job_allocation_hashes rows_exist
  hashes-rows_exist [] t = refl
  hashes-rows_exist (a ∷ workers) t = elim (Bool-cases (non_removed job a)) [
    | inr off ↦ rw off (hashes-rows_exist workers t)
    | inl on ↦
        let t' =
          update_allocation_plan a.alloc_id (tree_hash a.worker_ip) (tree_files a.worker_ip) t in
        let there = hashes-keeps_row workers a.alloc_id t' (
          plan-has_row a.alloc_id (tree_hash a.worker_ip) (tree_files a.worker_ip) a.alloc_id t
            (rw (==_refl a.alloc_id) refl)) in
        rw on (rw there (hashes-rows_exist workers t'))
  ]

live_is_settled :
    (a : Allocation) (row : Option HashRow)
    → is_live (or_default a.new_version) row ≡ true
    → allocation_pending a row ≡ false
live_is_settled a none h = absurd (cc)
live_is_settled a (some row) h = ground (arith, h)

-- The subquery of PromoteAllocationState finds the allocation's own target.
OwnVersion : List Allocation → List Allocation → Type 0
OwnVersion allocations [] = Unit
OwnVersion allocations (a ∷ workers) =
    (select_new_version a.alloc_id allocations ≡ a.new_version) × OwnVersion allocations workers

OwnVersion-cons :
    (b : Allocation) (allocations workers : List Allocation)
    → contains b.alloc_id (ids workers) ≡ false
    → OwnVersion allocations workers
    → OwnVersion (b ∷ allocations) workers
unfolding OwnVersion ids contains select_new_version
OwnVersion-cons b allocations [] fresh h = tt
OwnVersion-cons b allocations (a ∷ workers) fresh h = (
  ground (arith, fresh, h.0, ==_iff b.alloc_id a.alloc_id),
  OwnVersion-cons b allocations workers (ground (arith, fresh)) h.1,
)

OwnVersion-all :
    (allocations : List Allocation)
    → Distinct (ids allocations)
    → OwnVersion allocations allocations
unfolding OwnVersion ids select_new_version
OwnVersion-all [] d = tt
OwnVersion-all (a ∷ allocations) d = (
  rw (==_refl a.alloc_id) refl,
  OwnVersion-cons a allocations allocations d.0 (OwnVersion-all allocations d.1),
)

rows_live-settled :
    (allocations : List Allocation) (job : String) (workers : List Allocation) (t : HashTable)
    → OwnVersion allocations workers
    → rows_live allocations job workers t ≡ true
    → some_pending job workers t ≡ false
unfolding OwnVersion rows_live some_pending
rows_live-settled allocations job [] t own h = refl
rows_live-settled allocations job (a ∷ workers) t own h = ground (
  arith,
  rw own.0 at h,
  live_is_settled a (lookup a.alloc_id t),
  rows_live-settled allocations job workers t own.1,
)

-- Whatever was staged and live before: once a deploy has staged the allocations of a job and promoted
-- them, the job needs no rollout. The ids of the allocations are the key of their table.
pub deployed_needs_no_rollout :
    (tree_hash tree_files : String → String) (job : String) (allocations : List Allocation)
    (t : HashTable)
    → Distinct (ids allocations)
    → job_needs_rollout job allocations (
        promote_allocation_hash allocations job allocations
          (update_job_allocation_hashes tree_hash tree_files job allocations t))
      ≡ false
deployed_needs_no_rollout tree_hash tree_files job allocations t d =
    let staged = update_job_allocation_hashes tree_hash tree_files job allocations t in
    job_needs_rollout-some_pending job allocations
      (promote_allocation_hash allocations job allocations staged)
    ∙ rows_live-settled allocations job allocations
        (promote_allocation_hash allocations job allocations staged) (OwnVersion-all allocations d)
        (promote_all-rows_live allocations job allocations staged
          (hashes-rows_exist tree_hash tree_files job allocations t))
