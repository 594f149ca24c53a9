-- ===== src/Deploy/Tests.antt =====
-- Two allocations of a job, one of them new.
use maand.Prelude.{
  true, false, none, some, List, [], ◌∷◌, ◌≡◌, ◌↔◌, refl, comparable_String, lookup, put, contains,
  Distinct,
}
use maand.Deploy.{
  Allocation, HashTable, workers_where, hash_row_missing, get_new_allocations, job_needs_rollout,
  update_allocation_plan, update_job_allocation_hashes, promote_allocation_hash,
  promote_allocation_state, clear_allocation_live_state, select_new_version,
}
use maand.Deploy.Needs.{SomePending, job_needs_rollout-SomePending}
use maand.Deploy.Settled.{ids, deployed_needs_no_rollout}

abbrev allocations : List Allocation
allocations =
    record {
      alloc_id = "a1";
      job = "web";
      worker_ip = "10.0.0.1";
      removed = false;
      disabled = false;
      new_version = some "1.2.0";
    }
    ∷ record {
      alloc_id = "a2";
      job = "web";
      worker_ip = "10.0.0.2";
      removed = false;
      disabled = true;
      new_version = none;
    }
    ∷ []

abbrev table : HashTable
table =
    (
      "a1",
      record {
        current_hash = "h2";
        previous_hash = some "h1";
        current_files = none;
        previous_files = none;
        current_version = some "1.1.0";
      },
    )
    ∷ []

needs_rollout : job_needs_rollout "web" allocations table ≡ true
unfolding job_needs_rollout hash_row_missing lookup
needs_rollout = refl

job_needs_rollout-SomePending_example :
    (job_needs_rollout "web" allocations table ≡ true) ↔ SomePending "web" allocations table
job_needs_rollout-SomePending_example = job_needs_rollout-SomePending "web" allocations table

Distinct-ids : Distinct (ids allocations)
unfolding ids contains
Distinct-ids = (refl, (refl, tt))

deployed_needs_no_rollout_example :
    job_needs_rollout "web" allocations (
      promote_allocation_hash allocations "web" allocations
        (update_job_allocation_hashes (λ ip. "h3") (λ ip. "{}") "web" allocations table))
    ≡ false
deployed_needs_no_rollout_example =
    deployed_needs_no_rollout (λ ip. "h3") (λ ip. "{}") "web" allocations table Distinct-ids

-- An allocation whose live state is cleared is pending again.
cleared_pending :
    job_needs_rollout "web" allocations (
      clear_allocation_live_state "a1" (
        promote_allocation_hash allocations "web" allocations
          (update_job_allocation_hashes (λ ip. "h3") (λ ip. "{}") "web" allocations table)))
    ≡ true
unfolding job_needs_rollout hash_row_missing lookup clear_allocation_live_state put
    promote_allocation_hash update_job_allocation_hashes update_allocation_plan
    promote_allocation_state select_new_version workers_where get_new_allocations
cleared_pending = refl
