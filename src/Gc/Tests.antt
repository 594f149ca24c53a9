-- ===== src/Gc/Tests.antt =====
-- A removed allocation whose worker has left the catalog, and an active one.
use maand.Text.{concat_text}
use maand.Prelude.{
  String, Bool, true, false, none, some, [], ◌∷◌, ◌≡◌, refl, pos, comparable_String,
  comparable_pair, contains, Distinct, keys, lookup,
}
use maand.Kv.{Store, new_store, get, put_value}
use maand.Placement.{AllocationTable, AllocationRow}
use maand.Placement.Reenabled.{hashes_of}
use maand.Gc.{
  RemovedAllocation, list_removed_allocations, purge_removed_allocations,
  purge_removed_allocation_references, job_has_active_allocations,
}
use maand.Gc.Orphans.{without, some_removed}
use maand.Gc.References.{orphaned, get-purge_references}
use maand.Gc.Rows.{unless_removed, purge_removed-clean}

abbrev row : String → Bool → AllocationRow
row id gone = record {
  alloc_id = id;
  disabled = false;
  removed = gone;
  deployment_seq = 0;
  new_version = "1.0.0";
}

abbrev table : AllocationTable
table = (("10.0.0.9", "web"), row "a9" true) ∷ (("10.0.0.1", "db"), row "a1" false) ∷ []

abbrev removed_web : RemovedAllocation
removed_web = record { worker_ip = "10.0.0.9"; job = "web" }

lists_removed : list_removed_allocations table ≡ removed_web ∷ []
unfolding list_removed_allocations
lists_removed = refl

abbrev store : Store
store =
    put_value "vars/job/db" "a" "1" (pos 0) true
      (put_value "maand/job/web/worker/10.0.0.9" "b" "2" (pos 0) true new_store)

get-purge_references_example :
    get "maand/job/web/worker/10.0.0.9" "b"
      (purge_removed_allocation_references ("10.0.0.1" ∷ []) table (removed_web ∷ []) store)
    ≡ without
        (some_removed
          (orphaned table "maand/job/web/worker/10.0.0.9" ("10.0.0.1" ∷ []))
          (removed_web ∷ []))
        (get "maand/job/web/worker/10.0.0.9" "b" store)
get-purge_references_example =
    get-purge_references table "maand/job/web/worker/10.0.0.9" ("10.0.0.1" ∷ []) (removed_web ∷ [])
      "b" store

purges_worker :
    some_removed
      (orphaned table "maand/job/web/worker/10.0.0.9" ("10.0.0.1" ∷ []))
      (removed_web ∷ [])
    ≡ true
unfolding some_removed concat_text
purges_worker = refl

keys-Distinct : Distinct (keys table)
unfolding keys contains
keys-Distinct = (refl, (refl, tt))

purge_removed-clean_example :
    let (t', hashes') = purge_removed_allocations table [] in
    ((k : String × String) → lookup k t' ≡ unless_removed (lookup k table))
    × ((ip job : String) (row : AllocationRow)
        → lookup (ip, job) table ≡ some row
        → row.removed ≡ true
        → lookup row.alloc_id (hashes_of job hashes') ≡ none)
    × (list_removed_allocations t' ≡ [])
    × ((job : String) → job_has_active_allocations job t' ≡ job_has_active_allocations job table)
purge_removed-clean_example = purge_removed-clean table [] keys-Distinct
