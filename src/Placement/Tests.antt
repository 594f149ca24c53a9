-- ===== src/Placement/Tests.antt =====
-- A job with two selectors, a worker that has both labels and one that has one of them.
use maand.Utils.{unique, difference}
use maand.Placement.Counting.{all_in}
use maand.Prelude.{
  add, String, true, false, none, some, [], ◌∷◌, ◌≡◌, refl, comparable_String, comparable_pair,
  contains, lookup, put,
}
use maand.Text.{trim_space, equal_fold}
use maand.Placement.{
  labels_of, values_of, Catalog, DisabledAllocations, AllocationRow, AllocationTable, place,
  matching_jobs,
}
use maand.Placement.Matching.{some_fits, contains-matching_jobs}
use maand.Placement.Placed.{expected, place-expected}
use maand.Placement.Reenabled.{
  HashTables, build_allocations, is_start_pending, hashes_of, build-is_start_pending,
}

abbrev catalog : Catalog
catalog = record {
  jobs = record { job_id = "j1"; name = "web"; version = "1.2.0" } ∷ [];
  job_selectors = ("j1", "linux") ∷ ("j1", "gpu") ∷ [];
  workers =
      record { worker_id = "w1"; worker_ip = "10.0.0.1" }
      ∷ record { worker_id = "w2"; worker_ip = "10.0.0.2" }
      ∷ [];
  worker_labels = ("w1", "linux") ∷ ("w2", "linux") ∷ ("w1", "gpu") ∷ ("w1", "gpu") ∷ [];
}

abbrev old_row : String → AllocationRow
old_row id = record {
  alloc_id = id;
  disabled = true;
  removed = false;
  deployment_seq = 3;
  new_version = "1.1.0";
}

abbrev table : AllocationTable
table = (("10.0.0.1", "web"), old_row "a1") ∷ (("10.0.0.2", "web"), old_row "a2") ∷ []

abbrev nothing_disabled : DisabledAllocations
nothing_disabled = record { jobs = []; workers = [] }

abbrev no_hash : String → String
no_hash name = name

abbrev new_row : AllocationRow
new_row = record {
  alloc_id = "a1";
  disabled = false;
  removed = false;
  deployment_seq = 0;
  new_version = "1.2.0";
}

contains-matching_jobs_example :
    contains "web" (matching_jobs catalog "10.0.0.2")
    ≡ some_fits catalog "10.0.0.2" "web" catalog.jobs
contains-matching_jobs_example = contains-matching_jobs catalog "10.0.0.2" "web"

only_one_fits :
    (some_fits catalog "10.0.0.1" "web" catalog.jobs ≡ true)
    × (some_fits catalog "10.0.0.2" "web" catalog.jobs ≡ false)
unfolding some_fits values_of all_in contains labels_of
only_one_fits = (refl, refl)

place-expected_example :
    lookup ("10.0.0.2", "web") (place no_hash catalog nothing_disabled table)
    ≡ expected no_hash catalog nothing_disabled "10.0.0.2" "web" (lookup ("10.0.0.2", "web") table)
place-expected_example = place-expected no_hash catalog nothing_disabled "10.0.0.2" "web" table

web_placed :
    lookup ("10.0.0.1", "web") (place no_hash catalog nothing_disabled table) ≡ some new_row
unfolding place lookup difference unique contains add put trim_space equal_fold
web_placed = refl

first_row : lookup ("10.0.0.1", "web") table ≡ some (old_row "a1")
unfolding lookup
first_row = refl

abbrev hashes : HashTables
hashes =
    (
      "web",
      (
        "a1",
        record {
          current_hash = "h1";
          previous_hash = some "h1";
          current_files = none;
          previous_files = none;
          current_version = none;
        },
      )
          ∷ [],
    )
    ∷ []

built_row :
    lookup ("10.0.0.1", "web") (build_allocations no_hash catalog nothing_disabled table hashes).0
    ≡ some new_row
unfolding build_allocations
built_row = web_placed

build-is_start_pending_example :
    is_start_pending (
      lookup "a1"
        (hashes_of "web" (build_allocations no_hash catalog nothing_disabled table hashes).1))
    ≡ true
build-is_start_pending_example =
    build-is_start_pending no_hash catalog nothing_disabled table hashes "10.0.0.1" "web"
      (old_row "a1") new_row first_row refl built_row refl
