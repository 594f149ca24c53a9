-- ===== src/Update/Tests.antt =====
-- A job with a changed configuration on one worker, a changed program on a second and a new allocation on
-- a third.
use maand.Glob.{match_any}
use maand.Text.Search.{contains_text, has_suffix, trim_suffix}
use maand.Text.{trim_prefix, trim_space, concat_text, has_prefix}
use maand.Prelude.{
  String, Bool, true, false, Option, none, some, List, [], ◌∷◌, ◌≡◌, refl, ◌==◌, comparable_String,
  contains, Distinct, lookup, ℤ, pos, Result, ok, err, ◌>>=◌, if◌then◌else◌,
}
use maand.Deploy.{Allocation, HashRow, HashTable}
use maand.Policy.{
  resolve_update_action, FileManifest, rollout_action_restart, rollout_action_reload,
}
use maand.Rollout.{ResolvedRolloutOrder, from_default}
use maand.Rollout.Steps.{Event}
use maand.Update.{
  UpdateError, Read, read_versions, database_error, update_action, lifecycle_action, bad_manifest,
  Split, allocations_needing_restart, split_workers, by_actions, reload_and_restart,
  handle_updated_allocations,
}
use maand.Update.Chosen.{
  row_of, holds, job_workers, needs_restart, allocations_needing_restart-row_of,
}
use maand.Update.Agree.{by_actions-split_workers}
use maand.Update.Ran.{answers, Ran, handle_updated_allocations-Ran}

abbrev allocation : String → String → Allocation
allocation alloc_id worker_ip = record {
  alloc_id = alloc_id;
  job = "web";
  worker_ip = worker_ip;
  removed = false;
  disabled = false;
  new_version = some "1.0.0";
}

abbrev allocations : List Allocation
allocations =
    allocation "a1" "10.0.0.1" ∷ allocation "a2" "10.0.0.2" ∷ allocation "a3" "10.0.0.3" ∷ []

abbrev live : String → HashRow
live files = record {
  current_hash = "h2";
  previous_hash = some "h1";
  current_files = some files;
  previous_files = some "0";
  current_version = some "1.0.0";
}

abbrev table : HashTable
table =
    ("a1", live "1")
    ∷ ("a2", live "2")
    ∷ (
      "a3",
      record (live "1") { previous_hash = none; previous_files = none; current_version = none },
    )
    ∷ []

-- The configuration, or the program, with another hash than in the manifest "0".
abbrev decode : String → Result UpdateError FileManifest
decode raw =
    if raw == "0"
    then ok (("app.toml", "1") ∷ ("bin/app", "1") ∷ [])
    else if raw == "1"
    then ok (("app.toml", "2") ∷ ("bin/app", "1") ∷ [])
    else if raw == "2"
    then ok (("app.toml", "1") ∷ ("bin/app", "2") ∷ [])
    else err bad_manifest

abbrev globs : List String
globs = "bin/**" ∷ []

abbrev chosen : Split
chosen = record { restart_workers = "10.0.0.2" ∷ []; reload_workers = "10.0.0.1" ∷ [] }

keys-Distinct : Distinct (job_workers "web" allocations)
unfolding contains maand.Deploy.workers_where
keys-Distinct = (refl, (refl, (refl, tt)))

allocations_needing_restart-row_of_example :
    contains "10.0.0.1" (allocations_needing_restart false "web" allocations table)
    ≡ holds (needs_restart false "web" table) (row_of "web" "10.0.0.1" allocations)
allocations_needing_restart-row_of_example =
    allocations_needing_restart-row_of false "web" allocations table "10.0.0.1" keys-Distinct

abbrev all_read : Read → Bool
all_read read = true

splits :
    split_workers decode all_read false "reload" globs "web" allocations table
      (allocations_needing_restart false "web" allocations table)
    ≡ ok chosen
unfolding split_workers allocations_needing_restart maand.Utils.difference maand.Utils.unique
    maand.Deploy.workers_where lookup contains maand.Deploy.get_new_allocations maand.Prelude.add
    maand.Policy.resolve_update_action maand.Placement.normalize_deploy_version
    maand.Text.trim_space maand.Text.equal_fold maand.Glob.match_any maand.Text.Search.contains_text
    maand.Text.has_prefix maand.Text.Search.has_suffix maand.Text.Search.trim_suffix
    maand.Text.trim_prefix maand.Text.concat_text
splits = refl

by_actions-split_workers_example :
    by_actions decode all_read false "reload" globs "web" allocations table false
      ((rollout_action_restart, []) ∷ (rollout_action_reload, []) ∷ [])
      ("10.0.0.1" ∷ "10.0.0.2" ∷ [])
    ≡ (split_workers decode all_read false "reload" globs "web" allocations table
          ("10.0.0.1" ∷ "10.0.0.2" ∷ [])
        >>= λ s. ok (
            (rollout_action_restart, s.restart_workers)
            ∷ (rollout_action_reload, s.reload_workers)
            ∷ []))
by_actions-split_workers_example =
    by_actions-split_workers decode all_read false false "reload" globs "web" allocations table
      ("10.0.0.1" ∷ "10.0.0.2" ∷ []) (λ alloc_id. refl)

abbrev order : String → List String → ResolvedRolloutOrder
order action workers = record { ordered = workers; full_order = "10.0.0.1"; source = from_default }

abbrev always : List Event → List Event → Bool
always before done = true

handle_updated_allocations-Ran_example :
    let h =
      reload_and_restart always (answers (λ action workers. workers) order (pos 1)) "web" chosen in
    (handle_updated_allocations always
        (answers (λ action workers. workers) order (pos 1))
        "web"
        decode
        all_read
        false
        false
        "reload"
        globs
        allocations
        table
      ≡ ok h)
    × Ran (λ action workers. workers) order (pos 1) always "web" chosen h
handle_updated_allocations-Ran_example =
    handle_updated_allocations-Ran (λ action workers. workers) order (pos 1) always "web" decode
      all_read false false "reload" globs allocations table chosen splits

-- An allocation with a changed hash, whose versions cannot be read.
abbrev unread : Read → Bool
unread (read_versions alloc_id) = false
unread other = true

only_one_fails :
    (update_action decode unread false "reload" globs "web" allocations table "10.0.0.2"
      ≡ err database_error)
    × (lifecycle_action decode unread false "reload" globs "web" allocations table false "10.0.0.2"
        ≡ ok "restart")
unfolding update_action lifecycle_action lookup resolve_update_action match_any trim_space
    contains_text has_prefix has_suffix trim_prefix trim_suffix concat_text contains
only_one_fails = (refl, refl)
