-- ===== src/Kv/Tests.antt =====
-- Runs of kv/store.go and kv/persist.go on a small table.
use maand.Prelude.{
  ℕ, ℤ, Bool, ltb_ℤ, String, true, false, List, [], ◌∷◌, ◌≡◌, refl, pos, ◌==◌, comparable_String,
  lookup, put, keys, ok, err,
}
use maand.Text.{trim_space}
use maand.Kv.{
  Entry, new_store, write_entry, put_value, delete_key, find, get, get_keys, has_pending_changes,
  not_found, namespace_not_found, database_error,
}
use maand.Kv.Table.{Row, load_rows, persist_to_transaction, persist_session}
use maand.Kv.Sync.{InSync}
use maand.Kv.Namespaces.{IsMap, persist-InSync}
use maand.Kv.Shape.{load_rows-IsMap, new_store-IsMap}
use maand.Kv.RoundTrip.{Change, putting, deleting, changes, loaded, load-InSync, load-persist}
use maand.Kv.Failures.{failed_commit_loses_changes}
use maand.Kv.Purge.{
  purge_stale_versions, delete_where, stale_in, OneRowEach, get-purge_stale_versions,
}

abbrev row : String → ℕ → String → Row
row key version value = record {
  namespace = "maand/job/web";
  key = key;
  value = value;
  version = version;
  ttl = pos 0;
  created_date = 100;
  deleted = 0;
}

-- Two versions of one key and one of another.
abbrev table : List Row
table = row "port" 1 "80" ∷ row "port" 2 "8080" ∷ row "zone" 1 "a" ∷ []

abbrev script : List Change
script =
    putting "maand/job/web" "zone" " b " (pos 0) true
    ∷ deleting "maand/job/web" "port"
    ∷ putting "maand/job/db" "size" "3" (pos 60) true
    ∷ []

loads_latest :
    (get "maand/job/web" "port" (loaded table)
      ≡ ok (record {
        value = "8080";
        version = 2;
        ttl = pos 0;
        deleted = 0;
        changed = false;
        last_modified_time = 100;
      }))
unfolding load_rows new_store get find lookup put
loads_latest = refl

script_runs :
    (get "maand/job/web" "port" (changes script (loaded table)) ≡ err not_found)
    × (get_keys "maand/job/web" (changes script (loaded table)) ≡ "zone" ∷ [])
    × (has_pending_changes (changes script (loaded table)) ≡ true)
    × ((delete_key "maand/job/api" "x" (loaded table)).1 ≡ err namespace_not_found)
unfolding load_rows new_store get get_keys find lookup put changes put_value delete_key trim_space
    has_pending_changes keys write_entry
script_runs = (refl, refl, refl, refl)

persist_succeeds :
    (persist_to_transaction 200 (λ _. false) table (changes script (loaded table))).2 ≡ ok tt
unfolding load_rows new_store lookup put changes put_value delete_key trim_space
    persist_to_transaction find write_entry
persist_succeeds = refl

load-persist_example :
    find "maand/job/web" "zone"
      (loaded (persist_to_transaction 200 (λ _. false) table (changes script (loaded table))).0)
    ≡ find "maand/job/web" "zone"
        (persist_to_transaction 200 (λ _. false) table (changes script (loaded table))).1
load-persist_example =
    load-persist table script 200 (λ _. false) persist_succeeds "maand/job/web" "zone"

table-IsMap : IsMap (loaded table)
table-IsMap = load_rows-IsMap table table new_store new_store-IsMap

persist-InSync_example :
    InSync
      (persist_to_transaction 200 (λ r. r.key == "zone") table (loaded table)).0
      (persist_to_transaction 200 (λ r. r.key == "zone") table (loaded table)).1
persist-InSync_example =
    persist-InSync 200 (λ r. r.key == "zone") table (loaded table) table-IsMap (load-InSync table)

failed_commit_loses_changes_example :
    let s = changes script (loaded table) in
    let r = persist_session 200 (λ _. false) false table s in
    (r.0 ≡ table)
    × (r.2 ≡ err database_error)
    × (persist_session 300 (λ _. true) true table r.1 ≡ (table, r.1, ok tt))
failed_commit_loses_changes_example =
    failed_commit_loses_changes 200 300 (λ _. false) (λ _. true) true table
      (changes script (loaded table)) script_runs.2 persist_succeeds

abbrev aged : List Row
aged = row "port" 1 "80" ∷ row "port" 9 "90" ∷ []

-- Dates with as many digits as the cutoff are compared like numbers.
abbrev earlier : ℕ → ℤ → Bool
earlier created cutoff = ltb_ℤ (pos created) cutoff

purges_old : purge_stale_versions earlier 1000000 (pos 1) aged ≡ (row "port" 9 "90" ∷ [])
unfolding purge_stale_versions delete_where stale_in maand.Kv.Purge.grouped
    maand.Kv.Table.max_version
purges_old = refl

aged-OneRowEach : OneRowEach aged
unfolding OneRowEach maand.Kv.Sync.row_with
aged-OneRowEach = (refl, (refl, tt))

get-purge_stale_versions_example :
    let purged = purge_stale_versions earlier 1000000 (pos 1) aged in
    get "maand/job/web" "port" (load_rows purged purged new_store)
    ≡ get "maand/job/web" "port" (load_rows aged aged new_store)
get-purge_stale_versions_example =
    get-purge_stale_versions earlier 1000000 (pos 1) aged "maand/job/web" "port" aged-OneRowEach
