-- ===== src/Runtime/Handlers.antt =====
-- The key-value handlers of jobcommand/runtime_handlers.go: the answer to a request, and the store after
-- it. The log lines are left out; the session store is initialised.
use maand.Prelude.{
  String, Bool, true, false, not, ◌&&◌, ◌||◌, Option, none, some, List, [], ◌∷◌, pos, ◌==◌,
  comparable_String, if◌then◌else◌, Map, put, Result, ok, err, ◌>>=◌,
}
use maand.Text.{is_empty}
use maand.Kv.{Store, Entry, KvError, not_found, get, put_text, delete_key, get_keys}
use maand.Kv.Secrets.{Vault, SecretError, decrypt_stored_value, put_secret}
use maand.Runtime.{
  Method, http_get, http_put, http_delete, Request, StoreKeyPayload, JobCommandRow, Tx, ApiError,
  missing_key_fields, namespace_denied, store_key_not_found, write_during_health, internal_error,
  CommandDemandPayload, Response, failed, method_not_allowed, done, value_of, keys_of, demands_of,
  resolve_allocation, decode_body, refuse_if,
}
use maand.Runtime.Access.{
  vars_job_namespace, secret_job_namespace, is_secret_namespace, validate_read_namespace,
  validate_store_key_payload, validate_store_secret_payload, validate_store_secret_key_payload,
}

-- An answer without a change of the store, and one with the new store.
abbrev pub reply : Result ApiError Response → Response
reply (err e) = failed e
reply (ok response) = response

abbrev pub reply_done : Store → Result ApiError Store → Response × Store
reply_done s (err e) = (failed e, s)
reply_done s (ok s') = (done, s')

abbrev pub found_value : Result KvError Entry → Result ApiError String
found_value (err e) = err store_key_not_found
found_value (ok item) = ok item.value

abbrev pub decrypted : Result SecretError String → Result ApiError String
decrypted (err e) = err internal_error
decrypted (ok plaintext) = ok plaintext

unfoldable pub handle_store_key_get : Vault → Tx → Request StoreKeyPayload → Store → Response
unfolding resolve_allocation validate_store_key_payload
handle_store_key_get v tx r s = reply (
    resolve_allocation tx r >>= λ (job, worker_ip). decode_body r.body >>= λ p.
    validate_store_key_payload tx p job worker_ip r.event false >>= λ _.
    found_value (get p.namespace p.key s) >>= λ stored.
    (if is_secret_namespace p.namespace
      then decrypted (decrypt_stored_value v stored)
      else ok stored)
    >>= λ value. ok (value_of (record p { value = value })))

unfoldable pub handle_store_key_put : Tx → Request StoreKeyPayload → Store → Response × Store
unfolding resolve_allocation validate_store_key_payload
handle_store_key_put tx r s = reply_done s (
    resolve_allocation tx r >>= λ (job, worker_ip). decode_body r.body >>= λ p.
    validate_store_key_payload tx p job worker_ip r.event true >>= λ _.
    refuse_if namespace_denied (is_secret_namespace p.namespace) >>= λ _.
    refuse_if write_during_health (r.event == "health_check") >>= λ _.
    ok (put_text p.namespace p.key p.value (pos 0) s))

-- What the two handlers of DELETE make of the result of Delete.
abbrev pub deleted : Store × Result KvError (Unit {0}) → Result ApiError Store
deleted (s, ok _) = ok s
deleted (s, err not_found) = err store_key_not_found
deleted (s, err _) = err internal_error

unfoldable pub handle_store_key_delete : Tx → Request StoreKeyPayload → Store → Response × Store
unfolding resolve_allocation validate_read_namespace
handle_store_key_delete tx r s = reply_done s (
    resolve_allocation tx r >>= λ (job, worker_ip). decode_body r.body >>= λ p.
    refuse_if missing_key_fields (is_empty p.namespace || is_empty p.key) >>= λ _.
    refuse_if namespace_denied (is_secret_namespace p.namespace) >>= λ _.
    refuse_if namespace_denied (not (p.namespace == vars_job_namespace job)) >>= λ _.
    validate_read_namespace tx p.namespace job worker_ip >>= λ _.
    refuse_if write_during_health (r.event == "health_check") >>= λ _.
    deleted (delete_key p.namespace p.key s))

unfoldable pub job_level_kv_namespaces : String → List String
job_level_kv_namespaces job = vars_job_namespace job ∷ secret_job_namespace job ∷ []

-- isJobLevelListNamespace
abbrev pub is_job_level_list_namespace : String → String → Bool
is_job_level_list_namespace namespace job =
    namespace == vars_job_namespace job || namespace == secret_job_namespace job

-- The namespaces to list: the one of the request, if it names one, or those of the job.
unfoldable pub listed_namespaces : Tx → String → String → String → Result ApiError (List String)
unfolding job_level_kv_namespaces
listed_namespaces tx namespace job worker_ip =
    if is_empty namespace
    then ok (job_level_kv_namespaces job)
    else refuse_if namespace_denied (not (is_job_level_list_namespace namespace job)) >>= λ _.
        validate_read_namespace tx namespace job worker_ip >>= λ _. ok (namespace ∷ [])

unfoldable pub list_all : List String → Store → Map String (List String) → Map String (List String)
list_all [] s result = result
list_all (namespace ∷ namespaces) s result =
    list_all namespaces s (put namespace (get_keys namespace s) result)

unfoldable pub handle_store_keys_list : Tx → Request StoreKeyPayload → Store → Response
unfolding resolve_allocation listed_namespaces list_all
handle_store_keys_list tx r s = reply (
    resolve_allocation tx r >>= λ (job, worker_ip). decode_body r.body >>= λ p.
    listed_namespaces tx p.namespace job worker_ip >>= λ namespaces.
    ok (keys_of (list_all namespaces s [])))

abbrev pub stored : Result SecretError Store → Result ApiError Store
stored (err e) = err internal_error
stored (ok s) = ok s

unfoldable pub handle_store_secret_put :
    Vault → Tx → Request StoreKeyPayload → Store → Response × Store
unfolding resolve_allocation validate_store_secret_payload
handle_store_secret_put v tx r s = reply_done s (
    resolve_allocation tx r >>= λ (job, worker_ip). decode_body r.body >>= λ p.
    validate_store_secret_payload p job worker_ip >>= λ _.
    refuse_if write_during_health (r.event == "health_check") >>= λ _.
    stored (put_secret v p.namespace p.key p.value (pos 0) s))

unfoldable pub handle_store_secret_delete : Tx → Request StoreKeyPayload → Store → Response × Store
unfolding resolve_allocation validate_store_secret_key_payload
handle_store_secret_delete tx r s = reply_done s (
    resolve_allocation tx r >>= λ (job, worker_ip). decode_body r.body >>= λ p.
    validate_store_secret_key_payload p job worker_ip >>= λ _.
    refuse_if write_during_health (r.event == "health_check") >>= λ _.
    deleted (delete_key p.namespace p.key s))

abbrev pub is_some_text : String → Option String → Bool
is_some_text text none = false
is_some_text text (some t) = t == text

abbrev pub with_demand :
    JobCommandRow
    → Option String
    → Result ApiError (List CommandDemandPayload)
    → Result ApiError (List CommandDemandPayload)
with_demand row none rest = err internal_error
with_demand row (some config) (err e) = err e
with_demand row (some config) (ok demands) =
    ok (record { job = row.job; command = row.name; demand_config = config } ∷ demands)

-- The query of handleCommandDemandsGet and its loop.
unfoldable pub demands_on :
    String → String → List JobCommandRow → Result ApiError (List CommandDemandPayload)
demands_on job command [] = ok []
demands_on job command (row ∷ rows) =
    let rest = demands_on job command rows in
    if is_some_text job row.demand_job && is_some_text command row.demand_command
    then with_demand row row.demand_config rest
    else rest

abbrev pub demands_in :
    String → String → Option (List JobCommandRow) → Result ApiError (List CommandDemandPayload)
demands_in job command none = err internal_error
demands_in job command (some rows) = demands_on job command rows

-- handleCommandDemandsGet
unfoldable pub handle_command_demands_get : Tx → Request StoreKeyPayload → Response
unfolding resolve_allocation demands_on
handle_command_demands_get tx r = reply (
    resolve_allocation tx r >>= λ (job, worker_ip).
    demands_in job r.command tx.job_commands >>= λ demands. ok (demands_of demands))

pub data Route : Type 0 where
  store_keys store_keys_list store_secret demands : Route

abbrev pub serve_store_keys :
    Vault → Tx → Method → Request StoreKeyPayload → Store → Response × Store
serve_store_keys v tx http_get r s = (handle_store_key_get v tx r s, s)
serve_store_keys v tx http_put r s = handle_store_key_put tx r s
serve_store_keys v tx http_delete r s = handle_store_key_delete tx r s
serve_store_keys v tx _ r s = (method_not_allowed, s)

abbrev pub serve_store_keys_list : Tx → Method → Request StoreKeyPayload → Store → Response × Store
serve_store_keys_list tx http_get r s = (handle_store_keys_list tx r s, s)
serve_store_keys_list tx _ r s = (method_not_allowed, s)

abbrev pub serve_store_secret :
    Vault → Tx → Method → Request StoreKeyPayload → Store → Response × Store
serve_store_secret v tx http_put r s = handle_store_secret_put v tx r s
serve_store_secret v tx http_delete r s = handle_store_secret_delete tx r s
serve_store_secret v tx _ r s = (method_not_allowed, s)

abbrev pub serve_command_demands : Tx → Method → Request StoreKeyPayload → Store → Response × Store
serve_command_demands tx http_get r s = (handle_command_demands_get tx r, s)
serve_command_demands tx _ r s = (method_not_allowed, s)

-- The routes of newRuntimeAPIMux for the store and the demands.
unfoldable pub serve : Vault → Tx → Route → Request StoreKeyPayload → Store → Response × Store
unfolding handle_store_key_get handle_store_key_put handle_store_key_delete handle_store_keys_list
    handle_store_secret_put handle_store_secret_delete handle_command_demands_get
serve v tx store_keys r s = serve_store_keys v tx r.method r s
serve v tx store_keys_list r s = serve_store_keys_list tx r.method r s
serve v tx store_secret r s = serve_store_secret v tx r.method r s
serve v tx demands r s = serve_command_demands tx r.method r s
