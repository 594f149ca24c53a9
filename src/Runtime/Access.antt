-- ===== src/Runtime/Access.antt =====
-- jobcommand/runtime_http.go with the namespaces of data/bucket_meta.go and kv/secret.go: what an
-- allocation of a job may read and write.
use Prim.Native.Char.{code}
use maand.Prelude.{
  String, Bool, true, not, ◌&&◌, ◌||◌, Option, none, some, List, [], ◌∷◌, ◌++◌, ◌==◌,
  comparable_String, if◌then◌else◌, nat_beq, Result, ok, err, ◌>>=◌,
}
use maand.Text.{concat_text, is_empty, has_prefix}
use maand.Utils.{intersection, unique, none_of}
use maand.Rollout.{job_catalog_namespace, rollout_order_key}
use maand.Runtime.{
  StoreKeyPayload, JobCommandRow, Tx, ApiError, missing_key_fields, namespace_denied,
  internal_error, refuse_if,
}

abbrev pub vars_job_namespace : String → String
vars_job_namespace job = concat_text "vars/job/" job

abbrev pub secret_job_namespace : String → String
secret_job_namespace job = concat_text "secrets/job/" job

unfoldable pub is_secret_namespace : String → Bool
is_secret_namespace namespace = has_prefix namespace "secrets/job/"

unfoldable pub allowed_kv_namespaces : String → String → List String
allowed_kv_namespaces job worker_ip =
    "maand/bucket"
    ∷ "vars/bucket"
    ∷ "maand/worker"
    ∷ concat_text "maand/worker/" worker_ip
    ∷ concat_text "maand/worker/" (concat_text worker_ip "/tags")
    ∷ job_catalog_namespace job
    ∷ concat_text "vars/bucket/job/" job
    ∷ vars_job_namespace job
    ∷ secret_job_namespace job
    ∷ concat_text "maand/job/" (concat_text job (concat_text "/worker/" worker_ip))
    ∷ "maand/prometheus"
    ∷ []

-- `trim(demand_job) = ''` in SQL, where trim takes off spaces
unfoldable pub blank : String → Bool
blank String.[] = true
blank (String.◌∷◌ c s) = nat_beq (code c) b' ' && blank s

abbrev pub demands_from : String → Option String → String → Option String
demands_from job none demander = none
demands_from job (some demand_job) demander =
    if demander == job && not (blank demand_job) then some demand_job else none

abbrev pub with_job : Option String → List String → List String
with_job none jobs = jobs
with_job (some job) jobs = job ∷ jobs

-- The rows of `SELECT DISTINCT demand_job …`, before DISTINCT.
unfoldable pub demand_jobs : String → List JobCommandRow → List String
unfolding blank
demand_jobs job [] = []
demand_jobs job (row ∷ rows) =
    with_job (demands_from job row.demand_job row.job) (demand_jobs job rows)

unfoldable pub upstream_namespaces : List String → List String
upstream_namespaces [] = []
upstream_namespaces (upstream ∷ jobs) =
    job_catalog_namespace upstream
    ∷ vars_job_namespace upstream
    ∷ secret_job_namespace upstream
    ∷ upstream_namespaces jobs

-- UpstreamDemandKVNamespaces
unfoldable pub upstream_demand_kv_namespaces :
    Option (List JobCommandRow) → String → Option (List String)
unfolding demand_jobs upstream_namespaces
upstream_demand_kv_namespaces none job = none
upstream_demand_kv_namespaces (some rows) job =
    some (upstream_namespaces (unique (demand_jobs job rows)))

abbrev pub granted : String → List String → Option (List String) → Result ApiError (Unit {0})
granted namespace allowed none = err internal_error
granted namespace allowed (some upstream) =
    refuse_if namespace_denied (none_of (intersection (allowed ++ upstream) (namespace ∷ [])))

-- validateReadNamespace, with AllowedKVNamespacesWithUpstream
unfoldable pub validate_read_namespace : Tx → String → String → String → Result ApiError (Unit {0})
unfolding upstream_demand_kv_namespaces allowed_kv_namespaces
validate_read_namespace tx namespace job worker_ip =
    granted namespace (allowed_kv_namespaces job worker_ip)
      (upstream_demand_kv_namespaces tx.job_commands job)

-- `deployOrderWriteEvents[event]`
abbrev pub writes_deploy_order : String → Bool
writes_deploy_order event = event == "pre_deploy" || event == "cli"

unfoldable pub validate_store_key_write :
    StoreKeyPayload → String → String → Result ApiError (Unit {0})
validate_store_key_write p job event =
    if p.namespace == vars_job_namespace job
    then ok tt
    else if p.namespace == job_catalog_namespace job && p.key == rollout_order_key
    then refuse_if namespace_denied (not (writes_deploy_order event))
    else err namespace_denied

unfoldable pub validate_store_key_payload :
    Tx → StoreKeyPayload → String → String → String → Bool → Result ApiError (Unit {0})
unfolding validate_store_key_write validate_read_namespace
validate_store_key_payload tx p job worker_ip event is_write =
    refuse_if missing_key_fields
      (is_empty p.namespace || is_empty p.key || is_write && is_empty p.value)
    >>= λ _.
        if is_write
        then validate_store_key_write p job event
        else validate_read_namespace tx p.namespace job worker_ip

unfoldable pub validate_secret_namespace : String → String → String → Result ApiError (Unit {0})
unfolding allowed_kv_namespaces
validate_secret_namespace namespace job worker_ip =
    refuse_if namespace_denied (not (namespace == secret_job_namespace job)) >>= λ _.
    refuse_if namespace_denied
      (none_of (intersection (allowed_kv_namespaces job worker_ip) (namespace ∷ [])))

unfoldable pub validate_store_secret_payload :
    StoreKeyPayload → String → String → Result ApiError (Unit {0})
unfolding validate_secret_namespace
validate_store_secret_payload p job worker_ip =
    refuse_if missing_key_fields (is_empty p.namespace || is_empty p.key || is_empty p.value)
    >>= λ _. validate_secret_namespace p.namespace job worker_ip

unfoldable pub validate_store_secret_key_payload :
    StoreKeyPayload → String → String → Result ApiError (Unit {0})
unfolding validate_secret_namespace
validate_store_secret_key_payload p job worker_ip =
    refuse_if missing_key_fields (is_empty p.namespace || is_empty p.key) >>= λ _.
    validate_secret_namespace p.namespace job worker_ip
