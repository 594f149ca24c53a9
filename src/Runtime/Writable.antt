-- ===== src/Runtime/Writable.antt =====
-- What docs/reference/job-command-api.md lets a job command write: the column of its table of
-- namespaces.
use maand.Prelude.{
  bind-ok, String, Bool, true, false, not, ◌&&◌, ◌||◌, ◌≡◌, arith, ◌==◌, ==_iff, comparable_String,
  Result, ok, err, Bool-cases, inl, inr,
}
use maand.Text.{is_empty}
use maand.Rollout.{job_catalog_namespace, rollout_order_key}
use maand.Runtime.{
  Request, StoreKeyPayload, Tx, ApiError, missing_key_fields, namespace_denied, resolve_allocation,
  refuse_if,
}
use maand.Runtime.Access.{
  vars_job_namespace, secret_job_namespace, writes_deploy_order, validate_store_key_write,
  validate_store_key_payload, validate_secret_namespace,
}
use maand.Runtime.Guards.{refuse_if-ok}

-- The keys of one job that its commands may write on an event.
unfoldable pub writable_by_job : String → String → String → String → Bool
writable_by_job job event m j =
    m == vars_job_namespace job
    || m == secret_job_namespace job
    || (m == job_catalog_namespace job && j == rollout_order_key && writes_deploy_order event)

abbrev pub writable_by : Result ApiError (String × String) → String → String → String → Bool
writable_by (err e) event m j = false
writable_by (ok (job, worker_ip)) event m j = writable_by_job job event m j

-- The keys that a request may write: those of the job of its allocation, outside a health check.
unfoldable pub writable {ℓ} : {A : Type ℓ} → Tx → Request A → String → String → Bool
unfolding writable_by_job
writable tx r m j =
    not (r.event == "health_check") && writable_by (resolve_allocation tx r) r.event m j

-- A payload that passed the checks names a key that its job may write.
store_key_write-writable :
    (p : StoreKeyPayload) (job event : String)
    → validate_store_key_write p job event ≡ ok tt
    → writable_by_job job event p.namespace p.key ≡ true
unfolding validate_store_key_write writable_by_job
store_key_write-writable p job event h = ground (arith, h)

pub store_key_payload-writable :
    (tx : Tx) (p : StoreKeyPayload) (job worker_ip event : String)
    → validate_store_key_payload tx p job worker_ip event true ≡ ok tt
    → writable_by_job job event p.namespace p.key ≡ true
unfolding validate_store_key_payload
store_key_payload-writable tx p job worker_ip event h =
    let t =
      bind-ok
        (refuse_if missing_key_fields
          (is_empty p.namespace || is_empty p.key || true && is_empty p.value))
        _ tt h in
    store_key_write-writable p job event t.2

pub secret_namespace-writable :
    (namespace key job worker_ip event : String)
    → validate_secret_namespace namespace job worker_ip ≡ ok tt
    → writable_by_job job event namespace key ≡ true
unfolding validate_secret_namespace writable_by_job
secret_namespace-writable namespace key job worker_ip event h =
    let t =
      bind-ok (refuse_if namespace_denied (not (namespace == secret_job_namespace job))) _ tt h in
    let own = refuse_if-ok namespace_denied (not (namespace == secret_job_namespace job)) t.1 in
    ground (arith, own)

pub vars-writable :
    (namespace key job event : String)
    → not (namespace == vars_job_namespace job) ≡ false
    → writable_by_job job event namespace key ≡ true
unfolding writable_by_job
vars-writable namespace key job event h = ground (arith, h)

-- The key that a request may write is not one that it may not write.
pub another_key :
    (tx : Tx) (r : Request StoreKeyPayload) (job worker_ip n k m j : String)
    → resolve_allocation tx r ≡ ok (job, worker_ip)
    → (r.event == "health_check") ≡ false
    → writable_by_job job r.event n k ≡ true
    → writable tx r m j ≡ false
    → (m == n && j == k) ≡ false
unfolding writable
another_key tx r job worker_ip n k m j e awake own h = elim (Bool-cases (m == n && j == k)) [
  | inr differs ↦ differs
  | inl same ↦
      let p : m ≡ n = ground (arith, same, ==_iff m n, ==_iff j k) in
      let q : j ≡ k = ground (arith, same, ==_iff m n, ==_iff j k) in
      absurd (cc (rw (e, awake, p, q, own) at h))
]
