-- ===== src/Runtime/Isolated.antt =====
-- No two jobs can write the same key.
use maand.Prelude.{
  String, Bool, true, false, ◌≡◌, refl, sym, ap, ◌∙◌, arith, ◌==◌, ==_iff, comparable_String,
  Result, ok, err, Option, none, some, Bool-cases, inl, inr,
}
use maand.Text.{concat_text, has_prefix}
use maand.Text.Prefix.{concat_text_cancel}
use maand.Rollout.{job_catalog_namespace}
use maand.Runtime.{Request, StoreKeyPayload, ApiError, Tx, resolve_allocation}
use maand.Runtime.Access.{vars_job_namespace, secret_job_namespace}
use maand.Kv.{Store, find}
use maand.Kv.Secrets.{Vault}
use maand.Runtime.Handlers.{Route, serve}
use maand.Runtime.Confined.{serve-Keeps}
use maand.Runtime.Writable.{writable_by_job, writable_by, writable}

abbrev has_vars : String → Bool
has_vars m = has_prefix m "vars/job/"

abbrev has_secrets : String → Bool
has_secrets m = has_prefix m "secrets/job/"

-- The three namespaces of a job are told apart by how they begin.
begins :
    (job : String)
    → (has_vars (vars_job_namespace job) ≡ true)
      × (has_vars (secret_job_namespace job) ≡ false)
      × (has_vars (job_catalog_namespace job) ≡ false)
      × (has_secrets (secret_job_namespace job) ≡ true)
      × (has_secrets (job_catalog_namespace job) ≡ false)
unfolding has_prefix concat_text job_catalog_namespace
begins job = (refl, refl, refl, refl, refl)

-- The job whose namespace of one of the three kinds a namespace is.
same_kind :
    (s job job' m : String)
    → m == concat_text s job ≡ true
    → m == concat_text s job' ≡ true
    → job ≡ job'
same_kind s job job' m h g =
    concat_text_cancel s job job'
      (sym ((==_iff m (concat_text s job)).0 h) ∙ (==_iff m (concat_text s job')).0 g)

named :
    (m job : String)
    → (m == vars_job_namespace job ≡ true → has_vars m ≡ true)
      × (m == secret_job_namespace job ≡ true → (has_vars m ≡ false) × (has_secrets m ≡ true))
      × (m == job_catalog_namespace job ≡ true → (has_vars m ≡ false) × (has_secrets m ≡ false))
named m job =
    let t = begins job in
    (
      λ h. rw ((==_iff m (vars_job_namespace job)).0 h) t.0,
      λ h. rw ((==_iff m (secret_job_namespace job)).0 h) (t.1, t.3),
      λ h. rw ((==_iff m (job_catalog_namespace job)).0 h) (t.2, t.4),
    )

one_job :
    (m k : String) (job job' event event' : String)
    → writable_by_job job event m k ≡ true
    → writable_by_job job' event' m k ≡ true
    → job ≡ job'
unfolding writable_by_job job_catalog_namespace
one_job m k job job' event event' h g = ground (
  arith,
  h,
  g,
  named m job,
  named m job',
  same_kind "vars/job/" job job' m,
  same_kind "secrets/job/" job job' m,
  same_kind "maand/job/" job job' m,
)

abbrev pub job_of : Result ApiError (String × String) → Option String
job_of (err e) = none
job_of (ok (job, worker_ip)) = some job

by_one_job :
    (x y : Result ApiError (String × String)) (event event' m k : String)
    → writable_by x event m k ≡ true
    → writable_by y event' m k ≡ true
    → job_of x ≡ job_of y
by_one_job (err e) y event event' m k h g = absurd (cc)
by_one_job (ok (job, ip)) (err e) event event' m k h g = absurd (cc)
by_one_job (ok (job, ip)) (ok (job', ip')) event event' m k h g =
    ap some (one_job m k job job' event event' h g)

-- Two requests that may write the same key are from allocations of one job.
writable_one_job :
    (tx : Tx) (r r' : Request StoreKeyPayload) (m k : String)
    → writable tx r m k ≡ true
    → writable tx r' m k ≡ true
    → job_of (resolve_allocation tx r) ≡ job_of (resolve_allocation tx r')
unfolding writable
writable_one_job tx r r' m k h g =
    by_one_job (resolve_allocation tx r) (resolve_allocation tx r') r.event r'.event m k
      (ground (arith, h)) (ground (arith, g))

-- What a request of one job changes, no request of another job changes: if the first request leaves
-- another entry at a key than it found, then a second one, whose allocation is not of the same job,
-- leaves that key as it finds it, in whatever store it is served.
pub serve-isolated :
    (v : Vault) (tx : Tx) (route route' : Route) (r r' : Request StoreKeyPayload) (s s' : Store)
    (m k : String)
    → ¬ (find m k (serve v tx route r s).1 ≡ find m k s)
    → ¬ (job_of (resolve_allocation tx r) ≡ job_of (resolve_allocation tx r'))
    → find m k (serve v tx route' r' s').1 ≡ find m k s'
serve-isolated v tx route route' r r' s s' m k changes another =
    elim (Bool-cases (writable tx r' m k)) [
      | inr locked ↦ (serve-Keeps v tx route' r' s').1 m k locked
      | inl own' ↦ elim (Bool-cases (writable tx r m k)) [
        | inr locked ↦ absurd (changes ((serve-Keeps v tx route r s).1 m k locked))
        | inl own ↦ absurd (another (writable_one_job tx r r' m k own own'))
      ]
    ]
