-- ===== src/Runtime/Readable.antt =====
-- What docs/reference/job-command-api.md lets a job command read, and what a GET of a key answers.
use maand.Prelude.{
  String, Bool, true, ◌||◌, Option, none, some, List, [], ◌∷◌, ◌≡◌, sym, ◌∙◌, arith, ◌==◌, ==_iff,
  comparable_String, if◌then◌else◌, contains, ok, ◌⊎◌, inl, inr, Bool-cases,
}
use maand.Text.{concat_text}
use maand.Utils.{unique}
use maand.Utils.Members.{contains-unique}
use maand.Kv.{Entry, Store, get}
use maand.Kv.Secrets.{Vault, decrypt_stored_value}
use maand.Rollout.{job_catalog_namespace}
use maand.Runtime.{Request, StoreKeyPayload, JobCommandRow, Tx, resolve_allocation}
use maand.Runtime.Access.{is_secret_namespace, demand_jobs, upstream_namespaces}
use maand.Runtime.Handlers.{decrypted}

-- The namespaces of a job that another job's demands open.
abbrev pub opened_by : String → String → Bool
opened_by upstream namespace =
    namespace == concat_text "maand/job/" upstream
    || namespace == concat_text "vars/job/" upstream
    || namespace == concat_text "secrets/job/" upstream

abbrev pub DemandedIn : Option (List JobCommandRow) → String → String → Type 0
DemandedIn none job namespace = ⊥
DemandedIn (some rows) job namespace =
    (upstream : String) × (contains upstream (demand_jobs job rows) ≡ true)
    × (opened_by upstream namespace ≡ true)

-- The namespaces of the whole bucket.
abbrev pub is_shared : String → Bool
is_shared namespace =
    namespace == "maand/bucket"
    || (namespace == "vars/bucket"
        || (namespace == "maand/worker" || namespace == "maand/prometheus"))

-- The namespaces of a worker, of a job, and of the two together.
abbrev pub is_own : String → String → String → Bool
is_own job worker_ip namespace =
    namespace == concat_text "maand/worker/" worker_ip
    || (namespace == concat_text "maand/worker/" (concat_text worker_ip "/tags")
        || (namespace == concat_text "maand/job/" job
            || (namespace == concat_text "vars/bucket/job/" job
                || (namespace == concat_text "vars/job/" job
                    || (namespace == concat_text "secrets/job/" job
                        || namespace
                          == concat_text "maand/job/"
                              (concat_text job (concat_text "/worker/" worker_ip)))))))

-- A namespace of the whole bucket, of the job and its worker, or one that a demand of the job opens.
abbrev pub Readable : Tx → String → String → String → Type 0
Readable tx job worker_ip namespace =
    (is_shared namespace || is_own job worker_ip namespace) ≡ true
    ⊎ DemandedIn tx.job_commands job namespace

contains-upstream_namespaces :
    (namespace : String) (jobs : List String)
    → contains namespace (upstream_namespaces jobs) ≡ true
    → (upstream : String) × (contains upstream jobs ≡ true) × (opened_by upstream namespace ≡ true)
unfolding upstream_namespaces contains job_catalog_namespace
contains-upstream_namespaces namespace [] h = absurd (cc)
contains-upstream_namespaces namespace (job ∷ jobs) h =
    elim (Bool-cases (opened_by job namespace)) [
      | inl here ↦ (job, ground (arith, ==_iff job job), here)
      | inr other ↦
          let t = contains-upstream_namespaces namespace jobs (ground (arith, h, other)) in
          (t.0, ground (arith, t.1), t.2)
    ]

demanded :
    (namespace : String) (jobs : List String)
    → contains namespace (upstream_namespaces (unique jobs)) ≡ true
    → (upstream : String) × (contains upstream jobs ≡ true) × (opened_by upstream namespace ≡ true)
demanded namespace jobs h =
    let t = contains-upstream_namespaces namespace (unique jobs) h in
    (t.0, sym (contains-unique t.0 jobs) ∙ t.1, t.2)

-- What a GET of a key answers, if it answers with a value: the value of the store, decrypted in a
-- namespace of secrets.
abbrev pub Answered : Vault → Tx → Request StoreKeyPayload → Store → StoreKeyPayload → Type 0
Answered v tx r s p =
    (job : String) × (worker_ip : String) × (resolve_allocation tx r ≡ ok (job, worker_ip))
    × Readable tx job worker_ip p.namespace
    × ((e : Entry) × (get p.namespace p.key s ≡ ok e)
        × ((if is_secret_namespace p.namespace
              then decrypted (decrypt_stored_value v e.value)
              else ok e.value)
            ≡ ok p.value))
