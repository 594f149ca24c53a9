-- ===== src/Runtime/Answers.antt =====
-- What is put through the runtime API is what a GET of the same allocation answers.
use maand.Prelude.{
  bind-ok, String, true, false, ◌&&◌, ◌||◌, some, List, ◌++◌, ◌≡◌, refl, ap, arith, pos, ◌==◌,
  comparable_String, if◌then◌else◌, contains, contains-append, Result, ok, ◌>>=◌,
}
use mathlib.Core.Path.{subst}
use maand.Text.{is_empty, trim_space}
use maand.Utils.{unique}
use maand.Utils.Members.{none_of-intersection_one}
use maand.Kv.{Entry, Store, get, put_text}
use maand.Kv.Client.{get-put_value}
use maand.Kv.Secrets.{Vault, decrypt_stored_value}
use maand.Runtime.{
  http_get, http_put, Request, StoreKeyPayload, JobCommandRow, Tx, ApiError, missing_key_fields,
  namespace_denied, write_during_health, Response, done, value_of, resolve_allocation, decoded,
  refuse_if,
}
use maand.Runtime.Access.{
  is_secret_namespace, allowed_kv_namespaces, demand_jobs, upstream_namespaces,
  upstream_demand_kv_namespaces, validate_read_namespace, validate_store_key_payload,
}
use maand.Runtime.Handlers.{
  reply_done, decrypted, handle_store_key_get, handle_store_key_put, store_keys, serve,
}
use maand.Runtime.Guards.{reply_done-bind, refuse_if-ok}
use maand.Runtime.Writable.{writable_by_job, store_key_payload-writable}

-- A key that a job may write is one that it may read.
pub written-allowed :
    (job worker_ip event m j : String)
    → writable_by_job job event m j ≡ true
    → contains m (allowed_kv_namespaces job worker_ip) ≡ true
unfolding writable_by_job allowed_kv_namespaces contains
written-allowed job worker_ip event m j h = ground (arith, h)

allowed-validated :
    (tx : Tx) (rows : List JobCommandRow) (p : StoreKeyPayload) (job worker_ip event : String)
    → tx.job_commands ≡ some rows
    → (is_empty p.namespace || is_empty p.key) ≡ false
    → contains p.namespace (allowed_kv_namespaces job worker_ip) ≡ true
    → validate_store_key_payload tx p job worker_ip event false ≡ ok tt
unfolding validate_store_key_payload validate_read_namespace upstream_demand_kv_namespaces
allowed-validated tx rows p job worker_ip event loads named inside =
    let allowed = allowed_kv_namespaces job worker_ip in
    let upstream = upstream_namespaces (unique (demand_jobs job rows)) in
    rw loads (
      rw (none_of-intersection_one p.namespace (allowed ++ upstream))
        (ground (arith, named, inside, contains-append p.namespace allowed upstream)))

-- The answer to a GET of a key that the job may read and that is there.
pub get_answers :
    (v : Vault) (tx : Tx) (r : Request StoreKeyPayload) (rows : List JobCommandRow) (s : Store)
    (p : StoreKeyPayload) (job worker_ip : String) (e : Entry) (value : String)
    → resolve_allocation tx r ≡ ok (job, worker_ip)
    → r.body ≡ decoded p
    → tx.job_commands ≡ some rows
    → (is_empty p.namespace || is_empty p.key) ≡ false
    → contains p.namespace (allowed_kv_namespaces job worker_ip) ≡ true
    → get p.namespace p.key s ≡ ok e
    → (if is_secret_namespace p.namespace
        then decrypted (decrypt_stored_value v e.value)
        else ok e.value)
      ≡ ok value
    → (serve v tx store_keys (record r { method = http_get }) s).0
      ≡ value_of (record p { value = value })
unfolding serve handle_store_key_get resolve_allocation
get_answers v tx r rows s p job worker_ip e value found body loads named inside there shows =
    rw (found, body)
      (rw (allowed-validated tx rows p job worker_ip r.event loads named inside)
        (rw there (rw shows refl)))

module _ {Goal : Type 0} (s s' : Store) where
  -- A guard of a request that is answered with 200.
  pub passed :
      {A : Type 0} (x : Result ApiError A) (f : A → Result ApiError Store)
      → ((a : A) → x ≡ ok a → reply_done s (f a) ≡ (done, s') → Goal)
      → reply_done s (x >>= f) ≡ (done, s')
      → Goal
  passed x f step =
      reply_done-bind (λ answer. answer ≡ (done, s') → Goal) s x f
        (λ e h. absurd (cc (ap (λ (answer : Response × Store). answer.0) h))) step

abbrev pub Read : Vault → Tx → Request StoreKeyPayload → Store → StoreKeyPayload → Type 0
Read v tx r s p = (serve v tx store_keys (record r { method = http_get }) s).0 ≡ value_of p

put-Read :
    (v : Vault) (tx : Tx) (r : Request StoreKeyPayload) (rows : List JobCommandRow) (s : Store)
    (p : StoreKeyPayload) (job worker_ip : String)
    → resolve_allocation tx r ≡ ok (job, worker_ip)
    → r.body ≡ decoded p
    → tx.job_commands ≡ some rows
    → validate_store_key_payload tx p job worker_ip r.event true ≡ ok tt
    → is_secret_namespace p.namespace ≡ false
    → Read v tx r
        (put_text p.namespace p.key p.value (pos 0) s)
        (record p { value = trim_space p.value })
unfolding validate_store_key_payload
put-Read v tx r rows s p job worker_ip found body loads valid plain =
    let full = is_empty p.namespace || is_empty p.key || true && is_empty p.value in
    let t = bind-ok (refuse_if missing_key_fields full) _ tt valid in
    let named = refuse_if-ok missing_key_fields full t.1 in
    let w = get-put_value p.namespace p.key p.value (pos 0) true s in
    get_answers v tx r rows (put_text p.namespace p.key p.value (pos 0) s) p job worker_ip w.0
      (trim_space p.value) found body loads (ground (arith, named))
      (written-allowed job worker_ip r.event p.namespace p.key
        (store_key_payload-writable tx p job worker_ip r.event valid))
      w.1 (rw plain (ap ok w.2))

-- If a PUT of a key is answered with 200 then a GET of that key with the same headers, in the store that
-- it left and where the table job_commands can be read, answers with the value, trimmed.
pub serve-put-get :
    (v : Vault) (tx : Tx) (r : Request StoreKeyPayload) (rows : List JobCommandRow) (s s' : Store)
    (p : StoreKeyPayload)
    → r.method ≡ http_put
    → r.body ≡ decoded p
    → tx.job_commands ≡ some rows
    → serve v tx store_keys r s ≡ (done, s')
    → (serve v tx store_keys (record r { method = http_get }) s').0
      ≡ value_of (record p { value = trim_space p.value })
unfolding serve handle_store_key_put
serve-put-get v tx r rows s s' p puts body loads h = guards (rw (puts, body) at h)
  where
    guards :
        reply_done s (
            resolve_allocation tx r >>= λ (job, worker_ip).
            validate_store_key_payload tx p job worker_ip r.event true >>= λ _.
            refuse_if namespace_denied (is_secret_namespace p.namespace) >>= λ _.
            refuse_if write_during_health (r.event == "health_check") >>= λ _.
            ok (put_text p.namespace p.key p.value (pos 0) s))
          ≡ (done, s')
        → Read v tx r s' (record p { value = trim_space p.value })
    guards = passed s s' (resolve_allocation tx r) _ λ (job, worker_ip) found.
        passed s s' (validate_store_key_payload tx p job worker_ip r.event true) _ λ _ valid.
          passed s s' (refuse_if namespace_denied (is_secret_namespace p.namespace)) _ λ _ plain.
            passed s s' (refuse_if write_during_health (r.event == "health_check")) _ λ _ _ same.
              subst (λ x. Read v tx r x (record p { value = trim_space p.value }))
                (ap (λ (answer : Response × Store). answer.1) same)
                (put-Read v tx r rows s p job worker_ip found body loads valid
                  (refuse_if-ok namespace_denied (is_secret_namespace p.namespace) plain))
