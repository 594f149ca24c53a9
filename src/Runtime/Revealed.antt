-- ===== src/Runtime/Revealed.antt =====
-- A secret that is put through the runtime API is what a GET of the same allocation answers.
use maand.Prelude.{
  bind-ok, String, true, false, not, ◌||◌, some, List, ◌≡◌, refl, ap, arith, pos, ◌==◌, ==_iff,
  comparable_String, Result, ok, err, ◌>>=◌,
}
use mathlib.Core.Path.{subst}
use maand.Text.{is_empty}
use maand.Text.Prefix.{has_prefix-concat_text}
use maand.Kv.{Store, put_value}
use maand.Kv.Client.{get-put_value}
use maand.Kv.Secrets.{
  Vault, IsVault, SecretError, encrypt_plaintext, put_secret, stored_secret, decrypt-encrypt,
}
use maand.Runtime.{
  http_get, http_put, Request, StoreKeyPayload, JobCommandRow, Tx, missing_key_fields,
  namespace_denied, write_during_health, Response, done, value_of, resolve_allocation, decoded,
  refuse_if,
}
use maand.Runtime.Access.{
  is_secret_namespace, secret_job_namespace, validate_secret_namespace,
  validate_store_secret_payload,
}
use maand.Runtime.Handlers.{
  reply_done, stored, handle_store_secret_put, store_keys, store_secret, serve,
}
use maand.Runtime.Guards.{refuse_if-ok}
use maand.Runtime.Writable.{secret_namespace-writable}
use maand.Runtime.Answers.{written-allowed, get_answers, passed, Read}

-- A payload that passed the checks of a secret has a namespace of secrets, and names a key.
secret_namespace-is_secret :
    (namespace job worker_ip : String)
    → validate_secret_namespace namespace job worker_ip ≡ ok tt
    → is_secret_namespace namespace ≡ true
unfolding validate_secret_namespace is_secret_namespace
secret_namespace-is_secret namespace job worker_ip h =
    let own = not (namespace == secret_job_namespace job) in
    let t = bind-ok (refuse_if namespace_denied own) _ tt h in
    let same : namespace ≡ secret_job_namespace job =
      (==_iff namespace (secret_job_namespace job)).0
        (ground (arith, refuse_if-ok namespace_denied own t.1)) in
    rw same (has_prefix-concat_text "secrets/job/" job)

secret-Read :
    (v : Vault) (tx : Tx) (r : Request StoreKeyPayload) (rows : List JobCommandRow) (s s' : Store)
    (p : StoreKeyPayload) (job worker_ip : String) (x : Result SecretError String)
    → IsVault v
    → resolve_allocation tx r ≡ ok (job, worker_ip)
    → r.body ≡ decoded p
    → tx.job_commands ≡ some rows
    → validate_store_secret_payload p job worker_ip ≡ ok tt
    → encrypt_plaintext v p.value ≡ x
    → reply_done s (stored (stored_secret p.namespace p.key (pos 0) s x)) ≡ (done, s')
    → Read v tx r s' p
unfolding validate_store_secret_payload
secret-Read v tx r rows s s' p job worker_ip (err e) laws found body loads valid seals same =
    absurd (cc (ap (λ (answer : Response × Store). answer.0) same))
secret-Read v tx r rows s s' p job worker_ip (ok text) laws found body loads valid seals same =
    let full = is_empty p.namespace || is_empty p.key || is_empty p.value in
    let t = bind-ok (refuse_if missing_key_fields full) _ tt valid in
    let named = refuse_if-ok missing_key_fields full t.1 in
    let w = get-put_value p.namespace p.key text (pos 0) false s in
    subst (λ x. Read v tx r x p) (ap (λ (answer : Response × Store). answer.1) same)
      (get_answers v tx r rows (put_value p.namespace p.key text (pos 0) false s) p job worker_ip
        w.0 p.value found body loads (ground (arith, named))
        (written-allowed job worker_ip r.event p.namespace p.key
          (secret_namespace-writable p.namespace p.key job worker_ip r.event t.2))
        w.1
        (rw (secret_namespace-is_secret p.namespace job worker_ip t.2)
          (rw w.2 (rw (decrypt-encrypt v p.value text laws seals) refl))))

-- If a PUT of a secret is answered with 200 then a GET of that key with the same headers, in the store
-- that it left and where the table job_commands can be read, answers with the secret in plain text, not
-- trimmed, provided that the cipher opens what it sealed.
pub serve-put_secret-get :
    (v : Vault) (tx : Tx) (r : Request StoreKeyPayload) (rows : List JobCommandRow) (s s' : Store)
    (p : StoreKeyPayload)
    → IsVault v
    → r.method ≡ http_put
    → r.body ≡ decoded p
    → tx.job_commands ≡ some rows
    → serve v tx store_secret r s ≡ (done, s')
    → (serve v tx store_keys (record r { method = http_get }) s').0 ≡ value_of p
unfolding serve handle_store_secret_put put_secret
serve-put_secret-get v tx r rows s s' p laws puts body loads h = guards (rw (puts, body) at h)
  where
    guards :
        reply_done s (
            resolve_allocation tx r >>= λ (job, worker_ip).
            validate_store_secret_payload p job worker_ip >>= λ _.
            refuse_if write_during_health (r.event == "health_check") >>= λ _.
            stored (put_secret v p.namespace p.key p.value (pos 0) s))
          ≡ (done, s')
        → Read v tx r s' p
    guards = passed s s' (resolve_allocation tx r) _ λ (job, worker_ip) found.
        passed s s' (validate_store_secret_payload p job worker_ip) _ λ _ valid.
          passed s s' (refuse_if write_during_health (r.event == "health_check")) _ λ _ _ same.
            secret-Read v tx r rows s s' p job worker_ip (encrypt_plaintext v p.value) laws found
              body loads valid refl same
