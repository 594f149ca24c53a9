-- ===== src/Runtime/Confined.antt =====
-- What the requests of job commands can change in the store.
use maand.Prelude.{
  bind-ok, String, Bool, true, false, not, ◌&&◌, ◌||◌, ◌≡◌, refl, ◌∙◌, nat_beq, pos, ◌==◌,
  comparable_String, Result, ok, err, ◌>>=◌,
}
use maand.Text.{is_empty}
use maand.Kv.{Store, find, put_value, put_text, delete_key}
use maand.Kv.Lookups.{find-put_value, find-delete_key}
use maand.Kv.Secrets.{Vault, SecretError, encrypt_plaintext, put_secret, stored_secret}
use maand.Runtime.{
  Method, http_get, http_put, http_delete, http_post, other_method, Request, StoreKeyPayload, Tx,
  ApiError, missing_key_fields, namespace_denied, write_during_health, internal_error,
  method_not_allowed, Response, failed, done, status_code, resolve_allocation, decode_body,
  refuse_if,
}
use maand.Runtime.Access.{
  is_secret_namespace, vars_job_namespace, validate_read_namespace, validate_store_key_payload,
  validate_store_secret_payload, validate_store_secret_key_payload,
}
use maand.Runtime.Handlers.{
  reply_done, handle_store_key_get, handle_store_keys_list, handle_command_demands_get,
  handle_store_key_put, handle_store_key_delete, handle_store_secret_put,
  handle_store_secret_delete, deleted, stored, Route, store_keys, store_keys_list, store_secret,
  demands, serve, serve_store_keys, serve_store_keys_list, serve_store_secret,
  serve_command_demands,
}
use maand.Runtime.Guards.{reply_done-bind, refuse_if-ok, reply_done-deleted}
use maand.Runtime.Writable.{
  writable_by_job, writable, another_key, store_key_payload-writable, vars-writable,
  secret_namespace-writable,
}

-- An answer that is an error comes with the store as it was, and so does each key that the request may
-- not write.
module _ (tx : Tx) (r : Request StoreKeyPayload) (s : Store) where
  abbrev pub Keeps : Response × Store → Type 0
  Keeps answer =
      (nat_beq (status_code answer.0) 200 ≡ false → answer.1 ≡ s)
      × ((m j : String) → writable tx r m j ≡ false → find m j answer.1 ≡ find m j s)

  refused : (e : ApiError) → Keeps (failed e, s)
  refused e = (λ _. refl, λ m j _. refl)

  next :
      {A : Type 0} (x : Result ApiError A) (f : A → Result ApiError Store)
      → ((a : A) → x ≡ ok a → Keeps (reply_done s (f a)))
      → Keeps (reply_done s (x >>= f))
  next x f step = reply_done-bind Keeps s x f refused step

  -- A write of one key that the request may write.
  written :
      (job worker_ip n k : String) (s' : Store)
      → resolve_allocation tx r ≡ ok (job, worker_ip)
      → (r.event == "health_check") ≡ false
      → writable_by_job job r.event n k ≡ true
      → ((m j : String) → (m == n && j == k) ≡ false → find m j s' ≡ find m j s)
      → Keeps (done, s')
  written job worker_ip n k s' e awake own rest =
      (λ h. absurd (cc), λ m j h. rest m j (another_key tx r job worker_ip n k m j e awake own h))

  put-elsewhere :
      (n k value : String) (trim : Bool) (m j : String)
      → (m == n && j == k) ≡ false
      → find m j (put_value n k value (pos 0) trim s) ≡ find m j s
  put-elsewhere n k value trim m j other =
      find-put_value n k value (pos 0) trim s m j ∙ rw other refl

  delete-elsewhere :
      (n k : String) (m j : String)
      → (m == n && j == k) ≡ false
      → find m j (delete_key n k s).0 ≡ find m j s
  delete-elsewhere n k m j other = find-delete_key n k s m j ∙ rw other refl

  put-Keeps : Keeps (handle_store_key_put tx r s)
  unfolding handle_store_key_put
  put-Keeps = next (resolve_allocation tx r) _ λ (job, worker_ip) e.
      next (decode_body r.body) _ λ p _.
        next (validate_store_key_payload tx p job worker_ip r.event true) _ λ _ valid.
          next (refuse_if namespace_denied (is_secret_namespace p.namespace)) _ λ _ _.
            next (refuse_if write_during_health (r.event == "health_check")) _ λ _ awake.
              written job worker_ip p.namespace p.key (put_text p.namespace p.key p.value (pos 0) s)
                e (refuse_if-ok write_during_health (r.event == "health_check") awake)
                (store_key_payload-writable tx p job worker_ip r.event valid)
                (put-elsewhere p.namespace p.key p.value true)

  delete-Keeps :
      (job worker_ip : String) (p : StoreKeyPayload)
      → resolve_allocation tx r ≡ ok (job, worker_ip)
      → writable_by_job job r.event p.namespace p.key ≡ true
      → Keeps (
          reply_done s (
            refuse_if write_during_health (r.event == "health_check") >>= λ _.
            deleted (delete_key p.namespace p.key s)))
  delete-Keeps job worker_ip p e own =
      next (refuse_if write_during_health (r.event == "health_check")) _ λ _ awake.
        reply_done-deleted Keeps s (delete_key p.namespace p.key s) refused λ _.
          written job worker_ip p.namespace p.key (delete_key p.namespace p.key s).0 e
            (refuse_if-ok write_during_health (r.event == "health_check") awake) own
            (delete-elsewhere p.namespace p.key)

  store_key_delete-Keeps : Keeps (handle_store_key_delete tx r s)
  unfolding handle_store_key_delete
  store_key_delete-Keeps = next (resolve_allocation tx r) _ λ (job, worker_ip) e.
      next (decode_body r.body) _ λ p _.
        next (refuse_if missing_key_fields (is_empty p.namespace || is_empty p.key)) _ λ _ _.
          next (refuse_if namespace_denied (is_secret_namespace p.namespace)) _ λ _ _.
            next (refuse_if namespace_denied (not (p.namespace == vars_job_namespace job))) _
              λ _ own. next (validate_read_namespace tx p.namespace job worker_ip) _ λ _ _.
                delete-Keeps job worker_ip p e (
                  vars-writable p.namespace p.key job r.event (
                    refuse_if-ok namespace_denied (not (p.namespace == vars_job_namespace job))
                      own))

  secret_put-stored :
      (v : Vault) (job worker_ip : String) (p : StoreKeyPayload) (x : Result SecretError String)
      → resolve_allocation tx r ≡ ok (job, worker_ip)
      → (r.event == "health_check") ≡ false
      → writable_by_job job r.event p.namespace p.key ≡ true
      → Keeps (reply_done s (stored (stored_secret p.namespace p.key (pos 0) s x)))
  secret_put-stored v job worker_ip p (err fault) e awake own = refused internal_error
  secret_put-stored v job worker_ip p (ok text) e awake own =
      written job worker_ip p.namespace p.key (put_value p.namespace p.key text (pos 0) false s) e
        awake own (put-elsewhere p.namespace p.key text false)

  secret_put-Keeps : (v : Vault) → Keeps (handle_store_secret_put v tx r s)
  unfolding handle_store_secret_put validate_store_secret_payload put_secret
  secret_put-Keeps v = next (resolve_allocation tx r) _ λ (job, worker_ip) e.
      next (decode_body r.body) _ λ p _.
        next (validate_store_secret_payload p job worker_ip) _ λ _ valid.
          next (refuse_if write_during_health (r.event == "health_check")) _ λ _ awake.
            secret_put-stored v job worker_ip p (encrypt_plaintext v p.value) e
              (refuse_if-ok write_during_health (r.event == "health_check") awake)
              (secret_namespace-writable p.namespace p.key job worker_ip r.event
                (bind-ok
                  (refuse_if missing_key_fields
                    (is_empty p.namespace || is_empty p.key || is_empty p.value))
                  _ tt valid).2)

  secret_delete-Keeps : Keeps (handle_store_secret_delete tx r s)
  unfolding handle_store_secret_delete validate_store_secret_key_payload
  secret_delete-Keeps = next (resolve_allocation tx r) _ λ (job, worker_ip) e.
      next (decode_body r.body) _ λ p _.
        next (validate_store_secret_key_payload p job worker_ip) _ λ _ valid.
          delete-Keeps job worker_ip p e (
            secret_namespace-writable p.namespace p.key job worker_ip r.event
              (bind-ok (refuse_if missing_key_fields (is_empty p.namespace || is_empty p.key)) _ tt
                valid).2)

  unchanged : (response : Response) → Keeps (response, s)
  unchanged response = (λ _. refl, λ m j _. refl)

module _ (v : Vault) (tx : Tx) (r : Request StoreKeyPayload) (s : Store) where
  on_keys : (method : Method) → Keeps tx r s (serve_store_keys v tx method r s)
  on_keys http_get = unchanged tx r s (handle_store_key_get v tx r s)
  on_keys http_put = put-Keeps tx r s
  on_keys http_delete = store_key_delete-Keeps tx r s
  on_keys http_post = unchanged tx r s method_not_allowed
  on_keys other_method = unchanged tx r s method_not_allowed

  on_list : (method : Method) → Keeps tx r s (serve_store_keys_list tx method r s)
  on_list http_get = unchanged tx r s (handle_store_keys_list tx r s)
  on_list http_put = unchanged tx r s method_not_allowed
  on_list http_delete = unchanged tx r s method_not_allowed
  on_list http_post = unchanged tx r s method_not_allowed
  on_list other_method = unchanged tx r s method_not_allowed

  on_secret : (method : Method) → Keeps tx r s (serve_store_secret v tx method r s)
  on_secret http_get = unchanged tx r s method_not_allowed
  on_secret http_put = secret_put-Keeps tx r s v
  on_secret http_delete = secret_delete-Keeps tx r s
  on_secret http_post = unchanged tx r s method_not_allowed
  on_secret other_method = unchanged tx r s method_not_allowed

  on_demands : (method : Method) → Keeps tx r s (serve_command_demands tx method r s)
  on_demands http_get = unchanged tx r s (handle_command_demands_get tx r)
  on_demands http_put = unchanged tx r s method_not_allowed
  on_demands http_delete = unchanged tx r s method_not_allowed
  on_demands http_post = unchanged tx r s method_not_allowed
  on_demands other_method = unchanged tx r s method_not_allowed

-- Whatever is asked of the routes of the store and of the demands: an answer whose status is not 200
-- comes with the store as it was, and in every case each key that the documentation does not let the
-- job of the allocation write on this event, during a health check any key, is found as it was.
pub serve-Keeps :
    (v : Vault) (tx : Tx) (route : Route) (r : Request StoreKeyPayload) (s : Store)
    → Keeps tx r s (serve v tx route r s)
unfolding serve
serve-Keeps v tx store_keys r s = on_keys v tx r s r.method
serve-Keeps v tx store_keys_list r s = on_list v tx r s r.method
serve-Keeps v tx store_secret r s = on_secret v tx r s r.method
serve-Keeps v tx demands r s = on_demands v tx r s r.method
