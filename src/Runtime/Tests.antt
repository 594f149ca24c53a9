-- ===== src/Runtime/Tests.antt =====
-- Requests of two jobs, one of which demands a command of the other.
use maand.Prelude.{
  String, Bool, true, false, none, some, List, [], ◌∷◌, ◌≡◌, refl, ap, arith, pos,
  comparable_String, lookup, put, contains, add, Option,
}
use mathlib.Core.Path.{subst}
use maand.Text.{concat_text, trim_space, has_prefix, length_text}
use maand.Utils.{unique, intersection}
use maand.Deploy.{Allocation}
use maand.Kv.{Entry, Store, new_store, find, put_value, namespace_map}
use maand.Kv.Secrets.{Vault, IsVault, put_secret}
use maand.Rollout.{job_catalog_namespace}
use maand.Semaphore.{SemaphoreCoordinator, new_semaphore_coordinator, acquire, status}
use maand.Runtime.{
  Method, http_get, http_put, http_delete, http_post, Request, StoreKeyPayload, JobCommandRow, Tx,
  decoded, Response, SemaphoreAcquireResponse, done, value_of, resolve_allocation, find_allocation,
  acquired_of, failed, namespace_denied,
}
use maand.Runtime.Access.{is_secret_namespace}
use maand.Runtime.Handlers.{
  serve, store_keys, store_secret, handle_store_key_get, handle_store_key_put,
}
use maand.Runtime.Slots.{SemaphoreAcquirePayload, answered, serve_semaphore_acquire}
use maand.Runtime.Confined.{Keeps, serve-Keeps}
use maand.Runtime.Isolated.{job_of, serve-isolated}
use maand.Runtime.Answers.{serve-put-get}
use maand.Runtime.Revealed.{serve-put_secret-get}
use maand.Runtime.Held.{Granted, serve_acquire-Granted}

abbrev allocation : String → String → Allocation
allocation id job = record {
  alloc_id = id;
  job = job;
  worker_ip = "10.0.0.1";
  removed = false;
  disabled = false;
  new_version = none;
}

abbrev rows : List JobCommandRow
rows =
    record {
      job = "web";
      name = "command_migrate";
      demand_job = some "db";
      demand_command = some "command_schema";
      demand_config = some "{}";
    }
    ∷ []

abbrev tx : Tx
tx = record {
  allocations = some (allocation "a1" "web" ∷ allocation "a2" "db" ∷ []);
  job_commands = some rows;
}

abbrev payload : String → StoreKeyPayload
payload namespace = record { namespace = namespace; key = "password"; value = " p " }

abbrev request : String → Method → String → Request StoreKeyPayload
request allocation_id method namespace = record {
  method = method;
  allocation_id = allocation_id;
  event = "pre_deploy";
  command = "command_setup";
  body = decoded (payload namespace);
}

-- A cipher that only marks what it seals.
abbrev vault : Vault
vault = record {
  key_loads = true;
  nonce_size = 2;
  random = some "nn";
  encode = λ raw. raw;
  decode = λ text. some text;
  gcm_seal = λ nonce plaintext. plaintext;
  gcm_open = λ nonce sealed. some sealed;
}

abbrev after : Store
after = put_value "vars/job/web" "password" " p " (pos 0) true new_store

put_answered :
    serve vault tx store_keys (request "a1" http_put "vars/job/web") new_store ≡ (done, after)
unfolding serve handle_store_key_put resolve_allocation concat_text is_secret_namespace has_prefix
put_answered = refl

serve-Keeps_example :
    Keeps tx
      (request "a1" http_put "vars/job/web")
      new_store
      (serve vault tx store_keys (request "a1" http_put "vars/job/web") new_store)
serve-Keeps_example =
    serve-Keeps vault tx store_keys (request "a1" http_put "vars/job/web") new_store

job_differs : ¬ (
    job_of (resolve_allocation tx (request "a1" http_put "vars/job/web"))
    ≡ job_of (resolve_allocation tx (request "a2" http_delete "vars/job/web")))
unfolding resolve_allocation find_allocation
job_differs same = absurd (cc)

abbrev present : Option Entry → Bool
present none = false
present (some e) = true

key_changes : ¬ (
    find "vars/job/web" "password"
      (serve vault tx store_keys (request "a1" http_put "vars/job/web") new_store).1
    ≡ find "vars/job/web" "password" new_store)
unfolding find lookup put_value put namespace_map new_store
key_changes same =
    let stored : find "vars/job/web" "password" after ≡ find "vars/job/web" "password" new_store =
      subst
        (λ (x : Response × Store).
          find "vars/job/web" "password" x.1 ≡ find "vars/job/web" "password" new_store)
        put_answered same in
    absurd (cc (ap present stored))

serve-isolated_example :
    find "vars/job/web" "password"
      (serve vault tx store_keys (request "a2" http_delete "vars/job/web") after).1
    ≡ find "vars/job/web" "password" after
serve-isolated_example =
    serve-isolated vault tx store_keys store_keys (request "a1" http_put "vars/job/web")
      (request "a2" http_delete "vars/job/web") new_store after "vars/job/web" "password"
      key_changes job_differs

serve-put-get_example :
    (serve vault tx store_keys
      (record (request "a1" http_put "vars/job/web") { method = http_get })
      after).0
    ≡ value_of (record (payload "vars/job/web") { value = trim_space " p " })
serve-put-get_example =
    serve-put-get vault tx (request "a1" http_put "vars/job/web") rows new_store after
      (payload "vars/job/web") refl refl refl put_answered

-- The job web may read what the job db has, since it demands one of its commands.
abbrev of_db : Store
of_db = put_value "vars/job/db" "password" "q" (pos 0) true new_store

downstream_refused :
    handle_store_key_get vault tx (request "a2" http_get "vars/job/web") after
    ≡ failed namespace_denied
unfolding handle_store_key_get intersection contains concat_text job_catalog_namespace unique
downstream_refused = refl

size : (nonce : String) → "nn" ≡ nonce → length_text nonce ≡ 2
unfolding length_text
size nonce same = rw (← same) refl

vault-IsVault : IsVault vault
vault-IsVault = record {
  full_nonce = λ nonce drawn. size nonce (ground (arith, drawn));
  decode-encode = λ raw. refl;
  open-seal = λ nonce plaintext. refl;
}

abbrev sealed : Store
sealed = put_value "secrets/job/web" "password" "enc:v1:nn p " (pos 0) false new_store

secret_answered :
    serve vault tx store_secret (request "a1" http_put "secrets/job/web") new_store ≡ (done, sealed)
unfolding serve concat_text intersection contains job_catalog_namespace put_secret
secret_answered = refl

serve-put_secret-get_example :
    (serve vault tx store_keys
      (record (request "a1" http_put "secrets/job/web") { method = http_get })
      sealed).0
    ≡ value_of (payload "secrets/job/web")
serve-put_secret-get_example =
    serve-put_secret-get vault tx (request "a1" http_put "secrets/job/web") rows new_store sealed
      (payload "secrets/job/web") vault-IsVault refl refl refl secret_answered

abbrev migration : SemaphoreAcquirePayload
migration = record { name = "migration"; capacity = pos 2; timeout_seconds = pos 0 }

abbrev migrating : Request SemaphoreAcquirePayload
migrating = record {
  method = http_post;
  allocation_id = "a1";
  event = "pre_deploy";
  command = "command_setup";
  body = decoded migration;
}

abbrev granted_slot : SemaphoreAcquireResponse
granted_slot = record { name = "migration"; allocation_id = "a1"; capacity = 2; acquired = true }

abbrev migrated : SemaphoreCoordinator
migrated = record new_semaphore_coordinator {
  semaphores =
      ("web/pre_deploy/migration", record { capacity = 2; holders = "a1" ∷ []; waiters = [] }) ∷ [];
}

acquire_answered :
    serve_semaphore_acquire tx migrating new_semaphore_coordinator
    ≡ (migrated, answered (acquired_of granted_slot))
unfolding serve_semaphore_acquire acquire lookup new_semaphore_coordinator contains put status add
acquire_answered = refl

serve_acquire-Granted_example : Granted tx migrating migration migrated
serve_acquire-Granted_example =
    serve_acquire-Granted tx migrating migration new_semaphore_coordinator migrated granted_slot
      refl refl acquire_answered
