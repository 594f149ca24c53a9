-- ===== src/Runtime/Slots.antt =====
-- jobcommand/runtime_semaphore_handlers.go: the semaphore routes of the runtime API. A request to
-- acquire is answered, or it blocks on a channel; what it is answered later is acquire_granted or a
-- timeout. The deadline of the connection is not modelled.
use maand.Prelude.{ℕ, String, Bool, true, false, ℤ, pos, Result, ok, err, ◌>>=◌}
use maand.Text.{concat_text, is_empty}
use maand.Semaphore.{
  default_semaphore_capacity, SemaphoreCoordinator, SemaphoreStatus, SemaphoreError, Acquire,
  acquire, failed, acquired, waiting, release, status, normalize_acquire_timeout,
}
use maand.Runtime.{
  Method, http_get, http_post, Request, Tx, ApiError, missing_key_fields, semaphore_conflict,
  Response, method_not_allowed, done, acquired_of, status_of, resolve_allocation, decode_body,
  refuse_if,
}
use maand.Runtime.Handlers.{reply}

pub record SemaphoreAcquirePayload : Type 0 where
  pub name : String
  pub capacity : ℤ
  pub timeout_seconds : ℤ

pub record SemaphoreReleasePayload : Type 0 where
  pub name : String

unfoldable pub semaphore_scope_key : String → String → String → String
unfolding concat_text
semaphore_scope_key job event name =
    concat_text job (concat_text "/" (concat_text event (concat_text "/" name)))

pub data Served : Type 0 where
  answered : Response → Served
  -- the channel, and the timeout of the wait in nanoseconds
  blocked : ℕ → ℤ → Served

abbrev pub served :
    SemaphoreCoordinator
    → Result ApiError (SemaphoreCoordinator × Served)
    → SemaphoreCoordinator × Served
served c (err e) = (c, answered (Response.failed e))
served c (ok result) = result

-- The answer after acquire has returned nil.
unfoldable pub acquire_granted : String → String → String → SemaphoreCoordinator → Response
acquire_granted scope_key name allocation_id c = acquired_of (record {
  name = name;
  allocation_id = allocation_id;
  capacity = (status scope_key c).0.capacity;
  acquired = true;
})

abbrev pub acquire_answer :
    String → String → String → ℤ → SemaphoreCoordinator × Acquire → SemaphoreCoordinator × Served
acquire_answer scope_key name allocation_id timeout (c, failed e) =
    (c, answered (Response.failed semaphore_conflict))
acquire_answer scope_key name allocation_id timeout (c, acquired) =
    (c, answered (acquire_granted scope_key name allocation_id c))
acquire_answer scope_key name allocation_id timeout (c, waiting ch) = (c, blocked ch timeout)

abbrev pub handle_semaphore_acquire :
    Tx → Request SemaphoreAcquirePayload → SemaphoreCoordinator → SemaphoreCoordinator × Served
handle_semaphore_acquire tx r c = served c (
    resolve_allocation tx r >>= λ (job, worker_ip). decode_body r.body >>= λ p.
    refuse_if missing_key_fields (is_empty p.name) >>= λ _.
    let scope_key = semaphore_scope_key job r.event p.name in
    ok (
      acquire_answer scope_key p.name r.allocation_id (normalize_acquire_timeout p.timeout_seconds)
        (acquire scope_key r.allocation_id p.capacity c)))

abbrev pub on_post :
    SemaphoreCoordinator → Method → SemaphoreCoordinator × Served → SemaphoreCoordinator × Served
on_post c http_post result = result
on_post c _ result = (c, answered method_not_allowed)

unfoldable pub serve_semaphore_acquire :
    Tx → Request SemaphoreAcquirePayload → SemaphoreCoordinator → SemaphoreCoordinator × Served
unfolding resolve_allocation semaphore_scope_key acquire_granted
serve_semaphore_acquire tx r c = on_post c r.method (handle_semaphore_acquire tx r c)

abbrev pub release_answer :
    SemaphoreCoordinator × Result SemaphoreError (Unit {0}) → SemaphoreCoordinator × Served
release_answer (c, err e) = (c, answered (Response.failed semaphore_conflict))
release_answer (c, ok _) = (c, answered done)

abbrev pub handle_semaphore_release :
    Tx → Request SemaphoreReleasePayload → SemaphoreCoordinator → SemaphoreCoordinator × Served
handle_semaphore_release tx r c = served c (
    resolve_allocation tx r >>= λ (job, worker_ip). decode_body r.body >>= λ p.
    refuse_if missing_key_fields (is_empty p.name) >>= λ _.
    ok (release_answer (release (semaphore_scope_key job r.event p.name) r.allocation_id c)))

unfoldable pub serve_semaphore_release :
    Tx → Request SemaphoreReleasePayload → SemaphoreCoordinator → SemaphoreCoordinator × Served
unfolding resolve_allocation semaphore_scope_key
serve_semaphore_release tx r c = on_post c r.method (handle_semaphore_release tx r c)

abbrev pub status_answer : String → SemaphoreStatus × Bool → SemaphoreStatus
status_answer name (found_status, true) = record found_status { name = name }
status_answer name (found_status, false) = record found_status {
  name = name;
  capacity = default_semaphore_capacity;
  available = pos default_semaphore_capacity;
}

abbrev pub handle_semaphore_status {ℓ} :
    {A : Type ℓ} → Tx → Request A → String → SemaphoreCoordinator → Response
handle_semaphore_status tx r name c = reply (
    resolve_allocation tx r >>= λ (job, worker_ip).
    refuse_if missing_key_fields (is_empty name) >>= λ _.
    ok (status_of (status_answer name (status (semaphore_scope_key job r.event name) c))))

abbrev pub on_get : Method → Response → Response
on_get http_get response = response
on_get _ response = method_not_allowed

-- The name is the one of the query of the URL.
unfoldable pub serve_semaphore_status {ℓ} :
    {A : Type ℓ} → Tx → Request A → String → SemaphoreCoordinator → Response
unfolding resolve_allocation semaphore_scope_key
serve_semaphore_status tx r name c = on_get r.method (handle_semaphore_status tx r name c)
