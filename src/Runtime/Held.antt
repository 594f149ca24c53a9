-- ===== src/Runtime/Held.antt =====
-- What an answer of the semaphore routes says: who holds the slot, and that it can be given back.
use maand.Prelude.{ℕ, String, false, ◌≡◌, refl, ap, ℤ, comparable_String, Result, ok, err, ◌>>=◌}
use mathlib.Core.Path.{subst}
use maand.Text.{is_empty}
use maand.Semaphore.{
  SemaphoreCoordinator, Acquire, failed, acquired, waiting, acquire, clamp_capacity, release,
  normalize_acquire_timeout,
}
use maand.Semaphore.Acquired.{Holds, acquire-Holds}
use maand.Runtime.{
  http_post, Request, Tx, ApiError, missing_key_fields, SemaphoreAcquireResponse, done, acquired_of,
  resolve_allocation, decoded, refuse_if,
}
use maand.Runtime.Slots.{
  SemaphoreAcquirePayload, SemaphoreReleasePayload, semaphore_scope_key, Served, answered, served,
  acquire_answer, serve_semaphore_acquire, serve_semaphore_release,
}
use maand.Runtime.Guards.{refuse_if-ok}

-- The request that gives back what a request asks for.
abbrev pub giving_back : Request SemaphoreAcquirePayload → String → Request SemaphoreReleasePayload
giving_back r name = record {
  method = http_post;
  allocation_id = r.allocation_id;
  event = r.event;
  command = r.command;
  body = decoded (record { name = name });
}

-- The allocation of a request holds a slot, and its release of that slot is answered with 200.
abbrev pub Granted :
    Tx → Request SemaphoreAcquirePayload → SemaphoreAcquirePayload → SemaphoreCoordinator → Type 0
Granted tx r p c =
    ((job : String) × (worker_ip : String) × (resolve_allocation tx r ≡ ok (job, worker_ip))
      × Holds (semaphore_scope_key job r.event p.name) r.allocation_id (clamp_capacity p.capacity)
          c)
    × ((serve_semaphore_release tx (giving_back r p.name) c).1 ≡ answered done)

release-done :
    (tx : Tx) (r : Request SemaphoreAcquirePayload) (name job worker_ip : String) (n : ℕ)
    (c : SemaphoreCoordinator)
    → resolve_allocation tx r ≡ ok (job, worker_ip)
    → is_empty name ≡ false
    → Holds (semaphore_scope_key job r.event name) r.allocation_id n c
    → (serve_semaphore_release tx (giving_back r name) c).1 ≡ answered done
unfolding serve_semaphore_release resolve_allocation release
release-done tx r name job worker_ip n c found named holds =
    rw found (rw named (rw (holds.1, release) (rw holds.2 refl)))

module _ {Goal : Type 0} (c c' : SemaphoreCoordinator) (a : SemaphoreAcquireResponse) where
  -- A guard of a request that is answered with a slot.
  let_through :
      {A : Type 0} (x : Result ApiError A) (f : A → Result ApiError (SemaphoreCoordinator × Served))
      → ((b : A) → x ≡ ok b → served c (f b) ≡ (c', answered (acquired_of a)) → Goal)
      → served c (x >>= f) ≡ (c', answered (acquired_of a))
      → Goal
  let_through (err e) f step h =
      absurd (cc (ap (λ (result : SemaphoreCoordinator × Served). result.1) h))
  let_through (ok b) f step h = step b refl h

at_once :
    (scope name allocation_id : String) (timeout : ℤ) (x : SemaphoreCoordinator × Acquire)
    (c' : SemaphoreCoordinator) (a : SemaphoreAcquireResponse)
    → acquire_answer scope name allocation_id timeout x ≡ (c', answered (acquired_of a))
    → (x.1 ≡ acquired) × (x.0 ≡ c')
at_once scope name allocation_id timeout (c, failed e) c' a h =
    absurd (cc (ap (λ (result : SemaphoreCoordinator × Served). result.1) h))
at_once scope name allocation_id timeout (c, acquired) c' a h =
    (refl, ap (λ (result : SemaphoreCoordinator × Served). result.0) h)
at_once scope name allocation_id timeout (c, waiting ch) c' a h =
    absurd (cc (ap (λ (result : SemaphoreCoordinator × Served). result.1) h))

-- If a POST to acquire a semaphore is answered at once with a slot, the allocation of its header holds
-- one of the semaphore of its job, event and name, whose capacity is the one asked for, and a POST to
-- release it with the same headers is then answered with 200.
pub serve_acquire-Granted :
    (tx : Tx) (r : Request SemaphoreAcquirePayload) (p : SemaphoreAcquirePayload)
    (c c' : SemaphoreCoordinator) (a : SemaphoreAcquireResponse)
    → r.method ≡ http_post
    → r.body ≡ decoded p
    → serve_semaphore_acquire tx r c ≡ (c', answered (acquired_of a))
    → Granted tx r p c'
unfolding serve_semaphore_acquire
serve_acquire-Granted tx r p c c' a posts body h = guards (rw (posts, body) at h)
  where
    guards :
        served c (
            resolve_allocation tx r >>= λ (job, worker_ip).
            refuse_if missing_key_fields (is_empty p.name) >>= λ _. ok (
              acquire_answer
                (semaphore_scope_key job r.event p.name)
                p.name
                r.allocation_id
                (normalize_acquire_timeout p.timeout_seconds)
                (acquire (semaphore_scope_key job r.event p.name) r.allocation_id p.capacity c)))
          ≡ (c', answered (acquired_of a))
        → Granted tx r p c'
    guards = let_through c c' a (resolve_allocation tx r) _ λ (job, worker_ip) found.
        let_through c c' a (refuse_if missing_key_fields (is_empty p.name)) _ λ _ named same.
          let scope = semaphore_scope_key job r.event p.name in
          let t =
            at_once scope p.name r.allocation_id (normalize_acquire_timeout p.timeout_seconds)
              (acquire scope r.allocation_id p.capacity c) c' a same in
          let holds : Holds scope r.allocation_id (clamp_capacity p.capacity) c' =
            subst (Holds scope r.allocation_id (clamp_capacity p.capacity)) t.1
              (acquire-Holds scope r.allocation_id p.capacity c t.0) in
          (
            (job, worker_ip, found, holds),
            release-done tx r p.name job worker_ip (clamp_capacity p.capacity) c' found
                (refuse_if-ok missing_key_fields (is_empty p.name) named) holds,
          )
