-- ===== src/Semaphore.antt =====
-- jobcommand/runtime_semaphore.go: the allocation semaphores of one command-runtime session.
-- A method that holds the coordinator's lock is one function from state to state. A channel is a
-- number: `next_channel` is what `make(chan struct{})` returns next, and `closed` lists the
-- channels on which `close` was called, the last first.
pub mod Invariant
pub mod Channels
pub mod Release
pub mod Session
pub mod Wakeup
pub mod Timeout
pub mod Acquired
mod Tests
use maand.Prelude.{
  ℕ, ◌+◌, ◌*◌, String, Bool, true, false, Option, none, some, List, [], ◌∷◌, ◌++◌, ℤ, pos, negsuc,
  ltb, ltb_ℤ, leb, sub_ℕ, wrap_int64, ◌==◌, comparable_ℕ, comparable_String, if◌then◌else◌,
  contains, add, remove, Map, lookup, put, length, Result, ok, err,
}

abbrev pub default_semaphore_capacity : ℕ
default_semaphore_capacity = 1

abbrev pub max_semaphore_capacity : ℕ
max_semaphore_capacity = 64

-- time.Second, and the two timeouts as a time.Duration, in nanoseconds
abbrev pub second : ℕ
second = 1_000_000_000

abbrev pub max_acquire_timeout : ℕ
max_acquire_timeout = 3600 * second

abbrev pub default_acquire_timeout : ℕ
default_acquire_timeout = 600 * second

pub record SemaphoreWaiter : Type 0 where
  pub allocation_id : String
  pub notify : ℕ

pub record JobSemaphore : Type 0 where
  pub capacity : ℕ
  pub holders : List String
  pub waiters : List SemaphoreWaiter

pub record SemaphoreCoordinator : Type 0 where
  pub semaphores : Map String JobSemaphore
  pub next_channel : ℕ
  pub closed : List ℕ

unfoldable pub new_semaphore_coordinator : SemaphoreCoordinator
new_semaphore_coordinator = record { semaphores = []; next_channel = 0; closed = [] }

pub data SemaphoreError : Type 0 where
  capacity_exceeds_maximum capacity_mismatch not_held not_holder : SemaphoreError

-- The tests of registerWait on a semaphore that is in the map: the new state, and the channel to
-- wait on, or none if the slot is held.
unfoldable pub admit :
    String → String → JobSemaphore → SemaphoreCoordinator → SemaphoreCoordinator × Option ℕ
admit scope_key allocation_id sem c =
    if contains allocation_id sem.holders
    then (c, none)
    else if ltb (length sem.holders) sem.capacity
    then (
      record c {
        semaphores =
            put scope_key (record sem { holders = add allocation_id sem.holders }) c.semaphores;
      },
      none,
    )
    else (
      record c {
        semaphores =
            put scope_key
              (record sem {
                waiters =
                    sem.waiters
                    ++ record { allocation_id = allocation_id; notify = c.next_channel } ∷ [];
              })
              c.semaphores;
        next_channel = c.next_channel + 1;
      },
      some c.next_channel,
    )

-- The two branches on `c.semaphores[scopeKey]`: create the semaphore, or compare capacities.
unfoldable pub register_found :
    String
    → String
    → ℕ
    → SemaphoreCoordinator
    → Option JobSemaphore
    → SemaphoreCoordinator × Result SemaphoreError (Option ℕ)
unfolding admit
register_found scope_key allocation_id capacity c none =
    let sem : JobSemaphore = record { capacity = capacity; holders = []; waiters = [] } in
    let (c', ch) =
      admit scope_key allocation_id sem
        (record c { semaphores = put scope_key sem c.semaphores }) in
    (c', ok ch)
register_found scope_key allocation_id capacity c (some sem) =
    let (c', ch) = admit scope_key allocation_id sem c in
    if sem.capacity == capacity then (c', ok ch) else (c, err capacity_mismatch)

unfoldable pub register_wait :
    String
    → String
    → ℕ
    → SemaphoreCoordinator
    → SemaphoreCoordinator × Result SemaphoreError (Option ℕ)
unfolding register_found
register_wait scope_key allocation_id capacity c =
    register_found scope_key allocation_id capacity c (lookup scope_key c.semaphores)

unfoldable pub clamp_capacity : ℤ → ℕ
clamp_capacity (pos n) = if ltb n 1 then default_semaphore_capacity else n
clamp_capacity (negsuc n) = default_semaphore_capacity

-- What a call of acquire has come to when it returns, or when it blocks in its select.
pub data Acquire : Type 0 where
  failed : SemaphoreError → Acquire
  acquired : Acquire
  waiting : ℕ → Acquire

abbrev pub acquire_reply : Result SemaphoreError (Option ℕ) → Acquire
acquire_reply (ok none) = acquired
acquire_reply (ok (some ch)) = waiting ch
acquire_reply (err e) = failed e

-- acquire, up to its select
unfoldable pub acquire : String → String → ℤ → SemaphoreCoordinator → SemaphoreCoordinator × Acquire
unfolding clamp_capacity register_wait
acquire scope_key allocation_id requested c =
    let capacity = clamp_capacity requested in
    let (c', r) = register_wait scope_key allocation_id capacity c in
    if ltb max_semaphore_capacity capacity
    then (c, failed capacity_exceeds_maximum)
    else (c', acquire_reply r)

-- The filter loop of cancelWait.
unfoldable pub without_channel : ℕ → List SemaphoreWaiter → List SemaphoreWaiter
without_channel ch [] = []
without_channel ch (w ∷ ws) =
    let remaining = without_channel ch ws in if w.notify == ch then remaining else w ∷ remaining

unfoldable pub cancel_wait : String → ℕ → SemaphoreCoordinator → SemaphoreCoordinator
unfolding without_channel
cancel_wait scope_key ch c = elim (lookup scope_key c.semaphores) [
  | none ↦ c
  | some sem ↦ record c {
    semaphores =
        put scope_key (record sem { waiters = without_channel ch sem.waiters }) c.semaphores;
  }
]

-- The branch of its select that a blocked acquire takes.
pub data WaitEnd : Type 0 where
  channel_closed context_done : WaitEnd

-- `ctx.Err()`
pub data WaitError : Type 0 where
  context_error : WaitError

-- acquire, from its select on
abbrev pub finish_wait :
    WaitEnd → String → ℕ → SemaphoreCoordinator → SemaphoreCoordinator × Result WaitError (Unit {0})
finish_wait channel_closed scope_key ch c = (c, ok tt)
finish_wait context_done scope_key ch c = (cancel_wait scope_key ch c, err context_error)

-- The loop of grantNextWaiterLocked, over the waiters that are left: the holders, the waiters and
-- the closed channels when it stops.
unfoldable pub grant_waiters :
    ℕ → List String → List SemaphoreWaiter → List ℕ → List String × List SemaphoreWaiter × List ℕ
grant_waiters capacity holders [] closed = (holders, [], closed)
grant_waiters capacity holders (next ∷ ws) closed = elim (ltb (length holders) capacity) [
  | true ↦ grant_waiters capacity (add next.allocation_id holders) ws (next.notify ∷ closed)
  | false ↦ (holders, next ∷ ws, closed)
]

unfoldable pub grant_next_waiter :
    String → JobSemaphore → SemaphoreCoordinator → SemaphoreCoordinator
unfolding grant_waiters
grant_next_waiter scope_key sem c =
    let (holders, waiters, closed) = grant_waiters sem.capacity sem.holders sem.waiters c.closed in
    record c {
      semaphores = put scope_key (record sem { holders = holders; waiters = waiters }) c.semaphores;
      closed = closed;
    }

unfoldable pub release :
    String → String → SemaphoreCoordinator → SemaphoreCoordinator × Result SemaphoreError (Unit {0})
unfolding grant_next_waiter
release scope_key allocation_id c = elim (lookup scope_key c.semaphores) [
  | none ↦ (c, err not_held)
  | some sem ↦
      if contains allocation_id sem.holders
      then (
        grant_next_waiter scope_key (record sem { holders = remove allocation_id sem.holders }) c,
        ok tt,
      )
      else (c, err not_holder)
]

pub record SemaphoreStatus : Type 0 where
  pub name : String
  pub capacity : ℕ
  pub holders : List String
  pub waiting : ℕ
  pub available : ℤ

unfoldable pub status : String → SemaphoreCoordinator → SemaphoreStatus × Bool
status scope_key c = elim (lookup scope_key c.semaphores) [
  | none ↦ (
    record { name = scope_key; capacity = 0; holders = []; waiting = 0; available = pos 0 },
    false,
  )
  | some sem ↦ (
    record {
      name = scope_key;
      capacity = sem.capacity;
      holders = sem.holders;
      waiting = length sem.waiters;
      available = sub_ℕ sem.capacity (length sem.holders);
    },
    true,
  )
]

-- Seconds as a time.Duration, whose product wraps like any int64.
unfoldable pub normalize_acquire_timeout : ℤ → ℤ
normalize_acquire_timeout (negsuc n) = pos default_acquire_timeout
normalize_acquire_timeout (pos seconds) =
    let timeout = wrap_int64 (seconds * second) in
    if leb seconds 0
    then pos default_acquire_timeout
    else if ltb_ℤ (pos max_acquire_timeout) timeout
    then pos max_acquire_timeout
    else timeout
