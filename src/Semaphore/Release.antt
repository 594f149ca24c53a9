-- ===== src/Semaphore/Release.antt =====
-- Who gets the slot that a release frees (release and grantNextWaiterLocked of
-- jobcommand/runtime_semaphore.go), and what a wait that ends at the same moment leaves behind.
use maand.Prelude.{
  ℕ, suc, ◌+◌, ◌<◌, String, Bool, true, false, Option, none, some, List, [], ◌∷◌, ◌≡◌, refl, ap,
  arith, ltb, ==_iff, comparable_ℕ, comparable_String, if◌then◌else◌, contains, add, remove,
  contains-add, length-add, length-remove, lookup, put, lookup-put_self, length, Option-cases, inl,
  inr, ok, err, ==_refl, pos, ◌-◌,
}
use maand.Semaphore.{
  JobSemaphore, SemaphoreWaiter, SemaphoreCoordinator, cancel_wait, finish_wait, context_done,
  context_error, grant_waiters, grant_next_waiter, release, status,
}
use maand.Semaphore.Invariant.{AllSound}

abbrev holders_at : String → SemaphoreCoordinator → List String
holders_at scope c = elim (lookup scope c.semaphores) [ none ↦ [] | some sem ↦ sem.holders ]

abbrev pub is_holder : String → Option JobSemaphore → Bool
is_holder a none = false
is_holder a (some sem) = contains a sem.holders

grant_waiters_full :
    (n : ℕ) (hs : List String) (ws : List SemaphoreWaiter) (cl : List ℕ)
    → ltb (length hs) n ≡ false
    → grant_waiters n hs ws cl ≡ (hs, ws, cl)
unfolding grant_waiters
grant_waiters_full n hs [] cl h = refl
grant_waiters_full n hs (w ∷ ws) cl h = rw (h, grant_waiters) refl

grant_waiters_one :
    (n : ℕ) (hs : List String) (w : SemaphoreWaiter) (ws : List SemaphoreWaiter) (cl : List ℕ)
    → suc (length hs) ≡ n
    → contains w.allocation_id hs ≡ false
    → grant_waiters n hs (w ∷ ws) cl ≡ (add w.allocation_id hs, ws, w.notify ∷ cl)
unfolding grant_waiters
grant_waiters_one n hs w ws cl full new =
    let free : ltb (length hs) n ≡ true = ground arith in
    rw (free, grant_waiters)
      (grant_waiters_full n (add w.allocation_id hs) ws (w.notify ∷ cl)
        (ground (arith, length-add w.allocation_id hs)))

module _ (scope allocation : String) (c : SemaphoreCoordinator) (sem : JobSemaphore)
    (w : SemaphoreWaiter) (ws : List SemaphoreWaiter) (all : AllSound c)
    (found : lookup scope c.semaphores ≡ some sem) (held : contains allocation sem.holders ≡ true)
    (queue : sem.waiters ≡ w ∷ ws)
    (new : contains w.allocation_id (remove allocation sem.holders) ≡ false) where
  one_free : suc (length (remove allocation sem.holders)) ≡ sem.capacity
  one_free =
      let s = all.at scope sem found in
      let e : 0 < length sem.waiters = omega (arith, ap length queue) in
      omega (arith, s.busy e, length-remove allocation sem.holders s.distinct, ones)
    where
      ones : ◌≡◌ {A = ℕ} (if contains allocation sem.holders then 1 else 0) 1
      ones = rw held refl

  -- A release by a holder gives the slot to the first waiter, unless that allocation holds the
  -- semaphore already: the first waiter becomes a holder in place of the caller, it alone leaves
  -- the queue, and its channel alone is closed.
  pub release_hands_over : release scope allocation c ≡ (
    record c {
      semaphores =
          put scope
            (record sem {
              holders = add w.allocation_id (remove allocation sem.holders);
              waiters = ws;
            })
            c.semaphores;
      closed = w.notify ∷ c.closed;
    },
    ok tt,
  )
  unfolding release grant_next_waiter
  release_hands_over =
      rw (found, release)
        (rw held (
          rw queue (
            rw
              (grant_waiters_one sem.capacity (remove allocation sem.holders) w ws c.closed one_free
                new)
              refl)))

  kept_holder :
      is_holder w.allocation_id
        (lookup scope (cancel_wait scope w.notify (release scope allocation c).0).semaphores)
      ≡ true
  unfolding cancel_wait
  kept_holder = rw release_hands_over (
      rw (lookup-put_self {K = String} {V = JobSemaphore} scope _ c.semaphores, cancel_wait)
        (rw (lookup-put_self {K = String} {V = JobSemaphore} scope _ _)
          (rw contains-add (ground (arith, ==_iff w.allocation_id w.allocation_id)))))

  -- Where a release hands the slot to the first waiter, it closes that waiter's channel; where
  -- that waiter's select takes the branch of its ended context all the same, acquire returns the
  -- context's error, and the allocation stays a holder of the semaphore.
  pub timeout_race_leaks :
      let released = (release scope allocation c).0 in
      let (after, result) = finish_wait context_done scope w.notify released in
      (contains w.notify released.closed ≡ true)
      × (result ≡ err context_error)
      × (is_holder w.allocation_id (lookup scope after.semaphores) ≡ true)
  unfolding contains
  timeout_race_leaks = (rw release_hands_over (ground (arith, ==_refl w.notify)), refl, kept_holder)

-- The status of a sound semaphore: as many slots are free as holders are missing, and none where
-- somebody waits.
pub status_counts :
    (scope : String) (c : SemaphoreCoordinator)
    → AllSound c
    → (status scope c).1 ≡ true
    → (free : ℕ) × ((status scope c).0.available ≡ pos free)
      × (length (status scope c).0.holders + free ≡ (status scope c).0.capacity)
      × (0 < (status scope c).0.waiting → free ≡ 0)
unfolding status
status_counts scope c all h = elim (Option-cases (lookup scope c.semaphores)) [
  | inl missing ↦ absurd (cc (rw (missing, status) at h))
  | inr (sem, found) ↦
      let s = all.at scope sem found in
      rw (found, status)
        (
          sem.capacity - length sem.holders,
          ground (arith, s.bounded),
          omega (arith, s.bounded),
          λ w. omega (arith, s.busy w),
        )
]

-- A release of a semaphore that the caller does not hold is refused and changes nothing.
pub release_refused :
    (scope allocation : String) (c : SemaphoreCoordinator)
    → is_holder allocation (lookup scope c.semaphores) ≡ false
    → (release scope allocation c).0 ≡ c
unfolding release
release_refused scope a c h = elim (Option-cases (lookup scope c.semaphores)) [
  | inl missing ↦ rw (missing, release) refl
  | inr (sem, found) ↦ rw (found, release) (ground (arith, ap (is_holder a) found))
]
