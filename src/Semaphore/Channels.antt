-- ===== src/Semaphore/Channels.antt =====
-- The notify channels of jobcommand/runtime_semaphore.go: who waits on a channel, and when it is
-- closed. Closing a channel twice panics in Go, and a waiter whose channel is never closed sleeps
-- until its context ends.
use maand.Prelude.{
  ℕ, ◌+◌, ◌≤◌, String, true, Option, none, some, List, [], ◌∷◌, ◌++◌, ◌≡◌, refl, arith, ltb, ==_iff,
  ◌==◌, comparable_ℕ, comparable_String, if◌then◌else◌, contains, add, remove, Distinct, Map,
  lookup, put, lookup-put_self, ap, Bool-cases, Option-cases, inl, inr, ℤ,
}
use maand.Semaphore.{
  JobSemaphore, SemaphoreWaiter, SemaphoreCoordinator, max_semaphore_capacity, admit,
  register_found, register_wait, clamp_capacity, acquire, without_channel, cancel_wait,
  grant_waiters, grant_next_waiter, release, new_semaphore_coordinator,
}

abbrev pub count : ℕ → List ℕ → ℕ
count ch [] = 0
count ch (x ∷ xs) = (if ch == x then 1 else 0) + count ch xs

-- How many waiters of a queue, and of all queues, wait on a channel.
unfoldable pub waiting_on : ℕ → List SemaphoreWaiter → ℕ
waiting_on ch [] = 0
waiting_on ch (w ∷ ws) = (if ch == w.notify then 1 else 0) + waiting_on ch ws

unfoldable pub pending : ℕ → Map String JobSemaphore → ℕ
pending ch [] = 0
pending ch ((k, sem) ∷ m) = waiting_on ch sem.waiters + pending ch m

abbrev pub waiting_at : ℕ → Option JobSemaphore → ℕ
waiting_at ch none = 0
waiting_at ch (some sem) = waiting_on ch sem.waiters

pub pending-put :
    (ch : ℕ) (k : String) (v : JobSemaphore) (m : Map String JobSemaphore)
    → pending ch (put k v m) + waiting_at ch (lookup k m) ≡ pending ch m + waiting_on ch v.waiters
unfolding pending put lookup
pending-put ch k v [] = omega arith
pending-put ch k v ((j, w) ∷ m) = ground (arith, pending-put ch k v m)

pub waiting_on-append :
    (ch : ℕ) (ws vs : List SemaphoreWaiter)
    → waiting_on ch (ws ++ vs) ≡ waiting_on ch ws + waiting_on ch vs
unfolding waiting_on
waiting_on-append ch [] vs = omega arith
waiting_on-append ch (w ∷ ws) vs = omega (arith, waiting_on-append ch ws vs)

-- Of a channel that was made, at most one waiter waits on it or it was closed at most once, and
-- never both; a channel that was not made yet is neither waited on nor closed.
pub record ChannelsOnce (c : SemaphoreCoordinator) : Type 0 where
  pub at :
      (ch : ℕ)
      → pending ch c.semaphores + count ch c.closed ≤ (if ltb ch c.next_channel then 1 else 0)

pub ChannelsOnce-new : ChannelsOnce new_semaphore_coordinator
unfolding new_semaphore_coordinator pending
ChannelsOnce-new = record { at = λ ch. ground arith }

admit-ChannelsOnce :
    (k a : String) (sem : JobSemaphore) (c : SemaphoreCoordinator)
    → lookup k c.semaphores ≡ some sem
    → ChannelsOnce c
    → ChannelsOnce (admit k a sem c).0
unfolding admit waiting_on
admit-ChannelsOnce k a sem c h once = record {
  at = λ ch.
      let w : SemaphoreWaiter = record { allocation_id = a; notify = c.next_channel } in
      ground (
        arith,
        once.at ch,
        pending-put ch k (record sem { holders = add a sem.holders }) c.semaphores,
        pending-put ch k (record sem { waiters = sem.waiters ++ w ∷ [] }) c.semaphores,
        waiting_on-append ch sem.waiters (w ∷ []),
      );
}

new_semaphore-ChannelsOnce :
    (k : String) (n : ℕ) (c : SemaphoreCoordinator)
    → lookup k c.semaphores ≡ none
    → ChannelsOnce c
    → ChannelsOnce (record c {
      semaphores = put k (record { capacity = n; holders = []; waiters = [] }) c.semaphores;
    })
unfolding waiting_on
new_semaphore-ChannelsOnce k n c h once = record {
  at = λ ch. ground (
    arith,
    once.at ch,
    pending-put ch k (record { capacity = n; holders = []; waiters = [] }) c.semaphores,
  );
}

register_found-ChannelsOnce :
    (k a : String) (n : ℕ) (c : SemaphoreCoordinator) (found : Option JobSemaphore)
    → lookup k c.semaphores ≡ found
    → ChannelsOnce c
    → ChannelsOnce (register_found k a n c found).0
unfolding register_found
register_found-ChannelsOnce k a n c none h once =
    admit-ChannelsOnce k a _ _ (lookup-put_self k _ c.semaphores)
      (new_semaphore-ChannelsOnce k n c h once)
register_found-ChannelsOnce k a n c (some sem) h once = elim (Bool-cases (sem.capacity == n)) [
  | inl same ↦ rw same (admit-ChannelsOnce k a sem c h once)
  | inr other ↦ rw other once
]

pub acquire-ChannelsOnce :
    (scope allocation : String) (requested : ℤ) (c : SemaphoreCoordinator)
    → ChannelsOnce c
    → ChannelsOnce (acquire scope allocation requested c).0
unfolding acquire register_wait
acquire-ChannelsOnce scope a n c once =
    elim (Bool-cases (ltb max_semaphore_capacity (clamp_capacity n))) [
      | inl over ↦ rw over once
      | inr fits ↦ rw fits (
          register_found-ChannelsOnce scope a (clamp_capacity n) c (lookup scope c.semaphores) refl
            once)
    ]

waiting_on-without :
    (ch d : ℕ) (ws : List SemaphoreWaiter) → waiting_on ch (without_channel d ws) ≤ waiting_on ch ws
unfolding waiting_on without_channel
waiting_on-without ch d [] = omega arith
waiting_on-without ch d (w ∷ ws) = ground (arith, waiting_on-without ch d ws)

pub cancel_wait-ChannelsOnce :
    (scope : String) (d : ℕ) (c : SemaphoreCoordinator)
    → ChannelsOnce c
    → ChannelsOnce (cancel_wait scope d c)
unfolding cancel_wait
cancel_wait-ChannelsOnce scope d c once = elim (Option-cases (lookup scope c.semaphores)) [
  | inl missing ↦ rw (missing, cancel_wait) once
  | inr (sem, found) ↦
      rw (found, cancel_wait)
        (record {
          at = λ ch. ground (
            arith,
            once.at ch,
            waiting_on-without ch d sem.waiters,
            pending-put ch scope (record sem { waiters = without_channel d sem.waiters })
                c.semaphores,
          );
        })
]

-- What the loop takes from the queue it closes, and nothing else.
pub grant_waiters-moves :
    (ch n : ℕ) (hs : List String) (ws : List SemaphoreWaiter) (cl : List ℕ)
    → let r = grant_waiters n hs ws cl in
      waiting_on ch r.1 + count ch r.2 ≡ waiting_on ch ws + count ch cl
unfolding grant_waiters waiting_on
grant_waiters-moves ch n hs [] cl = refl
grant_waiters-moves ch n hs (w ∷ ws) cl =
    ground (arith, grant_waiters-moves ch n (add w.allocation_id hs) ws (w.notify ∷ cl))

pub release-ChannelsOnce :
    (scope allocation : String) (c : SemaphoreCoordinator)
    → ChannelsOnce c
    → ChannelsOnce (release scope allocation c).0
unfolding release grant_next_waiter
release-ChannelsOnce scope a c once = elim (Option-cases (lookup scope c.semaphores)) [
  | inl missing ↦ rw (missing, release) once
  | inr (sem, found) ↦
      rw (found, release)
        (elim (Bool-cases (contains a sem.holders)) [
          | inr absent ↦ rw absent once
          | inl held ↦ rw held (
              let r = grant_waiters sem.capacity (remove a sem.holders) sem.waiters c.closed in
              record {
                at = λ ch. omega (
                  arith,
                  once.at ch,
                  ap (waiting_at ch) found,
                  grant_waiters-moves ch sem.capacity (remove a sem.holders) sem.waiters c.closed,
                  pending-put ch scope (record sem { holders = r.0; waiters = r.1 }) c.semaphores,
                );
              })
        ])
]

count-contains : (ch : ℕ) (xs : List ℕ) → contains ch xs ≡ true → 1 ≤ count ch xs
unfolding contains
count-contains ch [] h = cc
count-contains ch (x ∷ xs) h = ground (arith, count-contains ch xs)

Distinct-of_count : (xs : List ℕ) → ((ch : ℕ) → count ch xs ≤ 1) → Distinct xs
unfolding contains
Distinct-of_count [] h = tt
Distinct-of_count (x ∷ xs) h = (
  ground (arith, h x, count-contains x xs, ==_iff x x),
  Distinct-of_count xs (λ ch. omega (arith, h ch)),
)

-- No channel is closed twice, so `close` does not panic.
pub closed-Distinct : {c : SemaphoreCoordinator} → ChannelsOnce c → Distinct c.closed
closed-Distinct {c} once = Distinct-of_count c.closed (λ ch. ground (arith, once.at ch))

-- A channel that was closed is waited on by nobody.
pub closed_not_pending :
    {c : SemaphoreCoordinator} (ch : ℕ)
    → ChannelsOnce c
    → contains ch c.closed ≡ true
    → pending ch c.semaphores ≡ 0
closed_not_pending {c} ch once h = ground (arith, once.at ch, count-contains ch c.closed h)
