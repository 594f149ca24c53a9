-- ===== src/Semaphore/Invariant.antt =====
-- What holds of every semaphore of a coordinator between two calls (jobcommand/runtime_semaphore.go).
use maand.Prelude.{
  ℕ, ◌≤◌, ◌<◌, String, false, Option, none, some, List, [], ◌∷◌, ◌++◌, ◌≡◌, refl, arith, ltb,
  ltb→lt, ◌==◌, comparable_ℕ, comparable_String, contains, add, remove, Distinct, Distinct-add,
  Distinct-remove, length-add, length-remove, Map, lookup, put, lookup-put, length, Bool-cases,
  Option-cases, inl, inr, ℤ, pos, negsuc,
}
use maand.Semaphore.{
  JobSemaphore, SemaphoreWaiter, SemaphoreCoordinator, max_semaphore_capacity, admit,
  register_found, register_wait, clamp_capacity, acquire, without_channel, cancel_wait,
  grant_waiters, grant_next_waiter, release, new_semaphore_coordinator,
}

-- A semaphore has at most `capacity` distinct holders, and nobody waits while a slot is free.
pub record IsSound (sem : JobSemaphore) : Type 0 where
  pub positive : 0 < sem.capacity
  pub capped : sem.capacity ≤ max_semaphore_capacity
  pub distinct : Distinct sem.holders
  pub bounded : length sem.holders ≤ sem.capacity
  pub busy : 0 < length sem.waiters → length sem.holders ≡ sem.capacity

pub record AllSound (c : SemaphoreCoordinator) : Type 0 where
  pub at :
      (scope : String) (sem : JobSemaphore) → lookup scope c.semaphores ≡ some sem → IsSound sem

pub AllSound-new : AllSound new_semaphore_coordinator
unfolding new_semaphore_coordinator lookup
AllSound-new = record { at = λ scope sem h. cc }

-- To write one sound semaphore keeps all of them sound.
put-AllSound :
    (k : String) (v : JobSemaphore) (m : Map String JobSemaphore)
    → IsSound v
    → ((scope : String) (sem : JobSemaphore) → lookup scope m ≡ some sem → IsSound sem)
    → (scope : String) (sem : JobSemaphore) → lookup scope (put k v m) ≡ some sem
    → IsSound sem
put-AllSound k v m hv hm scope sem h = elim (Bool-cases (scope == k)) [
  | inl same ↦ ground (arith, lookup-put k scope v m)
  | inr other ↦ hm scope sem (ground (arith, lookup-put k scope v m))
]

IsSound-with_holder :
    (a : String) (sem : JobSemaphore)
    → IsSound sem
    → length sem.holders < sem.capacity
    → IsSound (record sem { holders = add a sem.holders })
IsSound-with_holder a sem s h = record {
  positive = s.positive;
  capped = s.capped;
  distinct = Distinct-add a sem.holders s.distinct;
  bounded = ground (arith, length-add a sem.holders);
  busy = λ w. absurd (omega (arith, s.busy w));
}

IsSound-with_waiter :
    (w : SemaphoreWaiter) (sem : JobSemaphore)
    → IsSound sem
    → ltb (length sem.holders) sem.capacity ≡ false
    → IsSound (record sem { waiters = sem.waiters ++ w ∷ [] })
IsSound-with_waiter w sem s h = record {
  positive = s.positive;
  capped = s.capped;
  distinct = s.distinct;
  bounded = s.bounded;
  busy = λ _. ground (arith, s.bounded);
}

admit-AllSound :
    (k a : String) (sem : JobSemaphore) (c : SemaphoreCoordinator)
    → IsSound sem
    → AllSound c
    → AllSound (admit k a sem c).0
unfolding admit
admit-AllSound k a sem c s all = elim (Bool-cases (contains a sem.holders)) [
  | inl held ↦ rw held all
  | inr new ↦ elim (Bool-cases (ltb (length sem.holders) sem.capacity)) [
    | inl free ↦
        rw (new, free)
          (record {
            at =
                put-AllSound k _ c.semaphores (IsSound-with_holder a sem s (ltb→lt _ _ free))
                  all.at;
          })
    | inr full ↦
        rw (new, full)
          (record { at = put-AllSound k _ c.semaphores (IsSound-with_waiter _ sem s full) all.at })
  ]
]

IsSound-fresh :
    (capacity : ℕ)
    → 0 < capacity
    → capacity ≤ max_semaphore_capacity
    → IsSound (record { capacity = capacity; holders = []; waiters = [] })
IsSound-fresh capacity p q = omega arith

register_found-AllSound :
    (k a : String) (n : ℕ) (c : SemaphoreCoordinator) (found : Option JobSemaphore)
    → 0 < n
    → n ≤ max_semaphore_capacity
    → lookup k c.semaphores ≡ found
    → AllSound c
    → AllSound (register_found k a n c found).0
unfolding register_found
register_found-AllSound k a n c none p q h all =
    admit-AllSound k a _ _ (IsSound-fresh n p q)
      (record { at = put-AllSound k _ c.semaphores (IsSound-fresh n p q) all.at })
register_found-AllSound k a n c (some sem) p q h all = elim (Bool-cases (sem.capacity == n)) [
  | inl same ↦ rw same (admit-AllSound k a sem c (all.at k sem h) all)
  | inr other ↦ rw other all
]

pub clamp_capacity-pos : (n : ℤ) → 0 < clamp_capacity n
unfolding clamp_capacity
clamp_capacity-pos (pos n) = ground arith
clamp_capacity-pos (negsuc n) = ground arith

-- Every acquire, whatever it is asked and whatever it returns, leaves every semaphore sound.
pub acquire-AllSound :
    (scope allocation : String) (requested : ℤ) (c : SemaphoreCoordinator)
    → AllSound c
    → AllSound (acquire scope allocation requested c).0
unfolding acquire register_wait
acquire-AllSound scope a n c all =
    elim (Bool-cases (ltb max_semaphore_capacity (clamp_capacity n))) [
      | inl over ↦ rw over all
      | inr fits ↦ rw fits (
          register_found-AllSound scope a (clamp_capacity n) c (lookup scope c.semaphores)
            (clamp_capacity-pos n) (ground arith) refl all)
    ]

without_channel-le :
    (ch : ℕ) (ws : List SemaphoreWaiter) → length (without_channel ch ws) ≤ length ws
unfolding without_channel
without_channel-le ch [] = omega arith
without_channel-le ch (w ∷ ws) = ground (arith, without_channel-le ch ws)

-- A cancelled wait leaves every semaphore sound.
pub cancel_wait-AllSound :
    (scope : String) (ch : ℕ) (c : SemaphoreCoordinator)
    → AllSound c
    → AllSound (cancel_wait scope ch c)
unfolding cancel_wait
cancel_wait-AllSound scope ch c all = elim (Option-cases (lookup scope c.semaphores)) [
  | inl missing ↦ rw (missing, cancel_wait) all
  | inr (sem, found) ↦
      rw (found, cancel_wait)
        (record {
          at =
              put-AllSound scope _ c.semaphores
                (let s = all.at scope sem found in
                  record {
                    positive = s.positive;
                    capped = s.capped;
                    distinct = s.distinct;
                    bounded = s.bounded;
                    busy = λ w. s.busy (omega (arith, without_channel-le ch sem.waiters));
                  })
                all.at;
        })
]

-- The loop of the grants fills the slots or serves everybody.
pub grant_waiters-IsFull :
    (capacity : ℕ) (holders : List String) (ws : List SemaphoreWaiter) (closed : List ℕ)
    → Distinct holders
    → length holders ≤ capacity
    → let r = grant_waiters capacity holders ws closed in
      Distinct r.0 × (length r.0 ≤ capacity) × (0 < length r.1 → length r.0 ≡ capacity)
unfolding grant_waiters
grant_waiters-IsFull n hs [] cl d h = (d, h, λ w. absurd (omega arith))
grant_waiters-IsFull n hs (w ∷ ws) cl d h = elim (Bool-cases (ltb (length hs) n)) [
  | inl free ↦
      rw (free, grant_waiters)
        (grant_waiters-IsFull n (add w.allocation_id hs) ws (w.notify ∷ cl)
          (Distinct-add w.allocation_id hs d) (ground (arith, length-add w.allocation_id hs)))
  | inr full ↦ rw (full, grant_waiters) (d, h, λ _. ground arith)
]

-- A release, refused or not, leaves every semaphore sound.
pub release-AllSound :
    (scope allocation : String) (c : SemaphoreCoordinator)
    → AllSound c
    → AllSound (release scope allocation c).0
unfolding release grant_next_waiter
release-AllSound scope a c all = elim (Option-cases (lookup scope c.semaphores)) [
  | inl missing ↦ rw (missing, release) all
  | inr (sem, found) ↦
      rw (found, release)
        (elim (Bool-cases (contains a sem.holders)) [
          | inr absent ↦ rw absent all
          | inl held ↦ rw held (record {
            at =
                put-AllSound scope _ c.semaphores
                  (let s = all.at scope sem found in
                    let full =
                      grant_waiters-IsFull sem.capacity (remove a sem.holders) sem.waiters c.closed
                        (Distinct-remove a sem.holders s.distinct)
                        (omega (arith, length-remove a sem.holders s.distinct)) in
                    record {
                      positive = s.positive;
                      capped = s.capped;
                      distinct = full.0;
                      bounded = full.1;
                      busy = full.2;
                    })
                  all.at;
          })
        ])
]
