-- ===== src/Semaphore/Tests.antt =====
-- Runs of jobcommand/runtime_semaphore.go: two allocations at a semaphore of capacity one.
use maand.Prelude.{
  ◌*◌, ◌-◌, leb, if◌then◌else◌, ◌<◌, true, [], ◌∷◌, ◌≡◌, refl, arith, pos, negsuc, lookup, put, add,
  remove, contains, Distinct, comparable_ℕ, comparable_String, min, ok, err, ◌⊎◌,
}
use maand.Semaphore.{
  JobSemaphore, acquire, acquired, failed, capacity_mismatch, capacity_exceeds_maximum, release,
  finish_wait, context_done, context_error, new_semaphore_coordinator, normalize_acquire_timeout,
  second, max_acquire_timeout,
}
use maand.Semaphore.Invariant.{AllSound}
use maand.Semaphore.Channels.{pending}
use maand.Semaphore.Release.{is_holder, release_hands_over, timeout_race_leaks}
use maand.Semaphore.Timeout.{normalize_acquire_timeout_wraps}
use maand.Semaphore.Session.{
  Session, begin, start, Reachable, here, next, new_session, Reachable-AllSound,
  Reachable-closes_once,
}
use maand.Semaphore.Wakeup.{blocked_is_served}

abbrev holding : Session
holding = begin "scope" "a" (pos 1) new_session

abbrev contended : Session
contended = begin "scope" "b" (pos 1) holding

abbrev contended_semaphore : JobSemaphore
contended_semaphore = record {
  capacity = 1;
  holders = "a" ∷ [];
  waiters = record { allocation_id = "b"; notify = 0 } ∷ [];
}

contended_runs :
    contended.coordinator
    ≡ record { semaphores = ("scope", contended_semaphore) ∷ []; next_channel = 1; closed = [] }
unfolding acquire new_semaphore_coordinator lookup put contains add
contended_runs = refl

capacity_is_checked :
    ((acquire "scope" "c" (pos 2) contended.coordinator).1 ≡ failed capacity_mismatch)
    × ((acquire "scope" "c" (pos 65) contended.coordinator).1 ≡ failed capacity_exceeds_maximum)
    × ((acquire "scope" "a" (negsuc 4) contended.coordinator).1 ≡ acquired)
unfolding acquire new_semaphore_coordinator lookup put contains add
capacity_is_checked = (refl, refl, refl)

contended-Reachable : Reachable contended
contended-Reachable =
    next (next here (start "scope" "a" (pos 1) refl)) (start "scope" "b" (pos 1) refl)

contended-AllSound : AllSound contended.coordinator
contended-AllSound = Reachable-AllSound contended-Reachable

Reachable-AllSound_example : AllSound contended.coordinator
Reachable-AllSound_example = Reachable-AllSound contended-Reachable

Reachable-closes_once_example : Distinct contended.coordinator.closed
Reachable-closes_once_example = Reachable-closes_once contended-Reachable

blocked_is_served_example :
    (contains 0 contended.coordinator.closed ≡ true)
    ⊎ (0 < pending 0 contended.coordinator.semaphores)
unfolding acquire new_semaphore_coordinator lookup put contains add
blocked_is_served_example =
    blocked_is_served contended [] [] (record { scope = "scope"; channel = 0 }) contended-Reachable
      refl

release_hands_over_example : release "scope" "a" contended.coordinator ≡ (
  record contended.coordinator {
    semaphores =
        put "scope"
          (record contended_semaphore { holders = add "b" (remove "a" ("a" ∷ [])); waiters = [] })
          contended.coordinator.semaphores;
    closed = 0 ∷ contended.coordinator.closed;
  },
  ok tt,
)
unfolding acquire new_semaphore_coordinator lookup put contains add remove
release_hands_over_example =
    release_hands_over "scope" "a" contended.coordinator contended_semaphore
      (record { allocation_id = "b"; notify = 0 }) [] contended-AllSound refl refl refl refl

timeout_race_leaks_example :
    let released = (release "scope" "a" contended.coordinator).0 in
    let (after, result) = finish_wait context_done "scope" 0 released in
    (contains 0 released.closed ≡ true)
    × (result ≡ err context_error)
    × (is_holder "b" (lookup "scope" after.semaphores) ≡ true)
unfolding acquire new_semaphore_coordinator lookup put contains add remove
timeout_race_leaks_example =
    timeout_race_leaks "scope" "a" contended.coordinator contended_semaphore
      (record { allocation_id = "b"; notify = 0 }) [] contended-AllSound refl refl refl refl

normalize_acquire_timeout_wraps_example : normalize_acquire_timeout (pos 9_223_372_037) ≡ (
    if leb 9_223_372_037 9_223_372_036
    then pos (min (9_223_372_037 * second) max_acquire_timeout)
    else negsuc (18_446_744_073_709_551_615 - 9_223_372_037 * second))
normalize_acquire_timeout_wraps_example =
    normalize_acquire_timeout_wraps 9_223_372_037 (omega arith) (omega arith)
