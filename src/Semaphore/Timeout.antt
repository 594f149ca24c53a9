-- ===== src/Semaphore/Timeout.antt =====
-- normalizeAcquireTimeout of jobcommand/runtime_semaphore.go.
use maand.Prelude.{ℕ, ◌*◌, ◌-◌, ◌≤◌, ◌<◌, ◌≡◌, arith, min, pos, negsuc, leb, if◌then◌else◌}
use maand.Semaphore.{normalize_acquire_timeout, second, max_acquire_timeout}

-- From 1 up to 9,223,372,036 seconds the timeout is the requested one, cut at an hour. From there up to
-- 18,446,744,073 seconds the int64 product wraps, and the timeout is 2 ^ 64 nanoseconds less than the
-- requested one, which is negative: the context of the acquire has ended before it begins.
pub normalize_acquire_timeout_wraps :
    (seconds : ℕ)
    → 0 < seconds
    → seconds ≤ 18_446_744_073
    → normalize_acquire_timeout (pos seconds) ≡ (
        if leb seconds 9_223_372_036
        then pos (min (seconds * second) max_acquire_timeout)
        else negsuc (18_446_744_073_709_551_615 - seconds * second))
unfolding normalize_acquire_timeout
normalize_acquire_timeout_wraps n p q = ground arith
