-- ===== src/Semaphore/Wakeup.antt =====
-- A call that is blocked in acquire of jobcommand/runtime_semaphore.go stands in a queue, or its
-- channel has been closed.
use maand.Prelude.{
  ℕ, ◌+◌, ◌≤◌, ◌<◌, String, true, false, Option, none, some, List, [], ◌∷◌, ◌++◌, ◌≡◌, refl, ap,
  arith, ltb, ◌==◌, comparable_ℕ, comparable_String, if◌then◌else◌, contains, add, remove, lookup,
  put, lookup-put_self, Bool-cases, Option-cases, inl, inr, ◌⊎◌, ℤ, ok,
}
use maand.Semaphore.{
  JobSemaphore, SemaphoreWaiter, SemaphoreCoordinator, max_semaphore_capacity, Acquire, failed,
  acquired, waiting, acquire_reply, admit, register_found, register_wait, clamp_capacity, acquire,
  without_channel, cancel_wait, grant_waiters, grant_next_waiter, release,
}
use maand.Semaphore.Channels.{
  count, waiting_on, waiting_at, pending, pending-put, waiting_on-append, grant_waiters-moves,
  ChannelsOnce,
}
use maand.Semaphore.Session.{
  Call, Session, enqueue, Step, start, notified, expire, cancel, give_back, Reachable, here, next,
  Reachable-ChannelsOnce,
}

-- How often a channel was handed out and not cancelled.
abbrev handed : ℕ → SemaphoreCoordinator → ℕ
handed ch c = pending ch c.semaphores + count ch c.closed

unfoldable calls_on : ℕ → List Call → ℕ
calls_on ch [] = 0
calls_on ch (x ∷ xs) = (if ch == x.channel then 1 else 0) + calls_on ch xs

calls_on-append :
    (ch : ℕ) (xs ys : List Call) → calls_on ch (xs ++ ys) ≡ calls_on ch xs + calls_on ch ys
unfolding calls_on
calls_on-append ch [] ys = omega arith
calls_on-append ch (x ∷ xs) ys = omega (arith, calls_on-append ch xs ys)

abbrev given : ℕ → Option ℕ → ℕ
given ch none = 0
given ch (some d) = if ch == d then 1 else 0

handed-admit :
    (ch : ℕ) (k a : String) (sem : JobSemaphore) (c : SemaphoreCoordinator)
    → lookup k c.semaphores ≡ some sem
    → handed ch (admit k a sem c).0 ≡ handed ch c + given ch (admit k a sem c).1
unfolding admit waiting_on
handed-admit ch k a sem c h =
    let w : SemaphoreWaiter = record { allocation_id = a; notify = c.next_channel } in
    ground (
      arith,
      pending-put ch k (record sem { holders = add a sem.holders }) c.semaphores,
      pending-put ch k (record sem { waiters = sem.waiters ++ w ∷ [] }) c.semaphores,
      waiting_on-append ch sem.waiters (w ∷ []),
    )

abbrev given_reply : ℕ → Acquire → ℕ
given_reply ch (waiting d) = if ch == d then 1 else 0
given_reply ch _ = 0

given_reply-ok : (ch : ℕ) (o : Option ℕ) → given_reply ch (acquire_reply (ok o)) ≡ given ch o
given_reply-ok ch none = refl
given_reply-ok ch (some d) = refl

handed-register_found :
    (ch : ℕ) (k a : String) (n : ℕ) (c : SemaphoreCoordinator) (found : Option JobSemaphore)
    → lookup k c.semaphores ≡ found
    → let r = register_found k a n c found in
      handed ch r.0 ≡ handed ch c + given_reply ch (acquire_reply r.1)
unfolding register_found waiting_on
handed-register_found ch k a n c none h =
    let sem : JobSemaphore = record { capacity = n; holders = []; waiters = [] } in
    let c' : SemaphoreCoordinator = record c { semaphores = put k sem c.semaphores } in
    omega (
      arith,
      ap (waiting_at ch) h,
      pending-put ch k sem c.semaphores,
      handed-admit ch k a sem c' (lookup-put_self k sem c.semaphores),
      given_reply-ok ch (admit k a sem c').1,
    )
handed-register_found ch k a n c (some sem) h = elim (Bool-cases (sem.capacity == n)) [
  | inl same ↦
      rw same (omega (arith, handed-admit ch k a sem c h, given_reply-ok ch (admit k a sem c).1))
  | inr other ↦ rw other (omega arith)
]

handed-acquire :
    (ch : ℕ) (k a : String) (n : ℤ) (c : SemaphoreCoordinator)
    → handed ch (acquire k a n c).0 ≡ handed ch c + given_reply ch (acquire k a n c).1
unfolding acquire register_wait
handed-acquire ch k a n c = elim (Bool-cases (ltb max_semaphore_capacity (clamp_capacity n))) [
  | inl over ↦ rw over (omega arith)
  | inr fits ↦
      rw fits (handed-register_found ch k a (clamp_capacity n) c (lookup k c.semaphores) refl)
]

waiting_on-without_ne :
    (ch d : ℕ) (ws : List SemaphoreWaiter)
    → (ch == d) ≡ false
    → waiting_on ch (without_channel d ws) ≡ waiting_on ch ws
unfolding waiting_on without_channel
waiting_on-without_ne ch d [] h = refl
waiting_on-without_ne ch d (w ∷ ws) h = ground (arith, waiting_on-without_ne ch d ws)

handed-cancel_wait :
    (ch : ℕ) (k : String) (d : ℕ) (c : SemaphoreCoordinator)
    → (ch == d) ≡ false
    → handed ch (cancel_wait k d c) ≡ handed ch c
unfolding cancel_wait
handed-cancel_wait ch k d c h = elim (Option-cases (lookup k c.semaphores)) [
  | inl missing ↦ rw (missing, cancel_wait) refl
  | inr (sem, found) ↦
      rw (found, cancel_wait)
        (omega (
          arith,
          ap (waiting_at ch) found,
          waiting_on-without_ne ch d sem.waiters h,
          pending-put ch k (record sem { waiters = without_channel d sem.waiters }) c.semaphores,
        ))
]

handed-release :
    (ch : ℕ) (k a : String) (c : SemaphoreCoordinator) → handed ch (release k a c).0 ≡ handed ch c
unfolding release grant_next_waiter
handed-release ch k a c = elim (Option-cases (lookup k c.semaphores)) [
  | inl missing ↦ rw (missing, release) refl
  | inr (sem, found) ↦
      rw (found, release)
        (elim (Bool-cases (contains a sem.holders)) [
          | inr absent ↦ rw absent refl
          | inl held ↦ rw held (
              let r = grant_waiters sem.capacity (remove a sem.holders) sem.waiters c.closed in
              omega (
                arith,
                ap (waiting_at ch) found,
                grant_waiters-moves ch sem.capacity (remove a sem.holders) sem.waiters c.closed,
                pending-put ch k (record sem { holders = r.0; waiters = r.1 }) c.semaphores,
              ))
        ])
]

abbrev calls : ℕ → Session → ℕ
calls ch s = calls_on ch s.blocked + calls_on ch s.expired

abbrev IsLive : Session → Type 0
IsLive s = (ch : ℕ) → calls ch s ≤ handed ch s.coordinator

calls-enqueue :
    (ch : ℕ) (k : String) (r : Acquire) (xs : List Call)
    → calls_on ch (enqueue k r xs) ≡ given_reply ch r + calls_on ch xs
unfolding calls_on
calls-enqueue ch k (failed e) xs = omega arith
calls-enqueue ch k acquired xs = omega arith
calls-enqueue ch k (waiting d) xs = refl

Step-IsLive : {s u : Session} → ChannelsOnce s.coordinator → IsLive s → Step s u → IsLive u
unfolding calls_on
Step-IsLive {s} {u} once live (start k a n e) ch = rw e (
    omega (
      arith,
      live ch,
      handed-acquire ch k a n s.coordinator,
      calls-enqueue ch k (acquire k a n s.coordinator).1 s.blocked,
    ))
Step-IsLive {s} {u} once live (notified b f x q o e) ch = rw e (
    ground
      (arith, live ch, ap (calls_on ch) q, calls_on-append ch b (x ∷ f), calls_on-append ch b f))
Step-IsLive {s} {u} once live (expire b f x q e) ch = rw e (
    ground
      (arith, live ch, ap (calls_on ch) q, calls_on-append ch b (x ∷ f), calls_on-append ch b f))
Step-IsLive {s} {u} once live (cancel b f x q e) ch = rw e (elim (Bool-cases (ch == x.channel)) [
  | inl same ↦ ground (
    arith,
    live ch,
    once.at ch,
    ap (calls_on ch) q,
    calls_on-append ch b (x ∷ f),
    calls_on-append ch b f,
  )
  | inr other ↦ ground (
    arith,
    live ch,
    handed-cancel_wait ch x.scope x.channel s.coordinator other,
    ap (calls_on ch) q,
    calls_on-append ch b (x ∷ f),
    calls_on-append ch b f,
  )
])
Step-IsLive {s} {u} once live (give_back k a e) ch =
    rw e (omega (arith, live ch, handed-release ch k a s.coordinator))

Reachable-IsLive : {s : Session} → Reachable s → IsLive s
unfolding calls_on
Reachable-IsLive here ch = omega arith
Reachable-IsLive (next r st) ch = Step-IsLive (Reachable-ChannelsOnce r) (Reachable-IsLive r) st ch

count-pos : (ch : ℕ) (xs : List ℕ) → 0 < count ch xs → contains ch xs ≡ true
unfolding contains
count-pos ch [] h = absurd (omega arith)
count-pos ch (x ∷ xs) h = ground (arith, count-pos ch xs)

-- In every session that requests can lead to, a call that is blocked in acquire is still in a
-- queue, or its channel has been closed: no wakeup is lost, however the requests interleave.
pub blocked_is_served :
    (s : Session) (before after : List Call) (call : Call)
    → Reachable s
    → s.blocked ≡ before ++ call ∷ after
    → (contains call.channel s.coordinator.closed ≡ true)
      ⊎ (0 < pending call.channel s.coordinator.semaphores)
unfolding calls_on
blocked_is_served s b f x r q = elim (Bool-cases (contains x.channel s.coordinator.closed)) [
  | inl woken ↦ inl woken
  | inr asleep ↦ inr (
      ground (
        arith,
        Reachable-IsLive r x.channel,
        ap (calls_on x.channel) q,
        calls_on-append x.channel b (x ∷ f),
        count-pos x.channel s.coordinator.closed,
      ))
]
