-- ===== src/Semaphore/Session.antt =====
-- A command-runtime session as interleaved requests: each step is one section of
-- jobcommand/runtime_semaphore.go that runs under the coordinator's lock, or one branch of the
-- select in acquire. A call whose context has ended waits for the lock before it cancels, and other
-- requests may run in between.
use maand.Prelude.{
  ℕ, String, true, List, [], ◌∷◌, ◌++◌, ◌≡◌, ap, comparable_ℕ, comparable_String, contains,
  Distinct, ℤ,
}
use maand.Semaphore.{
  SemaphoreCoordinator, Acquire, waiting, acquire, cancel_wait, finish_wait, context_done, release,
  new_semaphore_coordinator,
}
use maand.Semaphore.Invariant.{
  AllSound, AllSound-new, acquire-AllSound, cancel_wait-AllSound, release-AllSound,
}
use maand.Semaphore.Channels.{
  ChannelsOnce, ChannelsOnce-new, acquire-ChannelsOnce, cancel_wait-ChannelsOnce,
  release-ChannelsOnce, closed-Distinct,
}

-- A call of acquire that has not returned, with the scope and the channel that it waits on.
pub record Call : Type 0 where
  pub scope : String
  pub channel : ℕ

-- `blocked` calls stand in the select; `expired` ones have taken its branch `<-ctx.Done()`.
pub record Session : Type 0 where
  pub coordinator : SemaphoreCoordinator
  pub blocked : List Call
  pub expired : List Call

abbrev pub enqueue : String → Acquire → List Call → List Call
enqueue scope (waiting ch) calls = record { scope = scope; channel = ch } ∷ calls
enqueue scope _ calls = calls

abbrev pub begin : String → String → ℤ → Session → Session
begin scope allocation capacity s =
    let (c, reply) = acquire scope allocation capacity s.coordinator in
    record s { coordinator = c; blocked = enqueue scope reply s.blocked }

pub data Step (s u : Session) : Type 0 where
  start :
      (scope allocation : String) (capacity : ℤ) → u ≡ begin scope allocation capacity s → Step s u
  notified :
      (before after : List Call) (call : Call)
      → s.blocked ≡ before ++ call ∷ after
      → contains call.channel s.coordinator.closed ≡ true
      → u ≡ record s { blocked = before ++ after }
      → Step s u
  expire :
      (before after : List Call) (call : Call)
      → s.blocked ≡ before ++ call ∷ after
      → u ≡ record s { blocked = before ++ after; expired = call ∷ s.expired }
      → Step s u
  cancel :
      (before after : List Call) (call : Call)
      → s.expired ≡ before ++ call ∷ after
      → u ≡ record s {
        coordinator = (finish_wait context_done call.scope call.channel s.coordinator).0;
        expired = before ++ after;
      }
      → Step s u
  give_back :
      (scope allocation : String)
      → u ≡ record s { coordinator = (release scope allocation s.coordinator).0 }
      → Step s u

abbrev pub new_session : Session
new_session = record { coordinator = new_semaphore_coordinator; blocked = []; expired = [] }

pub data Reachable : Session → Type 0 where
  here : Reachable new_session
  next : {s u : Session} → Reachable s → Step s u → Reachable u

coordinator_step :
    (P : SemaphoreCoordinator → Type 0)
    → ((scope a : String) (n : ℤ) (c : SemaphoreCoordinator) → P c → P (acquire scope a n c).0)
    → ((scope : String) (ch : ℕ) (c : SemaphoreCoordinator) → P c → P (cancel_wait scope ch c))
    → ((scope a : String) (c : SemaphoreCoordinator) → P c → P (release scope a c).0)
    → {s u : Session} → Step s u
    → P s.coordinator
    → P u.coordinator
coordinator_step P pa pc pr {s} (start k a n e) h =
    rw (ap (λ (t : Session). t.coordinator) e) (pa k a n s.coordinator h)
coordinator_step P pa pc pr {s} (notified b f call q o e) h =
    rw (ap (λ (t : Session). t.coordinator) e) h
coordinator_step P pa pc pr {s} (expire b f call q e) h =
    rw (ap (λ (t : Session). t.coordinator) e) h
coordinator_step P pa pc pr {s} (cancel b f call q e) h =
    rw (ap (λ (t : Session). t.coordinator) e) (pc call.scope call.channel s.coordinator h)
coordinator_step P pa pc pr {s} (give_back k a e) h =
    rw (ap (λ (t : Session). t.coordinator) e) (pr k a s.coordinator h)

-- In every session that requests can lead to, however they interleave, a semaphore has at most its
-- capacity of distinct holders, its capacity is from 1 to 64, and while a slot is free nobody waits.
pub Reachable-AllSound : {s : Session} → Reachable s → AllSound s.coordinator
Reachable-AllSound here = AllSound-new
Reachable-AllSound (next r st) =
    coordinator_step AllSound acquire-AllSound cancel_wait-AllSound release-AllSound st
      (Reachable-AllSound r)

pub Reachable-ChannelsOnce : {s : Session} → Reachable s → ChannelsOnce s.coordinator
Reachable-ChannelsOnce here = ChannelsOnce-new
Reachable-ChannelsOnce (next r st) =
    coordinator_step ChannelsOnce acquire-ChannelsOnce cancel_wait-ChannelsOnce release-ChannelsOnce
      st (Reachable-ChannelsOnce r)

-- In every session that requests can lead to, no channel has been closed twice.
pub Reachable-closes_once : {s : Session} → Reachable s → Distinct s.coordinator.closed
Reachable-closes_once r = closed-Distinct (Reachable-ChannelsOnce r)
