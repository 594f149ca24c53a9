-- ===== src/Rollout/Steps.antt =====
-- rolloutRestartBatches and rolloutStartBatches of deploy/rollout.go, with batchCount and BatchContext
-- of deploy/batch_hooks.go. What the loops do to the workers is a list of events, the newest first;
-- whether an event succeeds is a function of that list up to the event. The queries of the database
-- are parameters.
use maand.Prelude.{
  ℕ, zero, suc, ◌+◌, ◌-◌, ◌/◌, String, Bool, true, false, not, ◌&&◌, List, [], ◌∷◌, ℤ, pos, negsuc,
  sub_ℕ, wrap_int64, ltb, nat_beq, if◌then◌else◌, length, take, drop, Result, ok, err,
}
use maand.Rollout.{ResolvedRolloutOrder, OrderSource}

pub data DeployPhase : Type 0 where
  phase_new phase_update phase_stop : DeployPhase

pub record BatchContext : Type 0 where
  pub job : String
  pub phase : DeployPhase
  pub batch_index : ℕ
  pub batch_count : ℤ
  pub batch_allocation : List String
  pub rollout_order : String
  pub order_source : OrderSource

-- runParallelWorkers, executeAfterAllocationStarted and HealthCheck.
pub data Event : Type 0 where
  ran : List String → Event
  after_started : BatchContext → Event
  health_check : Event

pub data Outcome : Type 0 where
  finished effect_failed query_failed out_of_fuel : Outcome

unfoldable pub effective_batch_size : ℤ → ℕ → ℕ
effective_batch_size (negsuc n) total = total
effective_batch_size (pos requested) total =
    if ltb requested 1 then total else if ltb total requested then total else requested

-- Go's division of an int by a positive one, which rounds to zero.
abbrev pub quotient : ℤ → ℕ → ℤ
quotient (pos n) size = pos (n / size)
quotient (negsuc n) size = sub_ℕ 0 ((n + 1) / size)

-- The sum wraps like any int64.
unfoldable pub batch_count : ℕ → ℕ → ℤ
batch_count total size =
    let size' = if ltb size 1 then total else size in
    if nat_beq total 0 then pos 0 else quotient (wrap_int64 (total + size' - 1)) size'

-- `ordered[i:end]`, with its `end` cut at the length
unfoldable pub batch_at : ℕ → ℕ → List String → List String
batch_at i size ordered =
    let end = if ltb (length ordered) (i + size) then length ordered else i + size in
    take (end - i) (drop i ordered)

-- `checks` is true for the loop of a restart, which has the health check in its body.
module _ (succeeds : List Event → Bool) (checks : Bool) (job : String) (phase : DeployPhase)
    (resolved : ResolvedRolloutOrder) (size : ℕ) where
  abbrev pub context_at : ℕ → BatchContext
  context_at i = record {
    job = job;
    phase = phase;
    batch_index = i / size;
    batch_count = batch_count (length resolved.ordered) size;
    batch_allocation = batch_at i size resolved.ordered;
    rollout_order = resolved.full_order;
    order_source = resolved.source;
  }

  abbrev pub with_check : List Event → List Event
  with_check done = if checks then health_check ∷ done else done

  -- The loop over the batches, from the index i.
  unfoldable pub run_batches : ℕ → ℕ → List Event → List Event × Outcome
  run_batches zero i done = (done, out_of_fuel)
  run_batches (suc fuel) i done =
      let after_run = ran (batch_at i size resolved.ordered) ∷ done in
      let after_hook = after_started (context_at i) ∷ after_run in
      let rest = run_batches fuel (i + size) (with_check after_hook) in
      if not (ltb i (length resolved.ordered))
      then (done, finished)
      else if not (succeeds after_run)
      then (after_run, effect_failed)
      else if not (succeeds after_hook)
      then (after_hook, effect_failed)
      else if checks && not (succeeds (health_check ∷ after_hook))
      then (health_check ∷ after_hook, effect_failed)
      else rest

-- The health check behind the loop of a start.
unfoldable pub final_check : (List Event → Bool) → List Event × Outcome → List Event × Outcome
final_check succeeds (done, finished) =
    (health_check ∷ done, (if succeeds (health_check ∷ done) then finished else effect_failed))
final_check succeeds (done, effect_failed) = (done, effect_failed)
final_check succeeds (done, query_failed) = (done, query_failed)
final_check succeeds (done, out_of_fuel) = (done, out_of_fuel)

abbrev pub at_least_one : ℤ → ℕ
at_least_one (negsuc n) = 1
at_least_one (pos n) = if ltb n 1 then 1 else n

-- The database: the active workers of the candidates, the order of a list of workers, and the
-- manifest's limit. Each query may fail.
pub record Queries (E : Type 0) : Type 0 where
  pub active_workers : List String → Result E (List String)
  pub resolve_order : List String → Result E ResolvedRolloutOrder
  pub max_concurrent : Result E ℤ

module _ {E : Type 0} (succeeds : List Event → Bool) (db : Queries E) (job : String) where
  unfoldable pub restart_limited : ResolvedRolloutOrder → Result E ℤ → List Event × Outcome
  restart_limited resolved (err e) = ([], query_failed)
  restart_limited resolved (ok limit) =
      run_batches succeeds true job phase_update resolved (at_least_one limit)
        (suc (length resolved.ordered)) 0 []

  unfoldable pub restart_resolved : Result E ResolvedRolloutOrder → List Event × Outcome
  restart_resolved (err e) = ([], query_failed)
  restart_resolved (ok resolved) = restart_limited resolved db.max_concurrent

  unfoldable pub restart_active : Result E (List String) → List Event × Outcome
  restart_active (err e) = ([], query_failed)
  restart_active (ok []) = ([], finished)
  restart_active (ok (w ∷ active)) = restart_resolved (db.resolve_order (w ∷ active))

  unfoldable pub rollout_restart_batches : List String → List Event × Outcome
  rollout_restart_batches [] = ([], finished)
  rollout_restart_batches (c ∷ candidates) = restart_active (db.active_workers (c ∷ candidates))

  unfoldable pub start_limited : ResolvedRolloutOrder → Result E ℤ → List Event × Outcome
  start_limited resolved (err e) = ([], query_failed)
  start_limited resolved (ok limit) = final_check succeeds (
      run_batches succeeds false job phase_new resolved
        (effective_batch_size limit (length resolved.ordered)) (suc (length resolved.ordered)) 0 [])

  unfoldable pub start_resolved : Result E ResolvedRolloutOrder → List Event × Outcome
  start_resolved (err e) = ([], query_failed)
  start_resolved (ok resolved) = start_limited resolved db.max_concurrent

  unfoldable pub start_active : Result E (List String) → List Event × Outcome
  start_active (err e) = ([], query_failed)
  start_active (ok []) = ([], finished)
  start_active (ok (w ∷ active)) = start_resolved (db.resolve_order (w ∷ active))

  unfoldable pub rollout_start_batches : List String → List Event × Outcome
  rollout_start_batches [] = ([], finished)
  rollout_start_batches (c ∷ candidates) = start_active (db.active_workers (c ∷ candidates))
