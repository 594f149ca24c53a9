-- ===== src/Rollout/Started.antt =====
-- rolloutStartBatches of deploy/rollout.go: what a start has done when it ends.
use maand.Prelude.{
  ℕ, suc, ◌≤◌, String, Bool, true, false, List, [], ◌∷◌, ◌≡◌, refl, sym, ap, ◌∙◌, arith, ℤ, pos,
  negsuc, if◌then◌else◌, length, Bool-cases, inl, inr, ok,
}
use maand.Rollout.{ResolvedRolloutOrder}
use maand.Rollout.Steps.{
  Event, ran, after_started, health_check, Outcome, finished, effect_failed, query_failed,
  out_of_fuel, Queries, final_check, effective_batch_size, start_active, start_limited,
  start_resolved, rollout_start_batches, phase_new,
}
use maand.Rollout.Batches.{
  workers, may_run, after_a_hook, in_rounds, Sized, Described, AllSucceed, take_long, Ended,
  RolledOut, all_done, stopped,
}
use maand.Rollout.Rolled.{run_batches-RolledOut, AtLoop-first}

effective_batch_size_lem :
    (limit : ℤ) (total : ℕ) → 1 ≤ total → 1 ≤ effective_batch_size limit total
unfolding effective_batch_size
effective_batch_size_lem (pos n) total h = ground arith
effective_batch_size_lem (negsuc n) total h = h

abbrev pub ends_checked : List Event → Bool
ends_checked [] = false
ends_checked (ran b ∷ done) = false
ends_checked (after_started ctx ∷ done) = false
ends_checked (health_check ∷ done) = true

some_events :
    (done : List Event) (ordered : List String)
    → 1 ≤ length ordered
    → workers done ≡ ordered
    → may_run false done ≡ true
    → after_a_hook done ≡ true
unfolding workers
some_events [] [] h w m = absurd (omega (arith, h))
some_events [] (x ∷ xs) h w m = absurd (cc)
some_events (ran b ∷ done) ordered h w m = absurd (cc)
some_events (after_started ctx ∷ done) ordered h w m = refl
some_events (health_check ∷ done) ordered h w m = absurd (cc)

final_check_finished :
    (succeeds : List Event → Bool) (r : List Event × Outcome)
    → r.1 ≡ finished
    → final_check succeeds r
      ≡ (health_check ∷ r.0, (if succeeds (health_check ∷ r.0) then finished else effect_failed))
unfolding final_check
final_check_finished succeeds (done, finished) e = refl
final_check_finished succeeds (done, effect_failed) e = absurd (cc)
final_check_finished succeeds (done, query_failed) e = absurd (cc)
final_check_finished succeeds (done, out_of_fuel) e = absurd (cc)

final_check_failed :
    (succeeds : List Event → Bool) (r : List Event × Outcome)
    → r.1 ≡ effect_failed
    → final_check succeeds r ≡ r
unfolding final_check
final_check_failed succeeds (done, effect_failed) e = refl
final_check_failed succeeds (done, finished) e = absurd (cc)
final_check_failed succeeds (done, query_failed) e = refl
final_check_failed succeeds (done, out_of_fuel) e = refl

final_check-RolledOut :
    (succeeds : List Event → Bool) (job : String) (resolved : ResolvedRolloutOrder) (size : ℕ)
    (r : List Event × Outcome)
    → 1 ≤ length resolved.ordered
    → RolledOut succeeds false job phase_new resolved size (may_run false) r
    → RolledOut succeeds false job phase_new resolved size ends_checked (final_check succeeds r)
unfolding in_rounds Sized workers AllSucceed Described
final_check-RolledOut succeeds job resolved size r h (stopped e done k q ended bad all reached) =
    rw (final_check_failed succeeds r (ap (λ x. x.1) q)) (stopped e done k q ended bad all reached)
final_check-RolledOut succeeds job resolved size r h (all_done f whole ended all reached) =
    let hooked = some_events r.0 resolved.ordered h reached whole in
    let checked : Ended succeeds false job phase_new resolved size (health_check ∷ r.0) = record {
      rounds = rw hooked ended.rounds;
      sized = ended.sized;
      described = ended.described;
    } in
    rw (final_check_finished succeeds r f) (elim (Bool-cases (succeeds (health_check ∷ r.0))) [
      | inl healthy ↦ rw healthy (all_done refl refl checked (healthy, all) reached)
      | inr sick ↦ rw sick (
          stopped health_check r.0 (length resolved.ordered) refl checked sick all
            (reached ∙ sym (take_long (length resolved.ordered) resolved.ordered (omega arith))))
    ])

-- Where the database answers with an order that is not empty, a start of some candidates ends, and
-- on every outcome: its events come in rounds of a batch and its hook, and no batch is empty or
-- larger than the limit (all workers below 1). Each hook is given the batch that has just been run,
-- the number of batches before it, and the job, the phase, the count and the order of the rollout.
-- The rollout has started each worker of the order once, in order, and then checked the job's
-- health, and every event has succeeded; or one event has failed, it is the last, and the workers
-- started are the first ones of the order.
pub rollout_start_batches-RolledOut :
    {E : Type 0} (succeeds : List Event → Bool) (db : Queries E) (job : String) (c : String)
    (candidates : List String) (w : String) (active : List String) (resolved : ResolvedRolloutOrder)
    (limit : ℤ)
    → db.active_workers (c ∷ candidates) ≡ ok (w ∷ active)
    → db.resolve_order (w ∷ active) ≡ ok resolved
    → db.max_concurrent ≡ ok limit
    → 1 ≤ length resolved.ordered
    → RolledOut succeeds false job phase_new resolved
        (effective_batch_size limit (length resolved.ordered))
        ends_checked
        (rollout_start_batches succeeds db job (c ∷ candidates))
unfolding rollout_start_batches start_active start_resolved start_limited
rollout_start_batches-RolledOut succeeds db job c candidates w active resolved limit a r m h =
    let size = effective_batch_size limit (length resolved.ordered) in
    rw (a, start_active)
      (rw (r, start_resolved)
        (rw (m, start_limited)
          (final_check-RolledOut succeeds job resolved size _ h (
            run_batches-RolledOut succeeds false job phase_new resolved size
              (effective_batch_size_lem limit (length resolved.ordered) h)
              (suc (length resolved.ordered)) 0 [] (omega arith)
              (AtLoop-first succeeds false job phase_new resolved size)))))
