-- ===== src/Rollout/Rolled.antt =====
-- The loop over the batches and rolloutRestartBatches of deploy/rollout.go: what a restart has done when
-- it ends.
use maand.Prelude.{
  ℕ, zero, suc, ◌+◌, ◌-◌, ◌*◌, ◌/◌, ◌≤◌, ◌<◌, String, Bool, true, false, not, ◌&&◌, List, [], ◌∷◌,
  ◌++◌, ◌≡◌, refl, ap, ◌∙◌, arith, ℤ, pos, negsuc, ltb, if◌then◌else◌, length, take, Bool-cases,
  inl, inr, ok,
}
use native.Mathlib.Nat.{mul-div_cancel, add-mul, one-mul, zero-mul}
use maand.Rollout.{ResolvedRolloutOrder}
use maand.Rollout.Steps.{
  Event, ran, after_started, health_check, DeployPhase, phase_update, BatchContext, batch_at,
  run_batches, context_at, at_least_one, Queries, restart_limited, restart_resolved, restart_active,
  rollout_restart_batches,
}
use maand.Rollout.Batches.{
  workers, may_run, in_rounds, Sized, AllSucceed, take_long, take-batch_at, batch_at-Sized, AtLoop,
  batches, context_of, OfLastBatch, Described, Ended, RolledOut, all_done, stopped,
}

next_index : (i size n : ℕ) → i ≡ n * size → i + size ≡ (n + 1) * size
next_index i size n h = omega (arith, h, add-mul n 1 size, one-mul size)

zero_batches : (size : ℕ) → 0 ≡ 0 * size
zero_batches size = omega (arith, zero-mul size)

AtLoop-next :
    (succeeds : List Event → Bool) (checks : Bool) (job : String) (phase : DeployPhase)
    (resolved : ResolvedRolloutOrder) (size i : ℕ) (batch : List String) (ctx : BatchContext)
    (done : List Event)
    → Ended succeeds checks job phase resolved size (after_started ctx ∷ ran batch ∷ done)
    → AllSucceed succeeds (after_started ctx ∷ ran batch ∷ done)
    → workers (ran batch ∷ done) ≡ take i resolved.ordered
    → i ≡ (batches done + 1) * size
    → (checks && not (succeeds (health_check ∷ after_started ctx ∷ ran batch ∷ done))) ≡ false
    → AtLoop succeeds checks job phase resolved size i (
        if checks
        then health_check ∷ after_started ctx ∷ ran batch ∷ done
        else after_started ctx ∷ ran batch ∷ done)
unfolding workers in_rounds Sized AllSucceed Described batches
AtLoop-next succeeds true job phase resolved size i batch ctx done e all w n healthy = record {
  reached = w;
  rounds = e.rounds;
  may_go_on = refl;
  sized = e.sized;
  described = e.described;
  succeeded = (ground (arith, healthy), all);
  counted = n;
}
AtLoop-next succeeds false job phase resolved size i batch ctx done e all w n healthy = record {
  reached = w;
  rounds = e.rounds;
  may_go_on = refl;
  sized = e.sized;
  described = e.described;
  succeeded = all;
  counted = n;
}

module _ (succeeds : List Event → Bool) (checks : Bool) (job : String) (phase : DeployPhase)
    (resolved : ResolvedRolloutOrder) (size : ℕ) (some_size : 1 ≤ size) where
  abbrev At : ℕ → List Event → Type 0
  At = AtLoop succeeds checks job phase resolved size

  abbrev Ends : List Event → Type 0
  Ends = Ended succeeds checks job phase resolved size

  abbrev context : ℕ → BatchContext
  context = context_at succeeds checks job phase resolved size

  Ended-ran :
      (i : ℕ) (done : List Event)
      → i < length resolved.ordered
      → At i done
      → Ends (ran (batch_at i size resolved.ordered) ∷ done)
        × (workers (ran (batch_at i size resolved.ordered) ∷ done)
            ≡ take (i + size) resolved.ordered)
  unfolding workers in_rounds Sized Described
  Ended-ran i done more at =
      let b = batch_at-Sized i size resolved.ordered more some_size in
      (
        record {
          rounds = rw at.may_go_on at.rounds;
          sized = (b.0, b.1, at.sized);
          described = at.described;
        },
        ap (λ ws. ws ++ batch_at i size resolved.ordered) at.reached
            ∙ take-batch_at i size resolved.ordered (omega arith),
      )

  index_at : (i : ℕ) (done : List Event) → i ≡ batches done * size → i / size ≡ batches done
  index_at i done n = ap (λ m. m / size) n ∙ mul-div_cancel (batches done) some_size

  -- The context at an index is that of the batch at the index.
  context_at-OfLastBatch :
      (i : ℕ) (done : List Event)
      → i ≡ batches done * size
      → OfLastBatch
          (context_of job phase resolved size)
          (context i)
          (ran (batch_at i size resolved.ordered) ∷ done)
  context_at-OfLastBatch i done n = rw (index_at i done n) refl

  Ended-hook :
      (b : List String) (ctx : BatchContext) (done : List Event)
      → OfLastBatch (context_of job phase resolved size) ctx (ran b ∷ done)
      → Ends (ran b ∷ done)
      → Ends (after_started ctx ∷ ran b ∷ done)
        × Ends (health_check ∷ after_started ctx ∷ ran b ∷ done)
  unfolding in_rounds Sized Described
  Ended-hook b ctx done of e = (
    record { rounds = e.rounds; sized = e.sized; described = (of, e.described) },
    record { rounds = e.rounds; sized = e.sized; described = (of, e.described) },
  )

  pub run_batches-RolledOut :
      (fuel i : ℕ) (done : List Event)
      → length resolved.ordered - i < fuel
      → At i done
      → RolledOut succeeds checks job phase resolved size
          (may_run checks)
          (run_batches succeeds checks job phase resolved size fuel i done)
  unfolding run_batches
  run_batches-RolledOut zero i done enough at = absurd (omega (arith, enough))
  run_batches-RolledOut (suc fuel) i done enough at =
      elim (Bool-cases (ltb i (length resolved.ordered))) [
        | inr over ↦
            rw (over, run_batches)
              (all_done refl at.may_go_on
                (record { rounds = at.rounds; sized = at.sized; described = at.described })
                at.succeeded (at.reached ∙ take_long i resolved.ordered (ground arith)))
        | inl more ↦
            let one = Ended-ran i done (ground arith) at in
            let ctx = context i in
            let after_run = ran (batch_at i size resolved.ordered) ∷ done in
            let after_hook = after_started ctx ∷ after_run in
            let two =
              Ended-hook (batch_at i size resolved.ordered) ctx done
                (context_at-OfLastBatch i done at.counted) one.0 in
            elim (Bool-cases (succeeds after_run)) [
              | inr bad ↦
                  rw (more, bad, run_batches)
                    (stopped _ done (i + size) refl one.0 bad at.succeeded one.1)
              | inl good ↦ elim (Bool-cases (succeeds after_hook)) [
                | inr bad ↦
                    rw (more, good, bad, run_batches)
                      (stopped _ after_run (i + size) refl two.0 bad
                        (unfold AllSucceed in (good, at.succeeded)) (unfold workers in one.1))
                | inl hooked ↦
                    let all : AllSucceed succeeds after_hook =
                      unfold AllSucceed in (hooked, (good, at.succeeded)) in
                    elim (Bool-cases (checks && not (succeeds (health_check ∷ after_hook)))) [
                      | inl sick ↦
                          rw (more, good, hooked, sick, run_batches)
                            (stopped _ after_hook (i + size) refl two.1 (ground (arith, sick)) all
                              (unfold workers in one.1))
                      | inr healthy ↦
                          rw (more, good, hooked, healthy, run_batches)
                            (run_batches-RolledOut fuel (i + size) _ (ground (arith, enough, more))
                              (AtLoop-next succeeds checks job phase resolved size (i + size) _ ctx
                                done two.0 all one.1 (next_index i size (batches done) at.counted)
                                healthy))
                    ]
              ]
            ]
      ]

pub AtLoop-first :
    (succeeds : List Event → Bool) (checks : Bool) (job : String) (phase : DeployPhase)
    (resolved : ResolvedRolloutOrder) (size : ℕ)
    → AtLoop succeeds checks job phase resolved size 0 []
unfolding workers in_rounds Sized AllSucceed Described batches
AtLoop-first succeeds checks job phase resolved size = record {
  reached = refl;
  rounds = refl;
  may_go_on = refl;
  sized = tt;
  described = tt;
  succeeded = tt;
  counted = zero_batches size;
}

at_least_one_lem : (limit : ℤ) → 1 ≤ at_least_one limit
at_least_one_lem (pos n) = ground arith
at_least_one_lem (negsuc n) = omega arith

pub rollout_restart_batches-RolledOut :
    {E : Type 0} (succeeds : List Event → Bool) (db : Queries E) (job : String) (c : String)
    (candidates : List String) (w : String) (active : List String) (resolved : ResolvedRolloutOrder)
    (limit : ℤ)
    → db.active_workers (c ∷ candidates) ≡ ok (w ∷ active)
    → db.resolve_order (w ∷ active) ≡ ok resolved
    → db.max_concurrent ≡ ok limit
    → RolledOut succeeds true job phase_update resolved
        (at_least_one limit)
        (may_run true)
        (rollout_restart_batches succeeds db job (c ∷ candidates))
unfolding rollout_restart_batches restart_active restart_resolved restart_limited
rollout_restart_batches-RolledOut succeeds db job c candidates w active resolved limit a r m =
    rw (a, restart_active)
      (rw (r, restart_resolved)
        (rw (m, restart_limited)
          (run_batches-RolledOut succeeds true job phase_update resolved (at_least_one limit)
            (at_least_one_lem limit) (suc (length resolved.ordered)) 0 [] (omega arith)
            (AtLoop-first succeeds true job phase_update resolved (at_least_one limit)))))
