-- ===== src/Update/Ran.antt =====
-- What handleUpdatedAllocations of deploy/allocations.go has done to the workers when it ends.
use maand.Prelude.{
  ℕ, String, Bool, true, List, [], ◌∷◌, ◌≡◌, ◌⊎◌, refl, sym, ap, ◌∙◌, ℤ, Result, ok, err, ◌>>=◌,
  inl, inr, if◌then◌else◌,
}
use maand.Utils.{none_of}
use maand.Deploy.{Allocation, HashTable}
use maand.Policy.{FileManifest, rollout_action_restart, rollout_action_reload}
use maand.Rollout.{ResolvedRolloutOrder, no_source}
use maand.Rollout.Steps.{
  Event, phase_update, Outcome, finished, effect_failed, query_failed, out_of_fuel, at_least_one,
  Queries, rollout_restart_batches, restart_active,
}
use maand.Rollout.Batches.{may_run, RolledOut, all_done, stopped}
use maand.Rollout.Rolled.{rollout_restart_batches-RolledOut, AtLoop-first}
use maand.Update.{
  UpdateError, Read, Split, Handled, allocations_needing_restart, split_workers, roll_out,
  then_restart, reload_and_restart, handle_updated_allocations,
}

ended_lem :
    {succeeds : List Event → Bool} {job : String} {resolved : ResolvedRolloutOrder} {size : ℕ}
    (done : List Event) (outcome : Outcome)
    → RolledOut succeeds true job phase_update resolved size (may_run true) (done, outcome)
    → ¬ (outcome ≡ finished)
    → ¬ (outcome ≡ effect_failed)
    → ⊥
ended_lem done outcome (all_done h _ _ _ _) a b = a h
ended_lem done outcome (stopped _ _ _ h _ _ _ _) a b = b (ap (λ r. r.1) h)

abbrev nobody : Split
nobody = record { restart_workers = []; reload_workers = [] }

abbrev split_or_nobody : Result UpdateError Split → Split
split_or_nobody (err e) = nobody
split_or_nobody (ok s) = s

-- The order where nobody is active.
abbrev pub nobody_ordered : ResolvedRolloutOrder
nobody_ordered = record { ordered = []; full_order = ""; source = no_source }

-- A database that answers.
module _ (active : String → List String → List String)
    (order : String → List String → ResolvedRolloutOrder) (limit : ℤ) where
  abbrev pub answers : String → Queries String
  answers action = record {
    active_workers = λ candidates. ok (active action candidates);
    resolve_order = λ candidates. ok (order action candidates);
    max_concurrent = ok limit;
  }

  abbrev pub order_of_active : String → List String → ResolvedRolloutOrder
  order_of_active action [] = nobody_ordered
  order_of_active action (w ∷ ws) = order action (w ∷ ws)

  abbrev pub order_of : String → List String → ResolvedRolloutOrder
  order_of action [] = nobody_ordered
  order_of action (c ∷ candidates) = order_of_active action (active action (c ∷ candidates))

  module _ (succeeds : List Event → List Event → Bool) (job : String) where
    abbrev pub Rolled : String → List Event → List String → List Event × Outcome → Type 0
    Rolled action before workers r =
        RolledOut (succeeds before) true job phase_update (order_of action workers)
          (at_least_one limit) (may_run true) r

    -- All workers to reload are done, and then those to restart are, as far as the events succeed.
    abbrev pub Ran : Split → Handled → Type 0
    Ran s h =
        (Rolled rollout_action_reload [] s.reload_workers (h.reloads, finished)
          × Rolled rollout_action_restart h.reloads s.restart_workers (h.restarts, h.outcome))
        ⊎ (Rolled rollout_action_reload [] s.reload_workers (h.reloads, effect_failed)
            × (h.outcome ≡ effect_failed)
            × (h.restarts ≡ []))

    nothing-Rolled :
        (before : List Event)
        → RolledOut
            (succeeds before)
            true
            job
            phase_update
            nobody_ordered
            (at_least_one limit)
            (may_run true)
            ([], finished)
    nothing-Rolled before =
        let at =
          AtLoop-first (succeeds before) true job phase_update nobody_ordered
            (at_least_one limit) in
        all_done refl refl
          (record { rounds = at.rounds; sized = at.sized; described = at.described }) at.succeeded
          at.reached

    roll_out-Rolled :
        (action : String) (before : List Event) (workers : List String)
        → Rolled action before workers (roll_out succeeds answers job action before workers)
    unfolding roll_out rollout_restart_batches restart_active
    roll_out-Rolled action before [] = nothing-Rolled before
    roll_out-Rolled action before (c ∷ candidates) =
        some_active (active action (c ∷ candidates)) refl
      where
        some_active :
            (ws : List String)
            → active action (c ∷ candidates) ≡ ws
            → RolledOut
                (succeeds before)
                true
                job
                phase_update
                (order_of_active action ws)
                (at_least_one limit)
                (may_run true)
                (roll_out succeeds answers job action before (c ∷ candidates))
        some_active [] h = rw h (nothing-Rolled before)
        some_active (w ∷ ws) h =
            rollout_restart_batches-RolledOut (succeeds before) (answers action) job c candidates w
              ws (order action (w ∷ ws)) limit (ap (λ (xs : List String). ok xs) h) refl refl

    then_restart-Ran :
        (s : Split) (r : List Event × Outcome)
        → Rolled rollout_action_reload [] s.reload_workers r
        → Ran s (then_restart succeeds answers job s.restart_workers r)
    unfolding then_restart
    then_restart-Ran s (reloads, finished) e =
        inl (e, roll_out-Rolled rollout_action_restart reloads s.restart_workers)
    then_restart-Ran s (reloads, effect_failed) e = inr (e, refl, refl)
    then_restart-Ran s (reloads, query_failed) e =
        absurd (ended_lem reloads query_failed e (λ h. absurd (cc)) (λ h. absurd (cc)))
    then_restart-Ran s (reloads, out_of_fuel) e =
        absurd (ended_lem reloads out_of_fuel e (λ h. absurd (cc)) (λ h. absurd (cc)))

    handled :
        (split : List String → Result UpdateError Split) (updated : List String) (s : Split)
        → split [] ≡ ok nobody
        → split updated ≡ ok s
        → (if none_of updated
            then ok (record { reloads = []; restarts = []; outcome = finished })
            else split updated >>= λ s. ok (reload_and_restart succeeds answers job s))
          ≡ ok (reload_and_restart succeeds answers job s)
    unfolding reload_and_restart then_restart roll_out
    handled split [] s none chosen =
        ap (λ r. ok (reload_and_restart succeeds answers job (split_or_nobody r)))
          (◌∙◌ {A = Result UpdateError Split} (sym none) chosen)
    handled split (w ∷ updated) s none chosen = rw chosen refl

    -- Where the database answers, and the actions of the allocations that need a restart are decided without
    -- an error: the handling ends, and the workers to reload are rolled out before those to restart, each in
    -- the rounds of RolledOut: either every worker to reload has been reloaded in the order, and then those
    -- to restart have been restarted up to the end or the first failure; or a reload has failed, which is
    -- then the outcome, and nothing has been restarted.
    pub handle_updated_allocations-Ran :
        (decode : String → Result UpdateError FileManifest) (reads : Read → Bool)
        (force sync_only : Bool) (policy : String) (globs : List String)
        (allocations : List Allocation) (t : HashTable) (s : Split)
        → split_workers decode reads sync_only policy globs job allocations t
            (allocations_needing_restart force job allocations t)
          ≡ ok s
        → let h = reload_and_restart succeeds answers job s in
          (handle_updated_allocations succeeds answers job decode reads force sync_only policy globs
              allocations t
            ≡ ok h)
          × Ran s h
    unfolding handle_updated_allocations split_workers
    handle_updated_allocations-Ran decode reads force sync_only policy globs allocations t s
          chosen =
        (
          handled (split_workers decode reads sync_only policy globs job allocations t)
              (allocations_needing_restart force job allocations t) s nobody_chosen chosen,
          then_restart-Ran s _ (roll_out-Rolled rollout_action_reload [] s.reload_workers),
        )
      where
        nobody_chosen :
            split_workers decode reads sync_only policy globs job allocations t [] ≡ ok nobody
        nobody_chosen = refl
