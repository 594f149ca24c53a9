-- ===== src/Rollout/Batches.antt =====
-- The batches of deploy/rollout.go: which workers a rollout reaches, and in which order.
use maand.Prelude.{
  ℕ, zero, suc, ◌+◌, ◌-◌, ◌*◌, ◌≤◌, ◌<◌, String, Bool, true, false, not, ◌&&◌, List, [], ◌∷◌, ◌++◌,
  ◌≡◌, refl, sym, ap, ◌∙◌, arith, ltb, length, take, drop, length-take, length-drop, Bool-cases,
  inl, inr,
}
use maand.Rollout.{ResolvedRolloutOrder}
use maand.Rollout.Steps.{
  Event, ran, after_started, health_check, Outcome, finished, effect_failed, batch_at, batch_count,
  BatchContext, DeployPhase,
}

-- The workers that have been started or restarted, in that order.
unfoldable pub workers : List Event → List String
workers [] = []
workers (ran batch ∷ done) = workers done ++ batch
workers (after_started ctx ∷ done) = workers done
workers (health_check ∷ done) = workers done

-- May a batch run now: nothing has been done yet, or the batch before is complete.
abbrev pub may_run : Bool → List Event → Bool
may_run checks [] = true
may_run checks (ran batch ∷ done) = false
may_run checks (after_started ctx ∷ done) = not checks
may_run checks (health_check ∷ done) = checks

abbrev pub after_a_run : List Event → Bool
after_a_run (ran batch ∷ done) = true
after_a_run (after_started ctx ∷ done) = false
after_a_run (health_check ∷ done) = false
after_a_run [] = false

abbrev pub after_a_hook : List Event → Bool
after_a_hook (after_started ctx ∷ done) = true
after_a_hook (ran batch ∷ done) = false
after_a_hook (health_check ∷ done) = false
after_a_hook [] = false

-- The events come in rounds: a batch, its hook, and with `checks` a health check.
unfoldable pub in_rounds : Bool → List Event → Bool
in_rounds checks [] = true
in_rounds checks (ran batch ∷ done) = may_run checks done && in_rounds checks done
in_rounds checks (after_started ctx ∷ done) = after_a_run done && in_rounds checks done
in_rounds checks (health_check ∷ done) = after_a_hook done && in_rounds checks done

-- No batch is empty or larger than the limit.
unfoldable pub Sized : ℕ → List Event → Type 0
Sized size [] = Unit
Sized size (ran batch ∷ done) = (1 ≤ length batch) × (length batch ≤ size) × Sized size done
Sized size (after_started ctx ∷ done) = Sized size done
Sized size (health_check ∷ done) = Sized size done

unfoldable pub AllSucceed : (List Event → Bool) → List Event → Type 0
AllSucceed succeeds [] = Unit
AllSucceed succeeds (e ∷ done) = (succeeds (e ∷ done) ≡ true) × AllSucceed succeeds done

take_append : (i m : ℕ) (xs : List String) → (take i xs ++ take m (drop i xs)) ≡ take (i + m) xs
take_append zero m xs = let e : 0 + m ≡ m = omega arith in rw e refl
take_append (suc i) zero [] = let e : suc i + 0 ≡ suc i = omega arith in rw e refl
take_append (suc i) (suc m) [] = let e : suc i + suc m ≡ suc (i + suc m) = omega arith in rw e refl
take_append (suc i) m (x ∷ xs) =
    let e : suc i + m ≡ suc (i + m) = omega arith in rw e (ap (λ ys. x ∷ ys) (take_append i m xs))

pub take_long : (m : ℕ) (xs : List String) → length xs ≤ m → take m xs ≡ xs
take_long zero [] h = refl
take_long zero (x ∷ xs) h = absurd (omega arith)
take_long (suc m) [] h = refl
take_long (suc m) (x ∷ xs) h = ap (λ ys. x ∷ ys) (take_long m xs (omega arith))

pub take-batch_at :
    (i size : ℕ) (ordered : List String)
    → i ≤ length ordered
    → (take i ordered ++ batch_at i size ordered) ≡ take (i + size) ordered
unfolding batch_at
take-batch_at i size ordered h = elim (Bool-cases (ltb (length ordered) (i + size))) [
  | inl beyond ↦ rw beyond (
      take_append i (length ordered - i) ordered
      ∙ take_long (i + (length ordered - i)) ordered (omega arith)
      ∙ sym (take_long (i + size) ordered (ground arith)))
  | inr within ↦
      rw within (let e : i + size - i ≡ size = omega arith in rw e (take_append i size ordered))
]

pub batch_at-Sized :
    (i size : ℕ) (ordered : List String)
    → i < length ordered
    → 1 ≤ size
    → (1 ≤ length (batch_at i size ordered)) × (length (batch_at i size ordered) ≤ size)
unfolding batch_at
batch_at-Sized i size ordered h pos_size = elim (Bool-cases (ltb (length ordered) (i + size))) [
  | inl beyond ↦ rw beyond (rw (length-take, length-drop) (ground arith))
  | inr within ↦ rw within (rw (length-take, length-drop) (ground arith))
]

-- How many batches have been run.
unfoldable pub batches : List Event → ℕ
batches [] = 0
batches (ran batch ∷ done) = batches done + 1
batches (after_started ctx ∷ done) = batches done
batches (health_check ∷ done) = batches done

-- What the hook of a batch is given: the batch itself, and its index.
abbrev pub context_of :
    String → DeployPhase → ResolvedRolloutOrder → ℕ → ℕ → List String → BatchContext
context_of job phase resolved size index batch = record {
  job = job;
  phase = phase;
  batch_index = index;
  batch_count = batch_count (length resolved.ordered) size;
  batch_allocation = batch;
  rollout_order = resolved.full_order;
  order_source = resolved.source;
}

abbrev pub OfLastBatch : (ℕ → List String → BatchContext) → BatchContext → List Event → Type 0
OfLastBatch context ctx [] = ⊥
OfLastBatch context ctx (ran batch ∷ done) = ctx ≡ context (batches done) batch
OfLastBatch context ctx (after_started ctx' ∷ done) = ⊥
OfLastBatch context ctx (health_check ∷ done) = ⊥

-- Each hook is given the batch that has just been run, and how many there were before.
unfoldable pub Described : (ℕ → List String → BatchContext) → List Event → Type 0
Described context [] = Unit
Described context (ran batch ∷ done) = Described context done
Described context (after_started ctx ∷ done) = OfLastBatch context ctx done × Described context done
Described context (health_check ∷ done) = Described context done

module _ (succeeds : List Event → Bool) (checks : Bool) (job : String) (phase : DeployPhase)
    (resolved : ResolvedRolloutOrder) (size : ℕ) where
  -- What holds of the events whenever the loop stands at its condition.
  pub record AtLoop (i : ℕ) (done : List Event) : Type 0 where
    pub reached : workers done ≡ take i resolved.ordered
    pub rounds : in_rounds checks done ≡ true
    pub may_go_on : may_run checks done ≡ true
    pub sized : Sized size done
    pub described : Described (context_of job phase resolved size) done
    pub succeeded : AllSucceed succeeds done
    pub counted : i ≡ batches done * size

  -- What holds of the events of a rollout that has ended.
  pub record Ended (done : List Event) : Type 0 where
    pub rounds : in_rounds checks done ≡ true
    pub sized : Sized size done
    pub described : Described (context_of job phase resolved size) done

  -- A rollout has done everything, and the last events are complete; or an event has failed, and
  -- the workers reached so far are the first ones of the order.
  pub data RolledOut (complete : List Event → Bool) (r : List Event × Outcome) : Type 0 where
    all_done :
        r.1 ≡ finished
        → complete r.0 ≡ true
        → Ended r.0
        → AllSucceed succeeds r.0
        → workers r.0 ≡ resolved.ordered
        → RolledOut complete r
    stopped :
        (e : Event) (done : List Event) (k : ℕ)
        → r ≡ (e ∷ done, effect_failed)
        → Ended (e ∷ done)
        → succeeds (e ∷ done) ≡ false
        → AllSucceed succeeds done
        → workers (e ∷ done) ≡ take k resolved.ordered
        → RolledOut complete r
