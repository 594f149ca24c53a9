-- ===== src/Update/Chosen.antt =====
-- Which allocations allocationsNeedingRestart of deploy/allocations.go returns.
use maand.Prelude.{
  String, Bool, true, false, not, ◌&&◌, ◌||◌, Option, none, some, List, [], ◌∷◌, ◌++◌, ◌≡◌, refl,
  ap, ◌∙◌, arith, ◌==◌, ==_iff, comparable_String, if◌then◌else◌, contains, contains-append,
  Distinct, lookup, Bool-cases, inl, inr,
}
use maand.Utils.{unique, difference}
use maand.Utils.Members.{contains-unique, contains-difference}
use maand.Deploy.{
  Allocation, HashTable, is_new, is_updated, is_version_pending, workers_where, get_new_allocations,
}
use maand.Update.{
  is_active, get_updated_allocations, get_version_pending_allocations, get_active_allocations,
  allocations_needing_restart,
}

-- The row of a worker and a job.
unfoldable pub row_of : String → String → List Allocation → Option Allocation
row_of job worker_ip [] = none
row_of job worker_ip (a ∷ allocations) =
    let rest = row_of job worker_ip allocations in
    if a.job == job && a.worker_ip == worker_ip then some a else rest

abbrev pub holds : (Allocation → Bool) → Option Allocation → Bool
holds p none = false
holds p (some a) = p a

abbrev pub job_workers : String → List Allocation → List String
job_workers job allocations = workers_where (λ a. a.job == job) allocations

Distinct-later :
    (same : Bool) (x : String) (xs : List String)
    → Distinct (if same then x ∷ xs else xs)
    → Distinct xs × (same ≡ true → contains x xs ≡ false)
Distinct-later true x xs d = (d.1, λ _. d.0)
Distinct-later false x xs d = (d, λ h. absurd (cc))

module _ (job : String) (p : Allocation → Bool)
    (of_job : (a : Allocation) → p a ≡ true → (a.job == job) ≡ true) where
  contains-job_workers :
      (x : String) (allocations : List Allocation)
      → contains x (workers_where p allocations) ≡ true
      → contains x (job_workers job allocations) ≡ true
  unfolding workers_where contains
  contains-job_workers x [] h = h
  contains-job_workers x (a ∷ allocations) h =
      ground (arith, h, of_job a, contains-job_workers x allocations)

  contains-workers_where :
      (x : String) (allocations : List Allocation)
      → Distinct (job_workers job allocations)
      → contains x (workers_where p allocations) ≡ holds p (row_of job x allocations)
  unfolding workers_where contains row_of
  contains-workers_where x [] d = refl
  contains-workers_where x (a ∷ allocations) d =
      let later = workers_where p allocations in
      let d' = Distinct-later (a.job == job) a.worker_ip (job_workers job allocations) d in
      let ih = contains-workers_where x allocations d'.0 in
      let away = d'.1 in
      let none_later : contains a.worker_ip (job_workers job allocations) ≡ false
          → contains a.worker_ip later ≡ false =
        λ h. ground (arith, h, contains-job_workers a.worker_ip allocations) in
      elim (Bool-cases (a.job == job && a.worker_ip == x)) [
        | inr other ↦
            rw other
              (ground (arith, other, of_job a, ih, ==_iff a.worker_ip x, ==_iff x a.worker_ip))
        | inl same ↦ rw same (
            ground (
              arith,
              same,
              away,
              none_later,
              ==_iff a.worker_ip x,
              ==_iff x a.worker_ip,
              λ (e : a.worker_ip ≡ x). ap (λ (y : String). contains y later) e,
            ))
      ]

-- The allocation is active, something is live on it, and its content or its version is not what is staged,
-- or all are restarted.
abbrev pub needs_restart : Bool → String → HashTable → Allocation → Bool
needs_restart force job t a =
    (is_active job a && not (is_new (lookup a.alloc_id t)))
    && (force
        || (is_updated (lookup a.alloc_id t)
            || is_version_pending a.new_version (lookup a.alloc_id t)))

-- The rows of a job are told apart by their workers. A worker is in what allocationsNeedingRestart returns
-- exactly if its row of the job is neither removed nor disabled and is not a new allocation, and with force
-- any such row is one, else those whose live content is not the staged one or whose running version is not
-- the target.
pub allocations_needing_restart-row_of :
    (force : Bool) (job : String) (allocations : List Allocation) (t : HashTable) (x : String)
    → Distinct (job_workers job allocations)
    → contains x (allocations_needing_restart force job allocations t)
      ≡ holds (needs_restart force job t) (row_of job x allocations)
unfolding allocations_needing_restart get_updated_allocations get_version_pending_allocations
    get_active_allocations get_new_allocations
allocations_needing_restart-row_of force job allocations t x d =
    let row = λ (a : Allocation). lookup a.alloc_id t in
    let updated = λ (a : Allocation). is_updated (row a) && is_active job a in
    let pending = λ (a : Allocation). is_active job a && is_version_pending a.new_version (row a) in
    let new_one = λ (a : Allocation). is_new (row a) && is_active job a in
    let w = λ (p : Allocation → Bool). workers_where p allocations in
    let u = contains-workers_where job updated (λ a h. ground (arith, h)) x allocations d in
    let v = contains-workers_where job pending (λ a h. ground (arith, h)) x allocations d in
    let n = contains-workers_where job new_one (λ a h. ground (arith, h)) x allocations d in
    let c = contains-workers_where job (is_active job) (λ a h. ground (arith, h)) x allocations d in
    chosen force (row_of job x allocations) (difference (w (is_active job)) (w new_one))
      (difference (unique (w updated ++ w pending)) (w new_one))
      (contains-difference x (w (is_active job)) (w new_one) ∙ rw (c, n) refl)
      (contains-difference x (unique (w updated ++ w pending)) (w new_one)
        ∙ rw
            (
              contains-unique x (w updated ++ w pending),
              contains-append x (w updated) (w pending),
              u,
              v,
              n,
            )
            refl)
  where
    chosen :
        (force : Bool) (o : Option Allocation) (forced unforced : List String)
        → contains x forced ≡ (
            holds (is_active job) o
            && not (holds (λ a. is_new (lookup a.alloc_id t) && is_active job a) o))
        → contains x unforced ≡ (
            (holds (λ a. is_updated (lookup a.alloc_id t) && is_active job a) o
              || holds
                  (λ a. is_active job a && is_version_pending a.new_version (lookup a.alloc_id t))
                  o)
            && not (holds (λ a. is_new (lookup a.alloc_id t) && is_active job a) o))
        → contains x (if force then forced else unforced) ≡ holds (needs_restart force job t) o
    chosen true none _ _ f u = f
    chosen false none _ _ f u = u
    chosen true (some a) _ _ f u = ground (arith, f)
    chosen false (some a) _ _ f u = ground (arith, u)
