-- ===== src/Sequence/Loaded.antt =====
-- loadJobCommandDependencies of build/build_deployment_sequence.go, and the search for a cycle on what
-- it has loaded.
use maand.Prelude.{
  String, Bool, true, false, ◌&&◌, ◌||◌, none, some, List, [], ◌∷◌, ◌++◌, ◌≡◌, refl, sym, ap, ◌∙◌,
  arith, ◌==◌, ==_iff, comparable_String, if◌then◌else◌, contains, contains-append, Distinct,
  lookup, put, lookup-put, keys, contains-keys-put, Distinct-keys-put, Bool-cases, Option-cases,
  inl, inr, lookup_absent,
}
use maand.Sequence.{
  Dependencies, demanded, with_job, add_demand, add_demands, load_job_command_dependencies,
}
use maand.Sequence.Graph.{demands}
use maand.Sequence.Visits.{Closed}
use maand.Sequence.Cycles.{Detected, detect_circular-Detected}

known_of_lookup :
    (deps : Dependencies) (job : String) (jobs : List String)
    → lookup job deps ≡ some jobs
    → contains job (keys deps) ≡ true
known_of_lookup deps job jobs there = elim (Bool-cases (contains job (keys deps))) [
  | inl known ↦ known
  | inr absent ↦ absurd (cc (sym there ∙ lookup_absent job deps absent))
]

demanded-missing :
    (deps : Dependencies) (job : String) → lookup job deps ≡ none → demanded deps job ≡ []
unfolding demanded
demanded-missing deps job missing = rw missing refl

demanded-put :
    (deps : Dependencies) (job : String) (jobs : List String) (a : String)
    → demanded (put job jobs deps) a ≡ (if a == job then jobs else demanded deps a)
unfolding demanded
demanded-put deps job jobs a =
    rw lookup-put
      (elim (Bool-cases (a == job)) [ inl same ↦ rw same refl | inr other ↦ rw other refl ])

demanded-with_job :
    (deps : Dependencies) (job a : String) → demanded (with_job job deps) a ≡ demanded deps a
demanded-with_job deps job a = elim (Option-cases (lookup job deps)) [
  | inr (jobs, there) ↦ rw (there, with_job) refl
  | inl missing ↦
      rw (missing, with_job)
        (demanded-put deps job [] a
          ∙ ground (
            arith,
            demanded-missing deps job missing,
            ==_iff a job,
            λ (p : a ≡ job). ap (λ (y : String). demanded deps y) p,
          ))
]

contains-keys-with_job :
    (deps : Dependencies) (job a : String)
    → contains a (keys (with_job job deps)) ≡ ((a == job) || contains a (keys deps))
contains-keys-with_job deps job a = elim (Option-cases (lookup job deps)) [
  | inl missing ↦ rw (missing, with_job) (contains-keys-put job a [] deps)
  | inr (jobs, there) ↦
      rw (there, with_job)
        (ground (
          arith,
          known_of_lookup deps job jobs there,
          ==_iff a job,
          λ (p : a ≡ job). ap (λ (y : String). contains y (keys deps)) p,
        ))
]

Distinct-keys-with_job :
    (deps : Dependencies) (job : String)
    → Distinct (keys deps)
    → Distinct (keys (with_job job deps))
Distinct-keys-with_job deps job d = elim (Option-cases (lookup job deps)) [
  | inl missing ↦ rw (missing, with_job) (Distinct-keys-put job [] deps d)
  | inr (jobs, there) ↦ rw (there, with_job) d
]

demands-add_demand :
    (deps : Dependencies) (job name a b : String)
    → demands (add_demand job name deps) a b ≡ (demands deps a b || (a == job && b == name))
unfolding add_demand contains
demands-add_demand deps job name a b =
    ap (λ js. contains b js)
      (demanded-with_job (put job (demanded deps job ++ name ∷ []) deps) name a
        ∙ demanded-put deps job (demanded deps job ++ name ∷ []) a)
    ∙ ground (
      arith,
      contains-append b (demanded deps job) (name ∷ []),
      ==_iff a job,
      λ (p : a ≡ job). ap (λ (y : String). contains b (demanded deps y)) p,
    )

contains-keys-add_demand :
    (deps : Dependencies) (job name a : String)
    → contains a (keys (add_demand job name deps))
      ≡ ((a == name) || ((a == job) || contains a (keys deps)))
unfolding add_demand
contains-keys-add_demand deps job name a =
    contains-keys-with_job (put job (demanded deps job ++ name ∷ []) deps) name a
    ∙ ground (arith, contains-keys-put job a (demanded deps job ++ name ∷ []) deps)

-- The rows say that a job demands another one.
unfoldable pub in_rows : List (String × String) → String → String → Bool
in_rows [] a b = false
in_rows ((job, name) ∷ rows) a b = (a == job && b == name) || in_rows rows a b

record IsLoaded (rows : List (String × String)) (before deps : Dependencies) : Type 0 where
  distinct : Distinct (keys deps)
  closed : Closed deps
  same_demands : (a b : String) → demands deps a b ≡ (demands before a b || in_rows rows a b)

add_demands-IsLoaded :
    (rows : List (String × String)) (deps : Dependencies)
    → Distinct (keys deps)
    → Closed deps
    → IsLoaded rows deps (add_demands rows deps)
unfolding add_demands in_rows Closed
add_demands-IsLoaded [] deps d closed = record {
  distinct = d;
  closed = closed;
  same_demands = λ a b. ground arith;
}
add_demands-IsLoaded ((job, name) ∷ rows) deps d closed =
    let next = add_demand job name deps in
    let ih =
      add_demands-IsLoaded rows next
        (unfold add_demand in
          Distinct-keys-with_job (put job (demanded deps job ++ name ∷ []) deps) name
            (Distinct-keys-put job (demanded deps job ++ name ∷ []) deps d))
        (λ a b e.
          contains-keys-add_demand deps job name b
          ∙ ground (arith, e, demands-add_demand deps job name a b, closed a b)) in
    record {
      distinct = ih.distinct;
      closed = ih.closed;
      same_demands =
          λ a b. ih.same_demands a b ∙ ground (arith, demands-add_demand deps job name a b);
    }

nothing-Closed : Closed []
unfolding Closed demanded lookup contains
nothing-Closed a b h = absurd (cc)

load-IsLoaded :
    (rows : List (String × String)) → IsLoaded rows [] (load_job_command_dependencies rows)
unfolding load_job_command_dependencies
load-IsLoaded rows = add_demands-IsLoaded rows [] (unfold keys in tt) nothing-Closed

-- What is loaded has exactly the demands of the rows.
pub demands-load_job_command_dependencies :
    (rows : List (String × String)) (a b : String)
    → demands (load_job_command_dependencies rows) a b ≡ in_rows rows a b
demands-load_job_command_dependencies rows a b =
    (load-IsLoaded rows).same_demands a b ∙ ground (arith, nothing_demanded a b)
  where
    nothing_demanded : (a b : String) → demands [] a b ≡ false
    nothing_demanded a b = unfold demanded lookup contains in refl

-- Whatever commands demand which jobs: what is loaded has exactly the demands of the rows, the search
-- ends, it finds no circular dependency only where no job reaches itself by the demands, and one that
-- it reports is a list in which each job demands the next one and the last job is the first.
pub detect_circular-load :
    (rows : List (String × String))
    → ((a b : String) → demands (load_job_command_dependencies rows) a b ≡ in_rows rows a b)
      × Detected (load_job_command_dependencies rows)
detect_circular-load rows = (
  demands-load_job_command_dependencies rows,
  detect_circular-Detected (load_job_command_dependencies rows) (load-IsLoaded rows).distinct
      (load-IsLoaded rows).closed,
)
