-- ===== src/Sequence.antt =====
-- build/build_deployment_sequence.go: the demands between jobs, and the search for a cycle. visitJob
-- is on fuel, one more than the jobs of the map; a range over the map visits its jobs in the order of
-- the list.
pub mod Graph
pub mod Visits
pub mod Cycles
pub mod Loaded
mod Tests
use maand.Prelude.{
  ℕ, zero, suc, String, Bool, true, false, Option, none, some, List, [], ◌∷◌, ◌++◌, ◌==◌,
  comparable_String, if◌then◌else◌, contains, Map, lookup, put, keys, length,
}

abbrev pub Dependencies : Type 0
Dependencies = Map String (List String)

-- `dependencies[job]`, where a missing job reads as nil.
abbrev pub jobs_or_nil : Option (List String) → List String
jobs_or_nil none = []
jobs_or_nil (some jobs) = jobs

unfoldable pub demanded : Dependencies → String → List String
demanded deps job = jobs_or_nil (lookup job deps)

abbrev pub with_job : String → Dependencies → Dependencies
with_job job deps = elim (lookup job deps) [ none ↦ put job [] deps | some jobs ↦ deps ]

-- One row of loadJobCommandDependencies: a job and the job that one of its commands demands.
unfoldable pub add_demand : String → String → Dependencies → Dependencies
unfolding demanded
add_demand job demanded_job deps =
    with_job demanded_job (put job (demanded deps job ++ demanded_job ∷ []) deps)

unfoldable pub add_demands : List (String × String) → Dependencies → Dependencies
add_demands [] deps = deps
add_demands ((job, demanded_job) ∷ rows) deps = add_demands rows (add_demand job demanded_job deps)

unfoldable pub load_job_command_dependencies : List (String × String) → Dependencies
unfolding add_demands
load_job_command_dependencies rows = add_demands rows []

pub data VisitState : Type 0 where
  unseen visiting complete : VisitState

abbrev pub VisitStates : Type 0
VisitStates = Map String VisitState

abbrev pub state_or_unseen : Option VisitState → VisitState
state_or_unseen none = unseen
state_or_unseen (some state) = state

-- `visitState[job]`
unfoldable pub state_of : VisitStates → String → VisitState
state_of states job = state_or_unseen (lookup job states)

-- How a visit ends: without an error, or with the jobs of a circular dependency.
pub data Visit : Type 0 where
  acyclic : Visit
  circular : List String → Visit
  out_of_fuel : Visit

-- `path[i:]` from the first i where the job stands.
unfoldable pub path_from : String → List String → List String
path_from job [] = []
path_from job (name ∷ path) =
    let rest = path_from job path in if name == job then name ∷ path else rest

abbrev pub is_acyclic : Visit → Bool
is_acyclic acyclic = true
is_acyclic (circular cycle) = false
is_acyclic out_of_fuel = false

-- The loop over the demanded jobs.
unfoldable pub visit_all :
    (String → VisitStates → VisitStates × Visit) → List String → VisitStates → VisitStates × Visit
visit_all visit [] states = (states, acyclic)
visit_all visit (job ∷ jobs) states =
    let result = visit job states in
    let rest = visit_all visit jobs result.0 in if is_acyclic result.1 then rest else result

abbrev pub complete_job : String → VisitStates × Visit → VisitStates × Visit
complete_job job (states, acyclic) = (put job complete states, acyclic)
complete_job job (states, circular cycle) = (states, circular cycle)
complete_job job (states, out_of_fuel) = (states, out_of_fuel)

-- The switch on the job's state, and what follows it.
abbrev pub visit_switch :
    String → List String → VisitStates → VisitStates × Visit → VisitState → VisitStates × Visit
visit_switch job path states below complete = (states, acyclic)
visit_switch job path states below visiting = (states, circular (path_from job path ++ job ∷ []))
visit_switch job path states below unseen = complete_job job below

unfoldable pub visit_job :
    Dependencies → ℕ → String → List String → VisitStates → VisitStates × Visit
visit_job deps zero job path states = (states, out_of_fuel)
visit_job deps (suc fuel) job path states =
    let below =
      visit_all (λ name below_states. visit_job deps fuel name (path ++ job ∷ []) below_states)
        (demanded deps job) (put job visiting states) in
    visit_switch job path states below (state_of states job)

abbrev pub is_unseen : VisitState → Bool
is_unseen unseen = true
is_unseen visiting = false
is_unseen complete = false

-- The loop over all jobs.
unfoldable pub visit_roots : Dependencies → ℕ → List String → VisitStates → VisitStates × Visit
visit_roots deps fuel [] states = (states, acyclic)
visit_roots deps fuel (job ∷ jobs) states =
    let result =
      if is_unseen (state_of states job)
      then visit_job deps fuel job [] states
      else (states, acyclic) in
    let rest = visit_roots deps fuel jobs result.0 in if is_acyclic result.1 then rest else result

unfoldable pub detect_circular_job_command_dependencies : Dependencies → Visit
detect_circular_job_command_dependencies deps =
    (visit_roots deps (suc (length (keys deps))) (keys deps) []).1
