-- ===== src/Sequence/Tests.antt =====
-- The demands of four jobs, with and without a cycle.
use maand.Prelude.{String, List, [], ◌∷◌, ◌≡◌, refl, keys, lookup, put, contains}
use maand.Sequence.{
  demanded, add_demand, load_job_command_dependencies, acyclic, circular, state_of, path_from,
  visit_all, visit_job, visit_roots, detect_circular_job_command_dependencies,
}
use maand.Sequence.Graph.{demands}
use maand.Sequence.Cycles.{Detected}
use maand.Sequence.Loaded.{in_rows, detect_circular-load}

abbrev layered : List (String × String)
layered = ("web", "db") ∷ ("web", "cache") ∷ ("cache", "db") ∷ []

abbrev looping : List (String × String)
looping = ("web", "db") ∷ ("db", "cache") ∷ ("cache", "db") ∷ []

layered_passes :
    detect_circular_job_command_dependencies (load_job_command_dependencies layered) ≡ acyclic
unfolding detect_circular_job_command_dependencies load_job_command_dependencies add_demand demanded
    lookup put keys contains visit_roots visit_job visit_all state_of path_from
layered_passes = refl

looping_fails :
    detect_circular_job_command_dependencies (load_job_command_dependencies looping)
    ≡ circular ("db" ∷ "cache" ∷ "db" ∷ [])
unfolding detect_circular_job_command_dependencies load_job_command_dependencies add_demand demanded
    lookup put keys contains visit_roots visit_job visit_all state_of path_from
looping_fails = refl

detect_circular-load_example :
    ((a b : String) → demands (load_job_command_dependencies looping) a b ≡ in_rows looping a b)
    × Detected (load_job_command_dependencies looping)
detect_circular-load_example = detect_circular-load looping
