-- ===== src/Sequence/Cycles.antt =====
-- detectCircularJobCommandDependencies of build/build_deployment_sequence.go.
use maand.Prelude.{
  ℕ, zero, suc, ◌+◌, ◌<◌, String, true, false, ◌||◌, List, [], ◌∷◌, ◌++◌, ◌≡◌, refl, sym, ap, ◌∙◌,
  arith, ◌==◌, ==_iff, ==_refl, comparable_String, if◌then◌else◌, contains, Distinct, lookup, put,
  keys, length, length-append, Bool-cases, inl, inr, lookup_absent,
}
use maand.Sequence.{
  Dependencies, demanded, VisitState, unseen, visiting, complete, VisitStates, state_of, Visit,
  acyclic, circular, out_of_fuel, is_acyclic, is_unseen, visit_all, complete_job, visit_switch,
  visit_job, visit_roots, detect_circular_job_command_dependencies,
}
use maand.Sequence.Graph.{
  Circle, path_from-Circle, demands, Reaches, demand, through, Topological, Topological-acyclic,
  ChainTo, length_of_part,
}
use maand.Sequence.Visits.{
  Visited-after, Good, Visited, no_cycle, a_cycle, Call, Closed, is_complete, is_visiting,
  visit_all-Visited, Good-enter, Good-leave, Call-below, state_of-put,
}

complete_job_acyclic :
    (job : String) (r : VisitStates × Visit)
    → r.1 ≡ acyclic
    → complete_job job r ≡ (put job complete r.0, acyclic)
complete_job_acyclic job (s, acyclic) e = refl
complete_job_acyclic job (s, circular c) e = absurd (cc)
complete_job_acyclic job (s, out_of_fuel) e = absurd (cc)

complete_job_circular :
    (job : String) (r : VisitStates × Visit) (c : List String)
    → r.1 ≡ circular c
    → complete_job job r ≡ r
complete_job_circular job (s, acyclic) c e = absurd (cc)
complete_job_circular job (s, circular c') c e = refl
complete_job_circular job (s, out_of_fuel) c e = absurd (cc)

complete_job-Visited :
    (deps : Dependencies) (path : List String) (states : VisitStates) (job : String)
    (r : VisitStates × Visit)
    → contains job path ≡ false
    → Visited deps
        (path ++ job ∷ [])
        (put job visiting states)
        (λ a. contains a (demanded deps job))
        r
    → Visited deps path states (λ a. a == job) (complete_job job r)
complete_job-Visited deps path states job r fresh (a_cycle cycle a e loop) =
    rw (complete_job_circular job r cycle e) (a_cycle cycle a e loop)
complete_job-Visited deps path states job r fresh (no_cycle e g keep finish) =
    rw (complete_job_acyclic job r e) (
      no_cycle refl (Good-leave deps path r.0 job fresh finish g)
        (λ a h.
          ap is_complete (state_of-put r.0 job complete a)
          ∙ ground (arith, keep a, ap is_complete (state_of-put states job visiting a), h))
        (λ a same. ap is_complete (state_of-put r.0 job complete a) ∙ ground (arith, same)))

-- A visit does not run out of fuel: it completes the job, or it has found a cycle.
visit_job-Visited :
    (deps : Dependencies) (fuel : ℕ) (job : String) (path : List String) (states : VisitStates)
    → Distinct (keys deps)
    → Closed deps
    → length (keys deps) < length path + fuel
    → Call deps path job
    → Good deps path states
    → Visited deps path states (λ a. a == job) (visit_job deps fuel job path states)
unfolding visit_job
visit_job-Visited deps zero job path states d closed enough c g =
    absurd (omega (arith, enough, length_of_part path (keys deps) c.distinct d c.known))
visit_job-Visited deps (suc fuel) job path states d closed enough c g =
    switch (state_of states job) refl (λ fresh name s there.
      visit_job-Visited deps fuel name (path ++ job ∷ []) s d closed
        (omega (arith, enough, length-append path (job ∷ [])))
        (Call-below deps path job name closed c fresh there))
  where
    below : VisitStates × Visit
    below =
        visit_all (λ name s. visit_job deps fuel name (path ++ job ∷ []) s) (demanded deps job)
          (put job visiting states)

    switch :
        (state : VisitState)
        → state_of states job ≡ state
        → (contains job path ≡ false
            → (name : String) (s : VisitStates) → contains name (demanded deps job) ≡ true
            → Good deps (path ++ job ∷ []) s
            → Visited deps
                (path ++ job ∷ [])
                s
                (λ a. a == name)
                (visit_job deps fuel name (path ++ job ∷ []) s))
        → Visited deps path states (λ a. a == job) (visit_switch job path states below state)
    switch complete q ih =
        no_cycle refl g (λ a h. h)
          (λ a same. let p : a ≡ job = (==_iff a job).0 same in rw p (ap is_complete q))
    switch visiting q ih =
        a_cycle _ job refl
          (path_from-Circle deps job path c.chain (sym (g.on_path job) ∙ ap is_visiting q))
    switch unseen q ih =
        let fresh : contains job path ≡ false = sym (g.on_path job) ∙ ap is_visiting q in
        complete_job-Visited deps path states job below fresh (
          visit_all-Visited deps (path ++ job ∷ [])
            (λ name s. visit_job deps fuel name (path ++ job ∷ []) s) (demanded deps job)
            (put job visiting states) (ih fresh) (Good-enter deps path states job q g))

visit_root-Visited :
    (deps : Dependencies) (job : String) (states : VisitStates)
    → Distinct (keys deps)
    → Closed deps
    → contains job (keys deps) ≡ true
    → Good deps [] states
    → Visited deps [] states
        (λ a. a == job)
        (if is_unseen (state_of states job)
          then visit_job deps (suc (length (keys deps))) job [] states
          else (states, acyclic))
unfolding contains
visit_root-Visited deps job states d closed known g = go (state_of states job) refl
  where
    go :
        (state : VisitState)
        → state_of states job ≡ state
        → Visited deps [] states
            (λ a. a == job)
            (if is_unseen state
              then visit_job deps (suc (length (keys deps))) job [] states
              else (states, acyclic))
    go unseen q =
        visit_job-Visited deps (suc (length (keys deps))) job [] states d closed (omega arith)
          (record {
            chain = unfold ChainTo in tt;
            distinct = tt;
            known = λ a there. absurd (cc);
            job_known = known;
          })
          g
    go visiting q = absurd (cc (sym (ap is_visiting q) ∙ g.on_path job))
    go complete q =
        no_cycle refl g (λ a h. h)
          (λ a same. let p : a ≡ job = (==_iff a job).0 same in rw p (ap is_complete q))

visit_roots-Visited :
    (deps : Dependencies) (jobs : List String) (states : VisitStates)
    → Distinct (keys deps)
    → Closed deps
    → ((a : String) → contains a jobs ≡ true → contains a (keys deps) ≡ true)
    → Good deps [] states
    → Visited deps [] states
        (λ a. contains a jobs)
        (visit_roots deps (suc (length (keys deps))) jobs states)
unfolding visit_roots contains
visit_roots-Visited deps [] states d closed known g =
    no_cycle refl g (λ a h. h) (λ a h. absurd (cc))
visit_roots-Visited deps (job ∷ jobs) states d closed known g =
    one _ (visit_root-Visited deps job states d closed (known job (rw (==_refl job) refl)) g)
      (λ s. visit_roots-Visited deps jobs s d closed (λ a there. known a (ground (arith, there))))
  where
    one :
        (result : VisitStates × Visit)
        → Visited deps [] states (λ a. a == job) result
        → ((s : VisitStates)
            → Good deps [] s
            → Visited deps [] s
                (λ a. contains a jobs)
                (visit_roots deps (suc (length (keys deps))) jobs s))
        → Visited deps [] states
            (λ a. (a == job) || contains a jobs)
            (if is_acyclic result.1
              then visit_roots deps (suc (length (keys deps))) jobs result.0
              else result)
    one result (a_cycle cycle a e r) ih =
        let f : is_acyclic result.1 ≡ false = ap is_acyclic e in rw f (a_cycle cycle a e r)
    one result (no_cycle e g' keep finish) ih =
        let f : is_acyclic result.1 ≡ true = ap is_acyclic e in
        rw f (
          Visited-after deps [] states result.0 job (λ a. contains a jobs) _ keep finish
            (ih result.0 g'))

Good-first : (deps : Dependencies) → Good deps [] []
unfolding Topological state_of lookup contains
Good-first deps = record {
  order = [];
  topological = tt;
  completed = λ a. refl;
  on_path = λ a. refl;
}

demands_known :
    (deps : Dependencies) (a b : String) → demands deps a b ≡ true → contains a (keys deps) ≡ true
unfolding demanded contains
demands_known deps a b h = elim (Bool-cases (contains a (keys deps))) [
  | inl known ↦ known
  | inr absent ↦ absurd (cc (rw (lookup_absent a deps absent) at h))
]

Reaches-known :
    (deps : Dependencies) (a b : String) → Reaches deps a b → contains a (keys deps) ≡ true
Reaches-known deps a b (demand d) = demands_known deps a b d
Reaches-known deps a c (through {b = b} d r) = demands_known deps a b d

-- The two answers of the search, each with what it says of the demands.
pub data Detected (deps : Dependencies) : Type 0 where
  no_circular_dependency :
      detect_circular_job_command_dependencies deps ≡ acyclic
      → ((job : String) → Reaches deps job job → ⊥)
      → Detected deps
  circular_dependency :
      (cycle : List String) (job : String)
      → detect_circular_job_command_dependencies deps ≡ circular cycle
      → Circle deps cycle job
      → Detected deps

pub detect_circular-Detected :
    (deps : Dependencies) → Distinct (keys deps) → Closed deps → Detected deps
unfolding detect_circular_job_command_dependencies
detect_circular-Detected deps d closed =
    answer (visit_roots-Visited deps (keys deps) [] d closed (λ a h. h) (Good-first deps))
  where
    answer :
        Visited deps [] []
          (λ a. contains a (keys deps))
          (visit_roots deps (suc (length (keys deps))) (keys deps) [])
        → Detected deps
    answer (a_cycle cycle a e r) = circular_dependency cycle a e r
    answer (no_cycle e g keep finish) = no_circular_dependency e (λ job r.
        Topological-acyclic deps g.order job g.topological
          (sym (g.completed job) ∙ finish job (Reaches-known deps job job r)) r)
