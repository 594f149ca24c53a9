-- ===== src/Sequence/Visits.antt =====
-- visitJob of build/build_deployment_sequence.go: what a visit leaves of the states.
use maand.Prelude.{
  String, Bool, true, false, ◌||◌, List, [], ◌∷◌, ◌++◌, ◌≡◌, refl, sym, ap, ◌∙◌, arith, ◌==◌,
  ==_iff, ==_refl, comparable_String, if◌then◌else◌, contains, contains-append, Distinct,
  Distinct-snoc, put, lookup-put, keys, Bool-cases, inl, inr,
}
use maand.Sequence.{
  Dependencies, demanded, VisitState, unseen, visiting, complete, VisitStates, state_of, Visit,
  acyclic, circular, is_acyclic, visit_all,
}
use maand.Sequence.Graph.{demands, Circle, Topological, ChainTo, ChainTo-snoc}

abbrev pub is_visiting : VisitState → Bool
is_visiting unseen = false
is_visiting visiting = true
is_visiting complete = false

abbrev pub is_complete : VisitState → Bool
is_complete unseen = false
is_complete visiting = false
is_complete complete = true

-- The jobs that are being visited are those of the path, and the complete ones have an order.
pub record Good (deps : Dependencies) (path : List String) (states : VisitStates) : Type 0 where
  pub order : List String
  pub topological : Topological deps order
  pub completed : (a : String) → is_complete (state_of states a) ≡ contains a order
  pub on_path : (a : String) → is_visiting (state_of states a) ≡ contains a path

-- How a visit from `states` with this path ends, if it is to complete the jobs `todo`.
pub data Visited (deps : Dependencies) (path : List String) (states : VisitStates)
    (todo : String → Bool) (result : VisitStates × Visit) : Type 0 where
  no_cycle :
      result.1 ≡ acyclic
      → Good deps path result.0
      → ((a : String)
          → is_complete (state_of states a) ≡ true
          → is_complete (state_of result.0 a) ≡ true)
      → ((a : String) → todo a ≡ true → is_complete (state_of result.0 a) ≡ true)
      → Visited deps path states todo result
  a_cycle :
      (cycle : List String) (a : String)
      → result.1 ≡ circular cycle
      → Circle deps cycle a
      → Visited deps path states todo result

pub state_of-put :
    (states : VisitStates) (job : String) (state : VisitState) (a : String)
    → state_of (put job state states) a ≡ (if a == job then state else state_of states a)
unfolding state_of
state_of-put states job state a =
    rw lookup-put
      (elim (Bool-cases (a == job)) [ inl same ↦ rw same refl | inr other ↦ rw other refl ])

pub Visited-after :
    (deps : Dependencies) (path : List String) (states between : VisitStates) (job : String)
    (todo : String → Bool) (result : VisitStates × Visit)
    → ((a : String)
        → is_complete (state_of states a) ≡ true
        → is_complete (state_of between a) ≡ true)
    → ((a : String) → (a == job) ≡ true → is_complete (state_of between a) ≡ true)
    → Visited deps path between todo result
    → Visited deps path states (λ a. (a == job) || todo a) result
Visited-after deps path states between job todo result keep finish (no_cycle e g keep' finish') =
    no_cycle e g (λ a h. keep' a (keep a h))
      (λ a h. elim (Bool-cases (a == job)) [
        | inl same ↦ keep' a (finish a same)
        | inr other ↦ finish' a (ground (arith, h, other))
      ])
Visited-after deps path states between job todo result keep finish (a_cycle cycle a e r) =
    a_cycle cycle a e r

pub visit_all-Visited :
    (deps : Dependencies) (path : List String) (visit : String → VisitStates → VisitStates × Visit)
    (jobs : List String) (states : VisitStates)
    → ((job : String) (s : VisitStates)
        → contains job jobs ≡ true
        → Good deps path s
        → Visited deps path s (λ a. a == job) (visit job s))
    → Good deps path states
    → Visited deps path states (λ a. contains a jobs) (visit_all visit jobs states)
unfolding visit_all contains
visit_all-Visited deps path visit [] states step g = no_cycle refl g (λ a h. h) (λ a h. absurd (cc))
visit_all-Visited deps path visit (job ∷ jobs) states step g =
    one (visit job states) (step job states (rw (==_refl job) refl) g) (λ s.
      visit_all-Visited deps path visit jobs s
        (λ name t there. step name t (ground (arith, there))))
  where
    one :
        (result : VisitStates × Visit)
        → Visited deps path states (λ a. a == job) result
        → ((s : VisitStates)
            → Good deps path s
            → Visited deps path s (λ a. contains a jobs) (visit_all visit jobs s))
        → Visited deps path states
            (λ a. (a == job) || contains a jobs)
            (if is_acyclic result.1 then visit_all visit jobs result.0 else result)
    one result (a_cycle cycle a e r) ih =
        let f : is_acyclic result.1 ≡ false = ap is_acyclic e in rw f (a_cycle cycle a e r)
    one result (no_cycle e g' keep finish) ih =
        let f : is_acyclic result.1 ≡ true = ap is_acyclic e in
        rw f (
          Visited-after deps path states result.0 job (λ a. contains a jobs)
            (visit_all visit jobs result.0) keep finish (ih result.0 g'))

pub visiting_only : (v : VisitState) → is_visiting v ≡ true → is_complete v ≡ false
visiting_only unseen h = refl
visiting_only visiting h = refl
visiting_only complete h = absurd (cc)

pub Good-enter :
    (deps : Dependencies) (path : List String) (states : VisitStates) (job : String)
    → state_of states job ≡ unseen
    → Good deps path states
    → Good deps (path ++ job ∷ []) (put job visiting states)
unfolding contains
Good-enter deps path states job u g = record {
  order = g.order;
  topological = g.topological;
  completed = λ a.
      ap is_complete (state_of-put states job visiting a)
      ∙ ground (
        arith,
        g.completed a,
        ==_iff a job,
        u,
        λ (p : a ≡ job). ap (λ (y : String). state_of states y) p,
      );
  on_path = λ a.
      ap is_visiting (state_of-put states job visiting a)
      ∙ ground (arith, g.on_path a, contains-append a path (job ∷ []));
}

-- The job is complete: it is the newest of the order.
pub Good-leave :
    (deps : Dependencies) (path : List String) (states : VisitStates) (job : String)
    → contains job path ≡ false
    → ((a : String)
        → contains a (demanded deps job) ≡ true
        → is_complete (state_of states a) ≡ true)
    → Good deps (path ++ job ∷ []) states
    → Good deps path (put job complete states)
unfolding contains Topological
Good-leave deps path states job fresh below g = record {
  order = job ∷ g.order;
  topological = (
    sym (g.completed job)
        ∙ visiting_only (state_of states job)
            (g.on_path job ∙ contains-append job path (job ∷ []) ∙ ground (arith, ==_refl job)),
    λ name d. sym (g.completed name) ∙ below name d,
    g.topological,
  );
  completed =
      λ a. ap is_complete (state_of-put states job complete a) ∙ ground (arith, g.completed a);
  on_path = λ a.
      ap is_visiting (state_of-put states job complete a)
      ∙ ground (
        arith,
        g.on_path a,
        contains-append a path (job ∷ []),
        fresh,
        ==_iff a job,
        λ (p : a ≡ job). ap (λ (y : String). contains y path) p,
      );
}

-- What visitJob is called with.
pub record Call (deps : Dependencies) (path : List String) (job : String) : Type 0 where
  pub chain : ChainTo deps path job
  pub distinct : Distinct path
  pub known : (a : String) → contains a path ≡ true → contains a (keys deps) ≡ true
  pub job_known : contains job (keys deps) ≡ true

-- The jobs that are demanded are jobs of the map.
unfoldable pub Closed : Dependencies → Type 0
Closed deps = (a b : String) → demands deps a b ≡ true → contains b (keys deps) ≡ true

pub Call-below :
    (deps : Dependencies) (path : List String) (job name : String)
    → Closed deps
    → Call deps path job
    → contains job path ≡ false
    → demands deps job name ≡ true
    → Call deps (path ++ job ∷ []) name
unfolding contains Closed
Call-below deps path job name closed c fresh d = record {
  chain = ChainTo-snoc deps path job name c.chain d;
  distinct = Distinct-snoc job path c.distinct fresh;
  known = λ a there. ground (
    arith,
    contains-append a path (job ∷ []),
    there,
    c.known a,
    c.job_known,
    ==_iff a job,
    λ (p : a ≡ job). ap (λ (y : String). contains y (keys deps)) p,
  );
  job_known = closed job name d;
}
