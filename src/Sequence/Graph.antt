-- ===== src/Sequence/Graph.antt =====
-- The demands of build/build_deployment_sequence.go as a graph: chains of demands, and orders in which
-- each job stands after the jobs that it demands.
use maand.Prelude.{
  ◌≤◌, String, Bool, true, false, List, [], ◌∷◌, ◌++◌, ◌≡◌, refl, sym, ap, ◌∙◌, arith, ◌==◌, ==_iff,
  ==_refl, comparable_String, contains, remove, Distinct, contains-remove, length-remove,
  Distinct-remove, length, Bool-cases, inl, inr,
}
use maand.Sequence.{Dependencies, demanded, path_from}

abbrev pub demands : Dependencies → String → String → Bool
demands deps a b = contains b (demanded deps a)

-- A job reaches the jobs that it demands, and those that these reach.
pub data Reaches (deps : Dependencies) : String → String → Type 0 where
  demand : {a b : String} → demands deps a b ≡ true → Reaches deps a b
  through : {a b c : String} → demands deps a b ≡ true → Reaches deps b c → Reaches deps a c

-- Newest first: each job stands before the jobs that it demands.
unfoldable pub Topological : Dependencies → List String → Type 0
Topological deps [] = Unit
Topological deps (job ∷ order) =
    (contains job order ≡ false)
    × ((name : String) → demands deps job name ≡ true → contains name order ≡ true)
    × Topological deps order

stays :
    (deps : Dependencies) (order : List String) (a b : String)
    → Topological deps order
    → contains a order ≡ true
    → demands deps a b ≡ true
    → contains b order ≡ true
unfolding Topological contains
stays deps [] a b t here d = absurd (cc)
stays deps (x ∷ order) a b t here d = elim (Bool-cases (a == x)) [
  | inl same ↦
      let e : a ≡ x = (==_iff a x).0 same in let g = t.1 b (rw (← e) d) in ground (arith, g)
  | inr other ↦
      let g = stays deps order a b t.2 (ground (arith, here, other)) d in ground (arith, g)
]

Reaches-stays :
    (deps : Dependencies) (order : List String) (a b : String)
    → Topological deps order
    → contains a order ≡ true
    → Reaches deps a b
    → contains b order ≡ true
Reaches-stays deps order a b t here (demand d) = stays deps order a b t here d
Reaches-stays deps order a c t here (through {b = b} d r) =
    Reaches-stays deps order b c t (stays deps order a b t here d) r

-- A job of such an order does not reach itself.
pub Topological-acyclic :
    (deps : Dependencies) (order : List String) (a : String)
    → Topological deps order
    → contains a order ≡ true
    → Reaches deps a a
    → ⊥
unfolding Topological contains
Topological-acyclic deps [] a t here r = absurd (cc)
Topological-acyclic deps (x ∷ order) a t here r = elim (Bool-cases (a == x)) [
  | inl same ↦ let e : a ≡ x = (==_iff a x).0 same in below (rw e at r)
  | inr other ↦ Topological-acyclic deps order a t.2 (ground (arith, here, other)) r
]
  where
    below : Reaches deps x x → ⊥
    below (demand d) = absurd (cc (sym (t.1 x d) ∙ t.0))
    below (through {b = b} d r) =
        absurd (cc (sym (Reaches-stays deps order b x t.2 (t.1 b d) r) ∙ t.0))

-- Each job of the path demands the next one, and the last one demands the job.
unfoldable pub ChainTo : Dependencies → List String → String → Type 0
ChainTo deps [] job = Unit
ChainTo deps (a ∷ []) job = demands deps a job ≡ true
ChainTo deps (a ∷ b ∷ path) job = (demands deps a b ≡ true) × ChainTo deps (b ∷ path) job

pub ChainTo-snoc :
    (deps : Dependencies) (path : List String) (job name : String)
    → ChainTo deps path job
    → demands deps job name ≡ true
    → ChainTo deps (path ++ job ∷ []) name
unfolding ChainTo
ChainTo-snoc deps [] job name c d = d
ChainTo-snoc deps (a ∷ []) job name c d = (c, d)
ChainTo-snoc deps (a ∷ b ∷ path) job name c d = (c.0, ChainTo-snoc deps (b ∷ path) job name c.1 d)

abbrev pub starts_with_job : String → List String → Bool
starts_with_job job [] = false
starts_with_job job (a ∷ path) = a == job

-- The jobs of a circular dependency: each demands the next one, and the last is the first.
pub record Circle (deps : Dependencies) (cycle : List String) (job : String) : Type 0 where
  pub path : List String
  pub closed : cycle ≡ (path ++ job ∷ [])
  pub starts : starts_with_job job path ≡ true
  pub chain : ChainTo deps path job

path_from-starts :
    (job : String) (path : List String)
    → contains job path ≡ true
    → starts_with_job job (path_from job path) ≡ true
unfolding path_from contains
path_from-starts job [] here = absurd (cc)
path_from-starts job (a ∷ path) here = elim (Bool-cases (a == job)) [
  | inl same ↦ rw same same
  | inr other ↦
      rw other (path_from-starts job path (ground (arith, here, other, ==_iff job a, ==_iff a job)))
]

path_from-ChainTo :
    (deps : Dependencies) (job : String) (path : List String)
    → ChainTo deps path job
    → ChainTo deps (path_from job path) job
unfolding path_from ChainTo
path_from-ChainTo deps job [] c = tt
path_from-ChainTo deps job (a ∷ []) c = elim (Bool-cases (a == job)) [
  | inl same ↦ rw same c
  | inr other ↦ rw other tt
]
path_from-ChainTo deps job (a ∷ b ∷ path) c = elim (Bool-cases (a == job)) [
  | inl same ↦ rw same c
  | inr other ↦ rw other (path_from-ChainTo deps job (b ∷ path) c.1)
]

pub path_from-Circle :
    (deps : Dependencies) (job : String) (path : List String)
    → ChainTo deps path job
    → contains job path ≡ true
    → Circle deps (path_from job path ++ job ∷ []) job
path_from-Circle deps job path c here = record {
  path = path_from job path;
  closed = refl;
  starts = path_from-starts job path here;
  chain = path_from-ChainTo deps job path c;
}

-- The pigeonhole principle.
pub length_of_part :
    (xs ys : List String)
    → Distinct xs
    → Distinct ys
    → ((a : String) → contains a xs ≡ true → contains a ys ≡ true)
    → length xs ≤ length ys
unfolding contains
length_of_part [] ys d e h = omega arith
length_of_part (x ∷ xs) ys d e h =
    let here : contains x ys ≡ true = h x (rw (==_refl x) refl) in
    let ih = length_of_part xs (remove x ys) d.1 (Distinct-remove x ys e) (λ a there.
      contains-remove x a ys
      ∙ ground (
        arith,
        there,
        d.0,
        h a,
        ==_iff a x,
        λ (p : a ≡ x). ap (λ (y : String). contains y xs) p,
      )) in
    ground (arith, ih, length-remove x ys e, here)
