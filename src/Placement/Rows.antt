-- ===== src/Placement/Rows.antt =====
-- What each statement of build/build_allocations.go does to the row of each worker and job.
use maand.Prelude.{
  String, Bool, true, false, ◌&&◌, ◌||◌, Option, none, some, List, [], ◌∷◌, ◌≡◌, refl, ap, ◌∙◌,
  arith, ◌==◌, ==_iff, comparable_String, comparable_pair, if◌then◌else◌, contains, Map, lookup,
  Bool-cases, inl, inr,
}
use maand.Utils.{none_of}
use maand.Placement.{
  AllocationRow, AllocationTable, update_where, mark_removed, mark_disabled, remove_jobs,
  disable_workers, disable_on, disable_job, disable_jobs,
}

-- A change of a row, where there is one and the test holds.
abbrev pub changed_if :
    Bool → (AllocationRow → AllocationRow) → Option AllocationRow → Option AllocationRow
changed_if b change none = none
changed_if b change (some row) = some (if b then change row else row)

pub lookup-update_where :
    (p : String → String → Bool) (change : AllocationRow → AllocationRow) (i j : String)
    (t : AllocationTable)
    → lookup (i, j) (update_where p change t) ≡ changed_if (p i j) change (lookup (i, j) t)
unfolding lookup update_where
lookup-update_where p change i j [] = refl
lookup-update_where p change i j (((ip, job), row) ∷ t) = elim (Bool-cases (i == ip && j == job)) [
  | inl here ↦
      let e : i ≡ ip = ground (arith, here, ==_iff i ip) in
      let f : j ≡ job = ground (arith, here, ==_iff j job) in rw here (rw (e, f) refl)
  | inr other ↦ rw other (lookup-update_where p change i j t)
]

-- Two changes of one kind are one.
pub remove_twice :
    (a b : Bool) (o : Option AllocationRow)
    → changed_if a mark_removed (changed_if b mark_removed o) ≡ changed_if (b || a) mark_removed o
remove_twice a b none = refl
remove_twice a b (some row) = ground arith

pub disable_twice :
    (a b : Bool) (o : Option AllocationRow)
    → changed_if a mark_disabled (changed_if b mark_disabled o)
      ≡ changed_if (b || a) mark_disabled o
disable_twice a b none = refl
disable_twice a b (some row) = ground arith

pub unchanged :
    (b : Bool) (change : AllocationRow → AllocationRow) (o : Option AllocationRow)
    → b ≡ false
    → o ≡ changed_if b change o
unchanged b change none h = refl
unchanged b change (some row) h = rw h refl

-- An update of one key, and then others of the same kind.
one_more :
    (a b c : Bool) (o : Option AllocationRow)
    → changed_if (b && c) mark_removed (changed_if (a && b) mark_removed o)
      ≡ changed_if (b && (a || c)) mark_removed o
one_more a b c none = refl
one_more a b c (some row) = ground arith

pub lookup-remove_jobs :
    (ip : String) (names : List String) (i j : String) (t : AllocationTable)
    → lookup (i, j) (remove_jobs ip names t)
      ≡ changed_if (i == ip && contains j names) mark_removed (lookup (i, j) t)
unfolding remove_jobs contains
lookup-remove_jobs ip [] i j t = unchanged (i == ip && false) mark_removed _ (ground arith)
lookup-remove_jobs ip (name ∷ names) i j t =
    let p : String → String → Bool = λ i j. j == name && i == ip in
    lookup-remove_jobs ip names i j (update_where p mark_removed t)
    ∙ ap (changed_if (i == ip && contains j names) mark_removed)
        (lookup-update_where p mark_removed i j t)
    ∙ one_more (j == name) (i == ip) (contains j names) (lookup (i, j) t)

lookup-disable_workers :
    (ips : List String) (i j : String) (t : AllocationTable)
    → lookup (i, j) (disable_workers ips t)
      ≡ changed_if (contains i ips) mark_disabled (lookup (i, j) t)
unfolding disable_workers contains
lookup-disable_workers [] i j t = unchanged false mark_disabled _ refl
lookup-disable_workers (ip ∷ ips) i j t =
    let p : String → String → Bool = λ i j. i == ip in
    lookup-disable_workers ips i j (update_where p mark_disabled t)
    ∙ ap (changed_if (contains i ips) mark_disabled) (lookup-update_where p mark_disabled i j t)
    ∙ disable_twice (contains i ips) (i == ip) (lookup (i, j) t)

one_more_disabled :
    (a b c : Bool) (o : Option AllocationRow)
    → changed_if (a && c) mark_disabled (changed_if (a && b) mark_disabled o)
      ≡ changed_if (a && (b || c)) mark_disabled o
one_more_disabled a b c none = refl
one_more_disabled a b c (some row) = ground arith

lookup-disable_on :
    (name : String) (ips : List String) (i j : String) (t : AllocationTable)
    → lookup (i, j) (disable_on name ips t)
      ≡ changed_if (j == name && contains i ips) mark_disabled (lookup (i, j) t)
unfolding disable_on contains
lookup-disable_on name [] i j t = unchanged (j == name && false) mark_disabled _ (ground arith)
lookup-disable_on name (ip ∷ ips) i j t =
    let p : String → String → Bool = λ i j. j == name && i == ip in
    lookup-disable_on name ips i j (update_where p mark_disabled t)
    ∙ ap (changed_if (j == name && contains i ips) mark_disabled)
        (lookup-update_where p mark_disabled i j t)
    ∙ one_more_disabled (j == name) (i == ip) (contains i ips) (lookup (i, j) t)

-- Whether the configuration disables a job on a worker.
unfoldable pub disables : Map String (List String) → String → String → Bool
disables [] i j = false
disables ((name, ips) ∷ jobs) i j =
    (j == name && (none_of ips || contains i ips)) || disables jobs i j

lookup-disable_job :
    (name : String) (ips : List String) (i j : String) (t : AllocationTable)
    → lookup (i, j) (disable_job name ips t)
      ≡ changed_if (j == name && (none_of ips || contains i ips)) mark_disabled (lookup (i, j) t)
lookup-disable_job name [] i j t =
    lookup-update_where (λ i j. j == name) mark_disabled i j t
    ∙ ap (λ b. changed_if b mark_disabled (lookup (i, j) t)) (alone (j == name))
  where
    alone : (b : Bool) → b ≡ (b && true)
    alone b = ground arith
lookup-disable_job name (ip ∷ ips) i j t = lookup-disable_on name (ip ∷ ips) i j t

lookup-disable_jobs :
    (jobs : Map String (List String)) (i j : String) (t : AllocationTable)
    → lookup (i, j) (disable_jobs jobs t)
      ≡ changed_if (disables jobs i j) mark_disabled (lookup (i, j) t)
unfolding disable_jobs disables
lookup-disable_jobs [] i j t = unchanged false mark_disabled _ refl
lookup-disable_jobs ((name, ips) ∷ jobs) i j t =
    lookup-disable_jobs jobs i j (disable_job name ips t)
    ∙ ap (changed_if (disables jobs i j) mark_disabled) (lookup-disable_job name ips i j t)
    ∙ disable_twice (disables jobs i j) (j == name && (none_of ips || contains i ips))
        (lookup (i, j) t)

-- The statements of the configuration, together.
pub lookup-disabled :
    (workers : List String) (jobs : Map String (List String)) (i j : String) (t : AllocationTable)
    → lookup (i, j) (disable_jobs jobs (disable_workers workers t))
      ≡ changed_if (contains i workers || disables jobs i j) mark_disabled (lookup (i, j) t)
lookup-disabled workers jobs i j t =
    lookup-disable_jobs jobs i j (disable_workers workers t)
    ∙ ap (changed_if (disables jobs i j) mark_disabled) (lookup-disable_workers workers i j t)
    ∙ disable_twice (disables jobs i j) (contains i workers) (lookup (i, j) t)
