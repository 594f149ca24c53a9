-- ===== src/Ports/Loaded.antt =====
-- GetAllJobPortAssignments (data/ports.go) and newPortAllocator (build/build_ports.go): the allocator
-- that a build begins with.
use maand.Prelude.{
  String, Bool, true, false, ◌&&◌, if◌then◌else◌, lookup-put, Option, none, some, List, [], ◌∷◌,
  ◌≡◌, refl, ap, ◌∙◌, arith, ℤ, ◌==◌, ==_iff, ==_refl, comparable_String, comparable_ℤ, contains,
  add, contains-add, Distinct, Map, lookup, put, keys, Distinct-keys-put, Bool-cases, inl, inr,
}
use maand.Ports.{
  PortAllocator, PortRange, JobPortAssignments, job_ports, ports_or_empty, assigned, use_ports,
  use_all_ports, new_port_allocator,
}
use maand.Ports.Assigned.{NoCollision, NoCollision-but}
use maand.Ports.Claim.{claim_new}
use maand.Ports.Removed.{PortMaps, PortMaps-put}
use maand.Ports.Build.{add_assignment, read_assignments, get_all_job_port_assignments}

use_ports-old :
    (p : ℤ) (ports : Map String ℤ) (used : List ℤ)
    → contains p used ≡ true
    → contains p (use_ports ports used) ≡ true
unfolding use_ports
use_ports-old p [] used h = h
use_ports-old p ((name, port) ∷ ports) used h =
    use_ports-old p ports (add port used) (contains-add port p used ∙ ground (arith, h))

use_ports-new :
    (p : ℤ) (name : String) (ports : Map String ℤ) (used : List ℤ)
    → lookup name ports ≡ some p
    → contains p (use_ports ports used) ≡ true
unfolding use_ports lookup
use_ports-new p name [] used h = absurd (cc)
use_ports-new p name ((n, port) ∷ ports) used h = elim (Bool-cases (name == n)) [
  | inl same ↦
      use_ports-old p ports (add port used)
        (contains-add port p used ∙ ground (arith, rw same at h, ==_iff p port))
  | inr other ↦ use_ports-new p name ports (add port used) (rw other at h)
]

use_all_ports-old :
    (p : ℤ) (existing : JobPortAssignments) (used : List ℤ)
    → contains p used ≡ true
    → contains p (use_all_ports existing used) ≡ true
unfolding use_all_ports
use_all_ports-old p [] used h = h
use_all_ports-old p ((job, ports) ∷ rest) used h =
    use_all_ports-old p rest (use_ports ports used) (use_ports-old p ports used h)

use_all_ports-new :
    (p : ℤ) (job name : String) (existing : JobPortAssignments) (used : List ℤ)
    → lookup name (ports_or_empty (lookup job existing)) ≡ some p
    → contains p (use_all_ports existing used) ≡ true
unfolding use_all_ports lookup
use_all_ports-new p job name [] used h = absurd (cc)
use_all_ports-new p job name ((j, ports) ∷ rest) used h = elim (Bool-cases (job == j)) [
  | inl same ↦
      use_all_ports-old p rest (use_ports ports used)
        (use_ports-new p name ports used (rw same at h))
  | inr other ↦ use_all_ports-new p job name rest (use_ports ports used) (rw other at h)
]

-- The rows of the query.
abbrev pub PortRows : Type 0
PortRows = List (String × String × ℤ)

unfoldable pub numbers : PortRows → List ℤ
numbers [] = []
numbers ((job, name, port) ∷ rows) = port ∷ numbers rows

AllFree : PortRows → List ℤ → Type 0
AllFree rows used = (p : ℤ) → contains p (numbers rows) ≡ true → contains p used ≡ false

abbrev allocator_of : PortRange → JobPortAssignments → List ℤ → PortAllocator
allocator_of r existing used = record { range = r; existing = existing; used_numbers = used }

read_assignments-NoCollision :
    (r : PortRange) (rows : PortRows) (existing : JobPortAssignments) (used : List ℤ)
    → Distinct (numbers rows)
    → AllFree rows used
    → NoCollision (allocator_of r existing used)
    → PortMaps (allocator_of r existing used)
    → (final : List ℤ) × NoCollision (allocator_of r (read_assignments rows existing) final)
      × PortMaps (allocator_of r (read_assignments rows existing) final)
unfolding read_assignments numbers AllFree contains
read_assignments-NoCollision r [] existing used d free h m = (used, h, m)
read_assignments-NoCollision r ((job, name, port) ∷ rows) existing used d free h m =
    let a = allocator_of r existing used in
    let one =
      claim_new job name port a (NoCollision-but job name h) (free port (rw (==_refl port) refl)) in
    read_assignments-NoCollision r rows (add_assignment job name port existing) (add port used) d.1
      (λ p there.
        contains-add port p used
        ∙ ground (
          arith,
          d.0,
          free p,
          ==_iff p port,
          λ (q : p ≡ port). ap (λ (x : ℤ). contains x (numbers rows)) q,
        ))
      (unfold job_ports in one.no_collision)
      (unfold job_ports in
        PortMaps-put a job (put name port (job_ports a job)) (add port used)
          (Distinct-keys-put name port (job_ports a job) (m.distinct job)) m)

nothing-NoCollision : (r : PortRange) → NoCollision (allocator_of r [] [])
nothing-NoCollision r = record {
  recorded = λ i n p f. absurd (none-some p (unfold assigned job_ports lookup in f));
  unique = λ i n i' n' p f g. absurd (none-some p (unfold assigned job_ports lookup in f));
}
  where
    none-some : (p : ℤ) → ◌≡◌ {A = Option ℤ} none (some p) → ⊥
    none-some p e = cc

abbrev pub or_else : Option ℤ → Option ℤ → Option ℤ
or_else none other = other
or_else (some p) other = some p

-- The number in the last row of a port.
unfoldable pub last_number : String → String → PortRows → Option ℤ
last_number job name [] = none
last_number job name ((j, n, port) ∷ rows) =
    or_else (last_number job name rows) (if job == j && name == n then some port else none)

abbrev number_of : JobPortAssignments → String → String → Option ℤ
number_of existing job name = lookup name (ports_or_empty (lookup job existing))

number_of-add_assignment :
    (job name j n : String) (port : ℤ) (existing : JobPortAssignments)
    → number_of (add_assignment j n port existing) job name
      ≡ (if job == j && name == n then some port else number_of existing job name)
number_of-add_assignment job name j n port existing =
    let ports = put n port (ports_or_empty (lookup j existing)) in
    ap (λ o. lookup name (ports_or_empty o)) (lookup-put j job ports existing)
    ∙ elim (Bool-cases (job == j)) [
      | inr other ↦ rw other refl
      | inl same ↦
          let p : job ≡ j = (==_iff job j).0 same in
          let q : lookup name ports
              ≡ (if name == n then some port else number_of existing job name) =
            lookup-put n name port (ports_or_empty (lookup j existing)) ∙ rw p refl in
          rw same q
    ]

or_else-later :
    (o : Option ℤ) (b : Bool) (p : ℤ) (old : Option ℤ)
    → or_else o (if b then some p else old) ≡ or_else (or_else o (if b then some p else none)) old
or_else-later (some q) b p old = refl
or_else-later none true p old = refl
or_else-later none false p old = refl

or_else-none : (o : Option ℤ) → or_else o none ≡ o
or_else-none none = refl
or_else-none (some p) = refl

number_of-read_assignments :
    (job name : String) (rows : PortRows) (existing : JobPortAssignments)
    → number_of (read_assignments rows existing) job name
      ≡ or_else (last_number job name rows) (number_of existing job name)
unfolding read_assignments last_number
number_of-read_assignments job name [] existing = refl
number_of-read_assignments job name ((j, n, port) ∷ rows) existing =
    number_of-read_assignments job name rows (add_assignment j n port existing)
    ∙ ap (or_else (last_number job name rows)) (number_of-add_assignment job name j n port existing)
    ∙ or_else-later (last_number job name rows) (job == j && name == n) port
        (number_of existing job name)

-- Where no two rows of the table have the same number: in the allocator that a build begins with,
-- each port has the number of its last row in the table, and a port without a row has none; that
-- number is in use, no two ports have the same one, and the ports of each job are a Go map.
pub new_port_allocator-NoCollision :
    (rows : PortRows) (r : PortRange)
    → Distinct (numbers rows)
    → let a = new_port_allocator (get_all_job_port_assignments rows) r in
      ((job name : String) → assigned a job name ≡ last_number job name rows)
      × NoCollision a
      × PortMaps a
unfolding new_port_allocator get_all_job_port_assignments AllFree contains
new_port_allocator-NoCollision rows r d =
    let t =
      read_assignments-NoCollision r rows [] [] d (λ p _. refl) (nothing-NoCollision r)
        (record { distinct = λ job. unfold job_ports lookup keys in tt }) in
    (
      λ job name.
          unfold assigned job_ports in
          (number_of-read_assignments job name rows []
            ∙ unfold lookup in or_else-none (last_number job name rows)),
      record {
        recorded = λ i n p f.
            use_all_ports-new p i n (read_assignments rows []) [] (unfold assigned job_ports in f);
        unique = λ i n i' n' p f g.
            t.1.unique i n i' n' p (unfold assigned job_ports in f)
              (unfold assigned job_ports in g);
      },
      record { distinct = λ job. unfold job_ports in t.2.distinct job },
    )
