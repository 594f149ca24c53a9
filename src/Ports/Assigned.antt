-- ===== src/Ports/Assigned.antt =====
-- The numbers that an allocator of build/build_ports.go has assigned, and its invariant.
use mathlib.Core.Path.{subst}
use maand.Prelude.{
  String, Bool, true, false, ◌&&◌, none, some, List, ◌≡◌, refl, ◌∙◌, arith, ℤ, ◌==◌, ==_iff,
  ==_refl, comparable_String, comparable_ℤ, if◌then◌else◌, contains, remove, contains-remove, put,
  delete, lookup-put, lookup-delete, Bool-cases, inl, inr,
}
use maand.Ports.{PortAllocator, job_ports, assigned}

abbrev pub same_port : String → String → String → String → Bool
same_port job name i n = i == job && n == name

-- Every assigned number is in use, and no two port names have the same number.
pub record NoCollision (a : PortAllocator) : Type 0 where
  pub recorded : (i n : String) (p : ℤ) → assigned a i n ≡ some p → contains p a.used_numbers ≡ true
  pub unique :
      (i n i' n' : String) (p : ℤ)
      → assigned a i n ≡ some p
      → assigned a i' n' ≡ some p
      → same_port i n i' n' ≡ true

-- The same, but for the number of one port, which may have been released already.
pub record NoCollisionBut (job name : String) (a : PortAllocator) : Type 0 where
  pub recorded :
      (i n : String) (p : ℤ)
      → same_port job name i n ≡ false
      → assigned a i n ≡ some p
      → contains p a.used_numbers ≡ true
  pub unique :
      (i n i' n' : String) (p : ℤ)
      → assigned a i n ≡ some p
      → assigned a i' n' ≡ some p
      → same_port i n i' n' ≡ true

pub same_port_self : (job name : String) → same_port job name job name ≡ true
same_port_self job name = rw (==_refl job) (==_refl name)

pub same_port-sym :
    (job name i n : String) → same_port job name i n ≡ true → same_port i n job name ≡ true
same_port-sym job name i n h =
    ground (arith, ==_iff i job, ==_iff n name, ==_iff job i, ==_iff name n)

pub same_port-eq : (job name i n : String) → same_port job name i n ≡ true → (i ≡ job) × (n ≡ name)
same_port-eq job name i n h = ground (arith, ==_iff i job, ==_iff n name)

pub assigned-put :
    (a : PortAllocator) (job name : String) (port : ℤ) (used : List ℤ) (i n : String)
    → assigned
        (record a {
          used_numbers = used;
          existing = put job (put name port (job_ports a job)) a.existing;
        })
        i
        n
      ≡ (if same_port job name i n then some port else assigned a i n)
unfolding assigned job_ports
assigned-put a job name port used i n = elim (Bool-cases (i == job)) [
  | inl same ↦ rw lookup-put (rw same (rw lookup-put (rw ((==_iff i job).0 same) refl)))
  | inr other ↦ rw lookup-put (rw other refl)
]

pub assigned-delete :
    (a : PortAllocator) (job name : String) (used : List ℤ) (i n : String)
    → assigned
        (record a {
          used_numbers = used;
          existing = put job (delete name (job_ports a job)) a.existing;
        })
        i
        n
      ≡ (if same_port job name i n then none else assigned a i n)
unfolding assigned job_ports
assigned-delete a job name used i n = elim (Bool-cases (i == job)) [
  | inl same ↦ rw lookup-put (rw same (rw lookup-delete (rw ((==_iff i job).0 same) refl)))
  | inr other ↦ rw lookup-put (rw other refl)
]

pub NoCollision-but :
    (job name : String) {a : PortAllocator} → NoCollision a → NoCollisionBut job name a
NoCollision-but job name h = record {
  recorded = λ i n p _ e. h.recorded i n p e;
  unique = h.unique;
}

-- To release the number of a port touches the number of no other port.
pub release_number-NoCollision :
    (job name : String) (prev : ℤ) (a : PortAllocator)
    → assigned a job name ≡ some prev
    → NoCollision a
    → NoCollisionBut job name (record a { used_numbers = remove prev a.used_numbers })
release_number-NoCollision job name prev a own h = record {
  recorded = λ i n p other e.
      contains-remove prev p a.used_numbers
      ∙ ground (
        arith,
        h.recorded i n p (unfold assigned job_ports in e),
        ==_iff p prev,
        λ (q : p ≡ prev).
            h.unique job name i n prev own
              (subst (λ (x : ℤ). assigned a i n ≡ some x) q (unfold assigned job_ports in e)),
      );
  unique = λ i n i' n' p e f.
      h.unique i n i' n' p (unfold assigned job_ports in e) (unfold assigned job_ports in f);
}
