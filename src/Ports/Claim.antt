-- ===== src/Ports/Claim.antt =====
-- claimPort, releaseAssignedNumber and the search of assignProvisioned (build/build_ports.go).
use maand.Prelude.{
  String, true, false, Option, none, some, List, ◌≡◌, refl, ap, ◌∙◌, arith, ℤ, ==_iff, ==_refl,
  comparable_String, comparable_ℤ, if◌then◌else◌, contains, add, contains-add, put, Bool-cases, inl,
  inr, ok,
}
use maand.Ports.{PortAllocator, job_ports, assigned, is_port, claim_port}
use maand.Ports.Assigned.{
  same_port, same_port_self, same_port-eq, NoCollision, NoCollisionBut, assigned-put,
}

-- What a method that assigns a number to one port has done when it returns no error.
pub record Assigns (job name : String) (port : ℤ) (a a' : PortAllocator) : Type 0 where
  pub no_collision : NoCollision a'
  pub own : assigned a' job name ≡ some port
  pub others : (i n : String) → same_port job name i n ≡ false → assigned a' i n ≡ assigned a i n
  pub same_range : a'.range ≡ a.range

is_port-eq : (p : ℤ) (o : Option ℤ) → is_port p o ≡ true → o ≡ some p
is_port-eq p none h = absurd (cc)
is_port-eq p (some x) h = ap some ((==_iff x p).0 h)

contains-add_self : (p : ℤ) (xs : List ℤ) → contains p (add p xs) ≡ true
contains-add_self p xs = contains-add p p xs ∙ rw (==_refl p) refl

contains-add_old : (p q : ℤ) (xs : List ℤ) → contains q xs ≡ true → contains q (add p xs) ≡ true
contains-add_old p q xs h = contains-add p q xs ∙ ground arith

module _ (job name : String) (port : ℤ) (a : PortAllocator) (h : NoCollisionBut job name a) where
  own_number :
      assigned a job name ≡ some port
      → (i n : String) (p : ℤ) → same_port job name i n ≡ true
      → assigned a i n ≡ some p
      → p ≡ port
  own_number e i n p same f =
      let s = same_port-eq job name i n same in
      let g : assigned a job name ≡ some p = rw (← s.0) (rw (← s.1) f) in cc

  -- The port has its number already: only the set of used numbers grows.
  pub claim_again :
      assigned a job name ≡ some port
      → Assigns job name port a (record a { used_numbers = add port a.used_numbers })
  claim_again e = record {
    no_collision = record {
      recorded = λ i n p f. elim (Bool-cases (same_port job name i n)) [
        | inl same ↦
            let q : p ≡ port = own_number e i n p same (unfold assigned job_ports in f) in
            rw q (contains-add_self port a.used_numbers)
        | inr other ↦
            contains-add_old port p a.used_numbers
              (h.recorded i n p other (unfold assigned job_ports in f))
      ];
      unique = λ i n i' n' p f g.
          h.unique i n i' n' p (unfold assigned job_ports in f) (unfold assigned job_ports in g);
    };
    own = unfold assigned job_ports in e;
    others = λ i n _. unfold assigned job_ports in refl;
    same_range = refl;
  }

  abbrev pub claimed : PortAllocator
  claimed = record a {
    used_numbers = add port a.used_numbers;
    existing = put job (put name port (job_ports a job)) a.existing;
  }

  claimed_at :
      (i n : String)
      → assigned claimed i n ≡ (if same_port job name i n then some port else assigned a i n)
  claimed_at i n = assigned-put a job name port (add port a.used_numbers) i n

  claimed_unique :
      contains port a.used_numbers ≡ false
      → (i n i' n' : String) (p : ℤ) → assigned claimed i n ≡ some p
      → assigned claimed i' n' ≡ some p
      → same_port i n i' n' ≡ true
  claimed_unique free i n i' n' p f g = ground (
    arith,
    claimed_at i n,
    claimed_at i' n',
    h.unique i n i' n' p,
    h.recorded i n p,
    h.recorded i' n' p,
    ==_iff i job,
    ==_iff n name,
    ==_iff i' job,
    ==_iff n' name,
    ==_iff i' i,
    ==_iff n' n,
    λ (q : p ≡ port). ap (λ (x : ℤ). contains x a.used_numbers) q,
  )

  pub claim_new : contains port a.used_numbers ≡ false → Assigns job name port a claimed
  claim_new free = record {
    no_collision = record {
      recorded = λ i n p f. elim (Bool-cases (same_port job name i n)) [
        | inl same ↦
            let q : p ≡ port = ground (arith, claimed_at i n) in
            rw q (contains-add_self port a.used_numbers)
        | inr other ↦
            contains-add_old port p a.used_numbers
              (h.recorded i n p other (ground (arith, claimed_at i n)))
      ];
      unique = claimed_unique free;
    };
    own = claimed_at job name ∙ rw (same_port_self job name) refl;
    others = λ i n other. claimed_at i n ∙ rw other refl;
    same_range = refl;
  }

  pub claim_port-Assigns :
      (claim_port job name port a).1 ≡ ok tt
      → Assigns job name port a (claim_port job name port a).0
  unfolding claim_port
  claim_port-Assigns done = elim (Bool-cases (is_port port (assigned a job name))) [
    | inl same ↦ rw same (claim_again (is_port-eq port (assigned a job name) same))
    | inr other ↦ elim (Bool-cases (contains port a.used_numbers)) [
      | inl taken ↦ absurd (cc (rw (other, taken) at done))
      | inr free ↦ rw (other, free) (claim_new free)
    ]
  ]
