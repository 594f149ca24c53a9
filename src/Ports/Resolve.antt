-- ===== src/Ports/Resolve.antt =====
-- assignProvisioned, assignFixed and resolve of build/build_ports.go.
use maand.Prelude.{
  ℕ, zero, suc, ◌+◌, ◌-◌, ◌≤◌, ◌<◌, String, true, false, Option, none, some, List, ◌≡◌, refl, ◌∙◌,
  arith, ℤ, pos, ◌==◌, comparable_String, comparable_ℤ, contains, remove, dec_lt, Bool-cases, inl,
  inr, Result, ok, err,
}
use maand.Ports.{
  PortRange, PortAllocator, PortError, in_range, job_ports, assigned, is_port, claim_port,
  release_number, release_assigned_number, port_result, find_free, search_pool, provision_from,
  assign_provisioned, release_other, assign_fixed, ManifestPortBinding, resolve, valid_port_key,
}
use maand.Ports.Assigned.{NoCollision, NoCollisionBut, NoCollision-but, release_number-NoCollision}
use maand.Ports.Claim.{Assigns, claim_port-Assigns, claim_again}

port_result-ok :
    (p q : ℤ) (r : PortAllocator × Result PortError (Unit {0}))
    → (port_result p r).1 ≡ ok q
    → (r.1 ≡ ok tt) × (q ≡ p) × ((port_result p r).0 ≡ r.0)
port_result-ok p q (a, err e) h = absurd (cc)
port_result-ok p q (a, ok tt) h = (refl, ground arith, refl)

-- A number that is not in use is never refused.
claim_port-free :
    (job name : String) (p : ℤ) (a : PortAllocator)
    → contains p a.used_numbers ≡ false
    → (claim_port job name p a).1 ≡ ok tt
unfolding claim_port
claim_port-free job name p a free = elim (Bool-cases (is_port p (assigned a job name))) [
  | inl same ↦ rw same refl
  | inr other ↦ rw (other, free) refl
]

find_free-Assigns :
    (left from : ℕ) (job name : String) (a : PortAllocator) (p : ℤ)
    → NoCollisionBut job name a
    → (find_free left from job name a).1 ≡ ok p
    → Assigns job name p a (find_free left from job name a).0
      × ((q : ℕ) × (p ≡ pos q) × (from ≤ q) × (q < from + left))
unfolding find_free
find_free-Assigns zero from job name a p h done = absurd (cc)
find_free-Assigns (suc left) from job name a p h done =
    elim (Bool-cases (contains (pos from) a.used_numbers)) [
      | inl taken ↦
          let ih =
            find_free-Assigns left (from + 1) job name a p h (rw (taken, find_free) at done) in
          rw (taken, find_free)
            (ih.0, (ih.1.0, ih.1.1, omega (arith, ih.1.2), omega (arith, ih.1.3)))
      | inr free ↦
          let t =
            port_result-ok (pos from) p (claim_port job name (pos from) a)
              (rw (free, find_free) at done) in
          rw (free, find_free)
            (rw t.2 (
              rw t.1 (
                claim_port-Assigns job name (pos from) a h t.0,
                (from, refl, omega arith, omega arith),
              )))
    ]

port_result-not_err :
    (p : ℤ) (x : PortError) (r : PortAllocator × Result PortError (Unit {0}))
    → r.1 ≡ ok tt
    → (port_result p r).1 ≡ err x
    → ⊥
port_result-not_err p x (a, err e) h f = cc
port_result-not_err p x (a, ok tt) h f = cc

pub find_free_exhausted :
    (left from : ℕ) (job name : String) (a : PortAllocator) (x : PortError)
    → (find_free left from job name a).1 ≡ err x
    → ((find_free left from job name a).0 ≡ a)
      × ((q : ℕ) → from ≤ q → q < from + left → contains (pos q) a.used_numbers ≡ true)
unfolding find_free
find_free_exhausted zero from job name a x failed = (refl, λ q lo hi. absurd (omega arith))
find_free_exhausted (suc left) from job name a x failed =
    elim (Bool-cases (contains (pos from) a.used_numbers)) [
      | inl taken ↦
          let ih =
            find_free_exhausted left (from + 1) job name a x (rw (taken, find_free) at failed) in
          (
            rw (taken, find_free) ih.0,
            λ q lo hi. elim (dec_lt from q) [
              | yes above ↦ ih.1 q (omega arith) (omega arith)
              | no there ↦ let e : q ≡ from = omega arith in rw e taken
            ],
          )
      | inr free ↦ absurd (
          port_result-not_err (pos from) x (claim_port job name (pos from) a)
            (claim_port-free job name (pos from) a free) (rw (free, find_free) at failed))
    ]

release-others :
    (job name : String) (p : ℤ) (a b b' : PortAllocator)
    → ((i n : String) → assigned b i n ≡ assigned a i n)
    → b.range ≡ a.range
    → Assigns job name p b b'
    → Assigns job name p a b'
release-others job name p a b b' same same_range h = record {
  no_collision = h.no_collision;
  own = h.own;
  others = λ i n o. h.others i n o ∙ same i n;
  same_range = h.same_range ∙ same_range;
}

used-assigned :
    (a : PortAllocator) (used : List ℤ) (i n : String)
    → assigned (record a { used_numbers = used }) i n ≡ assigned a i n
unfolding assigned job_ports
used-assigned a used i n = refl

in_range-pos :
    (r : PortRange) (q : ℕ)
    → r.min ≤ q
    → q < r.min + (r.max + 1 - r.min)
    → in_range r (pos q) ≡ true
in_range-pos r q lo hi = ground arith

search_pool-Assigns :
    (job name : String) (a : PortAllocator) (p : ℤ)
    → NoCollisionBut job name a
    → (search_pool job name a).1 ≡ ok p
    → Assigns job name p a (search_pool job name a).0 × (in_range a.range p ≡ true)
unfolding search_pool
search_pool-Assigns job name a p h done =
    let t = find_free-Assigns (a.range.max + 1 - a.range.min) a.range.min job name a p h done in
    (t.0, rw t.1.1 (in_range-pos a.range t.1.0 t.1.2 t.1.3))

provision_from-Assigns :
    (job name : String) (a : PortAllocator) (o : Option ℤ) (p : ℤ)
    → NoCollision a
    → assigned a job name ≡ o
    → (provision_from job name a o).1 ≡ ok p
    → Assigns job name p a (provision_from job name a o).0 × (in_range a.range p ≡ true)
unfolding provision_from
provision_from-Assigns job name a none p h e done =
    search_pool-Assigns job name a p (NoCollision-but job name h) done
provision_from-Assigns job name a (some prev) p h e done =
    elim (Bool-cases (in_range a.range prev)) [
      | inl inside ↦
          let q : p ≡ prev = reuse (rw inside at done) in
          rw inside (rw q (claim_again job name prev a (NoCollision-but job name h) e, inside))
      | inr outside ↦
          let b : PortAllocator = record a { used_numbers = remove prev a.used_numbers } in
          let r : release_assigned_number job name a ≡ b =
            unfold release_assigned_number in rw (e, release_number) refl in
          rw outside (
            rw r (
              let t =
                search_pool-Assigns job name b p (release_number-NoCollision job name prev a e h)
                  (rw r at (rw outside at done)) in
              (
                release-others job name p a b _ (used-assigned a (remove prev a.used_numbers)) refl
                    t.0,
                t.1,
              )))
    ]
  where
    reuse : ◌≡◌ {A = Result PortError ℤ} (ok prev) (ok p) → p ≡ prev
    reuse x = ground arith

release_other-NoCollision :
    (job name : String) (port : ℤ) (a : PortAllocator) (o : Option ℤ)
    → NoCollision a
    → assigned a job name ≡ o
    → NoCollisionBut job name (release_other port o a)
      × ((i n : String) → assigned (release_other port o a) i n ≡ assigned a i n)
      × ((release_other port o a).range ≡ a.range)
release_other-NoCollision job name port a none h e = (NoCollision-but job name h, λ i n. refl, refl)
release_other-NoCollision job name port a (some prev) h e = elim (Bool-cases (prev == port)) [
  | inl same ↦ rw (same, release_other) (NoCollision-but job name h, λ i n. refl, refl)
  | inr other ↦
      rw (other, release_other)
        (
          release_number-NoCollision job name prev a e h,
          used-assigned a (remove prev a.used_numbers),
          refl,
        )
]

-- The number that a manifest's binding asks for: the fixed one, or one of the pool.
abbrev pub Fits : ManifestPortBinding → PortRange → ℤ → Type 0
Fits none range p = in_range range p ≡ true
Fits (some fixed) range p = p ≡ fixed

-- From a state without collisions, a port that resolve returns is the manifest's fixed number or
-- lies in the pool, it is recorded as the number of that port, no other port's number changes, and
-- there is still no collision.
pub resolve-Assigns :
    (job name : String) (binding : ManifestPortBinding) (a : PortAllocator) (p : ℤ)
    → NoCollision a
    → (resolve job name binding a).1 ≡ ok p
    → Assigns job name p a (resolve job name binding a).0 × Fits binding a.range p
unfolding resolve assign_provisioned assign_fixed
resolve-Assigns job name none a p h done = elim (Bool-cases (valid_port_key name)) [
  | inr bad ↦ absurd (cc (rw bad at done))
  | inl good ↦
      rw good (provision_from-Assigns job name a (assigned a job name) p h refl (rw good at done))
]
resolve-Assigns job name (some fixed) a p h done = elim (Bool-cases (valid_port_key name)) [
  | inr bad ↦ absurd (cc (rw bad at done))
  | inl good ↦
      let r = release_other-NoCollision job name fixed a (assigned a job name) h refl in
      let b = release_other fixed (assigned a job name) a in
      let t = port_result-ok fixed p (claim_port job name fixed b) (rw good at done) in
      rw good (
        rw t.2 (
          rw t.1 (
            release-others job name fixed a b _ r.1 r.2
                (claim_port-Assigns job name fixed b r.0 t.0),
            refl,
          )))
]
