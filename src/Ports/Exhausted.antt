-- ===== src/Ports/Exhausted.antt =====
-- When assignProvisioned of build/build_ports.go runs out of ports, and when it keeps a number.
use maand.Prelude.{
  ℕ, ◌+◌, ◌-◌, ◌≤◌, ◌<◌, String, true, Option, none, some, ◌≡◌, refl, arith, ℤ, pos, comparable_ℤ,
  comparable_String, contains, Bool-cases, inl, inr, ok, err,
}
use maand.Ports.{
  PortRange, PortAllocator, PortError, in_range, assigned, search_pool, release_assigned_number,
  provision_from, assign_provisioned, resolve, valid_port_key,
}
use maand.Ports.Assigned.{NoCollision}
use maand.Ports.Resolve.{find_free_exhausted, resolve-Assigns}

abbrev PoolInUse : PortAllocator → PortAllocator → Type 0
PoolInUse a b = (q : ℕ) → in_range a.range (pos q) ≡ true → contains (pos q) b.used_numbers ≡ true

range_bounds :
    (r : PortRange) (q : ℕ)
    → in_range r (pos q) ≡ true
    → (r.min ≤ q) × (q < r.min + (r.max + 1 - r.min))
range_bounds r q h = ground arith

search_pool_exhausted :
    (job name : String) (a b : PortAllocator) (x : PortError)
    → b.range ≡ a.range
    → (search_pool job name b).1 ≡ err x
    → PoolInUse a (search_pool job name b).0
unfolding search_pool
search_pool_exhausted job name a b x same failed q inside =
    let t = find_free_exhausted (b.range.max + 1 - b.range.min) b.range.min job name b x failed in
    let r = range_bounds b.range q (rw same inside) in rw t.0 (t.1 q r.0 r.1)

release-range :
    (job name : String) (a : PortAllocator) → (release_assigned_number job name a).range ≡ a.range
unfolding release_assigned_number
release-range job name a = ground arith

provision_from_exhausted :
    (job name : String) (a : PortAllocator) (o : Option ℤ) (x : PortError)
    → (provision_from job name a o).1 ≡ err x
    → PoolInUse a (provision_from job name a o).0
unfolding provision_from
provision_from_exhausted job name a none x failed = search_pool_exhausted job name a a x refl failed
provision_from_exhausted job name a (some prev) x failed =
    elim (Bool-cases (in_range a.range prev)) [
      | inl inside ↦ absurd (cc (rw inside at failed))
      | inr outside ↦ rw outside (
          search_pool_exhausted job name a (release_assigned_number job name a) x
            (release-range job name a) (rw outside at failed))
    ]

-- Where a port of a well-formed name is to come from the pool and resolve returns an error, a number
-- of the pool is in use, whichever it is.
pub provisioned_exhausted :
    (job name : String) (a : PortAllocator) (x : PortError)
    → valid_port_key name ≡ true
    → (resolve job name none a).1 ≡ err x
    → (q : ℕ) → in_range a.range (pos q) ≡ true
    → contains (pos q) (resolve job name none a).0.used_numbers ≡ true
unfolding resolve assign_provisioned
provisioned_exhausted job name a x good failed q inside =
    rw good
      (provision_from_exhausted job name a (assigned a job name) x (rw good at failed) q inside)

keeps_number :
    (job name : String) (a : PortAllocator) (p : ℤ)
    → valid_port_key name ≡ true
    → assigned a job name ≡ some p
    → in_range a.range p ≡ true
    → (resolve job name none a).1 ≡ ok p
unfolding resolve assign_provisioned provision_from
keeps_number job name a p good own inside = rw good (rw (own, provision_from) (rw inside refl))

valid_of_ok :
    (job name : String) (a : PortAllocator) (p : ℤ)
    → (resolve job name none a).1 ≡ ok p
    → valid_port_key name ≡ true
unfolding resolve assign_provisioned
valid_of_ok job name a p done = elim (Bool-cases (valid_port_key name)) [
  | inl good ↦ good
  | inr bad ↦ absurd (cc (rw bad at done))
]

-- A port from the pool keeps its number: from a state without collisions, where resolve returns a
-- number for it, a second resolve returns the same number.
pub provisioned_stable :
    (job name : String) (a : PortAllocator) (p : ℤ)
    → NoCollision a
    → (resolve job name none a).1 ≡ ok p
    → (resolve job name none (resolve job name none a).0).1 ≡ ok p
provisioned_stable job name a p h done =
    let t = resolve-Assigns job name none a p h done in
    keeps_number job name (resolve job name none a).0 p (valid_of_ok job name a p done) t.0.own
      (rw t.0.same_range t.1)
