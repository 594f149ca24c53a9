-- ===== src/Ports/MapsKept.antt =====
-- resolve of build/build_ports.go keeps the ports of each job a Go map.
use maand.Prelude.{
  ℕ, zero, suc, ◌+◌, ◌-◌, String, Option, none, some, List, ℤ, pos, ◌==◌, comparable_String,
  comparable_ℤ, contains, add, remove, put, Distinct-keys-put, Bool-cases, inl, inr, Result, ok,
  err,
}
use maand.Ports.{
  PortAllocator, PortError, job_ports, assigned, is_port, claim_port, release_other,
  release_assigned_number, release_number, find_free, search_pool, provision_from, port_result,
  in_range, valid_port_key, assign_provisioned, assign_fixed, ManifestPortBinding, resolve,
}
use maand.Ports.Removed.{PortMaps, PortMaps-put}

used-PortMaps :
    (used : List ℤ) {a : PortAllocator} → PortMaps a → PortMaps (record a { used_numbers = used })
unfolding job_ports
used-PortMaps used h = record { distinct = h.distinct }

claim_port-PortMaps :
    (job name : String) (port : ℤ) (a : PortAllocator)
    → PortMaps a
    → PortMaps (claim_port job name port a).0
unfolding claim_port
claim_port-PortMaps job name port a h = elim (Bool-cases (is_port port (assigned a job name))) [
  | inl same ↦ rw same (used-PortMaps (add port a.used_numbers) h)
  | inr other ↦ rw other (elim (Bool-cases (contains port a.used_numbers)) [
    | inl taken ↦ rw taken h
    | inr free ↦ rw free (
        PortMaps-put a job (put name port (job_ports a job)) (add port a.used_numbers)
          (Distinct-keys-put name port (job_ports a job) (h.distinct job)) h)
  ])
]

port_result-PortMaps :
    (p : ℤ) (r : PortAllocator × Result PortError (Unit {0}))
    → PortMaps r.0
    → PortMaps (port_result p r).0
port_result-PortMaps p (a, err e) h = h
port_result-PortMaps p (a, ok _) h = h

find_free-PortMaps :
    (left from : ℕ) (job name : String) (a : PortAllocator)
    → PortMaps a
    → PortMaps (find_free left from job name a).0
unfolding find_free
find_free-PortMaps zero from job name a h = h
find_free-PortMaps (suc left) from job name a h =
    elim (Bool-cases (contains (pos from) a.used_numbers)) [
      | inl taken ↦ rw (taken, find_free) (find_free-PortMaps left (from + 1) job name a h)
      | inr free ↦
          rw (free, find_free)
            (port_result-PortMaps (pos from) (claim_port job name (pos from) a)
              (claim_port-PortMaps job name (pos from) a h))
    ]

release_number-PortMaps :
    (o : Option ℤ) (a : PortAllocator) → PortMaps a → PortMaps (release_number o a)
release_number-PortMaps none a h = h
release_number-PortMaps (some prev) a h = used-PortMaps (remove prev a.used_numbers) h

release_other-PortMaps :
    (port : ℤ) (o : Option ℤ) (a : PortAllocator) → PortMaps a → PortMaps (release_other port o a)
release_other-PortMaps port none a h = h
release_other-PortMaps port (some prev) a h = elim (Bool-cases (prev == port)) [
  | inl same ↦ rw same h
  | inr other ↦ rw other (used-PortMaps (remove prev a.used_numbers) h)
]

provision_from-PortMaps :
    (job name : String) (a : PortAllocator) (o : Option ℤ)
    → PortMaps a
    → PortMaps (provision_from job name a o).0
unfolding provision_from search_pool release_assigned_number
provision_from-PortMaps job name a none h =
    find_free-PortMaps (a.range.max + 1 - a.range.min) a.range.min job name a h
provision_from-PortMaps job name a (some prev) h = elim (Bool-cases (in_range a.range prev)) [
  | inl inside ↦ rw inside (used-PortMaps (add prev a.used_numbers) h)
  | inr outside ↦
      let b = release_number (assigned a job name) a in
      rw outside (
        find_free-PortMaps (b.range.max + 1 - b.range.min) b.range.min job name b
          (release_number-PortMaps (assigned a job name) a h))
]

pub resolve-PortMaps :
    (job name : String) (binding : ManifestPortBinding) (a : PortAllocator)
    → PortMaps a
    → PortMaps (resolve job name binding a).0
unfolding resolve assign_provisioned assign_fixed
resolve-PortMaps job name none a h = elim (Bool-cases (valid_port_key name)) [
  | inl good ↦ rw good (provision_from-PortMaps job name a (assigned a job name) h)
  | inr bad ↦ rw bad h
]
resolve-PortMaps job name (some fixed) a h = elim (Bool-cases (valid_port_key name)) [
  | inl good ↦
      let b = release_other fixed (assigned a job name) a in
      rw good (
        port_result-PortMaps fixed (claim_port job name fixed b) (
          claim_port-PortMaps job name fixed b
            (release_other-PortMaps fixed (assigned a job name) a h)))
  | inr bad ↦ rw bad h
]
