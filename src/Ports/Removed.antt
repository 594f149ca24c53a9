-- ===== src/Ports/Removed.antt =====
-- releaseRemoved of build/build_ports.go: the ports that a manifest no longer declares.
use mathlib.Core.Path.{subst}
use maand.Prelude.{
  String, false, not, ◌&&◌, none, some, List, [], ◌∷◌, ◌≡◌, refl, ap, ◌∙◌, arith, ℤ, ◌==◌, ==_iff,
  ==_refl, comparable_String, comparable_ℤ, if◌then◌else◌, contains, remove, contains-remove,
  Distinct, Map, lookup, put, delete, keys, lookup-put, lookup_absent, Distinct-keys-delete,
  Bool-cases, inl, inr,
}
use maand.Ports.{PortAllocator, job_ports, assigned, drop_port, drop_ports, release_removed}
use maand.Ports.Assigned.{same_port, NoCollision, assigned-delete}

-- The ports of each job are a Go map.
pub record PortMaps (a : PortAllocator) : Type 0 where
  pub distinct : (job : String) → Distinct (keys (job_ports a job))

pub job_ports-put :
    (a : PortAllocator) (job : String) (m : Map String ℤ) (used : List ℤ) (i : String)
    → job_ports (record a { used_numbers = used; existing = put job m a.existing }) i
      ≡ (if i == job then m else job_ports a i)
unfolding job_ports
job_ports-put a job m used i =
    rw lookup-put
      (elim (Bool-cases (i == job)) [ inl same ↦ rw same refl | inr other ↦ rw other refl ])

pub PortMaps-put :
    (a : PortAllocator) (job : String) (m : Map String ℤ) (used : List ℤ)
    → Distinct (keys m)
    → PortMaps a
    → PortMaps (record a { used_numbers = used; existing = put job m a.existing })
PortMaps-put a job m used d h = record {
  distinct = λ i.
      rw (job_ports-put a job m used i) (elim (Bool-cases (i == job)) [
        | inl same ↦ rw same d
        | inr other ↦ rw other (h.distinct i)
      ]);
}

drop_port-at :
    (job name : String) (port : ℤ) (a : PortAllocator) (i n : String)
    → assigned (drop_port job name port a) i n
      ≡ (if same_port job name i n then none else assigned a i n)
drop_port-at job name port a i n = assigned-delete a job name (remove port a.used_numbers) i n

drop_port-NoCollision :
    (job name : String) (port : ℤ) (a : PortAllocator)
    → assigned a job name ≡ some port
    → NoCollision a
    → NoCollision (drop_port job name port a)
drop_port-NoCollision job name port a own h = record {
  recorded = λ i n p f. elim (Bool-cases (same_port job name i n)) [
    | inl same ↦ ground (arith, drop_port-at job name port a i n)
    | inr other ↦
        let g : assigned a i n ≡ some p =
          rw other at (rw (drop_port-at job name port a i n) at f) in
        contains-remove port p a.used_numbers
        ∙ ground (
          arith,
          h.recorded i n p g,
          ==_iff p port,
          λ (q : p ≡ port).
              h.unique job name i n port own (subst (λ (x : ℤ). assigned a i n ≡ some x) q g),
        )
  ];
  unique = λ i n i' n' p f g. ground (
    arith,
    drop_port-at job name port a i n,
    drop_port-at job name port a i' n',
    h.unique i n i' n' p,
  );
}

-- The entries of a snapshot that are still in the allocator.
abbrev Present : PortAllocator → String → Map String ℤ → Type 0
Present a job [] = Unit
Present a job ((name, port) ∷ prev) = (assigned a job name ≡ some port) × Present a job prev

Present-drop :
    (a : PortAllocator) (job name : String) (port : ℤ) (prev : Map String ℤ)
    → contains name (keys prev) ≡ false
    → Present a job prev
    → Present (drop_port job name port a) job prev
unfolding contains keys
Present-drop a job name port [] fresh h = tt
Present-drop a job name port ((n, p) ∷ prev) fresh h = (
  drop_port-at job name port a job n ∙ ground (arith, h.0, ==_iff n name, ==_iff name n),
  Present-drop a job name port prev (ground arith) h.1,
)

record Dropped (job : String) (keep : List String) (prev : Map String ℤ) (a b : PortAllocator)
    : Type 0 where
  pub no_collision : NoCollision b
  pub port_maps : PortMaps b
  pub same_range : b.range ≡ a.range
  pub at :
      (i n : String)
      → assigned b i n ≡ (
          if i == job && (contains n (keys prev) && not (contains n keep))
          then none
          else assigned a i n)

drop_ports-Dropped :
    (job : String) (keep : List String) (prev : Map String ℤ) (a : PortAllocator)
    → Distinct (keys prev)
    → Present a job prev
    → NoCollision a
    → PortMaps a
    → Dropped job keep prev a (drop_ports job keep prev a)
unfolding drop_ports contains keys
drop_ports-Dropped job keep [] a d here h m = record {
  no_collision = h;
  port_maps = m;
  same_range = refl;
  at = λ i n. ground arith;
}
drop_ports-Dropped job keep ((name, port) ∷ prev) a d here h m =
    elim (Bool-cases (contains name keep)) [
      | inl kept ↦
          let ih = drop_ports-Dropped job keep prev a d.1 here.1 h m in
          rw (kept, drop_ports)
            (record {
              no_collision = ih.no_collision;
              port_maps = ih.port_maps;
              same_range = ih.same_range;
              at = λ i n.
                  ih.at i n
                  ∙ ground (
                    arith,
                    kept,
                    ==_iff n name,
                    ==_iff name n,
                    λ (q : n ≡ name). ap (λ (x : String). contains x keep) q,
                  );
            })
      | inr gone ↦
          let b = drop_port job name port a in
          let ih =
            drop_ports-Dropped job keep prev b d.1 (Present-drop a job name port prev d.0 here.1)
              (drop_port-NoCollision job name port a here.0 h)
              (PortMaps-put a job (delete name (job_ports a job)) (remove port a.used_numbers)
                (Distinct-keys-delete name (job_ports a job) (m.distinct job)) m) in
          rw (gone, drop_ports)
            (record {
              no_collision = ih.no_collision;
              port_maps = ih.port_maps;
              same_range = ih.same_range;
              at = λ i n.
                  ih.at i n
                  ∙ ground (
                    arith,
                    gone,
                    drop_port-at job name port a i n,
                    ==_iff n name,
                    ==_iff name n,
                    λ (q : n ≡ name). ap (λ (x : String). contains x keep) q,
                  );
            })
    ]

-- Every entry of a Go map is what a lookup of its key finds.
Found : Map String ℤ → Map String ℤ → Type 0
Found m [] = Unit
Found m ((name, port) ∷ prev) = (lookup name m ≡ some port) × Found m prev

Found-cons :
    (name : String) (port : ℤ) (m prev : Map String ℤ)
    → contains name (keys prev) ≡ false
    → Found m prev
    → Found ((name, port) ∷ m) prev
unfolding Found lookup contains keys
Found-cons name port m [] fresh h = tt
Found-cons name port m ((n, p) ∷ prev) fresh h = (
  ground (arith, h.0, ==_iff n name, ==_iff name n),
  Found-cons name port m prev (ground arith) h.1,
)

Found-self : (m : Map String ℤ) → Distinct (keys m) → Found m m
unfolding Found lookup keys
Found-self [] d = tt
Found-self ((name, port) ∷ m) d =
    (rw (==_refl name) refl, Found-cons name port m m d.0 (Found-self m d.1))

Found-Present :
    (a : PortAllocator) (job : String) (prev : Map String ℤ)
    → Found (job_ports a job) prev
    → Present a job prev
unfolding Found assigned
Found-Present a job [] h = tt
Found-Present a job ((name, port) ∷ prev) h = (h.0, Found-Present a job prev h.1)

assigned-lookup :
    (a : PortAllocator) (job name : String) → assigned a job name ≡ lookup name (job_ports a job)
unfolding assigned
assigned-lookup a job name = refl

-- From a state without collisions, releaseRemoved leaves a job exactly the ports that it keeps, with
-- their numbers, and every other job its ports; there is still no collision.
pub release_removed-Kept :
    (job : String) (keep : List String) (a : PortAllocator)
    → NoCollision a
    → PortMaps a
    → NoCollision (release_removed job keep a)
      × PortMaps (release_removed job keep a)
      × ((release_removed job keep a).range ≡ a.range)
      × ((i n : String)
          → assigned (release_removed job keep a) i n
            ≡ (if i == job && not (contains n keep) then none else assigned a i n))
unfolding release_removed
release_removed-Kept job keep a h m =
    let d =
      drop_ports-Dropped job keep (job_ports a job) a (m.distinct job)
        (Found-Present a job (job_ports a job) (Found-self (job_ports a job) (m.distinct job))) h
        m in
    (d.no_collision, d.port_maps, d.same_range, λ i n. d.at i n ∙ gone i n)
  where
    gone :
        (i n : String)
        → (if i == job && (contains n (keys (job_ports a job)) && not (contains n keep))
            then none
            else assigned a i n)
          ≡ (if i == job && not (contains n keep) then none else assigned a i n)
    gone i n = ground (
      arith,
      ==_iff i job,
      lookup_absent n (job_ports a job),
      assigned-lookup a job n,
      λ (q : i ≡ job). ap (λ (x : String). assigned a x n) q,
    )
