-- ===== src/Ports/Synced.antt =====
-- syncJobPorts of build/build_ports.go: what a build leaves of a job's ports.
use maand.Prelude.{
  append_nil, append_assoc, String, Bool, true, false, ◌&&◌, none, some, List, [], ◌∷◌, ◌++◌, ◌≡◌,
  refl, sym, ap, ◌∙◌, arith, ℤ, ◌==◌, ==_iff, comparable_String, comparable_ℤ, contains, Distinct,
  Map, keys, Bool-cases, inl, inr, Result, ok, err,
}
use maand.Ports.{PortAllocator, PortError, assigned, ManifestPortBinding, release_removed, resolve}
use maand.Ports.Assigned.{NoCollision}
use maand.Ports.Resolve.{Fits, resolve-Assigns}
use maand.Ports.Removed.{PortMaps, release_removed-Kept}
use maand.Ports.MapsKept.{resolve-PortMaps}
use maand.Ports.Build.{
  JobPortRow, Synced, delete_job, succeeded, insert_port, sync_names, sync_job_ports,
}

-- The declared ports with numbers that fit them, which the allocator has recorded.
unfoldable pub Resolved :
    PortAllocator → String → Map String ManifestPortBinding → List (String × ℤ) → Type 0
Resolved a job [] [] = Unit
Resolved a job [] (number ∷ numbers) = ⊥
Resolved a job ((name, binding) ∷ ports) [] = ⊥
Resolved a job ((name, binding) ∷ ports) ((n, p) ∷ numbers) =
    (n ≡ name)
    × (assigned a job name ≡ some p)
    × Fits binding a.range p
    × Resolved a job ports numbers

unfoldable pub rows_of : String → List (String × ℤ) → List JobPortRow
rows_of job_id [] = []
rows_of job_id ((name, port) ∷ numbers) =
    record { job_id = job_id; name = name; port = port } ∷ rows_of job_id numbers

insert_port-ok :
    (exec_ok : List JobPortRow → Bool) (job_id name : String) (table : List JobPortRow)
    (r : PortAllocator × Result PortError ℤ)
    → succeeded (insert_port exec_ok job_id name table r).result ≡ true
    → (p : ℤ) × (r.1 ≡ ok p)
      × (insert_port exec_ok job_id name table r ≡ record {
        allocator = r.0;
        table = table ++ (record { job_id = job_id; name = name; port = p } ∷ []);
        result = ok tt;
      })
unfolding insert_port
insert_port-ok exec_ok job_id name table (a, err e) h = absurd (cc)
insert_port-ok exec_ok job_id name table (a, ok p) h =
    elim (Bool-cases
      (exec_ok (table ++ (record { job_id = job_id; name = name; port = p } ∷ [])))) [
        | inl written ↦ rw written (p, refl, refl)
        | inr failed ↦ absurd (cc (rw failed at h))
      ]

-- What the loop has done when it ends without an error.
pub record Done (job_id job : String) (ports : Map String ManifestPortBinding) (a : PortAllocator)
    (table : List JobPortRow) (s : Synced) : Type 0 where
  pub no_collision : NoCollision s.allocator
  pub port_maps : PortMaps s.allocator
  pub same_range : s.allocator.range ≡ a.range
  pub others :
      (i n : String)
      → (i == job && contains n (keys ports)) ≡ false
      → assigned s.allocator i n ≡ assigned a i n
  pub numbers : List (String × ℤ)
  pub resolved : Resolved s.allocator job ports numbers
  pub written : s.table ≡ (table ++ rows_of job_id numbers)
  pub no_error : s.result ≡ ok tt

sync_names-Done :
    (exec_ok : List JobPortRow → Bool) (job_id job : String)
    (ports : Map String ManifestPortBinding) (a : PortAllocator) (table : List JobPortRow)
    → Distinct (keys ports)
    → NoCollision a
    → PortMaps a
    → succeeded (sync_names exec_ok job_id job ports a table).result ≡ true
    → Done job_id job ports a table (sync_names exec_ok job_id job ports a table)
unfolding sync_names keys contains Resolved rows_of
sync_names-Done exec_ok job_id job [] a table d h m done = record {
  no_collision = h;
  port_maps = m;
  same_range = refl;
  others = λ i n _. refl;
  numbers = [];
  resolved = tt;
  written = sym (append_nil table);
  no_error = refl;
}
sync_names-Done exec_ok job_id job ((name, binding) ∷ ports) a table d h m done =
    elim (Bool-cases (succeeded round.result)) [
      | inr stopped ↦ absurd (cc (rw (stopped, sync_names) at done))
      | inl on ↦
          let t = insert_port-ok exec_ok job_id name table (resolve job name binding a) on in
          let b = (resolve job name binding a).0 in
          let one = resolve-Assigns job name binding a t.0 h t.1 in
          let after = table ++ (record { job_id = job_id; name = name; port = t.0 } ∷ []) in
          let same : sync_names exec_ok job_id job ((name, binding) ∷ ports) a table
              ≡ sync_names exec_ok job_id job ports b after =
            rw (on, sync_names) (rw t.2 refl) in
          let ih =
            sync_names-Done exec_ok job_id job ports b after d.1 one.0.no_collision
              (resolve-PortMaps job name binding a m) (rw same at done) in
          rw same (record {
            no_collision = ih.no_collision;
            port_maps = ih.port_maps;
            same_range = ih.same_range ∙ one.0.same_range;
            others =
                λ i n o. ih.others i n (ground (arith, o)) ∙ one.0.others i n (ground (arith, o));
            numbers = (name, t.0) ∷ ih.numbers;
            resolved = (
              refl,
              ih.others job name (ground (arith, d.0)) ∙ one.0.own,
              rw ih.same_range (rw one.0.same_range one.1),
              ih.resolved,
            );
            written =
                ih.written
                ∙ append_assoc table (record { job_id = job_id; name = name; port = t.0 } ∷ [])
                    (rows_of job_id ih.numbers);
            no_error = ih.no_error;
          })
    ]
  where
    round : Synced
    round = insert_port exec_ok job_id name table (resolve job name binding a)

sync_job_ports-ok :
    (exec_ok : List JobPortRow → Bool) (job_id job : String)
    (ports : Map String ManifestPortBinding) (a : PortAllocator) (table : List JobPortRow)
    → (sync_job_ports exec_ok job_id job ports a table).result ≡ ok tt
    → sync_job_ports exec_ok job_id job ports a table
      ≡ sync_names exec_ok job_id job ports
          (release_removed job (keys ports) a)
          (delete_job job_id table)
unfolding sync_job_ports
sync_job_ports-ok exec_ok job_id job ports a table done =
    elim (Bool-cases (exec_ok (delete_job job_id table))) [
      | inl deleted ↦ rw deleted refl
      | inr failed ↦ absurd (cc (rw failed at done))
    ]

-- What a build without errors makes of a job's ports.
pub record JobSynced (job_id job : String) (ports : Map String ManifestPortBinding)
    (a : PortAllocator) (table : List JobPortRow) (s : Synced) : Type 0 where
  pub no_collision : NoCollision s.allocator
  pub port_maps : PortMaps s.allocator
  pub same_range : s.allocator.range ≡ a.range
  pub other_jobs : (i n : String) → (i == job) ≡ false → assigned s.allocator i n ≡ assigned a i n
  pub undeclared :
      (n : String) → contains n (keys ports) ≡ false → assigned s.allocator job n ≡ none
  pub numbers : List (String × ℤ)
  pub resolved : Resolved s.allocator job ports numbers
  pub written : s.table ≡ (delete_job job_id table ++ rows_of job_id numbers)

-- From a state without collisions, where syncJobPorts returns no error on the ports of a manifest:
-- each declared port has a number that fits it (the fixed one, or one of the pool) and is recorded,
-- no undeclared port of the job is left, the ports of the other jobs are as before, no two ports
-- have the same number, and the table holds the rows of the other jobs as before and a row with its
-- number for each declared port.
pub sync_job_ports-JobSynced :
    (exec_ok : List JobPortRow → Bool) (job_id job : String)
    (ports : Map String ManifestPortBinding) (a : PortAllocator) (table : List JobPortRow)
    → Distinct (keys ports)
    → NoCollision a
    → PortMaps a
    → (sync_job_ports exec_ok job_id job ports a table).result ≡ ok tt
    → JobSynced job_id job ports a table (sync_job_ports exec_ok job_id job ports a table)
sync_job_ports-JobSynced exec_ok job_id job ports a table d h m done =
    let b = release_removed job (keys ports) a in
    let kept = release_removed-Kept job (keys ports) a h m in
    let same = sync_job_ports-ok exec_ok job_id job ports a table done in
    let s =
      sync_names-Done exec_ok job_id job ports b (delete_job job_id table) d kept.0 kept.1
        (ap succeeded (ap Synced.result (sym same) ∙ done)) in
    rw same (record {
      no_collision = s.no_collision;
      port_maps = s.port_maps;
      same_range = s.same_range ∙ kept.2;
      other_jobs = λ i n o. s.others i n (ground (arith, o)) ∙ kept.3 i n ∙ ground (arith, o);
      undeclared = λ n o.
          s.others job n (ground (arith, o)) ∙ kept.3 job n ∙ ground (arith, o, ==_iff job job);
      numbers = s.numbers;
      resolved = s.resolved;
      written = s.written;
    })
