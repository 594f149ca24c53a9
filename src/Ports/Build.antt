-- ===== src/Ports/Build.antt =====
-- syncJobPorts of build/build_ports.go and the reading of the table in data/ports.go: the rows of the
-- table job_ports. Whether a statement succeeds is up to the database: a parameter. A failure of
-- either leaves it to the caller to roll the transaction back.
use maand.Prelude.{
  String, Bool, true, false, List, [], ◌∷◌, ◌++◌, ℤ, ◌==◌, comparable_String, if◌then◌else◌, Map,
  keys, put, lookup, Result, ok, err,
}
use maand.Ports.{
  PortError, database_error, PortAllocator, JobPortAssignments, ports_or_empty, ManifestPortBinding,
  release_removed, resolve,
}

pub record JobPortRow : Type 0 where
  pub job_id : String
  pub name : String
  pub port : ℤ

-- `DELETE FROM job_ports WHERE job_id = ?`
unfoldable pub delete_job : String → List JobPortRow → List JobPortRow
delete_job job_id [] = []
delete_job job_id (row ∷ rows) =
    let rest = delete_job job_id rows in if row.job_id == job_id then rest else row ∷ rest

-- `assignments[jobName][portName] = port`
abbrev pub add_assignment : String → String → ℤ → JobPortAssignments → JobPortAssignments
add_assignment job name port assignments =
    put job (put name port (ports_or_empty (lookup job assignments))) assignments

-- The rows of the query of GetAllJobPortAssignments: job name, port name, number.
unfoldable pub read_assignments :
    List (String × String × ℤ) → JobPortAssignments → JobPortAssignments
read_assignments [] assignments = assignments
read_assignments ((job, name, port) ∷ rows) assignments =
    read_assignments rows (add_assignment job name port assignments)

unfoldable pub get_all_job_port_assignments : List (String × String × ℤ) → JobPortAssignments
get_all_job_port_assignments rows = read_assignments rows []

pub record Synced : Type 0 where
  pub allocator : PortAllocator
  pub table : List JobPortRow
  pub result : Result PortError (Unit {0})

abbrev pub succeeded : Result PortError (Unit {0}) → Bool
succeeded (err e) = false
succeeded (ok _) = true

-- Whether a statement succeeds, as a function of the table that it would leave.
module _ (exec_ok : List JobPortRow → Bool) where
  -- The INSERT of one round of the loop, after resolve.
  unfoldable pub insert_port :
      String → String → List JobPortRow → PortAllocator × Result PortError ℤ → Synced
  insert_port job_id name table (a, err e) = record { allocator = a; table = table; result = err e }
  insert_port job_id name table (a, ok port) =
      let inserted = table ++ (record { job_id = job_id; name = name; port = port } ∷ []) in
      if exec_ok inserted
      then record { allocator = a; table = inserted; result = ok tt }
      else record { allocator = a; table = table; result = err database_error }

  -- The loop over the declared ports, in the order of Names.
  unfoldable pub sync_names :
      String → String → Map String ManifestPortBinding → PortAllocator → List JobPortRow → Synced
  sync_names job_id job [] a table = record { allocator = a; table = table; result = ok tt }
  sync_names job_id job ((name, binding) ∷ ports) a table =
      let round = insert_port job_id name table (resolve job name binding a) in
      let rest = sync_names job_id job ports round.allocator round.table in
      if succeeded round.result then rest else round

  -- The manifest's ports are a map, given in the order of Names.
  unfoldable pub sync_job_ports :
      String → String → Map String ManifestPortBinding → PortAllocator → List JobPortRow → Synced
  sync_job_ports job_id job ports a table =
      let released = release_removed job (keys ports) a in
      let deleted = delete_job job_id table in
      if exec_ok deleted
      then sync_names job_id job ports released deleted
      else record { allocator = released; table = table; result = err database_error }
