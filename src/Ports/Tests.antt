-- ===== src/Ports/Tests.antt =====
-- The ports of two jobs, with a pool of two numbers.
use maand.Prelude.{
  String, Bool, true, false, Option, none, some, List, [], ◌∷◌, ◌++◌, ◌≡◌, refl, ℤ, pos, contains,
  comparable_ℤ, comparable_String, if◌then◌else◌, ◌==◌, not, ◌&&◌, Map, keys, Distinct, Result, ok,
  err,
}
use maand.Ports.{
  PortRange, PortAllocator, PortError, port_collision, port_range_exhausted, new_port_allocator,
  assigned, in_range, ManifestPortBinding, resolve, release_removed, valid_port_key,
}
use maand.Ports.Assigned.{NoCollision}
use maand.Ports.Claim.{Assigns}
use maand.Ports.Resolve.{Fits, resolve-Assigns}
use maand.Ports.Exhausted.{provisioned_exhausted}
use maand.Ports.Removed.{PortMaps}
use maand.Ports.Build.{JobPortRow, get_all_job_port_assignments, sync_job_ports}
use maand.Ports.Synced.{JobSynced, sync_job_ports-JobSynced}
use maand.Ports.Loaded.{PortRows, numbers, last_number, new_port_allocator-NoCollision}

abbrev pool : PortRange
pool = record { min = 30000; max = 30001 }

abbrev rows : PortRows
rows = ("web", "http", pos 30000) ∷ ("web", "admin", pos 9500) ∷ []

abbrev start : PortAllocator
start = new_port_allocator (get_all_job_port_assignments rows) pool

Distinct-numbers : Distinct (numbers rows)
unfolding numbers contains
Distinct-numbers = (refl, (refl, tt))

start-NoCollision : NoCollision start × PortMaps start
start-NoCollision = let t = new_port_allocator-NoCollision rows pool Distinct-numbers in (t.1, t.2)

new_port_allocator-NoCollision_example :
    ((job name : String) → assigned start job name ≡ last_number job name rows)
    × NoCollision start
    × PortMaps start
new_port_allocator-NoCollision_example = new_port_allocator-NoCollision rows pool Distinct-numbers

first_free : (resolve "db" "tcp" none start).1 ≡ ok (pos 30001)
unfolding resolve new_port_allocator get_all_job_port_assignments maand.Ports.assign_provisioned
    maand.Ports.assign_fixed valid_port_key maand.Ports.provision_from assigned maand.Prelude.lookup
    maand.Ports.Build.read_assignments maand.Prelude.put maand.Ports.search_pool
    maand.Ports.find_free maand.Ports.release_assigned_number contains maand.Prelude.add
    maand.Prelude.remove maand.Ports.claim_port
first_free = refl

abbrev after : PortAllocator
after = (resolve "db" "tcp" none start).0

exhausted : (resolve "db" "udp" none after).1 ≡ err port_range_exhausted
unfolding resolve new_port_allocator get_all_job_port_assignments maand.Ports.assign_provisioned
    maand.Ports.assign_fixed valid_port_key maand.Ports.provision_from assigned maand.Prelude.lookup
    maand.Ports.Build.read_assignments maand.Prelude.put maand.Ports.search_pool
    maand.Ports.find_free maand.Ports.release_assigned_number contains maand.Prelude.add
    maand.Prelude.remove maand.Ports.claim_port
exhausted = refl

former_fixed : (resolve "web" "admin" none start).1 ≡ ok (pos 30001)
unfolding resolve new_port_allocator get_all_job_port_assignments maand.Ports.assign_provisioned
    maand.Ports.assign_fixed valid_port_key maand.Ports.provision_from assigned maand.Prelude.lookup
    maand.Ports.Build.read_assignments maand.Prelude.put maand.Ports.search_pool
    maand.Ports.find_free maand.Ports.release_assigned_number contains maand.Prelude.add
    maand.Prelude.remove maand.Ports.claim_port
former_fixed = refl

collision : (resolve "db" "tcp" (some (pos 9500)) start).1 ≡ err port_collision
unfolding resolve new_port_allocator get_all_job_port_assignments maand.Ports.assign_provisioned
    maand.Ports.assign_fixed valid_port_key maand.Ports.provision_from assigned maand.Prelude.lookup
    maand.Ports.Build.read_assignments maand.Prelude.put maand.Ports.search_pool
    maand.Ports.find_free maand.Ports.release_assigned_number contains maand.Prelude.add
    maand.Prelude.remove maand.Ports.claim_port
collision = refl

valid_udp : valid_port_key "udp" ≡ true
unfolding valid_port_key
valid_udp = refl

in_pool : in_range after.range (pos 30000) ≡ true
unfolding resolve new_port_allocator get_all_job_port_assignments maand.Ports.assign_provisioned
    maand.Ports.assign_fixed valid_port_key maand.Ports.provision_from assigned maand.Prelude.lookup
    maand.Ports.Build.read_assignments maand.Prelude.put maand.Ports.search_pool
    maand.Ports.find_free maand.Ports.release_assigned_number contains maand.Prelude.add
    maand.Prelude.remove maand.Ports.claim_port
in_pool = refl

resolve-Assigns_example :
    Assigns "db" "tcp" (pos 30001) start (resolve "db" "tcp" none start).0
    × Fits none start.range (pos 30001)
resolve-Assigns_example =
    resolve-Assigns "db" "tcp" none start (pos 30001) start-NoCollision.0 first_free

abbrev declared : Map String ManifestPortBinding
declared = ("admin", none) ∷ ("metrics", some (pos 9100)) ∷ []

declared-Distinct : Distinct (keys declared)
unfolding keys contains
declared-Distinct = (refl, (refl, tt))

abbrev old_table : List JobPortRow
old_table =
    record { job_id = "1"; name = "http"; port = pos 30000 }
    ∷ record { job_id = "1"; name = "admin"; port = pos 9500 }
    ∷ []

sync_succeeds : (sync_job_ports (λ _. true) "1" "web" declared start old_table).result ≡ ok tt
unfolding sync_job_ports maand.Ports.Build.sync_names maand.Ports.Build.insert_port
    maand.Ports.Build.delete_job release_removed keys maand.Prelude.delete maand.Ports.drop_ports
    resolve new_port_allocator get_all_job_port_assignments maand.Ports.assign_provisioned
    maand.Ports.assign_fixed valid_port_key maand.Ports.provision_from assigned maand.Prelude.lookup
    maand.Ports.Build.read_assignments maand.Prelude.put maand.Ports.search_pool
    maand.Ports.find_free maand.Ports.release_assigned_number contains maand.Prelude.add
    maand.Prelude.remove maand.Ports.claim_port
sync_succeeds = refl

sync_writes : (sync_job_ports (λ _. true) "1" "web" declared start old_table).table ≡ (
    record { job_id = "1"; name = "admin"; port = pos 30000 }
    ∷ record { job_id = "1"; name = "metrics"; port = pos 9100 }
    ∷ [])
unfolding sync_job_ports maand.Ports.Build.sync_names maand.Ports.Build.insert_port
    maand.Ports.Build.delete_job release_removed keys maand.Prelude.delete maand.Ports.drop_ports
    resolve new_port_allocator get_all_job_port_assignments maand.Ports.assign_provisioned
    maand.Ports.assign_fixed valid_port_key maand.Ports.provision_from assigned maand.Prelude.lookup
    maand.Ports.Build.read_assignments maand.Prelude.put maand.Ports.search_pool
    maand.Ports.find_free maand.Ports.release_assigned_number contains maand.Prelude.add
    maand.Prelude.remove maand.Ports.claim_port
sync_writes = refl

sync_job_ports-JobSynced_example :
    JobSynced "1" "web" declared start old_table
      (sync_job_ports (λ _. true) "1" "web" declared start old_table)
sync_job_ports-JobSynced_example =
    sync_job_ports-JobSynced (λ _. true) "1" "web" declared start old_table declared-Distinct
      start-NoCollision.0 start-NoCollision.1 sync_succeeds

provisioned_exhausted_example :
    contains (pos 30000) (resolve "db" "udp" none after).0.used_numbers ≡ true
provisioned_exhausted_example =
    provisioned_exhausted "db" "udp" after port_range_exhausted valid_udp exhausted 30000 in_pool
