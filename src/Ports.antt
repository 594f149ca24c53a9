-- ===== src/Ports.antt =====
-- build/build_ports.go: the ports of jobs, from the pool of the bucket (bucket/port_range.go) or
-- fixed by a manifest (workspace/ports.go). A port number is Go's int; the pool's bounds are natural
-- numbers, since LoadPortRange refuses any other range. The methods change the allocator in place,
-- also where they return an error after that, so they return it beside the result.
pub mod Assigned
pub mod Claim
pub mod Resolve
pub mod Exhausted
pub mod Removed
pub mod Build
pub mod MapsKept
pub mod Synced
pub mod Loaded
mod Tests
use Prim.Native.Char.{code}
use Prim.Native.String
use maand.Prelude.{
  ℕ, zero, suc, ◌+◌, ◌-◌, String, Bool, true, false, ◌&&◌, ◌||◌, not, Option, none, some, List, [],
  ◌∷◌, ◌++◌, ℤ, pos, negsuc, ltb, leb, nat_beq, ◌==◌, comparable_String, comparable_ℤ,
  if◌then◌else◌, contains, add, remove, Map, lookup, put, delete, length, Result, ok, err,
}
use maand.Text.{trim_space, is_empty}

pub record PortRange : Type 0 where
  pub min : ℕ
  pub max : ℕ

abbrev pub default_port_range : PortRange
default_port_range = record { min = 30000; max = 39999 }

-- Contains
abbrev pub in_range : PortRange → ℤ → Bool
in_range r (pos port) = leb r.min port && leb port r.max
in_range r (negsuc n) = false

pub data PortError : Type 0 where
  port_key_format port_collision port_range_exhausted invalid_port_range database_error : PortError

-- Validate
unfoldable pub validate : PortRange → Result PortError (Unit {0})
validate r =
    if ltb r.min 1 || (ltb 65535 r.max || ltb r.max r.min) then err invalid_port_range else ok tt

abbrev pub JobPortAssignments : Type 0
JobPortAssignments = Map String (Map String ℤ)

pub record PortAllocator : Type 0 where
  pub range : PortRange
  pub existing : JobPortAssignments
  pub used_numbers : List ℤ

unfoldable pub use_ports : Map String ℤ → List ℤ → List ℤ
use_ports [] used = used
use_ports ((name, port) ∷ ports) used = use_ports ports (add port used)

unfoldable pub use_all_ports : JobPortAssignments → List ℤ → List ℤ
unfolding use_ports
use_all_ports [] used = used
use_all_ports ((job, ports) ∷ rest) used = use_all_ports rest (use_ports ports used)

unfoldable pub new_port_allocator : JobPortAssignments → PortRange → PortAllocator
unfolding use_all_ports
new_port_allocator existing range = record {
  range = range;
  existing = existing;
  used_numbers = use_all_ports existing [];
}

-- `a.existing[jobName]`, where a missing job reads as an empty map.
abbrev pub ports_or_empty : Option (Map String ℤ) → Map String ℤ
ports_or_empty none = []
ports_or_empty (some ports) = ports

unfoldable pub job_ports : PortAllocator → String → Map String ℤ
job_ports a job = ports_or_empty (lookup job a.existing)

-- `a.existing[jobName][portName]`
unfoldable pub assigned : PortAllocator → String → String → Option ℤ
unfolding job_ports
assigned a job name = lookup name (job_ports a job)

abbrev pub is_port : ℤ → Option ℤ → Bool
is_port port none = false
is_port port (some prev) = prev == port

unfoldable pub claim_port :
    String → String → ℤ → PortAllocator → PortAllocator × Result PortError (Unit {0})
claim_port job name port a =
    if is_port port (assigned a job name)
    then (record a { used_numbers = add port a.used_numbers }, ok tt)
    else if contains port a.used_numbers
    then (a, err port_collision)
    else (
      record a {
        used_numbers = add port a.used_numbers;
        existing = put job (put name port (job_ports a job)) a.existing;
      },
      ok tt,
    )

abbrev pub release_number : Option ℤ → PortAllocator → PortAllocator
release_number none a = a
release_number (some prev) a = record a { used_numbers = remove prev a.used_numbers }

unfoldable pub release_assigned_number : String → String → PortAllocator → PortAllocator
unfolding assigned
release_assigned_number job name a = release_number (assigned a job name) a

abbrev pub port_result :
    ℤ → PortAllocator × Result PortError (Unit {0}) → PortAllocator × Result PortError ℤ
port_result port (a, err e) = (a, err e)
port_result port (a, ok _) = (a, ok port)

-- The loop of assignProvisioned, with the number of ports that are left to try.
unfoldable pub find_free :
    ℕ → ℕ → String → String → PortAllocator → PortAllocator × Result PortError ℤ
find_free zero port job name a = (a, err port_range_exhausted)
find_free (suc left) port job name a =
    let rest = find_free left (port + 1) job name a in
    if contains (pos port) a.used_numbers
    then rest
    else port_result (pos port) (claim_port job name (pos port) a)

abbrev pub is_lower : ℕ → Bool
is_lower c = leb b'a' c && leb c b'z'

unfoldable pub all_key_chars : String → Bool
all_key_chars String.[] = true
all_key_chars (String.◌∷◌ c s) =
    (is_lower (code c) || ((leb b'0' (code c) && leb (code c) b'9') || nat_beq (code c) b'_'))
    && all_key_chars s

-- `^[a-z][a-z0-9_]*$`
unfoldable pub matches_port_key : String → Bool
unfolding all_key_chars
matches_port_key String.[] = false
matches_port_key (String.◌∷◌ c s) = is_lower (code c) && all_key_chars s

unfoldable pub valid_port_key : String → Bool
unfolding matches_port_key trim_space
valid_port_key name = matches_port_key (trim_space name)

unfoldable pub search_pool : String → String → PortAllocator → PortAllocator × Result PortError ℤ
search_pool job name a = find_free (a.range.max + 1 - a.range.min) a.range.min job name a

-- assignProvisioned, on the number that is stored for the port.
unfoldable pub provision_from :
    String → String → PortAllocator → Option ℤ → PortAllocator × Result PortError ℤ
provision_from job name a none = search_pool job name a
provision_from job name a (some prev) =
    if in_range a.range prev
    then (record a { used_numbers = add prev a.used_numbers }, ok prev)
    else search_pool job name (release_assigned_number job name a)

unfoldable pub assign_provisioned :
    String → String → PortAllocator → PortAllocator × Result PortError ℤ
assign_provisioned job name a =
    if valid_port_key name
    then provision_from job name a (assigned a job name)
    else (a, err port_key_format)

abbrev pub release_other : ℤ → Option ℤ → PortAllocator → PortAllocator
release_other port none a = a
release_other port (some prev) a =
    if prev == port then a else record a { used_numbers = remove prev a.used_numbers }

unfoldable pub assign_fixed :
    String → String → ℤ → PortAllocator → PortAllocator × Result PortError ℤ
assign_fixed job name port a =
    if valid_port_key name
    then port_result port (claim_port job name port (release_other port (assigned a job name) a))
    else (a, err port_key_format)

-- ManifestPortBinding: none is the manifest's `{}`.
abbrev pub ManifestPortBinding : Type 0
ManifestPortBinding = Option ℤ

unfoldable pub resolve :
    String → String → ManifestPortBinding → PortAllocator → PortAllocator × Result PortError ℤ
resolve job name none a = assign_provisioned job name a
resolve job name (some fixed) a = assign_fixed job name fixed a

-- One round of the loop of releaseRemoved.
abbrev pub drop_port : String → String → ℤ → PortAllocator → PortAllocator
drop_port job name port a = record a {
  used_numbers = remove port a.used_numbers;
  existing = put job (delete name (job_ports a job)) a.existing;
}

unfoldable pub drop_ports : String → List String → Map String ℤ → PortAllocator → PortAllocator
unfolding job_ports
drop_ports job keep [] a = a
drop_ports job keep ((name, port) ∷ prev) a =
    drop_ports job keep prev (if contains name keep then a else drop_port job name port a)

unfoldable pub release_removed : String → List String → PortAllocator → PortAllocator
unfolding drop_ports
release_removed job keep a = drop_ports job keep (job_ports a job) a
