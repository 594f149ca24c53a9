-- ===== src/Versions/Demands.antt =====
-- build/validate_demands.go with ValidateDemandReference of workspace/demands.go: the demands of all
-- commands of a workspace. Reading a manifest from the workspace is a parameter. A command comes with what
-- parseConfigVersion makes of its bounds; ListedCommands ranges over a Go map, here in the order of a list.
use maand.Prelude.{
  String, Bool, true, false, not, ◌&&◌, ◌||◌, Option, none, some, List, [], ◌∷◌, ◌==◌,
  comparable_String, if◌then◌else◌, contains, add, Map, lookup, put, Result, ok, err, ◌>>=◌,
}
use maand.Text.{is_empty, trim_space}
use maand.Policy.{sort_texts}
use maand.Versions.{
  Version, DemandError, invalid_job_version, invalid_job_command_configuration,
  invalid_job_command_demand, VersionConstraint, parse_version_constraint, satisfies,
}
use maand.Versions.Parse.{parse_version}

-- The fields of commands and manifests that the check reads.
pub record JobCommand : Type 0 where
  pub name : String
  pub demand_job : String
  pub demand_command : String
  pub min_version : Option (Result DemandError Version)
  pub max_version : Option (Result DemandError Version)

pub record DemandManifest : Type 0 where
  pub version : String
  pub commands : List JobCommand

pub record JobCatalog : Type 0 where
  pub manifests : Map String DemandManifest
  pub versions : Map String Version
  pub commands : Map String (List String)

unfoldable pub validate_demand_reference : String → JobCommand → Result DemandError (Unit {0})
validate_demand_reference job command =
    let demand_job = trim_space command.demand_job in
    let demand_command = trim_space command.demand_command in
    if is_empty demand_job && is_empty demand_command
    then ok tt
    else if is_empty demand_job || is_empty demand_command
    then err invalid_job_command_demand
    else if demand_job == job
    then err invalid_job_command_configuration
    else ok tt

unfoldable pub some_demand : (String → Bool) → List JobCommand → Bool
some_demand test [] = false
some_demand test (c ∷ commands) = test (trim_space c.demand_job) || some_demand test commands

unfoldable pub requires_explicit_version : DemandManifest → Bool
unfolding some_demand
requires_explicit_version m = some_demand (λ job. not (is_empty job)) m.commands

unfoldable pub is_demand_target : String → Map String DemandManifest → Bool
unfolding some_demand
is_demand_target job [] = false
is_demand_target job ((name, m) ∷ manifests) =
    some_demand (λ demanded. demanded == job) m.commands || is_demand_target job manifests

abbrev pub zero_version : Version
zero_version = record { major = 0; minor = 0; patch = 0; prerelease = "" }

unfoldable pub resolve_job_version :
    Map String DemandManifest → String → DemandManifest → Result DemandError Version
unfolding requires_explicit_version is_demand_target
resolve_job_version manifests job m =
    let raw = trim_space m.version in
    if is_empty raw
    then (if requires_explicit_version m || is_demand_target job manifests
        then err invalid_job_version
        else ok zero_version)
    else parse_version raw

unfoldable pub command_set : List String → List JobCommand → List String
command_set names [] = names
command_set names (c ∷ commands) = command_set (add c.name names) commands

-- A missing entry of a Go map: an empty manifest, the version 0.0.0, no commands.
abbrev pub manifest_or_empty : Option DemandManifest → DemandManifest
manifest_or_empty none = record { version = ""; commands = [] }
manifest_or_empty (some m) = m

abbrev pub version_or_zero : Option Version → Version
version_or_zero none = zero_version
version_or_zero (some v) = v

abbrev pub names_or_none : Option (List String) → List String
names_or_none none = []
names_or_none (some names) = names

abbrev pub is_unbounded : VersionConstraint → Bool
is_unbounded c = elim c.min [
  | some lo ↦ false
  | none ↦ elim c.max [ none ↦ true | some hi ↦ false ]
]

-- The part of the loop over the commands behind the look-up of the demanded manifest.
unfoldable pub check_demanded :
    JobCatalog → String → JobCommand → Option DemandManifest → Result DemandError (Unit {0})
check_demanded cat demand_job c none = err invalid_job_command_demand
check_demanded cat demand_job c (some m) =
    if not (contains (trim_space c.demand_command) (names_or_none (lookup demand_job cat.commands)))
    then err invalid_job_command_demand
    else parse_version_constraint c.min_version c.max_version >>= λ constraint.
        if is_unbounded constraint
        then ok tt
        else if is_empty (trim_space m.version)
        then err invalid_job_version
        else satisfies constraint (version_or_zero (lookup demand_job cat.versions))

-- The body of the loop over the commands.
unfoldable pub check_command : JobCatalog → String → JobCommand → Result DemandError (Unit {0})
unfolding validate_demand_reference check_demanded
check_command cat job c =
    let demand_job = trim_space c.demand_job in
    validate_demand_reference job c >>= λ _.
    if is_empty demand_job
    then ok tt
    else check_demanded cat demand_job c (lookup demand_job cat.manifests)

unfoldable pub check_commands :
    JobCatalog → String → List JobCommand → Result DemandError (Unit {0})
unfolding check_command
check_commands cat job [] = ok tt
check_commands cat job (c ∷ commands) =
    let rest = check_commands cat job commands in check_command cat job c >>= λ _. rest

unfoldable pub check_jobs : JobCatalog → List String → Result DemandError (Unit {0})
unfolding check_commands
check_jobs cat [] = ok tt
check_jobs cat (job ∷ jobs) =
    let rest = check_jobs cat jobs in
    check_commands cat job (manifest_or_empty (lookup job cat.manifests)).commands >>= λ _. rest

abbrev pub empty_catalog : JobCatalog
empty_catalog = record { manifests = []; versions = []; commands = [] }

abbrev pub with_manifest : String → DemandManifest → JobCatalog → JobCatalog
with_manifest name m cat = record cat {
  manifests = put name m cat.manifests;
  commands = put name (command_set [] m.commands) cat.commands;
}

abbrev pub with_version : String → Version → JobCatalog → JobCatalog
with_version name v cat = record cat { versions = put name v cat.versions }

-- The second loop of loadJobCatalog.
unfoldable pub load_versions : JobCatalog → List String → Result DemandError JobCatalog
unfolding resolve_job_version
load_versions cat [] = ok cat
load_versions cat (name ∷ names) =
    resolve_job_version cat.manifests name (manifest_or_empty (lookup name cat.manifests)) >>= λ v.
    load_versions (with_version name v cat) names

module _ (get_job_manifest : String → Result DemandError DemandManifest) where
  -- The first loop of loadJobCatalog.
  unfoldable pub load_manifests : JobCatalog → List String → Result DemandError JobCatalog
  unfolding command_set
  load_manifests cat [] = ok cat
  load_manifests cat (name ∷ names) =
      get_job_manifest name >>= λ m. load_manifests (with_manifest name m cat) names

  unfoldable pub load_job_catalog : List String → Result DemandError JobCatalog
  unfolding load_manifests load_versions
  load_job_catalog names = load_manifests empty_catalog names >>= λ cat. load_versions cat names

  unfoldable pub validate_job_command_demands : List String → Result DemandError (Unit {0})
  unfolding load_job_catalog check_jobs sort_texts
  validate_job_command_demands job_names =
      load_job_catalog (sort_texts job_names) >>= λ cat. check_jobs cat (sort_texts job_names)
