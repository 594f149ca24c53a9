-- ===== src/Versions/Tests.antt =====
-- Versions around a release, and a constraint with both bounds.
use maand.Text.Search.{cut}
use maand.Text.{trim_space, trim_prefix, equal_fold}
use maand.Prelude.{
  put, add, lookup, String, true, none, some, [], ◌∷◌, ◌≡◌, refl, pos, ◌↔◌, Result, ok, err,
  if◌then◌else◌, ◌==◌, comparable_String, contains, All,
}
use maand.Versions.Parse.{parse_version}
use maand.Versions.Demands.{DemandManifest, validate_job_command_demands}
use maand.Versions.Checked.{Fulfilled}
use maand.Versions.Validated.{validate_job_command_demands-Fulfilled}
use maand.Versions.{
  Version, DemandError, invalid_job_version, compare_versions, compare_prereleases,
  VersionConstraint, invalid_job_command_configuration, parse_version_constraint, satisfies,
  read_bound,
}
use maand.Versions.Compare.{at_most, compare_versions_orders, negate}
use maand.Versions.Constraint.{parse_version_constraint_satisfiable}

abbrev candidate : Version
candidate = record { major = 1; minor = 2; patch = 0; prerelease = "rc2" }

abbrev release : Version
release = record { major = 1; minor = 2; patch = 0; prerelease = "" }

abbrev next : Version
next = record { major = 2; minor = 0; patch = 0; prerelease = "" }

compare_versions_orders_example :
    ((compare_versions candidate release ≡ pos 0) ↔ (candidate ≡ release))
    × (compare_versions release candidate ≡ negate (compare_versions candidate release))
    × (at_most candidate release ≡ true
        → at_most release next ≡ true
        → at_most candidate next ≡ true)
compare_versions_orders_example = compare_versions_orders candidate release next

candidate_first : at_most candidate release ≡ true
unfolding compare_versions compare_prereleases
candidate_first = refl

release_first : at_most release next ≡ true
unfolding compare_versions compare_prereleases
release_first = refl

abbrev bounds : VersionConstraint
bounds = record { min = some candidate; max = some next }

parses : parse_version_constraint (some (ok candidate)) (some (ok next)) ≡ ok bounds
unfolding parse_version_constraint compare_prereleases
parses = refl

crossed :
    parse_version_constraint (some (ok next)) (some (ok candidate))
    ≡ err invalid_job_command_configuration
unfolding parse_version_constraint compare_prereleases
crossed = refl

parse_version_constraint_satisfiable_example :
    (read_bound (some (ok candidate)) ≡ ok (some candidate))
    × (read_bound (some (ok next)) ≡ ok (some next))
    × ((v : Version) × (satisfies bounds v ≡ ok tt))
parse_version_constraint_satisfiable_example =
    parse_version_constraint_satisfiable (some (ok candidate)) (some (ok next)) bounds parses

candidate-satisfies : satisfies bounds candidate ≡ ok tt
unfolding satisfies compare_versions compare_prereleases
candidate-satisfies = refl

next-satisfies : satisfies bounds next ≡ ok tt
unfolding satisfies compare_versions compare_prereleases
next-satisfies = refl

parsed_versions :
    (parse_version " v1.2 " ≡ ok (record { major = 1; minor = 2; patch = 0; prerelease = "" }))
    × (parse_version "1.2.0-rc2" ≡ ok candidate)
    × (parse_version "1..2" ≡ err invalid_job_version)
    × (parse_version "1.2.3.4" ≡ err invalid_job_version)
    × (parse_version "Unknown" ≡ err invalid_job_version)
    × (parse_version "9223372036854775808" ≡ err invalid_job_version)
unfolding parse_version trim_space equal_fold cut trim_prefix
parsed_versions = (refl, refl, refl, refl, refl, refl)

-- A sign is accepted in front of a segment.
signed : parse_version "+1" ≡ ok (record { major = 1; minor = 0; patch = 0; prerelease = "" })
unfolding parse_version trim_space equal_fold cut trim_prefix
signed = refl

-- A job that needs another one's command in a version of at least 1.2.0.
abbrev manifest_of : String → Result DemandError DemandManifest
manifest_of name =
    if name == "db"
    then ok (record {
      version = "2.0.0";
      commands =
          record {
            name = "migrate";
            demand_job = "";
            demand_command = "";
            min_version = none;
            max_version = none;
          }
          ∷ [];
    })
    else ok (record {
      version = "1.0.0";
      commands =
          record {
            name = "start";
            demand_job = "db";
            demand_command = "migrate";
            min_version = some (ok release);
            max_version = none;
          }
          ∷ [];
    })

accepts : validate_job_command_demands manifest_of ("web" ∷ "db" ∷ []) ≡ ok tt
unfolding validate_job_command_demands trim_space lookup put parse_version equal_fold cut
    trim_prefix contains add parse_version_constraint satisfies
accepts = refl

validate_job_command_demands-Fulfilled_example :
    (m : DemandManifest) × (manifest_of "web" ≡ ok m)
    × All (Fulfilled manifest_of ("web" ∷ "db" ∷ []) "web") m.commands
validate_job_command_demands-Fulfilled_example =
    validate_job_command_demands-Fulfilled manifest_of ("web" ∷ "db" ∷ []) "web" accepts
      (unfold contains in refl)
