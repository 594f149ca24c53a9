-- ===== src/Versions.antt =====
-- workspace/version.go, workspace/demands.go and build/validate_demands.go: the order of job versions, and
-- the demands of one job's commands on the commands and the version of another job. The numbers of a
-- version are natural numbers, since ParseVersion accepts no others. What parseConfigVersion makes of a
-- bound is a parameter.
pub mod Compare
pub mod Constraint
pub mod Parse
pub mod Demands
pub mod Loaded
pub mod Checked
pub mod Validated
mod Tests
use maand.Prelude.{
  ℕ, String, Bool, true, false, not, ◌&&◌, ◌||◌, Option, none, some, List, [], ◌∷◌, ℤ, pos, negsuc,
  ltb, ltb_ℤ, if◌then◌else◌, Result, ok, err, ◌>>=◌,
}
use maand.Text.{is_empty, text_lt}

pub record Version : Type 0 where
  pub major : ℕ
  pub minor : ℕ
  pub patch : ℕ
  pub prerelease : String

-- The loop of Compare over the pairs, and then the value of `rest`.
unfoldable pub compare_pairs : List (ℕ × ℕ) → ℤ → ℤ
compare_pairs [] rest = rest
compare_pairs ((a, b) ∷ pairs) rest =
    let later = compare_pairs pairs rest in
    if ltb a b then negsuc 0 else if ltb b a then pos 1 else later

-- The switch of Compare on the prereleases.
unfoldable pub compare_prereleases : String → String → ℤ
unfolding text_lt
compare_prereleases p q =
    if not (is_empty p) && is_empty q
    then negsuc 0
    else if is_empty p && not (is_empty q)
    then pos 1
    else if not (is_empty p) && not (is_empty q)
    then (if text_lt p q then negsuc 0 else if text_lt q p then pos 1 else pos 0)
    else pos 0

-- Compare
unfoldable pub compare_versions : Version → Version → ℤ
unfolding compare_pairs
compare_versions v w =
    compare_pairs ((v.major, w.major) ∷ (v.minor, w.minor) ∷ (v.patch, w.patch) ∷ [])
      (compare_prereleases v.prerelease w.prerelease)

pub data DemandError : Type 0 where
  invalid_job_version invalid_job_command_configuration invalid_job_command_demand : DemandError
  below_min_version above_max_version : DemandError

pub record VersionConstraint : Type 0 where
  pub min : Option Version
  pub max : Option Version

-- A bound of the configuration: missing, or the result of parseConfigVersion.
unfoldable pub read_bound :
    Option (Result DemandError Version) → Result DemandError (Option Version)
read_bound none = ok none
read_bound (some (err e)) = err e
read_bound (some (ok v)) = ok (some v)

-- The test `constraint.Min.Compare(*constraint.Max) > 0`
unfoldable pub bounds_crossed : Option Version → Option Version → Bool
unfolding compare_versions
bounds_crossed none max = false
bounds_crossed (some lo) none = false
bounds_crossed (some lo) (some hi) = ltb_ℤ (pos 0) (compare_versions lo hi)

abbrev pub check_bounds : Option Version → Option Version → Result DemandError VersionConstraint
check_bounds lo hi =
    if bounds_crossed lo hi
    then err invalid_job_command_configuration
    else ok (record { min = lo; max = hi })

-- ParseVersionConstraint
unfoldable pub parse_version_constraint :
    Option (Result DemandError Version)
    → Option (Result DemandError Version)
    → Result DemandError VersionConstraint
unfolding read_bound bounds_crossed
parse_version_constraint min_version max_version =
    read_bound min_version >>= λ lo. read_bound max_version >>= λ hi. check_bounds lo hi

unfoldable pub below_min : Option Version → Version → Bool
below_min none upstream = false
below_min (some lo) upstream = ltb_ℤ (compare_versions upstream lo) (pos 0)

unfoldable pub above_max : Option Version → Version → Bool
above_max none upstream = false
above_max (some hi) upstream = ltb_ℤ (pos 0) (compare_versions upstream hi)

-- Satisfies
unfoldable pub satisfies : VersionConstraint → Version → Result DemandError (Unit {0})
unfolding below_min above_max
satisfies c upstream =
    if below_min c.min upstream
    then err below_min_version
    else if above_max c.max upstream
    then err above_max_version
    else ok tt
