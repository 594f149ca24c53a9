-- ===== src/Versions/Checked.antt =====
-- What the checks of one command in build/validate_demands.go let through.
use maand.Prelude.{
  String, Bool, true, false, not, Option, none, some, List, [], ◌∷◌, ◌≡◌, ◌⊎◌, refl, sym, ap, ◌∙◌,
  arith, ◌==◌, ==_iff, comparable_String, if◌then◌else◌, contains, Map, lookup, Result, ok, err,
  bind-ok, Bool-cases, inl, inr, All,
}
use maand.Text.{is_empty, trim_space}
use maand.Versions.{
  Version, DemandError, invalid_job_version, invalid_job_command_demand, VersionConstraint,
  parse_version_constraint, satisfies,
}
use maand.Versions.Parse.{parse_version}
use maand.Versions.Demands.{
  JobCommand, DemandManifest, JobCatalog, validate_demand_reference, resolve_job_version,
  command_set, manifest_or_empty, version_or_zero, names_or_none, is_unbounded, check_demanded,
  check_command, check_commands, check_jobs,
}
use maand.Versions.Loaded.{Entries, Versioned}

-- The version of the demanded job, where the demand has bounds.
abbrev pub Within : VersionConstraint → DemandManifest → Type 0
Within k m =
    (is_unbounded k ≡ true)
    ⊎ ((v : Version) × (parse_version (trim_space m.version) ≡ ok v) × (satisfies k v ≡ ok tt))

module _ (get_job_manifest : String → Result DemandError DemandManifest) (names : List String) where
  pub data Fulfilled (job : String) (c : JobCommand) : Type 0 where
    nothing :
        is_empty (trim_space c.demand_job) ≡ true
        → is_empty (trim_space c.demand_command) ≡ true
        → Fulfilled job c
    demand :
        (m : DemandManifest) (k : VersionConstraint)
        → trim_space c.demand_job == job ≡ false
        → contains (trim_space c.demand_job) names ≡ true
        → get_job_manifest (trim_space c.demand_job) ≡ ok m
        → contains (trim_space c.demand_command) (command_set [] m.commands) ≡ true
        → parse_version_constraint c.min_version c.max_version ≡ ok k
        → Within k m
        → Fulfilled job c

-- The loops of ValidateJobCommandDemands.
pub checked-commands :
    (cat : JobCatalog) (job : String) (commands : List JobCommand)
    → check_commands cat job commands ≡ ok tt
    → All (λ c. check_command cat job c ≡ ok tt) commands
unfolding check_commands
checked-commands cat job [] h = tt
checked-commands cat job (c ∷ commands) h =
    let (_, first, rest) =
      bind-ok (check_command cat job c) (λ _. check_commands cat job commands) tt h in
    (first, checked-commands cat job commands rest)

pub checked-jobs :
    (cat : JobCatalog) (jobs : List String) (j : String)
    → contains j jobs ≡ true
    → check_jobs cat jobs ≡ ok tt
    → check_commands cat j (manifest_or_empty (lookup j cat.manifests)).commands ≡ ok tt
unfolding check_jobs contains
checked-jobs cat [] j there h = absurd (cc)
checked-jobs cat (job ∷ jobs) j there h =
    let (_, first, rest) =
      bind-ok (check_commands cat job (manifest_or_empty (lookup job cat.manifests)).commands)
        (λ _. check_jobs cat jobs) tt h in
    elim (Bool-cases (j == job)) [
      | inl same ↦ let p : j ≡ job = (==_iff j job).0 same in rw p first
      | inr other ↦ checked-jobs cat jobs j (ground (arith, there, other)) rest
    ]

passed :
    {A : Type 0} (b : Bool) (r : Result DemandError A) {a : A}
    → (if not b then err invalid_job_command_demand else r) ≡ ok a
    → (b ≡ true) × (r ≡ ok a)
passed true r h = (refl, h)
passed false r h = absurd (cc)

-- The checks of one command.
checked_reference :
    (job : String) (c : JobCommand)
    → validate_demand_reference job c ≡ ok tt
    → ((is_empty (trim_space c.demand_job) ≡ true)
        × (is_empty (trim_space c.demand_command) ≡ true))
      ⊎ ((is_empty (trim_space c.demand_job) ≡ false) × (trim_space c.demand_job == job ≡ false))
unfolding validate_demand_reference
checked_reference job c h = elim (Bool-cases (is_empty (trim_space c.demand_job))) [
  | inl no_job ↦ inl (no_job, ground (arith, h, no_job))
  | inr some_job ↦ inr (some_job, ground (arith, h, some_job))
]

resolve_job_version-parsed :
    (manifests : Map String DemandManifest) (job : String) (m : DemandManifest)
    → is_empty (trim_space m.version) ≡ false
    → resolve_job_version manifests job m ≡ parse_version (trim_space m.version)
unfolding resolve_job_version
resolve_job_version-parsed manifests job m declared = rw declared refl

checked_bounds :
    (cat : JobCatalog) (job : String) (m : DemandManifest) (k : VersionConstraint)
    → lookup job cat.manifests ≡ some m
    → Versioned cat job
    → (if is_unbounded k
        then ok tt
        else if is_empty (trim_space m.version)
        then err invalid_job_version
        else satisfies k (version_or_zero (lookup job cat.versions)))
      ≡ ok tt
    → Within k m
checked_bounds cat job m k found (v, resolved, there) h =
    bounds (is_unbounded k) (is_empty (trim_space m.version)) refl refl h
  where
    parsed : is_empty (trim_space m.version) ≡ false → parse_version (trim_space m.version) ≡ ok v
    parsed declared =
        sym (resolve_job_version-parsed cat.manifests job m declared)
        ∙ ap
            (λ (o : Option DemandManifest).
              resolve_job_version cat.manifests job (manifest_or_empty o))
            (sym found)
        ∙ resolved

    bounds :
        (free missing : Bool)
        → is_unbounded k ≡ free
        → is_empty (trim_space m.version) ≡ missing
        → (if free
            then ok tt
            else if missing
            then err invalid_job_version
            else satisfies k (version_or_zero (lookup job cat.versions)))
          ≡ ok tt
        → Within k m
    bounds true missing p q h = inl p
    bounds false true p q h = absurd (cc)
    bounds false false p q h =
        inr (
          v,
          parsed q,
          ap (λ (o : Option Version). satisfies k (version_or_zero o)) (sym there) ∙ h,
        )

module _ (get_job_manifest : String → Result DemandError DemandManifest) (names : List String)
    (cat : JobCatalog) (entries : Entries get_job_manifest names cat)
    (versioned : (j : String) → contains j names ≡ true → Versioned cat j) where
  checked_demand :
      (job : String) (c : JobCommand) (m : DemandManifest)
      → trim_space c.demand_job == job ≡ false
      → lookup (trim_space c.demand_job) cat.manifests ≡ some m
      → check_demanded cat (trim_space c.demand_job) c (some m) ≡ ok tt
      → Fulfilled get_job_manifest names job c
  unfolding check_demanded
  checked_demand job c m other found h =
      let demanded = trim_space c.demand_job in
      let (there, got, commands) = entries demanded m found in
      let is_declared =
        λ (o : Option (List String)). contains (trim_space c.demand_command) (names_or_none o) in
      let (declared, checked) = passed (is_declared (lookup demanded cat.commands)) _ h in
      let (k, parsed, in_bounds) =
        bind-ok (parse_version_constraint c.min_version c.max_version) _ tt checked in
      demand m k other there got (ap is_declared (sym commands) ∙ declared) parsed
        (checked_bounds cat demanded m k found (versioned demanded there) in_bounds)

  not_missing :
      (demanded : String) (c : JobCommand) → ¬ (check_demanded cat demanded c none ≡ ok tt)
  unfolding check_demanded
  not_missing demanded c h = absurd (cc)

  pub checked_command :
      (job : String) (c : JobCommand)
      → check_command cat job c ≡ ok tt
      → Fulfilled get_job_manifest names job c
  unfolding check_command
  checked_command job c h =
      let (_, reference, rest) = bind-ok (validate_demand_reference job c) _ tt h in
      by_reference (checked_reference job c reference) rest
    where
      found :
          (o : Option DemandManifest)
          → lookup (trim_space c.demand_job) cat.manifests ≡ o
          → trim_space c.demand_job == job ≡ false
          → check_demanded cat (trim_space c.demand_job) c o ≡ ok tt
          → Fulfilled get_job_manifest names job c
      found none p other h = absurd (not_missing (trim_space c.demand_job) c h)
      found (some m) p other h = checked_demand job c m other p h

      by_reference :
          (((is_empty (trim_space c.demand_job) ≡ true)
              × (is_empty (trim_space c.demand_command) ≡ true))
            ⊎ ((is_empty (trim_space c.demand_job) ≡ false)
                × (trim_space c.demand_job == job ≡ false)))
          → (if is_empty (trim_space c.demand_job)
              then ok tt
              else check_demanded cat
                  (trim_space c.demand_job)
                  c
                  (lookup (trim_space c.demand_job) cat.manifests))
            ≡ ok tt
          → Fulfilled get_job_manifest names job c
      by_reference (inl (no_job, no_command)) h = nothing no_job no_command
      by_reference (inr (some_job, other)) h =
          found (lookup (trim_space c.demand_job) cat.manifests) refl other
            (sym (rw some_job refl) ∙ h)
