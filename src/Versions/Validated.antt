-- ===== src/Versions/Validated.antt =====
-- What a workspace has where ValidateJobCommandDemands of build/validate_demands.go returns no error.
use maand.Prelude.{
  String, true, Option, some, List, [], ◌∷◌, ◌≡◌, sym, ap, ◌∙◌, comparable_String, contains, Map,
  lookup, Result, ok, bind-ok, inl, All,
}
use maand.Policy.{sort_texts}
use maand.Policy.Changed.{contains-sort_texts}
use maand.Versions.{DemandError}
use maand.Versions.Demands.{
  JobCommand, DemandManifest, manifest_or_empty, check_commands, check_jobs, empty_catalog,
  load_manifests, load_versions, load_job_catalog, validate_job_command_demands,
}
use maand.Versions.Loaded.{
  Entries, Versioned, Entries-load_manifests, Listed-load_manifests, load_versions-same,
  Versioned-load_versions,
}
use maand.Versions.Checked.{Fulfilled, checked-commands, checked-jobs, checked_command}

All-fulfilled :
    {P Q : JobCommand → Type 0} (commands : List JobCommand)
    → ((c : JobCommand) → P c → Q c)
    → All P commands
    → All Q commands
All-fulfilled [] f ps = tt
All-fulfilled (c ∷ commands) f (p, ps) = (f c p, All-fulfilled commands f ps)

-- Where ValidateJobCommandDemands returns no error: each job has a manifest in the workspace, and each of its
-- commands demands nothing, or it demands a command that another job among them declares, with bounds that
-- can be read, and where there is a bound that job's version is one that ParseVersion accepts and lies
-- within the bounds.
pub validate_job_command_demands-Fulfilled :
    (get_job_manifest : String → Result DemandError DemandManifest) (names : List String)
    (job : String)
    → validate_job_command_demands get_job_manifest names ≡ ok tt
    → contains job names ≡ true
    → (m : DemandManifest) × (get_job_manifest job ≡ ok m)
      × All (Fulfilled get_job_manifest names job) m.commands
unfolding validate_job_command_demands load_job_catalog
validate_job_command_demands-Fulfilled get_job_manifest names job h there =
    let sorted = sort_texts names in
    let (cat, loaded, checked) =
      bind-ok (load_job_catalog get_job_manifest sorted) (λ cat. check_jobs cat sorted) tt h in
    let (first, manifests, versions) =
      bind-ok (load_manifests get_job_manifest empty_catalog sorted) (λ c. load_versions c sorted)
        cat loaded in
    let same = load_versions-same first cat sorted versions in
    let listed : (j : String) → contains j names ≡ true → contains j sorted ≡ true =
      λ j k. contains-sort_texts j names ∙ k in
    let of_names : (j : String) → contains j sorted ≡ true → contains j names ≡ true =
      λ j k. sym (contains-sort_texts j names) ∙ k in
    let entries =
      Entries-load_manifests get_job_manifest names empty_catalog first sorted of_names
        (λ j m p. absurd (unfold lookup in cc)) manifests in
    let entries' : Entries get_job_manifest names cat = λ j m p.
      let old =
        entries j m (ap (λ (ms : Map String DemandManifest). lookup j ms) (sym (same.0)) ∙ p) in
      (old.0, old.1, ap (λ (cs : Map String (List String)). lookup j cs) (same.1) ∙ old.2) in
    let versioned : (j : String) → contains j names ≡ true → Versioned cat j =
      λ j k. Versioned-load_versions first cat sorted j (inl (listed j k)) versions in
    let (m, found) =
      Listed-load_manifests get_job_manifest names empty_catalog first sorted job (listed job there)
        manifests in
    let found' : lookup job cat.manifests ≡ some m =
      ap (λ (ms : Map String DemandManifest). lookup job ms) (same.0) ∙ found in
    let all = checked-jobs cat sorted job (listed job there) checked in
    (
      m,
      (entries' job m found').1,
      All-fulfilled m.commands
          (λ c. checked_command get_job_manifest names cat entries' versioned job c)
          (checked-commands cat job m.commands (
            ap
              (λ (o : Option DemandManifest). check_commands cat job (manifest_or_empty o).commands)
              (sym found')
            ∙ all)),
    )
