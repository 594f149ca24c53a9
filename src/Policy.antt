-- ===== src/Policy.antt =====
-- workspace/restart_policy.go, data/file_manifest.go and deploy/rollout_policy.go: what an update does to
-- an allocation. A file manifest is a map from paths to hashes.
pub mod Changed
pub mod Resolved
pub mod Valid
mod Tests
use maand.Prelude.{
  String, Bool, true, false, not, ◌&&◌, ◌||◌, Option, none, some, List, [], ◌∷◌, ◌++◌, ◌==◌,
  comparable_String, if◌then◌else◌, contains, add, Map, lookup, Result, ok, err, ◌>>=◌,
}
use maand.Text.{is_empty, text_lt}
use maand.Utils.{none_of}
use maand.Glob.{GlobError, validate_pattern, match_any}

abbrev pub restart_policy_always : String
restart_policy_always = "always"

abbrev pub restart_policy_reload : String
restart_policy_reload = "reload"

abbrev pub restart_policy_never : String
restart_policy_never = "never"

pub data PolicyError : Type 0 where
  unknown_policy globs_without_reload : PolicyError
  invalid_glob : GlobError → PolicyError

-- The fields of a manifest that the policy is in.
pub record PolicyManifest : Type 0 where
  pub restart_policy : String
  pub restart_globs : List String

abbrev pub is_policy : String → Bool
is_policy raw =
    raw == restart_policy_always || raw == restart_policy_reload || raw == restart_policy_never

unfoldable pub normalize_restart_policy : String → Result PolicyError String
normalize_restart_policy raw =
    if is_empty raw
    then ok restart_policy_always
    else if is_policy raw
    then ok raw
    else err unknown_policy

abbrev pub or_always : Result PolicyError String → String
or_always (err e) = restart_policy_always
or_always (ok policy) = policy

-- EffectiveRestartPolicy
unfoldable pub effective_restart_policy : PolicyManifest → String
unfolding normalize_restart_policy
effective_restart_policy m = or_always (normalize_restart_policy m.restart_policy)

abbrev pub glob_checked : Result GlobError (Unit {0}) → Result PolicyError (Unit {0})
glob_checked (err e) = err (invalid_glob e)
glob_checked (ok _) = ok tt

-- The loop of ValidateRestartGlobs.
unfoldable pub validate_globs : List String → Result PolicyError (Unit {0})
validate_globs [] = ok tt
validate_globs (pattern ∷ patterns) =
    let rest = validate_globs patterns in glob_checked (validate_pattern pattern) >>= λ _. rest

unfoldable pub validate_restart_globs : PolicyManifest → Result PolicyError (Unit {0})
unfolding normalize_restart_policy validate_globs
validate_restart_globs m =
    if none_of m.restart_globs
    then ok tt
    else normalize_restart_policy m.restart_policy >>= λ policy.
        if policy == restart_policy_reload
        then validate_globs m.restart_globs
        else err globs_without_reload

unfoldable pub validate_restart_policy : PolicyManifest → Result PolicyError (Unit {0})
unfolding validate_restart_globs
validate_restart_policy m =
    normalize_restart_policy m.restart_policy >>= λ _. validate_restart_globs m

abbrev pub FileManifest : Type 0
FileManifest = Map String String

abbrev pub has_hash : String → Option String → Bool
has_hash hash none = false
has_hash hash (some previous) = previous == hash

-- The loop of DiffFileManifests over the current files.
unfoldable pub changed_files : FileManifest → FileManifest → List String
changed_files previous [] = []
changed_files previous ((path, hash) ∷ current) =
    let rest = changed_files previous current in
    if has_hash hash (lookup path previous) then rest else path ∷ rest

abbrev pub is_file : Option String → Bool
is_file none = false
is_file (some hash) = true

-- The loop over the previous files.
unfoldable pub deleted_files : FileManifest → List String → FileManifest → List String
deleted_files current seen [] = []
deleted_files current seen ((path, hash) ∷ previous) =
    let rest = deleted_files current seen previous in
    if not (is_file (lookup path current)) && not (contains path seen) then path ∷ rest else rest

unfoldable pub insert_text : String → List String → List String
unfolding text_lt
insert_text x [] = x ∷ []
insert_text x (y ∷ ys) = let rest = insert_text x ys in if text_lt y x then y ∷ rest else x ∷ y ∷ ys

-- sort.Strings
unfoldable pub sort_texts : List String → List String
unfolding insert_text
sort_texts [] = []
sort_texts (x ∷ xs) = insert_text x (sort_texts xs)

unfoldable pub diff_file_manifests : FileManifest → FileManifest → List String
unfolding changed_files deleted_files sort_texts
diff_file_manifests previous current =
    let changed = changed_files previous current in
    sort_texts (changed ++ deleted_files current changed previous)

abbrev pub rollout_action_sync : String
rollout_action_sync = "sync"

abbrev pub rollout_action_restart : String
rollout_action_restart = "restart"

abbrev pub rollout_action_reload : String
rollout_action_reload = "reload"

-- `len(matched) > 0`
abbrev pub restart_if_matched : List String → String × List String
restart_if_matched [] = (rollout_action_reload, [])
restart_if_matched (path ∷ paths) = (rollout_action_restart, path ∷ paths)

-- The case of RestartPolicyReload.
unfoldable pub reload_action :
    List String → FileManifest → FileManifest → Bool → Bool → Bool → String × List String
unfolding diff_file_manifests
reload_action globs previous current hash_changed version_only legacy =
    if version_only && not hash_changed
    then (rollout_action_reload, [])
    else if legacy && hash_changed
    then (rollout_action_reload, [])
    else if none_of globs
    then (rollout_action_reload, [])
    else restart_if_matched (match_any globs (diff_file_manifests previous current))

unfoldable pub resolve_update_action :
    Bool
    → String
    → List String
    → FileManifest
    → FileManifest
    → Bool
    → Bool
    → Bool
    → String × List String
unfolding reload_action
resolve_update_action sync_only policy globs previous current hash_changed version_only legacy =
    if sync_only
    then (rollout_action_sync, [])
    else if policy == restart_policy_never
    then (rollout_action_sync, [])
    else if policy == restart_policy_always
    then (rollout_action_restart, [])
    else if policy == restart_policy_reload
    then reload_action globs previous current hash_changed version_only legacy
    else (rollout_action_restart, [])

unfoldable pub effective_update_action : Bool → String → String
unfolding resolve_update_action
effective_update_action sync_only policy =
    (resolve_update_action sync_only policy [] [] [] true false false).0
