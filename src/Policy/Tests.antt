-- ===== src/Policy/Tests.antt =====
-- A changed program and a changed configuration of one job.
use maand.Text.Paths.{base, path_match}
use maand.Text.Search.{trim_suffix, contains_text, cut, has_suffix}
use maand.Prelude.{
  add, String, true, false, ◌&&◌, ◌||◌, List, [], ◌∷◌, ◌≡◌, refl, ◌==◌, comparable_String, contains,
  Distinct, keys, lookup, ok,
}
use maand.Text.{has_prefix, concat_text, trim_prefix, is_empty, trim_space}
use maand.Utils.{none_of}
use maand.Glob.{validate_pattern, match_pattern, match_any}
use maand.Policy.{
  restart_policy_reload, PolicyManifest, validate_restart_policy, FileManifest,
  resolve_update_action,
}
use maand.Policy.Resolved.{forces_restart, by_paths, resolve_update_action-reload}
use maand.Policy.Valid.{accepted, all_valid, accepted-validate_restart_policy}

abbrev before : FileManifest
before = ("bin/app", "1") ∷ ("app.toml", "2") ∷ []

abbrev after : FileManifest
after = ("app.toml", "2") ∷ ("bin/app", "3") ∷ ("bin/tool", "4") ∷ []

abbrev globs : List String
globs = "bin/**" ∷ "*.go" ∷ []

keys-Distinct : Distinct (keys after)
unfolding keys contains
keys-Distinct = (refl, (refl, (refl, tt)))

restarts :
    resolve_update_action false restart_policy_reload globs before after true false false
    ≡ ("restart", "bin/app" ∷ "bin/tool" ∷ [])
unfolding resolve_update_action match_any lookup trim_space contains_text has_prefix has_suffix
    trim_prefix trim_suffix concat_text contains add
restarts = refl

resolve_update_action-reload_example :
    let (action, paths) =
      resolve_update_action false restart_policy_reload globs before after true false false in
    (action ≡ by_paths paths)
    × Distinct paths
    × ((x : String) → contains x paths ≡ forces_restart globs before after x)
resolve_update_action-reload_example =
    resolve_update_action-reload globs before after true false false keys-Distinct refl refl

matches :
    (match_pattern "*.toml" "conf/app.toml" ≡ true)
    × (match_pattern "conf/*.toml" "conf/app.toml" ≡ true)
    × (match_pattern "conf/[!a-z]*" "conf/app" ≡ true)
    × (match_pattern "**/*.go" "a/b/c.go" ≡ true)
    × (match_pattern "**/lib/*.go" "a/lib/c.go" ≡ false)
    × (match_pattern "bin/**" "binary" ≡ false)
unfolding match_pattern trim_space contains_text has_prefix path_match base trim_prefix cut
    concat_text has_suffix trim_suffix
matches = (refl, refl, refl, refl, refl, refl)

-- A malformed part of a pattern with two stars is not seen.
malformed : (validate_pattern "bin/**[" ≡ ok tt) × (match_pattern "bin/**[" "bin/app" ≡ false)
unfolding validate_pattern match_pattern trim_space contains_text has_prefix has_suffix cut
    trim_prefix path_match
malformed = (refl, refl)

accepted-validate_restart_policy_example :
    let m : PolicyManifest = record { restart_policy = "reload"; restart_globs = globs } in
    accepted (validate_restart_policy m) ≡ (
      (is_empty m.restart_policy
        || (m.restart_policy == "always"
            || m.restart_policy == "reload"
            || m.restart_policy == "never"))
      && (none_of m.restart_globs || (m.restart_policy == "reload" && all_valid m.restart_globs)))
accepted-validate_restart_policy_example =
    accepted-validate_restart_policy (record { restart_policy = "reload"; restart_globs = globs })
