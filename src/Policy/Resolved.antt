-- ===== src/Policy/Resolved.antt =====
-- What resolveUpdateAction of deploy/rollout_policy.go decides.
use maand.Prelude.{
  String, Bool, false, not, ◌&&◌, List, [], ◌∷◌, ◌≡◌, refl, ap, ◌∙◌, arith, comparable_String,
  if◌then◌else◌, contains, Distinct, lookup, keys,
}
use maand.Utils.{none_of}
use maand.Glob.{matches_some, match_any}
use maand.Glob.Found.{match_any-matches}
use maand.Policy.{
  restart_policy_reload, FileManifest, diff_file_manifests, rollout_action_restart,
  rollout_action_reload, restart_if_matched, reload_action, resolve_update_action,
}
use maand.Policy.Changed.{differs, contains-diff_file_manifests}

-- Whether a path differs between the manifests and matches a glob.
abbrev pub forces_restart : List String → FileManifest → FileManifest → String → Bool
forces_restart globs previous current x =
    differs (lookup x previous) (lookup x current) && matches_some globs x

abbrev pub by_paths : List String → String
by_paths paths = if none_of paths then rollout_action_reload else rollout_action_restart

restart_if_matched_lem :
    (paths : List String)
    → ((restart_if_matched paths).0 ≡ by_paths paths) × ((restart_if_matched paths).1 ≡ paths)
restart_if_matched_lem [] = (refl, refl)
restart_if_matched_lem (path ∷ paths) = (refl, refl)

matched_paths :
    (globs : List String) (previous current : FileManifest) (x : String)
    → Distinct (keys current)
    → contains x (match_any globs (diff_file_manifests previous current))
      ≡ forces_restart globs previous current x
matched_paths globs previous current x d =
    (match_any-matches globs (diff_file_manifests previous current)).1 x
    ∙ ap (λ b. b && matches_some globs x) (contains-diff_file_manifests x previous current d)

-- Under the policy reload, where the update is not only of the version and there are manifests to
-- compare: the action is a restart if some path that differs between the manifests matches a glob, and a
-- reload if none does, and the paths that are reported are exactly those, each once.
pub resolve_update_action-reload :
    (globs : List String) (previous current : FileManifest)
    (hash_changed version_only legacy : Bool)
    → Distinct (keys current)
    → (version_only && not hash_changed) ≡ false
    → (legacy && hash_changed) ≡ false
    → let (action, paths) =
        resolve_update_action false restart_policy_reload globs previous current hash_changed
          version_only legacy in
      (action ≡ by_paths paths)
      × Distinct paths
      × ((x : String) → contains x paths ≡ forces_restart globs previous current x)
unfolding resolve_update_action reload_action
resolve_update_action-reload [] previous current hash_changed version_only legacy d v l =
    rw v (rw l (refl, tt, λ x. unfold contains matches_some in ground arith))
resolve_update_action-reload (g ∷ globs) previous current hash_changed version_only legacy d v l =
    let paths = match_any (g ∷ globs) (diff_file_manifests previous current) in
    let t = restart_if_matched_lem paths in
    rw v (
      rw l (
        rw (t.0, t.1)
          (
            refl,
            (match_any-matches (g ∷ globs) (diff_file_manifests previous current)).0,
            λ x. matched_paths (g ∷ globs) previous current x d,
          )))
