-- ===== src/Policy/Valid.antt =====
-- What the validation of workspace/restart_policy.go lets through.
use maand.Prelude.{
  String, Bool, true, false, ◌&&◌, ◌||◌, List, [], ◌∷◌, ◌≡◌, refl, ap, ◌∙◌, arith, ◌==◌,
  comparable_String, if◌then◌else◌, Result, ok, err, ◌>>=◌, Bool-cases, inl, inr,
}
use maand.Text.{is_empty}
use maand.Utils.{none_of}
use maand.Glob.{GlobError, validate_pattern}
use maand.Policy.{
  restart_policy_reload, is_policy, PolicyError, globs_without_reload, PolicyManifest,
  normalize_restart_policy, glob_checked, validate_globs, validate_restart_globs,
  validate_restart_policy,
}

abbrev pub accepted : Result PolicyError (Unit {0}) → Bool
accepted (err e) = false
accepted (ok _) = true

abbrev pub valid : Result GlobError (Unit {0}) → Bool
valid (err e) = false
valid (ok _) = true

unfoldable pub all_valid : List String → Bool
all_valid [] = true
all_valid (pattern ∷ patterns) = valid (validate_pattern pattern) && all_valid patterns

accepted-validate_globs :
    (patterns : List String) → accepted (validate_globs patterns) ≡ all_valid patterns
unfolding validate_globs all_valid
accepted-validate_globs [] = refl
accepted-validate_globs (pattern ∷ patterns) =
    first (validate_pattern pattern)
    ∙ ap (λ b. valid (validate_pattern pattern) && b) (accepted-validate_globs patterns)
  where
    first :
        (r : Result GlobError (Unit {0}))
        → accepted (glob_checked r >>= λ _. validate_globs patterns)
          ≡ (valid r && accepted (validate_globs patterns))
    first (err e) = refl
    first (ok _) = refl

empty_text : (p : String) → is_empty p ≡ true → p ≡ ""
empty_text p h = ground arith

not_reload : (policy : String) → is_empty policy ≡ true → policy == restart_policy_reload ≡ false
not_reload policy h = rw (empty_text policy h) refl

-- A manifest is accepted exactly if its policy is empty, always, reload or never, and it has either
-- no globs or the policy reload and only globs that ValidatePattern accepts.
pub accepted-validate_restart_policy :
    (m : PolicyManifest)
    → accepted (validate_restart_policy m) ≡ (
        (is_empty m.restart_policy
          || (m.restart_policy == "always"
              || m.restart_policy == "reload"
              || m.restart_policy == "never"))
        && (none_of m.restart_globs || (m.restart_policy == "reload" && all_valid m.restart_globs)))
unfolding validate_restart_policy validate_restart_globs normalize_restart_policy
accepted-validate_restart_policy m =
    let policy = m.restart_policy in
    let globs = m.restart_globs in
    elim (Bool-cases (is_empty policy)) [
      | inl empty ↦ rw empty (rw (not_reload policy empty) (no_globs (none_of globs)))
      | inr given ↦ rw given (elim (Bool-cases (is_policy policy)) [
        | inr unknown ↦ rw unknown refl
        | inl known ↦ rw known (with_globs (none_of globs) (policy == restart_policy_reload))
      ])
    ]
  where
    no_globs : (n : Bool) → accepted (if n then ok tt else err globs_without_reload) ≡ (n || false)
    no_globs true = refl
    no_globs false = refl

    with_globs :
        (n r : Bool)
        → accepted (
            if n
            then ok tt
            else if r
            then validate_globs m.restart_globs
            else err globs_without_reload)
          ≡ (n || (r && all_valid m.restart_globs))
    with_globs true r = refl
    with_globs false true = accepted-validate_globs m.restart_globs
    with_globs false false = refl
