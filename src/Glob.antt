-- ===== src/Glob.antt =====
-- utils/pathmatch/glob.go: patterns of paths relative to a job. filepath.ToSlash changes nothing where
-- the separator is a slash.
pub mod Found
use maand.Prelude.{
  ◌+◌, String, Bool, true, false, not, ◌&&◌, ◌||◌, Option, none, some, List, [], ◌∷◌, ◌==◌,
  comparable_String, if◌then◌else◌, contains, add, Result, ok, err,
}
use maand.Text.{is_empty, trim_space, concat_text, length_text, drop_text, has_prefix, trim_prefix}
use maand.Text.Search.{contains_text, cut, has_suffix, trim_suffix}
use maand.Text.Paths.{base, path_match}
use maand.Utils.{none_of}

pub data GlobError : Type 0 where
  empty_pattern invalid_pattern : GlobError

-- `matched, _ := path.Match(pattern, name)`
abbrev pub or_false : Option Bool → Bool
or_false none = false
or_false (some b) = b

abbrev pub matched : String → String → Bool
matched pattern name = or_false (path_match pattern name)

abbrev pub checked : Option Bool → Result GlobError (Unit {0})
checked none = err invalid_pattern
checked (some b) = ok tt

abbrev pub probe : String → Result GlobError (Unit {0})
probe pattern = checked (path_match pattern "probe")

-- The part of `dir/name` behind its first slash.
abbrev pub behind_slash : Option (String × String) → String → String
behind_slash none suffix = suffix
behind_slash (some (dir, name)) suffix = name

unfoldable pub probe_double_star : String → Result GlobError (Unit {0})
probe_double_star pattern =
    if has_prefix pattern "**/"
    then probe (behind_slash (cut (trim_prefix pattern "**/") "/") (trim_prefix pattern "**/"))
    else ok tt

unfoldable pub validate_pattern : String → Result GlobError (Unit {0})
unfolding probe_double_star
validate_pattern raw =
    let pattern = trim_space raw in
    if is_empty pattern
    then err empty_pattern
    else if contains_text pattern "**"
    then probe_double_star pattern
    else probe pattern

unfoldable pub is_literal_pattern : String → Bool
is_literal_pattern pattern =
    not (contains_text pattern "*" || contains_text pattern "?" || contains_text pattern "[")

-- `rel == dir || strings.HasPrefix(rel, dir+"/")`
abbrev pub is_under : String → String → Bool
is_under dir rel = rel == dir || has_prefix rel (concat_text dir "/")

-- The branch of a pattern `**/…`, by its first slash.
abbrev pub match_behind : Option (String × String) → String → String → Bool
match_behind none suffix rel = matched suffix (base rel) || matched suffix rel
match_behind (some (dir, name)) suffix rel =
    has_prefix rel (concat_text dir "/") && matched name (drop_text (length_text dir + 1) rel)

-- The branch of a pattern with `**` inside, which must be there once.
abbrev pub match_around : Option (String × String) → String → Bool
match_around none rel = false
match_around (some (prefix, suffix)) rel =
    let rest = trim_prefix (trim_prefix rel prefix) "/" in
    let name = trim_prefix suffix "/" in
    if contains_text suffix "**"
    then false
    else if not (is_empty prefix) && not (has_prefix rel prefix)
    then false
    else if is_empty suffix || is_empty name
    then true
    else matched name rest || matched name (base rest)

unfoldable pub match_double_star_pattern : String → String → Bool
match_double_star_pattern pattern rel =
    if has_prefix pattern "**/"
    then match_behind (cut (trim_prefix pattern "**/") "/") (trim_prefix pattern "**/") rel
    else if has_suffix pattern "/**"
    then is_under (trim_suffix pattern "/**") rel
    else match_around (cut pattern "**") rel

-- The branch of a pattern with a slash and without `**`.
abbrev pub match_path : String → String → Bool
match_path pattern rel =
    let dir = trim_suffix pattern "/" in
    if matched pattern rel then true else if dir == pattern then false else is_under dir rel

unfoldable pub match_pattern : String → String → Bool
unfolding is_literal_pattern match_double_star_pattern
match_pattern raw path =
    let pattern = trim_space raw in
    let rel = trim_prefix path "/" in
    if is_empty pattern
    then false
    else if is_literal_pattern pattern && (pattern == rel || pattern == base rel)
    then true
    else if contains_text pattern "**"
    then match_double_star_pattern pattern rel
    else if contains_text pattern "/"
    then match_path pattern rel
    else matched pattern (base rel) || matched pattern rel

-- The inner loop of MatchAny.
unfoldable pub matches_some : List String → String → Bool
unfolding match_pattern
matches_some [] rel = false
matches_some (pattern ∷ patterns) rel = match_pattern pattern rel || matches_some patterns rel

-- The outer loop of MatchAny, with the paths seen.
unfoldable pub match_rels : List String → List String → List String → List String
unfolding matches_some
match_rels patterns seen [] = []
match_rels patterns seen (rel ∷ rels) =
    if matches_some patterns rel && not (contains rel seen)
    then rel ∷ match_rels patterns (add rel seen) rels
    else match_rels patterns seen rels

unfoldable pub match_any : List String → List String → List String
unfolding match_rels
match_any patterns rels =
    if none_of patterns || none_of rels then [] else match_rels patterns [] rels
