-- ===== src/Text/Search.antt =====
-- More of Go's `strings` package: suffixes, and where a text stands in another.
use Prim.Native.Char.{Char}
use Prim.Native.String.{String, [], ◌∷◌}
use maand.Prelude.{◌-◌, Bool, ◌||◌, Option, none, some, if◌then◌else◌, ◌==◌, comparable_String}
use maand.Text.{length_text, take_text, drop_text, has_prefix}

-- strings.Contains
unfoldable pub contains_text : String → String → Bool
contains_text [] sub = has_prefix [] sub
contains_text (c ∷ s) sub = has_prefix (c ∷ s) sub || contains_text s sub

abbrev pub with_first : Char → Option (String × String) → Option (String × String)
with_first c none = none
with_first c (some (before, after)) = some (c ∷ before, after)

-- What stands before and after the first occurrence of a text.
unfoldable pub cut : String → String → Option (String × String)
unfolding length_text drop_text
cut [] sep = none
cut (c ∷ s) sep =
    let rest = cut s sep in
    if has_prefix (c ∷ s) sep
    then some ("", drop_text (length_text sep) (c ∷ s))
    else with_first c rest

-- strings.HasSuffix
unfoldable pub has_suffix : String → String → Bool
has_suffix [] suffix = [] == suffix
has_suffix (c ∷ s) suffix = ((c ∷ s) == suffix) || has_suffix s suffix

-- strings.TrimSuffix
unfoldable pub trim_suffix : String → String → String
unfolding has_suffix length_text take_text
trim_suffix s suffix =
    if has_suffix s suffix then take_text (length_text s - length_text suffix) s else s
