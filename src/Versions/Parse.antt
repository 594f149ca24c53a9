-- ===== src/Versions/Parse.antt =====
-- ParseVersion of workspace/version.go, with strconv.Atoi for an int of 64 bits.
use Prim.Native.Char.{code}
use Prim.Native.String.{String, [], ◌∷◌}
use maand.Prelude.{
  ℕ, ◌+◌, ◌-◌, ◌*◌, ◌&&◌, Option, none, some, List, ℤ, pos, negsuc, ltb, leb, nat_beq, length,
  if◌then◌else◌, Result, ok, err, ◌>>=◌,
}
use maand.Text.{is_empty, trim_space, trim_prefix, equal_fold, prepend}
use maand.Text.Search.{cut}
use maand.Versions.{Version, DemandError, invalid_job_version}

-- The number of some digits behind those that have been read.
unfoldable pub read_digits : ℕ → String → Option ℕ
read_digits n [] = some n
read_digits n (c ∷ s) =
    let rest = read_digits (n * 10 + (code c - b'0')) s in
    if leb b'0' (code c) && leb (code c) b'9' then rest else none

abbrev pub read_number : String → Option ℕ
read_number [] = none
read_number (c ∷ s) = read_digits 0 (c ∷ s)

abbrev pub positive : Option ℕ → Option ℤ
positive none = none
positive (some n) = if ltb n 9_223_372_036_854_775_808 then some (pos n) else none

abbrev pub negative : Option ℕ → Option ℤ
negative none = none
negative (some n) =
    if nat_beq n 0
    then some (pos 0)
    else if leb n 9_223_372_036_854_775_808
    then some (negsuc (n - 1))
    else none

-- strconv.Atoi
unfoldable pub atoi : String → Option ℤ
unfolding read_digits
atoi [] = none
atoi (c ∷ s) =
    if nat_beq (code c) b'-'
    then negative (read_number s)
    else if nat_beq (code c) b'+'
    then positive (read_number s)
    else positive (read_number (c ∷ s))

abbrev pub not_negative : Option ℤ → Result DemandError ℕ
not_negative none = err invalid_job_version
not_negative (some (negsuc n)) = err invalid_job_version
not_negative (some (pos n)) = ok n

-- The body of the loop over the segments.
unfoldable pub parse_segment : String → Result DemandError ℕ
unfolding atoi
parse_segment raw =
    let part = trim_space raw in
    if is_empty part then err invalid_job_version else not_negative (atoi part)

unfoldable pub parse_segments : List String → Result DemandError (List ℕ)
unfolding parse_segment
parse_segments List.[] = ok List.[]
parse_segments (List.◌∷◌ part parts) =
    let rest = parse_segments parts in
    parse_segment part >>= λ n. rest >>= λ numbers. ok (List.◌∷◌ n numbers)

-- `numbers[i]`, which is 0 where there is no segment.
abbrev pub number_at : ℕ → List ℕ → ℕ
number_at i List.[] = 0
number_at i (List.◌∷◌ n numbers) = if nat_beq i 0 then n else number_at (i - 1) numbers

-- strings.Split(raw, ".")
unfoldable pub split_dots : String → List String
split_dots [] = List.◌∷◌ [] List.[]
split_dots (c ∷ s) =
    let parts = split_dots s in if nat_beq (code c) b'.' then List.◌∷◌ [] parts else prepend c parts

abbrev pub version_of : String → List ℕ → Version
version_of prerelease numbers = record {
  major = number_at 0 numbers;
  minor = number_at 1 numbers;
  patch = number_at 2 numbers;
  prerelease = prerelease;
}

-- The part behind the prerelease.
unfoldable pub parse_release : String → String → Result DemandError Version
unfolding split_dots parse_segments
parse_release prerelease raw =
    if ltb 3 (length (split_dots raw))
    then err invalid_job_version
    else parse_segments (split_dots raw) >>= λ numbers. ok (version_of prerelease numbers)

-- The prerelease behind the first dash.
abbrev pub parse_parts : Option (String × String) → String → Result DemandError Version
parse_parts none raw = parse_release "" raw
parse_parts (some (release, suffix)) raw =
    let prerelease = trim_space suffix in
    if is_empty prerelease then err invalid_job_version else parse_release prerelease release

unfoldable pub parse_version : String → Result DemandError Version
unfolding parse_release
parse_version text =
    let raw = trim_space text in
    let stripped = trim_prefix (trim_prefix raw "v") "V" in
    if is_empty raw
    then err invalid_job_version
    else if equal_fold raw "unknown"
    then err invalid_job_version
    else parse_parts (cut stripped "-") stripped
