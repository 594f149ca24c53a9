-- ===== src/Text/Paths.antt =====
-- Go's `path` package: Base and Match, over texts of ASCII characters (Match skips by bytes).
use Prim.Native.Char.{code}
use Prim.Native.String.{String}
use maand.Prelude.{
  ℕ, Bool, true, false, not, ◌&&◌, ◌||◌, leb, nat_beq, Option, none, some, List, [], ◌∷◌, ◌++◌,
  if◌then◌else◌,
}
use maand.Text.{is_empty}

unfoldable pub has_slash : String → Bool
has_slash String.[] = false
has_slash (String.◌∷◌ c s) = nat_beq (code c) b'/' || has_slash s

unfoldable pub trim_slashes : String → String
trim_slashes String.[] = String.[]
trim_slashes (String.◌∷◌ c s) =
    let rest = trim_slashes s in
    if nat_beq (code c) b'/' && is_empty rest then String.[] else String.◌∷◌ c rest

-- The text after the last slash.
unfoldable pub after_slash : String → String
unfolding has_slash
after_slash String.[] = String.[]
after_slash (String.◌∷◌ c s) =
    let rest = after_slash s in
    if has_slash s then rest else if nat_beq (code c) b'/' then s else String.◌∷◌ c s

-- path.Base
unfoldable pub base : String → String
unfolding trim_slashes after_slash
base s =
    if is_empty s
    then "."
    else if is_empty (trim_slashes s)
    then "/"
    else after_slash (trim_slashes s)

-- What a pattern asks of one character, or a star.
pub data Item : Type 0 where
  any_char : Item
  literal : ℕ → Item
  class : Bool → List (ℕ × ℕ) → Item

pub data Token : Type 0 where
  star : Token
  one : Item → Token

-- Where the reading of a pattern stands: outside of brackets, behind a backslash, behind `[`, where a
-- range may begin or the class end, behind the first character of a range, and behind its dash.
pub data Reading : Type 0 where
  plain escaped opened : Reading
  begins begins_escaped : Bool → List (ℕ × ℕ) → Reading
  begun ends ends_escaped : Bool → List (ℕ × ℕ) → ℕ → Reading

abbrev pub none_yet : List (ℕ × ℕ) → Bool
none_yet [] = true
none_yet (range ∷ ranges) = false

-- The state behind a character that may begin a range, and the token that is complete with it.
abbrev pub begin_range : Bool → List (ℕ × ℕ) → ℕ → Option (Option Item × Reading)
begin_range negated ranges c =
    if nat_beq c b']' && not (none_yet ranges)
    then some (some (class negated ranges), plain)
    else if nat_beq c b'-' || nat_beq c b']'
    then none
    else if nat_beq c b'\\'
    then some (none, begins_escaped negated ranges)
    else some (none, begun negated ranges c)

abbrev pub end_range : Bool → List (ℕ × ℕ) → ℕ → ℕ → Option (Option Item × Reading)
end_range negated ranges lo c =
    if nat_beq c b'-' || nat_beq c b']'
    then none
    else if nat_beq c b'\\'
    then some (none, ends_escaped negated ranges lo)
    else some (none, begins negated (ranges ++ (lo, c) ∷ []))

-- One character of a pattern other than a star outside of brackets; none for ErrBadPattern.
abbrev pub read_char : Reading → ℕ → Option (Option Item × Reading)
read_char plain c =
    if nat_beq c b'['
    then some (none, opened)
    else if nat_beq c b'?'
    then some (some any_char, plain)
    else if nat_beq c b'\\'
    then some (none, escaped)
    else some (some (literal c), plain)
read_char escaped c = some (some (literal c), plain)
read_char opened c = if nat_beq c b'^' then some (none, begins true []) else begin_range false [] c
read_char (begins negated ranges) c = begin_range negated ranges c
read_char (begins_escaped negated ranges) c = some (none, begun negated ranges c)
read_char (begun negated ranges lo) c =
    if nat_beq c b'-'
    then some (none, ends negated ranges lo)
    else begin_range negated (ranges ++ (lo, lo) ∷ []) c
read_char (ends negated ranges lo) c = end_range negated ranges lo c
read_char (ends_escaped negated ranges lo) c = some (none, begins negated (ranges ++ (lo, c) ∷ []))

abbrev pub is_plain : Reading → Bool
is_plain plain = true
is_plain _ = false

abbrev pub with_token : Option Item → Option (List Token) → Option (List Token)
with_token item none = none
with_token none (some tokens) = some tokens
with_token (some item) (some tokens) = some (one item ∷ tokens)

abbrev pub with_star : Option (List Token) → Option (List Token)
with_star none = none
with_star (some tokens) = some (star ∷ tokens)

unfoldable pub read_pattern : Reading → String → Option (List Token)
read_pattern state String.[] = if is_plain state then some [] else none
read_pattern state (String.◌∷◌ c s) =
    if is_plain state && nat_beq (code c) b'*'
    then with_star (read_pattern plain s)
    else elim (read_char state (code c)) [
      | none ↦ none
      | some (item, next) ↦ with_token item (read_pattern next s)
    ]

-- scanChunk: a star or none, and then items up to the next star.
pub record Chunk : Type 0 where
  pub after_star : Bool
  pub items : List Item

abbrev pub no_items : List Item → Bool
no_items [] = true
no_items (item ∷ items) = false

unfoldable pub chunks : Bool → List Item → List Token → List Chunk
chunks after_star items [] =
    if after_star || not (no_items items)
    then record { after_star = after_star; items = items } ∷ []
    else []
chunks after_star items (one item ∷ tokens) = chunks after_star (items ++ item ∷ []) tokens
chunks after_star items (star ∷ tokens) =
    let rest = chunks true [] tokens in
    if no_items items then rest else record { after_star = after_star; items = items } ∷ rest

unfoldable pub in_ranges : ℕ → List (ℕ × ℕ) → Bool
in_ranges c [] = false
in_ranges c ((lo, hi) ∷ ranges) = (leb lo c && leb c hi) || in_ranges c ranges

abbrev pub item_matches : Item → ℕ → Bool
item_matches any_char c = not (nat_beq c b'/')
item_matches (literal d) c = nat_beq c d
item_matches (class negated ranges) c =
    if negated then not (in_ranges c ranges) else in_ranges c ranges

-- matchChunk, on a chunk that is well formed: the rest of the name.
unfoldable pub match_chunk : List Item → String → Option String
unfolding in_ranges
match_chunk [] s = some s
match_chunk (item ∷ items) String.[] = none
match_chunk (item ∷ items) (String.◌∷◌ c s) =
    let rest = match_chunk items s in if item_matches item (code c) then rest else none

-- A match is taken if it leaves nothing of the name, or there are more chunks.
abbrev pub taken : Bool → Option String → Option String
taken more none = none
taken more (some rest) = if is_empty rest || more then some rest else none

-- The first place where a chunk is matched, at the beginning or, behind a star, after some characters
-- that are not slashes.
unfoldable pub seek : Bool → Bool → List Item → String → Option String
unfolding match_chunk
seek after_star more items String.[] = taken more (match_chunk items String.[])
seek after_star more items (String.◌∷◌ c s) =
    elim (taken more (match_chunk items (String.◌∷◌ c s))) [
      | some rest ↦ some rest
      | none ↦ if after_star && not (nat_beq (code c) b'/') then seek true more items s else none
    ]

abbrev pub some_chunks : List Chunk → Bool
some_chunks [] = false
some_chunks (chunk ∷ rest) = true

unfoldable pub match_chunks : List Chunk → String → Bool
unfolding seek
match_chunks [] name = is_empty name
match_chunks (chunk ∷ rest) name =
    if chunk.after_star && no_items chunk.items
    then not (has_slash name)
    else elim (seek chunk.after_star (some_chunks rest) chunk.items name) [
      | none ↦ false
      | some name' ↦ match_chunks rest name'
    ]

-- path.Match: none for ErrBadPattern, which it returns for each malformed pattern, whatever the name.
unfoldable pub path_match : String → String → Option Bool
unfolding read_pattern chunks match_chunks
path_match pattern name = elim (read_pattern plain pattern) [
  | none ↦ none
  | some tokens ↦ some (match_chunks (chunks false [] tokens) name)
]
