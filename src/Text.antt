-- ===== src/Text.antt =====
-- What the program uses of Go's `strings` package, over texts without invalid UTF-8.
pub mod Trim
pub mod Lists
pub mod Less
pub mod Prefix
pub mod Search
pub mod Paths
use Prim.Native.Char.{Char, code}
use Prim.Native.String.{String, [], ◌∷◌}
use maand.Prelude.{
  ℕ, zero, suc, ◌+◌, Bool, true, false, ◌&&◌, ◌||◌, leb, ltb, nat_beq, if◌then◌else◌, List,
}
use mathlib.Core.List

-- unicode.IsSpace
unfoldable pub is_space : ℕ → Bool
is_space c =
    (leb 9 c && leb c 13)
    || (nat_beq c 32
        || (nat_beq c 0x85
            || (nat_beq c 0xa0
                || (nat_beq c 0x1680
                    || ((leb 0x2000 c && leb c 0x200a)
                        || (nat_beq c 0x2028
                            || (nat_beq c 0x2029
                                || (nat_beq c 0x202f
                                    || (nat_beq c 0x205f || nat_beq c 0x3000)))))))))

abbrev pub is_empty : String → Bool
is_empty [] = true
is_empty (c ∷ s) = false

unfoldable pub trim_left : String → String
trim_left [] = []
trim_left (c ∷ s) = let rest = trim_left s in if is_space (code c) then rest else c ∷ s

unfoldable pub trim_right : String → String
trim_right [] = []
trim_right (c ∷ s) =
    let rest = trim_right s in if is_space (code c) && is_empty rest then [] else c ∷ rest

-- strings.TrimSpace
unfoldable pub trim_space : String → String
unfolding trim_left trim_right is_space
trim_space s = trim_right (trim_left s)

-- `s + t`
unfoldable pub concat_text : String → String → String
concat_text [] t = t
concat_text (c ∷ s) t = c ∷ concat_text s t

abbrev pub prepend : Char → List String → List String
prepend c List.[] = List.◌∷◌ (c ∷ []) List.[]
prepend c (List.◌∷◌ part parts) = List.◌∷◌ (c ∷ part) parts

-- strings.Split(s, ",")
unfoldable pub split_commas : String → List String
split_commas [] = List.◌∷◌ [] List.[]
split_commas (c ∷ s) =
    let parts = split_commas s in
    if nat_beq (code c) b',' then List.◌∷◌ [] parts else prepend c parts

-- strings.Join(parts, ","), from its first part on
unfoldable pub join_after : String → List String → String
unfolding concat_text
join_after part List.[] = part
join_after part (List.◌∷◌ next parts) = concat_text part (concat_text "," (join_after next parts))

unfoldable pub join_commas : List String → String
unfolding join_after
join_commas List.[] = []
join_commas (List.◌∷◌ part parts) = join_after part parts

-- The loop that trims the parts of a comma-separated list and leaves out the empty ones.
unfoldable pub trim_parts : List String → List String
unfolding trim_space
trim_parts List.[] = List.[]
trim_parts (List.◌∷◌ part parts) =
    let rest = trim_parts parts in
    if is_empty (trim_space part) then rest else List.◌∷◌ (trim_space part) rest

-- `s < t` on Go's strings: by bytes, which for UTF-8 is by code points
unfoldable pub text_lt : String → String → Bool
text_lt [] [] = false
text_lt [] (d ∷ t) = true
text_lt (c ∷ s) [] = false
text_lt (c ∷ s) (d ∷ t) = ltb (code c) (code d) || (nat_beq (code c) (code d) && text_lt s t)

unfoldable pub length_text : String → ℕ
length_text [] = 0
length_text (c ∷ s) = suc (length_text s)

-- `s[:n]` and `s[n:]`, for an n up to the length
unfoldable pub take_text : ℕ → String → String
take_text zero s = []
take_text (suc n) [] = []
take_text (suc n) (c ∷ s) = c ∷ take_text n s

unfoldable pub drop_text : ℕ → String → String
drop_text zero s = s
drop_text (suc n) [] = []
drop_text (suc n) (c ∷ s) = drop_text n s

-- strings.HasPrefix
unfoldable pub has_prefix : String → String → Bool
has_prefix s [] = true
has_prefix [] (d ∷ prefix) = false
has_prefix (c ∷ s) (d ∷ prefix) = nat_beq (code c) (code d) && has_prefix s prefix

-- strings.TrimPrefix
unfoldable pub trim_prefix : String → String → String
unfolding has_prefix length_text drop_text
trim_prefix s prefix = if has_prefix s prefix then drop_text (length_text prefix) s else s

abbrev pub fold_code : ℕ → ℕ
fold_code c = if leb 65 c && leb c 90 then c + 32 else if nat_beq c 0x212a then 107 else c

-- strings.EqualFold(s, t), for a t of lower-case letters of ASCII without an s
unfoldable pub equal_fold : String → String → Bool
equal_fold [] [] = true
equal_fold [] (d ∷ t) = false
equal_fold (c ∷ s) [] = false
equal_fold (c ∷ s) (d ∷ t) = nat_beq (fold_code (code c)) (code d) && equal_fold s t
