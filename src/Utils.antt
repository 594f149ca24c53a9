-- ===== src/Utils.antt =====
-- utils/sets.go, utils/batch.go and deploy/filters.go: sets as slices, batches of a slice, and the jobs
-- that a deploy is restricted to.
pub mod Members
pub mod Batches
mod Tests
use maand.Prelude.{
  ℕ, zero, suc, ◌+◌, ◌-◌, String, Bool, true, false, not, ◌&&◌, ◌||◌, Option, none, some, List, [],
  ◌∷◌, ◌++◌, ℤ, pos, negsuc, ltb, if◌then◌else◌, length, take, drop, contains, add,
  comparable_String,
}
use maand.Text.{trim_space, is_empty, split_commas, trim_parts}

-- The loop of Unique, with the values seen.
unfoldable pub unique_from : List String → List String → List String
unique_from seen [] = []
unique_from seen (value ∷ values) =
    let rest = unique_from (add value seen) values in
    if contains value seen then rest else value ∷ rest

unfoldable pub unique : List String → List String
unfolding unique_from
unique values = unique_from [] values

unfoldable pub union : List String → List String → List String
union a b = unique (a ++ b)

-- The loops that keep the values of a set, or the others.
unfoldable pub keep_if : Bool → List String → List String → List String
keep_if wanted index [] = []
keep_if wanted index (value ∷ values) =
    let rest = keep_if wanted index values in
    if contains value index
    then (if wanted then value ∷ rest else rest)
    else (if wanted then rest else value ∷ rest)

abbrev pub none_of : List String → Bool
none_of [] = true
none_of (x ∷ xs) = false

unfoldable pub intersection : List String → List String → List String
unfolding keep_if
intersection a b = if none_of a || none_of b then [] else keep_if true a b

unfoldable pub difference : List String → List String → List String
unfolding keep_if
difference a b = if none_of a then [] else keep_if false b a

-- The index of NewBatchIterator's closure, and what one call of it returns.
unfoldable pub next_batch : List String → ℕ → ℕ → Option (List String) × ℕ
next_batch items size index =
    let end = if ltb (length items) (index + size) then length items else index + size in
    if not (ltb index (length items))
    then (none, index)
    else (some (take (end - index) (drop index items)), end)

abbrev pub batch_size_or_one : ℤ → ℕ
batch_size_or_one (negsuc n) = 1
batch_size_or_one (pos n) = if ltb n 1 then 1 else n

-- The calls of the iterator until it returns false.
abbrev pub with_rest : Option (List String) → List (List String) → List (List String)
with_rest none rest = []
with_rest (some batch) rest = batch ∷ rest

unfoldable pub drain : List String → ℕ → ℕ → ℕ → List (List String)
unfolding next_batch
drain items size zero index = []
drain items size (suc calls) index =
    let step = next_batch items size index in
    let rest = drain items size calls step.1 in with_rest step.0 rest

-- normalizeJobFilter
unfoldable pub normalize_job_filter : List String → List String
normalize_job_filter jobs_filter = if none_of jobs_filter then [] else unique jobs_filter

unfoldable pub select_jobs_for_deploy : List String → List String → List String
select_jobs_for_deploy available_jobs jobs_filter =
    if none_of (normalize_job_filter jobs_filter)
    then available_jobs
    else keep_if true (normalize_job_filter jobs_filter) available_jobs

unfoldable pub parse_jobs_csv : String → List String
parse_jobs_csv jobs_csv =
    if is_empty (trim_space jobs_csv)
    then []
    else unique (trim_parts (split_commas (trim_space jobs_csv)))
