-- ===== src/Utils/Members.antt =====
-- The members of utils/sets.go's slices and of deploy/filters.go's selection.
use maand.Prelude.{
  String, Bool, true, false, not, ◌&&◌, ◌||◌, List, [], ◌∷◌, ◌++◌, ◌≡◌, refl, sym, ap, ◌∙◌, arith,
  ◌==◌, ==_iff, ==_refl, comparable_String, if◌then◌else◌, contains, add, contains-add,
  contains-append, Distinct, Bool-cases, inl, inr,
}
use maand.Text.{trim_space, is_empty, split_commas, trim_parts}
use maand.Text.Trim.{trim_space_idem}
use maand.Utils.{
  unique_from, unique, union, keep_if, none_of, intersection, difference, normalize_job_filter,
  select_jobs_for_deploy, parse_jobs_csv,
}

contains-unique_from :
    (x : String) (seen values : List String)
    → contains x (unique_from seen values) ≡ (contains x values && not (contains x seen))
unfolding unique_from contains
contains-unique_from x seen [] = refl
contains-unique_from x seen (v ∷ values) = elim (Bool-cases (contains v seen)) [
  | inl there ↦ rw there (
      contains-unique_from x (add v seen) values
      ∙ ground (
        arith,
        there,
        contains-add v x seen,
        ==_iff x v,
        λ (p : x ≡ v). ap (λ (y : String). contains y seen) p,
      ))
  | inr new ↦ rw new (
      ground (
        arith,
        new,
        contains-unique_from x (add v seen) values,
        contains-add v x seen,
        ==_iff x v,
        λ (p : x ≡ v). ap (λ (y : String). contains y seen) p,
      ))
]

Distinct-unique_from : (seen values : List String) → Distinct (unique_from seen values)
unfolding unique_from
Distinct-unique_from seen [] = tt
Distinct-unique_from seen (v ∷ values) = elim (Bool-cases (contains v seen)) [
  | inl there ↦ rw there (Distinct-unique_from (add v seen) values)
  | inr new ↦ rw new (
    contains-unique_from v (add v seen) values ∙ ground (arith, contains-add v v seen, ==_refl v),
    Distinct-unique_from (add v seen) values,
  )
]

pub contains-unique :
    (x : String) (values : List String) → contains x (unique values) ≡ contains x values
unfolding unique contains
contains-unique x values = contains-unique_from x [] values ∙ ground arith

pub Distinct-unique : (values : List String) → Distinct (unique values)
unfolding unique
Distinct-unique values = Distinct-unique_from [] values

pub contains-keep_if :
    (x : String) (wanted : Bool) (index values : List String)
    → contains x (keep_if wanted index values)
      ≡ (contains x values && (if wanted then contains x index else not (contains x index)))
unfolding keep_if contains
contains-keep_if x wanted index [] = refl
contains-keep_if x wanted index (v ∷ values) = ground (
  arith,
  contains-keep_if x wanted index values,
  ==_iff x v,
  λ (p : x ≡ v). ap (λ (y : String). contains y index) p,
)

pub no_members : (xs : List String) (x : String) → none_of xs ≡ true → contains x xs ≡ false
unfolding contains
no_members [] x h = refl
no_members (y ∷ xs) x h = absurd (cc)

contains-intersection :
    (x : String) (a b : List String)
    → contains x (intersection a b) ≡ (contains x a && contains x b)
unfolding intersection
contains-intersection x a b = elim (Bool-cases (none_of a || none_of b)) [
  | inr some_of ↦ rw some_of (contains-keep_if x true a b ∙ ground arith)
  | inl none ↦ rw none (ground (arith, none, no_members a x, no_members b x, no_members [] x refl))
]

pub contains-difference :
    (x : String) (a b : List String)
    → contains x (difference a b) ≡ (contains x a && not (contains x b))
unfolding difference
contains-difference x a b = elim (Bool-cases (none_of a)) [
  | inr some_of ↦ rw some_of (contains-keep_if x false b a)
  | inl none ↦ rw none (ground (arith, no_members a x none, no_members [] x refl))
]

-- The program's membership test: an intersection with one value.
pub none_of-intersection_one :
    (x : String) (a : List String) → none_of (intersection a (x ∷ [])) ≡ not (contains x a)
unfolding intersection keep_if
none_of-intersection_one x [] = unfold contains in refl
none_of-intersection_one x (y ∷ a) = ground arith

-- Union, Intersection and Difference have the members of the sets that they are named for, and a union
-- has each member once.
pub set_operations-members :
    (x : String) (a b : List String)
    → Distinct (union a b)
      × (contains x (union a b) ≡ (contains x a || contains x b))
      × (contains x (intersection a b) ≡ (contains x a && contains x b))
      × (contains x (difference a b) ≡ (contains x a && not (contains x b)))
unfolding union
set_operations-members x a b = (
  unfold unique in Distinct-unique_from [] (a ++ b),
  contains-unique x (a ++ b) ∙ contains-append x a b,
  contains-intersection x a b,
  contains-difference x a b,
)

unique-none_of : (values : List String) → none_of (unique values) ≡ none_of values
unfolding unique unique_from contains
unique-none_of [] = refl
unique-none_of (v ∷ values) = refl

-- A deploy selects the available jobs that the filter names, and all of them if the filter is empty.
pub contains-select_jobs_for_deploy :
    (x : String) (available_jobs jobs_filter : List String)
    → contains x (select_jobs_for_deploy available_jobs jobs_filter)
      ≡ (contains x available_jobs && (none_of jobs_filter || contains x jobs_filter))
unfolding select_jobs_for_deploy normalize_job_filter
contains-select_jobs_for_deploy x available_jobs jobs_filter =
    elim (Bool-cases (none_of jobs_filter)) [
      | inl all ↦ rw (all, none_of) (ground arith)
      | inr some_of ↦ rw some_of (
          rw (unique-none_of jobs_filter) (
            rw some_of (
              contains-keep_if x true (unique jobs_filter) available_jobs
              ∙ ground (arith, contains-unique x jobs_filter))))
    ]

trimmed_parts :
    (x : String) (parts : List String)
    → contains x (trim_parts parts) ≡ true
    → (trim_space x ≡ x) × (is_empty x ≡ false)
unfolding trim_parts contains
trimmed_parts x [] h = absurd (cc)
trimmed_parts x (part ∷ parts) h = elim (Bool-cases (is_empty (trim_space part))) [
  | inl gone ↦ trimmed_parts x parts (rw gone at h)
  | inr kept ↦ elim (Bool-cases (x == trim_space part)) [
    | inl here ↦
        let e : x ≡ trim_space part = (==_iff x (trim_space part)).0 here in
        rw e (trim_space_idem part, kept)
    | inr later ↦ trimmed_parts x parts (ground (arith, rw kept at h, later))
  ]
]

-- The names of a comma-separated list are trimmed and not empty, and none is named twice.
pub parse_jobs_csv-names :
    (jobs_csv x : String)
    → contains x (parse_jobs_csv jobs_csv) ≡ true
    → (trim_space x ≡ x) × (is_empty x ≡ false) × Distinct (parse_jobs_csv jobs_csv)
unfolding parse_jobs_csv
parse_jobs_csv-names jobs_csv x h = elim (Bool-cases (is_empty (trim_space jobs_csv))) [
  | inl empty ↦ absurd (cc (sym (no_members [] x refl) ∙ (rw empty at h)))
  | inr names ↦ rw names (
      let parts = trim_parts (split_commas (trim_space jobs_csv)) in
      let t =
        trimmed_parts x (split_commas (trim_space jobs_csv))
          (sym (contains-unique x parts) ∙ (rw names at h)) in
      (t.0, t.1, unfold unique in Distinct-unique_from [] parts))
]
