-- ===== src/Placement/Matching.antt =====
-- The query matchingJobsByLabelsQuery of build/build_allocations.go, without its counting.
use maand.Prelude.{
  String, Bool, true, false, not, ◌&&◌, ◌||◌, List, [], ◌∷◌, ◌≡◌, refl, ◌∙◌, arith, ◌==◌,
  comparable_String, contains, contains-append, Bool-cases, inl, inr,
}
use maand.Utils.{keep_if, none_of}
use maand.Utils.Members.{contains-unique}
use maand.Placement.{
  Catalog, JobRow, WorkerRow, values_of, all_values, labels_of, selectors_match, matching_names,
  matching_jobs,
}
use maand.Placement.Counting.{Within, all_in, count-all_in}

-- A job fits a worker if it has selectors and all of them are labels of the worker.
abbrev pub fits : List String → List String → Bool
fits selectors labels = not (none_of selectors) && all_in selectors labels

values_of-Within :
    (key : String) (rows : List (String × String)) → Within (values_of key rows) (all_values rows)
unfolding values_of all_values contains
values_of-Within key [] x h = h
values_of-Within key ((k, value) ∷ rows) x h = ground (arith, h, values_of-Within key rows x)

labels_of-Within :
    (ip : String) (workers : List WorkerRow) (rows : List (String × String))
    → Within (labels_of ip workers rows) (all_values rows)
unfolding labels_of contains
labels_of-Within ip [] rows x h = absurd (cc)
labels_of-Within ip (w ∷ workers) rows x h = elim (Bool-cases (w.worker_ip == ip)) [
  | inr other ↦ labels_of-Within ip workers rows x (rw other at h)
  | inl same ↦ ground (
    arith,
    rw same at h,
    contains-append x (values_of w.worker_id rows) (labels_of ip workers rows),
    values_of-Within w.worker_id rows x,
    labels_of-Within ip workers rows x,
  )
]

selectors_match-fits :
    (selectors all_labels labels : List String)
    → Within labels all_labels
    → selectors_match selectors all_labels labels ≡ fits selectors labels
unfolding selectors_match
selectors_match-fits [] all_labels labels w = unfold keep_if all_in in refl
selectors_match-fits (s ∷ selectors) all_labels labels w =
    rw (count-all_in (s ∷ selectors) labels) (elim (Bool-cases (all_in (s ∷ selectors) labels)) [
      | inr lacks ↦ rw lacks (never _)
      | inl all ↦
          let own : contains s labels ≡ true = unfold all_in in ground (arith, all) in
          rw (w s own) (rw all refl)
    ])
  where
    never : (b : Bool) → (b && false) ≡ false
    never b = ground arith

-- Whether a job of a name fits a worker.
unfoldable pub some_fits : Catalog → String → String → List JobRow → Bool
some_fits c ip name [] = false
some_fits c ip name (job ∷ jobs) =
    (name == job.name
      && fits (values_of job.job_id c.job_selectors) (labels_of ip c.workers c.worker_labels))
    || some_fits c ip name jobs

contains-matching_names :
    (c : Catalog) (ip name : String) (jobs : List JobRow)
    → contains name (matching_names c ip jobs) ≡ some_fits c ip name jobs
unfolding matching_names contains some_fits
contains-matching_names c ip name [] = refl
contains-matching_names c ip name (job ∷ jobs) =
    let labels = labels_of ip c.workers c.worker_labels in
    ground (
      arith,
      contains-matching_names c ip name jobs,
      selectors_match-fits (values_of job.job_id c.job_selectors) (all_values c.worker_labels)
          labels (labels_of-Within ip c.workers c.worker_labels),
    )

-- The query of BuildAllocations, which compares numbers of distinct labels, has a job for a worker
-- exactly when the job has a selector and each of its selectors is a label of that worker.
pub contains-matching_jobs :
    (c : Catalog) (ip name : String)
    → contains name (matching_jobs c ip) ≡ some_fits c ip name c.jobs
unfolding matching_jobs
contains-matching_jobs c ip name =
    contains-unique name (matching_names c ip c.jobs) ∙ contains-matching_names c ip name c.jobs
