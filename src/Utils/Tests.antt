-- ===== src/Utils/Tests.antt =====
-- Sets, batches and filters on small slices.
use maand.Prelude.{
  suc, String, true, List, [], ◌∷◌, ◌≡◌, refl, pos, contains, add, comparable_String, All, length,
}
use maand.Text.{trim_space, split_commas, trim_parts}
use maand.Utils.{
  unique, unique_from, keep_if, drain, next_batch, batch_size_or_one, select_jobs_for_deploy,
  normalize_job_filter, parse_jobs_csv,
}
use maand.Utils.Batches.{joined, IsBatch, drain-cuts}

abbrev jobs : List String
jobs = "web" ∷ "db" ∷ "cache" ∷ []

abbrev wanted : List String
wanted = "cache" ∷ "web" ∷ "web" ∷ "mail" ∷ []

selects : select_jobs_for_deploy jobs wanted ≡ ("web" ∷ "cache" ∷ [])
unfolding select_jobs_for_deploy normalize_job_filter unique unique_from keep_if contains add
selects = refl

cuts : drain jobs 2 4 0 ≡ (("web" ∷ "db" ∷ []) ∷ ("cache" ∷ []) ∷ [])
unfolding drain next_batch
cuts = refl

drain-cuts_example :
    (joined (drain jobs (batch_size_or_one (pos 2)) (suc (length jobs)) 0) ≡ jobs)
    × All
        (IsBatch (batch_size_or_one (pos 2)))
        (drain jobs (batch_size_or_one (pos 2)) (suc (length jobs)) 0)
drain-cuts_example = drain-cuts jobs (pos 2)

named : contains "db" (parse_jobs_csv " web, ,db,web ") ≡ true
unfolding parse_jobs_csv trim_space split_commas trim_parts unique unique_from contains add
named = refl
