-- ===== src/Placement/Placed.antt =====
-- The table allocations after BuildAllocations, row by row.
use maand.Prelude.{
  String, Bool, true, false, not, ◌&&◌, ◌||◌, Option, none, some, List, [], ◌∷◌, ◌≡◌, refl, sym, ap,
  ◌∙◌, arith, ◌==◌, ==_iff, ==_refl, comparable_String, comparable_pair, if◌then◌else◌, contains,
  lookup, put, lookup-put, Bool-cases, inl, inr, ◌⊎◌,
}
use maand.Text.{is_empty, concat_text}
use maand.Utils.{difference}
use maand.Utils.Members.{contains-difference}
use maand.Placement.{
  Catalog, DisabledAllocations, AllocationRow, AllocationTable, alloc_id_in, placed_row, upsert_all,
  update_where, mark_removed, mark_disabled, get_allocated_jobs, matching_jobs, place_worker,
  place_workers, worker_ips, place, target_job_version,
}
use maand.Placement.Rows.{
  changed_if, lookup-update_where, lookup-remove_jobs, unchanged, remove_twice, lookup-disabled,
  disables,
}

abbrev is_present : Option AllocationRow → Bool
is_present none = false
is_present (some row) = true

either_way {ℓ} : {A : Type ℓ} (b : Bool) (x : A) → (if b then x else x) ≡ x
either_way true x = refl
either_way false x = refl

module _ (hash_uuid : String → String) (c : Catalog) where
  abbrev with_id : String → String → AllocationRow
  with_id job id = record {
    alloc_id = id;
    disabled = false;
    removed = false;
    deployment_seq = 0;
    new_version = target_job_version c job;
  }

  -- A row that is placed again stays as it is.
  placed_row_again :
      (i j : String) (o : Option AllocationRow)
      → placed_row hash_uuid c i j (some (placed_row hash_uuid c i j o))
        ≡ placed_row hash_uuid c i j o
  placed_row_again i j o = elim (Bool-cases (is_empty (alloc_id_in o))) [
    | inr old ↦ rw old (rw old refl)
    | inl new ↦ rw new (
        ap (with_id j) (
          either_way (is_empty (hash_uuid (concat_text j (concat_text "|" i))))
            (hash_uuid (concat_text j (concat_text "|" i)))))
  ]

  -- What the statements for one worker do to a row: `a` tells whether the query has the job.
  abbrev pub placed_if : Bool → String → String → Option AllocationRow → Option AllocationRow
  placed_if a i j o = if a then some (placed_row hash_uuid c i j o) else o

  placed_twice :
      (x y z : Bool) (i j : String) (o : Option AllocationRow)
      → placed_if (x && z) i j (placed_if (x && y) i j o) ≡ placed_if (x && (y || z)) i j o
  placed_twice false y z i j o = refl
  placed_twice true true true i j o = ap some (placed_row_again i j o)
  placed_twice true true false i j o = refl
  placed_twice true false z i j o = refl

  lookup-upsert :
      (ip job i j : String) (t : AllocationTable)
      → lookup (i, j) (put (ip, job) (placed_row hash_uuid c ip job (lookup (ip, job) t)) t)
        ≡ placed_if (i == ip && j == job) i j (lookup (i, j) t)
  lookup-upsert ip job i j t =
      lookup-put (ip, job) (i, j) (placed_row hash_uuid c ip job (lookup (ip, job) t)) t
      ∙ own (Bool-cases (i == ip && j == job))
    where
      own :
          ((i == ip && j == job) ≡ true) ⊎ ((i == ip && j == job) ≡ false)
          → (if i == ip && j == job
              then some (placed_row hash_uuid c ip job (lookup (ip, job) t))
              else lookup (i, j) t)
            ≡ placed_if (i == ip && j == job) i j (lookup (i, j) t)
      own (inr other) = rw other refl
      own (inl here) =
          let e : i ≡ ip = ground (arith, here, ==_iff i ip) in
          let f : j ≡ job = ground (arith, here, ==_iff j job) in rw here (rw (e, f) refl)

  lookup-upsert_all :
      (ip : String) (jobs : List String) (i j : String) (t : AllocationTable)
      → lookup (i, j) (upsert_all hash_uuid c ip jobs t)
        ≡ placed_if (i == ip && contains j jobs) i j (lookup (i, j) t)
  unfolding upsert_all contains
  lookup-upsert_all ip [] i j t = rw (none_left (i == ip)) refl
    where
      none_left : (b : Bool) → (b && false) ≡ false
      none_left b = ground arith
  lookup-upsert_all ip (job ∷ jobs) i j t =
      lookup-upsert_all ip jobs i j
        (put (ip, job) (placed_row hash_uuid c ip job (lookup (ip, job) t)) t)
      ∙ ap (placed_if (i == ip && contains j jobs) i j) (lookup-upsert ip job i j t)
      ∙ placed_twice (i == ip) (j == job) (contains j jobs) i j (lookup (i, j) t)

  contains-get_allocated_jobs :
      (ip j : String) (t : AllocationTable)
      → contains j (get_allocated_jobs ip t) ≡ is_present (lookup (ip, j) t)
  unfolding get_allocated_jobs contains lookup
  contains-get_allocated_jobs ip j [] = refl
  contains-get_allocated_jobs ip j (((worker_ip, job), row) ∷ t) =
      ground (arith, contains-get_allocated_jobs ip j t, ==_iff ip worker_ip, ==_iff worker_ip ip)

  -- The row of a job on a worker that the loop has visited: placed if the query has the job, marked
  -- as removed if it does not.
  unfoldable pub visited : Bool → String → String → Option AllocationRow → Option AllocationRow
  visited a i j o =
      if a then some (placed_row hash_uuid c i j o) else changed_if true mark_removed o

  after_worker :
      (x y : Bool) (i j : String) (o : Option AllocationRow)
      → changed_if
          (x && (is_present (placed_if (x && y) i j o) && not y))
          mark_removed
          (placed_if (x && y) i j o)
        ≡ (if x then visited y i j o else o)
  unfolding visited
  after_worker true true i j o = refl
  after_worker true false i j none = refl
  after_worker true false i j (some row) = refl
  after_worker false y i j none = refl
  after_worker false y i j (some row) = refl

  lookup-place_worker :
      (ip i j : String) (t : AllocationTable)
      → lookup (i, j) (place_worker hash_uuid c ip t) ≡ (
          if i == ip
          then visited (contains j (matching_jobs c i)) i j (lookup (i, j) t)
          else lookup (i, j) t)
  unfolding place_worker
  lookup-place_worker ip i j t =
      lookup-remove_jobs ip (difference (get_allocated_jobs ip placed) (matching_jobs c ip)) i j
        placed
      ∙ elim (Bool-cases (i == ip)) [
        | inr other ↦
            let stays : lookup (i, j) placed ≡ lookup (i, j) t =
              lookup-upsert_all ip (matching_jobs c ip) i j t ∙ rw other refl in
            rw other (sym (unchanged false mark_removed (lookup (i, j) placed) refl) ∙ stays)
        | inl same ↦ rw same (own ((==_iff i ip).0 same))
      ]
    where
      placed : AllocationTable
      placed = upsert_all hash_uuid c ip (matching_jobs c ip) t

      own :
          i ≡ ip
          → changed_if
              (true && contains j (difference (get_allocated_jobs ip placed) (matching_jobs c ip)))
              mark_removed
              (lookup (i, j) placed)
            ≡ visited (contains j (matching_jobs c i)) i j (lookup (i, j) t)
      own e =
          let y = contains j (matching_jobs c ip) in
          let up : lookup (i, j) placed ≡ placed_if y i j (lookup (i, j) t) =
            lookup-upsert_all ip (matching_jobs c ip) i j t ∙ rw e (rw (==_refl ip) refl) in
          let gone : contains j (difference (get_allocated_jobs ip placed) (matching_jobs c ip))
              ≡ (is_present (placed_if y i j (lookup (i, j) t)) && not y) =
            contains-difference j (get_allocated_jobs ip placed) (matching_jobs c ip)
            ∙ ap (λ b. b && not y)
                (contains-get_allocated_jobs ip j placed
                  ∙ ap is_present (ap (λ k. lookup (k, j) placed) (sym e) ∙ up)) in
          rw (gone, up)
            (after_worker true y i j (lookup (i, j) t)
              ∙ ap (λ k. visited (contains j (matching_jobs c k)) i j (lookup (i, j) t)) (sym e))

  visited_twice :
      (a : Bool) (i j : String) (o : Option AllocationRow)
      → visited a i j (visited a i j o) ≡ visited a i j o
  unfolding visited
  visited_twice true i j o = ap some (placed_row_again i j o)
  visited_twice false i j o = remove_twice true true o

  visited_in :
      (x z y : Bool) (i j : String) (o : Option AllocationRow)
      → (if z
          then visited y i j (if x then visited y i j o else o)
          else (if x then visited y i j o else o))
        ≡ (if x || z then visited y i j o else o)
  visited_in true true y i j o = visited_twice y i j o
  visited_in true false y i j o = refl
  visited_in false z y i j o = refl

  lookup-place_workers :
      (ips : List String) (i j : String) (t : AllocationTable)
      → lookup (i, j) (place_workers hash_uuid c ips t) ≡ (
          if contains i ips
          then visited (contains j (matching_jobs c i)) i j (lookup (i, j) t)
          else lookup (i, j) t)
  unfolding place_workers contains
  lookup-place_workers [] i j t = refl
  lookup-place_workers (ip ∷ ips) i j t =
      lookup-place_workers ips i j (place_worker hash_uuid c ip t)
      ∙ rw (lookup-place_worker ip i j t) (
          visited_in (i == ip) (contains i ips) (contains j (matching_jobs c i)) i j
            (lookup (i, j) t))

  off_catalog :
      (x y : Bool) (i j : String) (o : Option AllocationRow)
      → changed_if (not x) mark_removed (if x then visited y i j o else o) ≡ visited (x && y) i j o
  unfolding visited
  off_catalog true true i j o = refl
  off_catalog true false i j none = refl
  off_catalog true false i j (some row) = refl
  off_catalog false y i j o = refl

  -- The row that a build should leave of a worker and a job.
  abbrev pub expected :
      DisabledAllocations → String → String → Option AllocationRow → Option AllocationRow
  expected config i j o =
      changed_if (contains i config.workers || disables config.jobs i j) mark_disabled
        (visited (contains i (worker_ips c.workers) && contains j (matching_jobs c i)) i j o)

  -- BuildAllocations computes the row of each worker and job from the row before: where the worker is in
  -- the catalog and the query has the job for it, a row with the old id if there was one, the version of
  -- the job and neither mark; any other row stays, marked as removed; and the configuration then marks
  -- the rows that it disables.
  pub place-expected :
      (config : DisabledAllocations) (i j : String) (t : AllocationTable)
      → lookup (i, j) (place hash_uuid c config t) ≡ expected config i j (lookup (i, j) t)
  unfolding place
  place-expected config i j t =
      let ips = worker_ips c.workers in
      let away : String → String → Bool = λ i j. not (contains i ips) in
      let placed = place_workers hash_uuid c ips t in
      lookup-disabled config.workers config.jobs i j (update_where away mark_removed placed)
      ∙ ap (changed_if (contains i config.workers || disables config.jobs i j) mark_disabled) (
          lookup-update_where away mark_removed i j placed
          ∙ ap (changed_if (not (contains i ips)) mark_removed) (lookup-place_workers ips i j t)
          ∙ off_catalog (contains i ips) (contains j (matching_jobs c i)) i j (lookup (i, j) t))
