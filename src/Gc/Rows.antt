-- ===== src/Gc/Rows.antt =====
-- What is left in the tables after purgeRemovedAllocations of gc/allocations.go.
use maand.Prelude.{
  String, true, false, ◌&&◌, Option, none, some, [], ◌∷◌, ◌≡◌, refl, ap, ◌∙◌, arith, ◌==◌, ==_iff,
  ==_refl, comparable_String, comparable_pair, if◌then◌else◌, contains, Distinct, keys, lookup, put,
  lookup-put, lookup-delete, delete, Bool-cases, inl, inr, ◌⊎◌,
}
use mathlib.Core.Path.{subst}
use maand.Deploy.{HashRow, HashTable, remove_allocation_hash}
use maand.Placement.{AllocationRow, AllocationTable}
use maand.Placement.Reenabled.{HashTables, rows_or_none, hashes_of}
use maand.Gc.{
  list_removed_allocations, remove_hashes, delete_removed, purge_removed_allocations,
  job_has_active_allocations,
}

abbrev pub unless_removed : Option AllocationRow → Option AllocationRow
unless_removed none = none
unless_removed (some row) = if row.removed then none else some row

absent_row :
    (k : String × String) (t : AllocationTable)
    → contains k (keys t) ≡ false
    → lookup k (delete_removed t) ≡ none
unfolding delete_removed lookup keys contains
absent_row k [] h = refl
absent_row k ((j, row) ∷ t) h = ground (arith, h, absent_row k t)

kept_row :
    (k : String × String) (t : AllocationTable)
    → Distinct (keys t)
    → lookup k (delete_removed t) ≡ unless_removed (lookup k t)
unfolding delete_removed lookup keys contains
kept_row k [] d = refl
kept_row k ((j, row) ∷ t) d = elim (Bool-cases (k == j)) [
  | inr other ↦ rw other (ground (arith, other, kept_row k t d.1))
  | inl same ↦ rw same (ground (arith, same, absent_row k t (rw ((==_iff k j).0 same) d.0)))
]

no_removed : (t : AllocationTable) → list_removed_allocations (delete_removed t) ≡ []
unfolding list_removed_allocations delete_removed
no_removed [] = refl
no_removed ((k, row) ∷ t) = ground (arith, no_removed t)

still_active :
    (job : String) (t : AllocationTable)
    → job_has_active_allocations job (delete_removed t) ≡ job_has_active_allocations job t
unfolding job_has_active_allocations delete_removed
still_active job [] = refl
still_active job ((k, row) ∷ t) = ground (arith, still_active job t)

abbrev hash_at : String → String → HashTables → Option HashRow
hash_at job key hashes = lookup key (hashes_of job hashes)

-- The deletion of one row of hashes: it is gone, and a row that was gone stays so.
hash_deleted :
    (job' key' job key : String) (hashes : HashTables)
    → ((job == job' && key == key') ≡ true) ⊎ (hash_at job key hashes ≡ none)
    → hash_at job key (put job' (remove_allocation_hash key' (hashes_of job' hashes)) hashes) ≡ none
unfolding remove_allocation_hash
hash_deleted job' key' job key hashes h =
    let t' = delete key' (hashes_of job' hashes) in
    ap (λ (o : Option HashTable). lookup key (rows_or_none o)) (lookup-put job' job t' hashes)
    ∙ elim (Bool-cases (job == job')) [
      | inr other ↦ rw other (unmatched other h)
      | inl same ↦
          rw same
            (lookup-delete key' key (hashes_of job' hashes) ∙ matched ((==_iff job job').0 same) h)
    ]
  where
    unmatched :
        (job == job') ≡ false
        → ((job == job' && key == key') ≡ true) ⊎ (hash_at job key hashes ≡ none)
        → hash_at job key hashes ≡ none
    unmatched other (inl own) = absurd (ground (arith, own, other))
    unmatched other (inr gone) = gone

    matched :
        job ≡ job'
        → ((job == job' && key == key') ≡ true) ⊎ (hash_at job key hashes ≡ none)
        → (if key == key' then none else hash_at job' key hashes) ≡ none
    matched e (inl own) = ground (arith, own)
    matched e (inr gone) =
        let g : hash_at job' key hashes ≡ none = subst (λ x. hash_at x key hashes ≡ none) e gone in
        ground (arith, g)

stays_gone :
    (t : AllocationTable) (job key : String) (hashes : HashTables)
    → hash_at job key hashes ≡ none
    → hash_at job key (remove_hashes t hashes) ≡ none
unfolding remove_hashes
stays_gone [] job key hashes h = h
stays_gone (((ip, job'), row) ∷ t) job key hashes h = elim (Bool-cases row.removed) [
  | inr other ↦ rw other (stays_gone t job key hashes h)
  | inl gone ↦ rw gone (
      stays_gone t job key
        (put job' (remove_allocation_hash row.alloc_id (hashes_of job' hashes)) hashes)
        (hash_deleted job' row.alloc_id job key hashes (inr h)))
]

hash_gone :
    (t : AllocationTable) (ip job : String) (row : AllocationRow) (hashes : HashTables)
    → lookup (ip, job) t ≡ some row
    → row.removed ≡ true
    → hash_at job row.alloc_id (remove_hashes t hashes) ≡ none
unfolding remove_hashes lookup
hash_gone [] ip job row hashes found gone = absurd (cc)
hash_gone (((ip', job'), row') ∷ t) ip job row hashes found gone =
    elim (Bool-cases (ip == ip' && job == job')) [
      | inr other ↦ hash_gone t ip job row _ (rw other at found) gone
      | inl here ↦
          let f : job ≡ job' = (==_iff job job').0 (ground (arith, here)) in
          let g : row ≡ row' = ground (arith, rw here at found) in
          let m : row'.removed ≡ true = rw (← g) gone in
          rw m (
            stays_gone t job row.alloc_id
              (put job' (remove_allocation_hash row'.alloc_id (hashes_of job' hashes)) hashes)
              (hash_deleted job' row'.alloc_id job row.alloc_id hashes
                (inl (rw (f, g) (rw (==_refl job') (rw (==_refl row'.alloc_id) refl))))))
    ]

-- The removal of allocations, in a table with one row for each worker and job, deletes the rows that are
-- marked as removed and no others, deletes the hashes of each, leaves nothing for a second removal, and
-- changes for no job whether it has an active allocation.
pub purge_removed-clean :
    (t : AllocationTable) (hashes : HashTables)
    → Distinct (keys t)
    → let (t', hashes') = purge_removed_allocations t hashes in
      ((k : String × String) → lookup k t' ≡ unless_removed (lookup k t))
      × ((ip job : String) (row : AllocationRow)
          → lookup (ip, job) t ≡ some row
          → row.removed ≡ true
          → lookup row.alloc_id (hashes_of job hashes') ≡ none)
      × (list_removed_allocations t' ≡ [])
      × ((job : String) → job_has_active_allocations job t' ≡ job_has_active_allocations job t)
unfolding purge_removed_allocations
purge_removed-clean t hashes d = (
  λ k. kept_row k t d,
  λ ip job row found gone. hash_gone t ip job row hashes found gone,
  no_removed t,
  λ job. still_active job t,
)
