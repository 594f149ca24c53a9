-- ===== src/Placement/Reenabled.antt =====
-- loadDisabledAllocations and markReenabledAllocations of build/build_allocations.go: an allocation that
-- is no longer disabled is started anew. The table hash is a map of its namespaces, one for each job.
use maand.Prelude.{
  String, Bool, true, false, not, ◌&&◌, ◌||◌, Option, none, some, List, [], ◌∷◌, ◌≡◌, refl, ap, ◌∙◌,
  arith, ◌==◌, ==_iff, ==_refl, comparable_String, comparable_pair, if◌then◌else◌, contains, Map,
  lookup, put, lookup-put, Bool-cases, inl, inr,
}
use mathlib.Core.Path.{subst}
use maand.Text.{concat_text}
use maand.Deploy.{HashRow, HashTable, mark_allocation_start_pending}
use maand.Deploy.Promoted.{lookup-update_row}
use maand.Placement.{Catalog, DisabledAllocations, AllocationRow, AllocationTable, place}

abbrev pub allocation_key : String → String → String
allocation_key ip job = concat_text ip (concat_text "|" job)

-- loadDisabledAllocations
unfoldable pub load_disabled_allocations : AllocationTable → List String
load_disabled_allocations [] = []
load_disabled_allocations (((ip, job), row) ∷ t) =
    let rest = load_disabled_allocations t in
    if row.disabled && not row.removed then allocation_key ip job ∷ rest else rest

abbrev pub HashTables : Type 0
HashTables = Map String HashTable

abbrev pub rows_or_none : Option HashTable → HashTable
rows_or_none none = []
rows_or_none (some t) = t

abbrev pub hashes_of : String → HashTables → HashTable
hashes_of job hashes = rows_or_none (lookup job hashes)

abbrev pub is_reenabled : List String → String → String → AllocationRow → Bool
is_reenabled disabled_before ip job row =
    (not row.disabled && not row.removed) && contains (allocation_key ip job) disabled_before

-- markReenabledAllocations; its first test leaves the loop out where it would do nothing.
unfoldable pub mark_reenabled_allocations : List String → AllocationTable → HashTables → HashTables
mark_reenabled_allocations disabled_before [] hashes = hashes
mark_reenabled_allocations disabled_before (((ip, job), row) ∷ t) hashes =
    mark_reenabled_allocations disabled_before t (
      if is_reenabled disabled_before ip job row
      then put job (mark_allocation_start_pending row.alloc_id (hashes_of job hashes)) hashes
      else hashes)

-- BuildAllocations
unfoldable pub build_allocations :
    (String → String)
    → Catalog
    → DisabledAllocations
    → AllocationTable
    → HashTables
    → AllocationTable × HashTables
unfolding load_disabled_allocations mark_reenabled_allocations
build_allocations hash_uuid c config t hashes =
    let placed = place hash_uuid c config t in
    (placed, mark_reenabled_allocations (load_disabled_allocations t) placed hashes)

-- A row that a rollout treats as not started yet, or no row.
abbrev pub is_start_pending : Option HashRow → Bool
is_start_pending none = true
is_start_pending (some row) = elim row.previous_hash [ none ↦ true | some hash ↦ false ]

abbrev pending_at : String → String → HashTables → Bool
pending_at job key hashes = is_start_pending (lookup key (hashes_of job hashes))

changed_row :
    (o : Option HashRow)
    → is_start_pending (elim o [
      | none ↦ none
      | some row ↦ some (record row { previous_hash = none; previous_files = none })
    ])
      ≡ true
changed_row none = refl
changed_row (some row) = refl

-- A start that is marked as pending stays so, whatever else is marked.
marked-pending :
    (key k : String) (t : HashTable)
    → ((k == key) || is_start_pending (lookup k t)) ≡ true
    → is_start_pending (lookup k (mark_allocation_start_pending key t)) ≡ true
unfolding mark_allocation_start_pending
marked-pending key k t h =
    rw
      (lookup-update_row (λ row. record row { previous_hash = none; previous_files = none }) key k
        t)
      (elim (Bool-cases (k == key)) [
        | inl same ↦ rw same (changed_row (lookup key t))
        | inr other ↦ rw other (ground (arith, h, other))
      ])

put-pending :
    (job' key' job key : String) (hashes : HashTables)
    → ((job == job' && key == key') || pending_at job key hashes) ≡ true
    → pending_at job key
        (put job' (mark_allocation_start_pending key' (hashes_of job' hashes)) hashes)
      ≡ true
put-pending job' key' job key hashes h =
    let t' = mark_allocation_start_pending key' (hashes_of job' hashes) in
    ap (λ (o : Option HashTable). is_start_pending (lookup key (rows_or_none o)))
      (lookup-put job' job t' hashes)
    ∙ elim (Bool-cases (job == job')) [
      | inr other ↦ rw other (ground (arith, h, other))
      | inl same ↦
          let e : job ≡ job' = (==_iff job job').0 same in
          let g : ((job' == job' && key == key') || pending_at job' key hashes) ≡ true =
            subst (λ x. ((x == job' && key == key') || pending_at x key hashes) ≡ true) e h in
          rw same (marked-pending key' key (hashes_of job' hashes) (ground (arith, g)))
    ]

-- The rows that the loop comes to: their allocations are marked, and no mark is taken back.
marks-pending :
    (before : List String) (t : AllocationTable) (job key : String) (hashes : HashTables)
    → pending_at job key hashes ≡ true
    → pending_at job key (mark_reenabled_allocations before t hashes) ≡ true
unfolding mark_reenabled_allocations
marks-pending before [] job key hashes h = h
marks-pending before (((ip, job'), row) ∷ t) job key hashes h =
    elim (Bool-cases (is_reenabled before ip job' row)) [
      | inr other ↦ rw other (marks-pending before t job key hashes h)
      | inl marked ↦ rw marked (
          marks-pending before t job key
            (put job' (mark_allocation_start_pending row.alloc_id (hashes_of job' hashes)) hashes)
            (put-pending job' row.alloc_id job key hashes (ground (arith, h))))
    ]

marks-found :
    (before : List String) (t : AllocationTable) (ip job : String) (row : AllocationRow)
    (hashes : HashTables)
    → lookup (ip, job) t ≡ some row
    → is_reenabled before ip job row ≡ true
    → pending_at job row.alloc_id (mark_reenabled_allocations before t hashes) ≡ true
unfolding mark_reenabled_allocations lookup
marks-found before [] ip job row hashes found marked = absurd (cc)
marks-found before (((ip', job'), row') ∷ t) ip job row hashes found marked =
    elim (Bool-cases (ip == ip' && job == job')) [
      | inr other ↦ marks-found before t ip job row _ (rw other at found) marked
      | inl here ↦
          let e : ip ≡ ip' = (==_iff ip ip').0 (ground (arith, here)) in
          let f : job ≡ job' = (==_iff job job').0 (ground (arith, here)) in
          let g : row ≡ row' = ground (arith, rw here at found) in
          let m : is_reenabled before ip' job' row' ≡ true = rw (← e, ← f, ← g) marked in
          rw m (
            marks-pending before t job row.alloc_id
              (put job' (mark_allocation_start_pending row'.alloc_id (hashes_of job' hashes))
                hashes)
              (put-pending job' row'.alloc_id job row.alloc_id hashes
                (rw (f, g) (rw (==_refl job') (rw (==_refl row'.alloc_id) refl)))))
    ]

loaded_before :
    (t : AllocationTable) (ip job : String) (row : AllocationRow)
    → lookup (ip, job) t ≡ some row
    → (row.disabled && not row.removed) ≡ true
    → contains (allocation_key ip job) (load_disabled_allocations t) ≡ true
unfolding load_disabled_allocations lookup contains
loaded_before [] ip job row found off = absurd (cc)
loaded_before (((ip', job'), row') ∷ t) ip job row found off =
    elim (Bool-cases (ip == ip' && job == job')) [
      | inr other ↦
          let later = loaded_before t ip job row (rw other at found) off in ground (arith, later)
      | inl here ↦
          let e : ip ≡ ip' = (==_iff ip ip').0 (ground (arith, here)) in
          let f : job ≡ job' = (==_iff job job').0 (ground (arith, here)) in
          let g : row ≡ row' = ground (arith, rw here at found) in
          let m : (row'.disabled && not row'.removed) ≡ true = rw (← g) off in
          rw m (rw (e, f) (rw (==_refl (allocation_key ip' job')) refl))
    ]

-- An allocation that was disabled before a build and is not after it, and that is removed neither before
-- nor after, has a start pending after the build if it has a row of hashes: its next rollout starts it
-- as a new one.
pub build-is_start_pending :
    (hash_uuid : String → String) (c : Catalog) (config : DisabledAllocations) (t : AllocationTable)
    (hashes : HashTables) (ip job : String) (row row' : AllocationRow)
    → lookup (ip, job) t ≡ some row
    → (row.disabled && not row.removed) ≡ true
    → let built = build_allocations hash_uuid c config t hashes in
      lookup (ip, job) built.0 ≡ some row'
      → (not row'.disabled && not row'.removed) ≡ true
      → is_start_pending (lookup row'.alloc_id (hashes_of job built.1)) ≡ true
unfolding build_allocations
build-is_start_pending hash_uuid c config t hashes ip job row row' found off found' on =
    marks-found (load_disabled_allocations t) (place hash_uuid c config t) ip job row' hashes found'
      (rw on (loaded_before t ip job row found off))
