-- ===== src/Deploy/Promoted.antt =====
-- After a deploy: promoteAllocationHash of deploy/hashes.go leaves nothing to roll out.
use maand.Prelude.{
  String, Bool, true, false, not, ◌&&◌, ◌||◌, Option, none, some, List, [], ◌∷◌, ◌≡◌, refl, ap,
  arith, ◌==◌, ==_iff, ==_refl, comparable_String, if◌then◌else◌, lookup, lookup-put, Bool-cases,
  Option-cases, inl, inr,
}
use maand.Deploy.{
  Allocation, HashRow, HashTable, or_default, planned, update_allocation_plan, update_row,
  select_new_version, promoted, promote_allocation_state, non_removed, promote_allocation_hash,
  running_version, has_no_row,
}

abbrev pub is_live : String → Option HashRow → Bool
is_live version none = false
is_live version (some row) =
    elim row.previous_hash [ none ↦ false | some hash ↦ hash == row.current_hash ]
    && running_version (some row) == version

pub lookup-update_row :
    (change : HashRow → HashRow) (key k : String) (t : HashTable)
    → lookup k (update_row change key t) ≡ (
        if k == key
        then elim (lookup key t) [ none ↦ none | some row ↦ some (change row) ]
        else lookup k t)
lookup-update_row change key k t = elim (Option-cases (lookup key t)) [
  | inl missing ↦
      rw (missing, update_row)
        (ground (arith, missing, ==_iff k key, λ (p : k ≡ key). ap (λ (y : String). lookup y t) p))
  | inr (row, there) ↦ rw (there, update_row) (lookup-put key k (change row) t)
]

promote-is_live :
    (allocations : List Allocation) (key : String) (t : HashTable)
    → has_no_row (lookup key t) ≡ false
    → is_live
        (or_default (select_new_version key allocations))
        (lookup key (promote_allocation_state allocations key t))
      ≡ true
unfolding promote_allocation_state
promote-is_live allocations key t there =
    rw (lookup-update_row (promoted (or_default (select_new_version key allocations))) key key t) (
      rw (==_refl key) (elim (Option-cases (lookup key t)) [
        | inl missing ↦ absurd (cc (rw missing at there))
        | inr (row, found) ↦ rw found (
            rw (==_refl row.current_hash)
              (==_refl (or_default (select_new_version key allocations))))
      ]))

pub live_row :
    (version : String) (row : Option HashRow) → is_live version row ≡ true → has_no_row row ≡ false
live_row version none h = absurd (cc)
live_row version (some row) h = refl

promote-keeps :
    (allocations : List Allocation) (key k : String) (t : HashTable)
    → is_live (or_default (select_new_version k allocations)) (lookup k t) ≡ true
    → is_live
        (or_default (select_new_version k allocations))
        (lookup k (promote_allocation_state allocations key t))
      ≡ true
unfolding promote_allocation_state
promote-keeps allocations key k t live = elim (Bool-cases (k == key)) [
  | inl same ↦
      let e : k ≡ key = (==_iff k key).0 same in
      rw e (promote-is_live allocations key t (live_row _ (lookup key t) (rw e at live)))
  | inr other ↦
      rw (lookup-update_row (promoted (or_default (select_new_version key allocations))) key k t)
        (rw other live)
]

abbrev row_at : HashTable → String → Option HashRow
row_at t key = lookup key t

promote-has_row :
    (allocations : List Allocation) (key k : String) (t : HashTable)
    → has_no_row (lookup k t) ≡ false
    → has_no_row (lookup k (promote_allocation_state allocations key t)) ≡ false
unfolding promote_allocation_state
promote-has_row allocations key k t there =
    rw (lookup-update_row (promoted (or_default (select_new_version key allocations))) key k t)
      (elim (Bool-cases (k == key)) [
        | inr other ↦ rw other there
        | inl same ↦ rw same (elim (Option-cases (lookup key t)) [
          | inr (row, found) ↦ rw found refl
          | inl missing ↦
              let e : k ≡ key = (==_iff k key).0 same in absurd (cc (rw missing at (rw e at there)))
        ])
      ])

pub plan-has_row :
    (key hash files k : String) (t : HashTable)
    → ((k == key) || not (has_no_row (lookup k t))) ≡ true
    → has_no_row (lookup k (update_allocation_plan key hash files t)) ≡ false
unfolding update_allocation_plan
plan-has_row key hash files k t there =
    rw (lookup-put key k (planned hash files (lookup key t)) t) (ground (arith, there))

-- All allocations of the job that are not removed have a row.
unfoldable pub rows_exist : String → List Allocation → HashTable → Bool
rows_exist job [] t = true
rows_exist job (a ∷ workers) t =
    (not (non_removed job a) || not (has_no_row (lookup a.alloc_id t))) && rows_exist job workers t

-- All of them are live.
unfoldable pub rows_live : List Allocation → String → List Allocation → HashTable → Bool
rows_live allocations job [] t = true
rows_live allocations job (a ∷ workers) t =
    (not (non_removed job a)
      || is_live (or_default (select_new_version a.alloc_id allocations)) (lookup a.alloc_id t))
    && rows_live allocations job workers t

promote-rows_exist :
    (allocations : List Allocation) (key job : String) (workers : List Allocation) (t : HashTable)
    → rows_exist job workers t ≡ true
    → rows_exist job workers (promote_allocation_state allocations key t) ≡ true
unfolding rows_exist
promote-rows_exist allocations key job [] t h = refl
promote-rows_exist allocations key job (a ∷ workers) t h = ground (
  arith,
  h,
  promote-rows_exist allocations key job workers t,
  promote-has_row allocations key a.alloc_id t,
)

promote_all-keeps :
    (allocations : List Allocation) (job : String) (workers : List Allocation) (k : String)
    (t : HashTable)
    → is_live (or_default (select_new_version k allocations)) (lookup k t) ≡ true
    → is_live
        (or_default (select_new_version k allocations))
        (lookup k (promote_allocation_hash allocations job workers t))
      ≡ true
unfolding promote_allocation_hash
promote_all-keeps allocations job [] k t live = live
promote_all-keeps allocations job (a ∷ workers) k t live = elim (Bool-cases (non_removed job a)) [
  | inl on ↦ rw on (
      promote_all-keeps allocations job workers k
        (promote_allocation_state allocations a.alloc_id t)
        (promote-keeps allocations a.alloc_id k t live))
  | inr off ↦ rw off (promote_all-keeps allocations job workers k t live)
]

pub promote_all-rows_live :
    (allocations : List Allocation) (job : String) (workers : List Allocation) (t : HashTable)
    → rows_exist job workers t ≡ true
    → rows_live allocations job workers (promote_allocation_hash allocations job workers t) ≡ true
unfolding promote_allocation_hash rows_exist rows_live
promote_all-rows_live allocations job [] t h = refl
promote_all-rows_live allocations job (a ∷ workers) t h = elim (Bool-cases (non_removed job a)) [
  | inr off ↦ rw off (promote_all-rows_live allocations job workers t (ground (arith, h)))
  | inl on ↦
      let t' = promote_allocation_state allocations a.alloc_id t in
      let live =
        promote_all-keeps allocations job workers a.alloc_id t'
          (promote-is_live allocations a.alloc_id t (ground (arith, h, on))) in
      rw on (
        rw live (
          promote_all-rows_live allocations job workers t'
            (promote-rows_exist allocations a.alloc_id job workers t (ground (arith, h)))))
]
