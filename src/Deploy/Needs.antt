-- ===== src/Deploy/Needs.antt =====
-- When a job needs a rollout: JobNeedsRollout of deploy/rollout.go, allocation by allocation.
use maand.Prelude.{
  String, Bool, true, false, not, ◌&&◌, ◌||◌, Option, List, [], ◌∷◌, ◌≡◌, refl, ap, ◌∙◌, arith,
  comparable_String, if◌then◌else◌, lookup, ◌==◌, ==_iff, ◌⊎◌, ◌↔◌, none, some, Option-cases,
  Bool-cases, inl, inr,
}
use maand.Deploy.{
  Allocation, HashRow, HashTable, non_removed, is_new, is_updated, is_version_pending, has_no_row,
  or_default, workers_where, some_workers, hash_row_missing, get_new_allocations,
  get_updated_non_removed_allocations, get_version_pending_non_removed_allocations,
  job_needs_rollout,
}

-- The allocation is to be rolled out: nothing was ever staged for it, or it is enabled and nothing is
-- live on it, or its live content is not the staged one, or its running version not the target.
abbrev pub allocation_pending : Allocation → Option HashRow → Bool
allocation_pending a row =
    has_no_row row
    || ((is_new row && not a.disabled) || (is_updated row || is_version_pending a.new_version row))

unfoldable pub some_pending : String → List Allocation → HashTable → Bool
some_pending job [] t = false
some_pending job (a ∷ allocations) t =
    (non_removed job a && allocation_pending a (lookup a.alloc_id t))
    || some_pending job allocations t

unfoldable pub holds_for_some : (Allocation → Bool) → List Allocation → Bool
holds_for_some p [] = false
holds_for_some p (a ∷ allocations) = p a || holds_for_some p allocations

some_workers-where :
    (p : Allocation → Bool) (allocations : List Allocation)
    → some_workers (workers_where p allocations) ≡ holds_for_some p allocations
unfolding workers_where holds_for_some
some_workers-where p [] = refl
some_workers-where p (a ∷ allocations) = elim (Bool-cases (p a)) [
  | inl holds ↦ rw holds refl
  | inr fails ↦ rw fails (some_workers-where p allocations)
]

first_of : Bool → Bool → Bool → Bool → Bool
first_of m n u v = if m then true else if n then true else if u then true else v

shuffle :
    (r h w d u v m' n' u' v' : Bool)
    → first_of
        (if r && h then true else m')
        ((w && (r && d)) || n')
        ((u && r) || u')
        ((r && v) || v')
      ≡ ((r && (h || ((w && d) || (u || v)))) || first_of m' n' u' v')
unfolding first_of
shuffle false h false d false v m' n' u' v' = refl
shuffle false h false d true v m' n' u' v' = refl
shuffle false h true d false v m' n' u' v' = refl
shuffle false h true d true v m' n' u' v' = refl
shuffle true true w d u v m' n' u' v' = refl
shuffle true false w d u v true n' u' v' = ground arith
shuffle true false w d u v false n' u' v' = ground arith

holds_for_some-or :
    (job : String) (t : HashTable) (allocations : List Allocation)
    → first_of
        (hash_row_missing job allocations t)
        (holds_for_some
          (λ a. is_new (lookup a.alloc_id t) && (non_removed job a && not a.disabled))
          allocations)
        (holds_for_some (λ a. is_updated (lookup a.alloc_id t) && non_removed job a) allocations)
        (holds_for_some
          (λ a. non_removed job a && is_version_pending a.new_version (lookup a.alloc_id t))
          allocations)
      ≡ some_pending job allocations t
unfolding holds_for_some hash_row_missing some_pending first_of
holds_for_some-or job t [] = refl
holds_for_some-or job t (a ∷ allocations) =
    let row = lookup a.alloc_id t in
    let tail = holds_for_some-or job t allocations in
    shuffle (non_removed job a) (has_no_row row) (is_new row) (not a.disabled) (is_updated row)
      (is_version_pending a.new_version row) _ _ _ _
    ∙ ap (λ b. (non_removed job a && allocation_pending a row) || b) tail

pub job_needs_rollout-some_pending :
    (job : String) (allocations : List Allocation) (t : HashTable)
    → job_needs_rollout job allocations t ≡ some_pending job allocations t
unfolding job_needs_rollout get_new_allocations get_updated_non_removed_allocations
    get_version_pending_non_removed_allocations first_of
job_needs_rollout-some_pending job allocations t =
    rw (some_workers-where, some_workers-where, some_workers-where)
      (holds_for_some-or job t allocations)

-- A version column, where NULL is the default version.
abbrev pub version_in : Option String → String
version_in none = "0.0.0"
version_in (some version) = version

pub data Pending (a : Allocation) (row : Option HashRow) : Type 0 where
  never_staged : row ≡ none → Pending a row
  not_live :
      (r : HashRow) → row ≡ some r → r.previous_hash ≡ none → a.disabled ≡ false → Pending a row
  content_changed :
      (r : HashRow) (live : String)
      → row ≡ some r
      → r.previous_hash ≡ some live
      → ¬ (live ≡ r.current_hash)
      → Pending a row
  version_changed :
      (r : HashRow)
      → row ≡ some r
      → ¬ (version_in r.current_version ≡ version_in a.new_version)
      → Pending a row

-- Some allocation of the job that is not removed is pending.
abbrev pub SomePending : String → List Allocation → HashTable → Type 0
SomePending job [] t = ⊥
SomePending job (a ∷ allocations) t =
    ((a.job ≡ job) × (a.removed ≡ false) × Pending a (lookup a.alloc_id t))
    ⊎ SomePending job allocations t

or_default_lem : (v : Option String) → or_default v ≡ version_in v
or_default_lem none = refl
or_default_lem (some v) = refl

version_test :
    (a : Allocation) (r : HashRow)
    → is_version_pending a.new_version (some r)
      ≡ not (version_in r.current_version == version_in a.new_version)
version_test a r = rw (or_default_lem r.current_version, or_default_lem a.new_version) refl

version_test_iff :
    (a : Allocation) (r : HashRow)
    → (is_version_pending a.new_version (some r) ≡ true)
      ↔ (¬ (version_in r.current_version ≡ version_in a.new_version))
version_test_iff a r = (
  λ h e. ground (
    arith,
    h,
    version_test a r,
    e,
    ==_iff (version_in r.current_version) (version_in a.new_version),
  ),
  λ h.
      version_test a r
      ∙ ground (arith, h, ==_iff (version_in r.current_version) (version_in a.new_version)),
)

-- The tests by what is live on the allocation.
not_live_test :
    (a : Allocation) (r : HashRow)
    → r.previous_hash ≡ none
    → allocation_pending a (some r) ≡ (not a.disabled || is_version_pending a.new_version (some r))
not_live_test a r e = rw e refl

live_test :
    (a : Allocation) (r : HashRow) (live : String)
    → r.previous_hash ≡ some live
    → allocation_pending a (some r)
      ≡ (not (live == r.current_hash) || is_version_pending a.new_version (some r))
live_test a r live e = rw e refl

allocation_pending-Pending :
    (a : Allocation) (row : Option HashRow) → allocation_pending a row ≡ true → Pending a row
allocation_pending-Pending a none h = never_staged refl
allocation_pending-Pending a (some r) h =
    elim (Bool-cases (is_version_pending a.new_version (some r))) [
      | inl other ↦ version_changed r refl ((version_test_iff a r).0 other)
      | inr same ↦ elim (Option-cases r.previous_hash) [
        | inl unset ↦ not_live r refl unset (ground (arith, h, same, not_live_test a r unset))
        | inr (live, was) ↦
            content_changed r live refl was
              (λ e. ground (arith, h, same, live_test a r live was, e, ==_iff live r.current_hash))
      ]
    ]

Pending-allocation_pending :
    (a : Allocation) (row : Option HashRow) → Pending a row → allocation_pending a row ≡ true
Pending-allocation_pending a row (never_staged e) = rw e refl
Pending-allocation_pending a row (not_live r e unset d) =
    rw e (not_live_test a r unset ∙ ground (arith, d))
Pending-allocation_pending a row (content_changed r live e was h) =
    rw e (live_test a r live was ∙ ground (arith, h, ==_iff live r.current_hash))
Pending-allocation_pending a row (version_changed r e h) =
    let t = (version_test_iff a r).1 h in rw e (rw t (ground arith))

Pending-head :
    (job : String) (a : Allocation) (row : Option HashRow) (later : Bool) (Later : Type 0)
    → (later ≡ true) ↔ Later
    → (((non_removed job a && allocation_pending a row) || later) ≡ true)
      ↔ (((a.job ≡ job) × (a.removed ≡ false) × Pending a row) ⊎ Later)
Pending-head job a row later Later rest = (forth, back)
  where
    forth :
        ((non_removed job a && allocation_pending a row) || later) ≡ true
        → ((a.job ≡ job) × (a.removed ≡ false) × Pending a row) ⊎ Later
    forth h = elim (Bool-cases (non_removed job a && allocation_pending a row)) [
      | inl here ↦ inl (
        ground (arith, here, ==_iff a.job job),
        ground (arith, here),
        allocation_pending-Pending a row (ground (arith, here)),
      )
      | inr other ↦ inr (rest.0 (ground (arith, h, other)))
    ]

    back :
        ((a.job ≡ job) × (a.removed ≡ false) × Pending a row) ⊎ Later
        → ((non_removed job a && allocation_pending a row) || later) ≡ true
    back (inl (j, r, p)) =
        ground (arith, j, r, Pending-allocation_pending a row p, ==_iff a.job job)
    back (inr h) = let t = rest.1 h in rw t (ground arith)

some_pending-SomePending :
    (job : String) (allocations : List Allocation) (t : HashTable)
    → (some_pending job allocations t ≡ true) ↔ SomePending job allocations t
unfolding some_pending
some_pending-SomePending job [] t = (λ h. absurd (cc), λ h. absurd h)
some_pending-SomePending job (a ∷ allocations) t =
    Pending-head job a (lookup a.alloc_id t) (some_pending job allocations t)
      (SomePending job allocations t) (some_pending-SomePending job allocations t)

-- A job needs a rollout exactly if one of its allocations that is not removed is pending: nothing
-- was ever staged for it, or it is enabled and nothing is live on it, or the live hash is not the
-- staged one, or the version that runs is not the target, where a missing version is 0.0.0.
pub job_needs_rollout-SomePending :
    (job : String) (allocations : List Allocation) (t : HashTable)
    → (job_needs_rollout job allocations t ≡ true) ↔ SomePending job allocations t
job_needs_rollout-SomePending job allocations t =
    rw (job_needs_rollout-some_pending job allocations t)
      (some_pending-SomePending job allocations t)
