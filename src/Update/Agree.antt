-- ===== src/Update/Agree.antt =====
-- The loops of handleUpdatedAllocations and handleUpdatedAllocationsWithPolicy, of
-- deploy/allocations_lifecycle.go, choose alike.
use maand.Prelude.{
  String, Bool, true, false, not, ◌&&◌, Option, none, some, List, [], ◌∷◌, ◌++◌, ◌≡◌, refl, sym, ap,
  ◌∙◌, arith, ◌==◌, ==_iff, comparable_String, if◌then◌else◌, Map, lookup, put, Result, ok, err,
  ◌>>=◌, append_assoc, append_nil,
}
use maand.Utils.{none_of}
use maand.Glob.{match_any}
use maand.Deploy.{Allocation, HashRow, HashTable}
use maand.Policy.{
  FileManifest, diff_file_manifests, rollout_action_sync, rollout_action_restart,
  rollout_action_reload, resolve_update_action, reload_action, restart_if_matched,
  restart_policy_never, restart_policy_always, restart_policy_reload,
}
use maand.Update.{
  UpdateError, Read, read_hash, read_versions, answered, find_allocation_id, find_file_manifests,
  or_empty, hash_changed, allocation_needs_version_rollout, allocation_rollout_reason,
  resolve_allocation_lifecycle, update_action, lifecycle_action, Split, add_worker, append_worker,
  split_workers, by_actions,
}

bind_congr :
    {A B : Type 0} (r : Result UpdateError A) (f g : A → Result UpdateError B)
    → ((a : A) → r ≡ ok a → f a ≡ g a)
    → (r >>= f) ≡ (r >>= g)
bind_congr (err e) f g h = refl
bind_congr (ok a) f g h = h a refl

bind_first :
    {A : Type 0} (r : Result UpdateError A) (f : A → String × List String)
    → (r >>= (λ a. ok (f a)) >>= λ (action, paths). ok action) ≡ (r >>= λ a. ok (f a).0)
bind_first (err e) f = refl
bind_first (ok a) f = refl

reasons :
    (c n f : Bool)
    → ◌≡◌ {A = Bool × Bool}
        (if c
          then (true, false)
          else if n
          then (false, true)
          else if f
          then (false, false)
          else (false, false))
        (c, n && not c)
reasons true true f = refl
reasons true false f = refl
reasons false true f = refl
reasons false false true = refl
reasons false false false = refl

reasons_ok :
    (c n f : Bool)
    → ◌≡◌ {A = Result UpdateError (Bool × Bool)}
        (if c
          then ok (true, false)
          else ok (if n then (false, true) else if f then (false, false) else (false, false)))
        (ok (c, n && not c))
reasons_ok true n f = ap (λ (p : Bool × Bool). ok p) (reasons true n f)
reasons_ok false n f = ap (λ (p : Bool × Bool). ok p) (reasons false n f)

==_comm : (a b : String) → (a == b) ≡ (b == a)
==_comm a b = ground (arith, ==_iff a b, ==_iff b a)

allocation_rollout_reason_lem :
    (reads : Read → Bool) (alloc_id : String) (allocations : List Allocation) (row : Option HashRow)
    (force : Bool)
    → reads (read_versions alloc_id) ≡ true
    → allocation_rollout_reason reads alloc_id allocations row force ≡ (
        answered (reads (read_hash alloc_id)) >>= λ _. ok (
          hash_changed row,
          allocation_needs_version_rollout alloc_id allocations row && not (hash_changed row),
        ))
unfolding allocation_rollout_reason
allocation_rollout_reason_lem reads alloc_id allocations none force read = rw read (
    ap (λ (p : Bool × Bool). answered (reads (read_hash alloc_id)) >>= λ _. ok p)
      (reasons false (allocation_needs_version_rollout alloc_id allocations none) force))
allocation_rollout_reason_lem reads alloc_id allocations (some row) force read =
    rw (==_comm row.current_hash (or_empty row.previous_hash)) (
      rw read (
        ap
          (λ (r : Result UpdateError (Bool × Bool)).
            answered (reads (read_hash alloc_id)) >>= λ _. r)
          (reasons_ok (hash_changed (some row))
            (allocation_needs_version_rollout alloc_id allocations (some row)) force)))

bind_then :
    {A B : Type 0} (r : Result UpdateError (Unit {0})) (a : A) (f : A → Result UpdateError B)
    (g : Result UpdateError B)
    → f a ≡ g
    → (r >>= (λ _. ok a) >>= f) ≡ (r >>= λ _. g)
bind_then (err e) a f g h = refl
bind_then (ok _) a f g h = h

bind_ok :
    {A B C : Type 0} (r : Result UpdateError A) (f : A → B) (g : B → C)
    → (r >>= (λ a. ok (f a)) >>= λ b. ok (g b)) ≡ (r >>= λ a. ok (g (f a)))
bind_ok (err e) f g = refl
bind_ok (ok a) f g = refl

abbrev action_or_none : Result UpdateError String → String
action_or_none (err e) = ""
action_or_none (ok action) = action

data Action : String → Type 0 where
  sync : Action rollout_action_sync
  restart : Action rollout_action_restart
  reload : Action rollout_action_reload

resolve_update_action-Action :
    (sync_only : Bool) (policy : String) (globs : List String) (previous current : FileManifest)
    (changed version_only legacy : Bool)
    → Action
        (resolve_update_action sync_only policy globs previous current changed version_only
          legacy).0
unfolding resolve_update_action reload_action
resolve_update_action-Action sync_only policy globs previous current changed version_only legacy =
    pick sync_only _ _ sync (
      pick (policy == restart_policy_never) _ _ sync (
        pick (policy == restart_policy_always) _ _ restart (
          pick (policy == restart_policy_reload) _ _
            (pick (version_only && not changed) _ _ reload (
              pick (legacy && changed) _ _ reload (
                pick (none_of globs) _ _ reload
                  (by_match (match_any globs (diff_file_manifests previous current))))))
            restart)))
  where
    pick :
        (b : Bool) (x y : String × List String)
        → Action x.0
        → Action y.0
        → Action (if b then x else y).0
    pick true x y p q = p
    pick false x y p q = q

    by_match : (paths : List String) → Action (restart_if_matched paths).0
    by_match [] = reload
    by_match (path ∷ paths) = restart

bind_step :
    {A B C : Type 0} (r : Result UpdateError A) (f : A → Result UpdateError C)
    (g : A → Result UpdateError B) (k : B → Result UpdateError C)
    → ((a : A) → r ≡ ok a → f a ≡ (g a >>= k))
    → (r >>= f) ≡ (r >>= g >>= k)
bind_step (err e) f g k h = refl
bind_step (ok a) f g k h = h a refl

abbrev actions : List String → List String → Map String (List String)
actions restarts reloads =
    (rollout_action_restart, restarts) ∷ (rollout_action_reload, reloads) ∷ []

abbrev appended : List String → List String → Split → Map String (List String)
appended restarts reloads s = actions (restarts ++ s.restart_workers) (reloads ++ s.reload_workers)

add-appended :
    (k : Map String (List String) → Result UpdateError (Map String (List String)))
    (rest : Result UpdateError Split)
    → ((restarts reloads : List String)
        → k (actions restarts reloads) ≡ (rest >>= λ s. ok (appended restarts reloads s)))
    → (action w : String) (restarts reloads : List String) → Action action
    → ◌≡◌ {A = Result UpdateError (Map String (List String))}
        (elim (action == rollout_action_sync) [
          | true ↦ k (actions restarts reloads)
          | false ↦ k (append_worker action w (actions restarts reloads))
        ])
        (rest >>= (λ s. ok (add_worker action w s)) >>= λ s. ok (appended restarts reloads s))
unfolding put lookup
add-appended k rest h action w restarts reloads sync =
    h restarts reloads ∙ sym (bind_ok rest (λ s. s) (appended restarts reloads))
add-appended k rest h action w restarts reloads restart =
    h (restarts ++ w ∷ []) reloads
    ∙ bind_congr rest _ _ (λ s _.
      ap (λ (ws : List String). ok (actions ws (reloads ++ s.reload_workers)))
        (append_assoc restarts (w ∷ []) s.restart_workers))
    ∙ sym (bind_ok rest (add_worker rollout_action_restart w) (appended restarts reloads))
add-appended k rest h action w restarts reloads reload =
    h restarts (reloads ++ w ∷ [])
    ∙ bind_congr rest _ _ (λ s _.
      ap (λ (ws : List String). ok (actions (restarts ++ s.restart_workers) ws))
        (append_assoc reloads (w ∷ []) s.reload_workers))
    ∙ sym (bind_ok rest (add_worker rollout_action_reload w) (appended restarts reloads))

module _ (decode : String → Result UpdateError FileManifest) (reads : Read → Bool)
    (sync_only : Bool) (policy : String) (globs : List String) (job : String)
    (allocations : List Allocation) (t : HashTable)
    (versions_read : (alloc_id : String) → reads (read_versions alloc_id) ≡ true) where
  lifecycle_action-update_action :
      (force : Bool) (worker_ip : String)
      → lifecycle_action decode reads sync_only policy globs job allocations t force worker_ip
        ≡ update_action decode reads sync_only policy globs job allocations t worker_ip
  unfolding lifecycle_action update_action resolve_allocation_lifecycle
  lifecycle_action-update_action force worker_ip =
      bind_congr
        (find_allocation_id decode reads sync_only policy globs job allocations t worker_ip) _ _
        (λ alloc_id found.
          rw
            (allocation_rollout_reason_lem reads alloc_id allocations (lookup alloc_id t) force
              (versions_read alloc_id))
            (rw (versions_read alloc_id) (
              bind_then (answered (reads (read_hash alloc_id))) _ _ _ (
                rw found (
                  bind_first
                    (find_file_manifests decode reads sync_only policy globs job allocations t
                      alloc_id)
                    (λ m.
                      resolve_update_action sync_only policy globs m.previous m.current
                        (hash_changed (lookup alloc_id t))
                        (allocation_needs_version_rollout alloc_id allocations (lookup alloc_id t)
                          && not (hash_changed (lookup alloc_id t)))
                        (not m.has_previous_files)))))))

  Action-update_action :
      (worker_ip action : String)
      → update_action decode reads sync_only policy globs job allocations t worker_ip ≡ ok action
      → Action action
  unfolding update_action
  Action-update_action worker_ip action h =
      from_ok (find_allocation_id decode reads sync_only policy globs job allocations t worker_ip) _
        (λ alloc_id. from_ok (answered (reads (read_hash alloc_id))) _ (λ _.
          from_ok (answered (reads (read_versions alloc_id))) _ (λ _.
            from_ok
              (find_file_manifests decode reads sync_only policy globs job allocations t alloc_id) _
              (λ m. λ a h.
                rw (ap action_or_none (sym h)) (
                  resolve_update_action-Action sync_only policy globs m.previous m.current _ _
                    _)))))
        action h
    where
      from_ok :
          {A : Type 0} (r : Result UpdateError A) (f : A → Result UpdateError String)
          → ((x : A) (a : String) → f x ≡ ok a → Action a)
          → (a : String) → (r >>= f) ≡ ok a
          → Action a
      from_ok (err e) f k a h = absurd (cc)
      from_ok (ok x) f k a h = k x a h

  by_actions_from :
      (force : Bool) (workers restarts reloads : List String)
      → by_actions decode reads sync_only policy globs job allocations t force
          (actions restarts reloads)
          workers
        ≡ (split_workers decode reads sync_only policy globs job allocations t workers >>= λ s.
            ok (appended restarts reloads s))
  unfolding by_actions split_workers
  by_actions_from force [] restarts reloads = rw (append_nil restarts, append_nil reloads) refl
  by_actions_from force (w ∷ workers) restarts reloads =
      let k : Map String (List String) → Result UpdateError (Map String (List String)) =
        λ m. by_actions decode reads sync_only policy globs job allocations t force m workers in
      let rest = split_workers decode reads sync_only policy globs job allocations t workers in
      rw (lifecycle_action-update_action force w) (
        bind_step (update_action decode reads sync_only policy globs job allocations t w) _
          (λ action. rest >>= λ s. ok (add_worker action w s))
          (λ s. ok (appended restarts reloads s))
          (λ action h.
            add-appended k rest (by_actions_from force workers) action w restarts reloads
              (Action-update_action w action h)))

-- Where the versions can be read, the loops of handleUpdatedAllocations and of
-- handleUpdatedAllocationsWithPolicy, which reads them only where the hash has not changed, fail
-- alike, also where other reads fail, and where they do not fail they choose the same workers for a
-- restart, in the same order, and the same for a reload.
pub by_actions-split_workers :
    (decode : String → Result UpdateError FileManifest) (reads : Read → Bool)
    (sync_only force : Bool) (policy : String) (globs : List String) (job : String)
    (allocations : List Allocation) (t : HashTable) (workers : List String)
    → ((alloc_id : String) → reads (read_versions alloc_id) ≡ true)
    → by_actions decode reads sync_only policy globs job allocations t force
        ((rollout_action_restart, []) ∷ (rollout_action_reload, []) ∷ [])
        workers
      ≡ (split_workers decode reads sync_only policy globs job allocations t workers >>= λ s. ok (
          (rollout_action_restart, s.restart_workers)
          ∷ (rollout_action_reload, s.reload_workers)
          ∷ []))
by_actions-split_workers decode reads sync_only force policy globs job allocations t workers
      versions =
    by_actions_from decode reads sync_only policy globs job allocations t versions force workers []
      []
