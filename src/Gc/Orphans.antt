-- ===== src/Gc/Orphans.antt =====
-- The namespaces that gc/references.go purges.
use maand.Prelude.{
  String, Bool, true, false, not, ◌&&◌, ◌||◌, List, [], ◌∷◌, ◌≡◌, refl, ap, ◌∙◌, arith, ◌==◌,
  ==_iff, comparable_String, if◌then◌else◌, contains, add, Option, none, some, Result, err,
}
use maand.Kv.{Entry, Store, KvError, not_found, find, get, live_entry, purge_namespace}
use maand.Kv.Lookups.{find-purge_namespace, purged_at}
use maand.Gc.{
  RemovedAllocation, allocation_namespace, worker_namespace, worker_tags_namespace, purge_all,
  purge_allocations, purge_workers,
}

abbrev pub without : Bool → Result KvError Entry → Result KvError Entry
without b found = if b then err not_found else found

get-purge_namespace :
    (n m k : String) (s : Store) → get m k (purge_namespace n s) ≡ without (m == n) (get m k s)
unfolding get
get-purge_namespace n m k s =
    ap live_entry (find-purge_namespace n s m k) ∙ gone (m == n) (find m k s)
  where
    gone :
        (b : Bool) (o : Option Entry)
        → live_entry (if b then purged_at o else o) ≡ without b (live_entry o)
    gone false o = refl
    gone true none = refl
    gone true (some e) = ground arith

pub without_twice :
    (a b : Bool) (found : Result KvError Entry)
    → without a (without b found) ≡ without (b || a) found
without_twice true true found = refl
without_twice true false found = refl
without_twice false true found = refl
without_twice false false found = refl

pub get-purge_all :
    (namespaces : List String) (m k : String) (s : Store)
    → get m k (purge_all namespaces s) ≡ without (contains m namespaces) (get m k s)
unfolding purge_all contains
get-purge_all [] m k s = refl
get-purge_all (n ∷ namespaces) m k s =
    get-purge_all namespaces m k (purge_namespace n s)
    ∙ ap (without (contains m namespaces)) (get-purge_namespace n m k s)
    ∙ without_twice (contains m namespaces) (m == n) (get m k s)

unfoldable pub some_removed : (RemovedAllocation → Bool) → List RemovedAllocation → Bool
some_removed p [] = false
some_removed p (a ∷ allocs) = p a || some_removed p allocs

unfoldable pub some_text : (String → Bool) → List String → Bool
some_text p [] = false
some_text p (x ∷ xs) = p x || some_text p xs

pub no_text : (p : String → Bool) (b : Bool) → (some_text p [] || b) ≡ b
unfolding some_text
no_text p b = refl

some_text-contains :
    (p : String → Bool) (x : String) (xs : List String)
    → contains x xs ≡ true
    → p x ≡ true
    → some_text p xs ≡ true
unfolding some_text contains
some_text-contains p x [] h g = absurd (cc)
some_text-contains p x (y ∷ xs) h g =
    ground (arith, h, g, some_text-contains p x xs, ==_iff x y, λ (e : x ≡ y). ap p e)

some_text-add :
    (p : String → Bool) (x : String) (xs : List String)
    → some_text p (add x xs) ≡ (p x || some_text p xs)
unfolding some_text add
some_text-add p x xs = ground (arith, some_text-contains p x xs)

abbrev pub worker_has : String → String → Bool
worker_has m ip = m == worker_namespace ip || m == worker_tags_namespace ip

pub get-purge_workers :
    (ips : List String) (m k : String) (s : Store)
    → get m k (purge_workers ips s) ≡ without (some_text (worker_has m) ips) (get m k s)
unfolding purge_workers some_text
get-purge_workers [] m k s = refl
get-purge_workers (ip ∷ ips) m k s =
    get-purge_workers ips m k _
    ∙ ap (without (some_text (worker_has m) ips)) (
        get-purge_namespace (worker_tags_namespace ip) m k (purge_namespace (worker_namespace ip) s)
        ∙ ap (without (m == worker_tags_namespace ip))
            (get-purge_namespace (worker_namespace ip) m k s)
        ∙ without_twice (m == worker_tags_namespace ip) (m == worker_namespace ip) (get m k s))
    ∙ without_twice (some_text (worker_has m) ips) (worker_has m ip) (get m k s)

pub get-purge_allocations :
    (catalog : List String) (allocs : List RemovedAllocation) (off : List String) (m k : String)
    (s : Store)
    → get m k (purge_allocations catalog allocs off s).1
      ≡ without (some_removed (λ a. m == allocation_namespace a) allocs) (get m k s)
unfolding purge_allocations some_removed
get-purge_allocations catalog [] off m k s = refl
get-purge_allocations catalog (a ∷ allocs) off m k s =
    get-purge_allocations catalog allocs _ m k (purge_namespace (allocation_namespace a) s)
    ∙ ap (without (some_removed (λ a. m == allocation_namespace a) allocs))
        (get-purge_namespace (allocation_namespace a) m k s)
    ∙ without_twice (some_removed (λ a. m == allocation_namespace a) allocs)
        (m == allocation_namespace a) (get m k s)

pub off_workers :
    (p : String → Bool) (catalog : List String) (allocs : List RemovedAllocation)
    (off : List String) (s : Store)
    → some_text p (purge_allocations catalog allocs off s).0 ≡ (
        some_text p off
        || some_removed (λ a. not (contains a.worker_ip catalog) && p a.worker_ip) allocs)
unfolding purge_allocations some_removed
off_workers p catalog [] off s = ground arith
off_workers p catalog (a ∷ allocs) off s =
    off_workers p catalog allocs (if contains a.worker_ip catalog then off else add a.worker_ip off)
      (purge_namespace (allocation_namespace a) s)
    ∙ ground (arith, some_text-add p a.worker_ip off)
