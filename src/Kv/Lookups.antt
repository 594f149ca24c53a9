-- ===== src/Kv/Lookups.antt =====
-- What each method of kv/store.go does to each key.
use maand.Prelude.{
  String, Bool, ◌&&◌, Option, none, some, [], ◌∷◌, ◌≡◌, refl, arith, ap, ◌∙◌, ℤ, ◌==◌, ==_iff,
  comparable_String, if◌then◌else◌, Map, lookup, put, lookup-put, Bool-cases, inl, inr,
}
use mathlib.Core.Path.{ap₂}
use maand.Text.{trim_space}
use maand.Kv.{
  Entry, Store, entries_or_empty, namespace_map, write_entry, put_value, mark_deleted, delete_found,
  delete_in, delete_key, entry_in, find, purge_entry, purge_entries, purge_in, purge_namespace,
}

entry_in-or_empty :
    (key : String) (o : Option (Map String Entry))
    → lookup key (entries_or_empty o) ≡ entry_in key o
unfolding lookup
entry_in-or_empty key none = refl
entry_in-or_empty key (some ns) = refl

-- Writing one entry into its namespace changes the lookups of that key alone.
pub find-write :
    (n k : String) (e : Entry) (s : Store) (m j : String)
    → find m j (record s { namespaces = put n (put k e (namespace_map s n)) s.namespaces })
      ≡ (if m == n && j == k then some e else find m j s)
unfolding find namespace_map
find-write n k e s m j = elim (Bool-cases (m == n)) [
  | inl same ↦ rw lookup-put (
      rw same (
        rw lookup-put
          (rw (entry_in-or_empty j (lookup n s.namespaces)) (rw ((==_iff m n).0 same) refl))))
  | inr other ↦ rw lookup-put (rw other refl)
]

lookup-namespace_map : (n k : String) (s : Store) → lookup k (namespace_map s n) ≡ find n k s
unfolding find namespace_map
lookup-namespace_map n k s = entry_in-or_empty k (lookup n s.namespaces)

pub find-put_value :
    (n k v : String) (ttl : ℤ) (trim : Bool) (s : Store) (m j : String)
    → find m j (put_value n k v ttl trim s) ≡ (
        if m == n && j == k
        then some (write_entry (find n k s) (if trim then trim_space v else v) ttl)
        else find m j s)
unfolding put_value
find-put_value n k v ttl trim s m j =
    rw (find-write n k _ s m j) (rw (lookup-namespace_map n k s) refl)

abbrev pub deleted_at : Option Entry → Option Entry
deleted_at none = none
deleted_at (some e) = some (mark_deleted e)

namespace_map-found :
    (n : String) (s : Store) (ns : Map String Entry)
    → lookup n s.namespaces ≡ some ns
    → namespace_map s n ≡ ns
unfolding namespace_map
namespace_map-found n s ns h = ap entries_or_empty h

find-found :
    (n k : String) (s : Store) (ns : Map String Entry) (o : Option Entry)
    → lookup n s.namespaces ≡ some ns
    → lookup k ns ≡ o
    → find n k s ≡ o
unfolding find
find-found n k s ns o h g = ap (entry_in k) h ∙ g

find-missing : (n k : String) (s : Store) → lookup n s.namespaces ≡ none → find n k s ≡ none
unfolding find
find-missing n k s h = ap (entry_in k) h

-- Where the key is missing, "deleted at that key" is the same lookups.
unchanged_at_none :
    (n k : String) (s : Store) (m j : String)
    → find n k s ≡ none
    → find m j s ≡ (if m == n && j == k then deleted_at (find n k s) else find m j s)
unchanged_at_none n k s m j h = elim (Bool-cases (m == n && j == k)) [
  | inr other ↦ rw other refl
  | inl same ↦
      rw (same, h)
        (ground (
          arith,
          h,
          ==_iff m n,
          ==_iff j k,
          λ (p : m ≡ n) (q : j ≡ k). ap₂ (λ (x y : String). find x y s) p q,
        ))
]

find-mark_deleted :
    (n k : String) (e : Entry) (s : Store) (ns : Map String Entry) (m j : String)
    → lookup n s.namespaces ≡ some ns
    → lookup k ns ≡ some e
    → find m j (record s { namespaces = put n (put k (mark_deleted e) ns) s.namespaces })
      ≡ (if m == n && j == k then deleted_at (find n k s) else find m j s)
find-mark_deleted n k e s ns m j h g =
    rw (find-found n k s ns (some e) h g)
      (rw (namespace_map-found n s ns h) at (find-write n k (mark_deleted e) s m j))

find-delete_found :
    (n k : String) (s : Store) (ns : Map String Entry) (o : Option Entry) (m j : String)
    → lookup n s.namespaces ≡ some ns
    → lookup k ns ≡ o
    → find m j (delete_found n k s ns o).0
      ≡ (if m == n && j == k then deleted_at (find n k s) else find m j s)
unfolding delete_found
find-delete_found n k s ns none m j h g = unchanged_at_none n k s m j (find-found n k s ns none h g)
find-delete_found n k s ns (some e) m j h g = find-mark_deleted n k e s ns m j h g

find-delete_in :
    (n k : String) (s : Store) (o : Option (Map String Entry)) (m j : String)
    → lookup n s.namespaces ≡ o
    → find m j (delete_in n k s o).0
      ≡ (if m == n && j == k then deleted_at (find n k s) else find m j s)
unfolding delete_in
find-delete_in n k s none m j h = unchanged_at_none n k s m j (find-missing n k s h)
find-delete_in n k s (some ns) m j h = find-delete_found n k s ns (lookup k ns) m j h refl

pub find-delete_key :
    (n k : String) (s : Store) (m j : String)
    → find m j (delete_key n k s).0
      ≡ (if m == n && j == k then deleted_at (find n k s) else find m j s)
unfolding delete_key
find-delete_key n k s m j = find-delete_in n k s (lookup n s.namespaces) m j refl

abbrev pub purged_at : Option Entry → Option Entry
purged_at none = none
purged_at (some e) = some (purge_entry e)

lookup-purge_entries :
    (k : String) (ns : Map String Entry) → lookup k (purge_entries ns) ≡ purged_at (lookup k ns)
unfolding lookup purge_entries
lookup-purge_entries k [] = refl
lookup-purge_entries k ((j, e) ∷ ns) = ground (arith, lookup-purge_entries k ns)

find-purge_in :
    (n : String) (s : Store) (o : Option (Map String Entry)) (m j : String)
    → lookup n s.namespaces ≡ o
    → find m j (purge_in n s o) ≡ (if m == n then purged_at (find m j s) else find m j s)
unfolding purge_in find
find-purge_in n s none m j h = elim (Bool-cases (m == n)) [
  | inr other ↦ rw other refl
  | inl same ↦ rw same (rw ((==_iff m n).0 same) (rw (h, entry_in) refl))
]
find-purge_in n s (some ns) m j h = elim (Bool-cases (m == n)) [
  | inr other ↦ rw lookup-put (rw other refl)
  | inl same ↦
      rw lookup-put (
        rw same (rw (lookup-purge_entries j ns) (rw ((==_iff m n).0 same) (rw (h, entry_in) refl))))
]

pub find-purge_namespace :
    (n : String) (s : Store) (m j : String)
    → find m j (purge_namespace n s) ≡ (if m == n then purged_at (find m j s) else find m j s)
unfolding purge_namespace
find-purge_namespace n s m j = find-purge_in n s (lookup n s.namespaces) m j refl
