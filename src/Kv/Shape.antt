-- ===== src/Kv/Shape.antt =====
-- The methods of kv/store.go and the loading of kv/persist.go keep the store a map of maps.
use maand.Prelude.{
  String, Bool, true, false, Option, none, some, List, [], ◌∷◌, ◌≡◌, refl, arith, ℤ, ◌==◌,
  comparable_String, if◌then◌else◌, Map, lookup, put, keys, Distinct, Distinct-keys-put, Bool-cases,
  inl, inr, ap, nat_beq,
}
use mathlib.Core.Path.{subst}
use maand.Kv.{
  Entry, Store, new_store, entries_or_empty, namespace_map, put_value, delete_found, delete_in,
  delete_key, purge_entries, purge_in, purge_namespace,
}
use maand.Kv.Table.{Row, entry_of_row, max_version, load_rows}
use maand.Kv.Namespaces.{AllDistinct, IsMap}

AllDistinct-put :
    (n : String) (ns : Map String Entry) (m : Map String (Map String Entry))
    → Distinct (keys ns)
    → AllDistinct m
    → AllDistinct (put n ns m)
unfolding put
AllDistinct-put n ns [] d a = (d, tt)
AllDistinct-put n ns ((i, w) ∷ m) d a = elim (Bool-cases (n == i)) [
  | inl same ↦ rw same (d, a.1)
  | inr other ↦ rw other (a.0, AllDistinct-put n ns m d a.1)
]

Distinct-lookup :
    (n : String) (m : Map String (Map String Entry)) (ns : Map String Entry)
    → AllDistinct m
    → lookup n m ≡ some ns
    → Distinct (keys ns)
unfolding lookup
Distinct-lookup n [] ns a h = absurd (cc)
Distinct-lookup n ((i, w) ∷ m) ns a h = elim (Bool-cases (n == i)) [
  | inl same ↦
      let e : w ≡ ns = ground arith in subst (λ (x : Map String Entry). Distinct (keys x)) e a.0
  | inr other ↦ Distinct-lookup n m ns a.1 (rw other at h)
]

put_namespace-IsMap :
    (n : String) (ns : Map String Entry) (s : Store)
    → Distinct (keys ns)
    → IsMap s
    → IsMap (record s { namespaces = put n ns s.namespaces })
put_namespace-IsMap n ns s d h = record {
  namespaces_distinct = Distinct-keys-put n ns s.namespaces h.namespaces_distinct;
  keys_distinct = AllDistinct-put n ns s.namespaces d h.keys_distinct;
}

pub namespace_map-Distinct :
    (n : String) (s : Store) → IsMap s → Distinct (keys (namespace_map s n))
unfolding namespace_map
namespace_map-Distinct n s h = split (lookup n s.namespaces) refl
  where
    split :
        (o : Option (Map String Entry))
        → lookup n s.namespaces ≡ o
        → Distinct (keys (entries_or_empty o))
    split none e = unfold keys in tt
    split (some ns) e = Distinct-lookup n s.namespaces ns h.keys_distinct e

pub put_value-IsMap :
    (n k v : String) (ttl : ℤ) (trim : Bool) (s : Store)
    → IsMap s
    → IsMap (put_value n k v ttl trim s)
unfolding put_value
put_value-IsMap n k v ttl trim s h =
    put_namespace-IsMap n _ s (Distinct-keys-put k _ _ (namespace_map-Distinct n s h)) h

delete_in-IsMap :
    (n k : String) (s : Store) (o : Option (Map String Entry))
    → lookup n s.namespaces ≡ o
    → IsMap s
    → IsMap (delete_in n k s o).0
unfolding delete_in
delete_in-IsMap n k s none e h = h
delete_in-IsMap n k s (some ns) e h = split (lookup k ns)
  where
    split : (o : Option Entry) → IsMap (delete_found n k s ns o).0
    split none = h
    split (some x) =
        put_namespace-IsMap n _ s
          (Distinct-keys-put k _ ns (Distinct-lookup n s.namespaces ns h.keys_distinct e)) h

pub delete_key-IsMap : (n k : String) (s : Store) → IsMap s → IsMap (delete_key n k s).0
unfolding delete_key
delete_key-IsMap n k s h = delete_in-IsMap n k s (lookup n s.namespaces) refl h

keys-purge_entries : (ns : Map String Entry) → keys (purge_entries ns) ≡ keys ns
unfolding purge_entries keys
keys-purge_entries [] = refl
keys-purge_entries ((k, e) ∷ ns) = ap (λ (ks : List String). k ∷ ks) (keys-purge_entries ns)

purge_in-IsMap :
    (n : String) (s : Store) (o : Option (Map String Entry))
    → lookup n s.namespaces ≡ o
    → IsMap s
    → IsMap (purge_in n s o)
unfolding purge_in
purge_in-IsMap n s none e h = h
purge_in-IsMap n s (some ns) e h =
    put_namespace-IsMap n _ s
      (rw (keys-purge_entries ns) (Distinct-lookup n s.namespaces ns h.keys_distinct e)) h

pub purge_namespace-IsMap : (n : String) (s : Store) → IsMap s → IsMap (purge_namespace n s)
unfolding purge_namespace
purge_namespace-IsMap n s h = purge_in-IsMap n s (lookup n s.namespaces) refl h

pub new_store-IsMap : IsMap new_store
unfolding new_store keys
new_store-IsMap = record { namespaces_distinct = tt; keys_distinct = tt }

pub load_rows-IsMap : (all rows : List Row) (s : Store) → IsMap s → IsMap (load_rows all rows s)
unfolding load_rows
load_rows-IsMap all [] s h = h
load_rows-IsMap all (r ∷ rows) s h =
    load_rows-IsMap all rows _ (split (nat_beq r.version (max_version r.namespace r.key all)))
  where
    s' : Store
    s' = record s {
      namespaces =
          put r.namespace (put r.key (entry_of_row r) (namespace_map s r.namespace)) s.namespaces;
    }

    split : (b : Bool) → IsMap (if b then s' else s)
    split true =
        put_namespace-IsMap r.namespace _ s
          (Distinct-keys-put r.key _ _ (namespace_map-Distinct r.namespace s h)) h
    split false = h
