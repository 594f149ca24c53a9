-- ===== src/Kv/Client.antt =====
-- What a caller of kv/store.go relies on.
use maand.Prelude.{
  ◌<◌, String, Bool, true, false, not, ◌&&◌, ◌||◌, Option, none, some, [], ◌∷◌, ◌≡◌, refl, ap, ◌∙◌,
  arith, ℤ, eq_ℤ, eq_ℤ_iff, ◌==◌, ==_iff, ==_refl, nat_beq, comparable_String, if◌then◌else◌, Map,
  lookup, keys, contains, Distinct, lookup_absent, Bool-cases, inl, inr, ◌⊎◌, Result, ok, err,
}
use maand.Text.{trim_space}
use maand.Kv.{
  Entry, Store, KvError, not_found, find, get, live_entry, write_entry, put_value, delete_key,
  entry_in, entries_or_empty, namespace_map, live_keys, get_keys,
}
use maand.Kv.Lookups.{find-put_value, deleted_at, find-delete_key, purged_at, find-purge_namespace}
use maand.Kv.Namespaces.{IsMap}
use maand.Kv.Shape.{namespace_map-Distinct}
use maand.Kv.RoundTrip.{Change, putting, deleting, purging, change}

write_entry-live :
    (o : Option Entry) (v : String) (t : ℤ)
    → let e = write_entry o v t in (live_entry (some e) ≡ ok e) × (e.value ≡ v) × (e.ttl ≡ t)
unfolding write_entry
write_entry-live none v t = (refl, refl, refl)
write_entry-live (some e) v t = ground (arith, ==_iff e.value v, eq_ℤ_iff e.ttl t)

get-written :
    (n k v : String) (ttl : ℤ) (trim : Bool) (s : Store)
    → let w = write_entry (find n k s) (if trim then trim_space v else v) ttl in
      get n k (put_value n k v ttl trim s) ≡ ok w
unfolding get
get-written n k v ttl trim s =
    let text = if trim then trim_space v else v in
    ap live_entry {y = some (write_entry (find n k s) text ttl)}
      (find-put_value n k v ttl trim s n k ∙ rw (==_refl n) (rw (==_refl k) refl))
    ∙ (write_entry-live (find n k s) text ttl).0

-- What a Get finds of a value that was put, trimmed or not.
pub get-put_value :
    (n k v : String) (ttl : ℤ) (trim : Bool) (s : Store)
    → (e : Entry) × (get n k (put_value n k v ttl trim s) ≡ ok e)
      × (e.value ≡ (if trim then trim_space v else v))
      × (e.ttl ≡ ttl)
get-put_value n k v ttl trim s =
    let text = if trim then trim_space v else v in
    let t = write_entry-live (find n k s) text ttl in
    (write_entry (find n k s) text ttl, get-written n k v ttl trim s, t.1, t.2)

-- A Get after a Put of a key returns an entry with the trimmed value and the ttl, also where the key
-- was deleted before; a Get of any other key returns what it returned before the Put.
pub get-put :
    (n k v : String) (ttl : ℤ) (s : Store)
    → let s' = put_value n k v ttl true s in
      ((e : Entry) × (get n k s' ≡ ok e) × (e.value ≡ trim_space v) × (e.ttl ≡ ttl))
      × ((m j : String) → (m == n && j == k) ≡ false → get m j s' ≡ get m j s)
unfolding get
get-put n k v ttl s = (
  get-put_value n k v ttl true s,
  λ m j other. ap live_entry {y = find m j s} (find-put_value n k v ttl true s m j ∙ rw other refl),
)

-- A Get after a Delete of a key is refused as not found, whether the Delete succeeded or not.
pub get-delete : (n k : String) (s : Store) → get n k (delete_key n k s).0 ≡ err not_found
unfolding get
get-delete n k s =
    ap live_entry {y = deleted_at (find n k s)}
      (find-delete_key n k s n k ∙ rw (==_refl n) (rw (==_refl k) refl))
    ∙ gone (find n k s)
  where
    gone : (o : Option Entry) → live_entry (deleted_at o) ≡ err not_found
    gone none = refl
    gone (some e) = refl

-- Two entries of a key, the later of which is the earlier or marked changed with a greater version.
abbrev pub Advances : Option Entry → Option Entry → Type 0
Advances none o = Unit
Advances (some e) none = ⊥
Advances (some e) (some e') = (e' ≡ e) ⊎ ((e.version < e'.version) × (e'.changed ≡ true))

Advances-refl : (o : Option Entry) → Advances o o
Advances-refl none = tt
Advances-refl (some e) = inl refl

write_entry-Advances :
    (o : Option Entry) (v : String) (t : ℤ) → Advances o (some (write_entry o v t))
unfolding write_entry
write_entry-Advances none v t = tt
write_entry-Advances (some e) v t = elim (Bool-cases (nat_beq e.deleted 1)) [
  | inl gone ↦ rw gone (inr (omega arith, refl))
  | inr live ↦ rw live (elim (Bool-cases (not (eq_ℤ e.ttl t) || not (e.value == v))) [
    | inl differs ↦ rw differs (inr (omega arith, refl))
    | inr same ↦ rw same (inl refl)
  ])
]

deleted_at-Advances : (o : Option Entry) → Advances o (deleted_at o)
deleted_at-Advances none = tt
deleted_at-Advances (some e) = inr (omega arith, refl)

purged_at-Advances : (o : Option Entry) → Advances o (purged_at o)
purged_at-Advances none = tt
purged_at-Advances (some e) = elim (Bool-cases (nat_beq e.deleted 1)) [
  | inl gone ↦ rw (gone, purged_at) (inl refl)
  | inr live ↦ rw (live, purged_at) (inr (omega arith, refl))
]

at_own_key :
    (n k m j : String) (s : Store) (o : Option Entry)
    → (m == n && j == k) ≡ true
    → Advances (find n k s) o
    → Advances (find m j s) o
at_own_key n k m j s o h a =
    let p : m ≡ n = ground (arith, ==_iff m n, ==_iff j k) in
    let q : j ≡ k = ground (arith, ==_iff m n, ==_iff j k) in rw p (rw q a)

-- A Put, a Delete and a purge keep every key that they do not change exactly as it is, lose no key,
-- and give each entry that they change a greater version and the mark that persist writes by.
pub change-Advances :
    (c : Change) (s : Store) (m j : String) → Advances (find m j s) (find m j (change c s))
change-Advances (putting n k v ttl trim) s m j =
    let o : Option Entry = some (write_entry (find n k s) (if trim then trim_space v else v) ttl) in
    rw (find-put_value n k v ttl trim s m j) (elim (Bool-cases (m == n && j == k)) [
      | inl own ↦ rw own (
          at_own_key n k m j s o own
            (write_entry-Advances (find n k s) (if trim then trim_space v else v) ttl))
      | inr other ↦ rw other (Advances-refl (find m j s))
    ])
change-Advances (deleting n k) s m j =
    rw (find-delete_key n k s m j) (elim (Bool-cases (m == n && j == k)) [
      | inl own ↦
          rw own
            (at_own_key n k m j s (deleted_at (find n k s)) own (deleted_at-Advances (find n k s)))
      | inr other ↦ rw other (Advances-refl (find m j s))
    ])
change-Advances (purging n) s m j = rw (find-purge_namespace n s m j) (elim (Bool-cases (m == n)) [
  | inl own ↦ rw own (purged_at-Advances (find m j s))
  | inr other ↦ rw other (Advances-refl (find m j s))
])

abbrev pub is_ok : Result KvError Entry → Bool
is_ok (ok e) = true
is_ok (err x) = false

contains-live_keys :
    (k : String) (ns : Map String Entry)
    → Distinct (keys ns)
    → contains k (live_keys ns) ≡ is_ok (live_entry (lookup k ns))
unfolding live_keys lookup keys contains
contains-live_keys k [] d = refl
contains-live_keys k ((j, e) ∷ ns) d = elim (Bool-cases (k == j)) [
  | inl same ↦ rw same (
      ground (
        arith,
        contains-live_keys k ns d.1,
        lookup_absent k ns,
        ==_iff k j,
        same,
        λ (p : k ≡ j). ap (λ (x : String). contains x (keys ns)) p,
      ))
  | inr other ↦ rw other (ground (arith, contains-live_keys k ns d.1))
]

lookup-namespace_map : (n k : String) (s : Store) → lookup k (namespace_map s n) ≡ find n k s
unfolding find namespace_map
lookup-namespace_map n k s = split (lookup n s.namespaces)
  where
    split : (o : Option (Map String Entry)) → lookup k (entries_or_empty o) ≡ entry_in k o
    split none = unfold lookup in refl
    split (some ns) = refl

-- In a store that is a map of maps, GetKeys lists exactly the keys that Get finds.
pub get_keys-get :
    (n k : String) (s : Store) → IsMap s → contains k (get_keys n s) ≡ is_ok (get n k s)
unfolding get_keys get
get_keys-get n k s h =
    contains-live_keys k (namespace_map s n) (namespace_map-Distinct n s h)
    ∙ ap (λ (o : Option Entry). is_ok (live_entry o)) (lookup-namespace_map n k s)
